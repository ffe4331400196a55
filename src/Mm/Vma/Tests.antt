-- ===== src/Mm/Vma/Tests.antt =====
-- Instances of the theorems on virtual memory areas, with a page allocator that counts upwards.
use inf3_os.Base.{
  ℕ, ◌+◌, ◌^◌, ◌<◌, ◌≡◌, ◌⊎◌, inl, leb, Option, some, [], ◌∷◌, Outcome, ok, panic, arith, refl,
}
use inf3_os.Mm.Vma.{Vma, Tables, insert_mapping}
use inf3_os.Mm.Vma.Entries.{zero_entry}
use inf3_os.Mm.Vma.Walking.{Tree}
use inf3_os.Mm.Vma.Source.{PageSource, IsOrdered, Refuses}
use inf3_os.Mm.Vma.Mapping.{Maps, insert_mapping-Maps}
use inf3_os.Mm.Vma.Starting.{root_tree}

abbrev count_pages : ℕ → ℕ → Outcome (ℕ × Option ℕ)
count_pages next order = ok (next + 2 ^ order, some next)

counting : PageSource count_pages
counting = record {
  is_free = λ next page. leb next page;
  IsValid = λ next. 0 < next;
  zero_taken = λ next valid. ground arith;
  supplies =
      λ next order low valid. (omega arith, (λ page from to. ground arith), λ page. ground arith);
}

abbrev empty_tables : Tables
empty_tables page idx = 0

one_left : counting.IsValid 1
unfolding counting
one_left = omega arith

-- An area whose root is page 1.
abbrev one_table : Vma ℕ
one_table = record {
  pgt_phys_base = 4096;
  page_allocations = (1, 0) ∷ [];
  pgalloc = 2;
  tables = empty_tables;
}

one_table-IsOrdered : IsOrdered counting one_table (root_tree 1)
unfolding counting
one_table-IsOrdered = (
  omega arith,
  record {
    root_table = refl;
    root_level = refl;
    taken = λ page h. ground arith;
    below = λ page h. ground arith;
    entries = λ page i h low user. inl zero_entry;
  },
)

insert_mapping-Maps_example :
    ((after : Vma ℕ) × (now : Tree) × (insert_mapping count_pages one_table 4198400 20480 7
        ≡ ok after)
      × Maps counting one_table 4198400 20480 7 after now)
    ⊎ (insert_mapping count_pages one_table 4198400 20480 7 ≡ panic) × Refuses counting 3 2
insert_mapping-Maps_example =
    insert_mapping-Maps counting one_table (root_tree 1) 4198400 20480 7 one_table-IsOrdered refl
