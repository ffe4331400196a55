-- ===== src/Kernel/Syscalls/Dispatch.antt =====
-- CourseWorks/infos/kernel/syscall.cpp: which function a system call reaches.
use inf3_os.Base.{
  ℕ, suc, ◌+◌, ◌-◌, ◌<◌, ◌≤◌, ◌≡◌, refl, ap, ◌∙◌, true, false, List, [], ◌∷◌, Option, none, some,
  ltb, ◌==◌, if◌then◌else◌, length, get_elem?, arith, Bool-cases, inl, inr,
}
use inf3_os.Kernel.Syscalls.{
  Table, empty_table, out_of_range, register_syscall, invoked, register_from, default_syscalls,
  default_table, DefaultSyscall,
}

module _ {Fn : Type 0} where
  abbrev or_before : Option Fn → Option Fn → Option Fn
  or_before none before = before
  or_before (some fn) before = some fn

  register_syscall-invoked :
      (table : Table Fn) (nr n : ℕ) (fn : Fn)
      → nr < 256
      → invoked (register_syscall table nr fn) n ≡ (if n == nr then some fn else invoked table n)
  unfolding register_syscall invoked
  register_syscall-invoked table nr n fn low = ground arith

  -- The functions from a number on.
  register_from-invoked :
      (fns : List Fn) (nr n : ℕ) (table : Table Fn)
      → nr + length fns ≤ 256
      → invoked (register_from nr fns table) n ≡ (
          if ltb n nr
          then invoked table n
          else or_before (get_elem? fns (n - nr)) (invoked table n))
  unfolding register_from
  register_from-invoked [] nr n table fits = elim (Bool-cases (ltb n nr)) [
    | inl h ↦ rw h refl
    | inr h ↦ rw h refl
  ]
  register_from-invoked (fn ∷ fns) nr n table fits =
      let later =
        register_from-invoked fns (suc nr) n (register_syscall table nr fn) (omega arith) in
      let now = register_syscall-invoked table nr n fn (omega arith) in
      elim (Bool-cases (ltb n nr)) [
        | inl below ↦
            let below' : ltb n (suc nr) ≡ true = ground arith in
            let other : (n == nr) ≡ false = ground arith in
            later ∙ rw (below', below) (now ∙ rw other refl)
        | inr above ↦ elim (Bool-cases (n == nr)) [
          | inl same ↦
              let here : ltb n (suc nr) ≡ true = ground arith in
              let first : n - nr ≡ 0 = ground arith in
              later ∙ rw (here, above, first) (now ∙ rw same refl)
          | inr other ↦
              let further : ltb n (suc nr) ≡ false = ground arith in
              let next : n - nr ≡ suc (n - suc nr) = ground arith in
              later
              ∙ rw (further, above, next)
                  (ap (or_before (get_elem? fns (n - suc nr))) (now ∙ rw other refl))
        ]
      ]

none_before : {Fn : Type 0} (fn : Option Fn) → or_before fn none ≡ fn
none_before none = refl
none_before (some fn) = refl

nothing_before : (n : ℕ) → invoked (empty_table {Fn = DefaultSyscall}) n ≡ none
unfolding invoked
nothing_before n = elim (Bool-cases (out_of_range n)) [ inl h ↦ rw h refl | inr h ↦ rw h refl ]

-- After `RegisterDefaultSyscalls` the numbers from 0 to 16 reach the functions in their order, and
-- every other number, negative ones and those from 256 on included, returns -1.
pub default_table-invoked : (n : ℕ) → invoked default_table n ≡ get_elem? default_syscalls n
default_table-invoked n =
    let not_below : ltb n 0 ≡ false = ground arith in
    let same : n - 0 ≡ n = omega arith in
    register_from-invoked default_syscalls 0 n empty_table (omega arith)
    ∙ rw (not_below, same, nothing_before n) (none_before (get_elem? default_syscalls n))
