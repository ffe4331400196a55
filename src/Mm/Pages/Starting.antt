-- ===== src/Mm/Pages/Starting.antt =====
-- CourseWorks/infos/mm/page-allocator.cpp: `init` on a lawful algorithm.
use inf3_os.Base.{ℕ, Bool, ◌&&◌, ◌||◌, ltb, leb}
use inf3_os.Mm.Pages.{Types, is_available}

-- The pages that the algorithm may still give out when the loop of `init` has reached `pgd`.
abbrev not_yet : Types → ℕ → ℕ → ℕ → Bool
not_yet types nr pgd page = ltb page nr && (leb pgd page || is_available (types page))
