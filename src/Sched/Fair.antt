-- ===== src/Sched/Fair.antt =====
-- CourseWorks/infos/kernel/sched-cfs.cpp: the entity with the least CPU time runs.
use mathlib.Core.List.{append-nil, append_assoc}
use inf3_os.Base.{
  All-append, ℕ, ◌≤◌, ◌<◌, ◌≡◌, refl, ap, ◌∙◌, List, [], ◌∷◌, ◌++◌, some, none, ok, arith, length,
  All, ◌==◌, false, true, ltb, Bool-cases, inl, inr,
}
use inf3_os.Util.LinkedList.Counting.{first-cons}
use inf3_os.Sched.{Entity, Runqueue, cfs_pick, min_loop}
use inf3_os.Sched.Occurs.{IsFit, IsFit-counter}

-- `best` stands in the list; those before it need more CPU time, and those behind it no less.
pub record IsLeast (runtime : Entity → ℕ) (list : List Entity) (best : Entity) : Type 0 where
  pub before : List Entity
  pub behind : List Entity
  pub split : list ≡ before ++ best ∷ behind
  pub more : All (λ e. runtime best < runtime e) before
  pub no_less : All (λ e. runtime best ≤ runtime e) behind

All-mono :
    {P R : Entity → Type 0} (xs : List Entity) → ((e : Entity) → P e → R e) → All P xs → All R xs
All-mono [] f h = tt
All-mono (x ∷ xs) f h = (f x h.0, All-mono xs f h.1)

-- The loop, once a first entity was found: `seen` is `before ++ best ∷ behind`.
min_loop-IsLeast :
    (runtime : Entity → ℕ) (best : Entity) (before behind rest : List Entity)
    → All (λ e. runtime best < runtime e) before
    → All (λ e. runtime best ≤ runtime e) behind
    → (found : Entity) × (min_loop runtime (runtime best) (some best) rest ≡ some found)
      × IsLeast runtime (before ++ best ∷ (behind ++ rest)) found
unfolding min_loop
min_loop-IsLeast runtime best before behind [] more no_less = (
  best,
  refl,
  record {
    before = before;
    behind = behind ++ [];
    split = refl;
    more = more;
    no_less = rw append-nil no_less;
  },
)
min_loop-IsLeast runtime best before behind (e ∷ rest) more no_less =
    elim (Bool-cases (ltb (runtime e) (runtime best))) [
      | inl less ↦
          let less_lt : runtime e < runtime best = ground arith in
          let (found, done, least) =
            min_loop-IsLeast runtime e (before ++ best ∷ behind) [] rest
              (All-append _ before (best ∷ behind)
                (All-mono before (λ z h. omega (arith, less_lt)) more)
                (less_lt, All-mono behind (λ z h. omega (arith, less_lt)) no_less))
              tt in
          (found, rw less done, rw (append_assoc before (best ∷ behind) (e ∷ rest)) at least)
      | inr not_less ↦
          let (found, done, least) =
            min_loop-IsLeast runtime best before (behind ++ e ∷ []) rest more
              (All-append _ behind (e ∷ []) no_less (ground arith, tt)) in
          (found, rw not_less done, rw (append_assoc behind (e ∷ []) rest) at least)
    ]

-- The pick is the first of the entities that have had the least CPU time; the runqueue stays.
pub cfs_pick-IsLeast :
    (runtime : Entity → ℕ) (q : Runqueue) (x : Entity) (xs : List Entity)
    → IsFit q
    → q.elems ≡ x ∷ xs
    → (found : Entity) × (cfs_pick runtime q ≡ ok (q, some found)) × IsLeast runtime q.elems found
unfolding cfs_pick min_loop
cfs_pick-IsLeast runtime q x [] f e =
    let filled : (q.counter == 0) ≡ false = ground (arith, IsFit-counter q f, ap length e) in
    let one : (q.counter == 1) ≡ true = ground (arith, IsFit-counter q f, ap length e) in
    (
      x,
      rw (filled, one, first-cons q x [] e) refl,
      rw e (record { before = []; behind = []; split = refl; more = tt; no_less = tt }),
    )
cfs_pick-IsLeast runtime q x (y ∷ ys) f e =
    let counter = IsFit-counter q f in
    let filled : (q.counter == 0) ≡ false = ground (arith, counter, ap length e) in
    let many : (q.counter == 1) ≡ false = ground (arith, counter, ap length e) in
    let (found, done, least) = min_loop-IsLeast runtime x [] [] (y ∷ ys) tt tt in
    let loop : min_loop runtime 0 none q.elems ≡ some found =
      ap (min_loop runtime 0 none) e ∙ done in
    (found, rw (filled, many) (ap (λ o. ok (q, o)) loop), rw e least)
