-- ===== src/Sched/Interface.antt =====
-- CourseWorks/infos/include/infos/kernel/sched.h: what `Scheduler` relies on of a
-- `SchedulingAlgorithm`, and that the three algorithms provide it.
use inf3_os.Base.{
  ℕ, ◌<◌, ◌≡◌, refl, ap, List, [], ◌∷◌, ◌++◌, Option, none, some, Outcome, ok, panic, arith, length,
  ◌==◌, List-cases, inl, inr, true,
}
use inf3_os.Sched.{Entity, Runqueue, rr_pick, fifo_pick, cfs_pick}
use inf3_os.Sched.Occurs.{occurs, occurs-append, IsFit, IsFit-counter}
use inf3_os.Sched.RoundRobin.{rr_pick-cons}
use inf3_os.Sched.Fifo.{fifo_pick-cons}
use inf3_os.Sched.Fair.{cfs_pick-IsLeast}

-- The answer NULL is for the empty runqueue only. An entity is one of the runqueue, which goes on
-- to hold the same entities, each as often.
abbrev pub Picks : Runqueue → Outcome (Runqueue × Option Entity) → Type 0
Picks q panic = ⊥
Picks q (ok (after, none)) = (q.elems ≡ []) × (after ≡ q)
Picks q (ok (after, some e)) =
    (0 < occurs e q.elems) × ((x : Entity) → occurs x after.elems ≡ occurs x q.elems) × IsFit after

-- `pick_next_entity`, which may look at the CPU times, and its contract.
pub record SchedulingAlgorithm : Type 0 where
  pub pick_next_entity : (Entity → ℕ) → Runqueue → Outcome (Runqueue × Option Entity)
  pub pick_lawful :
      (runtime : Entity → ℕ) (q : Runqueue) → IsFit q → Picks q (pick_next_entity runtime q)

occurs_first :
    (q : Runqueue) (x : Entity) (xs : List Entity) → q.elems ≡ x ∷ xs → 0 < occurs x q.elems
unfolding occurs
occurs_first q x xs e = rw e (ground arith)

occurs_split :
    (x : Entity) (before behind list : List Entity)
    → list ≡ before ++ x ∷ behind
    → 0 < occurs x list
unfolding occurs
occurs_split x before behind list e = rw (e, occurs-append x before (x ∷ behind)) (ground arith)

occurs_rotate : (e x : Entity) (xs : List Entity) → occurs e (xs ++ x ∷ []) ≡ occurs e (x ∷ xs)
unfolding occurs
occurs_rotate e x xs = omega (arith, occurs-append e xs (x ∷ []))

empty_counter : (q : Runqueue) → IsFit q → q.elems ≡ [] → (q.counter == 0) ≡ true
empty_counter q f e = ground (arith, IsFit-counter q f, ap length e)

-- The three algorithms keep the contract.
pub rr_pick_lawful : (runtime : Entity → ℕ) (q : Runqueue) → IsFit q → Picks q (rr_pick q)
unfolding rr_pick
rr_pick_lawful runtime q f = elim (List-cases q.elems) [
  | inl e ↦ rw (empty_counter q f e) (e, refl)
  | inr (x, xs, e) ↦
      let (after, done, elems, fit) = rr_pick-cons q x xs f e in
      rw done (occurs_first q x xs e, (λ z. rw (elems, e) (occurs_rotate z x xs)), fit)
]

pub fifo_pick_lawful : (runtime : Entity → ℕ) (q : Runqueue) → IsFit q → Picks q (fifo_pick q)
unfolding fifo_pick
fifo_pick_lawful runtime q f = elim (List-cases q.elems) [
  | inl e ↦ rw (empty_counter q f e) (e, refl)
  | inr (x, xs, e) ↦ rw (fifo_pick-cons q x xs f e) (occurs_first q x xs e, (λ z. refl), f)
]

pub cfs_pick_lawful : (runtime : Entity → ℕ) (q : Runqueue) → IsFit q → Picks q (cfs_pick runtime q)
unfolding cfs_pick
cfs_pick_lawful runtime q f = elim (List-cases q.elems) [
  | inl e ↦ rw (empty_counter q f e) (e, refl)
  | inr (x, xs, e) ↦
      let (found, done, least) = cfs_pick-IsLeast runtime q x xs f e in
      rw done (occurs_split found least.before least.behind q.elems least.split, (λ z. refl), f)
]

abbrev pub round_robin : SchedulingAlgorithm
round_robin = record { pick_next_entity = λ runtime. rr_pick; pick_lawful = rr_pick_lawful }

abbrev pub fifo : SchedulingAlgorithm
fifo = record { pick_next_entity = λ runtime. fifo_pick; pick_lawful = fifo_pick_lawful }

abbrev pub completely_fair : SchedulingAlgorithm
completely_fair = record { pick_next_entity = cfs_pick; pick_lawful = cfs_pick_lawful }
