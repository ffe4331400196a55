-- ===== src/Sched/Fifo.antt =====
-- CourseWorks/coursework/sched-fifo.cpp: only the first entity ever runs.
use inf3_os.Base.{ℕ, zero, suc, ◌≡◌, refl, ap, List, [], ◌∷◌, some, ok, arith, length, ◌==◌, false}
use inf3_os.Util.LinkedList.Counting.{first-cons}
use inf3_os.Sched.{Entity, Runqueue, fifo_pick, picks}
use inf3_os.Sched.Occurs.{IsFit, IsFit-counter}

abbrev pub replicate {ℓ} : {A : Type ℓ} → ℕ → A → List A
replicate zero a = []
replicate (suc n) a = a ∷ replicate n a

pub fifo_pick-cons :
    (q : Runqueue) (x : Entity) (xs : List Entity)
    → IsFit q
    → q.elems ≡ x ∷ xs
    → fifo_pick q ≡ ok (q, some x)
unfolding fifo_pick
fifo_pick-cons q x xs f e =
    let full : (q.counter == 0) ≡ false = ground (arith, IsFit-counter q f, ap length e) in
    rw (full, first-cons q x xs e) refl

-- FIFO starves all but the first. However many picks follow one another, each chooses the first
-- entity of the runqueue, and the runqueue does not change: while the first entity stays, no other
-- runs.
pub fifo_pick_starves :
    (n : ℕ) (q : Runqueue) (x : Entity) (xs : List Entity)
    → IsFit q
    → q.elems ≡ x ∷ xs
    → picks fifo_pick n q ≡ ok (q, replicate n (some x))
unfolding picks
fifo_pick_starves zero q x xs f e = refl
fifo_pick_starves (suc n) q x xs f e =
    rw (fifo_pick-cons q x xs f e, fifo_pick_starves n q x xs f e) refl
