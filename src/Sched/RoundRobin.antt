-- ===== src/Sched/RoundRobin.antt =====
-- CourseWorks/coursework/sched-rr.cpp: every entity gets its turn.
use mathlib.Core.List.{append-nil, append_assoc}
use inf3_os.Base.{
  ◌≡◌, refl, sym, ap, ◌∙◌, List, [], ◌∷◌, ◌++◌, map, some, ok, arith, length, length-append, ◌==◌,
  false,
}
use inf3_os.Util.LinkedList.{append, decremented}
use inf3_os.Util.LinkedList.Counting.{IsCounted, dequeue-cons, elems-append, append-IsCounted}
use inf3_os.Sched.{Entity, Runqueue, rr_pick, picks}
use inf3_os.Sched.Occurs.{IsFit, IsFit-counter}

pub rr_pick-cons :
    (q : Runqueue) (x : Entity) (xs : List Entity)
    → IsFit q
    → q.elems ≡ x ∷ xs
    → (after : Runqueue) × (rr_pick q ≡ ok (after, some x))
      × (after.elems ≡ xs ++ x ∷ [])
      × IsFit after
unfolding rr_pick
rr_pick-cons q x xs f e =
    let full : (q.counter == 0) ≡ false = ground (arith, IsFit-counter q f, ap length e) in
    let rest : Runqueue = record { elems = xs; counter = decremented q.counter } in
    let counted : IsCounted rest = omega (arith, f.counted, ap length e) in
    let placed = elems-append rest x in
    (
      append rest x,
      rw (full, dequeue-cons q x xs e) refl,
      placed,
      record {
        counted = append-IsCounted rest x counted;
        short = omega (arith, ap length placed, length-append xs (x ∷ []), ap length e, f.short);
      },
    )

-- A whole turn over the front part of the runqueue.
turn :
    (front back : List Entity) (q : Runqueue)
    → IsFit q
    → q.elems ≡ front ++ back
    → (after : Runqueue) × (picks rr_pick (length front) q ≡ ok (after, map some front))
      × (after.elems ≡ back ++ front)
      × IsFit after
unfolding picks
turn [] back q f e = (q, refl, e ∙ sym (append-nil back), f)
turn (x ∷ front) back q f e =
    let (mid, picked, mid_elems, fit) = rr_pick-cons q x (front ++ back) f e in
    let (after, rest, after_elems, fit') =
      turn front (back ++ x ∷ []) mid fit (mid_elems ∙ append_assoc front back (x ∷ [])) in
    (after, rw (picked, rest) refl, after_elems ∙ append_assoc back (x ∷ []) front, fit')

-- Round robin is fair. With n entities in the runqueue, any n picks in a row choose each of them
-- once, in the order of the runqueue, and leave the runqueue as it was.
pub rr_pick_fair :
    (q : Runqueue)
    → IsFit q
    → (after : Runqueue) × (picks rr_pick (length q.elems) q ≡ ok (after, map some q.elems))
      × (after.elems ≡ q.elems)
rr_pick_fair q f =
    let (after, done, elems, _) = turn q.elems [] q f (sym (append-nil q.elems)) in
    (after, done, elems)
