-- ===== src/Sched/Core/Moving.antt =====
-- CourseWorks/infos/kernel/sched.cpp: the runqueue as an entity moves between the states.
use inf3_os.Base.{
  [], ◌∷◌, length-append, inr, inl, Option-cases, ◌==◌, suc, ◌+◌, ℕ, ◌<◌, ◌≡◌, refl, false, ok,
  arith, length,
}
use inf3_os.Util.Equality.{ℕ_eq}
use inf3_os.Util.LinkedList.{remove_link, remove, u32_mod}
use inf3_os.Sched.{Entity, Runqueue, add_to_runqueue, remove_from_runqueue}
use inf3_os.Sched.Occurs.{occurs-remove_link, occurs-append, occurs_absent, occurs, is_one, IsFit}
use inf3_os.Util.LinkedList.Counting.{
  append-IsCounted, elems-append, remove-IsCounted, remove-short,
}
use inf3_os.Sched.Core.{
  change_runqueue, EntityState, stopped, sleeping, runnable, running, same_state,
}

-- How often an entity in a state stands in the runqueue.
abbrev pub queue_share : EntityState → ℕ
queue_share runnable = 1
queue_share _ = 0

pub add_to_runqueue-IsFit :
    (q : Runqueue) (e : Entity)
    → IsFit q
    → suc (length q.elems) < u32_mod
    → IsFit (add_to_runqueue q e)
unfolding add_to_runqueue
add_to_runqueue-IsFit q e f h = record {
  counted = append-IsCounted q e f.counted;
  short = rw (elems-append q e, length-append q.elems (e ∷ [])) (omega arith);
}

pub occurs-add_to_runqueue :
    (x : Entity) (q : Runqueue) (e : Entity)
    → occurs x (add_to_runqueue q e).elems ≡ is_one e x + occurs x q.elems
unfolding add_to_runqueue occurs
occurs-add_to_runqueue x q e =
    rw (elems-append q e) (omega (arith, occurs-append x q.elems (e ∷ [])))

pub remove_from_runqueue-IsFit :
    (q : Runqueue) (e : Entity) → IsFit q → IsFit (remove_from_runqueue q e)
unfolding remove_from_runqueue
remove_from_runqueue-IsFit q e f = record {
  counted = remove-IsCounted q e f.counted;
  short = remove-short q e f.short;
}

pub occurs-remove_from_runqueue :
    (x : Entity) (q : Runqueue) (e : Entity)
    → 0 < occurs e q.elems
    → occurs x q.elems ≡ is_one e x + occurs x (remove_from_runqueue q e).elems
unfolding remove_from_runqueue remove
occurs-remove_from_runqueue x q e h = elim (Option-cases (remove_link e q.elems)) [
  | inl absent ↦ omega (arith, occurs_absent e q.elems absent)
  | inr (ys, found) ↦ rw (found, remove) (occurs-remove_link x e q.elems found)
]

-- One entity moves between the states, and the runqueue follows it.
pub record IsMoved (q q' : Runqueue) (e : Entity) (old new_state : EntityState) : Type 0 where
  pub fit : IsFit q'
  pub self : occurs e q'.elems ≡ queue_share new_state
  pub others : (x : Entity) → (x == e) ≡ false → occurs x q'.elems ≡ occurs x q.elems

added_IsMoved :
    (q : Runqueue) (e : Entity) (old : EntityState)
    → IsFit q
    → suc (length q.elems) < u32_mod
    → occurs e q.elems ≡ 0
    → IsMoved q (add_to_runqueue q e) e old runnable
added_IsMoved q e old f h absent = record {
  fit = add_to_runqueue-IsFit q e f h;
  self = ground (arith, occurs-add_to_runqueue e q e);
  others = λ x other. ground (arith, occurs-add_to_runqueue x q e);
}

removed_IsMoved :
    (q : Runqueue) (e : Entity) (new_state : EntityState)
    → IsFit q
    → occurs e q.elems ≡ 1
    → queue_share new_state ≡ 0
    → IsMoved q (remove_from_runqueue q e) e runnable new_state
removed_IsMoved q e new_state f once none_left = record {
  fit = remove_from_runqueue-IsFit q e f;
  self = ground (arith, occurs-remove_from_runqueue e q e (omega arith));
  others = λ x other. ground (arith, occurs-remove_from_runqueue x q e (omega arith));
}

kept_IsMoved :
    (q : Runqueue) (e : Entity) (old new_state : EntityState)
    → IsFit q
    → occurs e q.elems ≡ queue_share new_state
    → IsMoved q q e old new_state
kept_IsMoved q e old new_state f same = record { fit = f; self = same; others = λ x other. refl }

pub change_runqueue-IsMoved :
    (q : Runqueue) (e : Entity) (old new_state : EntityState)
    → IsFit q
    → suc (length q.elems) < u32_mod
    → occurs e q.elems ≡ queue_share old
    → same_state old running ≡ false
    → same_state new_state running ≡ false
    → same_state old new_state ≡ false
    → (q' : Runqueue) × (change_runqueue q e old new_state ≡ ok q') × IsMoved q q' e old new_state
unfolding change_runqueue
change_runqueue-IsMoved q e running new_state f h share o n d = cc
change_runqueue-IsMoved q e stopped running f h share o n d = cc
change_runqueue-IsMoved q e sleeping running f h share o n d = cc
change_runqueue-IsMoved q e runnable running f h share o n d = cc
change_runqueue-IsMoved q e stopped stopped f h share o n d = cc
change_runqueue-IsMoved q e sleeping sleeping f h share o n d = cc
change_runqueue-IsMoved q e runnable runnable f h share o n d = cc
change_runqueue-IsMoved q e stopped runnable f h share o n d =
    (add_to_runqueue q e, refl, added_IsMoved q e stopped f h share)
change_runqueue-IsMoved q e sleeping runnable f h share o n d =
    (add_to_runqueue q e, refl, added_IsMoved q e sleeping f h share)
change_runqueue-IsMoved q e stopped sleeping f h share o n d =
    (q, refl, kept_IsMoved q e stopped sleeping f share)
change_runqueue-IsMoved q e sleeping stopped f h share o n d =
    (q, refl, kept_IsMoved q e sleeping stopped f share)
change_runqueue-IsMoved q e runnable stopped f h share o n d =
    (remove_from_runqueue q e, refl, removed_IsMoved q e stopped f share refl)
change_runqueue-IsMoved q e runnable sleeping f h share o n d =
    (remove_from_runqueue q e, refl, removed_IsMoved q e sleeping f share refl)
