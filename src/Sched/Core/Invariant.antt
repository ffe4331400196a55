-- ===== src/Sched/Core/Invariant.antt =====
-- CourseWorks/infos/kernel/sched.cpp: the invariant of the scheduler, kept by `set_entity_state`.
use inf3_os.Base.{
  sym, subst, Bool-cases, ==_refl, ◌∙◌, inr, inl, ◌==◌, suc, ◌<◌, ◌≡◌, refl, true, false, ok, some,
  arith, length,
}
use inf3_os.Util.Equality.{ℕ_eq}
use inf3_os.Util.LinkedList.{u32_mod}
use inf3_os.Sched.{Entity, Runqueue}
use inf3_os.Sched.Occurs.{occurs, IsFit}
use inf3_os.Sched.Core.Moving.{queue_share, IsMoved, change_runqueue-IsMoved}
use inf3_os.Sched.Core.{
  set_entity_state, update, Scheduler, EntityState, stopped, sleeping, runnable, running,
  same_state,
}

-- The runqueue holds the runnable entities, each once, the idle entity aside. The idle entity stays
-- runnable. No entity is `running`: the kernel never asks for that state. The thread that the
-- architecture runs is the current entity.
pub record IsConsistent (s : Scheduler) : Type 0 where
  pub has_algorithm : s.installed ≡ true
  pub fit : IsFit s.runqueue
  pub queued :
      (e : Entity)
      → (e == s.idle_entity) ≡ false
      → occurs e s.runqueue.elems ≡ queue_share (s.state e)
  pub idle_unqueued : occurs s.idle_entity s.runqueue.elems ≡ 0
  pub idle_runnable : s.state s.idle_entity ≡ runnable
  pub not_running : (e : Entity) → same_state (s.state e) running ≡ false
  pub tracked : (e : Entity) → s.current ≡ some e → s.current_thread ≡ some e

same_state_eq : (a b : EntityState) → same_state a b ≡ true → a ≡ b
same_state_eq stopped stopped h = refl
same_state_eq sleeping sleeping h = refl
same_state_eq runnable runnable h = refl
same_state_eq running running h = refl
same_state_eq stopped sleeping h = cc
same_state_eq stopped runnable h = cc
same_state_eq stopped running h = cc
same_state_eq sleeping stopped h = cc
same_state_eq sleeping runnable h = cc
same_state_eq sleeping running h = cc
same_state_eq runnable stopped h = cc
same_state_eq runnable sleeping h = cc
same_state_eq runnable running h = cc
same_state_eq running stopped h = cc
same_state_eq running sleeping h = cc
same_state_eq running runnable h = cc

-- What a call of `set_entity_state` leaves.
pub record IsStateSet (s t : Scheduler) (e : Entity) (new_state : EntityState) : Type 0 where
  pub consistent : IsConsistent t
  pub now_in : t.state e ≡ new_state
  pub others_in : (x : Entity) → (x == e) ≡ false → t.state x ≡ s.state x
  pub same_current : t.current ≡ s.current

pub update_same : {A : Type 0} (f : Entity → A) (e : Entity) (a : A) → update f e a e ≡ a
update_same f e a = rw (==_refl e) refl

update_other :
    {A : Type 0} (f : Entity → A) (e x : Entity) (a : A) → (x == e) ≡ false → update f e a x ≡ f x
update_other f e x a other = rw other refl

-- A predicate of the new state for `e`, and of the old states for the others.
update_each :
    {A : Type 0} (P : Entity → A → Type 0) (f : Entity → A) (e : Entity) (a : A)
    → P e a
    → ((x : Entity) → (x == e) ≡ false → P x (f x))
    → (x : Entity) → P x (update f e a x)
update_each P f e a self others x = elim (Bool-cases (x == e)) [
  | inl same ↦
      let x_is : e ≡ x = ground arith in
      subst (λ z. P z (update f e a z)) x_is (subst (P e) (sym (update_same f e a)) self)
  | inr other ↦ subst (P x) (sym (update_other f e x a other)) (others x other)
]

moved_IsStateSet :
    (s : Scheduler) (e : Entity) (new_state : EntityState) (q' : Runqueue)
    → IsConsistent s
    → (e == s.idle_entity) ≡ false
    → same_state new_state running ≡ false
    → IsMoved s.runqueue q' e (s.state e) new_state
    → IsStateSet s (record s { runqueue = q'; state = update s.state e new_state }) e new_state
moved_IsStateSet s e new_state q' c away allowed m =
    let idle_other : (s.idle_entity == e) ≡ false = ground (arith, away) in
    record {
      consistent = record {
        has_algorithm = c.has_algorithm;
        fit = m.fit;
        queued =
            update_each
              (λ x state. (x == s.idle_entity) ≡ false → occurs x q'.elems ≡ queue_share state)
              s.state e new_state (λ h. m.self) (λ x other h. m.others x other ∙ c.queued x h);
        idle_unqueued = m.others s.idle_entity idle_other ∙ c.idle_unqueued;
        idle_runnable = update_other s.state e s.idle_entity new_state idle_other ∙ c.idle_runnable;
        not_running =
            update_each (λ x state. same_state state running ≡ false) s.state e new_state allowed
              (λ x other. c.not_running x);
        tracked = c.tracked;
      };
      now_in = update_same s.state e new_state;
      others_in = λ x other. update_other s.state e x new_state other;
      same_current = refl;
    }

kept_IsStateSet :
    (s : Scheduler) (e : Entity) (new_state : EntityState)
    → IsConsistent s
    → s.state e ≡ new_state
    → IsStateSet s s e new_state
kept_IsStateSet s e new_state c same = record {
  consistent = c;
  now_in = same;
  others_in = λ x other. refl;
  same_current = refl;
}

-- In a consistent scheduler, `set_entity_state` of an entity that is not the idle one to any state
-- but `running`, where the runqueue has room in its counter, does not fail an assertion. The
-- scheduler stays consistent, the entity is in the new state, and the states of the others and the
-- current entity stay.
pub set_entity_state-IsStateSet :
    (s : Scheduler) (e : Entity) (new_state : EntityState)
    → IsConsistent s
    → (e == s.idle_entity) ≡ false
    → same_state new_state running ≡ false
    → suc (length s.runqueue.elems) < u32_mod
    → (t : Scheduler) × (set_entity_state s e new_state ≡ ok t) × IsStateSet s t e new_state
unfolding set_entity_state
set_entity_state-IsStateSet s e new_state c away allowed room =
    elim (Bool-cases (same_state (s.state e) new_state)) [
      | inl same ↦ (
        s,
        rw (c.has_algorithm, same) refl,
        kept_IsStateSet s e new_state c (same_state_eq (s.state e) new_state same),
      )
      | inr differ ↦
          let (q', done, m) =
            change_runqueue-IsMoved s.runqueue e (s.state e) new_state c.fit room (c.queued e away)
              (c.not_running e) allowed differ in
          (
            record s { runqueue = q'; state = update s.state e new_state },
            rw (c.has_algorithm, differ, done) refl,
            moved_IsStateSet s e new_state q' c away allowed m,
          )
    ]
