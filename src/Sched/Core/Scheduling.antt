-- ===== src/Sched/Core/Scheduling.antt =====
-- CourseWorks/infos/kernel/sched.cpp: `schedule` in a consistent scheduler.
use inf3_os.Base.{
  not, if◌then◌else◌, ap, sym, subst, Option, Outcome, ◌∙◌, inr, inl, ◌==◌, [], Bool-cases, ◌⊎◌, ℕ,
  ◌<◌, ◌≡◌, refl, Bool, true, false, ok, panic, some, none, arith,
}
use inf3_os.Util.Time.{Timepoint}
use inf3_os.Sched.{Entity, Runqueue}
use inf3_os.Sched.Occurs.{occurs, IsFit}
use inf3_os.Sched.Interface.{SchedulingAlgorithm, Picks}
use inf3_os.Sched.Core.{
  schedule, activate, start_clock, switch, reschedule, is_entity, or_idle, update, Scheduler,
  EntityState, stopped, sleeping, runnable, running,
}
use inf3_os.Sched.Core.Moving.{queue_share}
use inf3_os.Sched.Core.Invariant.{IsConsistent, update_same}

share_runnable : (state : EntityState) → 0 < queue_share state → state ≡ runnable
share_runnable runnable h = refl
share_runnable stopped h = ground arith
share_runnable sleeping h = ground arith
share_runnable running h = ground arith

-- A queued entity is runnable.
queued_runnable :
    (s : Scheduler) (e : Entity)
    → IsConsistent s
    → 0 < occurs e s.runqueue.elems
    → s.state e ≡ runnable
queued_runnable s e c h = elim (Bool-cases (e == s.idle_entity)) [
  | inl same ↦
      let e_is : e ≡ s.idle_entity = ground arith in
      subst (λ x. s.state x ≡ runnable) (sym e_is) c.idle_runnable
  | inr other ↦ share_runnable (s.state e) (subst (◌<◌ 0) (c.queued e other) h)
]

-- What `schedule` leaves, `e` being the entity it chose.
pub record IsScheduled (s t : Scheduler) (e : Entity) (now : Timepoint) : Type 0 where
  pub consistent : IsConsistent t
  pub is_current : t.current ≡ some e
  pub runs : t.current_thread ≡ some e
  pub is_runnable : t.state e ≡ runnable
  pub waited : (0 < occurs e s.runqueue.elems) ⊎ ((s.runqueue.elems ≡ []) × (e ≡ s.idle_entity))
  pub same_queue : (x : Entity) → occurs x t.runqueue.elems ≡ occurs x s.runqueue.elems
  pub same_state_of : (x : Entity) → t.state x ≡ s.state x
  pub started_at : t.exec_start_time e ≡ now

-- An answer of the algorithm, with the idle entity in the place of NULL.
record IsChosen (s : Scheduler) (after : Runqueue) (e : Entity) : Type 0 where
  fit : IsFit after
  is_runnable : s.state e ≡ runnable
  waited : (0 < occurs e s.runqueue.elems) ⊎ ((s.runqueue.elems ≡ []) × (e ≡ s.idle_entity))
  same_queue : (x : Entity) → occurs x after.elems ≡ occurs x s.runqueue.elems

Picks-IsChosen :
    (s : Scheduler)
    → IsConsistent s
    → (r : Outcome (Runqueue × Option Entity)) → Picks s.runqueue r
    → (after : Runqueue) × (picked : Option Entity) × (r ≡ ok (after, picked))
      × IsChosen s after (or_idle picked s.idle_entity)
Picks-IsChosen s c panic bad = elim bad [ ]
Picks-IsChosen s c (ok (after, none)) (nothing, same) = (
  after,
  none,
  refl,
  record {
    fit = subst IsFit (sym same) c.fit;
    is_runnable = c.idle_runnable;
    waited = inr (nothing, refl);
    same_queue = λ x. ap (λ q. occurs x q.elems) same;
  },
)
Picks-IsChosen s c (ok (after, some e)) (queued, same, fit) = (
  after,
  some e,
  refl,
  record {
    fit = fit;
    is_runnable = queued_runnable s e c queued;
    waited = inl queued;
    same_queue = same;
  },
)

-- The answer's runqueue is taken over.
chosen-IsConsistent :
    (s : Scheduler) (after : Runqueue) (e : Entity)
    → IsConsistent s
    → IsChosen s after e
    → IsConsistent (record s { runqueue = after })
chosen-IsConsistent s after e c k = record {
  has_algorithm = c.has_algorithm;
  fit = k.fit;
  queued = λ x other. k.same_queue x ∙ c.queued x other;
  idle_unqueued = k.same_queue s.idle_entity ∙ c.idle_unqueued;
  idle_runnable = c.idle_runnable;
  not_running = c.not_running;
  tracked = c.tracked;
}

is_entity-some : (o : Option Entity) (e : Entity) → is_entity o e ≡ true → o ≡ some e
is_entity-some none e h = cc
is_entity-some (some x) e h = let same : x ≡ e = ground arith in ap some same

-- The state that `schedule` leaves.
pub after_switch : Scheduler → Runqueue → Entity → Timepoint → Scheduler
after_switch s after e now = record s {
  runqueue = after;
  current = some e;
  current_thread = some e;
  exec_start_time = update s.exec_start_time e now;
}

after_switch-IsScheduled :
    (s : Scheduler) (after : Runqueue) (e : Entity) (now : Timepoint)
    → IsConsistent s
    → IsChosen s after e
    → IsScheduled s (after_switch s after e now) e now
unfolding after_switch
after_switch-IsScheduled s after e now c k =
    let d = chosen-IsConsistent s after e c k in
    record {
      consistent = record {
        has_algorithm = d.has_algorithm;
        fit = d.fit;
        queued = d.queued;
        idle_unqueued = d.idle_unqueued;
        idle_runnable = d.idle_runnable;
        not_running = d.not_running;
        tracked = λ x h. h;
      };
      is_current = refl;
      runs = refl;
      is_runnable = k.is_runnable;
      waited = k.waited;
      same_queue = k.same_queue;
      same_state_of = λ x. refl;
      started_at = update_same s.exec_start_time e now;
    }

start_clock-some :
    (s : Scheduler) (e : Entity) (now : Timepoint)
    → s.current ≡ some e
    → start_clock s now ≡ ok (record s { exec_start_time = update s.exec_start_time e now })
unfolding start_clock
start_clock-some s e now h = rw h refl

-- The current entity goes on.
resume_switch :
    (s : Scheduler) (after : Runqueue) (e : Entity) (now : Timepoint)
    → s.current ≡ some e
    → s.current_thread ≡ some e
    → start_clock (record s { runqueue = after }) now ≡ ok (after_switch s after e now)
unfolding after_switch
resume_switch s after e now h g =
    start_clock-some (record s { runqueue = after }) e now h
    ∙ ap
        (λ (both : Option Entity × Option Entity). ok (record s {
          runqueue = after;
          exec_start_time = update s.exec_start_time e now;
          current = both.0;
          current_thread = both.1;
        }))
        (λ i. (h i, g i))

activate_other :
    (s : Scheduler) (e : Entity) (prev : Option Entity)
    → s.state e ≡ runnable
    → is_entity prev e ≡ false
    → activate s e prev ≡ ok (record s { current_thread = some e }, true)
unfolding activate
activate_other s e prev h other = rw (h, other) refl

switch_other :
    (s : Scheduler) (e : Entity)
    → s.state e ≡ runnable
    → is_entity s.current e ≡ false
    → switch s e ≡ ok (record s { current_thread = some e; current = some e })
unfolding switch
switch_other s e h other = rw (activate_other s e s.current h other) refl

reschedule_chosen :
    (algorithm : SchedulingAlgorithm) (s : Scheduler) (now : Timepoint) (after : Runqueue)
    (picked : Option Entity)
    → IsConsistent s
    → algorithm.pick_next_entity (λ e. (s.cpu_runtime e).val) s.runqueue ≡ ok (after, picked)
    → s.state (or_idle picked s.idle_entity) ≡ runnable
    → reschedule algorithm s now ≡ ok (after_switch s after (or_idle picked s.idle_entity) now)
unfolding reschedule start_clock after_switch
reschedule_chosen algorithm s now after picked c done h =
    let next = or_idle picked s.idle_entity in
    elim (Bool-cases (is_entity s.current next)) [
      | inl same ↦
          let current_is = is_entity-some s.current next same in
          rw (done, same) (resume_switch s after next now current_is (c.tracked next current_is))
      | inr other ↦
          let switched = switch_other (record s { runqueue = after }) next h other in
          rw (done, other, switched) refl
    ]

schedule_active :
    (algorithm : SchedulingAlgorithm) (s : Scheduler) (now : Timepoint)
    → s.active ≡ true
    → s.installed ≡ true
    → schedule algorithm s now ≡ reschedule algorithm s now
unfolding schedule
schedule_active algorithm s now active installed =
    let go = reschedule algorithm s now in
    ap (λ (b : Bool). if not b then ok s else if not s.installed then ok s else go) active
    ∙ ap (λ (b : Bool). if not b then ok s else go) installed

-- In a consistent scheduler that is active, `schedule` finishes under any algorithm that keeps the
-- contract: no assertion fails and no NULL is followed. It leaves a consistent scheduler whose
-- current entity is the thread that runs, is runnable, was queued (or is the idle entity, where the
-- runqueue is empty) and has `now` for its start time; the runqueue holds the entities it held, and
-- no state changes.
pub schedule-IsScheduled :
    (algorithm : SchedulingAlgorithm) (s : Scheduler) (now : Timepoint)
    → IsConsistent s
    → s.active ≡ true
    → (t : Scheduler) × (e : Entity) × (schedule algorithm s now ≡ ok t) × IsScheduled s t e now
schedule-IsScheduled algorithm s now c active =
    let runtime : Entity → ℕ = λ e. (s.cpu_runtime e).val in
    let (after, picked, done, k) =
      Picks-IsChosen s c (algorithm.pick_next_entity runtime s.runqueue)
        (algorithm.pick_lawful runtime s.runqueue c.fit) in
    let next = or_idle picked s.idle_entity in
    (
      after_switch s after next now,
      next,
      schedule_active algorithm s now active c.has_algorithm
          ∙ reschedule_chosen algorithm s now after picked c done k.is_runnable,
      after_switch-IsScheduled s after next now c k,
    )
