-- ===== src/Sched/Core.antt =====
-- CourseWorks/infos/kernel/sched.cpp: the scheduler proper, over any scheduling algorithm, with
-- `Thread::activate` of CourseWorks/infos/kernel/thread.cpp. Entities are threads. `_state_changed`
-- and the log are left out; the clock is an argument.
pub mod Moving
pub mod Invariant
pub mod Scheduling
pub mod Starting
pub mod Accounting
use inf3_os.Base.{
  ℕ, Bool, true, false, ◌||◌, not, Option, none, some, Outcome, ok, panic, assert, ◌>>=◌, ◌>>◌,
  ◌==◌, if◌then◌else◌,
}
use inf3_os.Util.Time.{Duration, Timepoint, add_assign, between}
use inf3_os.Util.LinkedList.{LinkedList, new}
use inf3_os.Sched.{Entity, Runqueue, add_to_runqueue, remove_from_runqueue}
use inf3_os.Sched.Interface.{SchedulingAlgorithm}

pub data EntityState : Type 0 where
  stopped sleeping runnable running : EntityState

abbrev pub same_state : EntityState → EntityState → Bool
same_state stopped stopped = true
same_state sleeping sleeping = true
same_state runnable runnable = true
same_state running running = true
same_state _ _ = false

-- The fields of `Scheduler`, the fields of its entities, and the thread that the architecture runs.
-- `installed` is `_algorithm != NULL`; the algorithm's own state is its runqueue.
pub record Scheduler : Type 0 where
  pub active : Bool
  pub installed : Bool
  pub current : Option Entity
  pub idle_entity : Entity
  pub runqueue : Runqueue
  pub state : Entity → EntityState
  pub cpu_runtime : Entity → Duration
  pub exec_start_time : Entity → Timepoint
  pub current_thread : Option Entity

abbrev pub update : {A : Type 0} → (Entity → A) → Entity → A → Entity → A
update f e a x = if x == e then a else f x

-- Pointers compared, NULL among them.
abbrev pub is_entity : Option Entity → Entity → Bool
is_entity none e = false
is_entity (some x) e = x == e

-- `Thread::activate`.
unfoldable pub activate : Scheduler → Entity → Option Entity → Outcome (Scheduler × Bool)
activate s this prev = do
  assert (same_state (s.state this) runnable)
  ok (if is_entity prev this then (s, true) else (record s { current_thread = some this }, true))

-- The part of `schedule` for a `next` that is not the current entity.
unfoldable pub switch : Scheduler → Entity → Outcome Scheduler
switch s next = do
  (activated, done) ← activate s next s.current
  (let fall_back = do
    (idled, idle_done) ← activate activated s.idle_entity s.current
    (if idle_done then ok (record idled { current = some s.idle_entity }) else panic)
    in if done then ok (record activated { current = some next }) else fall_back)

abbrev pub or_idle : Option Entity → Entity → Entity
or_idle none idle = idle
or_idle (some e) idle = e

-- `update_exec_start_time` on the current entity.
unfoldable pub start_clock : Scheduler → Timepoint → Outcome Scheduler
start_clock s now = elim s.current [
  | none ↦ panic
  | some e ↦ ok (record s { exec_start_time = update s.exec_start_time e now })
]

-- `schedule`, once it is active and has an algorithm.
unfoldable pub reschedule : SchedulingAlgorithm → Scheduler → Timepoint → Outcome Scheduler
reschedule algorithm s now = do
  (runqueue, picked) ← algorithm.pick_next_entity (λ e. (s.cpu_runtime e).val) s.runqueue
  let chosen : Scheduler = record s { runqueue = runqueue }
  let next = or_idle picked s.idle_entity
  switched ← (if is_entity s.current next then ok chosen else switch chosen next)
  start_clock switched now

unfoldable pub schedule : SchedulingAlgorithm → Scheduler → Timepoint → Outcome Scheduler
schedule algorithm s now =
    if not s.active then ok s else if not s.installed then ok s else reschedule algorithm s now

unfoldable pub update_accounting : Scheduler → Timepoint → Scheduler
update_accounting s now = elim s.current [
  | none ↦ s
  | some e ↦
      let delta = between now (s.exec_start_time e) in
      record s {
        cpu_runtime = update s.cpu_runtime e (add_assign (s.cpu_runtime e) delta);
        exec_start_time = update s.exec_start_time e now;
      }
]

-- The change to the runqueue that `set_entity_state` makes, by the old and the new state.
unfoldable pub change_runqueue : Runqueue → Entity → EntityState → EntityState → Outcome Runqueue
change_runqueue q entity old runnable =
    ok (if same_state old stopped || same_state old sleeping then add_to_runqueue q entity else q)
change_runqueue q entity old running = assert (same_state old runnable) >> ok q
change_runqueue q entity old _ =
    ok (
      if same_state old runnable || same_state old running
      then remove_from_runqueue q entity
      else q)

unfoldable pub set_entity_state : Scheduler → Entity → EntityState → Outcome Scheduler
set_entity_state s entity new_state = do
  assert s.installed
  (let changed = do
    runqueue ← change_runqueue s.runqueue entity (s.state entity) new_state
    ok (record s { runqueue = runqueue; state = update s.state entity new_state })
    in if same_state (s.state entity) new_state then ok s else changed)

-- `Thread::start`, `stop`, `sleep` and `wake_up`, up to the yield of a thread that stops itself.
unfoldable pub start : Scheduler → Entity → Outcome Scheduler
start s thread = set_entity_state s thread runnable

unfoldable pub stop : Scheduler → Entity → Outcome Scheduler
stop s thread = set_entity_state s thread stopped

unfoldable pub sleep : Scheduler → Entity → Outcome Scheduler
sleep s thread = set_entity_state s thread sleeping

unfoldable pub wake_up : Scheduler → Entity → Outcome Scheduler
wake_up s thread = set_entity_state s thread runnable

-- The constructor of `Scheduler`, over entities that were just constructed, and `init`: the idle
-- process is started, activated, and taken out of the runqueue. `available` says whether
-- `acquire_scheduler_algorithm` found an algorithm.
unfoldable pub fresh : Entity → Scheduler
fresh idle = record {
  active = false;
  installed = false;
  current = none;
  idle_entity = idle;
  runqueue = new;
  state = λ e. stopped;
  cpu_runtime = λ e. record { val = 0 };
  exec_start_time = λ e. record { since_epoch = record { val = 0 } };
  current_thread = none;
}

unfoldable pub init : Bool → Entity → Outcome (Scheduler × Bool)
init available idle = do
  let created : Scheduler = fresh idle
  (let installed = do
    started ← start (record created { installed = true }) idle
    (activated, _) ← activate started idle none
    ok (record activated { runqueue = remove_from_runqueue activated.runqueue idle }, true)
    in if available then installed else ok (created, false))

-- `run`, up to the loop that waits for the first timer tick.
pub run : Scheduler → Scheduler
run s = record s { active = true }
