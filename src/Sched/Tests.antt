-- ===== src/Sched/Tests.antt =====
-- Instances of the theorems on the scheduling algorithms and on the scheduler.
use inf3_os.Base.{
  ltb, false, none, ◌==◌, some, if◌then◌else◌, true, ℕ, ◌≡◌, refl, [], ◌∷◌, ok, arith,
}
use inf3_os.Util.Time.{Timepoint}
use inf3_os.Sched.{Entity, Runqueue, picks, rr_pick, cfs_pick}
use inf3_os.Sched.Occurs.{occurs, IsFit}
use inf3_os.Sched.RoundRobin.{rr_pick_fair}
use inf3_os.Sched.Fair.{cfs_pick-IsLeast, IsLeast}
use inf3_os.Sched.Interface.{round_robin, completely_fair}
use inf3_os.Sched.Core.{
  update_accounting, init, Scheduler, stopped, sleeping, runnable, schedule, set_entity_state,
}
use inf3_os.Sched.Core.Invariant.{IsConsistent, IsStateSet, set_entity_state-IsStateSet}
use inf3_os.Sched.Core.Scheduling.{IsScheduled, schedule-IsScheduled}
use inf3_os.Sched.Core.Starting.{init-IsConsistent}
use inf3_os.Sched.Core.Accounting.{IsCharged, update_accounting-IsCharged}

abbrev three_entities : Runqueue
three_entities = record { elems = 4 ∷ 6 ∷ 9 ∷ []; counter = 3 }

three_entities-IsFit : IsFit three_entities
three_entities-IsFit = record { counted = refl; short = omega arith }

rr_pick_fair_example :
    (after : Runqueue) × (picks rr_pick 3 three_entities
      ≡ ok (after, some 4 ∷ some 6 ∷ some 9 ∷ []))
    × (after.elems ≡ 4 ∷ 6 ∷ 9 ∷ [])
rr_pick_fair_example = rr_pick_fair three_entities three_entities-IsFit

-- Entity 6 has had the least CPU time.
abbrev runtimes : Entity → ℕ
runtimes e = if e == 6 then 10 else 20

cfs_pick-IsLeast_example :
    (found : Entity) × (cfs_pick runtimes three_entities ≡ ok (three_entities, some found))
    × IsLeast runtimes (4 ∷ 6 ∷ 9 ∷ []) found
cfs_pick-IsLeast_example =
    cfs_pick-IsLeast runtimes three_entities 4 (6 ∷ 9 ∷ []) three_entities-IsFit refl

-- Entity 0 is the idle one, 1 is queued and runnable, and no thread was scheduled yet.
abbrev one_runnable : Scheduler
one_runnable = record {
  active = true;
  installed = true;
  current = none;
  idle_entity = 0;
  runqueue = record { elems = 1 ∷ []; counter = 1 };
  state = λ e. if ltb e 2 then runnable else stopped;
  cpu_runtime = λ e. record { val = 0 };
  exec_start_time = λ e. record { since_epoch = record { val = 0 } };
  current_thread = some 0;
}

one_runnable-IsConsistent : IsConsistent one_runnable
unfolding occurs
one_runnable-IsConsistent = record {
  has_algorithm = refl;
  fit = record { counted = refl; short = omega arith };
  queued = λ e other. ground arith;
  idle_unqueued = refl;
  idle_runnable = refl;
  not_running = λ e. ground arith;
  tracked = λ e h. cc;
}

abbrev at_tick : ℕ → Timepoint
at_tick n = record { since_epoch = record { val = n } }

schedule-IsScheduled_example :
    (t : Scheduler) × (e : Entity) × (schedule round_robin one_runnable (at_tick 5) ≡ ok t)
    × IsScheduled one_runnable t e (at_tick 5)
schedule-IsScheduled_example =
    schedule-IsScheduled round_robin one_runnable (at_tick 5) one_runnable-IsConsistent refl

set_entity_state-IsStateSet_example :
    (t : Scheduler) × (set_entity_state one_runnable 1 sleeping ≡ ok t)
    × IsStateSet one_runnable t 1 sleeping
set_entity_state-IsStateSet_example =
    set_entity_state-IsStateSet one_runnable 1 sleeping one_runnable-IsConsistent refl refl
      (omega arith)

init-IsConsistent_example :
    (s : Scheduler) × (init true 7 ≡ ok (s, true))
    × IsConsistent s
    × (s.runqueue.elems ≡ [])
    × (s.idle_entity ≡ 7)
    × (s.active ≡ false)
init-IsConsistent_example = init-IsConsistent 7

update_accounting-IsCharged_example :
    (t : Scheduler) × (e : Entity) × (schedule completely_fair one_runnable (at_tick 5) ≡ ok t)
    × (t.current ≡ some e)
    × IsCharged t (update_accounting t (at_tick 9)) e (at_tick 5) (at_tick 9)
update_accounting-IsCharged_example =
    update_accounting-IsCharged completely_fair one_runnable (at_tick 5) (at_tick 9)
      one_runnable-IsConsistent refl (omega arith) (omega arith)
