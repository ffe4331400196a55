-- ===== src/Sched/Core/Accounting.antt =====
-- CourseWorks/infos/kernel/sched.cpp: the CPU time that `update_accounting` adds after a `schedule`.
use inf3_os.Base.{◌==◌, ==_refl, ◌+◌, ◌-◌, ◌%◌, ◌<◌, ◌≤◌, ◌≡◌, refl, true, false, ok, some, arith}
use inf3_os.Util.Time.{Timepoint, u64_mod, add_assign, between, between_val}
use inf3_os.Sched.{Entity}
use inf3_os.Sched.Core.{SchedulingAlgorithm, update, Scheduler, schedule, update_accounting}
use inf3_os.Sched.Core.Invariant.{IsConsistent}
use inf3_os.Sched.Core.Scheduling.{IsScheduled, schedule-IsScheduled}

-- The CPU time of `e` grew by the time from `start` to `now`, and nobody else's changed.
pub record IsCharged (s t : Scheduler) (e : Entity) (start now : Timepoint) : Type 0 where
  pub charged :
      (t.cpu_runtime e).val
      ≡ ((s.cpu_runtime e).val + (now.since_epoch.val - start.since_epoch.val)) % u64_mod
  pub others_kept : (x : Entity) → (x == e) ≡ false → t.cpu_runtime x ≡ s.cpu_runtime x
  pub restarted : t.exec_start_time e ≡ now

update_accounting-some :
    (s : Scheduler) (e : Entity) (now : Timepoint)
    → s.current ≡ some e
    → update_accounting s now ≡ record s {
      cpu_runtime =
          update s.cpu_runtime e (add_assign (s.cpu_runtime e) (between now (s.exec_start_time e)));
      exec_start_time = update s.exec_start_time e now;
    }
unfolding update_accounting
update_accounting-some s e now h = rw h refl

charge :
    (s t : Scheduler) (e : Entity) (start now : Timepoint)
    → IsScheduled s t e start
    → now.since_epoch.val < u64_mod
    → start.since_epoch.val ≤ now.since_epoch.val
    → IsCharged t (update_accounting t now) e start now
unfolding add_assign
charge s t e start now k fits later = rw (update_accounting-some t e now k.is_current) (record {
  charged = rw (==_refl e, k.started_at) (omega (arith, between_val now start fits later));
  others_kept = λ x other. rw other refl;
  restarted = rw (==_refl e) refl;
})

-- In a consistent scheduler that is active, the first `update_accounting` after a `schedule`
-- charges the entity that was chosen exactly the time from the one call to the other, where the
-- clock did not go back and its value fits the 64 bits, and changes the CPU time of no other entity.
pub update_accounting-IsCharged :
    (algorithm : SchedulingAlgorithm) (s : Scheduler) (start now : Timepoint)
    → IsConsistent s
    → s.active ≡ true
    → now.since_epoch.val < u64_mod
    → start.since_epoch.val ≤ now.since_epoch.val
    → (t : Scheduler) × (e : Entity) × (schedule algorithm s start ≡ ok t)
      × (t.current ≡ some e)
      × IsCharged t (update_accounting t now) e start now
update_accounting-IsCharged algorithm s start now c active fits later =
    let (t, e, done, k) = schedule-IsScheduled algorithm s start c active in
    (t, e, done, k.is_current, charge s t e start now k fits later)
