-- ===== src/Sched/Core/Starting.antt =====
-- CourseWorks/infos/kernel/sched.cpp: the scheduler that `init` leaves.
use inf3_os.Base.{
  ◌∷◌, inr, inl, [], ◌==◌, Bool-cases, ==_refl, ◌∙◌, ◌≡◌, refl, true, false, ok, some, arith,
}
use inf3_os.Util.Equality.{ℕ_eq}
use inf3_os.Util.LinkedList.{remove_link, remove, append_link, append, new}
use inf3_os.Sched.{remove_from_runqueue, add_to_runqueue, Entity, Runqueue}
use inf3_os.Sched.Occurs.{occurs, IsFit}
use inf3_os.Sched.Core.{
  activate, change_runqueue, set_entity_state, start, update, Scheduler, stopped, runnable, fresh,
  init,
}
use inf3_os.Sched.Core.Moving.{add_to_runqueue-IsFit, remove_from_runqueue-IsFit}
use inf3_os.Sched.Core.Invariant.{IsConsistent}

new-IsFit : IsFit new
new-IsFit = record { counted = refl; short = omega arith }

-- The idle entity goes in and out.
idle_queue : Entity → Runqueue
idle_queue idle = remove_from_runqueue (add_to_runqueue new idle) idle

idle_queue-IsFit : (idle : Entity) → IsFit (idle_queue idle)
unfolding idle_queue
idle_queue-IsFit idle =
    remove_from_runqueue-IsFit (add_to_runqueue new idle) idle
      (add_to_runqueue-IsFit new idle new-IsFit (omega arith))

remove_link_single : (idle : Entity) → remove_link idle (idle ∷ []) ≡ some []
unfolding remove_link
remove_link_single idle = rw (==_refl idle) refl

idle_queue-elems : (idle : Entity) → (idle_queue idle).elems ≡ []
unfolding idle_queue add_to_runqueue remove_from_runqueue append append_link remove
idle_queue-elems idle = rw (remove_link_single idle, remove) refl

idle_queue-occurs : (idle x : Entity) → occurs x (idle_queue idle).elems ≡ 0
unfolding occurs
idle_queue-occurs idle x = rw (idle_queue-elems idle) refl

left_by_init : Entity → Scheduler
left_by_init idle = record (fresh idle) {
  installed = true;
  runqueue = idle_queue idle;
  state = update (λ e. stopped) idle runnable;
  current_thread = some idle;
}

left_by_init-IsConsistent : (idle : Entity) → IsConsistent (left_by_init idle)
unfolding left_by_init fresh
left_by_init-IsConsistent idle = record {
  has_algorithm = refl;
  fit = idle_queue-IsFit idle;
  queued = λ x other. idle_queue-occurs idle x ∙ rw other refl;
  idle_unqueued = idle_queue-occurs idle idle;
  idle_runnable = rw (==_refl idle) refl;
  not_running = λ x. elim (Bool-cases (x == idle)) [ inl h ↦ rw h refl | inr h ↦ rw h refl ];
  tracked = λ x h. cc;
}

-- `init` of fresh entities, where an algorithm is found, leaves a consistent scheduler, not active
-- yet, whose runqueue is empty.
pub init-IsConsistent :
    (idle : Entity)
    → (s : Scheduler) × (init true idle ≡ ok (s, true))
      × IsConsistent s
      × (s.runqueue.elems ≡ [])
      × (s.idle_entity ≡ idle)
      × (s.active ≡ false)
unfolding init start set_entity_state change_runqueue activate fresh left_by_init idle_queue
init-IsConsistent idle = (
  left_by_init idle,
  rw (==_refl idle) refl,
  left_by_init-IsConsistent idle,
  idle_queue-elems idle,
  refl,
  refl,
)
