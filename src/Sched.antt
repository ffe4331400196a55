-- ===== src/Sched.antt =====
-- CourseWorks/coursework/sched-rr.cpp and sched-fifo.cpp, and CourseWorks/infos/kernel/sched-cfs.cpp:
-- the scheduling algorithms. Each has one `List` of entities, its runqueue; an entity (a pointer) is
-- a number. Interrupts stay off inside a call, so a call is one step.
pub mod Occurs
pub mod RoundRobin
pub mod Fifo
pub mod Fair
pub mod Interface
pub mod Core
mod Tests
use inf3_os.Base.{
  ℕ, zero, suc, Bool, true, false, ◌||◌, List, [], ◌∷◌, Option, none, some, Outcome, ok, ◌>>=◌, ltb,
  ◌==◌, if◌then◌else◌,
}
use inf3_os.Util.Equality.{ℕ_eq}
use inf3_os.Util.LinkedList
use inf3_os.Util.LinkedList.{LinkedList}

abbrev pub Entity : Type 0
Entity = ℕ

abbrev pub Runqueue : Type 0
Runqueue = LinkedList Entity

-- `RoundRobinScheduler`, `FIFOScheduler` and `CompletelyFairScheduler` share these two.
unfoldable pub add_to_runqueue : Runqueue → Entity → Runqueue
add_to_runqueue runqueue entity = LinkedList.append runqueue entity

unfoldable pub remove_from_runqueue : Runqueue → Entity → Runqueue
remove_from_runqueue runqueue entity = LinkedList.remove runqueue entity

-- `RoundRobinScheduler::pick_next_entity`.
unfoldable pub rr_pick : Runqueue → Outcome (Runqueue × Option Entity)
rr_pick runqueue =
    if LinkedList.empty runqueue
    then ok (runqueue, none)
    else do (next, rest) ← LinkedList.dequeue runqueue; ok (LinkedList.append rest next, some next)

-- `FIFOScheduler::pick_next_entity`.
unfoldable pub fifo_pick : Runqueue → Outcome (Runqueue × Option Entity)
fifo_pick runqueue =
    if LinkedList.empty runqueue
    then ok (runqueue, none)
    else do head ← LinkedList.first runqueue; ok (runqueue, some head)

-- The loop of `CompletelyFairScheduler::pick_next_entity`. `runtime` gives `cpu_runtime()`.
unfoldable pub min_loop : (Entity → ℕ) → ℕ → Option Entity → List Entity → Option Entity
min_loop runtime min_runtime found [] = found
min_loop runtime min_runtime none (entity ∷ rest) =
    min_loop runtime (runtime entity) (some entity) rest
min_loop runtime min_runtime (some best) (entity ∷ rest) =
    min_loop runtime (if ltb (runtime entity) min_runtime then runtime entity else min_runtime)
      (some (if ltb (runtime entity) min_runtime then entity else best)) rest

unfoldable pub cfs_pick : (Entity → ℕ) → Runqueue → Outcome (Runqueue × Option Entity)
cfs_pick runtime runqueue =
    if LinkedList.count runqueue == 0
    then ok (runqueue, none)
    else if LinkedList.count runqueue == 1
    then LinkedList.first runqueue >>= (λ head. ok (runqueue, some head))
    else ok (runqueue, min_loop runtime 0 none runqueue.elems)

-- Picks one after another, with no other call between them.
unfoldable pub picks :
    (Runqueue → Outcome (Runqueue × Option Entity))
    → ℕ
    → Runqueue
    → Outcome (Runqueue × List (Option Entity))
picks pick zero runqueue = ok (runqueue, [])
picks pick (suc n) runqueue = do
  (after, next) ← pick runqueue
  (last, chosen) ← picks pick n after
  ok (last, next ∷ chosen)
