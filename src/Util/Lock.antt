-- ===== src/Util/Lock.antt =====
-- CourseWorks/infos/util/lock.cpp and lock.h: `Mutex`, and threads that lock and unlock it. Each
-- access to the mutex is a step, and between two steps any other thread may take one. A thread
-- unlocks only what it has locked; `unlock` does not test this.
pub mod Exclusion
mod Tests
use inf3_os.Base.{
  ℕ, ◌≡◌, Bool, true, false, ◌&&◌, List, [], ◌∷◌, Option, none, some, ◌==◌, if◌then◌else◌,
}

pub record Mutex : Type 0 where
  pub locked : Bool
  pub owner : Option ℕ

-- The constructor leaves `_owner` as it is; `none` stands for that.
abbrev pub new : Mutex
new = record { locked = false; owner = none }

abbrev pub is_some_of : Option ℕ → ℕ → Bool
is_some_of none thread = false
is_some_of (some t) thread = t == thread

-- `locked_by_me` of a thread.
unfoldable pub locked_by_me : Mutex → ℕ → Bool
locked_by_me mutex thread = mutex.locked && is_some_of mutex.owner thread

-- Where a thread is: before the loop of `lock` has ended, between it and the assignment of
-- `_owner`, and from there to `unlock`.
pub data Phase : Type 0 where
  outside taken holding : Phase

pub record System : Type 0 where
  pub mutex : Mutex
  pub phase : ℕ → Phase

abbrev pub move_to : (ℕ → Phase) → ℕ → Phase → ℕ → Phase
move_to phases thread to t = if t == thread then to else phases t

-- A round of the loop of `lock`: test and set, and another round where the mutex was locked.
unfoldable pub try_lock : System → ℕ → System
try_lock s thread =
    if s.mutex.locked
    then s
    else record { mutex = record (s.mutex) { locked = true }; phase = move_to s.phase thread taken }

-- The end of `lock`.
unfoldable pub set_owner : System → ℕ → System
set_owner s thread = record {
  mutex = record (s.mutex) { owner = some thread };
  phase = move_to s.phase thread holding;
}

-- `unlock`.
unfoldable pub unlock : System → ℕ → System
unlock s thread = record {
  mutex = record (s.mutex) { locked = false };
  phase = move_to s.phase thread outside;
}

pub data Step : System → System → Type 0 where
  tries :
      (s after : System) (thread : ℕ)
      → s.phase thread ≡ outside
      → after ≡ try_lock s thread
      → Step s after
  owns :
      (s after : System) (thread : ℕ)
      → s.phase thread ≡ taken
      → after ≡ set_owner s thread
      → Step s after
  unlocks :
      (s after : System) (thread : ℕ)
      → s.phase thread ≡ holding
      → after ≡ unlock s thread
      → Step s after

pub data Reaches : System → System → Type 0 where
  here : (s : System) → Reaches s s
  then_step : (s mid last : System) → Step s mid → Reaches mid last → Reaches s last

abbrev pub start : System
start = record { mutex = new; phase = λ t. outside }
