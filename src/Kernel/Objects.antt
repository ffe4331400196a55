-- ===== src/Kernel/Objects.antt =====
-- CourseWorks/infos/kernel/om.cpp and CourseWorks/infos/include/infos/kernel/om.h: `ObjectManager`.
-- Threads and objects stand for their addresses. `_registry_lock` is taken to make `register_object`
-- one step.
pub mod Handles
mod Tests
use inf3_os.Base.{
  ℕ, suc, ◌+◌, ◌%◌, Bool, List, [], ◌∷◌, Option, none, some, Outcome, ok, panic, ◌>>=◌, ◌==◌,
  if◌then◌else◌,
}
use inf3_os.Util.Map
use inf3_os.Util.Map.{Map}
use inf3_os.Util.Text.{size_mod}

pub record ObjectDescriptor : Type 0 where
  pub owner : ℕ
  pub object : ℕ

pub record ObjectManager : Type 0 where
  pub next_handle : ℕ
  pub objects : Map ObjectDescriptor

abbrev pub new : ObjectManager
new = record { next_handle = 1; objects = Map.new }

-- `register_object`: the handle.
unfoldable pub register_object : ObjectManager → ℕ → ℕ → Outcome (ℕ × ObjectManager)
register_object manager owner obj = do
  objects ← Map.add manager.objects manager.next_handle (record { owner = owner; object = obj })
  ok (
    manager.next_handle,
    record { next_handle = (manager.next_handle + 1) % size_mod; objects = objects },
  )

-- The process that owns each thread is a parameter.
module _ (process_of : ℕ → ℕ) where
  -- `get_object_secure`; `none` is NULL.
  unfoldable pub get_object_secure : ObjectManager → ℕ → ℕ → Option ℕ
  get_object_secure manager caller handle = elim (Map.try_get_value manager.objects handle) [
    | none ↦ none
    | some obj ↦ if process_of obj.owner == process_of caller then some obj.object else none
  ]

-- Objects that are registered one after another: the handles.
abbrev pub register_all : ObjectManager → List ObjectDescriptor → Outcome (List ℕ × ObjectManager)
register_all manager [] = ok ([], manager)
register_all manager (obj ∷ objs) = do
  (handle, mid) ← register_object manager obj.owner obj.object
  (handles, after) ← register_all mid objs
  ok (handle ∷ handles, after)
