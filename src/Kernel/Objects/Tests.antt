-- ===== src/Kernel/Objects/Tests.antt =====
-- An instance of the theorem on handles.
use inf3_os.Base.{ℕ, ◌/◌, ◌≡◌, List, [], ◌∷◌, ok, arith}
use inf3_os.Kernel.Objects.{ObjectDescriptor, ObjectManager, new, register_all, get_object_secure}
use inf3_os.Kernel.Objects.Handles.{handles_from, object_at, visible, register_all_lem}

-- Two threads to a process.
abbrev two_each : ℕ → ℕ
two_each thread = thread / 2

abbrev two_objects : List ObjectDescriptor
two_objects = record { owner = 4; object = 100 } ∷ record { owner = 7; object = 101 } ∷ []

register_all_lem_example :
    (manager : ObjectManager) × (register_all new two_objects
      ≡ ok (handles_from 0 two_objects, manager))
    × ((caller h : ℕ)
        → get_object_secure two_each manager caller h
          ≡ visible two_each caller (object_at two_objects h))
register_all_lem_example = register_all_lem two_each two_objects (omega arith)
