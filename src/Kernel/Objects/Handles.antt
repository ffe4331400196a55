-- ===== src/Kernel/Objects/Handles.antt =====
-- CourseWorks/infos/kernel/om.cpp: what a handle stands for.
use mathlib.Core.List.{append_assoc, append-nil}
use inf3_os.Base.{
  ℕ, zero, suc, ◌+◌, ◌%◌, ◌<◌, ◌≡◌, refl, sym, ap, ◌∙◌, subst, false, List, [], ◌∷◌, ◌++◌, Option,
  none, some, ok, ◌==◌, if◌then◌else◌, length, get_elem?, length-append, arith, Option-cases, inl,
  inr,
}
use inf3_os.Util.Map
use inf3_os.Util.Map.{Map, try_get_value}
use inf3_os.Util.Map.Entries
use inf3_os.Util.Map.Adding.{IsMap}
use inf3_os.Util.Map.Effect.{add-IsAdded}
use inf3_os.Util.Text.{size_mod}
use inf3_os.Kernel.Objects.{
  ObjectDescriptor, ObjectManager, new, register_object, get_object_secure, register_all,
}

-- The handles count the objects from 1 on.
abbrev pub object_at : List ObjectDescriptor → ℕ → Option ObjectDescriptor
object_at objs zero = none
object_at objs (suc i) = get_elem? objs i

-- A manager in which these objects have been registered, the first one first.
pub record HasObjects (manager : ObjectManager) (objs : List ObjectDescriptor) : Type 0 where
  pub map : IsMap manager.objects
  pub counted : manager.next_handle ≡ suc (length objs)
  pub finds : (h : ℕ) → try_get_value manager.objects h ≡ object_at objs h

suc_same : (i n : ℕ) → (i == n) ≡ (suc i == suc n)
suc_same i n = ground arith

get_elem?-append :
    (objs : List ObjectDescriptor) (obj : ObjectDescriptor) (i : ℕ)
    → get_elem? (objs ++ obj ∷ []) i ≡ (if i == length objs then some obj else get_elem? objs i)
get_elem?-append [] obj zero = refl
get_elem?-append [] obj (suc i) =
    let differs : (suc i == 0) ≡ false = ground arith in rw differs refl
get_elem?-append (o ∷ objs) obj zero =
    let differs : (0 == suc (length objs)) ≡ false = ground arith in rw differs refl
get_elem?-append (o ∷ objs) obj (suc i) =
    get_elem?-append objs obj i
    ∙ ap (λ b. if b then some obj else get_elem? objs i) (suc_same i (length objs))

object_at-append :
    (objs : List ObjectDescriptor) (obj : ObjectDescriptor) (h : ℕ)
    → object_at (objs ++ obj ∷ []) h
      ≡ (if h == suc (length objs) then some obj else object_at objs h)
object_at-append objs obj zero =
    let differs : (0 == suc (length objs)) ≡ false = ground arith in rw differs refl
object_at-append objs obj (suc i) =
    get_elem?-append objs obj i
    ∙ ap (λ b. if b then some obj else get_elem? objs i) (suc_same i (length objs))

no_objects : (h : ℕ) → none ≡ object_at [] h
no_objects zero = refl
no_objects (suc i) = refl

pub new-HasObjects : HasObjects new []
unfolding Map.try_get_value Map.find Entries.entries
new-HasObjects = record {
  map = record { height = 0; shaped = tt; black_root = refl; sorted = tt; counted = refl };
  counted = refl;
  finds = no_objects;
}

-- A new object gets the next handle, and every handle before keeps its object.
pub register_object-HasObjects :
    (manager : ObjectManager) (objs : List ObjectDescriptor) (obj : ObjectDescriptor)
    → HasObjects manager objs
    → suc (suc (length objs)) < size_mod
    → (after : ObjectManager) × (register_object manager obj.owner obj.object
        ≡ ok (suc (length objs), after))
      × HasObjects after (objs ++ obj ∷ [])
unfolding register_object
register_object-HasObjects manager objs obj h fits =
    let (objects, added, effect) = add-IsAdded manager.objects manager.next_handle obj h.map in
    let next : (manager.next_handle + 1) % size_mod ≡ suc (suc (length objs)) =
      omega (arith, h.counted) in
    (
      record { next_handle = (manager.next_handle + 1) % size_mod; objects = objects },
      rw added (
          ap
            (λ n.
              ok (
                n,
                record { next_handle = (manager.next_handle + 1) % size_mod; objects = objects },
              ))
            h.counted),
      record {
        map = effect.valid;
        counted = next ∙ omega (arith, length-append objs (obj ∷ []));
        finds = λ j.
            effect.reads j
            ∙ ap (λ n. if j == n then some obj else try_get_value manager.objects j) h.counted
            ∙ ap (λ o. if j == suc (length objs) then some obj else o) (h.finds j)
            ∙ sym (object_at-append objs obj j);
      },
    )

-- Handles in a row.
abbrev pub handles_from : ℕ → List ObjectDescriptor → List ℕ
handles_from next [] = []
handles_from next (obj ∷ objs) = suc next ∷ handles_from (suc next) objs

register_all-HasObjects :
    (objs : List ObjectDescriptor) (manager : ObjectManager) (before : List ObjectDescriptor)
    → HasObjects manager before
    → suc (length before + length objs) < size_mod
    → (after : ObjectManager) × (register_all manager objs
        ≡ ok (handles_from (length before) objs, after))
      × HasObjects after (before ++ objs)
register_all-HasObjects [] manager before h fits =
    (manager, refl, subst (HasObjects manager) (sym (append-nil before)) h)
register_all-HasObjects (obj ∷ objs) manager before h fits =
    let (mid, first, has) = register_object-HasObjects manager before obj h (omega arith) in
    let more : length (before ++ obj ∷ []) ≡ suc (length before) =
      omega (arith, length-append before (obj ∷ [])) in
    let (after, others, has') =
      register_all-HasObjects objs mid (before ++ obj ∷ []) has (omega arith) in
    (
      after,
      rw (first, others) (ap (λ n. ok (suc (length before) ∷ handles_from n objs, after)) more),
      subst (HasObjects after) (append_assoc before (obj ∷ []) objs) has',
    )

-- What a thread may see of an object.
abbrev pub visible : (ℕ → ℕ) → ℕ → Option ObjectDescriptor → Option ℕ
visible process_of caller none = none
visible process_of caller (some obj) =
    if process_of obj.owner == process_of caller then some obj.object else none

pub get_object_secure-visible :
    (process_of : ℕ → ℕ) (manager : ObjectManager) (objs : List ObjectDescriptor) (caller h : ℕ)
    → HasObjects manager objs
    → get_object_secure process_of manager caller h ≡ visible process_of caller (object_at objs h)
unfolding get_object_secure
get_object_secure-visible process_of manager objs caller h has =
    elim (Option-cases (object_at objs h)) [
      | inl e ↦ rw (get_object_secure, has.finds h, e) refl
      | inr (obj, e) ↦ rw (get_object_secure, has.finds h, e) refl
    ]

-- Objects registered one after another, fewer than 2 ^ 64 - 1, get the handles 1, 2 and so on, and
-- registering never panics. Afterwards `get_object_secure` gives every thread of the process that
-- owns an object the object with the handle, and NULL to the threads of other processes and for
-- every other handle.
pub register_all_lem :
    (process_of : ℕ → ℕ) (objs : List ObjectDescriptor)
    → suc (length objs) < size_mod
    → (manager : ObjectManager) × (register_all new objs ≡ ok (handles_from 0 objs, manager))
      × ((caller h : ℕ)
          → get_object_secure process_of manager caller h
            ≡ visible process_of caller (object_at objs h))
register_all_lem process_of objs fits =
    let (manager, registered, has) =
      register_all-HasObjects objs new [] new-HasObjects (omega arith) in
    (
      manager,
      registered,
      λ caller h. get_object_secure-visible process_of manager objs caller h has,
    )
