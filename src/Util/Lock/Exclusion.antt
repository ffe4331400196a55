-- ===== src/Util/Lock/Exclusion.antt =====
-- CourseWorks/infos/util/lock.cpp: one thread at a time holds the mutex.
use native.Mathlib.Decide.{ℕ_discrete}
use inf3_os.Base.{
  ℕ, ◌≡◌, ◌≢◌, refl, sym, ap, ◌∙◌, subst, Bool, true, false, ◌==◌, ==_refl, Bool-cases, inl, inr,
  some, arith,
}
use inf3_os.Util.Lock.{
  Mutex, Phase, outside, taken, holding, System, move_to, locked_by_me, try_lock, set_owner, unlock,
  Step, tries, owns, unlocks, Reaches, here, then_step, start,
}

abbrev pub is_busy : Phase → Bool
is_busy outside = false
is_busy taken = true
is_busy holding = true

pub record IsExclusive (s : System) : Type 0 where
  pub one : (t u : ℕ) → is_busy (s.phase t) ≡ true → is_busy (s.phase u) ≡ true → t ≡ u
  pub locked : (t : ℕ) → is_busy (s.phase t) ≡ true → s.mutex.locked ≡ true
  pub owned : (t : ℕ) → s.phase t ≡ holding → s.mutex.owner ≡ some t

moved_self : (phases : ℕ → Phase) (thread : ℕ) (to : Phase) → move_to phases thread to thread ≡ to
moved_self phases thread to = rw (==_refl thread) refl

moved_other :
    (phases : ℕ → Phase) (thread t : ℕ) (to : Phase)
    → t ≢ thread
    → move_to phases thread to t ≡ phases t
moved_other phases thread t to other =
    let differs : (t == thread) ≡ false = ground (arith, other) in rw differs refl

-- Where nobody else is busy, a thread may go anywhere that suits the mutex.
moves-IsExclusive :
    (s : System) (mutex : Mutex) (thread : ℕ) (to : Phase)
    → ((t : ℕ) → t ≢ thread → is_busy (s.phase t) ≡ false)
    → (is_busy to ≡ true → mutex.locked ≡ true)
    → (to ≡ holding → mutex.owner ≡ some thread)
    → IsExclusive (record { mutex = mutex; phase = move_to s.phase thread to })
moves-IsExclusive s mutex thread to alone locks owns_it = record {
  one = λ t u h g. is_it t h ∙ sym (is_it u g);
  locked = λ t h. locks (
      sym (ap is_busy (ap (move_to s.phase thread to) (is_it t h) ∙ moved_self s.phase thread to))
      ∙ h);
  owned = λ t h.
      let e = is_it t (ap is_busy h) in
      owns_it (sym (ap (move_to s.phase thread to) e ∙ moved_self s.phase thread to) ∙ h)
      ∙ ap some (sym e);
}
  where
    is_it : (t : ℕ) → is_busy (move_to s.phase thread to t) ≡ true → t ≡ thread
    is_it t h = elim (ℕ_discrete t thread) [
      | yes e ↦ e
      | no other ↦
          let idle = alone t other in
          let same = ap is_busy (moved_other s.phase thread t to other) in cc
    ]

-- A busy thread is the only one.
others_idle :
    (s : System) (thread : ℕ)
    → IsExclusive s
    → is_busy (s.phase thread) ≡ true
    → (t : ℕ) → t ≢ thread
    → is_busy (s.phase t) ≡ false
others_idle s thread e busy t other = elim (Bool-cases (is_busy (s.phase t))) [
  | inl h ↦ absurd (other (e.one t thread h busy))
  | inr h ↦ h
]

all_idle :
    (s : System) → IsExclusive s → s.mutex.locked ≡ false → (t : ℕ) → is_busy (s.phase t) ≡ false
all_idle s e free t = elim (Bool-cases (is_busy (s.phase t))) [
  | inl h ↦ let locked = e.locked t h in cc
  | inr h ↦ h
]

Step-IsExclusive : (s after : System) → IsExclusive s → Step s after → IsExclusive after
unfolding try_lock set_owner unlock
Step-IsExclusive s after e (tries _ _ thread idle is) = elim (Bool-cases s.mutex.locked) [
  | inl locked ↦ subst IsExclusive (sym (is ∙ simp (try_lock, locked) refl)) e
  | inr free ↦ subst IsExclusive (sym (is ∙ simp (try_lock, free) refl)) (
      moves-IsExclusive s (record (s.mutex) { locked = true }) thread taken
        (λ t other. all_idle s e free t) (λ h. refl) (λ h. cc))
]
Step-IsExclusive s after e (owns _ _ thread at is) = subst IsExclusive (sym is) (
    moves-IsExclusive s (record (s.mutex) { owner = some thread }) thread holding
      (others_idle s thread e (ap is_busy at)) (λ h. e.locked thread (ap is_busy at)) (λ h. refl))
Step-IsExclusive s after e (unlocks _ _ thread at is) = subst IsExclusive (sym is) (
    moves-IsExclusive s (record (s.mutex) { locked = false }) thread outside
      (others_idle s thread e (ap is_busy at)) (λ h. cc) (λ h. cc))

Reaches-IsExclusive : (s last : System) → IsExclusive s → Reaches s last → IsExclusive last
Reaches-IsExclusive s _ e (here _) = e
Reaches-IsExclusive s last e (then_step _ mid _ step rest) =
    Reaches-IsExclusive mid last (Step-IsExclusive s mid e step) rest

-- However the threads take turns, from a new mutex on: two threads never hold it at once, and a
-- thread that holds it finds `locked_by_me`.
pub mutual_exclusion :
    (s : System) (t u : ℕ)
    → Reaches start s
    → s.phase t ≡ holding
    → (locked_by_me s.mutex t ≡ true) × (s.phase u ≡ holding → t ≡ u)
unfolding locked_by_me
mutual_exclusion s t u reached at =
    let e =
      Reaches-IsExclusive start s
        (record { one = λ t u h g. cc; locked = λ t h. cc; owned = λ t h. cc }) reached in
    (
      rw (locked_by_me, e.locked t (ap is_busy at), e.owned t at) (==_refl t),
      λ h. e.one t u (ap is_busy at) (ap is_busy h),
    )
