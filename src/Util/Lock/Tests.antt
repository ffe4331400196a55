-- ===== src/Util/Lock/Tests.antt =====
-- An instance of the theorem on mutexes.
use inf3_os.Base.{ℕ, ◌≡◌, refl, true}
use inf3_os.Util.Lock.{
  holding, System, locked_by_me, try_lock, set_owner, tries, owns, Reaches, here, then_step, start,
}
use inf3_os.Util.Lock.Exclusion.{mutual_exclusion}

abbrev locked_once : System
locked_once = set_owner (try_lock start 1) 1

locked_once-Reaches : Reaches start locked_once
unfolding try_lock set_owner
locked_once-Reaches =
    then_step start (try_lock start 1) locked_once (tries start (try_lock start 1) 1 refl refl) (
      then_step (try_lock start 1) locked_once locked_once
        (owns (try_lock start 1) locked_once 1 refl refl) (here locked_once))

holds_it : locked_once.phase 1 ≡ holding
unfolding try_lock set_owner
holds_it = refl

mutual_exclusion_example :
    (locked_by_me locked_once.mutex 1 ≡ true) × (locked_once.phase 2 ≡ holding → ◌≡◌ {A = ℕ} 1 2)
mutual_exclusion_example = mutual_exclusion locked_once 1 2 locked_once-Reaches holds_it
