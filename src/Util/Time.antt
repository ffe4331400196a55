-- ===== src/Util/Time.antt =====
-- CourseWorks/infos/include/infos/util/time.h: `Duration` and `TimepointImpl`, whose value is a
-- `uint64_t`. A timepoint holds a duration since the epoch.
use inf3_os.Base.{◌≢◌, ℕ, ◌+◌, ◌-◌, ◌%◌, ◌^◌, ◌≤◌, ◌<◌, ◌≡◌, refl, Bool, ltb, arith}

abbrev pub u64_mod : ℕ
u64_mod = 2 ^ 64

pub record Duration : Type 0 where
  pub val : ℕ

pub record Timepoint : Type 0 where
  pub since_epoch : Duration

-- `operator+=` and `operator-=`.
unfoldable pub add_assign : Duration → Duration → Duration
add_assign l amt = record { val = (l.val + amt.val) % u64_mod }

unfoldable pub sub_assign : Duration → Duration → Duration
sub_assign l amt = record { val = (l.val + u64_mod - amt.val) % u64_mod }

-- `operator+` and `operator-`.
unfoldable pub add : Duration → Duration → Duration
add l r = record { val = (l.val + r.val) % u64_mod }

unfoldable pub sub : Duration → Duration → Duration
sub l r = record { val = (r.val + u64_mod - l.val) % u64_mod }

unfoldable pub lt : Duration → Duration → Bool
lt l r = ltb l.val r.val

-- `operator+=` of a timepoint, and its two `friend` operators.
unfoldable pub advance : Timepoint → Duration → Timepoint
unfolding add_assign
advance t amt = record { since_epoch = add_assign t.since_epoch amt }

unfoldable pub between : Timepoint → Timepoint → Duration
unfolding sub
between lhs rhs = sub rhs.since_epoch lhs.since_epoch

unfoldable pub earlier : Timepoint → Timepoint → Bool
earlier l r = ltb l.since_epoch.val r.since_epoch.val

-- `l - r` of two durations is `r -= l`: the operands of `operator-` are exchanged.
pub sub-sub_assign : (l r : Duration) → sub l r ≡ sub_assign r l
unfolding sub sub_assign
sub-sub_assign l r = refl

-- So the two ways to subtract disagree: of two different durations, where the difference is not
-- 2 ^ 63, they give opposite and different results.
pub sub_reversed :
    (l r : Duration)
    → l.val < u64_mod
    → r.val < u64_mod
    → l.val ≢ r.val
    → (sub_assign l r).val ≢ 2 ^ 63
    → ((sub l r).val + (sub_assign l r).val ≡ u64_mod) × ((sub l r).val ≢ (sub_assign l r).val)
unfolding sub sub_assign
sub_reversed l r hl hr ne half = (omega arith, λ same. omega arith)

-- The difference of two timepoints exchanges them once more, and so is right: adding it to the
-- earlier one gives the later one back.
pub advance-between :
    (lhs rhs : Timepoint)
    → lhs.since_epoch.val < u64_mod
    → rhs.since_epoch.val < u64_mod
    → advance rhs (between lhs rhs) ≡ lhs
unfolding advance between
advance-between lhs rhs hl hr = ground arith

-- Its value is the plain difference when the first is not earlier than the second.
pub between_val :
    (lhs rhs : Timepoint)
    → lhs.since_epoch.val < u64_mod
    → rhs.since_epoch.val ≤ lhs.since_epoch.val
    → (between lhs rhs).val ≡ lhs.since_epoch.val - rhs.since_epoch.val
unfolding between
between_val lhs rhs hl h = omega arith
