-- ===== src/Rtc/Reading.antt =====
-- CourseWorks/coursework/cmos-rtc.cpp: what `read_timepoint` answers.
use mathlib.Core.Option
use inf3_os.Base.{
  ◌∙◌, Option, ap, ℕ, zero, suc, ◌+◌, ◌<◌, ◌≤◌, ◌≡◌, refl, true, false, Bool, some, none, arith,
}
use inf3_os.Rtc.Decoding.{encode, shown_hours, answered_hours, IsTwoDigits, convert-encode}
use inf3_os.Rtc.{
  Cmos, RtcTimePoint, bit7, convert, read_timepoint, first_read, confirm, read_cmos_time, differs,
}

-- The clock shows a reading, in the mode of `stat_b`.
pub record IsShown (reading : RtcTimePoint) (stat_b : ℕ) (registers : ℕ → ℕ) : Type 0 where
  pub seconds_at : registers 0 ≡ reading.seconds
  pub minutes_at : registers 2 ≡ reading.minutes
  pub hours_at : registers 4 ≡ reading.hours
  pub day_at : registers 7 ≡ reading.day_of_month
  pub month_at : registers 8 ≡ reading.month
  pub year_at : registers 9 ≡ reading.year
  pub mode_at : registers 11 ≡ stat_b

-- The clock updates itself during the first `busy` reads, and then shows one reading.
pub record IsSteady (cmos : Cmos) (busy : ℕ) (reading : RtcTimePoint) (stat_b : ℕ) : Type 0 where
  pub updating : (n : ℕ) → n < busy → bit7 (cmos n 10) ≡ true
  pub ready : (n : ℕ) → busy ≤ n → bit7 (cmos n 10) ≡ false
  pub shown : (n : ℕ) → busy ≤ n → IsShown reading stat_b (cmos n)

read_cmos_time_steady :
    (cmos : Cmos) (busy n : ℕ) (reading : RtcTimePoint) (stat_b : ℕ)
    → IsSteady cmos busy reading stat_b
    → busy ≤ n
    → read_cmos_time cmos n ≡ reading
unfolding read_cmos_time
read_cmos_time_steady cmos busy n reading stat_b s h =
    rw
      (
        (s.shown n h).seconds_at,
        (s.shown (n + 1) (omega arith)).minutes_at,
        (s.shown (n + 2) (omega arith)).hours_at,
        (s.shown (n + 3) (omega arith)).day_at,
        (s.shown (n + 4) (omega arith)).month_at,
        (s.shown (n + 5) (omega arith)).year_at,
      )
      refl

-- The first loop waits for the end of the update.
first_read_steady :
    (left fuel : ℕ) (cmos : Cmos) (busy n : ℕ) (reading : RtcTimePoint) (stat_b : ℕ)
    → IsSteady cmos busy reading stat_b
    → n + left ≡ busy
    → left < fuel
    → first_read fuel cmos n ≡ some (reading, busy + 7)
unfolding first_read
first_read_steady left zero cmos busy n reading stat_b s e h = ground arith
first_read_steady zero (suc fuel) cmos busy n reading stat_b s e h =
    let at : n ≡ busy = omega arith in
    rw
      (
        s.ready n (omega arith),
        read_cmos_time_steady cmos busy (n + 1) reading stat_b s (omega arith),
        at,
      )
      refl
first_read_steady (suc left) (suc fuel) cmos busy n reading stat_b s e h =
    rw (s.updating n (omega arith))
      (first_read_steady left fuel cmos busy (n + 1) reading stat_b s (omega arith) (omega arith))

differs_self : (tp : RtcTimePoint) → differs tp tp ≡ false
unfolding differs
differs_self tp = ground arith

confirm_steady :
    (fuel : ℕ) (cmos : Cmos) (busy n : ℕ) (reading : RtcTimePoint) (stat_b unset : ℕ)
    → IsSteady cmos busy reading stat_b
    → busy ≤ n
    → confirm (suc fuel) cmos n reading unset ≡ some (reading, stat_b)
unfolding confirm
confirm_steady fuel cmos busy n reading stat_b unset s h =
    rw
      (
        s.ready n h,
        read_cmos_time_steady cmos busy (n + 2) reading stat_b s (omega arith),
        (s.shown (n + 1) (omega arith)).mode_at,
        differs_self reading,
      )
      refl

-- The two loops and the conversion in a row.
read_timepoint_eq :
    (fuel : ℕ) (cmos : Cmos) (unset n : ℕ) {first tp : RtcTimePoint} {stat_b : ℕ}
    → first_read fuel cmos 0 ≡ some (first, n)
    → confirm fuel cmos n first unset ≡ some (tp, stat_b)
    → read_timepoint fuel cmos unset ≡ some (convert tp stat_b)
unfolding read_timepoint
read_timepoint_eq fuel cmos unset n h g =
    ap
      (λ (o : Option (RtcTimePoint × ℕ)). elim o [
        | none ↦ none
        | some (first, m) ↦ Option.map (λ r. convert r.0 r.1) (confirm fuel cmos m first unset)
      ])
      h
    ∙ ap (Option.map (λ r. convert r.0 r.1)) g

first_read_idle :
    (fuel : ℕ) (cmos : Cmos)
    → bit7 (cmos 0 10) ≡ false
    → first_read (suc fuel) cmos 0 ≡ some (read_cmos_time cmos 1, 7)
unfolding first_read
first_read_idle fuel cmos idle = rw idle refl

confirm_updating :
    (fuel : ℕ) (cmos : Cmos) (n : ℕ) (tp : RtcTimePoint) (stat_b : ℕ)
    → bit7 (cmos n 10) ≡ true
    → confirm (suc fuel) cmos n tp stat_b ≡ some (tp, stat_b)
unfolding confirm
confirm_updating fuel cmos n tp stat_b updating = rw (updating, differs_self tp) refl

-- Where the clock is updating itself at first and then steady, `read_timepoint` waits for the end
-- of the update, with more rounds than polls that see it, reads the registers twice and converts
-- the reading by the mode that it found; what `statB` held before does not matter.
pub read_timepoint_steady :
    (fuel : ℕ) (cmos : Cmos) (unset busy : ℕ) (reading : RtcTimePoint) (stat_b : ℕ)
    → IsSteady cmos busy reading stat_b
    → busy < fuel
    → read_timepoint fuel cmos unset ≡ some (convert reading stat_b)
read_timepoint_steady zero cmos unset busy reading stat_b s h = ground arith
read_timepoint_steady (suc fuel) cmos unset busy reading stat_b s h =
    read_timepoint_eq (suc fuel) cmos unset (busy + 7)
      (first_read_steady busy (suc fuel) cmos busy 0 reading stat_b s (omega arith) h)
      (confirm_steady fuel cmos busy (busy + 7) reading stat_b unset s (omega arith))

-- The second loop takes an unconfirmed reading. Where an update starts right after the first
-- reading, `read_timepoint` does not try again: it converts the one reading by whatever `statB`
-- held before, since the mode was never read.
pub read_timepoint_unconfirmed :
    (fuel : ℕ) (cmos : Cmos) (unset : ℕ)
    → bit7 (cmos 0 10) ≡ false
    → bit7 (cmos 7 10) ≡ true
    → read_timepoint (suc fuel) cmos unset ≡ some (convert (read_cmos_time cmos 1) unset)
read_timepoint_unconfirmed fuel cmos unset idle updating =
    read_timepoint_eq (suc fuel) cmos unset 7 (first_read_idle fuel cmos idle)
      (confirm_updating fuel cmos 7 (read_cmos_time cmos 1) unset updating)

-- The time that `read_timepoint` answers, in every mode of the clock. The clock shows `tp` after
-- some polls that see an update, its fields have two digits, its hours are below 24 and, marked for
-- the afternoon, at most 12. The answer is `tp`, but for marked hours in the 12-hour mode, for which
-- it is hours + 12 modulo 24 where the clock is binary, and hours + 20 modulo 24 where it is in
-- decimals.
pub read_timepoint-convert :
    (fuel : ℕ) (cmos : Cmos) (unset busy stat_b : ℕ) (tp : RtcTimePoint) (pm : Bool)
    → IsSteady cmos busy (encode stat_b tp (shown_hours stat_b pm tp.hours)) stat_b
    → busy < fuel
    → IsTwoDigits tp
    → tp.hours < 24
    → (pm ≡ true → tp.hours < 13)
    → read_timepoint fuel cmos unset
      ≡ some (record tp { hours = answered_hours stat_b pm tp.hours })
read_timepoint-convert fuel cmos unset busy stat_b tp pm s f d h noon =
    read_timepoint_steady fuel cmos unset busy (encode stat_b tp (shown_hours stat_b pm tp.hours))
      stat_b s f
    ∙ ap some (convert-encode stat_b tp pm d h noon)
