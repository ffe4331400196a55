-- ===== src/Rtc/Decoding.antt =====
-- CourseWorks/coursework/cmos-rtc.cpp: binary-coded decimals.
use inf3_os.Base.{
  ap, refl, ◌∙◌, inr, inl, Bool-cases, not, true, ◌&&◌, if◌then◌else◌, Bool, ℕ, ◌+◌, ◌*◌, ◌/◌, ◌%◌,
  ◌<◌, ◌≡◌, arith,
}
use inf3_os.Rtc.{decode, convert, bit2, bit1, RtcTimePoint, to_24_hours, bcd_to_short, decode_hours}

-- The two digits of a number below 100, as the clock stores them.
abbrev pub to_bcd : ℕ → ℕ
to_bcd n = n / 10 * 16 + n % 10

pub bcd_to_short-to_bcd : (n : ℕ) → n < 100 → bcd_to_short (to_bcd n) ≡ n
unfolding bcd_to_short
bcd_to_short-to_bcd n h = omega arith

-- Hours below 80 carry no mark in bit 7.
pub decode_hours-to_bcd : (n : ℕ) → n < 80 → decode_hours (to_bcd n) ≡ n
unfolding decode_hours bcd_to_short
decode_hours-to_bcd n h = ground arith

-- An hour of the afternoon: the mark is taken for 80 hours, and stays.
pub decode_hours-pm : (n : ℕ) → n < 13 → decode_hours (to_bcd n + 128) ≡ n + 80 + 128
unfolding decode_hours bcd_to_short
decode_hours-pm n h = ground arith

-- A reading as the clock shows it in the mode of `stat_b`, with the hours given.
unfoldable pub encode : ℕ → RtcTimePoint → ℕ → RtcTimePoint
encode stat_b tp shown_hours =
    let digits : ℕ → ℕ = λ n. if bit2 stat_b then n else to_bcd n in
    record {
      seconds = digits tp.seconds;
      minutes = digits tp.minutes;
      hours = shown_hours;
      day_of_month = digits tp.day_of_month;
      month = digits tp.month;
      year = digits tp.year;
    }

-- Every field has two digits.
pub record IsTwoDigits (tp : RtcTimePoint) : Type 0 where
  pub seconds : tp.seconds < 100
  pub minutes : tp.minutes < 100
  pub day_of_month : tp.day_of_month < 100
  pub month : tp.month < 100
  pub year : tp.year < 100

-- The hours of a clock: in the 24-hour mode the hour itself, and in the 12-hour mode a number from
-- 1 to 12 with a mark for the afternoon; both in binary or as decimals.
abbrev pub shown_hours : ℕ → Bool → ℕ → ℕ
shown_hours stat_b pm hour =
    (if bit2 stat_b then hour else to_bcd hour) + (if bit1 stat_b && pm then 128 else 0)

-- What the driver makes of them.
abbrev pub answered_hours : ℕ → Bool → ℕ → ℕ
answered_hours stat_b pm hour =
    if bit1 stat_b && pm then if bit2 stat_b then (hour + 12) % 24 else (hour + 20) % 24 else hour

-- Without the mark.
to_24_hours_am : (stat_b hour : ℕ) → hour < 24 → to_24_hours stat_b hour ≡ hour
unfolding to_24_hours
to_24_hours_am stat_b hour h = elim (Bool-cases (bit1 stat_b)) [
  | inl twelve ↦ rw twelve (ground arith)
  | inr day ↦ rw day refl
]

-- With it.
to_24_hours_pm :
    (stat_b hour : ℕ)
    → bit1 stat_b ≡ true
    → hour < 128
    → to_24_hours stat_b (hour + 128) ≡ (hour + 12) % 24
unfolding to_24_hours
to_24_hours_pm stat_b hour twelve h = rw twelve (ground arith)

no_mark : (n : ℕ) → n + 0 ≡ n
no_mark n = omega arith

convert-encode_hours :
    (stat_b : ℕ) (pm : Bool) (hour : ℕ)
    → hour < 24
    → (pm ≡ true → hour < 13)
    → to_24_hours stat_b (
        if not (bit2 stat_b)
        then decode_hours (shown_hours stat_b pm hour)
        else shown_hours stat_b pm hour)
      ≡ answered_hours stat_b pm hour
convert-encode_hours stat_b pm hour h noon = elim (Bool-cases (bit2 stat_b)) [
  | inl binary ↦ elim (Bool-cases (bit1 stat_b && pm)) [
    | inl mark ↦ rw (binary, mark) (to_24_hours_pm stat_b hour (ground arith) (omega arith))
    | inr plain ↦ rw (binary, plain, no_mark hour) (to_24_hours_am stat_b hour h)
  ]
  | inr decimal ↦ elim (Bool-cases (bit1 stat_b && pm)) [
    | inl mark ↦
        let early : hour < 13 = noon (ground arith) in
        rw (decimal, mark, decode_hours-pm hour early)
          (to_24_hours_pm stat_b (hour + 80) (ground arith) (omega arith) ∙ omega arith)
    | inr plain ↦
        rw (decimal, plain, no_mark (to_bcd hour), decode_hours-to_bcd hour (omega arith))
          (to_24_hours_am stat_b hour h)
  ]
]

pub convert-encode :
    (stat_b : ℕ) (tp : RtcTimePoint) (pm : Bool)
    → IsTwoDigits tp
    → tp.hours < 24
    → (pm ≡ true → tp.hours < 13)
    → convert (encode stat_b tp (shown_hours stat_b pm tp.hours)) stat_b
      ≡ record tp { hours = answered_hours stat_b pm tp.hours }
unfolding convert encode decode
convert-encode stat_b tp pm d h noon =
    let hours_eq = convert-encode_hours stat_b pm tp.hours h noon in
    elim (Bool-cases (bit2 stat_b)) [
      | inl binary ↦ rw binary (ap (λ x. record tp { hours = x }) (rw binary at hours_eq))
      | inr decimal ↦
          rw
            (
              decimal,
              bcd_to_short-to_bcd tp.seconds d.seconds,
              bcd_to_short-to_bcd tp.minutes d.minutes,
              bcd_to_short-to_bcd tp.day_of_month d.day_of_month,
              bcd_to_short-to_bcd tp.month d.month,
              bcd_to_short-to_bcd tp.year d.year,
            )
            (ap (λ x. record tp { hours = x }) (rw decimal at hours_eq))
    ]
