-- ===== src/Rtc.antt =====
-- CourseWorks/coursework/cmos-rtc.cpp: the driver of the real-time clock. The clock itself is a
-- parameter: `cmos n offset` is the byte that the n-th read of a register answers, at `offset`.
-- Interrupts are off in a call, so nobody else reads meanwhile.
pub mod Decoding
pub mod Reading
mod Tests
use mathlib.Core.Option
use inf3_os.Base.{
  ℕ, zero, suc, ◌+◌, ◌*◌, ◌/◌, ◌%◌, Bool, true, false, not, ◌&&◌, ◌||◌, Option, none, some, ◌==◌,
  if◌then◌else◌,
}

abbrev pub Cmos : Type 0
Cmos = ℕ → ℕ → ℕ

-- `RTCTimePoint`; its fields are `unsigned short`.
pub record RtcTimePoint : Type 0 where
  pub seconds : ℕ
  pub minutes : ℕ
  pub hours : ℕ
  pub day_of_month : ℕ
  pub month : ℕ
  pub year : ℕ

-- `byte & 0x80`, `& 0x04` and `& 0x02`, as tests.
abbrev pub bit7 : ℕ → Bool
bit7 byte = byte / 128 % 2 == 1

abbrev pub bit2 : ℕ → Bool
bit2 byte = byte / 4 % 2 == 1

abbrev pub bit1 : ℕ → Bool
bit1 byte = byte / 2 % 2 == 1

-- `BCDtoShort`.
unfoldable pub bcd_to_short : ℕ → ℕ
bcd_to_short bcd = bcd % 16 + bcd / 16 % 16 * 10

-- `read_CMOSTime`, from the n-th read on.
unfoldable pub read_cmos_time : Cmos → ℕ → RtcTimePoint
read_cmos_time cmos n = record {
  seconds = cmos n 0;
  minutes = cmos (n + 1) 2;
  hours = cmos (n + 2) 4;
  day_of_month = cmos (n + 3) 7;
  month = cmos (n + 4) 8;
  year = cmos (n + 5) 9;
}

-- The first loop of `read_timepoint`: what was read, and the number of reads so far.
unfoldable pub first_read : ℕ → Cmos → ℕ → Option (RtcTimePoint × ℕ)
first_read zero cmos n = none
first_read (suc fuel) cmos n =
    let rest = first_read fuel cmos (n + 1) in
    if not (bit7 (cmos n 10)) then some (read_cmos_time cmos (n + 1), n + 7) else rest

-- The six comparisons at the end of the second loop.
unfoldable pub differs : RtcTimePoint → RtcTimePoint → Bool
differs last tp =
    not (last.seconds == tp.seconds)
    || not (last.minutes == tp.minutes)
    || not (last.hours == tp.hours)
    || not (last.day_of_month == tp.day_of_month)
    || not (last.month == tp.month)
    || not (last.year == tp.year)

-- The second loop, with `tp` and `statB` as they are; gives them as they are at its end. Where the
-- update bit is set, `last_success` is false, and so is the condition of the loop.
unfoldable pub confirm : ℕ → Cmos → ℕ → RtcTimePoint → ℕ → Option (RtcTimePoint × ℕ)
confirm zero cmos n tp stat_b = none
confirm (suc fuel) cmos n tp stat_b =
    let new = read_cmos_time cmos (n + 2) in
    let rest = confirm fuel cmos (n + 8) new (cmos (n + 1) 11) in
    let last_success = not (bit7 (cmos n 10)) in
    let after = if last_success then new else tp in
    let stat_after = if last_success then cmos (n + 1) 11 else stat_b in
    if differs tp after && last_success then rest else some (after, stat_after)

-- `BCDtoShort(hours) | (hours & 0x80)`.
unfoldable pub decode_hours : ℕ → ℕ
decode_hours hours =
    let plain = bcd_to_short hours in
    if bit7 hours then if bit7 plain then plain else plain + 128 else plain

unfoldable pub decode : RtcTimePoint → RtcTimePoint
decode tp = record {
  seconds = bcd_to_short tp.seconds;
  minutes = bcd_to_short tp.minutes;
  hours = decode_hours tp.hours;
  day_of_month = bcd_to_short tp.day_of_month;
  month = bcd_to_short tp.month;
  year = bcd_to_short tp.year;
}

-- `((tp.hours & 0x7F) + 12) % 24` where the time is in the 12-hour format and bit 7 is set.
unfoldable pub to_24_hours : ℕ → ℕ → ℕ
to_24_hours stat_b hours = if bit1 stat_b && bit7 hours then (hours % 128 + 12) % 24 else hours

-- The end of `read_timepoint`, after the loops.
unfoldable pub convert : RtcTimePoint → ℕ → RtcTimePoint
convert tp stat_b =
    let plain = if not (bit2 stat_b) then decode tp else tp in
    record plain { hours = to_24_hours stat_b plain.hours }

-- `read_timepoint`. `unset` is what the variable `statB` holds before it is assigned; the fuel
-- bounds the rounds of each loop.
unfoldable pub read_timepoint : ℕ → Cmos → ℕ → Option RtcTimePoint
read_timepoint fuel cmos unset = elim (first_read fuel cmos 0) [
  | none ↦ none
  | some (first, n) ↦ Option.map (λ r. convert r.0 r.1) (confirm fuel cmos n first unset)
]
