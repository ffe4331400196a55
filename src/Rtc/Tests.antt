-- ===== src/Rtc/Tests.antt =====
-- Instances of the theorems on the real-time clock.
use inf3_os.Base.{ltb, ◌==◌, if◌then◌else◌, ℕ, ◌≡◌, refl, some, arith, true}
use inf3_os.Rtc.{Cmos, RtcTimePoint, read_timepoint, convert, read_cmos_time}
use inf3_os.Rtc.Decoding.{encode, shown_hours, answered_hours, IsTwoDigits}
use inf3_os.Rtc.Reading.{IsSteady, read_timepoint-convert, read_timepoint_unconfirmed}

-- 5:45:30 in the afternoon of 6 March of the year 19.
abbrev an_evening : RtcTimePoint
an_evening = record {
  seconds = 30;
  minutes = 45;
  hours = 5;
  day_of_month = 6;
  month = 3;
  year = 19;
}

-- Registers in decimals and the 12-hour mode; the first two polls see an update.
abbrev registers : ℕ → ℕ
registers offset =
    if offset == 0
    then 48
    else if offset == 2
    then 69
    else if offset == 4
    then 133
    else if offset == 7
    then 6
    else if offset == 8
    then 3
    else if offset == 9
    then 25
    else if offset == 11
    then 2
    else 0

abbrev an_rtc : Cmos
an_rtc n offset = if offset == 10 then if ltb n 2 then 128 else 0 else registers offset

an_rtc-IsSteady : IsSteady an_rtc 2 (encode 2 an_evening (shown_hours 2 true 5)) 2
unfolding encode
an_rtc-IsSteady = record {
  updating = λ n h. ground arith;
  ready = λ n h. ground arith;
  shown = λ n h. record {
    seconds_at = refl;
    minutes_at = refl;
    hours_at = refl;
    day_at = refl;
    month_at = refl;
    year_at = refl;
    mode_at = refl;
  };
}

an_evening-IsTwoDigits : IsTwoDigits an_evening
an_evening-IsTwoDigits = record {
  seconds = omega arith;
  minutes = omega arith;
  day_of_month = omega arith;
  month = omega arith;
  year = omega arith;
}

-- An update that starts after the first reading.
abbrev late_update : Cmos
late_update n offset = if offset == 10 then if n == 7 then 128 else 0 else registers offset

read_timepoint_unconfirmed_example :
    read_timepoint 4 late_update 255 ≡ some (convert (read_cmos_time late_update 1) 255)
read_timepoint_unconfirmed_example = read_timepoint_unconfirmed 3 late_update 255 refl refl

read_timepoint-convert_example :
    read_timepoint 3 an_rtc 255 ≡ some (record an_evening { hours = answered_hours 2 true 5 })
read_timepoint-convert_example =
    read_timepoint-convert 3 an_rtc 255 2 2 an_evening true an_rtc-IsSteady (omega arith)
      an_evening-IsTwoDigits (omega arith) (λ h. omega arith)
