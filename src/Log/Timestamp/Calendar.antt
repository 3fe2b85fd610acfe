-- ===== src/Log/Timestamp/Calendar.antt =====
-- The fields of a timestamp against the Gregorian calendar, which is stated here by its own rules:
-- leap years, the lengths of the months, and the number of a day counted from January 1 of year 1.
use nixnas.Base.{
  ℕ, suc, ◌+◌, ◌-◌, ◌*◌, ◌/◌, ◌%◌, ◌≤◌, ◌<◌, ◌≡◌, Bool, not, ◌&&◌, ◌||◌, ◌==◌, ltb, leb,
  if◌then◌else◌, arith,
}
use nixnas.Log.Timestamp.{doe_of, yoe_of, doy_of, Stamp, fields}

unfoldable pub is_leap : ℕ → Bool
is_leap y = y % 4 == 0 && (not (y % 100 == 0) || y % 400 == 0)

abbrev pub leap_days : ℕ → ℕ
leap_days y = if is_leap y then 1 else 0

-- The days of a common year before each month.
abbrev pub before_month : ℕ → ℕ
before_month m =
    if m == 1
    then 0
    else if m == 2
    then 31
    else if m == 3
    then 59
    else if m == 4
    then 90
    else if m == 5
    then 120
    else if m == 6
    then 151
    else if m == 7
    then 181
    else if m == 8
    then 212
    else if m == 9
    then 243
    else if m == 10
    then 273
    else if m == 11
    then 304
    else 334

abbrev pub days_in_month : ℕ → ℕ → ℕ
days_in_month y m =
    if m == 2 then 28 + leap_days y else if m == 4 || m == 6 || m == 9 || m == 11 then 30 else 31

abbrev pub before_year : ℕ → ℕ
before_year y = 365 * (y - 1) + (y - 1) / 4 - (y - 1) / 100 + (y - 1) / 400

abbrev pub day_number : ℕ → ℕ → ℕ → ℕ
day_number y m d = before_year y + before_month m + (if ltb 2 m then leap_days y else 0) + d

yoe_bound : (doe : ℕ) → doe < 146_097 → yoe_of doe < 400
yoe_bound doe h = omega arith

doy_bound : (doe : ℕ) → doe < 146_097 → doy_of doe (yoe_of doe) ≤ 365
doy_bound doe h = omega arith

doy_sum :
    (doe : ℕ)
    → doe < 146_097
    → 365 * yoe_of doe + yoe_of doe / 4 - yoe_of doe / 100 + doy_of doe (yoe_of doe) ≡ doe
doy_sum doe h = omega arith

-- A 366th day comes only before March 1 of a leap year.
last_day :
    (doe : ℕ)
    → doe < 146_097
    → doy_of doe (yoe_of doe) ≡ 365
    → ((yoe_of doe + 1) % 4 ≡ 0) × (((yoe_of doe + 1) % 100 ≡ 0 → (yoe_of doe + 1) % 400 ≡ 0))
last_day doe h e = (omega arith, λ c. omega arith)

-- The days before March 1 of a year.
march_start :
    (y : ℕ) → 0 < y → before_year y + 59 + leap_days y + 306 ≡ 365 * y + y / 4 - y / 100 + y / 400
unfolding is_leap
march_start y h = ground arith

-- The days before January 1 of the next year.
january_start : (y : ℕ) → before_year (y + 1) ≡ 365 * y + y / 4 - y / 100 + y / 400
january_start y = omega arith

era_sum :
    (era yoe : ℕ)
    → yoe < 400
    → let y = yoe + era * 400 in
      365 * y + y / 4 - y / 100 + y / 400 ≡ era * 146_097 + (365 * yoe + yoe / 4 - yoe / 100)
era_sum era yoe h = omega arith

era_leap :
    (era yoe : ℕ)
    → (yoe + 1) % 4 ≡ 0
    → ((yoe + 1) % 100 ≡ 0 → (yoe + 1) % 400 ≡ 0)
    → leap_days (yoe + era * 400 + 1) ≡ 1
unfolding is_leap
era_leap era yoe h c = ground arith

pub record IsDate (y month d : ℕ) : Type 0 where
  pub month_low : 1 ≤ month
  pub month_high : month ≤ 12
  pub day_low : 1 ≤ d
  pub day_high : d ≤ days_in_month y month

-- The date of a day of the year that begins on March 1, by the month `mp` counted from March.
abbrev IsRight : ℕ → ℕ → ℕ → Type 0
IsRight y₀ doy mp =
    let month = if ltb mp 10 then mp + 3 else mp - 9 in
    let y = y₀ + (if leb month 2 then 1 else 0) in
    let d = doy - (153 * mp + 2) / 5 + 1 in
    IsDate y month d
    × (day_number y month d + 306 ≡ 365 * y₀ + y₀ / 4 - y₀ / 100 + y₀ / 400 + doy + 1)

module _ (y₀ doy : ℕ) (pos : 0 < y₀) (short : doy ≤ 365)
    (last : doy ≡ 365 → leap_days (y₀ + 1) ≡ 1) where
  month-IsRight :
      (mp : ℕ) → 153 * mp ≤ 5 * doy + 2 → 5 * doy + 2 < 153 * mp + 153 → IsRight y₀ doy mp
  month-IsRight (suc (suc (suc (suc (suc (suc (suc (suc (suc (suc (suc (suc m)))))))))))) lo hi =
      absurd (omega arith)
  month-IsRight _ lo hi = ground (arith, march_start y₀ pos, january_start y₀)

-- The whole computation on the days since March 1 of year 0, from the first era on.
IsDate-right :
    (z : ℕ)
    → 146_097 ≤ z
    → let era = z / 146_097 in
      let doe = doe_of z in
      let yoe = yoe_of doe in
      let doy = doy_of doe yoe in
      let mp = (5 * doy + 2) / 153 in
      let month = if ltb mp 10 then mp + 3 else mp - 9 in
      let y = yoe + era * 400 + (if leb month 2 then 1 else 0) in
      let d = doy - (153 * mp + 2) / 5 + 1 in IsDate y month d × (day_number y month d + 305 ≡ z)
IsDate-right z first =
    let era = z / 146_097 in
    let doe = doe_of z in
    let inside : doe < 146_097 = omega arith in
    let yoe = yoe_of doe in
    let doy = doy_of doe yoe in
    let leap : doy ≡ 365 → leap_days (yoe + era * 400 + 1) ≡ 1 =
      λ e. let (four, hundred) = last_day doe inside e in era_leap era yoe four hundred in
    let (date, day) =
      month-IsRight (yoe + era * 400) doy (omega arith) (doy_bound doe inside) leap
        ((5 * doy + 2) / 153) (omega arith) (omega arith) in
    (date, omega (arith, day, era_sum era yoe (yoe_bound doe inside), doy_sum doe inside))

pub record IsStampOf (secs : ℕ) (t : Stamp) : Type 0 where
  pub date : IsDate t.y t.month t.d
  pub day : day_number t.y t.month t.d ≡ secs / 86_400 + 719_163
  pub time : t.h * 3600 + t.m * 60 + t.s ≡ secs % 86_400
  pub minute : t.m < 60
  pub second : t.s < 60

-- The stamp of any number of seconds is a date of the Gregorian calendar and a time of day; the date is
-- that many days after January 1 of 1970 (day 719163 from January 1 of year 1), and the time is the
-- rest of the seconds.
pub fields-IsStampOf : (secs : ℕ) → IsStampOf secs (fields secs)
unfolding fields
fields-IsStampOf secs =
    let (date, day) = IsDate-right (secs / 86_400 + 719_468) (omega arith) in
    record {
      date = date;
      day = omega (arith, day);
      time = omega arith;
      minute = omega arith;
      second = omega arith;
    }
