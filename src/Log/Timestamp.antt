-- ===== src/Log/Timestamp.antt =====
-- `timestamp` (tui/src/logging.rs): `YYYYMMDD-HHMMSS` in UTC, by the civil-from-days algorithm. The
-- seconds since 1970 are not negative (`duration_since` of an earlier time gives 0), so `div_euclid`
-- and `rem_euclid` are `/` and `%`, and no subtraction below goes under zero.
pub mod Calendar
use nixnas.Base.{
  ℕ, ◌+◌, ◌-◌, ◌*◌, ◌/◌, ◌%◌, List, [], ◌∷◌, ◌++◌, length, replicate, ltb, leb, if◌then◌else◌,
}
use nixnas.Base.Text.{Text, codes, decimal}

-- The day within its era of 400 years, the year within the era, the day within the year from March 1.
abbrev pub doe_of : ℕ → ℕ
doe_of z = z % 146_097

abbrev pub yoe_of : ℕ → ℕ
yoe_of doe = (doe - doe / 1460 + doe / 36_524 - doe / 146_096) / 365

abbrev pub doy_of : ℕ → ℕ → ℕ
doy_of doe yoe = doe - (365 * yoe + yoe / 4 - yoe / 100)

pub record Stamp : Type 0 where
  pub y : ℕ
  pub month : ℕ
  pub d : ℕ
  pub h : ℕ
  pub m : ℕ
  pub s : ℕ

unfoldable pub fields : ℕ → Stamp
fields secs =
    let z = secs / 86_400 + 719_468 in
    let era = z / 146_097 in
    let doe = doe_of z in
    let yoe = yoe_of doe in
    let doy = doy_of doe yoe in
    let mp = (5 * doy + 2) / 153 in
    let month = if ltb mp 10 then mp + 3 else mp - 9 in
    record {
      y = yoe + era * 400 + (if leb month 2 then 1 else 0);
      month = month;
      d = doy - (153 * mp + 2) / 5 + 1;
      h = secs / 3600 % 24;
      m = secs / 60 % 60;
      s = secs % 60;
    }

-- `{n:04}` and the like: zeros in front, up to a width.
unfoldable pub padded : ℕ → ℕ → Text
padded width n = let t = decimal n in replicate (width - length t) 48 ++ t

-- The text of the stamp.
unfoldable pub timestamp : ℕ → Text
unfolding fields padded
timestamp secs =
    let t = fields secs in
    padded 4 t.y
    ++ (padded 2 t.month
        ++ (padded 2 t.d ++ (codes "-" ++ (padded 2 t.h ++ (padded 2 t.m ++ padded 2 t.s)))))
