-- ===== src/Clock.antt =====
-- The instants of cra_evidence/vuln.py and cra_evidence/applicability.py: parse_utc, add_months, and what they
-- use of datetime.
pub mod Calendar
pub mod Months
pub mod Clamp
use cra_evidence.Prelude.{
  ℕ, zero, suc, ◌+◌, ◌-◌, ◌*◌, ◌/◌, ◌%◌, min, Text, Bool, true, false, not, ◌&&◌, ◌||◌, ltb, leb,
  ◌==◌, if◌then◌else◌, List, [], ◌∷◌, ◌++◌, Option, none, some, length, take, drop, all, codes,
  Result, ok, raised, value_error, overflow_error, guard, ◌>>=◌, ◌>>◌,
}
use cra_evidence.Json.{ℤ, pos, negsuc}

-- An aware datetime in UTC, by the microseconds since 0001-01-01T00:00:00.
abbrev pub Instant : Type 0
Instant = ℕ

abbrev pub second : ℕ
second = 1000000

abbrev pub hour : ℕ
hour = 3600000000

abbrev pub day : ℕ
day = 86400000000

-- Behind 9999-12-31T23:59:59.999999; there are 3652059 days before it.
abbrev pub end_of_time : ℕ
end_of_time = 3652059 * 86400000000

-- `d + timedelta(...)` and `d - timedelta(...)`
unfoldable pub later : ℕ → Instant → Result Instant
later n d = if ltb (d + n) end_of_time then ok (d + n) else raised overflow_error

unfoldable pub earlier : ℕ → Instant → Result Instant
earlier n d = if leb n d then ok (d - n) else raised overflow_error

-- What `d.isoformat(timespec="seconds")` denotes.
unfoldable pub to_seconds : Instant → Instant
to_seconds d = d / 1000000 * 1000000

pub record Date : Type 0 where
  pub year : ℕ
  pub month : ℕ
  pub day_of_month : ℕ

unfoldable pub is_leap_year : ℕ → Bool
is_leap_year y = (y % 4 == 0) && (not (y % 100 == 0) || (y % 400 == 0))

unfoldable pub month_days : ℕ → ℕ → ℕ
unfolding is_leap_year
month_days y m =
    if m == 2
    then (if is_leap_year y then 29 else 28)
    else if (m == 4) || ((m == 6) || ((m == 9) || (m == 11)))
    then 30
    else 31

-- Days before a year, and before a month of it; the day number of a date is 0 for 0001-01-01.
unfoldable pub days_before_year : ℕ → ℕ
days_before_year y = (y - 1) * 365 + (y - 1) / 4 - (y - 1) / 100 + (y - 1) / 400

unfoldable pub days_before_month : ℕ → ℕ → ℕ
unfolding is_leap_year
days_before_month y m =
    let leap = if is_leap_year y then 1 else 0 in
    if leb m 1
    then 0
    else if m == 2
    then 31
    else if m == 3
    then 59 + leap
    else if m == 4
    then 90 + leap
    else if m == 5
    then 120 + leap
    else if m == 6
    then 151 + leap
    else if m == 7
    then 181 + leap
    else if m == 8
    then 212 + leap
    else if m == 9
    then 243 + leap
    else if m == 10
    then 273 + leap
    else if m == 11
    then 304 + leap
    else if m == 12
    then 334 + leap
    else 365 + leap

unfoldable pub day_number : Date → ℕ
unfolding days_before_year days_before_month
day_number d = days_before_year d.year + days_before_month d.year d.month + (d.day_of_month - 1)

-- The year that the day with number `n` lies in: whole cycles of 400, 100, 4 and 1 years; the last day of
-- a cycle of 400 or of 4 years is the fifth quotient.
unfoldable pub year_of : ℕ → ℕ
year_of n =
    let a = n / 146097 in
    let b = min 3 (n % 146097 / 36524) in
    let r = n % 146097 - b * 36524 in
    let c = r / 1461 in let d = min 3 (r % 1461 / 365) in a * 400 + b * 100 + c * 4 + d + 1

-- The month of the day `k` (from 0) of the year `y`.
unfoldable pub month_of : ℕ → ℕ → ℕ → ℕ
unfolding days_before_month
month_of y zero k = 1
month_of y (suc m) k =
    let rest = month_of y m k in if leb (days_before_month y (suc m)) k then suc m else rest

unfoldable pub date_of_day : ℕ → Date
unfolding year_of month_of
date_of_day n =
    let y = year_of n in
    let k = n - days_before_year y in
    let m = month_of y 12 k in
    record { year = y; month = m; day_of_month = k - days_before_month y m + 1 }

unfoldable pub date_of : Instant → Date
unfolding date_of_day
date_of d = date_of_day (d / 86400000000)

-- datetime(y, m, d, tzinfo=utc), of a month and a day of it that exist
unfoldable pub midnight : Date → Result Instant
unfolding day_number
midnight d =
    if leb 1 d.year && leb d.year 9999 then ok (day_number d * 86400000000) else raised value_error

-- `divmod(d.month - 1 + months, 12)` and the clamped day
unfoldable pub shift_months : ℕ → Date → Date
unfolding month_days
shift_months months d =
    let k = d.month - 1 + months in
    let y = d.year + k / 12 in
    let m = k % 12 + 1 in
    record { year = y; month = m; day_of_month = min d.day_of_month (month_days y m) }

-- `d.replace(year=y, month=m, day=...)` keeps the time of the day.
unfoldable pub add_months : Instant → ℕ → Result Instant
unfolding midnight shift_months date_of
add_months d months = do
  start ← midnight (shift_months months (date_of d))
  ok (start + d % 86400000000)

-- What the standard library decides: the white space that str.strip removes, the decimal digits of `\d`,
-- and datetime.fromisoformat, whose result has a wall clock and an offset, or no offset.
pub data Parsed : Type 0 where
  naive : Parsed
  aware : Instant → ℤ → Parsed

pub record Datetime : Type 0 where
  pub is_space : ℕ → Bool
  pub is_decimal : ℕ → Bool
  pub fromisoformat : Text → Option Parsed

unfoldable pub drop_space : (ℕ → Bool) → Text → Text
drop_space is_space [] = []
drop_space is_space (c ∷ s) = if is_space c then drop_space is_space s else c ∷ s

unfoldable pub drop_end : (ℕ → Bool) → Text → Text
drop_end is_space [] = []
drop_end is_space (c ∷ s) =
    let rest = drop_end is_space s in
    elim rest [ [] ↦ (if is_space c then [] else c ∷ []) | d ∷ ds ↦ c ∷ d ∷ ds ]

-- `ts.strip()`
unfoldable pub strip : Datetime → Text → Text
unfolding drop_space drop_end
strip dt s = drop_end dt.is_space (drop_space dt.is_space s)

-- `Z` or `z` at the end
unfoldable pub zulu : Text → Text
zulu [] = []
zulu (c ∷ []) = if (c == b'Z') || (c == b'z') then codes "+00:00" else c ∷ []
zulu (c ∷ d ∷ s) = c ∷ zulu (d ∷ s)

-- `([+-]\d{2})(\d{2})$` of the last five characters
unfoldable pub is_short_offset : Datetime → Text → Bool
is_short_offset dt (s ∷ a ∷ b ∷ c ∷ d ∷ []) =
    ((s == b'+') || (s == b'-'))
    && (dt.is_decimal a && (dt.is_decimal b && (dt.is_decimal c && dt.is_decimal d)))
is_short_offset dt _ = false

unfoldable pub insert_colon : Datetime → Text → Text
unfolding is_short_offset
insert_colon dt t =
    let n = length t - 5 in
    if is_short_offset dt (drop n t) then take (n + 3) t ++ codes ":" ++ drop (n + 3) t else t

-- `d.astimezone(timezone.utc)`
unfoldable pub to_utc : Instant → ℤ → Result Instant
unfolding earlier later
to_utc wall (pos o) = earlier o wall
to_utc wall (negsuc o) = later (suc o) wall

unfoldable pub parse_utc : Datetime → Text → Result Instant
unfolding strip zulu insert_colon to_utc
parse_utc dt ts = elim (dt.fromisoformat (insert_colon dt (zulu (strip dt ts)))) [
  | none ↦ raised value_error
  | some p ↦ elim p [ naive ↦ raised value_error | aware wall offset ↦ to_utc wall offset ]
]
