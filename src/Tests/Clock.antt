-- ===== src/Tests/Clock.antt =====
-- Instants of cra_evidence/vuln.py and cra_evidence/applicability.py.
use cra_evidence.Prelude.{◌+◌, ◌*◌, ◌==◌, if◌then◌else◌, none, some, [], ◌∷◌, codes, ok, ◌≡◌, refl}
use cra_evidence.Json.{pos}
use cra_evidence.Clock.{
  Instant, day, hour, date_of, date_of_day, year_of, month_of, days_before_year, days_before_month,
  is_leap_year, month_days, day_number, midnight, shift_months, add_months, Datetime, aware, zulu,
}
use cra_evidence.Clock.Clamp.{IsMonthsOn, add_months-IsMonthsOn}

-- "a" is 2027-01-10T00:00:00Z, and "b" a day later.
abbrev pub first : Instant
first = 739990 * day

abbrev pub toy : Datetime
toy = record {
  is_space = λ c. c == 32;
  is_decimal = λ c. c == 48;
  fromisoformat = λ s. elim s [
    | [] ↦ none
    | c ∷ t ↦
        if c == b'a'
        then some (aware first (pos 0))
        else if c == b'b'
        then some (aware (first + day) (pos 0))
        else none
  ];
}

zulu_run : zulu (codes "2027-01-10T00:00:00Z") ≡ codes "2027-01-10T00:00:00+00:00"
unfolding zulu
zulu_run = refl

-- The last day of January 2027 leads to the last day of February.
end_of_january : add_months (740011 * day + hour) 1 ≡ ok (740039 * day + hour)
unfolding add_months shift_months midnight date_of date_of_day year_of month_of days_before_year
    days_before_month is_leap_year month_days day_number
end_of_january = refl

add_months-IsMonthsOn_example : IsMonthsOn 1 (740011 * day + hour) (740039 * day + hour)
add_months-IsMonthsOn_example =
    add_months-IsMonthsOn (740011 * day + hour) (740039 * day + hour) 1 end_of_january
