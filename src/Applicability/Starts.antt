-- ===== src/Applicability/Starts.antt =====
-- `day_start` of cra_evidence/applicability.py finds the midnight of both readings.
use cra_evidence.Prelude.{
  ℕ, ◌+◌, ◌-◌, ◌*◌, ◌/◌, ◌≤◌, ◌<◌, false, Result, ok, ◌≡◌, refl, sym, ◌∙◌, arith, Bool-cases, inl,
  inr,
}
use cra_evidence.Clock.{
  Instant, hour, day, Date, earlier, midnight, day_number, year_of, days_before_year,
}
use cra_evidence.Clock.Calendar.{IsValid}
use cra_evidence.Clock.Months.{day_number-lt}
use cra_evidence.Applicability.{europe_brussels, brussels_offset, brussels_midnight, day_start}
use cra_evidence.Applicability.Offset.{summer_time, brussels_offset_of, no_spring_at_midnight}

-- A midnight in Brussels: an instant whose offset leads to the midnight of the wall clock.
pub record IsBrusselsMidnight (n : ℕ) (r : Result Instant) : Type 0 where
  pub start : Instant
  pub offset : ℕ
  pub returns : r ≡ ok start
  pub at_offset : brussels_offset start ≡ ok offset
  pub one_or_two : (1 ≤ offset) × (offset ≤ 2)
  pub is_midnight : start + offset * hour ≡ n * day

pub day_number-in_time : (d : Date) → IsValid d → d.year ≤ 9999 → day_number d < 3652059
unfolding days_before_year
day_number-in_time d v h = omega (arith, day_number-lt d v)

same_year :
    (n : ℕ)
    → 1 ≤ n
    → (n * 86400000000 - 2 * hour) / 86400000000 ≡ (n * 86400000000 - hour) / 86400000000
same_year n h = omega arith

earlier-ok : (k d : ℕ) → k ≤ d → earlier k d ≡ ok (d - k)
unfolding earlier
earlier-ok k d h = ground arith

abbrev year_before : ℕ → ℕ
year_before n = year_of ((n * 86400000000 - 2 * hour) / 86400000000)

pub brussels_midnight-IsBrusselsMidnight :
    (n : ℕ) → 1 ≤ n → n < 3652059 → IsBrusselsMidnight n (brussels_midnight (n * 86400000000))
unfolding brussels_midnight
brussels_midnight-IsBrusselsMidnight n h hi =
    elim (Bool-cases (summer_time (year_before n) (n * 86400000000 - 2 * hour))) [
      | inl e ↦ record {
        start = n * 86400000000 - 2 * hour;
        offset = 2;
        returns =
            rw
              (
                earlier-ok (2 * hour) (n * 86400000000) (omega arith),
                brussels_offset_of (n * 86400000000 - 2 * hour) (omega arith),
                e,
              )
              refl;
        at_offset = brussels_offset_of (n * 86400000000 - 2 * hour) (omega arith) ∙ rw e refl;
        one_or_two = (omega arith, omega arith);
        is_midnight = omega arith;
      }
      | inr e ↦
          let w : summer_time (year_of ((n * 86400000000 - hour) / 86400000000))
                (n * 86400000000 - hour)
              ≡ false =
            rw (sym (same_year n h)) (no_spring_at_midnight (year_before n) n h e) in
          record {
            start = n * 86400000000 - hour;
            offset = 1;
            returns =
                rw
                  (
                    earlier-ok (2 * hour) (n * 86400000000) (omega arith),
                    brussels_offset_of (n * 86400000000 - 2 * hour) (omega arith),
                    e,
                    earlier-ok hour (n * 86400000000) (omega arith),
                    brussels_offset_of (n * 86400000000 - hour) (omega arith),
                    w,
                  )
                  refl;
            at_offset = brussels_offset_of (n * 86400000000 - hour) (omega arith) ∙ rw w refl;
            one_or_two = (omega arith, omega arith);
            is_midnight = omega arith;
          }
    ]

pub midnight-ok :
    (d : Date) → IsValid d → d.year ≤ 9999 → midnight d ≡ ok (day_number d * 86400000000)
unfolding midnight
midnight-ok d v h = ground (arith, v.year_in)

-- Under the reading of Brussels, the start of a day is found, and is the instant at which the wall clock of
-- Brussels, by the offset of that very instant, shows its midnight. So the AssertionError is never raised.
pub day_start-IsBrusselsMidnight :
    (d : Date)
    → IsValid d
    → d.year ≤ 9999
    → 1 ≤ day_number d
    → IsBrusselsMidnight (day_number d) (day_start d europe_brussels)
unfolding day_start
day_start-IsBrusselsMidnight d v hi h =
    rw (midnight-ok d v hi)
      (brussels_midnight-IsBrusselsMidnight (day_number d) h (day_number-in_time d v hi))
