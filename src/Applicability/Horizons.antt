-- ===== src/Applicability/Horizons.antt =====
-- `support_period`, `_horizon`, `retention_until` and `update_available_until` of cra_evidence/applicability.py.
use cra_evidence.Prelude.{
  ℕ, max, Text, Bool, true, false, not, ◌&&◌, ◌||◌, ltb, leb, if◌then◌else◌, Option, none, some,
  is_empty, Result, ok, raised, value_error, guard, ◌>>=◌, ◌>>◌,
}
use cra_evidence.Clock.{Instant, Datetime, parse_utc, strip, to_seconds}
use cra_evidence.Applicability.{Both, per_reading, years_after}
use cra_evidence.Applicability.Obligations.{parse_given}

-- SUPPORT_STATUSES
pub data SupportStatus : Type 0 where
  meets_minimum shorter_declared below_minimum depends_on_time_zone_reading : SupportStatus

pub record SupportPeriod : Type 0 where
  pub status : SupportStatus
  pub readings : Both SupportStatus
  pub minimum_end : Both Instant
  pub reason_given : Bool

abbrev pub support_period_min_years : ℕ
support_period_min_years = 5

-- `bool((shorter_expected_use_reason or "").strip())`
unfoldable pub has_reason : Datetime → Option Text → Bool
has_reason dt none = false
has_reason dt (some s) = not (is_empty (strip dt s))

abbrev shorter : Bool → SupportStatus
shorter reason = if reason then shorter_declared else below_minimum

unfoldable pub status_under : Bool → Bool → SupportStatus
status_under reason meets = if meets then meets_minimum else shorter reason

unfoldable pub support_status : Bool → Both Bool → Result SupportStatus
support_status reason meets =
    if meets.at_utc && meets.at_brussels
    then (if reason then raised value_error else ok meets_minimum)
    else if not (meets.at_utc || meets.at_brussels)
    then ok (shorter reason)
    else ok depends_on_time_zone_reading

unfoldable pub support_period : Datetime → Text → Text → Option Text → Result SupportPeriod
unfolding per_reading has_reason status_under support_status
support_period dt placed_on_market support_period_end reason = do
  placed ← parse_utc dt placed_on_market
  end ← parse_utc dt support_period_end
  guard (ltb placed end) value_error
  minimum ← per_reading (years_after placed support_period_min_years)
  let meets : Both Bool = record {
    at_utc = leb minimum.at_utc end;
    at_brussels = leb minimum.at_brussels end;
  }
  status ← support_status (has_reason dt reason) meets
  ok (record {
    status = status;
    readings = record {
      at_utc = status_under (has_reason dt reason) meets.at_utc;
      at_brussels = status_under (has_reason dt reason) meets.at_brussels;
    };
    minimum_end = record {
      at_utc = to_seconds minimum.at_utc;
      at_brussels = to_seconds minimum.at_brussels;
    };
    reason_given = has_reason dt reason;
  })

-- One reading of a horizon: until when, and whether by the support period.
pub record Until : Type 0 where
  pub until : Instant
  pub by_support_period : Bool

unfoldable pub until_of : Option Instant → Instant → Until
until_of none ten = record { until = to_seconds ten; by_support_period = false }
until_of (some end) ten =
    if ltb ten end
    then record { until = to_seconds end; by_support_period = true }
    else record { until = to_seconds ten; by_support_period = false }

pub record Horizon : Type 0 where
  pub readings : Both Until
  pub latest_until : Instant

-- The texts of two instants in whole seconds compare as the instants do.
unfoldable pub horizon : Instant → ℕ → Option Instant → Result Horizon
unfolding per_reading until_of
horizon start years end = do
  ten ← per_reading (years_after start years)
  ok (record {
    readings = record {
      at_utc = until_of end ten.at_utc;
      at_brussels = until_of end ten.at_brussels;
    };
    latest_until = max (until_of end ten.at_utc).until (until_of end ten.at_brussels).until;
  })

unfoldable pub ten_years_or_support : Datetime → Text → Option Text → Result Horizon
ten_years_or_support dt from support_period_end = do
  start ← parse_utc dt from
  end ← parse_given dt support_period_end
  horizon start 10 end

abbrev pub retention_until : Datetime → Text → Option Text → Result Horizon
retention_until = ten_years_or_support

abbrev pub update_available_until : Datetime → Text → Option Text → Result Horizon
update_available_until = ten_years_or_support
