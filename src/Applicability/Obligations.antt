-- ===== src/Applicability/Obligations.antt =====
-- `reporting_in_force`, `art14_obligation`, `legacy_product_scope` and `user_information` of
-- cra_evidence/applicability.py. The texts that quote the norms are left out.
use cra_evidence.Prelude.{
  Text, Bool, true, false, ◌&&◌, ◌||◌, leb, if◌then◌else◌, [], ◌∷◌, Option, none, some, Result, ok,
  value_error, guard, ◌>>=◌, ◌>>◌,
}
use cra_evidence.Clock.{Instant, Date, Datetime, parse_utc, to_seconds}
use cra_evidence.Applicability.{
  art14_date, full_application_date, day_start, Both, per_reading, net, starts,
}

-- ROLES and STREAMS, and any other text.
pub data Role : Type 0 where
  manufacturer open_source_steward other_role : Role

pub data Stream : Type 0 where
  vulnerability incident other_stream : Stream

unfoldable pub is_role : Role → Bool
is_role other_role = false
is_role _ = true

unfoldable pub is_stream : Stream → Bool
is_stream other_stream = false
is_stream _ = true

-- `parse_utc(v) if v else None`
unfoldable pub parse_given : Datetime → Option Text → Result (Option Instant)
parse_given dt none = ok none
parse_given dt (some []) = ok none
parse_given dt (some (c ∷ s)) = do t ← parse_utc dt (c ∷ s); ok (some t)

abbrev pub seconds_of : Option Instant → Option Instant
seconds_of none = none
seconds_of (some t) = some (to_seconds t)

-- What both readings say of a date that applies from its first hour.
pub record Threshold : Type 0 where
  pub at : Instant
  pub verdict : Option Bool
  pub readings : Both Bool
  pub applies_from : Both Instant

unfoldable pub threshold : Date → Instant → Result Threshold
unfolding per_reading
threshold d at = do
  per ← per_reading (λ r. day_start d r >>= λ s. ok (leb s at))
  from ← starts d
  ok (record { at = to_seconds at; verdict = net per; readings = per; applies_from = from })

unfoldable pub date_for : Role → Date
date_for manufacturer = art14_date
date_for _ = full_application_date

-- The condition of Art. 24(3), recorded for a steward and never checked.
pub data ScopeCondition : Type 0 where
  no_condition involved_in_development systems_for_development : ScopeCondition

unfoldable pub scope_condition : Role → Stream → ScopeCondition
scope_condition manufacturer stream = no_condition
scope_condition _ vulnerability = involved_in_development
scope_condition _ _ = systems_for_development

unfoldable pub reporting_in_force :
    Datetime → Role → Text → Stream → Result (Threshold × ScopeCondition)
unfolding is_role is_stream date_for threshold scope_condition
reporting_in_force dt role at_utc stream = do
  guard (is_role role) value_error
  guard (is_stream stream) value_error
  at ← parse_utc dt at_utc
  t ← threshold (date_for role) at
  ok (t, scope_condition role stream)

abbrev is_vulnerability : Stream → Bool
is_vulnerability vulnerability = true
is_vulnerability _ = false

-- The optional awareness of the vulnerability itself: checked, and never deciding.
unfoldable pub earlier_awareness :
    Datetime → Stream → Instant → Option Text → Result (Option Instant)
earlier_awareness dt stream trigger none = ok none
earlier_awareness dt stream trigger (some t) = do
  guard (is_vulnerability stream) value_error
  va ← parse_utc dt t
  guard (leb va trigger) value_error
  ok (some (to_seconds va))

unfoldable pub art14_obligation :
    Datetime → Text → Role → Stream → Option Text → Result (Threshold × Option Instant)
unfolding is_role is_stream earlier_awareness date_for threshold
art14_obligation dt trigger role stream known = do
  guard (is_role role) value_error
  guard (is_stream stream) value_error
  t ← parse_utc dt trigger
  va ← earlier_awareness dt stream t known
  o ← threshold (date_for role) t
  ok (o, va)

-- The five texts of `basis`.
pub data LegacyBasis : Type 0 where
  depends_on_reading placed_from placed_from_in_one_reading modified_from not_reached : LegacyBasis

pub record LegacyScope : Type 0 where
  pub requirements_apply : Option Bool
  pub readings : Both Bool
  pub basis : LegacyBasis

abbrev from_or_never : Instant → Option Instant → Bool
from_or_never full none = false
from_or_never full (some m) = leb full m

unfoldable pub reached : Instant → Option Instant → Instant → Bool
reached placed modified full = leb full placed || from_or_never full modified

unfoldable pub legacy_basis : Option Bool → Instant → Both Instant → LegacyBasis
legacy_basis none placed full = depends_on_reading
legacy_basis (some false) placed full = not_reached
legacy_basis (some true) placed full =
    if leb full.at_utc placed && leb full.at_brussels placed
    then placed_from
    else if leb full.at_brussels placed
    then placed_from_in_one_reading
    else modified_from

unfoldable pub not_before_placing : Instant → Option Instant → Bool
not_before_placing placed none = true
not_before_placing placed (some m) = leb placed m

unfoldable pub legacy_product_scope : Datetime → Text → Option Text → Result LegacyScope
unfolding parse_given not_before_placing reached legacy_basis
legacy_product_scope dt placed_on_market modified = do
  placed ← parse_utc dt placed_on_market
  mod_at ← parse_given dt modified
  guard (not_before_placing placed mod_at) value_error
  full ← per_reading (day_start full_application_date)
  let per : Both Bool = record {
    at_utc = reached placed mod_at full.at_utc;
    at_brussels = reached placed mod_at full.at_brussels;
  }
  ok (record {
    requirements_apply = net per;
    readings = per;
    basis = legacy_basis (net per) placed full;
  })

-- `user_information`: the instant that was recorded, if any.
unfoldable pub user_information : Datetime → Text → Option Text → Result (Option Instant)
unfolding parse_given not_before_placing
user_information dt awareness informed = do
  aw ← parse_utc dt awareness
  at ← parse_given dt informed
  guard (not_before_placing aw at) value_error
  ok (seconds_of at)
