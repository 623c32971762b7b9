-- ===== src/Applicability/Cover.antt =====
-- What a horizon of cra_evidence/applicability.py covers.
use cra_evidence.Prelude.{
  ℕ, max, ◌≤◌, ◌<◌, ◌⊎◌, inl, inr, ltb, Option, none, some, Result, ok, bind-ok, ◌≡◌, refl, sym,
  ◌∙◌, arith, Bool-cases, ap, subst, ltb→lt,
}
use cra_evidence.Clock.{Instant, end_of_time, to_seconds}
use cra_evidence.Applicability.{Reading, utc, europe_brussels, Both, per_reading, years_after}
use cra_evidence.Applicability.Horizons.{until_of, Horizon, horizon}
use cra_evidence.Applicability.Years.{years_after-lt}

-- The horizon is not before the start, nor before the end of the support period, nor before the end of the years
-- under a reading, in whole seconds; and it is one of these ends.
pub record IsCover (start : Instant) (years : ℕ) (support : Option Instant) (latest : Instant)
    : Type 0 where
  pub from_start : to_seconds start ≤ latest
  pub all_years :
      (r : Reading) (t : Instant) → years_after start years r ≡ ok t → to_seconds t ≤ latest
  pub all_support : (t : Instant) → support ≡ some t → to_seconds t ≤ latest
  pub attained :
      ((r : Reading) × (t : Instant) × (years_after start years r ≡ ok t) × (latest ≡ to_seconds t))
      ⊎ ((t : Instant) × (support ≡ some t) × (latest ≡ to_seconds t))

to_seconds_mono : (a b : Instant) → a ≤ b → to_seconds a ≤ to_seconds b
unfolding to_seconds
to_seconds_mono a b h = omega arith

some-injective : (a b : Instant) → some a ≡ some b → a ≡ b
some-injective a b h = cc

-- One reading's end.
until_of-bounds :
    (support : Option Instant) (ten : Instant)
    → (to_seconds ten ≤ (until_of support ten).until)
      × ((t : Instant) → support ≡ some t → to_seconds t ≤ (until_of support ten).until)
      × (((until_of support ten).until ≡ to_seconds ten)
          ⊎ ((t : Instant) × (support ≡ some t) × ((until_of support ten).until ≡ to_seconds t)))
unfolding until_of
until_of-bounds none ten = (omega arith, λ t e. cc, inl refl)
until_of-bounds (some t) ten = elim (Bool-cases (ltb ten t)) [
  | inl e ↦ rw e (
    to_seconds_mono ten t (omega (arith, ltb→lt ten t e)),
    λ x q. omega (arith, ap to_seconds (some-injective t x q)),
    inr (t, refl, refl),
  )
  | inr e ↦
      rw e
        (omega arith, λ x q. to_seconds_mono x ten (ground (arith, some-injective t x q)), inl refl)
]

abbrev latest_of : Option Instant → Instant → Instant → Instant
latest_of support a b = max (until_of support a).until (until_of support b).until

per_reading-ok :
    (f : Reading → Result Instant) (b : Both Instant)
    → per_reading f ≡ ok b
    → (f utc ≡ ok b.at_utc) × (f europe_brussels ≡ ok b.at_brussels)
unfolding per_reading
per_reading-ok f b h = ground arith

ok-injective : (a b : Instant) → ok a ≡ ok b → a ≡ b
ok-injective a b h = cc

max-cases : (a b : ℕ) → (max a b ≡ a) ⊎ (max a b ≡ b)
max-cases a b = ground arith

-- An end of years, or the end of the support period.
abbrev IsAttained : Instant → ℕ → Option Instant → Instant → Type 0
IsAttained start years support x =
    ((r : Reading) × (t : Instant) × (years_after start years r ≡ ok t) × (x ≡ to_seconds t))
    ⊎ ((t : Instant) × (support ≡ some t) × (x ≡ to_seconds t))

until_of-IsAttained :
    (start : Instant) (years : ℕ) (support : Option Instant) (r : Reading) (a x : Instant)
    → years_after start years r ≡ ok a
    → x ≡ (until_of support a).until
    → IsAttained start years support x
until_of-IsAttained start years support r a x e h = elim (until_of-bounds support a).2 [
  | inl q ↦ inl (r, a, e, h ∙ q)
  | inr q ↦ inr (q.0, q.1, h ∙ q.2)
]

-- Of two readings' ends the later one.
latest_of-IsCover :
    (start : Instant) (years : ℕ) (support : Option Instant) (a b : Instant)
    → start < end_of_time
    → years_after start years utc ≡ ok a
    → years_after start years europe_brussels ≡ ok b
    → IsCover start years support (latest_of support a b)
latest_of-IsCover start years support a b lt ea eb =
    let (la, sa, ta) = until_of-bounds support a in
    let (lb, sb, tb) = until_of-bounds support b in
    record {
      from_start =
          omega (
            arith,
            to_seconds_mono start a (omega (arith, years_after-lt start years utc a lt ea)),
          );
      all_years = λ r t.
          elim r as (λ r. years_after start years r ≡ ok t → to_seconds t ≤ latest_of support a b) [
            | utc ↦ λ e. omega (arith, ap to_seconds (ok-injective a t (sym ea ∙ e)))
            | europe_brussels ↦ λ e. omega (arith, ap to_seconds (ok-injective b t (sym eb ∙ e)))
          ];
      all_support = λ t e. omega (arith, sa t e);
      attained = elim (max-cases (until_of support a).until (until_of support b).until) [
        | inl q ↦ until_of-IsAttained start years support utc a _ ea q
        | inr q ↦ until_of-IsAttained start years support europe_brussels b _ eb q
      ];
    }

-- What `_horizon` returns covers all that it is computed from.
pub horizon-IsCover :
    (start : Instant) (years : ℕ) (support : Option Instant) (h : Horizon)
    → start < end_of_time
    → horizon start years support ≡ ok h
    → IsCover start years support h.latest_until
unfolding horizon
horizon-IsCover start years support h lt e =
    let (ten, f, g) =
      bind-ok (per_reading (years_after start years))
        (λ ten. ok (record {
          readings = record {
            at_utc = until_of support ten.at_utc;
            at_brussels = until_of support ten.at_brussels;
          };
          latest_until = latest_of support ten.at_utc ten.at_brussels;
        }))
        e in
    let (ea, eb) = per_reading-ok (years_after start years) ten f in
    let same : latest_of support ten.at_utc ten.at_brussels ≡ h.latest_until = cc in
    subst (IsCover start years support) same
      (latest_of-IsCover start years support ten.at_utc ten.at_brussels lt ea eb)
