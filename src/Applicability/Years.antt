-- ===== src/Applicability/Years.antt =====
-- `years_after` of cra_evidence/applicability.py: a period of years ends behind its event.
use cra_evidence.Prelude.{
  ℕ, ◌+◌, ◌-◌, ◌*◌, ◌/◌, ◌≤◌, ◌<◌, Bool, true, false, ok, ◌>>=◌, bind-ok, ◌≡◌, sym, ◌∙◌, subst,
  arith, Bool-cases, ltb, ltb→lt, inl, inr,
}
use cra_evidence.Clock.{Instant, hour, day, end_of_time, Date, later, date_of, midnight, year_of}
use cra_evidence.Clock.Calendar.{date_of_day-IsValid}
use cra_evidence.Clock.Months.{add_months-years}
use cra_evidence.Applicability.{
  Reading, utc, europe_brussels, brussels_midnight, day_start, local_date, add_years, years_after,
}
use cra_evidence.Applicability.Offset.{
  summer_time, offset_of, brussels_offset_of, no_autumn_at_midnight,
}
use cra_evidence.Applicability.Starts.{brussels_midnight-IsBrusselsMidnight, day_number-in_time}

-- The midnight of the date of an instant.
midnight-date_of :
    (t m : Instant)
    → midnight (date_of t) ≡ ok m
    → (m ≡ t / 86400000000 * 86400000000) × (t / 86400000000 < 3652059)
unfolding midnight date_of
midnight-date_of t m h =
    let (v, n) = date_of_day-IsValid (t / 86400000000) in
    (ground (arith, n), ground (arith, n, day_number-in_time (date_of t) v))

later-ok : (k d t : ℕ) → later k d ≡ ok t → (t ≡ d + k) × (t < end_of_time)
unfolding later
later-ok k d t h = ground arith

-- The day that follows the date `years` on.
next_day :
    (on : Date) (years : ℕ) (r : Reading) (u : Instant)
    → (do
      first ← midnight on
      same ← add_years first years
      next ← later day same
      day_start (date_of next) r)
      ≡ ok u
    → (first : Instant) × (midnight on ≡ ok first)
      × (next : Instant) × (first + day ≤ next)
      × (next < end_of_time)
      × (day_start (date_of next) r ≡ ok u)
unfolding add_years
next_day on years r u h =
    let (first, e, h1) =
      bind-ok (midnight on)
        (λ first.
          add_years first years >>= λ same. later day same >>= λ next. day_start (date_of next) r)
        h in
    let (same, f, h2) =
      bind-ok (add_years first years)
        (λ same. later day same >>= λ next. day_start (date_of next) r) h1 in
    let (next, g, h3) = bind-ok (later day same) (λ next. day_start (date_of next) r) h2 in
    let (is_next, within) = later-ok day same next g in
    (first, e, next, omega (arith, add_months-years years first same f), within, h3)

years_after-utc :
    (event : Instant) (years : ℕ) (u : Instant) → years_after event years utc ≡ ok u → event < u
unfolding years_after local_date day_start
years_after-utc event years u h =
    let (first, e, next, le, within, s) = next_day (date_of event) years utc u h in
    omega (arith, midnight-date_of event first e, midnight-date_of next u s)

ok-injective : (a b : ℕ) → ok a ≡ ok b → a ≡ b
ok-injective a b h = cc

abbrev is_summer : Instant → Bool
is_summer t = summer_time (year_of (t / 86400000000)) t

-- The start of a day in Brussels, by its own offset.
brussels_midnight-of :
    (n : ℕ) (u : Instant)
    → 1 ≤ n
    → n < 3652059
    → brussels_midnight (n * 86400000000) ≡ ok u
    → u + offset_of u * hour ≡ n * 86400000000
brussels_midnight-of n u h hi e =
    let m = brussels_midnight-IsBrusselsMidnight n h hi in
    let s : m.start ≡ u = ok-injective m.start u (sym m.returns ∙ e) in
    let o : offset_of m.start ≡ m.offset =
      ok-injective (offset_of m.start) m.offset
        (sym (brussels_offset_of m.start (omega (arith, m.is_midnight))) ∙ m.at_offset) in
    subst (λ x. x + offset_of x * hour ≡ n * 86400000000) s (rw o m.is_midnight)

offset_of-bounds : (t : Instant) → (1 ≤ offset_of t) × (offset_of t ≤ 2)
offset_of-bounds t = ground arith

-- Winter time at an instant after summer time's midnight of the next day: summer time ends at 01:00.
no_mixed_midnight :
    (n : ℕ) (t u : Instant)
    → 1 ≤ n
    → u + 2 * hour ≡ n * 86400000000
    → is_summer u ≡ true
    → is_summer t ≡ false
    → t + hour < n * 86400000000
    → t < u
no_mixed_midnight n t u h e p q lt = elim (Bool-cases (ltb t u)) [
  | inl l ↦ ltb→lt t u l
  | inr l ↦
      let le : u ≤ t = ground arith in
      let v : u ≡ n * 86400000000 - 2 * hour = omega arith in
      let y : t / 86400000000 ≡ u / 86400000000 = omega arith in
      let s : summer_time (year_of (u / 86400000000)) (n * 86400000000 - 2 * hour) ≡ true =
        subst (λ x. summer_time (year_of (u / 86400000000)) x ≡ true) v p in
      let w : summer_time (year_of (t / 86400000000)) t ≡ true =
        rw y (no_autumn_at_midnight (year_of (u / 86400000000)) n t h s (omega arith) lt) in
      cc
]

-- An instant of an earlier day of the wall clock comes before the start of a later one.
before_midnight :
    (n : ℕ) (t u : Instant)
    → 1 ≤ n
    → t + offset_of t * hour < n * 86400000000
    → u + offset_of u * hour ≡ n * 86400000000
    → t < u
before_midnight n t u h lt e = elim (Bool-cases (is_summer u)) [
  | inl p ↦ elim (Bool-cases (is_summer t)) [
    | inl q ↦ omega (arith, (rw q at lt), (rw p at e))
    | inr q ↦ no_mixed_midnight n t u h (rw p at e) p q (rw q at lt)
  ]
  | inr p ↦ omega (arith, (rw p at e), offset_of-bounds t)
]

local_date-brussels :
    (t : Instant) (on : Date)
    → t < end_of_time
    → local_date t europe_brussels ≡ ok on
    → (l : Instant) × (later (offset_of t * hour) t ≡ ok l) × (on ≡ date_of l)
unfolding local_date
local_date-brussels t on h e =
    let (l, f, g) =
      bind-ok (later (offset_of t * hour) t) (λ l. ok (date_of l))
        (rw (brussels_offset_of t h) at e) in
    (l, f, cc)

years_after-brussels :
    (event : Instant) (years : ℕ) (u : Instant)
    → event < end_of_time
    → years_after event years europe_brussels ≡ ok u
    → event < u
unfolding years_after day_start
years_after-brussels event years u h e =
    let (on, d, e2) =
      bind-ok (local_date event europe_brussels)
        (λ on. do
          first ← midnight on
          same ← add_years first years
          next ← later day same
          day_start (date_of next) europe_brussels)
        e in
    let (l, f, is_on) = local_date-brussels event on h d in
    let (first, p, next, le, within, s) = next_day on years europe_brussels u e2 in
    let (m, q, b) = bind-ok (midnight (date_of next)) brussels_midnight s in
    let (is_l, l_in) = later-ok (offset_of event * hour) event l f in
    let (is_first, first_in) =
      midnight-date_of l first (subst (λ x. midnight x ≡ ok first) is_on p) in
    let (is_m, m_in) = midnight-date_of next m q in
    before_midnight (next / 86400000000) event u (omega arith) (omega arith) (
      brussels_midnight-of (next / 86400000000) u (omega arith) m_in
        (subst (λ x. brussels_midnight x ≡ ok u) is_m b))

-- A period of years that is computed ends behind its event, under both readings.
pub years_after-lt :
    (event : Instant) (years : ℕ) (r : Reading) (u : Instant)
    → event < end_of_time
    → years_after event years r ≡ ok u
    → event < u
years_after-lt event years utc u h e = years_after-utc event years u e
years_after-lt event years europe_brussels u h e = years_after-brussels event years u h e
