-- ===== src/Prelude/Raise.antt =====
-- What a Python call gives back: a value, or the class of the exception that it raises (the texts
-- of the messages are not modelled). A chain of calls that may raise is a `do` block.
use mathlib.Core.Path.{◌≡◌, refl}
use mathlib.Core.Logic.{◌↔◌, ◌⊎◌, inl, inr}
use mathlib.Core.Bool.{Bool, true, false}

pub data Error : Type 0 where
  type_error value_error recursion_error os_error runtime_error overflow_error assertion_error
        key_error :
      Error
  output_not_written tip_not_written : Error

pub data Result {ℓ} (T : Type ℓ) : Type ℓ where
  raised : Error → Result T
  ok : T → Result T

infixl 5 ◌>>=◌ ◌>>◌
abbrev pub ◌>>=◌ {ℓ κ} : {S : Type ℓ} {T : Type κ} → Result S → (S → Result T) → Result T
raised x >>= next = raised x
ok s >>= next = next s

abbrev pub ◌>>◌ {ℓ} : {T : Type ℓ} → Result (Unit {0}) → Result T → Result T
check >> next = check >>= λ _. next

-- `if not test: raise x`
abbrev pub guard : Bool → Error → Result (Unit {0})
guard false x = raised x
guard true x = ok tt

-- A chain that gives a value got through its first call.
pub bind-ok {ℓ κ} :
    {S : Type ℓ} {T : Type κ} (first : Result S) (next : S → Result T) {t : T}
    → (first >>= next) ≡ ok t
    → (s : S) × (first ≡ ok s) × (next s ≡ ok t)
bind-ok (raised x) next e = cc
bind-ok (ok s) next e = (s, refl, e)

pub >>-ok_iff : (m k : Result (Unit {0})) → ((m >> k) ≡ ok tt) ↔ ((m ≡ ok tt) × (k ≡ ok tt))
>>-ok_iff (ok tt) k = (λ h. (refl, h), λ h. h.1)
>>-ok_iff (raised e) k = (λ h. cc, λ h. cc)

pub guard-ok_iff : (b : Bool) (e : Error) → (guard b e ≡ ok tt) ↔ (b ≡ true)
guard-ok_iff true e = (λ h. refl, λ h. refl)
guard-ok_iff false e = (λ h. cc, λ h. cc)

pub Result-cases {ℓ} :
    {A : Type ℓ} (r : Result A) → ((a : A) × (r ≡ ok a)) ⊎ ((e : Error) × (r ≡ raised e))
Result-cases (ok a) = inl (a, refl)
Result-cases (raised e) = inr (e, refl)
