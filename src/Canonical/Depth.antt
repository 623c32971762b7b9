-- ===== src/Canonical/Depth.antt =====
-- `nesting_depth` of cra_evidence/canonical.py.
pub mod Brackets
pub mod Members
pub mod Agree
use mathlib.Core.List.{foldl}
use cra_evidence.Prelude.{ℕ, zero, suc, Text, Bool, true, false, ◌||◌, ltb, ◌==◌, if◌then◌else◌}
use cra_evidence.Json.{ℤ, pos, negsuc}

-- The variables of the loop. `best` starts at 0 and only grows.
pub record Scan : Type 0 where
  pub depth : ℤ
  pub best : ℕ
  pub in_str : Bool
  pub esc : Bool

unfoldable pub start : Scan
start = record { depth = pos 0; best = 0; in_str = false; esc = false }

unfoldable pub succ_ℤ : ℤ → ℤ
succ_ℤ (pos n) = pos (suc n)
succ_ℤ (negsuc zero) = pos 0
succ_ℤ (negsuc (suc n)) = negsuc n

unfoldable pub pred_ℤ : ℤ → ℤ
pred_ℤ (pos zero) = negsuc 0
pred_ℤ (pos (suc n)) = pos n
pred_ℤ (negsuc n) = negsuc (suc n)

-- `if depth > best: best = depth`
unfoldable pub raise_best : ℕ → ℤ → ℕ
raise_best best (pos n) = if ltb best n then n else best
raise_best best (negsuc n) = best

-- One round of the loop, for the character `ch`.
unfoldable pub step : Scan → ℕ → Scan
unfolding succ_ℤ pred_ℤ raise_best
step s ch =
    if s.in_str
    then (if s.esc
        then record s { esc = false }
        else if ch == 92
        then record s { esc = true }
        else if ch == 34
        then record s { in_str = false }
        else s)
    else if ch == 34
    then record s { in_str = true }
    else if (ch == b'[') || (ch == b'{')
    then record s { depth = succ_ℤ s.depth; best = raise_best s.best (succ_ℤ s.depth) }
    else if (ch == b']') || (ch == b'}')
    then record s { depth = pred_ℤ s.depth }
    else s

unfoldable pub nesting_depth : Text → ℕ
unfolding start step
nesting_depth text = (foldl step start text).best
