-- ===== src/Pack.antt =====
-- cra_evidence/verify_pack.py: the layers, the state elements, and how elements fold into states.
pub mod Hex
pub mod Signature
pub mod TipCheck
pub mod Seal
pub mod Stored
pub mod Sources
pub mod Anchor
pub mod Shape
pub mod Stages
pub mod Producer
pub mod Receipt
pub mod Folds
pub mod Sound
pub mod Reasons
pub mod Readings
pub mod Conclude
pub mod Equation
use cra_evidence.Prelude.{
  ℕ, Text, Bool, true, false, not, ◌&&◌, ◌||◌, ltb, if◌then◌else◌, List, [], ◌∷◌, ◌++◌, any,
}

-- REASONS and FAIL_CLOSED_REASONS
pub data Reason : Type 0 where
  digest_mismatch self_verification_failed : Reason
  ledger_malformed entry_unknown_member chain_broken record_unbound not_anchored : Reason
  state_mismatch tip_invalid tail_mismatch source_mismatch record_malformed : Reason
  sidecar_malformed signature_invalid not_present unreadable key_not_given : Reason
  ledger_not_verified instrument_failure hash_only self_asserted key_unresolved : Reason

-- A state element: (state, reason).
pub data Element : Type 0 where
  verified : Element
  contradicted : Reason → Element
  not_evaluated : Reason → Element

pub data Status : Type 0 where
  pass fail skip : Status

pub data LayerName : Type 0 where
  pack_json pack_kind pack_schema honest_scope pack_sha3 pack_self_verification : LayerName
  ledger_schema ledger_chain pack_ledger_state source_documents signed_tip : LayerName
  producer_signature trusted_signer verifier_exception : LayerName

-- `assessed` is false on the layers that carry `"assessed": False`, and true on the others.
pub record Layer : Type 0 where
  pub layer : LayerName
  pub status : Status
  pub assessed : Bool

abbrev pub layer_of : LayerName → Status → Layer
layer_of n s = record { layer = n; status = s; assessed = true }

abbrev pub pass_if : Bool → Status
pass_if good = if good then pass else fail

pub data RefusalClass : Type 0 where
  format_unsupported unknown_member malformed : RefusalClass

-- POLICY_UNMET
pub data Requirement : Type 0 where
  trusted_signer_unmet ledger_required tip_required sources_required authenticity_basis :
      Requirement

-- The keys of `el`.
pub data SubjectName : Type 0 where
  sealed_content ledger_anchor signed_tip_subject source_subject signature_subject : SubjectName

-- What the checks have recorded: the layers, the elements in the order of the calls of `append`, each
-- with the list that it went to, and the names that were added to `unmet`.
pub record Part : Type 0 where
  pub layers : List Layer
  pub log : List (SubjectName × Element)
  pub unmet : List Requirement

abbrev pub nothing : Part
nothing = record { layers = []; log = []; unmet = [] }

-- One part behind the other.
unfoldable pub both : Part → Part → Part
both p q = record {
  layers = p.layers ++ q.layers;
  log = p.log ++ q.log;
  unmet = p.unmet ++ q.unmet;
}

abbrev pub finding : LayerName → Status → SubjectName → Element → Part
finding n s k e = record { layers = layer_of n s ∷ []; log = (k, e) ∷ []; unmet = [] }

unfoldable pub is_fail : Layer → Bool
is_fail l = elim l.status [ fail ↦ true | pass ↦ false | skip ↦ false ]

unfoldable pub is_contradicted : Element → Bool
is_contradicted (contradicted r) = true
is_contradicted _ = false

unfoldable pub is_fail_closed : Reason → Bool
is_fail_closed instrument_failure = true
is_fail_closed unreadable = true
is_fail_closed _ = false

unfoldable pub is_instrument_failure : Reason → Bool
is_instrument_failure instrument_failure = true
is_instrument_failure _ = false

-- `rank` of `_fold`
unfoldable pub rank : Element → ℕ
rank (contradicted r) = 3
rank (not_evaluated r) = if is_instrument_failure r then 2 else 1
rank verified = 0

-- `max(elements, key=rank)`: the first of the highest rank
unfoldable pub highest : Element → List Element → Element
unfolding rank
highest e [] = e
highest e (f ∷ fs) = highest (if ltb (rank e) (rank f) then f else e) fs

pub data State : Type 0 where
  is_verified is_contradicted_state is_not_evaluated : State

unfoldable pub state_of : Element → State
state_of verified = is_verified
state_of (contradicted r) = is_contradicted_state
state_of (not_evaluated r) = is_not_evaluated

unfoldable pub reasons_of : List Element → List Reason
reasons_of [] = []
reasons_of (verified ∷ es) = reasons_of es
reasons_of (contradicted r ∷ es) = r ∷ reasons_of es
reasons_of (not_evaluated r ∷ es) = r ∷ reasons_of es

pub record Subject : Type 0 where
  pub state : State
  pub reasons : List Reason

-- `_fold`, without the detail
unfoldable pub fold : List Element → Subject
unfolding highest state_of reasons_of
fold [] = record { state = is_not_evaluated; reasons = not_present ∷ [] }
fold (e ∷ es) = record { state = state_of (highest e es); reasons = reasons_of (e ∷ es) }
