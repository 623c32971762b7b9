-- ===== src/Pack/Producer.antt =====
-- `_verify` of cra_evidence/verify_pack.py: what the producer's signature adds, and the authenticity.
use cra_evidence.Prelude.{Bool, true, false, not, if◌then◌else◌, List, [], ◌∷◌, Option, none, some}
use cra_evidence.Pack.{
  Reason, not_present, unreadable, instrument_failure, self_asserted, key_unresolved, Element,
  verified, contradicted, not_evaluated, pass, fail, skip, producer_signature, trusted_signer,
  Layer, layer_of, trusted_signer_unmet, signature_subject, Part,
}
use cra_evidence.Pack.Signature.{TrustStore, Signature, unsigned, failing, passing}

-- The element of the producer's signature.
unfoldable pub failed_element : Reason → Element
failed_element not_present = not_evaluated not_present
failed_element instrument_failure = not_evaluated instrument_failure
failed_element unreadable = not_evaluated unreadable
failed_element r = contradicted r

unfoldable pub signature_element : Option TrustStore → Signature → Element
unfolding failed_element
signature_element store unsigned = failed_element not_present
signature_element store (failing r) = failed_element r
signature_element none (passing trusted) = not_evaluated self_asserted
signature_element (some store) (passing trusted) =
    if trusted then verified else not_evaluated key_unresolved

unfoldable pub could_assess : Reason → Bool
could_assess instrument_failure = false
could_assess _ = true

unfoldable pub signature_layer : Signature → Layer
unfolding could_assess
signature_layer unsigned = layer_of producer_signature skip
signature_layer (passing trusted) = layer_of producer_signature pass
signature_layer (failing r) = record {
  layer = producer_signature;
  status = fail;
  assessed = could_assess r;
}

-- Whether a trust store is given and the signature is not that of a signer in it.
unfoldable pub is_untrusted : Option TrustStore → Signature → Bool
is_untrusted none sig = false
is_untrusted (some store) (passing trusted) = not trusted
is_untrusted (some store) _ = true

-- The layer trusted-signer is there only where the signature itself is no FAIL.
unfoldable pub signer_layers : Option TrustStore → Signature → List Layer
signer_layers (some store) unsigned = layer_of trusted_signer fail ∷ []
signer_layers (some store) (passing false) = layer_of trusted_signer fail ∷ []
signer_layers _ _ = []

unfoldable pub signature_part : Option TrustStore → Signature → Part
unfolding signature_element signature_layer is_untrusted signer_layers
signature_part store sig = record {
  layers = signature_layer sig ∷ signer_layers store sig;
  log = (signature_subject, signature_element store sig) ∷ [];
  unmet = if is_untrusted store sig then trusted_signer_unmet ∷ [] else [];
}

pub data Authenticity : Type 0 where
  trusted_signed signed anchored_only no_authenticity : Authenticity

unfoldable pub authenticity_of : Option TrustStore → Signature → Bool → Authenticity
authenticity_of store (failing r) anchored = no_authenticity
authenticity_of (some store) unsigned anchored = no_authenticity
authenticity_of none unsigned anchored = if anchored then anchored_only else no_authenticity
authenticity_of (some store) (passing trusted) anchored =
    if trusted then trusted_signed else no_authenticity
authenticity_of none (passing trusted) anchored = if trusted then trusted_signed else signed

unfoldable pub is_authentic : Authenticity → Bool
is_authentic no_authenticity = false
is_authentic _ = true

unfoldable pub is_passing : Signature → Bool
is_passing (passing trusted) = true
is_passing _ = false
