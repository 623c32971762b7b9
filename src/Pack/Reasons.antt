-- ===== src/Pack/Reasons.antt =====
-- The reasons that `verify_pack_signature` of cra_evidence/signing.py gives for a signature that fails.
use cra_evidence.Prelude.{
  Text, Bool, true, false, if◌then◌else◌, Option, none, some, Result, ok, raised, ◌≡◌, refl, arith,
}
use cra_evidence.Json.{null, bool, int, float, str, arr, tuple, obj, Fields}
use cra_evidence.Runtime.{Runtime}
use cra_evidence.Disk.{Node, regular, special, denied, below_file, absent, Disk}
use cra_evidence.Pack.{signature_invalid, digest_mismatch, is_fail_closed}
use cra_evidence.Pack.Signature.{
  Ed25519, TrustStore, Loaded, document, unusable, failed, ill_formed, Signature, unsigned, failing,
  passing, check_signature, check_sidecar, check_message, check_digest, unless_raised,
  unsigned_if_absent, sidecar_path, judge_sidecar, verify_pack_signature, load, signed_payload,
  pack_digest,
}
use cra_evidence.Pack.Producer.{failed_element}
use cra_evidence.Pack.Folds.{is_culprit}

-- A failing signature is a culprit by its reason.
unfoldable pub is_found : Signature → Bool
is_found unsigned = true
is_found (passing trusted) = true
is_found (failing r) = is_culprit (failed_element r)

unfoldable pub IsFound : Signature → Type 0
IsFound s = is_found s ≡ true

if-IsFound : (b : Bool) (s t : Signature) → IsFound s → IsFound t → IsFound (if b then s else t)
if-IsFound true s t h k = h
if-IsFound false s t h k = k

unless_raised-IsFound :
    (s : Signature) (f : Text → Signature) (r : Result Text)
    → IsFound s
    → ((t : Text) → IsFound (f t))
    → IsFound (unless_raised s f r)
unfolding unless_raised IsFound is_found
unless_raised-IsFound s f (raised e) h k = h
unless_raised-IsFound s f (ok t) h k = k t

check_message-IsFound :
    (rt : Runtime) (check : Text → Text → Text → Bool) (store : Option TrustStore) (side : Fields)
    (t : Text)
    → IsFound (check_message rt check store side t)
unfolding check_message IsFound is_found failed_element is_culprit
check_message-IsFound rt check store side t = ground arith

check_signature-IsFound :
    (rt : Runtime) (ed : Ed25519) (store : Option TrustStore) (side : Fields)
    → IsFound (check_signature rt ed store side)
unfolding check_signature IsFound is_found failed_element is_culprit is_fail_closed
check_signature-IsFound rt none store side = refl
check_signature-IsFound rt (some check) store side =
    unless_raised-IsFound (failing signature_invalid) (check_message rt check store side)
      (signed_payload side) refl (check_message-IsFound rt check store side)

check_digest-IsFound :
    (rt : Runtime) (ed : Ed25519) (store : Option TrustStore) (pack side : Fields) (t : Text)
    → IsFound (check_digest rt ed store pack side t)
unfolding check_digest IsFound is_found failed_element is_culprit
check_digest-IsFound rt ed store pack side t =
    ground (arith, check_signature-IsFound rt ed store side)

judge_sidecar-IsFound :
    (rt : Runtime) (ed : Ed25519) (store : Option TrustStore) (pack : Fields) (l : Loaded)
    → IsFound (judge_sidecar rt ed store pack l)
unfolding judge_sidecar IsFound is_found check_sidecar failed_element is_culprit is_fail_closed
judge_sidecar-IsFound rt ed store pack unusable = refl
judge_sidecar-IsFound rt ed store pack ill_formed = refl
judge_sidecar-IsFound rt ed store pack failed = refl
judge_sidecar-IsFound rt ed store pack (document (obj side)) = ground (
  arith,
  unless_raised-IsFound (failing digest_mismatch) (check_digest rt ed store pack side)
      (pack_digest rt pack) refl (check_digest-IsFound rt ed store pack side),
)
judge_sidecar-IsFound rt ed store pack (document null) = refl
judge_sidecar-IsFound rt ed store pack (document (bool b)) = refl
judge_sidecar-IsFound rt ed store pack (document (int z)) = refl
judge_sidecar-IsFound rt ed store pack (document (float x)) = refl
judge_sidecar-IsFound rt ed store pack (document (str s)) = refl
judge_sidecar-IsFound rt ed store pack (document (arr vs)) = refl
judge_sidecar-IsFound rt ed store pack (document (tuple vs)) = refl

unsigned_if_absent-IsFound :
    (n : Node) (s : Signature) → IsFound s → IsFound (unsigned_if_absent n s)
unfolding unsigned_if_absent IsFound is_found
unsigned_if_absent-IsFound absent s h = refl
unsigned_if_absent-IsFound below_file s h = refl
unsigned_if_absent-IsFound (regular b) s h = h
unsigned_if_absent-IsFound special s h = h
unsigned_if_absent-IsFound denied s h = h

pub verify_pack_signature-IsFound :
    (rt : Runtime) (ed : Ed25519) (disk : Disk) (path : Text) (store : Option TrustStore)
    (pack : Fields)
    → IsFound (verify_pack_signature rt ed disk path store pack)
unfolding verify_pack_signature IsFound is_found
verify_pack_signature-IsFound rt ed disk path store pack =
    unsigned_if_absent-IsFound (disk.at (sidecar_path path))
      (judge_sidecar rt ed store pack (load rt disk (sidecar_path path)))
      (judge_sidecar-IsFound rt ed store pack (load rt disk (sidecar_path path)))
