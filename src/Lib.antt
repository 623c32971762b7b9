-- ===== src/Lib.antt =====
-- A model of cra-evidence, the firm-side evidence locker for the Cyber Resilience Act, after the
-- Python package cra_evidence/.
--
-- Parts and how they interact. The locker writes records (SBOMs, vulnerability events, notices, seals)
-- as entries of one hash-chained ledger; each record is made float-free and hashed over its canonical
-- JSON. The verifier reads the ledger back with the strict parser and recomputes the chain.
--
-- Files.
--   Prelude       shared names, lists, texts, and the exceptions of a Python call as `Result`
--   Json          the values that are hashed: a dict lists its items in insertion order
--   Runtime       what the standard library provides and the package does not implement: the digests of
--                 hashlib, the UTF-8 decoder, the scanner of json.loads
--   Canonical     cra_evidence/canonical.py: floatfree, _refuse_floats (refuse_floats), nesting_depth,
--                 canonical_bytes with json.dumps written out (Canonical/Encode)
--   Ledger        cra_evidence/ledger.py: line_content, is_blank_line, entries, entry_hash and verify;
--                 parse_line with its hooks in Ledger/Parse; _tail_state and append in Ledger/Append, with Append/Atomic (an append that
--                 raises), Append/Appended (one that returns), Append/Scanned and Readback (read again)
--   Disk          the file system as a verifier sees it: open_regular, read_regular, _present
--   Pack          cra_evidence/verify_pack.py: elements and _fold here; _source_documents in Pack/Sources;
--                 _verify in Pack/Shape (the pack by itself), Pack/Anchor and Pack/Stages (the ledger),
--                 Pack/Producer (the signature) and Pack/Receipt (the verdict); and what it uses of
--                 cra_evidence/signing.py: verify_pack_signature (Pack/Signature), verify_tip
--                 (Pack/TipCheck), is_instant and the key tests (Pack/Hex)
--                 Pack/Folds, Reasons, Sound, Readings, Conclude and Equation prove the verdict, Pack/Seal
--                 the tip and Pack/Stored the source documents
--   Clock         instants, and the calendar that cra_evidence/vuln.py uses of datetime: parse_utc, add_months;
--                 Clock/Clamp proves how months are added
--   Applicability cra_evidence/applicability.py: day_start and the periods here; the obligations in
--                 Applicability/Obligations, support period and horizons in Applicability/Horizons; Offset,
--                 Starts, Years, Outcomes and Cover prove them
--   Vuln          cra_evidence/vuln.py: VulnerabilityRecord with its checks, deadlines and overdue; the
--                 proofs in Vuln/Stages (what is overdue), Vuln/Times (the deadlines), Vuln/Total (that
--                 every accepted record has an answer)
--   Longterm      cra_evidence/longterm.py: registries, signer, policy and seal; verify and renewal_due in
--                 Longterm/Check; the promise in Longterm/Spec, its proof in Longterm/Trusted, and that a
--                 seal renews a chain in Longterm/Sealed and Longterm/Renewal
--   Notice        cra_evidence/srp_notice.py: the field tables in Notice/Tables, the constructor, missing and
--                 deadline_utc; the proofs in Notice/Carry (carried fields) and Notice/Due (deadlines)
--   Outputs       cra_evidence/outputs.py: write_tmp, commit_tmp, write_file; Outputs/Whole proves them
--   Locker        cra_evidence/locker.py: _bind, _append and verify; _evidence_pack_locked in Locker/Packing and
--                 seal_longterm in Locker/Sealing; the proofs in Locker/Bound (bound records),
--                 Locker/Anchored (the pack and its anchor) and Locker/Sealed (seals)
--   Tests         the theorems at concrete inputs
--
-- Correspondence. A `str` is the list of its code points and `bytes` a list of numbers. A generator is
-- the list of what it yields with the exception that it ends in, if any. Exceptions are kept by class;
-- message texts and the paths in them are not modelled. `f.readline(limit)` called until the file ends
-- is the list `reads`. An append takes the state (whether the ledger is there, its bytes, its signed tip) and
-- what the host decides (open, lock, bytes taken by each write, fsync, truncation to the old end, tip
-- replacement), and gives the outcome and the state. Files that are written whole are a map from paths; the
-- text is encoded by a parameter, which may refuse it, and a name with a NUL is refused. The ledger and its tip
-- stand beside that map: a pack whose path names one of them replaces it.
--
-- Bounds and fuel. 2^53 - 1 for integers, 512 for the nesting, 64 MiB for a line, as in the source. The
-- one fuel is that of `digits`, one more than the number printed, which has no more digits than that.
--
-- The verifier of packs takes the file system and the Ed25519 check (or its absence) as parameters. What
-- _verify appends to its lists is a `Part` (layers, tagged elements, unmet requirements), and its stages
-- are put one behind the other by `both`; the details' texts are left out.
--
-- Time. An aware datetime is an Instant, the microseconds since 0001-01-01T00:00:00Z; a text of
-- isoformat(timespec="seconds") stands for its whole second. datetime.fromisoformat, the white space of strip,
-- the digits of `\d` and uuid.UUID are parameters; the calendar of datetime is written out. A role, stream or
-- status outside the source's tuple is other_role, other_stream or other_status. Quoted norms are left out.
--
-- Floats of a seal are known by their repr; float(), repr, < and + are a parameter, as are the algorithms and
-- hashes that were registered. `show` is what Python's str prints of a value that is no text.
--
-- Not modelled: the file-system calls behind open_regular, the recursion limit of CPython, Ed25519 itself and
-- key files, the command line, the network clients, and the verifiers in other languages. SBOM records, and what
-- the locker puts into the records of an SBOM, an event or a notice, are not modelled.
mod Prelude
pub mod Json
pub mod Runtime
pub mod Canonical
pub mod Ledger
pub mod Disk
pub mod Pack
mod Tests
pub mod Clock
pub mod Applicability
pub mod Vuln
pub mod Longterm
pub mod Notice
pub mod Outputs
pub mod Locker
