-- ===== src/Tests.antt =====
-- The theorems at concrete inputs, and tests of the definitions.
mod Applicability
mod Canonical
mod Clock
mod Ledger
mod Longterm
mod Notice
mod Outputs
mod Pack
mod Sealing
mod Vuln
