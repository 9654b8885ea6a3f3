-- ===== src/Tests.antt =====
-- The theorems at concrete inputs, and runs of the definitions.
mod Policies
mod Approvals
mod Identities
mod Runs
mod Backends
mod Templates
mod Contexts
mod Connections
mod Admissions
mod Stores
