-- ===== src/Load.antt =====
-- The load generator, go-backend/cmd/loadtest/main.go. Jobs is which order a job is, and the counts
-- that the accounts are checked against; Client the requests, the setup and the check; Report the
-- percentiles, the windows and the sums of a run. Shares, Accounted, Windows and Rank are proofs
-- about them. The HTTP client and JSON are functions on a state of any type; an `int` that counts
-- orders is a number without bounds.
pub mod Jobs
pub mod Shares
pub mod Client
pub mod Check
pub mod Checks
pub mod Walk
pub mod Accounted
pub mod Report
pub mod Rank
pub mod Added
pub mod Windows
pub mod Run
pub mod Verified
