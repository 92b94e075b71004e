-- ===== src/ServiceStore.antt =====
-- internal/store/postgres/service.go: the durable store of the job service.
pub mod Tables
pub mod Transaction
pub mod Statements
pub mod Submit
pub mod Claim
pub mod Finalize
pub mod Complete
pub mod Fail
pub mod Operate
pub mod Reclaim
pub mod Cursor
pub mod Listing
pub mod Behind
pub mod Walks
pub mod ListingBounds
pub mod Counting
pub mod Detail
pub mod Retry
pub mod DlqListing
pub mod DlqPages
pub mod Workers
pub mod Metrics
pub mod Metering
pub mod Details
pub mod Undecoded
pub mod ListingTests
pub mod DetailTests
pub mod DlqTests
pub mod Rows
pub mod Keeps
pub mod Tails
pub mod System
pub mod Identity
pub mod Invariant
pub mod Robust
pub mod Ids
pub mod Selected
pub mod Expiry
pub mod Claiming
pub mod Leasing
pub mod History
pub mod Fencing
pub mod Superseded
pub mod Choice
pub mod Idempotency
pub mod Replays
pub mod Verdicts
pub mod Settlement
pub mod Cancelling
pub mod Reclaiming
pub mod Samples
pub mod Runs
pub mod Tests
