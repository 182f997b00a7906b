-- ===== src/Coord.antt =====
-- The coordinator: its log (Log, LogTrip), the shards as it calls them (Outside, Shards), and its calls.
pub mod Log
pub mod LogTrip
pub mod Outside
pub mod Shards
pub mod Calls
pub mod Commit
pub mod Recover
pub mod Keeps
pub mod Participants
pub mod Steps
pub mod Phases
pub mod Outcomes
pub mod Atomic
pub mod Answers
pub mod Resume
pub mod Bounds
