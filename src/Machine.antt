-- ===== src/Machine.antt =====
-- src/raft/raft_state_machine.cpp: what a replica does with a committed entry of the Raft log.
pub mod Batch
pub mod Unpack
pub mod Apply
pub mod Maps
pub mod TwoPhase
