-- ===== src/Raft.antt =====
-- src/raft: the replicated log (Log) and one node of the consensus protocol (Node).
pub mod Log
pub mod Node
