-- ===== src/Machine/Maps.antt =====
-- The accessors of the two maps in src/raft/raft_state_machine.cpp.
use trans_db.Prelude.{ℕ, Option, none, some, Bool, false}
use trans_db.Storage.Rocks.{Rocks}
use trans_db.Machine.Apply.{Machine, set_local, set_result}

module _ (R : Rocks) where
  -- `GetLocalTxnId`
  unfoldable pub get_local_txn_id : Machine R → ℕ → ℕ
  get_local_txn_id m id = elim (m.txn_id_map id) [ none ↦ 0 | some local ↦ local ]

  -- `IsTxnPrepared`
  unfoldable pub is_txn_prepared : Machine R → ℕ → Bool
  is_txn_prepared m id = elim (m.prepare_results id) [ none ↦ false | some success ↦ success ]

  -- `TakePrepareResult`
  unfoldable pub take_prepare_result : Machine R → ℕ → Machine R × Option Bool
  take_prepare_result m id = elim (m.prepare_results id) [
    | none ↦ (m, none)
    | some success ↦ (set_result R m id none, some success)
  ]

  -- `RegisterLocalTxn`
  unfoldable pub register_local_txn : Machine R → ℕ → ℕ → Machine R
  register_local_txn m id local = set_local R m id (some local)

  -- `ForgetTxn`
  unfoldable pub forget_txn : Machine R → ℕ → Machine R
  forget_txn m id = set_result R (set_local R m id none) id none
