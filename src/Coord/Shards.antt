-- ===== src/Coord/Shards.antt =====
-- src/coordinator/coordinator.cpp: the coordinator's state, the route of a key to its shard, and one
-- call to a shard with its retries.
use trans_db.Prelude.{
  ℕ, zero, suc, ◌+◌, ◌*◌, ◌%◌, max, Bool, true, false, not, ◌&&◌, ◌||◌, Option, none, some, List,
  [], ◌∷◌, leb, ◌==◌, ◌=l=◌, length, take, if◌then◌else◌, Status, ok, io_error, is_ok,
}
use Prim.Native.Nat.{bit_xor}
use trans_db.Bytes.{Bytes, u64_mod}
use trans_db.Coord.Log.{CoordinatorLog}
use trans_db.Coord.Outside.{
  Outside, Stub, replica, single, ExecuteRequest, ExecuteResponse, JoinResponse, PrepareResponse,
  TxnStateCode, txn_unknown,
}

-- `CoordinatorTxn`; `participant_shards` in the order in which the set lists them.
pub record CoordinatorTxn : Type 0 where
  pub raft_txn_id : ℕ
  pub snapshot_ts : ℕ
  pub participant_shards : List ℕ
  pub aborted : Bool

-- `replicas` has the size of each vector in `replica_stubs_`, `stubs` whether `stubs_` has the shard;
-- `current` is the counter of `ts_oracle_`.
pub record Coordinator (O : Outside) : Type 0 where
  pub num_shards : ℕ
  pub current : ℕ
  pub next_txn_id : ℕ
  pub txns : ℕ → Option CoordinatorTxn
  pub stubs : ℕ → Bool
  pub replicas : ℕ → Option ℕ
  pub active_replica_index : ℕ → ℕ
  pub log : Option CoordinatorLog
  pub world : O.World

-- Whether a message has the text in it.
unfoldable pub contains : Bytes → Bytes → Bool
contains [] text = length text == 0
contains (b ∷ bs) text =
    let rest = contains bs text in if take (length text) (b ∷ bs) =l= text then true else rest

-- "no raft leader"
abbrev no_raft_leader : Bytes
no_raft_leader = 110 ∷ 111 ∷ 32 ∷ 114 ∷ 97 ∷ 102 ∷ 116 ∷ 32 ∷ 108 ∷ 101 ∷ 97 ∷ 100 ∷ 101 ∷ 114 ∷ []

-- "no leader"
abbrev no_leader : Bytes
no_leader = 110 ∷ 111 ∷ 32 ∷ 108 ∷ 101 ∷ 97 ∷ 100 ∷ 101 ∷ 114 ∷ []

-- `IsLeaderUnavailableMessage`
unfoldable pub is_leader_unavailable_message : Bytes → Bool
unfolding contains
is_leader_unavailable_message message =
    contains message no_raft_leader || contains message no_leader

-- The condition on which the loops over replicas give up.
unfoldable pub gives_up : Bytes → Bool
gives_up message = not (length message == 0) && not (is_leader_unavailable_message message)

unfoldable pub fnv_loop : ℕ → Bytes → ℕ
fnv_loop hash [] = hash
fnv_loop hash (c ∷ key) = fnv_loop (bit_xor hash c * 1099511628211 % u64_mod) key

-- `RouteShard`
unfoldable pub route_shard : ℕ → Bytes → ℕ
route_shard num_shards key = fnv_loop 14695981039346656037 key % max 1 num_shards

module _ (O : Outside) where
  -- `GetStub`
  unfoldable pub get_stub : Coordinator O → ℕ → Option Stub
  get_stub c shard_id =
      let single_stub = if c.stubs shard_id then some single else none in
      elim (c.replicas shard_id) [
        | none ↦ single_stub
        | some zero ↦ single_stub
        | some (suc n) ↦ some (replica (c.active_replica_index shard_id))
      ]

  -- `RotateStub`
  unfoldable pub rotate_stub : Coordinator O → ℕ → Coordinator O
  rotate_stub c shard_id = elim (c.replicas shard_id) [
    | none ↦ c
    | some zero ↦ c
    | some (suc n) ↦ if leb (suc n) 1 then c else record c {
      active_replica_index = λ s.
          if s == shard_id
          then (c.active_replica_index shard_id + 1) % suc n
          else c.active_replica_index s;
    }
  ]

  -- The number of attempts in the loops over replicas.
  unfoldable pub attempts : Coordinator O → ℕ → ℕ
  attempts c shard_id = elim (c.replicas shard_id) [ none ↦ 1 | some n ↦ max 1 n ]

  -- The loop that `PrepareOnShard`, `CommitOnShard`, `AbortOnShard` and `QueryTxnStateOnShard` share.
  -- The response lives outside the loop: a call that fails leaves the one before.
  unfoldable pub try_replicas :
      {Response : Type 0}
      → (O.World → Stub → O.World × Option Response)
      → (Response → Bool)
      → (Response → Bool)
      → ℕ
      → Coordinator O
      → ℕ
      → Response
      → Coordinator O × (Bool × Response)
  try_replicas call accepted refused zero c shard_id resp = (c, (false, resp))
  try_replicas call accepted refused (suc a) c shard_id resp = elim (get_stub c shard_id) [
    | none ↦ (c, (false, resp))
    | some stub ↦
        let (w, answer) = call c.world stub in
        let next = record c { world = w } in
        elim answer [
          | some r ↦
              let rest =
                try_replicas call accepted refused a (rotate_stub next shard_id) shard_id r in
              if accepted r
              then (next, (true, r))
              else if refused r
              then (next, (false, r))
              else rest
          | none ↦
              let rest =
                try_replicas call accepted refused a (rotate_stub next shard_id) shard_id resp in
              if refused resp then (next, (false, resp)) else rest
        ]
  ]

  -- The loop of `ExecuteWithLeaderRetry` and `DistributedJoinOnShard`; `verdict` is what the response
  -- makes the loop return, if it does.
  unfoldable pub leader_retry :
      {Response : Type 0}
      → (O.World → Stub → O.World × Option Response)
      → (Response → Option Status)
      → ℕ
      → Coordinator O
      → ℕ
      → Coordinator O × (Status × Option Response)
  leader_retry call verdict zero c shard_id = (c, (io_error, none))
  leader_retry call verdict (suc a) c shard_id = elim (get_stub c shard_id) [
    | none ↦ leader_retry call verdict a (rotate_stub c shard_id) shard_id
    | some stub ↦
        let (w, answer) = call c.world stub in
        let next = record c { world = w } in
        elim answer [
          | none ↦ leader_retry call verdict a (rotate_stub next shard_id) shard_id
          | some r ↦ elim (verdict r) [
            | some st ↦ (next, (st, some r))
            | none ↦ leader_retry call verdict a (rotate_stub next shard_id) shard_id
          ]
        ]
  ]

-- `FromExecuteResponse`, on a response that came.
unfoldable pub from_execute_response : ExecuteResponse → Status
from_execute_response r = if r.success then ok else r.error_code

unfoldable pub execute_verdict : ExecuteResponse → Option Status
unfolding from_execute_response is_leader_unavailable_message
execute_verdict r =
    let st = from_execute_response r in
    if is_ok st
    then some st
    else if is_leader_unavailable_message r.error_message
    then none
    else some st

unfoldable pub join_verdict : JoinResponse → Option Status
join_verdict r =
    if r.success then some ok else if gives_up r.error_message then some r.error_code else none

-- `kLeaderRetryAttempts`
abbrev pub leader_retry_attempts : ℕ
leader_retry_attempts = 60

module _ (O : Outside) where
  -- `ExecuteWithLeaderRetry`, with the calls of `RpcExecuteOnShard`.
  unfoldable pub execute_with_leader_retry :
      Coordinator O → ℕ → ExecuteRequest → Coordinator O × (Status × Option ExecuteResponse)
  execute_with_leader_retry c shard_id req =
      leader_retry O (λ w stub. O.execute w shard_id stub req) execute_verdict leader_retry_attempts
        c shard_id

  -- `PrepareOnShard`, from the response that the caller has set up.
  unfoldable pub prepare_on_shard :
      Coordinator O → ℕ → ℕ → ℕ → Coordinator O × (Bool × PrepareResponse)
  prepare_on_shard c shard_id txn ts =
      try_replicas O (λ w stub. O.prepare w shard_id stub txn ts) (λ r. r.vote_commit)
        (λ r. gives_up r.error_message) (attempts O c shard_id) c shard_id
        (record { vote_commit = false; error_message = [] })

  -- `CommitOnShard`
  unfoldable pub commit_on_shard : Coordinator O → ℕ → ℕ → ℕ → Coordinator O × Bool
  commit_on_shard c shard_id txn ts =
      let (next, (success, resp)) =
        try_replicas O (λ w stub. O.commit w shard_id stub txn ts) (λ r. r.success)
          (λ r. gives_up r.error_message) (attempts O c shard_id) c shard_id
          (record { success = false; error_message = [] }) in
      (next, success)

  -- `AbortOnShard`; all that is said of it is whether a call went through.
  unfoldable pub abort_on_shard : Coordinator O → ℕ → ℕ → Coordinator O × Bool
  abort_on_shard c shard_id txn =
      let (next, (success, resp)) =
        try_replicas O
          (λ w stub.
            let (w', sent) = O.abort w shard_id stub txn in (w', if sent then some true else none))
          (λ r. true) (λ r. false) (attempts O c shard_id) c shard_id true in
      (next, success)

  -- `QueryTxnStateOnShard` as `QueryShardTxnState` calls it.
  unfoldable pub query_shard_txn_state : Coordinator O → ℕ → ℕ → Coordinator O × TxnStateCode
  query_shard_txn_state c shard_id txn =
      let (next, (success, resp)) =
        try_replicas O (λ w stub. O.query w shard_id stub txn) (λ r. r.success) (λ r. false)
          (attempts O c shard_id) c shard_id (record { success = false; state = txn_unknown }) in
      (next, if success then resp.state else txn_unknown)
