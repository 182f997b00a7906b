-- ===== src/Coord/Answers.antt =====
-- What `Recover` learns from the shards: the loop that asks them, in src/coordinator/coordinator.cpp.
use trans_db.Prelude.{
  ℕ, ◌≡◌, ◌≢◌, refl, sym, subst, ◌∙◌, Bool, true, false, List, [], ◌∷◌, inl, inr, if◌then◌else◌,
}
use trans_db.Coord.Outside.{
  Outside, TxnStateCode, TxnStateResponse, txn_unknown, txn_in_flight, txn_prepared, txn_committed,
  txn_aborted,
}
use trans_db.Coord.Shards.{Coordinator, attempts, query_shard_txn_state}
use trans_db.Coord.Recover.{Answers, tally, ask_shards}
use trans_db.Coord.Keeps.{OfWorld-KeptByRotation, try_replicas-Keeps, try_replicas_accepted}
use trans_db.Coord.Participants.{
  ShardTxn, committed, Participants, IsAnswer, Truthful, IsHeld, aborted,
}
use trans_db.Coord.Steps.{NothingCommitted, AllHeld}

tally_prepared :
    (code : TxnStateCode) (a : Answers) → (tally code a).all_prepared ≡ true → a.all_prepared ≡ true
unfolding tally
tally_prepared txn_unknown a h = absurd cc
tally_prepared txn_in_flight a h = absurd cc
tally_prepared txn_prepared a h = h
tally_prepared txn_committed a h = h
tally_prepared txn_aborted a h = absurd cc

tally_known :
    (code : TxnStateCode) (a : Answers) → (tally code a).all_prepared ≡ true → code ≢ txn_unknown
unfolding tally
tally_known txn_unknown a h e = cc
tally_known txn_in_flight a h e = cc
tally_known txn_prepared a h e = cc
tally_known txn_committed a h e = cc
tally_known txn_aborted a h e = cc

tally_committed :
    (code : TxnStateCode) (a : Answers)
    → code ≢ txn_committed
    → (tally code a).any_committed ≡ a.any_committed
unfolding tally
tally_committed txn_unknown a h = refl
tally_committed txn_in_flight a h = refl
tally_committed txn_prepared a h = refl
tally_committed txn_committed a h = absurd (h refl)
tally_committed txn_aborted a h = refl

committed_known : (code : TxnStateCode) → code ≡ txn_committed → code ≢ txn_unknown
committed_known code e k = cc

answered :
    (v : ShardTxn) (success : Bool) (state : TxnStateCode)
    → ((success ≡ true) → IsAnswer v state)
    → (if success then state else txn_unknown) ≢ txn_unknown
    → IsAnswer v (if success then state else txn_unknown)
answered v true state h known = h refl
answered v false state h known = absurd (known refl)

-- What an answer says of a transaction, where it counts as prepared.
answer-IsHeld :
    (v : ShardTxn) (code : TxnStateCode) (a : Answers)
    → v ≢ aborted
    → IsAnswer v code
    → (tally code a).all_prepared ≡ true
    → IsHeld v
unfolding tally IsAnswer
answer-IsHeld v txn_unknown a n e h = absurd cc
answer-IsHeld v txn_in_flight a n e h = absurd cc
answer-IsHeld v txn_prepared a n (inl e) h = e
answer-IsHeld v txn_prepared a n (inr e) h = absurd (n e)
answer-IsHeld v txn_committed a n e h = inr e
answer-IsHeld v txn_aborted a n e h = absurd cc

answer_committed :
    (v : ShardTxn) (code : TxnStateCode) → IsAnswer v code → code ≡ txn_committed → v ≡ committed
answer_committed v code h e = unfold IsAnswer in subst (IsAnswer v) e h

module _ (O : Outside) (S : Participants O) (T : Truthful O S) (t : ℕ) where
  pub query-Keeps :
      (P : (ℕ → ℕ → ShardTxn) → Type 0) (c : Coordinator O) (sid : ℕ)
      → P (S.view c.world)
      → P (S.view (query_shard_txn_state O c sid t).0.world)
  unfolding query_shard_txn_state
  query-Keeps P c sid h =
      try_replicas-Keeps O (λ w stub. O.query w sid stub t) (λ c'. P (S.view c'.world))
        (OfWorld-KeptByRotation O (λ w. P (S.view w)))
        (λ c' stub k. subst P (λ i s' t'. sym (T.query_quiet c'.world sid stub t s' t') i) k)
        (λ r. r.success) (λ r. false) (attempts O c sid) c sid
        (record { success = false; state = txn_unknown }) h

  -- An answer other than `TXN_UNKNOWN` is what the shard says.
  query_true :
      (c : Coordinator O) (sid : ℕ)
      → ((query_shard_txn_state O c sid t).1 ≢ txn_unknown)
      → IsAnswer
          (S.view (query_shard_txn_state O c sid t).0.world sid t)
          (query_shard_txn_state O c sid t).1
  unfolding query_shard_txn_state
  query_true c sid known =
      let none_yet : TxnStateResponse = record { success = false; state = txn_unknown } in
      answered _ _ _
        (try_replicas_accepted O (λ w stub. O.query w sid stub t) (λ r. r.success)
          (λ w r. IsAnswer (S.view w sid t) r.state)
          (λ w stub r e k.
            subst (λ v. IsAnswer v r.state) (sym (T.query_quiet w sid stub t sid t))
              (T.query_answer w sid stub t r e k))
          (λ r. false) (attempts O c sid) c sid none_yet)
        known

  pub ask_shards-Keeps :
      (P : (ℕ → ℕ → ShardTxn) → Type 0) (c : Coordinator O) (sids : List ℕ) (a : Answers)
      → P (S.view c.world)
      → P (S.view (ask_shards O c t sids a).0.world)
  unfolding ask_shards
  ask_shards-Keeps P c [] a h = h
  ask_shards-Keeps P c (sid ∷ sids) a h =
      let (c₁, ss) = query_shard_txn_state O c sid t in
      ask_shards-Keeps P c₁ sids (tally ss a) (query-Keeps P c sid h)

  ask_shards_prepared :
      (c : Coordinator O) (sids : List ℕ) (a : Answers)
      → (ask_shards O c t sids a).1.all_prepared ≡ true
      → a.all_prepared ≡ true
  unfolding ask_shards
  ask_shards_prepared c [] a h = h
  ask_shards_prepared c (sid ∷ sids) a h =
      let (c₁, ss) = query_shard_txn_state O c sid t in
      tally_prepared ss a (ask_shards_prepared c₁ sids (tally ss a) h)

  -- No shard has aborted the transaction.
  abbrev pub NothingAborted : O.World → Type 0
  NothingAborted w = (s : ℕ) → S.view w s t ≢ aborted

  -- When the answers come to `all_prepared`, and none has aborted, all the shards hold the transaction.
  pub ask_shards-AllHeld :
      (c : Coordinator O) (sids : List ℕ) (a : Answers)
      → NothingAborted c.world
      → (ask_shards O c t sids a).1.all_prepared ≡ true
      → AllHeld O S t sids (ask_shards O c t sids a).0.world
  unfolding ask_shards
  ask_shards-AllHeld c [] a n h = tt
  ask_shards-AllHeld c (sid ∷ sids) a n h =
      let c₁ : Coordinator O = (query_shard_txn_state O c sid t).0 in
      let ss : TxnStateCode = (query_shard_txn_state O c sid t).1 in
      let n₁ : NothingAborted c₁.world = query-Keeps (λ v. (s : ℕ) → v s t ≢ aborted) c sid n in
      let now_prepared : (tally ss a).all_prepared ≡ true =
        ask_shards_prepared c₁ sids (tally ss a) h in
      (
        ask_shards-Keeps (λ v. IsHeld (v sid t)) c₁ sids (tally ss a)
            (answer-IsHeld (S.view c₁.world sid t) ss a (n₁ sid)
              (query_true c sid (tally_known ss a now_prepared)) now_prepared),
        ask_shards-AllHeld c₁ sids (tally ss a) n₁ h,
      )

  -- Where nothing is committed no shard says that it is.
  pub ask_shards_committed :
      (c : Coordinator O) (sids : List ℕ) (a : Answers)
      → NothingCommitted O S t c.world
      → (ask_shards O c t sids a).1.any_committed ≡ a.any_committed
  unfolding ask_shards
  ask_shards_committed c [] a h = refl
  ask_shards_committed c (sid ∷ sids) a h =
      let c₁ : Coordinator O = (query_shard_txn_state O c sid t).0 in
      let ss : TxnStateCode = (query_shard_txn_state O c sid t).1 in
      let h₁ : NothingCommitted O S t c₁.world =
        query-Keeps (λ v. (s : ℕ) → v s t ≢ committed) c sid h in
      ask_shards_committed c₁ sids (tally ss a) h₁
      ∙ tally_committed ss a (λ e. h₁ sid (
          answer_committed (S.view c₁.world sid t) ss
            (query_true c sid (λ k. committed_known ss e k)) e))
