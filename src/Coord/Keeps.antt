-- ===== src/Coord/Keeps.antt =====
-- The loops over the replicas of a shard: what holds of the coordinator through every call and every
-- rotation holds after the loop, and what an accepted answer promises holds when the loop says so.
use trans_db.Prelude.{
  ℕ, zero, suc, ◌≡◌, Bool, true, false, Option, some, Status, arith, inl, inr, Option-cases, sym,
  subst,
}
use trans_db.Coord.Outside.{Outside, Stub}
use trans_db.Coord.Shards.{Coordinator, get_stub, rotate_stub, try_replicas, leader_retry}

module _ (O : Outside) where
  -- `P` stays true when the shard's connection is rotated.
  abbrev pub KeptByRotation : (Coordinator O → Type 0) → Type 0
  KeptByRotation P = (c : Coordinator O) (shard_id : ℕ) → P c → P (rotate_stub O c shard_id)

  pub world-rotate_stub :
      (c : Coordinator O) (shard_id : ℕ) → (rotate_stub O c shard_id).world ≡ c.world
  unfolding rotate_stub
  world-rotate_stub c shard_id = ground arith

  -- A predicate of the world.
  pub OfWorld-KeptByRotation : (Q : O.World → Type 0) → KeptByRotation (λ c. Q c.world)
  OfWorld-KeptByRotation Q c shard_id h = subst Q (sym (world-rotate_stub c shard_id)) h

  module _ {Response : Type 0} (call : O.World → Stub → O.World × Option Response)
      (P : Coordinator O → Type 0) (turn : KeptByRotation P)
      (step : (c : Coordinator O) (stub : Stub)
        → P c
        → P (record c { world = (call c.world stub).0 })) where
    pub try_replicas-Keeps :
        (accepted refused : Response → Bool) (n : ℕ) (c : Coordinator O) (shard_id : ℕ)
        (resp : Response)
        → P c
        → P (try_replicas O call accepted refused n c shard_id resp).0
    unfolding try_replicas
    try_replicas-Keeps accepted refused zero c shard_id resp h = h
    try_replicas-Keeps accepted refused (suc n) c shard_id resp h =
        elim (Option-cases (get_stub O c shard_id)) [
          | inl e ↦ ground (arith, e, h)
          | inr (stub, e) ↦
              let next : Coordinator O = record c { world = (call c.world stub).0 } in
              let kept = step c stub h in
              let again = λ (resp' : Response).
                try_replicas-Keeps accepted refused n (rotate_stub O next shard_id) shard_id resp'
                  (turn next shard_id kept) in
              elim (Option-cases (call c.world stub).1) [
                | inl e' ↦ ground (arith, e, e', kept, again resp)
                | inr (r, e') ↦ ground (arith, e, e', kept, again r)
              ]
        ]

    pub leader_retry-Keeps :
        (verdict : Response → Option Status) (n : ℕ) (c : Coordinator O) (shard_id : ℕ)
        → P c
        → P (leader_retry O call verdict n c shard_id).0
    unfolding leader_retry
    leader_retry-Keeps verdict zero c shard_id h = h
    leader_retry-Keeps verdict (suc n) c shard_id h = elim (Option-cases (get_stub O c shard_id)) [
      | inl e ↦ ground (
        arith,
        e,
        leader_retry-Keeps verdict n (rotate_stub O c shard_id) shard_id (turn c shard_id h),
      )
      | inr (stub, e) ↦
          let next : Coordinator O = record c { world = (call c.world stub).0 } in
          let kept = step c stub h in
          let again =
            leader_retry-Keeps verdict n (rotate_stub O next shard_id) shard_id
              (turn next shard_id kept) in
          elim (Option-cases (call c.world stub).1) [
            | inl e' ↦ ground (arith, e, e', kept, again)
            | inr (r, e') ↦ ground (arith, e, e', kept, again)
          ]
    ]

  module _ {Response : Type 0} (call : O.World → Stub → O.World × Option Response)
      (accepted : Response → Bool) (Q : O.World → Response → Type 0)
      (promise : (w : O.World) (stub : Stub) (r : Response)
        → (call w stub).1 ≡ some r
        → accepted r ≡ true
        → Q (call w stub).0 r) where
    -- The loop says `true` only where its last call was accepted.
    pub try_replicas_accepted :
        (refused : Response → Bool) (n : ℕ) (c : Coordinator O) (shard_id : ℕ) (resp : Response)
        → (try_replicas O call accepted refused n c shard_id resp).1.0 ≡ true
        → Q
            (try_replicas O call accepted refused n c shard_id resp).0.world
            (try_replicas O call accepted refused n c shard_id resp).1.1
    unfolding try_replicas
    try_replicas_accepted refused zero c shard_id resp h = absurd (ground arith)
    try_replicas_accepted refused (suc n) c shard_id resp h =
        elim (Option-cases (get_stub O c shard_id)) [
          | inl e ↦ absurd (ground (arith, e, h))
          | inr (stub, e) ↦
              let next : Coordinator O = record c { world = (call c.world stub).0 } in
              let again = λ (resp' : Response).
                try_replicas_accepted refused n (rotate_stub O next shard_id) shard_id resp' in
              elim (Option-cases (call c.world stub).1) [
                | inl e' ↦ ground (arith, e, e', again resp)
                | inr (r, e') ↦ ground (arith, e, e', promise c.world stub r e', again r)
              ]
        ]

    -- The response that it leaves is accepted just when it says so.
    pub accepted-try_replicas :
        (refused : Response → Bool) (n : ℕ) (c : Coordinator O) (shard_id : ℕ) (resp : Response)
        → accepted resp ≡ false
        → accepted (try_replicas O call accepted refused n c shard_id resp).1.1
          ≡ (try_replicas O call accepted refused n c shard_id resp).1.0
    unfolding try_replicas
    accepted-try_replicas refused zero c shard_id resp h = h
    accepted-try_replicas refused (suc n) c shard_id resp h =
        elim (Option-cases (get_stub O c shard_id)) [
          | inl e ↦ ground (arith, e, h)
          | inr (stub, e) ↦
              let next : Coordinator O = record c { world = (call c.world stub).0 } in
              let again = λ (resp' : Response).
                accepted-try_replicas refused n (rotate_stub O next shard_id) shard_id resp' in
              elim (Option-cases (call c.world stub).1) [
                | inl e' ↦ ground (arith, e, e', h, again resp)
                | inr (r, e') ↦ ground (arith, e, e', again r)
              ]
        ]
