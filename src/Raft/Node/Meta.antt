-- ===== src/Raft/Node/Meta.antt =====
-- The file of the term and the vote in src/raft/raft_node.cpp: the bytes that `PersistMeta` writes,
-- and `LoadMeta`.
use trans_db.Prelude.{
  ℕ, ◌%◌, ◌<◌, ◌≡◌, refl, Bool, true, false, not, Option, none, some, [], ◌∷◌, ◌++◌, length, ltb,
  ◌==◌, if◌then◌else◌, arith, length-append, append-nil, ◌∙◌, ap, sym, append_assoc,
}
use trans_db.Bytes.{Bytes, u32_mod, u64_mod, append_le, read_at}
use trans_db.Bytes.RoundTrip.{length-append_le, read_at-append}

-- The 13 bytes of `PersistMeta`.
unfoldable pub meta_bytes : ℕ → Option ℕ → Bytes
meta_bytes term voted_for =
    append_le 8 term ++ ((if has_vote voted_for then 1 else 0) ∷ append_le 4 (vote_or voted_for))
  where
    has_vote : Option ℕ → Bool
    has_vote none = false
    has_vote (some v) = true

    vote_or : Option ℕ → ℕ
    vote_or none = 0
    vote_or (some v) = v

-- `LoadMeta`: the term and the vote, or `none` where both stay as they are.
unfoldable pub load_meta : Bytes → Option (ℕ × Option ℕ)
load_meta bytes =
    if ltb (length bytes) 13
    then none
    else some (
      read_at 0 8 bytes,
      (if not (read_at 8 1 bytes == 0) then some (read_at 9 4 bytes) else none),
    )

-- A vote is an id of 32 bits.
unfoldable pub FitsVote : Option ℕ → Type 0
FitsVote none = Unit
FitsVote (some v) = v < u32_mod

meta_fields :
    (term flag v : ℕ)
    → term < u64_mod
    → flag < 256
    → v < u32_mod
    → let b = append_le 8 term ++ (flag ∷ append_le 4 v) in
      (length b ≡ 13) × (read_at 0 8 b ≡ term) × (read_at 8 1 b ≡ flag) × (read_at 9 4 b ≡ v)
unfolding append_le
meta_fields term flag v ht hf hv = (
  omega (
    arith,
    length-append (append_le 8 term) (flag ∷ append_le 4 v),
    length-append_le 8 term,
    length-append_le 4 v,
  ),
  read_at-append 0 8 term [] (flag ∷ append_le 4 v) refl (omega (arith, ht)),
  ap (λ x. read_at 8 1 (append_le 8 term ++ (x ∷ append_le 4 v)))
        (let q : flag ≡ flag % 256 = omega (arith, hf) in q)
      ∙ read_at-append 8 1 flag (append_le 8 term) (append_le 4 v) (length-append_le 8 term)
          (omega (arith, hf)),
  ap (read_at 9 4) layout
      ∙ read_at-append 9 4 v (append_le 8 term ++ flag ∷ []) []
          (omega (arith, length-append (append_le 8 term) (flag ∷ []), length-append_le 8 term))
          (omega (arith, hv)),
)
  where
    layout :
        append_le 8 term ++ (flag ∷ append_le 4 v)
        ≡ (append_le 8 term ++ flag ∷ []) ++ (append_le 4 v ++ [])
    layout =
        sym (append_assoc (append_le 8 term) (flag ∷ []) (append_le 4 v))
        ∙ ap (λ l. (append_le 8 term ++ flag ∷ []) ++ l) (sym (append-nil (append_le 4 v)))

-- `LoadMeta` of the bytes that `PersistMeta` writes gives back the term and the vote, if they fit
-- their 64 and 32 bits.
pub load_meta-meta_bytes :
    (term : ℕ) (voted_for : Option ℕ)
    → term < u64_mod
    → FitsVote voted_for
    → load_meta (meta_bytes term voted_for) ≡ some (term, voted_for)
unfolding load_meta meta_bytes FitsVote
load_meta-meta_bytes term none h f =
    let q = meta_fields term 0 0 h (omega arith) (omega arith) in ground (arith, q.0, q.1, q.2, q.3)
load_meta-meta_bytes term (some v) h f =
    let q = meta_fields term 1 v h (omega arith) f in ground (arith, q.0, q.1, q.2, q.3)
