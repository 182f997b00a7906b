-- ===== src/Tests/Stores.antt =====
-- Runs of the theorems on the store, src/storage.
use trans_db.Prelude.{
  ℕ, ◌^◌, sym, ap, if◌then◌else◌, ◌≡◌, ◌≢◌, ◌<◌, refl, inl, inr, true, none, some, [], ◌∷◌, arith,
  =l=_iff, =l=_refl, ◌=l=◌, Bool-cases,
}
use trans_db.Bytes.{Bytes, append_be}
use trans_db.Storage.Key.{encode_key, invert_timestamp}
use trans_db.Storage.Order.{◌<l◌}
use trans_db.Storage.Rocks.{lookup, sorted_list, empty_list}
use trans_db.Storage.Mvcc.{put, get, is_tombstone}
use trans_db.Storage.Updates.{get-put}
use trans_db.Storage.Hidden.{Written, get_hidden}

fresh : sorted_list.Db
unfolding sorted_list
fresh = empty_list

get-put_example :
    get sorted_list (put sorted_list fresh 3 (49 ∷ []) 10 (8 ∷ []) true).0 3 (49 ∷ []) 12
    ≡ some (8 ∷ [], 10)
unfolding sorted_list lookup is_tombstone fresh
get-put_example =
    get-put sorted_list fresh 3 (49 ∷ []) 10 12 (8 ∷ []) (omega arith) (omega arith) (omega arith)
      (λ k h. absurd (h refl)) (λ u a b. refl)

-- Row 10 and row 1: the first stands before the second.
abbrev ten : Bytes
ten = encode_key 3 (49 ∷ 48 ∷ []) 5

abbrev one : Bytes
one = encode_key 3 (49 ∷ []) 10

two_rows : sorted_list.Db
unfolding sorted_list ◌<l◌ encode_key append_be invert_timestamp
two_rows = record { items = (ten, 8 ∷ []) ∷ (one, 9 ∷ []) ∷ []; is_sorted = ((refl, tt), (tt, tt)) }

two_rows-Written : (k : Bytes) → lookup k (sorted_list.entries two_rows) ≢ none → Written k
unfolding lookup sorted_list two_rows
two_rows-Written k h = elim (Bool-cases (encode_key 3 (49 ∷ 48 ∷ []) 5 =l= k)) [
  | inl same ↦ written (49 ∷ 48 ∷ []) 5 (omega arith) same
  | inr other ↦ elim (Bool-cases (encode_key 3 (49 ∷ []) 10 =l= k)) [
    | inl same ↦ written (49 ∷ []) 10 (omega arith) same
    | inr neither ↦ absurd (h (rw (other, neither) refl))
  ]
]
  where
    written : (pk : Bytes) (ts : ℕ) → ts < 2 ^ 56 → (encode_key 3 pk ts =l= k) ≡ true → Written k
    written pk ts fits same = record {
      table = 3;
      pk = pk;
      ts = ts;
      key_eq = sym ((=l=_iff (encode_key 3 pk ts) k).0 same);
      table_fits = omega arith;
      ts_fits = fits;
    }

get_hidden_example : get sorted_list two_rows 3 (49 ∷ []) 12 ≡ none
unfolding sorted_list two_rows lookup
get_hidden_example =
    get_hidden sorted_list two_rows 3 (49 ∷ []) 48 [] 5 12 (8 ∷ []) (omega arith) (omega arith)
      two_rows-Written
      (ap (λ b. if b then some (8 ∷ []) else lookup ten ((one, 9 ∷ []) ∷ [])) (=l=_refl ten))
