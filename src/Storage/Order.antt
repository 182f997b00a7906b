-- ===== src/Storage/Order.antt =====
-- The order of encoded keys, which is RocksDB's bytewise order: the versions of one key stand newest
-- first, and what stands between two of them shares their prefix.
use trans_db.Prelude.{
  ℕ, zero, suc, ◌-◌, ◌/◌, ◌%◌, ◌^◌, ◌<◌, ◌≡◌, refl, sym, ◌∙◌, Bool, true, false, ◌&&◌, ◌||◌, [],
  ◌∷◌, ◌++◌, length, take, ltb, ◌==◌, ◌=l=◌, arith,
}
use trans_db.Bytes.{Bytes, u64_mod, append_be}
use trans_db.Bytes.RoundTrip.{length-append_be, div-lt-pow}
use trans_db.Storage.Key.{encode_key, invert_timestamp}

-- `memcmp` order: a proper prefix comes first.
infix 50 ◌<l◌
unfoldable pub ◌<l◌ : Bytes → Bytes → Bool
[] <l [] = false
[] <l (y ∷ ys) = true
(x ∷ xs) <l [] = false
(x ∷ xs) <l (y ∷ ys) = ltb x y || ((x == y) && (xs <l ys))

pub <l_irrefl : (xs : Bytes) → (xs <l xs) ≡ false
unfolding ◌<l◌
<l_irrefl [] = refl
<l_irrefl (x ∷ xs) = ground (arith, <l_irrefl xs)

pub <l_trans : (xs ys zs : Bytes) → (xs <l ys) ≡ true → (ys <l zs) ≡ true → (xs <l zs) ≡ true
unfolding ◌<l◌
<l_trans [] [] zs h k = cc
<l_trans [] (y ∷ ys) [] h k = cc
<l_trans [] (y ∷ ys) (z ∷ zs) h k = refl
<l_trans (x ∷ xs) [] zs h k = cc
<l_trans (x ∷ xs) (y ∷ ys) [] h k = cc
<l_trans (x ∷ xs) (y ∷ ys) (z ∷ zs) h k = ground (arith, <l_trans xs ys zs)

pub <l-append : (p xs ys : Bytes) → ((p ++ xs) <l (p ++ ys)) ≡ (xs <l ys)
unfolding ◌<l◌
<l-append [] xs ys = refl
<l-append (c ∷ p) xs ys = ground (arith, <l-append p xs ys)

-- What lies between two strings with a common prefix has that prefix.
pub prefix_between :
    (k p s t : Bytes) → (k <l (p ++ s)) ≡ false → (k <l (p ++ t)) ≡ true → take (length p) k ≡ p
unfolding ◌<l◌
prefix_between k [] s t h i = refl
prefix_between [] (c ∷ p) s t h i = cc
prefix_between (b ∷ k) (c ∷ p) s t h i = ground (arith, prefix_between k p s t)

<l-snoc :
    (xs ys : Bytes) (a b : ℕ)
    → length xs ≡ length ys
    → ((xs ++ a ∷ []) <l (ys ++ b ∷ [])) ≡ ((xs <l ys) || ((xs =l= ys) && ltb a b))
unfolding ◌<l◌
<l-snoc [] [] a b h = ground arith
<l-snoc [] (y ∷ ys) a b h = absurd (omega arith)
<l-snoc (x ∷ xs) [] a b h = absurd (omega arith)
<l-snoc (x ∷ xs) (y ∷ ys) a b h =
    let e : length xs ≡ length ys = omega arith in ground (arith, <l-snoc xs ys a b e)

=l=-snoc :
    (xs ys : Bytes) (a b : ℕ)
    → length xs ≡ length ys
    → ((xs ++ a ∷ []) =l= (ys ++ b ∷ [])) ≡ ((xs =l= ys) && (a == b))
=l=-snoc [] [] a b h = ground arith
=l=-snoc [] (y ∷ ys) a b h = absurd (omega arith)
=l=-snoc (x ∷ xs) [] a b h = absurd (omega arith)
=l=-snoc (x ∷ xs) (y ∷ ys) a b h =
    let e : length xs ≡ length ys = omega arith in ground (arith, =l=-snoc xs ys a b e)

append_be_sizes : (n a b : ℕ) → length (append_be n a) ≡ length (append_be n b)
append_be_sizes n a b = length-append_be n a ∙ sym (length-append_be n b)

=l=-append_be :
    (n a b : ℕ) → a < 256 ^ n → b < 256 ^ n → (append_be n a =l= append_be n b) ≡ (a == b)
unfolding append_be
=l=-append_be zero a b h k = ground arith
=l=-append_be (suc n) a b h k =
    =l=-snoc (append_be n (a / 256)) (append_be n (b / 256)) (a % 256) (b % 256)
      (append_be_sizes n (a / 256) (b / 256))
    ∙ ground (arith, =l=-append_be n (a / 256) (b / 256) (div-lt-pow n a h) (div-lt-pow n b k))

-- Big-endian numbers of one width are ordered as their bytes are.
pub <l-append_be :
    (n a b : ℕ) → a < 256 ^ n → b < 256 ^ n → (append_be n a <l append_be n b) ≡ ltb a b
unfolding append_be ◌<l◌
<l-append_be zero a b h k = ground arith
<l-append_be (suc n) a b h k =
    <l-snoc (append_be n (a / 256)) (append_be n (b / 256)) (a % 256) (b % 256)
      (append_be_sizes n (a / 256) (b / 256))
    ∙ ground (
      arith,
      <l-append_be n (a / 256) (b / 256) (div-lt-pow n a h) (div-lt-pow n b k),
      =l=-append_be n (a / 256) (b / 256) (div-lt-pow n a h) (div-lt-pow n b k),
    )

-- Of two versions of one key of a table, with timestamps of 64 bits, the one stands before the
-- other in the bytewise order exactly if it is newer.
pub newer_first :
    (tid : ℕ) (pk : Bytes) (a b : ℕ)
    → a < u64_mod
    → b < u64_mod
    → (encode_key tid pk a <l encode_key tid pk b) ≡ ltb b a
unfolding encode_key invert_timestamp
newer_first tid pk a b ha hb =
    <l-append (append_be 4 tid) (pk ++ append_be 8 (u64_mod - 1 - a))
      (pk ++ append_be 8 (u64_mod - 1 - b))
    ∙ <l-append pk (append_be 8 (u64_mod - 1 - a)) (append_be 8 (u64_mod - 1 - b))
    ∙ <l-append_be 8 (u64_mod - 1 - a) (u64_mod - 1 - b) (omega arith) (omega arith)
    ∙ ground arith
