-- ===== src/Bytes/RoundTrip.antt =====
-- What is written is read back, at every width, and the sizes of what is written.
use native.Mathlib.Nat.{pow-suc}
use trans_db.Prelude.{
  ℕ, zero, suc, ◌+◌, ◌*◌, ◌/◌, ◌%◌, ◌^◌, ◌<◌, ◌≡◌, refl, ap, ◌∙◌, [], ◌∷◌, ◌++◌, none, some, length,
  arith, le→ltb, lt→ltb, length-append, take-append_exact, drop-append_exact, All-append,
}
use trans_db.Bytes.{
  Bytes, IsBytes, append_le, read_le, consume_le, append_be, read_be, read_at, consume_bytes,
}

pub length-append_le : (n v : ℕ) → length (append_le n v) ≡ n
unfolding append_le
length-append_le zero v = refl
length-append_le (suc n) v = ap suc (length-append_le n (v / 256))

pub append_le-IsBytes : (n v : ℕ) → IsBytes (append_le n v)
unfolding append_le
append_le-IsBytes zero v = tt
append_le-IsBytes (suc n) v = (omega arith, append_le-IsBytes n (v / 256))

pub div-lt-pow : (n v : ℕ) → v < 256 ^ suc n → v / 256 < 256 ^ n
div-lt-pow n v h = omega (arith, pow-suc 256 n)

pub read_le-append_le : (n v : ℕ) → v < 256 ^ n → read_le (append_le n v) ≡ v
unfolding append_le read_le
read_le-append_le zero v h = omega arith
read_le-append_le (suc n) v h = omega (arith, read_le-append_le n (v / 256) (div-lt-pow n v h))

-- Reading an integer that was written gives it back, with what follows it.
pub consume_le-append_le :
    (n v : ℕ) (rest : Bytes) → v < 256 ^ n → consume_le n (append_le n v ++ rest) ≡ some (v, rest)
unfolding consume_le
consume_le-append_le n v rest h = rw (
  le→ltb (length (append_le n v ++ rest)) n
      (omega (arith, length-append (append_le n v) rest, length-append_le n v)),
  take-append_exact n (append_le n v) rest (length-append_le n v),
  drop-append_exact n (append_le n v) rest (length-append_le n v),
  read_le-append_le n v h,
)

pub length-append_be : (n v : ℕ) → length (append_be n v) ≡ n
unfolding append_be
length-append_be zero v = refl
length-append_be (suc n) v =
    omega
      (arith, length-append (append_be n (v / 256)) (v % 256 ∷ []), length-append_be n (v / 256))

pub append_be-IsBytes : (n v : ℕ) → IsBytes (append_be n v)
unfolding append_be
append_be-IsBytes zero v = tt
append_be-IsBytes (suc n) v =
    All-append (λ b. b < 256) (append_be n (v / 256)) (v % 256 ∷ []) (append_be-IsBytes n (v / 256))
      (omega arith)

read_be-append : (v : ℕ) (xs ys : Bytes) → read_be v (xs ++ ys) ≡ read_be (read_be v xs) ys
unfolding read_be
read_be-append v [] ys = refl
read_be-append v (x ∷ xs) ys = read_be-append (v * 256 + x) xs ys

pub read_be-append_be : (n v : ℕ) → v < 256 ^ n → read_be 0 (append_be n v) ≡ v
unfolding append_be read_be
read_be-append_be zero v h = omega arith
read_be-append_be (suc n) v h =
    read_be-append 0 (append_be n (v / 256)) (v % 256 ∷ [])
    ∙ omega (arith, read_be-append_be n (v / 256) (div-lt-pow n v h))

-- An integer behind `k` bytes.
pub read_at-append :
    (k n v : ℕ) (pre rest : Bytes)
    → length pre ≡ k
    → v < 256 ^ n
    → read_at k n (pre ++ (append_le n v ++ rest)) ≡ v
unfolding read_at
read_at-append k n v pre rest hk h = rw (
  drop-append_exact k pre (append_le n v ++ rest) hk,
  take-append_exact n (append_le n v) rest (length-append_le n v),
  read_le-append_le n v h,
)

pub consume_bytes-append :
    (n : ℕ) (bytes rest : Bytes)
    → length bytes ≡ n
    → consume_bytes n (bytes ++ rest) ≡ some (bytes, rest)
unfolding consume_bytes
consume_bytes-append n bytes rest h = rw (
  le→ltb (length (bytes ++ rest)) n (omega (arith, length-append bytes rest)),
  take-append_exact n bytes rest h,
  drop-append_exact n bytes rest h,
)

pub consume_bytes_short : (n : ℕ) (bytes : Bytes) → length bytes < n → consume_bytes n bytes ≡ none
unfolding consume_bytes
consume_bytes_short n bytes h = rw (lt→ltb (length bytes) n h)
