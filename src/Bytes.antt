-- ===== src/Bytes.antt =====
-- Fixed-width integers in byte strings, little endian and big endian: the helpers that
-- src/txn/wal.cpp, src/coordinator/coordinator_log.cpp, src/raft/raft_log.cpp,
-- src/raft/raft_state_machine.cpp and src/storage/key_encoding.cpp each define for themselves.
-- A byte string is a list of numbers below 256. The code also reads integers by `memcpy`, which is
-- little endian on the machines that the program is built for.
pub mod RoundTrip
pub mod Framed
pub mod Crc
use trans_db.Prelude.{
  ℕ, zero, suc, ◌+◌, ◌*◌, ◌/◌, ◌%◌, ◌^◌, ◌<◌, List, [], ◌∷◌, ◌++◌, Option, none, some, Bool, true,
  false, length, take, drop, ltb, if◌then◌else◌, All,
}

abbrev pub Bytes : Type 0
Bytes = List ℕ

abbrev pub IsBytes : Bytes → Type 0
IsBytes = All (λ b. b < 256)

abbrev pub u32_mod : ℕ
u32_mod = 2 ^ 32

abbrev pub u64_mod : ℕ
u64_mod = 2 ^ 64

-- `for (i = 0; i < n; ++i) { push_back(v & 0xff); v >>= 8; }`
unfoldable pub append_le : ℕ → ℕ → Bytes
append_le zero v = []
append_le (suc n) v = v % 256 ∷ append_le n (v / 256)

-- `v |= byte[i] << (8 * i)` for each byte: the bits are disjoint, so the `|` is a sum.
unfoldable pub read_le : Bytes → ℕ
read_le [] = 0
read_le (b ∷ bs) = b + 256 * read_le bs

-- `ConsumeLe32`, `ConsumeLe64`: the size check, the value, and what follows it.
unfoldable pub consume_le : ℕ → Bytes → Option (ℕ × Bytes)
consume_le n bytes =
    if ltb (length bytes) n then none else some (read_le (take n bytes), drop n bytes)

-- `for (i = n - 1; i >= 0; --i) { buf[i] = v & 0xff; v >>= 8; }`
unfoldable pub append_be : ℕ → ℕ → Bytes
append_be zero v = []
append_be (suc n) v = append_be n (v / 256) ++ (v % 256 ∷ [])

-- `v = (v << 8) | byte` for each byte, from the value `v`.
unfoldable pub read_be : ℕ → Bytes → ℕ
read_be v [] = v
read_be v (b ∷ bs) = read_be (v * 256 + b) bs

-- An integer of `n` bytes at the offset `k`, by `memcpy`.
unfoldable pub read_at : ℕ → ℕ → Bytes → ℕ
read_at k n bytes = read_le (take n (drop k bytes))

-- `if (size < n) return false;`, then `n` bytes by `assign` or `substr`, and `remove_prefix(n)`.
unfoldable pub consume_bytes : ℕ → Bytes → Option (Bytes × Bytes)
consume_bytes n bytes = if ltb (length bytes) n then none else some (take n bytes, drop n bytes)

-- `empty()`
abbrev pub is_empty : Bytes → Bool
is_empty [] = true
is_empty (b ∷ bs) = false
