-- ===== src/Bytes/Crc.antt =====
-- `MakeCrc32Table` and `Crc32Ieee`, which src/txn/wal.cpp and src/coordinator/coordinator_log.cpp
-- both define. The table is a function of its index.
use Prim.Native.Nat.{bit_xor}
use trans_db.Prelude.{
  ℕ, zero, suc, ◌-◌, ◌/◌, ◌%◌, ◌<◌, ◌≡◌, refl, [], ◌∷◌, arith, ◌==◌, if◌then◌else◌,
}
use trans_db.Bytes.{Bytes, u32_mod}

abbrev crc32_poly : ℕ
crc32_poly = 0xEDB88320

-- One of the eight rounds: `c = (c & 1U) ? (kCrc32Poly ^ (c >> 1)) : (c >> 1)`.
crc_round : ℕ → ℕ
crc_round c = if c % 2 == 1 then bit_xor crc32_poly (c / 2) else c / 2

crc_rounds : ℕ → ℕ → ℕ
crc_rounds zero c = c
crc_rounds (suc k) c = crc_rounds k (crc_round c)

-- `kCrcTbl[i]`
crc_entry : ℕ → ℕ
crc_entry i = crc_rounds 8 i

crc_loop : ℕ → Bytes → ℕ
crc_loop c [] = c
crc_loop c (b ∷ bs) = crc_loop (bit_xor (crc_entry (bit_xor c b % 256)) (c / 256)) bs

unfoldable pub crc32_ieee : Bytes → ℕ
unfolding crc_round crc_rounds crc_entry crc_loop
crc32_ieee bytes = bit_xor (u32_mod - 1) (crc_loop (u32_mod - 1) bytes) % u32_mod

pub crc32_ieee-lt : (bytes : Bytes) → crc32_ieee bytes < u32_mod
unfolding crc32_ieee
crc32_ieee-lt bytes = omega arith

-- The check value of CRC-32/IEEE: that of "123456789".
crc_check : crc32_ieee (49 ∷ 50 ∷ 51 ∷ 52 ∷ 53 ∷ 54 ∷ 55 ∷ 56 ∷ 57 ∷ []) ≡ 0xCBF43926
unfolding crc32_ieee
crc_check = refl
