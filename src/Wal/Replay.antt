-- ===== src/Wal/Replay.antt =====
-- A log that was written is replayed: the records, in order, and the largest sequence number.
use trans_db.Prelude.{
  ℕ, zero, suc, ◌<◌, max, ◌≡◌, refl, some, List, [], ◌∷◌, ◌++◌, length, drop, arith, append_assoc,
  length-append, length-drop, Option-cases, inl, inr, All,
}
use trans_db.Bytes.{Bytes, read_at}
use trans_db.Wal.Record.{WalRecord, write_record, parse_record, parse_loop, FitsRecord}
use trans_db.Wal.ReadBack.{length-write_record, parse_record-write_record}

-- A round leaves fewer bytes.
pub parse_record-shorter :
    (bytes : Bytes) (r : WalRecord) (rest : Bytes)
    → parse_record bytes ≡ some (r, rest)
    → length rest < length bytes
unfolding parse_record
parse_record-shorter bytes r rest h =
    ground (arith, length-drop (read_at 0 4 bytes) (drop 4 bytes), length-drop 4 bytes)

-- More fuel than bytes changes nothing: the loop ends by a test of its own.
pub parse_loop_fuel :
    (f g : ℕ) (bytes : Bytes) (m : ℕ)
    → length bytes < f
    → length bytes < g
    → parse_loop f bytes m ≡ parse_loop g bytes m
unfolding parse_loop
parse_loop_fuel zero g bytes m hf hg = elim hf [ ]
parse_loop_fuel (suc f) zero bytes m hf hg = elim hg [ ]
parse_loop_fuel (suc f) (suc g) bytes m hf hg = elim (Option-cases (parse_record bytes)) [
  | inl e ↦ rw (e, parse_loop)
  | inr ((r, rest), e) ↦
      let shorter : length rest < length bytes = parse_record-shorter bytes r rest e in
      rw (e, parse_loop) (rw (parse_loop_fuel f g rest (max m r.lsn) (omega arith) (omega arith)))
]

-- The file that a list of records makes.
unfoldable pub write_all : List WalRecord → Bytes
write_all [] = []
write_all (r ∷ rs) = write_record r ++ write_all rs

unfoldable pub max_lsn_of : ℕ → List WalRecord → ℕ
max_lsn_of m [] = m
max_lsn_of m (r ∷ rs) = max_lsn_of (max m r.lsn) rs

pub max_lsn_of-append :
    (m : ℕ) (rs ts : List WalRecord) → max_lsn_of m (rs ++ ts) ≡ max_lsn_of (max_lsn_of m rs) ts
unfolding max_lsn_of
max_lsn_of-append m [] ts = refl
max_lsn_of-append m (r ∷ rs) ts = max_lsn_of-append (max m r.lsn) rs ts

pub write_all-append :
    (rs ts : List WalRecord) → write_all (rs ++ ts) ≡ write_all rs ++ write_all ts
unfolding write_all
write_all-append [] ts = refl
write_all-append (r ∷ rs) ts =
    rw (write_all-append rs ts, append_assoc (write_record r) (write_all rs) (write_all ts))

-- The parser reads every record that was written, whatever follows them, and then goes on with that.
pub parse_loop-write_all :
    (rs : List WalRecord) (tail : Bytes) (m f : ℕ)
    → All FitsRecord rs
    → length (write_all rs ++ tail) < f
    → parse_loop f (write_all rs ++ tail) m
      ≡ (let (ts, n) = parse_loop (suc (length tail)) tail (max_lsn_of m rs) in (rs ++ ts, n))
unfolding write_all max_lsn_of parse_loop
parse_loop-write_all [] tail m f fits h =
    parse_loop_fuel f (suc (length tail)) tail m h (omega arith)
parse_loop-write_all (r ∷ rs) tail m zero fits h = elim h [ ]
parse_loop-write_all (r ∷ rs) tail m (suc f) fits h =
    let rest : Bytes = write_all rs ++ tail in
    rw (append_assoc (write_record r) (write_all rs) tail) (
      rw (parse_record-write_record r fits.0 rest, parse_loop)
        (rw (
          parse_loop-write_all rs tail (max m r.lsn) f fits.1 (
            omega (
              arith,
              length-append (write_record r) (write_all rs),
              length-append (write_all rs) tail,
              length-append (write_record r ++ write_all rs) tail,
              length-write_record r,
            )))))
