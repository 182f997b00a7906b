-- ===== src/Wal/Torn.antt =====
-- A file that was cut at any byte: the records that are complete are replayed, and the torn one is not.
use trans_db.Prelude.{
  ℕ, zero, suc, ◌+◌, ◌-◌, ◌<◌, ◌≤◌, ◌^◌, max, ◌≡◌, refl, ap, ◌∙◌, none, List, [], ◌∷◌, ◌++◌, length,
  take, ltb, leb, if◌then◌else◌, arith, lt→ltb, length-append, length-take, take-nil,
  drop-append_exact, take-append_le, take-append_ge, Bool-cases, inl, inr, All,
}
use trans_db.Bytes.{Bytes, append_le}
use trans_db.Bytes.RoundTrip.{length-append_le, read_at-append}
use trans_db.Wal.Record.{
  WalRecord, record_body, write_record, min_body, record_chunk, parse_record, parse_loop,
  FitsRecord,
}
use trans_db.Wal.ReadBack.{length-record_body, length-write_record, parse_record-write_record}
use trans_db.Wal.Replay.{write_all}

-- The records whose last byte is among the first `n` bytes of the file.
unfoldable pub complete : ℕ → List WalRecord → List WalRecord
complete n [] = []
complete n (r ∷ rs) =
    let size = length (write_record r) in if leb size n then r ∷ complete (n - size) rs else []

parse_record_short : (bytes : Bytes) → length bytes < 4 → parse_record bytes ≡ none
unfolding parse_record record_chunk
parse_record_short bytes h = rw (lt→ltb (length bytes) 4 h)

parse_record_cut :
    (size : ℕ) (body : Bytes)
    → size < 2 ^ 32
    → length body < size
    → parse_record (append_le 4 size ++ body) ≡ none
unfolding parse_record record_chunk
parse_record_cut size body small h = ground (
  arith,
  read_at-append 0 4 size [] body refl small,
  drop-append_exact 4 (append_le 4 size) body (length-append_le 4 size),
)

-- A record of which some bytes are missing at the end ends the replay.
pub parse_record_torn :
    (n : ℕ) (r : WalRecord)
    → FitsRecord r
    → n < length (write_record r)
    → parse_record (take n (write_record r)) ≡ none
parse_record_torn n r fits h = elim (Bool-cases (ltb n 4)) [
  | inl short ↦ parse_record_short (take n (write_record r)) (
      let e : length (take n (write_record r)) ≡ n = length-take n (write_record r) (omega arith) in
      ground arith)
  | inr long ↦
      ap parse_record (cut (ground arith))
      ∙ parse_record_cut size (take (n - 4) (record_body r))
          (let f : length r.payload + min_body < 2 ^ 32 = fits.4 in
            omega (arith, length-record_body r))
          (let e : length (take (n - 4) (record_body r)) ≡ n - 4 =
              length-take (n - 4) (record_body r) (omega (arith, size_of)) in
            ground (arith, size_of))
]
  where
    size : ℕ
    size = length (record_body r)

    size_of : length (write_record r) ≡ size + 4
    size_of = omega (arith, length-write_record r, length-record_body r)

    cut : 4 ≤ n → take n (write_record r) ≡ append_le 4 size ++ take (n - 4) (record_body r)
    cut k =
        unfold write_record in
        take-append_ge n (append_le 4 size) (record_body r) (omega (arith, length-append_le 4 size))
        ∙ ap (λ j. append_le 4 size ++ take (n - j) (record_body r)) (length-append_le 4 size)

-- With more fuel than bytes, the replay of the first `n` bytes of a file of records that fit the
-- format gives exactly the records that lie wholly in them.
pub parse_loop-take :
    (n : ℕ) (rs : List WalRecord) (m f : ℕ)
    → All FitsRecord rs
    → length (take n (write_all rs)) < f
    → (parse_loop f (take n (write_all rs)) m).0 ≡ complete n rs
unfolding write_all complete parse_loop
parse_loop-take n rs m zero fits h = elim h [ ]
parse_loop-take n [] m (suc f) fits h =
    ap (λ b. (parse_loop (suc f) b m).0) (take-nil n)
    ∙ rw (parse_record_short [] (omega arith), parse_loop)
parse_loop-take n (r ∷ rs) m (suc f) fits h = elim (Bool-cases (leb (length (write_record r)) n)) [
  | inl all ↦
      rw (all, take-append_ge n (write_record r) (write_all rs) (ground arith), complete)
        (rw
          (
            parse_record-write_record r fits.0 (take (n - length (write_record r)) (write_all rs)),
            parse_loop,
          )
          (ap (◌∷◌ r) (
            parse_loop-take (n - length (write_record r)) rs (max m r.lsn) f fits.1 (
              omega (
                arith,
                ap length (take-append_ge n (write_record r) (write_all rs) (ground arith)),
                length-append (write_record r) (take (n - length (write_record r)) (write_all rs)),
                length-write_record r,
              )))))
  | inr part ↦
      rw (part, take-append_le n (write_record r) (write_all rs) (ground arith), complete)
        (rw (parse_record_torn n r fits.0 (ground arith), parse_loop))
]
