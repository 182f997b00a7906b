-- ===== src/Raft/Log/File.antt =====
-- The file of a `RaftLog`: `SerializeRaftEntry` and the loop of `Load`. A file has no checksums; the
-- loop ends at the first entry that is cut short.
use trans_db.Prelude.{
  ℕ, zero, suc, ◌+◌, ◌<◌, ◌≡◌, refl, sym, ap, ◌∙◌, Option, none, some, [], ◌∷◌, ◌++◌, length, take,
  drop, ltb, ◌==◌, if◌then◌else◌, arith, append_assoc, append-nil, All, le→ltb, lt→ltb,
  length-append, take-append_exact, drop-append_exact,
}
use trans_db.Bytes.{Bytes, u32_mod, u64_mod, append_le, read_at}
use trans_db.Bytes.RoundTrip.{length-append_le, read_at-append}
use trans_db.Raft.Log.{
  RaftEntryType, RaftLogEntry, Entries, txn_begin, txn_write, txn_delete, txn_prepare, txn_commit,
  txn_abort, noop, txn_prepare_batch, other,
}

-- `static_cast<char>(e.type)`
unfoldable pub entry_type_byte : RaftEntryType → ℕ
entry_type_byte txn_begin = 1
entry_type_byte txn_write = 2
entry_type_byte txn_delete = 3
entry_type_byte txn_prepare = 4
entry_type_byte txn_commit = 5
entry_type_byte txn_abort = 6
entry_type_byte noop = 7
entry_type_byte txn_prepare_batch = 8
entry_type_byte (other b) = b

-- `static_cast<RaftEntryType>(byte)`
unfoldable pub entry_type_of_byte : ℕ → RaftEntryType
entry_type_of_byte b =
    if b == 1
    then txn_begin
    else if b == 2
    then txn_write
    else if b == 3
    then txn_delete
    else if b == 4
    then txn_prepare
    else if b == 5
    then txn_commit
    else if b == 6
    then txn_abort
    else if b == 7
    then noop
    else if b == 8
    then txn_prepare_batch
    else other b

-- `SerializeRaftEntry`
unfoldable pub serialize_raft_entry : RaftLogEntry → Bytes
serialize_raft_entry e =
    append_le 8 e.index
    ++ (append_le 8 e.term
        ++ (entry_type_byte e.type ∷ (append_le 4 (length e.payload) ++ e.payload)))

-- One round of the loop of `Load`: an entry and the bytes behind it, or `break`.
unfoldable pub load_entry : Bytes → Option (RaftLogEntry × Bytes)
load_entry bytes =
    let len = read_at 17 4 bytes in
    if ltb (length bytes) 21
    then none
    else if ltb (length (drop 21 bytes)) len
    then none
    else some (
      record {
        index = read_at 0 8 bytes;
        term = read_at 8 8 bytes;
        type = entry_type_of_byte (read_at 16 1 bytes);
        payload = take len (drop 21 bytes);
      },
      drop len (drop 21 bytes),
    )

-- `Load`, with at least as many rounds as bytes.
unfoldable pub load : ℕ → Bytes → Entries
load zero bytes = []
load (suc fuel) bytes = elim (load_entry bytes) [ none ↦ [] | some (e, rest) ↦ e ∷ load fuel rest ]

abbrev pub FitsEntry : RaftLogEntry → Type 0
FitsEntry e =
    (e.index < u64_mod)
    × (e.term < u64_mod)
    × (entry_type_byte e.type < 256)
    × (entry_type_of_byte (entry_type_byte e.type) ≡ e.type)
    × (length e.payload < u32_mod)

-- What `RewriteFileFromMemory` writes.
unfoldable pub file_of : Entries → Bytes
file_of [] = []
file_of (e ∷ es) = serialize_raft_entry e ++ file_of es

module _ (e : RaftLogEntry) (fits : FitsEntry e) where
  header : Bytes
  header = append_le 8 e.index ++ append_le 8 e.term

  length-header : length header ≡ 16
  unfolding header
  length-header = omega (
    arith,
    length-append (append_le 8 e.index) (append_le 8 e.term),
    length-append_le 8 e.index,
    length-append_le 8 e.term,
  )

  byte-append_le : entry_type_byte e.type ∷ [] ≡ append_le 1 (entry_type_byte e.type)
  unfolding append_le
  byte-append_le = ap (λ b. b ∷ []) (let h : entry_type_byte e.type < 256 = fits.2 in omega arith)

  header17 : Bytes
  header17 = header ++ append_le 1 (entry_type_byte e.type)

  length-header17 : length header17 ≡ 17
  unfolding header17
  length-header17 = omega (
    arith,
    length-append header (append_le 1 (entry_type_byte e.type)),
    length-header,
    length-append_le 1 (entry_type_byte e.type),
  )

  header21 : Bytes
  header21 = header17 ++ append_le 4 (length e.payload)

  length-header21 : length header21 ≡ 21
  unfolding header21
  length-header21 = omega (
    arith,
    length-append header17 (append_le 4 (length e.payload)),
    length-header17,
    length-append_le 4 (length e.payload),
  )

  file_split : (rest : Bytes) → serialize_raft_entry e ++ rest ≡ header21 ++ (e.payload ++ rest)
  unfolding serialize_raft_entry header header17 header21
  file_split rest = rw (← byte-append_le) (simp append_assoc)

  pub length-serialize : length (serialize_raft_entry e) ≡ length e.payload + 21
  length-serialize = omega (
    arith,
    ap length (sym (append-nil (serialize_raft_entry e)) ∙ file_split []),
    length-append header21 (e.payload ++ []),
    length-append e.payload [],
    length-header21,
  )

  module _ (rest : Bytes) where
    whole : Bytes
    whole = serialize_raft_entry e ++ rest

    tail4 : Bytes
    tail4 = append_le 4 (length e.payload) ++ (e.payload ++ rest)

    pieces :
        whole
        ≡ append_le 8 e.index
          ++ (append_le 8 e.term ++ (append_le 1 (entry_type_byte e.type) ++ tail4))
    unfolding whole serialize_raft_entry tail4
    pieces = rw (← byte-append_le) (simp append_assoc)

    read-index : read_at 0 8 whole ≡ e.index
    read-index = ap (read_at 0 8) pieces ∙ read_at-append 0 8 e.index [] _ refl fits.0

    read-term : read_at 8 8 whole ≡ e.term
    read-term =
        ap (read_at 8 8) pieces
        ∙ read_at-append 8 8 e.term (append_le 8 e.index) _ (length-append_le 8 e.index) fits.1

    pieces16 : whole ≡ header ++ (append_le 1 (entry_type_byte e.type) ++ tail4)
    unfolding header
    pieces16 = pieces ∙ sym (append_assoc (append_le 8 e.index) (append_le 8 e.term) _)

    read-type : read_at 16 1 whole ≡ entry_type_byte e.type
    read-type =
        ap (read_at 16 1) pieces16
        ∙ read_at-append 16 1 (entry_type_byte e.type) header tail4 length-header fits.2

    read-len : read_at 17 4 whole ≡ length e.payload
    unfolding tail4 header17
    read-len =
        ap (read_at 17 4)
          (pieces16 ∙ sym (append_assoc header (append_le 1 (entry_type_byte e.type)) tail4))
        ∙ read_at-append 17 4 (length e.payload) header17 (e.payload ++ rest) length-header17 fits.4

    behind : drop 21 whole ≡ e.payload ++ rest
    unfolding whole
    behind =
        ap (drop 21) (file_split rest)
        ∙ drop-append_exact 21 header21 (e.payload ++ rest) length-header21

    whole_size : length whole ≡ length e.payload + 21 + length rest
    unfolding whole
    whole_size = omega (arith, length-append (serialize_raft_entry e) rest, length-serialize)

    -- An entry that was written is loaded, and what follows it is left.
    pub load_entry-serialize : load_entry (serialize_raft_entry e ++ rest) ≡ some (e, rest)
    unfolding load_entry whole
    load_entry-serialize =
        rw (le→ltb (length whole) 21 (omega (arith, whole_size)), read-len)
          (rw behind (
            rw
              (le→ltb (length (e.payload ++ rest)) (length e.payload)
                (omega (arith, length-append e.payload rest)))
              (rw (
                take-append_exact (length e.payload) e.payload rest refl,
                drop-append_exact (length e.payload) e.payload rest refl,
                read-index,
                read-term,
                read-type,
                fits.3,
              ))))

load_entry_short : (bytes : Bytes) → length bytes < 21 → load_entry bytes ≡ none
unfolding load_entry
load_entry_short bytes h = rw (lt→ltb (length bytes) 21 h)

-- With more fuel than bytes, a file that holds entries that fit the format and then fewer bytes
-- than a header is loaded as those entries.
pub load-file_of :
    (es : Entries) (torn : Bytes) (fuel : ℕ)
    → All FitsEntry es
    → length torn < 21
    → length (file_of es ++ torn) < fuel
    → load fuel (file_of es ++ torn) ≡ es
unfolding file_of load
load-file_of es torn zero fits h enough = elim enough [ ]
load-file_of [] torn (suc fuel) fits h enough = rw (load_entry_short torn h, load)
load-file_of (e ∷ es) torn (suc fuel) fits h enough =
    rw (append_assoc (serialize_raft_entry e) (file_of es) torn) (
      rw (load_entry-serialize e fits.0 (file_of es ++ torn), load)
        (ap (◌∷◌ e) (
          load-file_of es torn fuel fits.1 h (
            omega (
              arith,
              length-append (serialize_raft_entry e) (file_of es),
              length-append (serialize_raft_entry e ++ file_of es) torn,
              length-append (file_of es) torn,
              length-serialize e fits.0,
            )))))
