-- ===== src/Bytes/Framed.antt =====
-- Logs as sequences of records that carry their own length: what the loops that read them have in
-- common. A format says how one record is written and read; the laws are proved by each format.
use trans_db.Prelude.{
  ℕ, zero, suc, ◌-◌, ◌<◌, ◌≡◌, refl, ap, ◌∙◌, Option, none, some, List, [], ◌∷◌, ◌++◌, length, take,
  leb, if◌then◌else◌, arith, length-append, take-nil, take-append_le, take-append_ge, append_assoc,
  Bool-cases, inl, inr, All,
}
use trans_db.Bytes.{Bytes}

-- Records are read until one cannot be; each round is to leave fewer bytes than it finds.
unfoldable pub read_frames {ℓ} : {A : Type ℓ} → (Bytes → Option (A × Bytes)) → ℕ → Bytes → List A
read_frames parse zero bytes = []
read_frames parse (suc fuel) bytes = elim (parse bytes) [
  | none ↦ []
  | some (a, rest) ↦ a ∷ read_frames parse fuel rest
]

pub record Format : Type 1 where
  pub Record : Type 0
  pub write : Record → Bytes
  pub parse : Bytes → Option (Record × Bytes)
  pub Fits : Record → Type 0
  pub parse-write : (r : Record) (rest : Bytes) → Fits r → parse (write r ++ rest) ≡ some (r, rest)
  pub parse_torn :
      (r : Record) (n : ℕ) → Fits r → n < length (write r) → parse (take n (write r)) ≡ none
  pub parse_empty : parse [] ≡ none
  pub write_some : (r : Record) → 0 < length (write r)

module _ (F : Format) where
  open F use {Record, write, parse, Fits}

  unfoldable pub write_frames : List Record → Bytes
  write_frames [] = []
  write_frames (r ∷ rs) = write r ++ write_frames rs

  -- The records whose last byte is among the first `n` bytes of the file.
  unfoldable pub whole_frames : ℕ → List Record → List Record
  whole_frames n [] = []
  whole_frames n (r ∷ rs) =
      let rest = whole_frames (n - length (write r)) rs in
      if leb (length (write r)) n then r ∷ rest else []

  -- With more fuel than bytes, the first `n` bytes of a file are read as the records that lie wholly
  -- in them.
  pub read_frames-take :
      (n : ℕ) (rs : List Record) (f : ℕ)
      → All Fits rs
      → length (take n (write_frames rs)) < f
      → read_frames parse f (take n (write_frames rs)) ≡ whole_frames n rs
  unfolding write_frames whole_frames read_frames
  read_frames-take n rs zero fits h = elim h [ ]
  read_frames-take n [] (suc f) fits h =
      ap (read_frames parse (suc f)) (take-nil n) ∙ ground (arith, F.parse_empty)
  read_frames-take n (r ∷ rs) (suc f) fits h = elim (Bool-cases (leb (length (write r)) n)) [
    | inl all ↦
        let cut = take-append_ge n (write r) (write_frames rs) (ground arith) in
        let ih = read_frames-take (n - length (write r)) rs f fits.1 (
          omega (
            arith,
            ap length cut,
            length-append (write r) (take (n - length (write r)) (write_frames rs)),
            F.write_some r,
          )) in
        ap (read_frames parse (suc f)) cut
        ∙ ground
            (arith, F.parse-write r (take (n - length (write r)) (write_frames rs)) fits.0, all, ih)
    | inr part ↦
        ap (read_frames parse (suc f)) (take-append_le n (write r) (write_frames rs) (ground arith))
        ∙ ground (arith, part, F.parse_torn r n fits.0)
  ]

  -- All of the file.
  pub read_frames-write_frames :
      (rs : List Record) (f : ℕ)
      → All Fits rs
      → length (write_frames rs) < f
      → read_frames parse f (write_frames rs) ≡ rs
  unfolding write_frames read_frames
  read_frames-write_frames rs zero fits h = elim h [ ]
  read_frames-write_frames [] (suc f) fits h = ground (arith, F.parse_empty)
  read_frames-write_frames (r ∷ rs) (suc f) fits h =
      let ih =
        read_frames-write_frames rs f fits.1
          (omega (arith, h, length-append (write r) (write_frames rs), F.write_some r)) in
      ground (arith, F.parse-write r (write_frames rs) fits.0, ih)

  pub write_frames-append :
      (rs ts : List Record) → write_frames (rs ++ ts) ≡ write_frames rs ++ write_frames ts
  unfolding write_frames
  write_frames-append [] ts = refl
  write_frames-append (r ∷ rs) ts =
      rw (write_frames-append rs ts, append_assoc (write r) (write_frames rs) (write_frames ts))
