-- ===== src/Raft/Log/Index.antt =====
-- Contiguous logs: the entry at the position i has the index i + 1. The operations keep that, and
-- then `Get`, `TermAt` and `GetRange` read what stands at an index.
use trans_db.Prelude.{
  ℕ, zero, suc, ◌+◌, ◌-◌, ◌≤◌, ◌≡◌, refl, sym, ap, ◌∙◌, inl, inr, true, false, ◌||◌, Option, none,
  some, List, [], ◌∷◌, ◌++◌, get_elem?, take, drop, length, ltb, leb, ◌==◌, if◌then◌else◌, arith,
  max, min, length-append, length-drop, Bool-cases, ap₂, take-nil, Option-cases,
}
use trans_db.Bytes.{Bytes}
use trans_db.Raft.Log.{
  RaftEntryType, RaftLogEntry, Entries, back_index, front_index, is_nil, last_index, term_at, get,
  get_range, collect, append, truncate_from,
}

abbrev pub IndexedFrom : ℕ → Entries → Type 0
IndexedFrom n [] = Unit
IndexedFrom n (e ∷ es) = (e.index ≡ n) × IndexedFrom (suc n) es

abbrev pub IsContiguous : Entries → Type 0
IsContiguous = IndexedFrom 1

pub back_index-IndexedFrom :
    (n d : ℕ) (es : Entries) → IndexedFrom (suc n) es → d ≡ n → back_index d es ≡ n + length es
unfolding back_index
back_index-IndexedFrom n d [] h e = omega arith
back_index-IndexedFrom n d (x ∷ es) h e =
    omega (arith, back_index-IndexedFrom (suc n) x.index es h.1 h.0)

-- The last index of a contiguous log is its length.
pub last_index-length : (es : Entries) → IsContiguous es → last_index es ≡ length es
unfolding last_index
last_index-length es h = omega (arith, back_index-IndexedFrom 0 0 es h refl)

pub back_index-length : (es : Entries) → IsContiguous es → back_index 0 es ≡ length es
back_index-length es h = omega (arith, back_index-IndexedFrom 0 0 es h refl)

pub front_index-one : (es : Entries) → IsContiguous es → is_nil es ≡ false → front_index es ≡ 1
unfolding front_index
front_index-one [] h e = cc
front_index-one (x ∷ es) h e = h.0

pub get_elem?-none {ℓ} : {A : Type ℓ} (xs : List A) (i : ℕ) → length xs ≤ i → get_elem? xs i ≡ none
get_elem?-none [] i h = refl
get_elem?-none (x ∷ xs) zero h = elim h [ ]
get_elem?-none (x ∷ xs) (suc i) h = get_elem?-none xs i (omega arith)

-- In a contiguous log `Get` at i + 1 is the entry at the position i, and nothing past the end.
pub get-suc : (es : Entries) (i : ℕ) → IsContiguous es → get es (suc i) ≡ get_elem? es i
unfolding get
get-suc [] i h = ground arith
get-suc (x ∷ es) i h = ground (
  arith,
  back_index-length (x ∷ es) h,
  front_index-one (x ∷ es) h refl,
  get_elem?-none (x ∷ es) i,
  ap (get_elem? (x ∷ es)) sub,
)
  where
    sub : suc i - 1 ≡ i
    sub = omega arith

abbrev pub term_of : Option RaftLogEntry → ℕ
term_of none = 0
term_of (some e) = e.term

pub term_at-suc :
    (es : Entries) (i : ℕ) → IsContiguous es → term_at es (suc i) ≡ term_of (get_elem? es i)
unfolding term_at
term_at-suc [] i h = ground arith
term_at-suc (x ∷ es) i h = ground (
  arith,
  back_index-length (x ∷ es) h,
  front_index-one (x ∷ es) h refl,
  get_elem?-none (x ∷ es) i,
  ap (get_elem? (x ∷ es)) sub,
)
  where
    sub : suc i - 1 ≡ i
    sub = omega arith

pub IndexedFrom-append :
    (n : ℕ) (es : Entries) (e : RaftLogEntry)
    → IndexedFrom n es
    → e.index ≡ n + length es
    → IndexedFrom n (es ++ e ∷ [])
IndexedFrom-append n [] e h i = (omega arith, tt)
IndexedFrom-append n (x ∷ es) e h i = (h.0, IndexedFrom-append (suc n) es e h.1 (omega arith))

pub IndexedFrom-take : (n k : ℕ) (es : Entries) → IndexedFrom n es → IndexedFrom n (take k es)
IndexedFrom-take n zero es h = tt
IndexedFrom-take n (suc k) [] h = tt
IndexedFrom-take n (suc k) (x ∷ es) h = (h.0, IndexedFrom-take (suc n) k es h.1)

-- `Append` to a contiguous log, where the file's operations succeed: the index that it returns is
-- one past the last and is the last one then, the log is the old one with the entry behind it, and
-- is contiguous.
pub append_lem :
    (es : Entries) (term : ℕ) (type : RaftEntryType) (payload : Bytes)
    → IsContiguous es
    → let (es', idx) = append es term type payload true true in
      (idx ≡ last_index es + 1)
      × (last_index es' ≡ idx)
      × (es' ≡ es ++ record { index = idx; term = term; type = type; payload = payload } ∷ [])
      × IsContiguous es'
unfolding append
append_lem es term type payload h = (idx_eq, last_eq, refl, contiguous)
  where
    e : RaftLogEntry
    e = record {
      index = if is_nil es then 1 else back_index 0 es + 1;
      term = term;
      type = type;
      payload = payload;
    }

    idx_eq : e.index ≡ last_index es + 1
    idx_eq = unfold last_index back_index in first es
      where
        first :
            (xs : Entries) → (if is_nil xs then 1 else back_index 0 xs + 1) ≡ back_index 0 xs + 1
        first [] = omega arith
        first (x ∷ xs) = refl

    contiguous : IsContiguous (es ++ e ∷ [])
    contiguous = IndexedFrom-append 1 es e h (omega (arith, idx_eq, last_index-length es h))

    last_eq : last_index (es ++ e ∷ []) ≡ e.index
    last_eq = omega (
      arith,
      idx_eq,
      last_index-length es h,
      last_index-length (es ++ e ∷ []) contiguous,
      length-append es (e ∷ []),
    )

pub take_all {ℓ} : {A : Type ℓ} (n : ℕ) (xs : List A) → length xs ≤ n → take n xs ≡ xs
take_all zero [] h = refl
take_all (suc n) [] h = refl
take_all zero (x ∷ xs) h = elim h [ ]
take_all (suc n) (x ∷ xs) h = ap (◌∷◌ x) (take_all n xs (omega arith))

-- `TruncateFrom` of a contiguous log keeps exactly the entries below the index, which is not 0.
pub truncate_from_lem :
    (es : Entries) (index : ℕ) → IsContiguous es → truncate_from es (suc index) ≡ take index es
unfolding truncate_from
truncate_from_lem [] index h = sym (take-nil index)
truncate_from_lem (x ∷ es) index h = ground (
  arith,
  back_index-length (x ∷ es) h,
  front_index-one (x ∷ es) h refl,
  take_all index (x ∷ es),
  ap (λ k. take k (x ∷ es)) sub,
)
  where
    sub : suc index - 1 ≡ index
    sub = omega arith

drop-get_elem? :
    (i : ℕ) (es : Entries) (e : RaftLogEntry)
    → get_elem? es i ≡ some e
    → drop i es ≡ e ∷ drop (i + 1) es
drop-get_elem? i [] e h = cc
drop-get_elem? zero (x ∷ es) e h = ap (λ o. elim o [ none ↦ x ∷ es | some y ↦ y ∷ es ]) h
drop-get_elem? (suc i) (x ∷ es) e h =
    let next : suc (i + 1) ≡ suc i + 1 = omega arith in
    drop-get_elem? i es e h ∙ ap (λ k. e ∷ drop k (x ∷ es)) next

drop_all {ℓ} : {A : Type ℓ} (n : ℕ) (xs : List A) → get_elem? xs n ≡ none → drop n xs ≡ []
drop_all zero [] h = refl
drop_all (suc n) [] h = refl
drop_all zero (x ∷ xs) h = cc
drop_all (suc n) (x ∷ xs) h = drop_all n xs h

collect_lem : (es : Entries) (i count : ℕ) → collect es i count ≡ take count (drop i es)
unfolding collect
collect_lem es i zero = refl
collect_lem es i (suc count) = elim (Option-cases (get_elem? es i)) [
  | inl e ↦ rw (e, collect) (rw (drop_all i es e))
  | inr (x, e) ↦
      rw (e, collect) (rw (drop-get_elem? i es x e) (ap (◌∷◌ x) (collect_lem es (i + 1) count)))
]

take-min :
    (es : Entries) (a b : ℕ)
    → take (min b (length es) + 1 - suc a) (drop a es) ≡ take (b - a) (drop a es)
take-min es a b = elim (Bool-cases (leb b (length es))) [
  | inl within ↦
      let e : min b (length es) + 1 - suc a ≡ b - a = ground arith in ap (λ k. take k (drop a es)) e
  | inr past ↦
      take_all (min b (length es) + 1 - suc a) (drop a es) (ground (arith, length-drop a es))
      ∙ sym (take_all (b - a) (drop a es) (ground (arith, length-drop a es)))
]

-- `GetRange` of a contiguous log from an index that is not 0 is the entries whose index lies in
-- the range, both ends included.
pub get_range_lem :
    (es : Entries) (a b : ℕ) → IsContiguous es → get_range es (suc a) b ≡ take (b - a) (drop a es)
unfolding get_range back_index
get_range_lem [] a b h = sym (
    ap (take (b - a)) (drop_all {A = RaftLogEntry} a [] refl) ∙ take-nil {A = RaftLogEntry} (b - a))
get_range_lem (x ∷ es) a b h = elim (Bool-cases (ltb b (suc a))) [
  | inl none_in ↦
      let zero_len : b - a ≡ 0 = ground arith in
      let skipped : ((suc a == 0) || ltb b (suc a)) ≡ true = ground arith in rw (skipped, zero_len)
  | inr some_in ↦
      let open_range : ((suc a == 0) || ltb b (suc a)) ≡ false = ground arith in
      let from : max (suc a) x.index - x.index ≡ a = omega (arith, h.0) in
      let count : min b (back_index x.index es) + 1 - max (suc a) x.index
          ≡ min b (length (x ∷ es)) + 1 - suc a =
        omega (arith, h.0, back_index-IndexedFrom 1 x.index es h.1 h.0) in
      rw open_range (
        collect_lem (x ∷ es) _ _
        ∙ ap₂ (λ i k. take k (drop i (x ∷ es))) from count
        ∙ take-min (x ∷ es) a b)
]
