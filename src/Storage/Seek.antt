-- ===== src/Storage/Seek.antt =====
-- `Seek` on a sorted list of entries: what is visited from there on.
use trans_db.Prelude.{
  ◌≡◌, ◌≢◌, refl, inl, inr, true, false, none, some, List, [], ◌∷◌, ◌=l=◌, All, All-map, arith,
  Bool-cases, =l=_iff, =l=_refl,
}
use trans_db.Bytes.{Bytes}
use trans_db.Storage.Order.{◌<l◌, <l_trans}
use trans_db.Storage.Rocks.{Entry, IsSorted, lookup, seek}

pub lookup_after :
    (j : Bytes) (l : List Entry) (v i : Bytes)
    → All (λ (p : Entry). (i <l p.0) ≡ true) l
    → lookup j l ≡ some v
    → (i <l j) ≡ true
unfolding lookup
lookup_after j [] v i a h = cc
lookup_after j ((k, w) ∷ l) v i a h = ground (arith, =l=_iff k j, lookup_after j l v i a.1, a.0)

pub seek-IsSorted : (s : Bytes) (l : List Entry) → IsSorted l → IsSorted (seek s l)
unfolding seek
seek-IsSorted s [] h = tt
seek-IsSorted s ((k, v) ∷ l) h = ground (arith, seek-IsSorted s l h.1)

pub seek-All {κ} : (P : Entry → Type κ) (s : Bytes) (l : List Entry) → All P l → All P (seek s l)
unfolding seek
seek-All P s [] h = tt
seek-All P s ((k, v) ∷ l) h = elim (Bool-cases (k <l s)) [
  | inl e ↦ rw e (seek-All P s l h.1)
  | inr e ↦ rw e h
]

not_below :
    (s k : Bytes) (l : List Entry)
    → (k <l s) ≡ false
    → All (λ (p : Entry). (k <l p.0) ≡ true) l
    → All (λ (p : Entry). (p.0 <l s) ≡ false) l
not_below s k [] h a = tt
not_below s k ((j, v) ∷ l) h a = (ground (arith, <l_trans k j s), not_below s k l h a.1)

-- The iterator visits nothing before its target.
pub seek_from :
    (s : Bytes) (l : List Entry) → IsSorted l → All (λ (p : Entry). (p.0 <l s) ≡ false) (seek s l)
unfolding seek
seek_from s [] h = tt
seek_from s ((k, v) ∷ l) h = elim (Bool-cases (k <l s)) [
  | inl e ↦ rw e (seek_from s l h.1)
  | inr e ↦ rw e (e, not_below s k l e h.0)
]

pub lookup-seek :
    (j s : Bytes) (l : List Entry) → (j <l s) ≡ false → lookup j (seek s l) ≡ lookup j l
unfolding lookup seek
lookup-seek j s [] h = refl
lookup-seek j s ((k, v) ∷ l) h = ground (arith, =l=_iff k j, lookup-seek j s l h)

found-cons : (j k v : Bytes) (l : List Entry) → lookup j l ≢ none → lookup j ((k, v) ∷ l) ≢ none
unfolding lookup
found-cons j k v l h e = elim (Bool-cases (k =l= j)) [
  | inl same ↦ cc (rw same at e)
  | inr other ↦ h (rw other at e)
]

pub entries_found : (l : List Entry) → All (λ (p : Entry). lookup p.0 l ≢ none) l
unfolding lookup
entries_found [] = tt
entries_found ((k, v) ∷ l) = (
  rw (=l=_refl k) (λ e. cc),
  All-map (λ (p : Entry). lookup p.0 l ≢ none) (λ (p : Entry). lookup p.0 ((k, v) ∷ l) ≢ none)
      (λ p h. found-cons p.0 k v l h) l (entries_found l),
)
