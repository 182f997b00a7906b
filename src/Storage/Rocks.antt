-- ===== src/Storage/Rocks.antt =====
-- RocksDB, which the program calls and does not implement: a parameter of the store. The laws are its
-- documented behaviour: an iterator visits the keys in bytewise order, each once; `Seek` goes to the
-- first key at or past its target; `Put` sets one key and leaves the others.
use trans_db.Prelude.{
  ◌≡◌, refl, true, false, Option, none, some, List, [], ◌∷◌, ◌=l=◌, if◌then◌else◌, All, arith,
  =l=_iff,
}
use trans_db.Bytes.{Bytes}
use trans_db.Storage.Order.{◌<l◌, <l_trans}

abbrev pub Entry : Type 0
Entry = Bytes × Bytes

unfoldable pub lookup : Bytes → List Entry → Option Bytes
lookup k [] = none
lookup k ((j, v) ∷ l) = if j =l= k then some v else lookup k l

-- Each key stands before all that follow it.
abbrev pub IsSorted : List Entry → Type 0
IsSorted [] = Unit
IsSorted ((k, v) ∷ l) = All (λ (p : Entry). (k <l p.0) ≡ true) l × IsSorted l

pub record Rocks : Type 1 where
  pub Db : Type 0
  -- `NewIterator`, `SeekToFirst`, and `Next` to the end
  pub entries : Db → List Entry
  -- a `Put` that succeeds
  pub put : Db → Bytes → Bytes → Db
  pub entries_sorted : (d : Db) → IsSorted (entries d)
  pub lookup-put :
      (d : Db) (k v j : Bytes)
      → lookup j (entries (put d k v)) ≡ (if k =l= j then some v else lookup j (entries d))

-- `Seek(target)`: what is visited from there on.
unfoldable pub seek : Bytes → List Entry → List Entry
seek target [] = []
seek target ((k, v) ∷ l) = if k <l target then seek target l else (k, v) ∷ l

-- A database that meets the laws: a sorted list.
unfoldable pub insert : Bytes → Bytes → List Entry → List Entry
insert k v [] = (k, v) ∷ []
insert k v ((j, w) ∷ l) =
    if k =l= j then (k, v) ∷ l else if k <l j then (k, v) ∷ (j, w) ∷ l else (j, w) ∷ insert k v l

<l_total : (x y : Bytes) → (x =l= y) ≡ false → (x <l y) ≡ false → (y <l x) ≡ true
unfolding ◌<l◌
<l_total [] [] h k = cc
<l_total [] (b ∷ y) h k = cc
<l_total (a ∷ x) [] h k = refl
<l_total (a ∷ x) (b ∷ y) h k = ground (arith, <l_total x y)

All-below :
    (i j : Bytes) (l : List Entry)
    → (i <l j) ≡ true
    → All (λ (p : Entry). (j <l p.0) ≡ true) l
    → All (λ (p : Entry). (i <l p.0) ≡ true) l
All-below i j [] h a = tt
All-below i j ((k, v) ∷ l) h a = (<l_trans i j k h a.0, All-below i j l h a.1)

All-insert :
    (i k v : Bytes) (l : List Entry)
    → (i <l k) ≡ true
    → All (λ (p : Entry). (i <l p.0) ≡ true) l
    → All (λ (p : Entry). (i <l p.0) ≡ true) (insert k v l)
unfolding insert
All-insert i k v [] h a = (h, tt)
All-insert i k v ((j, w) ∷ l) h a = ground (arith, All-insert i k v l h a.1)

pub insert-IsSorted : (k v : Bytes) (l : List Entry) → IsSorted l → IsSorted (insert k v l)
unfolding insert
insert-IsSorted k v [] s = (tt, tt)
insert-IsSorted k v ((j, w) ∷ l) s = ground (
  arith,
  =l=_iff k j,
  <l_total k j,
  All-below k j l,
  All-insert j k v l,
  insert-IsSorted k v l s.1,
)

pub lookup-insert :
    (k v j : Bytes) (l : List Entry)
    → lookup j (insert k v l) ≡ (if k =l= j then some v else lookup j l)
unfolding lookup insert
lookup-insert k v j [] = refl
lookup-insert k v j ((i, w) ∷ l) =
    ground (arith, =l=_iff k j, =l=_iff k i, =l=_iff i j, lookup-insert k v j l)

pub record Sorted : Type 0 where
  pub items : List Entry
  pub is_sorted : IsSorted items

unfoldable pub sorted_list : Rocks
unfolding insert
sorted_list = record {
  Db = Sorted;
  entries = λ d. d.items;
  put = λ d k v. record {
    items = insert k v d.items;
    is_sorted = insert-IsSorted k v d.items d.is_sorted;
  };
  entries_sorted = λ d. d.is_sorted;
  lookup-put = λ d k v j. lookup-insert k v j d.items;
}

abbrev pub empty_list : Sorted
empty_list = record { items = []; is_sorted = tt }
