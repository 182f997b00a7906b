-- ===== src/Raft/Log/Round.antt =====
-- One round of the loop of `AppendEntries` in src/raft/raft_log.cpp.
use trans_db.Prelude.{
  ℕ, zero, suc, ◌-◌, ◌<◌, ◌≤◌, ◌≡◌, ◌≢◌, refl, ap, Bool, true, false, ◌&&◌, ◌||◌, not, some, List,
  [], ◌∷◌, ◌++◌, get_elem?, take, drop, length, leb, arith, length-append, length-take, ne→==,
}
use trans_db.Raft.Log.{
  RaftLogEntry, Entries, back_index, front_index, is_nil, push_expected, append_one,
}
use trans_db.Raft.Log.Index.{IsContiguous, back_index-length, front_index-one, IndexedFrom-take}

push_expected_lem :
    (es : Entries) (needs wrote : Bool) (e : RaftLogEntry)
    → IsContiguous es
    → e.index ≡ suc (length es)
    → (needs || wrote) ≡ true
    → push_expected es needs wrote e ≡ (es ++ e ∷ [], needs)
unfolding push_expected
push_expected_lem [] needs wrote e h i w = ground (arith, w)
push_expected_lem (x ∷ es) needs wrote e h i w = ground (arith, w, back_index-length (x ∷ es) h)

-- Neither an entry whose write fails nor one behind a gap is taken.
push_expected_failed :
    (es : Entries) (e : RaftLogEntry)
    → IsContiguous es
    → e.index ≡ suc (length es)
    → push_expected es false false e ≡ (es, false)
unfolding push_expected
push_expected_failed [] e h i = ground arith
push_expected_failed (x ∷ es) e h i = ground (arith, back_index-length (x ∷ es) h)

push_expected_gap :
    (es : Entries) (needs wrote : Bool) (e : RaftLogEntry)
    → IsContiguous es
    → suc (length es) < e.index
    → push_expected es needs wrote e ≡ (es, needs)
unfolding push_expected
push_expected_gap [] needs wrote e h i = ground arith
push_expected_gap (x ∷ es) needs wrote e h i = ground (arith, back_index-length (x ∷ es) h)

pub next_index :
    (es : Entries) (e : RaftLogEntry) → suc (suc (length es)) ≡ suc (length (es ++ e ∷ []))
next_index es e = omega (arith, length-append es (e ∷ []))

pub length-drop_nil {ℓ} :
    {A : Type ℓ} (p : ℕ) (xs : List A) → p ≤ length xs → drop p xs ≡ [] → p ≡ length xs
length-drop_nil zero [] h e = refl
length-drop_nil zero (x ∷ xs) h e = cc
length-drop_nil (suc p) [] h e = elim h [ ]
length-drop_nil (suc p) (x ∷ xs) h e = ap suc (length-drop_nil p xs (omega arith) e)

pub get_elem?-drop {ℓ} :
    {A : Type ℓ} (p : ℕ) (xs : List A) (y : A) (ys : List A)
    → drop p xs ≡ y ∷ ys
    → (get_elem? xs p ≡ some y)
      × (p < length xs)
      × (drop (suc p) xs ≡ ys)
      × (take (suc p) xs ≡ take p xs ++ y ∷ [])
get_elem?-drop zero [] y ys e = cc
get_elem?-drop zero (x ∷ xs) y ys e =
    (ground (arith, e), omega arith, ground (arith, e), ground (arith, e))
get_elem?-drop (suc p) [] y ys e = cc
get_elem?-drop (suc p) (x ∷ xs) y ys e =
    let h = get_elem?-drop p xs y ys e in (h.0, omega (arith, h.1), h.2, ap (◌∷◌ x) h.3)

module _ (es : Entries) (needs wrote : Bool) (e : RaftLogEntry) (h : IsContiguous es) where
  behind : suc (length es) ≤ e.index → (not (is_nil es) && leb e.index (back_index 0 es)) ≡ false
  behind i = ground (arith, back_index-length es h)

  pub append_one_new :
      e.index ≡ suc (length es)
      → (needs || wrote) ≡ true
      → append_one es needs wrote e ≡ (es ++ e ∷ [], needs)
  unfolding append_one
  append_one_new i w = rw (behind (omega (arith, i))) (push_expected_lem es needs wrote e h i w)

  pub append_one_gap : suc (length es) < e.index → append_one es needs wrote e ≡ (es, needs)
  unfolding append_one
  append_one_gap i = rw (behind (omega (arith, i))) (push_expected_gap es needs wrote e h i)

pub append_one_failed :
    (es : Entries) (e : RaftLogEntry)
    → IsContiguous es
    → e.index ≡ suc (length es)
    → append_one es false false e ≡ (es, false)
unfolding append_one
append_one_failed es e h i =
    rw (behind es false false e h (omega (arith, i))) (push_expected_failed es e h i)

module _ (es : Entries) (needs : Bool) (p : ℕ) (e old : RaftLogEntry) (tail : Entries)
    (h : IsContiguous es) (i : e.index ≡ suc p) (at : drop p es ≡ old ∷ tail) where
  within : (not (is_nil es) && leb e.index (back_index 0 es)) ≡ true
  within = nonempty es h (get_elem?-drop p es old tail at).1
    where
      nonempty :
          (xs : Entries)
          → IsContiguous xs
          → p < length xs
          → (not (is_nil xs) && leb e.index (back_index 0 xs)) ≡ true
      nonempty [] k lt = elim lt [ ]
      nonempty (x ∷ xs) k lt = ground (arith, back_index-length (x ∷ xs) k)

  offset : e.index - front_index es ≡ p
  offset = first es h (get_elem?-drop p es old tail at).1
    where
      first : (xs : Entries) → IsContiguous xs → p < length xs → e.index - front_index xs ≡ p
      first [] k lt = elim lt [ ]
      first (x ∷ xs) k lt = omega (arith, front_index-one (x ∷ xs) k refl)

  pub append_one_agree :
      (wrote : Bool) → old.term ≡ e.term → append_one es needs wrote e ≡ (es, needs)
  unfolding append_one
  append_one_agree wrote same =
      rw within (rw (offset, (get_elem?-drop p es old tail at).0) (ground (arith, same)))

  pub append_one_conflict :
      (wrote : Bool) → old.term ≢ e.term → append_one es needs wrote e ≡ (take p es ++ e ∷ [], true)
  unfolding append_one
  append_one_conflict wrote differ = rw within (
      rw (offset, (get_elem?-drop p es old tail at).0)
        (rw (offset, ne→== old.term e.term differ)
          (push_expected_lem (take p es) true wrote e (IndexedFrom-take 1 p es h)
            (omega (arith, length-take p es (omega (arith, (get_elem?-drop p es old tail at).1))))
            refl)))
