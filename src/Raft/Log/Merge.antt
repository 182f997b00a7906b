-- ===== src/Raft/Log/Merge.antt =====
-- `AppendEntries` against what Raft asks of a follower: entries that agree stay, the log is cut at
-- the first conflict, and what is new is appended.
use trans_db.Prelude.{
  ℕ, zero, suc, ◌+◌, ◌<◌, ◌≤◌, ◌≡◌, refl, sym, ap, ◌∙◌, inl, inr, Bool, true, false, List, [], ◌∷◌,
  ◌++◌, map, take, drop, length, ◌==◌, if◌then◌else◌, arith, append_assoc, append-nil,
  length-append, length-take, take-append-drop, subst, Bool-cases, ==_iff,
}
use trans_db.Raft.Log.{RaftLogEntry, Entries, append_entries}
use trans_db.Raft.Log.Index.{
  IndexedFrom, IsContiguous, IndexedFrom-append, IndexedFrom-take, take_all,
}
use trans_db.Raft.Log.Round.{
  length-drop_nil, get_elem?-drop, append_one_new, append_one_failed, append_one_gap,
  append_one_agree, append_one_conflict, next_index,
}

-- The part of a follower's log behind the entry that precedes the new ones, and what becomes of it: an
-- entry that agrees stays, at the first conflict the new entries take over, and behind the end of the
-- log they are appended for as long as each is written to the file.
unfoldable pub graft : Entries → List (RaftLogEntry × Bool) → Entries
graft tail [] = tail
graft [] ((e, wrote) ∷ new) = if wrote then e ∷ graft [] new else []
graft (old ∷ tail) ((e, wrote) ∷ new) =
    if old.term == e.term then old ∷ graft tail new else e ∷ map (λ r. r.0) new

abbrev entries_of : List (RaftLogEntry × Bool) → Entries
entries_of = map (λ r. r.0)

abbrev result : Entries × Bool → Entries
result r = r.0

-- Once the file is to be written anew, every entry is taken.
append_entries_rewrite :
    (es : Entries) (new : List (RaftLogEntry × Bool))
    → IsContiguous es
    → IndexedFrom (suc (length es)) (entries_of new)
    → result (append_entries es true new) ≡ es ++ entries_of new
unfolding append_entries
append_entries_rewrite es [] h i = sym (append-nil es)
append_entries_rewrite es ((e, wrote) ∷ new) h i =
    rw (append_one_new es true wrote e h i.0 refl, append_entries)
      (append_entries_rewrite (es ++ e ∷ []) new (IndexedFrom-append 1 es e h (omega (arith, i.0)))
          (subst (λ n. IndexedFrom n (entries_of new)) (next_index es e) i.1)
        ∙ append_assoc es (e ∷ []) (entries_of new))

-- Behind a gap, nothing is.
append_entries_gap :
    (es : Entries) (n : ℕ) (new : List (RaftLogEntry × Bool))
    → IsContiguous es
    → suc (length es) < n
    → IndexedFrom n (entries_of new)
    → result (append_entries es false new) ≡ es
unfolding append_entries
append_entries_gap es n [] h lt i = refl
append_entries_gap es n ((e, wrote) ∷ new) h lt i =
    rw (append_one_gap es false wrote e h (omega (arith, lt, i.0)), append_entries)
      (append_entries_gap es (suc n) new h (omega (arith, lt)) i.1)

append_entries_new :
    (es : Entries) (new : List (RaftLogEntry × Bool))
    → IsContiguous es
    → IndexedFrom (suc (length es)) (entries_of new)
    → result (append_entries es false new) ≡ es ++ graft [] new
unfolding append_entries graft
append_entries_new es [] h i = sym (append-nil es)
append_entries_new es ((e, true) ∷ new) h i =
    rw (append_one_new es false true e h i.0 refl, append_entries)
      (append_entries_new (es ++ e ∷ []) new (IndexedFrom-append 1 es e h (omega (arith, i.0)))
          (subst (λ n. IndexedFrom n (entries_of new)) (next_index es e) i.1)
        ∙ append_assoc es (e ∷ []) (graft [] new))
append_entries_new es ((e, false) ∷ new) h i =
    rw (append_one_failed es e h i.0, append_entries)
      (append_entries_gap es (suc (suc (length es))) new h (omega arith) i.1 ∙ sym (append-nil es))

-- With a contiguous log and new entries that follow its position `p`, each with the outcome of its
-- write to the file, `AppendEntries` leaves the first `p` entries and, behind them, those that
-- agree; from the first conflict on all the new ones stand; where none conflicts a longer tail
-- stays, and a shorter log takes the new ones up to the first whose write fails.
pub append_entries-graft :
    (es : Entries) (p : ℕ) (new : List (RaftLogEntry × Bool))
    → IsContiguous es
    → p ≤ length es
    → IndexedFrom (suc p) (map (λ r. r.0) new)
    → (append_entries es false new).0 ≡ take p es ++ graft (drop p es) new
unfolding append_entries graft
append_entries-graft es p [] h le i = sym (take-append-drop p es)
append_entries-graft es p ((e, wrote) ∷ new) h le i =
    at (drop p es) refl (append_entries-graft es (suc p) new h)
  where
    at :
        (rest : Entries)
        → drop p es ≡ rest
        → (suc p ≤ length es
            → IndexedFrom (suc (suc p)) (entries_of new)
            → result (append_entries es false new) ≡ take (suc p) es ++ graft (drop (suc p) es) new)
        → result (append_entries es false ((e, wrote) ∷ new))
          ≡ take p es ++ graft rest ((e, wrote) ∷ new)
    at [] d ih =
        let end : p ≡ length es = length-drop_nil p es le d in
        append_entries_new es ((e, wrote) ∷ new) h
          (subst (λ k. IndexedFrom (suc k) (entries_of ((e, wrote) ∷ new))) end i)
        ∙ ap (λ xs. xs ++ graft [] ((e, wrote) ∷ new))
            (sym (ap (λ k. take k es) end ∙ take_all (length es) es (omega arith)))
    at (old ∷ tail) d ih =
        let facts = get_elem?-drop p es old tail d in
        elim (Bool-cases (old.term == e.term)) [
          | inl same ↦
              rw
                (
                  append_one_agree es false p e old tail h i.0 d wrote
                      ((==_iff old.term e.term).0 same),
                  append_entries,
                )
                (ih facts.1 i.1
                  ∙ rw (facts.2, facts.3, same)
                      (append_assoc (take p es) (old ∷ []) (graft tail new)))
          | inr differs ↦
              let size : length (take p es) ≡ p = length-take p es le in
              rw
                (
                  append_one_conflict es false p e old tail h i.0 d wrote (λ t. ground (arith, t)),
                  append_entries,
                )
                (append_entries_rewrite (take p es ++ e ∷ []) new
                    (IndexedFrom-append 1 (take p es) e (IndexedFrom-take 1 p es h)
                      (omega (arith, i.0)))
                    (subst (λ k. IndexedFrom k (entries_of new))
                      (omega (arith, length-append (take p es) (e ∷ []))) i.1)
                  ∙ rw differs (append_assoc (take p es) (e ∷ []) (entries_of new)))
        ]

-- The terms of the new entries are those of the entries that the log has behind `p`.
abbrev pub AgreesWith : Entries → Entries → Type 0
AgreesWith tail [] = Unit
AgreesWith [] (e ∷ new) = ⊥
AgreesWith (old ∷ tail) (e ∷ new) = (old.term ≡ e.term) × AgreesWith tail new

graft_agree :
    (tail : Entries) (new : List (RaftLogEntry × Bool))
    → AgreesWith tail (entries_of new)
    → graft tail new ≡ tail
unfolding graft
graft_agree tail [] h = refl
graft_agree [] ((e, wrote) ∷ new) h = absurd h
graft_agree (old ∷ tail) ((e, wrote) ∷ new) h = ground (arith, h.0, graft_agree tail new h.1)

-- With a contiguous log and new entries that follow its position `p` and that all agree with what
-- stands there, `AppendEntries` leaves the log as it is, whatever becomes of the writes to the
-- file: an old request cuts nothing off.
pub append_entries_stale :
    (es : Entries) (p : ℕ) (new : List (RaftLogEntry × Bool))
    → IsContiguous es
    → p ≤ length es
    → IndexedFrom (suc p) (map (λ r. r.0) new)
    → AgreesWith (drop p es) (map (λ r. r.0) new)
    → (append_entries es false new).0 ≡ es
append_entries_stale es p new h le i agree =
    append_entries-graft es p new h le i
    ∙ ap (λ t. take p es ++ t) (graft_agree (drop p es) new agree)
    ∙ take-append-drop p es

graft-IndexedFrom :
    (n : ℕ) (tail : Entries) (new : List (RaftLogEntry × Bool))
    → IndexedFrom n tail
    → IndexedFrom n (entries_of new)
    → IndexedFrom n (graft tail new)
unfolding graft
graft-IndexedFrom n tail [] h i = h
graft-IndexedFrom n [] ((e, true) ∷ new) h i = (i.0, graft-IndexedFrom (suc n) [] new tt i.1)
graft-IndexedFrom n [] ((e, false) ∷ new) h i = tt
graft-IndexedFrom n (old ∷ tail) ((e, wrote) ∷ new) h i = elim (Bool-cases (old.term == e.term)) [
  | inl same ↦ rw same (h.0, graft-IndexedFrom (suc n) tail new h.1 i.1)
  | inr differs ↦ rw differs i
]

IndexedFrom-drop : (n p : ℕ) (es : Entries) → IndexedFrom n es → IndexedFrom (p + n) (drop p es)
IndexedFrom-drop n zero es h =
    subst (λ k. IndexedFrom k es) (let q : n ≡ 0 + n = omega arith in q) h
IndexedFrom-drop n (suc p) [] h = tt
IndexedFrom-drop n (suc p) (x ∷ es) h =
    subst (λ k. IndexedFrom k (drop p es)) (let q : p + suc n ≡ suc p + n = omega arith in q)
      (IndexedFrom-drop (suc n) p es h.1)

IndexedFrom-join :
    (n : ℕ) (xs ys : Entries)
    → IndexedFrom n xs
    → IndexedFrom (n + length xs) ys
    → IndexedFrom n (xs ++ ys)
IndexedFrom-join n [] ys h i =
    subst (λ k. IndexedFrom k ys) (let q : n + 0 ≡ n = omega arith in q) i
IndexedFrom-join n (x ∷ xs) ys h i = (
  h.0,
  IndexedFrom-join (suc n) xs ys h.1 (
      subst (λ k. IndexedFrom k ys)
        (let q : n + suc (length xs) ≡ suc n + length xs = omega arith in q) i),
)

-- With new entries that follow a position `p` of the log, `AppendEntries` keeps a contiguous log
-- contiguous, whatever becomes of the writes to the file.
pub append_entries-IsContiguous :
    (es : Entries) (p : ℕ) (new : List (RaftLogEntry × Bool))
    → IsContiguous es
    → p ≤ length es
    → IndexedFrom (suc p) (map (λ r. r.0) new)
    → IsContiguous (append_entries es false new).0
append_entries-IsContiguous es p new h le i =
    subst IsContiguous (sym (append_entries-graft es p new h le i)) (
      IndexedFrom-join 1 (take p es) (graft (drop p es) new) (IndexedFrom-take 1 p es h) (
        subst (λ k. IndexedFrom k (graft (drop p es) new)) size
          (graft-IndexedFrom (suc p) (drop p es) new
            (subst (λ k. IndexedFrom k (drop p es)) (let q : p + 1 ≡ suc p = omega arith in q)
              (IndexedFrom-drop 1 p es h))
            i)))
  where
    size : suc p ≡ 1 + length (take p es)
    size = omega (arith, length-take p es le)
