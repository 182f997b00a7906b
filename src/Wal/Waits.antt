-- ===== src/Wal/Waits.antt =====
-- Who waits for what in src/txn/group_commit.cpp, over any interleaving of the sections.
use trans_db.Prelude.{
  ℕ, ◌+◌, ◌<◌, ◌≡◌, refl, Bool, true, false, ◌||◌, none, some, List, [], ◌∷◌, ◌++◌, ◌==◌,
  if◌then◌else◌, Status, ok, arith, ◌⊎◌, inl, inr, Option-cases, ==_refl,
}
use trans_db.Bytes.{u64_mod}
use trans_db.Wal.Group.{
  PendingSync, Registry, queue, woken, take_batch, unique_syncs, run_syncs, finish_batch,
}

-- The call's sync is in the list.
unfoldable pub has : ℕ → List PendingSync → Bool
has f [] = false
has f (p ∷ ps) = let rest = has f ps in if p.flush == f then true else rest

unfoldable pub in_batch : ℕ → Registry → Bool
in_batch f r = elim (r.batch) [ none ↦ false | some b ↦ has f b ]

-- One section of another call or of the worker; the counter does not come round.
pub data Step (f : ℕ) : Registry → Registry → Type 0 where
  queues : {r : Registry} (p : PendingSync) → (p.flush == f) ≡ false → Step f r (queue r p).0
  takes : {r : Registry} → Step f r (take_batch r)
  finishes :
      {r : Registry} (answer : PendingSync → Status)
      → r.synced_generation + 1 < u64_mod
      → Step f r (finish_batch answer r)

pub data Reach (f : ℕ) (r : Registry) : Registry → Type 0 where
  here : Reach f r r
  next : {s t : Registry} → Reach f r s → Step f s t → Reach f r t

has-append :
    (f : ℕ) (ps : List PendingSync) (p : PendingSync)
    → has f (ps ++ (p ∷ [])) ≡ (has f ps || (p.flush == f))
unfolding has
has-append f [] p = ground arith
has-append f (q ∷ ps) p = ground (arith, has-append f ps p)

-- The sync waits in the list with the worker idle, or is in the worker's hands, and no batch has ended
-- since; or it is in neither.
unfoldable Waits : ℕ → ℕ → Registry → Type 0
Waits f w r =
    ((r.synced_generation ≡ w) × (has f r.pending_syncs ≡ true) × (r.batch ≡ none))
    ⊎ ((r.synced_generation ≡ w) × (in_batch f r ≡ true) × (has f r.pending_syncs ≡ false))
    ⊎ ((has f r.pending_syncs ≡ false) × (in_batch f r ≡ false))

take-Waits :
    (f w : ℕ) (r : Registry) (l : List PendingSync)
    → r.pending_syncs ≡ l
    → Waits f w r
    → Waits f w (take_batch r)
unfolding Waits in_batch has take_batch
take-Waits f w r [] e h = ground (arith, e, h)
take-Waits f w r (p ∷ ps) e h = ground (arith, e, h)

Step-Waits : (f w : ℕ) {r s : Registry} → Step f r s → Waits f w r → Waits f w s
unfolding Waits queue in_batch
Step-Waits f w {r = r} (queues p other) h = ground (arith, h, other, has-append f r.pending_syncs p)
Step-Waits f w {r = r} takes h = take-Waits f w r r.pending_syncs refl h
Step-Waits f w {r = r} (finishes answer small) h = elim (Option-cases r.batch) [
  | inl e ↦ unfold finish_batch in ground (arith, h, e, small)
  | inr (b, e) ↦ unfold finish_batch in ground (arith, h, e, small)
]

Reach-Waits : (f w : ℕ) {r s : Registry} → Reach f r s → Waits f w r → Waits f w s
Reach-Waits f w here h = h
Reach-Waits f w (next before step) h = Step-Waits f w step (Reach-Waits f w before h)

-- A `QueueSync` that queues its sync while the worker has no batch in hand, under a name that is
-- not pending yet, is not woken, over any interleaving of further calls under other names and of
-- the worker's sections, for as long as its sync is pending or in the worker's hands. The counter
-- of generations does not come round.
pub woken_after :
    (r s : Registry) (p : PendingSync)
    → r.batch ≡ none
    → has p.flush r.pending_syncs ≡ false
    → Reach p.flush (queue r p).0 s
    → (has p.flush s.pending_syncs || in_batch p.flush s) ≡ true
    → woken s (queue r p).1 ≡ none
unfolding Waits queue woken
woken_after r s p idle fresh reach waits =
    let start : Waits p.flush r.synced_generation (queue r p).0 =
      ground (arith, idle, fresh, has-append p.flush r.pending_syncs p, ==_refl p.flush) in
    let h = Reach-Waits p.flush r.synced_generation reach start in ground (arith, h, waits)

-- A `QueueSync` that queues its sync while the worker has a batch in hand is woken when that batch
-- is done, with that batch's status, while its own sync is still pending. The counter of
-- generations does not come round.
pub woken_early :
    (r : Registry) (b : List PendingSync) (p : PendingSync) (answer : PendingSync → Status)
    → r.batch ≡ some b
    → r.synced_generation + 1 < u64_mod
    → (woken (finish_batch answer (queue r p).0) (queue r p).1
        ≡ some (run_syncs answer ok (unique_syncs [] b)))
      × (has p.flush (finish_batch answer (queue r p).0).pending_syncs ≡ true)
unfolding finish_batch queue woken
woken_early r b p answer busy small =
    ground (arith, busy, small, has-append p.flush r.pending_syncs p, ==_refl p.flush)
