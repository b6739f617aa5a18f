-- ===== src/Indexer/Readiness.antt =====
-- What stays true of the writers and counters over the loop of `IndexerActor::run` (src/indexer.rs).
use edgewit.Prelude.{
  ℕ, ◌<◌, ◌≡◌, ◌⊎◌, inl, inr, refl, sym, true, Bool-cases, List, [], ◌∷◌, Text, Assoc, ascii,
  insert, contains_key, leb, Result, ok, err, arith, text_eq, text_eq_iff,
}
use edgewit.Indexer.Engine.{Engine}
use edgewit.Indexer.Manager.{IndexManager}
use edgewit.Indexer.Actor.{IndexerActor, new, process_event, setting}
use edgewit.Indexer.Loop.{
  Wakeup, received, purge, tick, or_insert, purge_old_docs, commit_all, commit_if_full,
  commit_if_dirty, counted, turn, run_from, run,
}
use edgewit.Indexer.Growth.{Grows, Marked, contains_key-insert}
use edgewit.Indexer.Marks.{process_event-Marks, purge_old_docs-Marks}

module _ (lib : Engine) where
  -- Every index that is to be committed has a writer, so `commit_all` passes over none; and fewer events
  -- than the limit are waiting.
  abbrev pub IsReady : IndexerActor lib → Type 0
  IsReady s = (j : Text) → contains_key j s.dirty_writers ≡ true → contains_key j s.writers ≡ true

  abbrev pub IsBounded : ℕ → ℕ → Type 0
  IsBounded limit docs = (docs < limit) ⊎ (docs ≡ 0)

  Grows-IsReady : (s t : IndexerActor lib) → Grows lib s t → IsReady s → IsReady t
  Grows-IsReady s t (d, w) r j h = w j (r j (rw (sym d) h))

  Marked-IsReady :
      (name : Text) (f : Assoc ℕ → Assoc ℕ) (s : IndexerActor lib)
      → ((j : Text)
          → contains_key j (f s.dirty_writers) ≡ true
          → (text_eq name j ≡ true) ⊎ (contains_key j s.dirty_writers ≡ true))
      → (p : Result Text (Unit {0}) × IndexerActor lib) → Marked lib name f s p
      → IsReady s
      → IsReady p.1
  Marked-IsReady name f s only (err e, t) g r = Grows-IsReady s t g r
  Marked-IsReady name f s only (ok u, t) (d, c, w) r = λ j h. elim (only j (rw (sym d) h)) [
    | inl y ↦ rw (sym ((text_eq_iff name j).0 y)) c
    | inr k ↦ w j (r j k)
  ]

  insert_only :
      (name j : Text) (v : ℕ) (m : Assoc ℕ)
      → contains_key j (insert name v m) ≡ true
      → (text_eq name j ≡ true) ⊎ (contains_key j m ≡ true)
  insert_only name j v m h = elim (Bool-cases (text_eq name j)) [
    | inl y ↦ inl y
    | inr n ↦ inr (rw (contains_key-insert name j v m, n) at h)
  ]

  or_insert_only :
      (name j : Text) (v : ℕ) (m : Assoc ℕ)
      → contains_key j (or_insert lib name v m) ≡ true
      → (text_eq name j ≡ true) ⊎ (contains_key j m ≡ true)
  or_insert_only name j v m h = elim (Bool-cases (contains_key name m)) [
    | inl y ↦ inr (rw y at h)
    | inr n ↦ insert_only name j v m (rw n at h)
  ]

  commit_all-IsReady : (s : IndexerActor lib) → IsReady (commit_all lib s)
  unfolding commit_all contains_key
  commit_all-IsReady s j h = ground arith

  commit_if_full-keeps :
      (limit docs : ℕ) (s : IndexerActor lib)
      → IsReady s
      → IsReady (commit_if_full lib limit docs s).0
        × IsBounded limit (commit_if_full lib limit docs s).1
  commit_if_full-keeps limit docs s r = elim (Bool-cases (leb limit docs)) [
    | inl y ↦ rw y (commit_all-IsReady s, inr refl)
    | inr n ↦ rw n (r, inl (ground arith))
  ]

  commit_if_dirty-keeps :
      (limit docs : ℕ) (dirty : Assoc ℕ) (s : IndexerActor lib)
      → IsReady s
      → IsBounded limit docs
      → IsReady (commit_if_dirty lib dirty docs s).0
        × IsBounded limit (commit_if_dirty lib dirty docs s).1
  commit_if_dirty-keeps limit docs [] s r b = (r, b)
  commit_if_dirty-keeps limit docs (d ∷ dirty) s r b = (commit_all-IsReady s, inr refl)

  turn-keeps :
      (limit docs : ℕ) (w : Wakeup) (s : IndexerActor lib)
      → IsReady s
      → IsBounded limit docs
      → IsReady (turn lib limit w (s, docs)).0 × IsBounded limit (turn lib limit w (s, docs)).1
  unfolding turn
  turn-keeps limit docs (received req) s r b =
      let p = process_event lib req.event req.wal_offset s in
      commit_if_full-keeps limit (counted lib p.0 docs) p.1 (
        Marked-IsReady req.event.index (insert req.event.index req.wal_offset) s
          (λ j. insert_only req.event.index j req.wal_offset s.dirty_writers) p
          (process_event-Marks lib req.event req.wal_offset s) r)
  turn-keeps limit docs (purge name cutoff) s r b = (
    Marked-IsReady name (or_insert lib name 0) s (λ j. or_insert_only name j 0 s.dirty_writers)
        (purge_old_docs lib name cutoff s) (purge_old_docs-Marks lib name cutoff s) r,
    b,
  )
  turn-keeps limit docs tick s r b = commit_if_dirty-keeps limit docs s.dirty_writers s r b

  run_from-keeps :
      (limit docs : ℕ) (wakeups : List Wakeup) (s : IndexerActor lib)
      → IsReady s
      → IsBounded limit docs
      → IsReady (run_from lib limit wakeups (s, docs)).0
        × IsBounded limit (run_from lib limit wakeups (s, docs)).1
  unfolding run_from
  run_from-keeps limit docs [] s r b = (r, b)
  run_from-keeps limit docs (w ∷ wakeups) s r b =
      let (r', b') = turn-keeps limit docs w s r b in
      let next = turn lib limit w (s, docs) in run_from-keeps limit next.1 wakeups next.0 r' b'

  -- After any sequence of events, purges and ticks from the start of the actor, every index with
  -- something to commit has a writer, and the count of events since the last commit is below the
  -- limit of the environment or 0.
  pub run_stays-IsReady :
      (manager : IndexManager lib) (memory : ℕ) (world : lib.World) (wakeups : List Wakeup)
      → IsReady (run lib wakeups (new lib manager memory world)).0
        × IsBounded
            (setting lib (ascii "EDGEWIT_COMMIT_INTERVAL_DOCS") 10000)
            (run lib wakeups (new lib manager memory world)).1
  unfolding run new contains_key
  run_stays-IsReady manager memory world wakeups =
      run_from-keeps (setting lib (ascii "EDGEWIT_COMMIT_INTERVAL_DOCS") 10000) 0 wakeups
        (new lib manager memory world) (λ j h. ground arith) (inr refl)
