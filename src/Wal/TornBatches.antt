-- ===== src/Wal/TornBatches.antt =====
-- What a batch leaves in the log file of src/wal.rs when one of its system calls fails.
use edgewit.Prelude.{
  ℕ, zero, suc, ◌+◌, ◌-◌, ◌≤◌, ◌≡◌, refl, ap, Bool, true, false, Bool-cases, inl, inr, List, [],
  ◌∷◌, ◌++◌, arith, length, leb, ltb, append-nil, take, take_append_ge,
}
use edgewit.Wal.Frame.{frame_parts, encode_frame, concat}
use edgewit.Wal.Disk.{
  Writer, Outcome, done, failed, os_write, os_write_as, write_cold, write_all, flush_buf, sync_data,
  capacity, append_to,
}
use edgewit.Wal.Appender.{
  WalRequest, WalAppender, write_parts, write_batch, commit_batch, process_batch, finish, if_good,
  advance,
}
use edgewit.Wal.Durability.{
  Gains, Gains-refl, Gains-trans, write_all-Gains, write_parts-Gains, flush_buf-Gains,
  sync_data-Gains, took-Gains, push-Gains, flush_buf_empty, empty_of_length,
}
use edgewit.Wal.Batches.{log_of}

-- The open file gained the beginning of `bytes`.
pub record GainsPrefix (w w' : Writer) (bytes : List ℕ) : Type 0 where
  pub count : ℕ
  pub gains : Gains w w' (take count bytes)

pub take_all {ℓ} : {A : Type ℓ} (xs : List A) → take (length xs) xs ≡ xs
take_all [] = refl
take_all (x ∷ xs) = ap (◌∷◌ x) (take_all xs)

take-append-le : (n : ℕ) (xs ys : List ℕ) → (m : ℕ) × (take m (xs ++ ys) ≡ take n xs)
take-append-le zero xs ys = (0, refl)
take-append-le (suc n) [] ys = (0, refl)
take-append-le (suc n) (x ∷ xs) ys = let (m, e) = take-append-le n xs ys in (suc m, ap (◌∷◌ x) e)

GainsPrefix-all : {w w' : Writer} {bytes : List ℕ} → Gains w w' bytes → GainsPrefix w w' bytes
GainsPrefix-all {bytes} g = record { count = length bytes; gains = rw take_all g }

GainsPrefix-none : {w w' : Writer} (bytes : List ℕ) → Gains w w' [] → GainsPrefix w w' bytes
GainsPrefix-none bytes g = record { count = 0; gains = g }

-- A prefix of the first part is a prefix of the whole.
GainsPrefix-widen :
    {w w' : Writer} (xs ys : List ℕ) → GainsPrefix w w' xs → GainsPrefix w w' (xs ++ ys)
GainsPrefix-widen xs ys g =
    let (m, e) = take-append-le g.count xs ys in record { count = m; gains = rw e g.gains }

GainsPrefix-after :
    {w w' w'' : Writer} (xs ys : List ℕ)
    → Gains w w' xs
    → GainsPrefix w' w'' ys
    → GainsPrefix w w'' (xs ++ ys)
GainsPrefix-after xs ys g h = record {
  count = length xs + h.count;
  gains =
      rw
        (
          take_append_ge (length xs + h.count) xs ys (omega arith),
          let e : length xs + h.count - length xs ≡ h.count = omega arith in e,
        )
        (Gains-trans g h.gains);
}

os_write-GainsPrefix :
    (bytes : List ℕ) (w : Writer) → w.buffer ≡ [] → GainsPrefix w (os_write bytes w).1 bytes
unfolding os_write
os_write-GainsPrefix bytes w e = by_faults w.faults
  where
    taken :
        (k : ℕ) (fs : List Outcome)
        → Gains w
            (record w { files = append_to w.path (take k bytes) w.files; faults = fs })
            (take k bytes)
    taken k fs =
        rw (← e) at (took-Gains w (take k bytes) [] fs (take k bytes) (rw (e, append-nil) refl))

    by_faults : (fs : List Outcome) → GainsPrefix w (os_write_as fs bytes w).1 bytes
    by_faults [] = GainsPrefix-all (rw take_all at (taken (length bytes) []))
    by_faults (done ∷ fs) = GainsPrefix-all (rw take_all at (taken (length bytes) fs))
    by_faults (failed k ∷ fs) = record { count = k; gains = taken k fs }

write_cold-GainsPrefix :
    (bytes : List ℕ) (r : Bool × Writer)
    → (r.0 ≡ true → capacity ≤ length bytes → r.1.buffer ≡ [])
    → GainsPrefix r.1 (write_cold bytes r).1 bytes
unfolding write_cold
write_cold-GainsPrefix bytes (false, w) e = GainsPrefix-none bytes (Gains-refl w)
write_cold-GainsPrefix bytes (true, w) e = elim (Bool-cases (leb capacity (length bytes))) [
  | inl big ↦ rw big (os_write-GainsPrefix bytes w (e refl (ground arith)))
  | inr small ↦ rw small (GainsPrefix-all (push-Gains bytes w))
]

write_all-GainsPrefix : (bytes : List ℕ) (w : Writer) → GainsPrefix w (write_all bytes w).1 bytes
unfolding write_all
write_all-GainsPrefix bytes w =
    elim (Bool-cases (ltb (length bytes) (capacity - length w.buffer))) [
      | inl fits ↦ rw fits (GainsPrefix-all (push-Gains bytes w))
      | inr full ↦ elim (Bool-cases (ltb (capacity - length w.buffer) (length bytes))) [
        | inl over ↦
            rw (full, over)
              (GainsPrefix-after [] bytes (flush_buf-Gains w)
                (write_cold-GainsPrefix bytes (flush_buf w) (λ good big. flush_buf_empty w good)))
        | inr exact ↦
            rw (full, exact)
              (write_cold-GainsPrefix bytes (true, w)
                (λ _ big. empty_of_length w.buffer (ground arith)))
      ]
    ]

write_parts-GainsPrefix :
    (parts : List (List ℕ)) (w : Writer) → GainsPrefix w (write_parts parts w).1 (concat parts)
unfolding write_parts
write_parts-GainsPrefix [] w = GainsPrefix-none [] (Gains-refl w)
write_parts-GainsPrefix (p ∷ ps) w =
    let later = write_parts-GainsPrefix ps (write_all p w).1 in
    elim (Bool-cases (write_all p w).0) [
      | inl good ↦ rw good (GainsPrefix-after p (concat ps) (write_all-Gains p w good) later)
      | inr bad ↦ rw bad (GainsPrefix-widen p (concat ps) (write_all-GainsPrefix p w))
    ]

module _ (crc : List ℕ → ℕ) where
  write_batch-GainsPrefix :
      (batch : List WalRequest) (a : WalAppender)
      → GainsPrefix a.writer (write_batch crc batch a).2.writer (log_of crc batch)
  unfolding write_batch encode_frame
  write_batch-GainsPrefix [] a = GainsPrefix-none [] (Gains-refl a.writer)
  write_batch-GainsPrefix (r ∷ rs) a =
      let parts = frame_parts crc r.event in
      let a' : WalAppender =
        advance r.event (record a { writer = (write_parts parts a.writer).1 }) in
      let later = write_batch-GainsPrefix rs a' in
      elim (Bool-cases (write_parts parts a.writer).0) [
        | inl good ↦ rw good (
            GainsPrefix-after (concat parts) (log_of crc rs) (write_parts-Gains parts a.writer good)
              later)
        | inr bad ↦ rw bad (
            GainsPrefix-widen (concat parts) (log_of crc rs)
              (write_parts-GainsPrefix parts a.writer))
      ]

-- The flush and the sync lose nothing, however they end.
synced-Gains : (f : Bool × Writer) → Gains f.1 (if_good sync_data f).1 []
synced-Gains (false, f) = Gains-refl f
synced-Gains (true, f) = (sync_data-Gains f).0

flushed-Gains : (r : Bool × Writer) → Gains r.1 (if_good sync_data (if_good flush_buf r)).1 []
flushed-Gains (false, w) = Gains-refl w
flushed-Gains (true, w) = Gains-trans (flush_buf-Gains w) (synced-Gains (flush_buf w))

GainsPrefix-then :
    {w w' w'' : Writer} {bytes : List ℕ}
    → GainsPrefix w w' bytes
    → Gains w' w'' []
    → GainsPrefix w w'' bytes
GainsPrefix-then g h = record { count = g.count; gains = rw append-nil at (Gains-trans g.gains h) }

finish-Gains :
    (r : Bool × List (WalRequest × ℕ) × WalAppender) → Gains r.2.writer (finish r).2.writer []
unfolding finish
finish-Gains (written, to_index, a) = flushed-Gains (written, a.writer)

module _ (crc : List ℕ → ℕ) where
  -- However the system calls end, a batch adds to the open file, with what is still in its buffer,
  -- a prefix of the frames of the batch and nothing else, and no other file changes.
  pub commit_batch-GainsPrefix :
      (batch : List WalRequest) (a : WalAppender)
      → GainsPrefix a.writer (commit_batch crc batch a).2.writer (log_of crc batch)
  unfolding commit_batch
  commit_batch-GainsPrefix batch a =
      GainsPrefix-then (write_batch-GainsPrefix crc batch a)
        (finish-Gains (write_batch crc batch a))

  pub process_failed :
      (batch : List WalRequest) (a : WalAppender)
      → (commit_batch crc batch a).0 ≡ false
      → (process_batch crc batch a).1 ≡ (commit_batch crc batch a).2
  unfolding process_batch
  process_failed batch a h = rw h refl
