-- ===== src/Wal/Reliable.antt =====
-- `WalAppender::run` of src/wal.rs on a disk that works.
use edgewit.Prelude.{
  ℕ, zero, suc, ◌-◌, ◌≤◌, ◌≡◌, refl, sym, ap, ◌∙◌, Bool, true, false, Bool-cases, inl, inr, List,
  [], ◌∷◌, ◌++◌, arith, length, leb, ltb, length-append, if◌then◌else◌, ◌&&◌,
}
use edgewit.Wal.Frame.{frame_parts, frame_len, add64}
use edgewit.Wal.Disk.{
  Writer, Outcome, done, failed, os_write, os_write_as, write_cold, write_all, flush_as, flush_buf,
  sync_as, sync_data, open_append, reopen, capacity,
}
use edgewit.Wal.Appender.{
  WalRequest, WalAppender, drain, run, process_batch, commit_batch, write_batch, write_parts,
  finish, rotate, if_good, rotated, advance, max_file_size,
}
use edgewit.Wal.Batches.{offsets, end_offset, acknowledgements, commit_batch-Committed}
use edgewit.Wal.Answers.{process_batch_success}
use edgewit.Wal.Rotation.{rotate-Rotated}
use edgewit.Wal.Channel.{drain-Drained}

-- The disk works: no system call fails.
abbrev pub IsReliable : Writer → Type 0
IsReliable w = w.faults ≡ []

abbrev Works : Bool × Writer → Type 0
Works r = (r.0 ≡ true) × IsReliable r.1

flush_as-Works :
    (fs : List Outcome) (buffer : List ℕ) (w : Writer)
    → fs ≡ []
    → IsReliable w
    → Works (flush_as fs buffer w)
unfolding flush_as
flush_as-Works fs [] w e h = (refl, h)
flush_as-Works [] (b ∷ bs) w e h = (refl, refl)
flush_as-Works (done ∷ fs) (b ∷ bs) w e h = cc
flush_as-Works (failed k ∷ fs) (b ∷ bs) w e h = cc

flush_buf-Works : (w : Writer) → IsReliable w → Works (flush_buf w)
unfolding flush_buf
flush_buf-Works w h = flush_as-Works w.faults w.buffer w h h

sync_data-Works : (w : Writer) → IsReliable w → Works (sync_data w)
unfolding sync_data
sync_data-Works w h = by_faults w.faults h
  where
    by_faults : (fs : List Outcome) → fs ≡ [] → Works (sync_as fs w)
    by_faults [] e = (refl, h)
    by_faults (done ∷ fs) e = cc
    by_faults (failed k ∷ fs) e = cc

os_write-Works : (bytes : List ℕ) (w : Writer) → IsReliable w → Works (os_write bytes w)
unfolding os_write
os_write-Works bytes w h = by_faults w.faults h
  where
    by_faults : (fs : List Outcome) → fs ≡ [] → Works (os_write_as fs bytes w)
    by_faults [] e = (refl, refl)
    by_faults (done ∷ fs) e = cc
    by_faults (failed k ∷ fs) e = cc

write_cold-Works : (bytes : List ℕ) (r : Bool × Writer) → Works r → Works (write_cold bytes r)
unfolding write_cold
write_cold-Works bytes (false, w) (e, h) = cc
write_cold-Works bytes (true, w) (e, h) = elim (Bool-cases (leb capacity (length bytes))) [
  | inl big ↦ rw big (os_write-Works bytes w h)
  | inr small ↦ rw small (refl, h)
]

write_all-Works : (bytes : List ℕ) (w : Writer) → IsReliable w → Works (write_all bytes w)
unfolding write_all
write_all-Works bytes w h = elim (Bool-cases (ltb (length bytes) (capacity - length w.buffer))) [
  | inl fits ↦ rw fits (refl, h)
  | inr full ↦ elim (Bool-cases (ltb (capacity - length w.buffer) (length bytes))) [
    | inl over ↦ rw (full, over) (write_cold-Works bytes (flush_buf w) (flush_buf-Works w h))
    | inr exact ↦ rw (full, exact) (write_cold-Works bytes (true, w) (refl, h))
  ]
]

write_parts-Works :
    (parts : List (List ℕ)) (w : Writer) → IsReliable w → Works (write_parts parts w)
unfolding write_parts
write_parts-Works [] w h = (refl, h)
write_parts-Works (p ∷ ps) w h =
    rw ((write_all-Works p w h).0)
      (write_parts-Works ps (write_all p w).1 (write_all-Works p w h).1)

abbrev BatchWorks : Bool × List (WalRequest × ℕ) × WalAppender → Type 0
BatchWorks r = (r.0 ≡ true) × IsReliable r.2.writer

module _ (crc : List ℕ → ℕ) where
  write_batch-Works :
      (batch : List WalRequest) (a : WalAppender)
      → IsReliable a.writer
      → BatchWorks (write_batch crc batch a)
  unfolding write_batch
  write_batch-Works [] a h = (refl, h)
  write_batch-Works (r ∷ rs) a h =
      let parts = frame_parts crc r.event in
      let (good, still) = write_parts-Works parts a.writer h in
      rw good (
        write_batch-Works rs
          (advance r.event (record a { writer = (write_parts parts a.writer).1 })) still)

if_good-Works :
    (step : Writer → Bool × Writer) (r : Bool × Writer)
    → ((w : Writer) → IsReliable w → Works (step w))
    → Works r
    → Works (if_good step r)
if_good-Works step (false, w) s (e, h) = cc
if_good-Works step (true, w) s (e, h) = s w h

open_append-Works : (path : ℕ) (w : Writer) → IsReliable w → Works (open_append path w)
unfolding open_append
open_append-Works path w h = reopened (sync_data w) (sync_data-Works w h)
  where
    reopened : (r : Bool × Writer) → Works r → Works (reopen path r)
    reopened (false, s) (e, k) = cc
    reopened (true, s) (e, k) = (refl, unfold reopen in (flush_buf-Works s k).1)

finish-Works :
    (r : Bool × List (WalRequest × ℕ) × WalAppender) → BatchWorks r → BatchWorks (finish r)
unfolding finish
finish-Works (written, to_index, a) h =
    if_good-Works sync_data (if_good flush_buf (written, a.writer)) sync_data-Works
      (if_good-Works flush_buf (written, a.writer) flush_buf-Works h)

rotated-IsReliable :
    (a : WalAppender) (r : Bool × Writer) → Works r → IsReliable (rotated a r).writer
rotated-IsReliable a (true, w) h = h.1
rotated-IsReliable a (false, w) h = h.1

rotate-IsReliable : (a : WalAppender) → IsReliable a.writer → IsReliable (rotate a).writer
unfolding rotate
rotate-IsReliable a h =
    let flushed = (flush_buf a.writer).1 in
    let synced = (sync_data flushed).1 in
    rotated-IsReliable a (open_append a.current_offset synced) (
      open_append-Works a.current_offset synced
        (sync_data-Works flushed (flush_buf-Works a.writer h).1).1)

maybe_rotate-IsReliable :
    (b : Bool) (a : WalAppender)
    → IsReliable a.writer
    → IsReliable (if b then rotate a else a).writer
maybe_rotate-IsReliable true a h = rotate-IsReliable a h
maybe_rotate-IsReliable false a h = h

maybe_rotate_offset :
    (b : Bool) (a : WalAppender)
    → a.writer.buffer ≡ []
    → (if b then rotate a else a).current_offset ≡ a.current_offset
maybe_rotate_offset true a e = (rotate-Rotated a e).offset
maybe_rotate_offset false a e = refl

module _ (crc : List ℕ → ℕ) where
  commit_batch-Works :
      (batch : List WalRequest) (a : WalAppender)
      → IsReliable a.writer
      → BatchWorks (commit_batch crc batch a)
  unfolding commit_batch
  commit_batch-Works batch a h =
      finish-Works (write_batch crc batch a) (write_batch-Works crc batch a h)

  process_batch-IsReliable :
      (batch : List WalRequest) (a : WalAppender)
      → IsReliable a.writer
      → IsReliable (process_batch crc batch a).1.writer
  unfolding process_batch
  process_batch-IsReliable batch a h =
      let (success, to_index, last) = commit_batch crc batch a in
      maybe_rotate-IsReliable (success && leb max_file_size last.current_file_size) last
        (commit_batch-Works batch a h).1

  process_batch_offset :
      (batch : List WalRequest) (a : WalAppender)
      → IsReliable a.writer
      → (process_batch crc batch a).1.current_offset ≡ end_offset a.current_offset batch
  unfolding process_batch
  process_batch_offset batch a h =
      let (success, to_index, last) = commit_batch crc batch a in
      let c = commit_batch-Committed crc batch a (commit_batch-Works batch a h).0 in
      maybe_rotate_offset (success && leb max_file_size last.current_file_size) last c.flushed
      ∙ c.wrote.offset

acknowledgements-append :
    (xs ys : List WalRequest) (o : ℕ)
    → acknowledgements (offsets o (xs ++ ys))
      ≡ acknowledgements (offsets o xs) ++ acknowledgements (offsets (end_offset o xs) ys)
acknowledgements-append [] ys o = refl
acknowledgements-append (r ∷ xs) ys o =
    rw (acknowledgements-append xs ys (add64 o (frame_len r.event))) refl

module _ (crc : List ℕ → ℕ) where
  -- If no system call fails, the loop, given as many rounds as the channel has requests, confirms
  -- every request of the channel and hands it to the indexer, in order and with the offset behind
  -- its frame, however the requests fall into batches and files.
  pub run_acknowledges :
      (n : ℕ) (queue : List WalRequest) (a : WalAppender)
      → length queue ≤ n
      → IsReliable a.writer
      → (run crc n queue a).0 ≡ acknowledgements (offsets a.current_offset queue)
  unfolding run
  run_acknowledges zero [] a le h = refl
  run_acknowledges zero (r ∷ queue) a le h = absurd (omega arith)
  run_acknowledges (suc n) [] a le h = refl
  run_acknowledges (suc n) (r ∷ queue) a le h =
      let d = drain-Drained r queue in
      let batch = (drain (r ∷ []) queue).0 in
      let rest = (drain (r ∷ []) queue).1 in
      let a' = (process_batch crc batch a).1 in
      let good = (commit_batch-Works crc batch a h).0 in
      let shorter : length rest ≤ n =
        omega (arith, length-append batch rest, ap length d.order, d.some_taken) in
      let later = run_acknowledges n rest a' shorter (process_batch-IsReliable crc batch a h) in
      ap (λ l. l ++ (run crc n rest a').0) (process_batch_success crc batch a good).0
      ∙ ap (λ l. acknowledgements (offsets a.current_offset batch) ++ l)
          (later ∙ ap (λ o. acknowledgements (offsets o rest)) (process_batch_offset crc batch a h))
      ∙ sym (acknowledgements-append batch rest a.current_offset)
      ∙ ap (λ q. acknowledgements (offsets a.current_offset q)) d.order
