-- ===== src/Wal/Answers.antt =====
-- What the clients of `WalAppender::run` in src/wal.rs are told, and what then is on disk.
use edgewit.Prelude.{
  ℕ, ◌≡◌, ◌⊎◌, refl, ◌∙◌, Bool, true, false, Bool-cases, inl, inr, List, [], ◌++◌, leb, All,
  append-nil, if◌then◌else◌, ◌&&◌,
}
use edgewit.Wal.Disk.{contents}
use edgewit.Wal.Appender.{
  WalRequest, WalAppender, commit_batch, process_batch, rotate, max_file_size,
}
use edgewit.Wal.Durability.{stored}
use edgewit.Wal.Batches.{
  log_of, offsets, acknowledgements, IsRefusal, answer-true, answer-false, Committed,
  commit_batch-Committed,
}
use edgewit.Wal.Rotation.{rotate-Rotated}

module _ (crc : List ℕ → ℕ) where
  pub Committed-contents :
      {batch : List WalRequest} {a last : WalAppender} {to_index : List (WalRequest × ℕ)}
      → Committed crc batch a to_index last
      → contents a.writer.path last.writer.files ≡ stored a.writer ++ log_of crc batch
  Committed-contents {batch} {a} {last} c =
      rw (c.wrote.gains.path, c.flushed, append-nil) at c.wrote.gains.gained

  maybe_rotate-contents :
      (b : Bool) (a : WalAppender) (j : ℕ)
      → a.writer.buffer ≡ []
      → contents j (if b then rotate a else a).writer.files ≡ contents j a.writer.files
  maybe_rotate-contents true a j e = (rotate-Rotated a e).files j
  maybe_rotate-contents false a j e = refl

  pub process_batch_success :
      (batch : List WalRequest) (a : WalAppender)
      → (commit_batch crc batch a).0 ≡ true
      → ((process_batch crc batch a).0 ≡ acknowledgements (offsets a.current_offset batch))
        × (contents a.writer.path (process_batch crc batch a).1.writer.files
            ≡ stored a.writer ++ log_of crc batch)
  unfolding process_batch
  process_batch_success batch a good =
      let c = commit_batch-Committed crc batch a good in
      let (success, to_index, last) = commit_batch crc batch a in
      (
        rw (good, answer-true, c.wrote.indexed) refl,
        maybe_rotate-contents (success && leb max_file_size last.current_file_size) last
              a.writer.path c.flushed
            ∙ Committed-contents c,
      )

  -- However the system calls end, one of two things holds after a batch: either every request is
  -- confirmed and then handed to the indexer, in order and with the offset behind its frame, and
  -- the log file has got all frames of the batch behind what it held; or no request is confirmed
  -- and none is handed on.
  pub process_batch_outcome :
      (batch : List WalRequest) (a : WalAppender)
      → ((process_batch crc batch a).0 ≡ acknowledgements (offsets a.current_offset batch))
          × (contents a.writer.path (process_batch crc batch a).1.writer.files
              ≡ stored a.writer ++ log_of crc batch)
        ⊎ All IsRefusal (process_batch crc batch a).0
  unfolding process_batch
  process_batch_outcome batch a = elim (Bool-cases (commit_batch crc batch a).0) [
    | inl good ↦ inl (process_batch_success batch a good)
    | inr bad ↦ inr (rw bad (answer-false (commit_batch crc batch a).1))
  ]
