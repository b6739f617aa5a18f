-- ===== src/Wal/Tiling.antt =====
-- The names of the log files of src/wal.rs, which are offsets, and the sizes of the files.
use edgewit.Prelude.{
  ℕ, ◌+◌, ◌^◌, ◌≤◌, ◌<◌, ◌≡◌, ◌≢◌, ◌⊎◌, refl, sym, ap, ◌∙◌, Bool, true, false, inl, inr, List, [],
  ◌∷◌, ◌++◌, arith, length, leb, append-nil, if◌then◌else◌, ◌&&◌, length-append,
}
use edgewit.Wal.Frame.{frame_len, encode_frame, length-encode_frame, add64}
use edgewit.Wal.Disk.{contents}
use edgewit.Wal.Appender.{
  WalRequest, WalAppender, commit_batch, process_batch, rotate, max_file_size,
}
use edgewit.Wal.Batches.{log_of, end_offset, Committed, commit_batch-Committed}
use edgewit.Wal.Rotation.{Rotated, rotate-Rotated}
use edgewit.Wal.Answers.{Committed-contents}

pub record IsTiled (a : WalAppender) : Type 0 where
  pub flushed : a.writer.buffer ≡ []
  pub size : a.current_file_size ≡ length (contents a.writer.path a.writer.files)
  pub offset : a.writer.path + a.current_file_size ≡ a.current_offset
  pub above : (j : ℕ) → a.current_offset ≤ j → a.writer.path ≢ j → contents j a.writer.files ≡ []

module _ (crc : List ℕ → ℕ) where
  -- Offsets that do not wrap count the bytes of the frames.
  end_offset-eq :
      (o : ℕ) (batch : List WalRequest)
      → o + length (log_of crc batch) < 2 ^ 64
      → end_offset o batch ≡ o + length (log_of crc batch)
  end_offset-eq o [] h = omega arith
  end_offset-eq o (r ∷ rs) h =
      let e : length (log_of crc (r ∷ rs)) ≡ frame_len r.event + length (log_of crc rs) =
        length-append (encode_frame crc r.event) (log_of crc rs)
        ∙ ap (λ n. n + length (log_of crc rs)) (length-encode_frame crc r.event) in
      let s : add64 o (frame_len r.event) ≡ o + frame_len r.event = omega (arith, e) in
      rw s (omega (arith, e, end_offset-eq (o + frame_len r.event) rs (omega (arith, e))))

  module _ {batch : List WalRequest} {a last : WalAppender} {to_index : List (WalRequest × ℕ)}
      (t : IsTiled a) (c : Committed crc batch a to_index last)
      (bounded : a.current_offset + length (log_of crc batch) < 2 ^ 64) where
    committed_file :
        contents last.writer.path last.writer.files
        ≡ contents a.writer.path a.writer.files ++ log_of crc batch
    committed_file =
        ap (λ p. contents p last.writer.files) c.wrote.gains.path
        ∙ Committed-contents crc c
        ∙ ap (λ l. l ++ log_of crc batch) (rw (t.flushed, append-nil) refl)

    committed_offset : last.current_offset ≡ a.current_offset + length (log_of crc batch)
    committed_offset = c.wrote.offset ∙ end_offset-eq a.current_offset batch bounded

    committed_size : last.current_file_size ≡ a.current_file_size + length (log_of crc batch)
    committed_size =
        c.wrote.size ∙ end_offset-eq a.current_file_size batch (omega (arith, t.offset))

    committed-IsTiled : IsTiled last
    committed-IsTiled = record {
      flushed = c.flushed;
      size =
          committed_size
          ∙ ap (λ n. n + length (log_of crc batch)) t.size
          ∙ sym (ap length committed_file ∙ length-append _ (log_of crc batch));
      offset = omega (arith, committed_offset, committed_size, t.offset, c.wrote.gains.path);
      above = λ j le ne.
          c.wrote.gains.others j (λ q. ne (c.wrote.gains.path ∙ q))
          ∙ t.above j (omega (arith, committed_offset)) (λ q. ne (c.wrote.gains.path ∙ q));
    }

rotate-IsTiled : {a : WalAppender} → IsTiled a → 0 < a.current_file_size → IsTiled (rotate a)
rotate-IsTiled {a} t pos = by_file (rotate-Rotated a t.flushed) (rotate-Rotated a t.flushed).file
  where
    by_file :
        {b : WalAppender}
        → Rotated a b
        → ((b.writer.path ≡ a.current_offset) × (b.current_file_size ≡ 0))
          ⊎ ((b.writer.path ≡ a.writer.path) × (b.current_file_size ≡ a.current_file_size))
        → IsTiled b
    by_file {b} r (inl (path, size)) = record {
      flushed = r.buffer;
      size =
          size
          ∙ sym (
              ap length (
                ap (λ p. contents p b.writer.files) path
                ∙ r.files a.current_offset
                ∙ t.above a.current_offset (omega arith) (λ e. absurd (omega (arith, t.offset)))));
      offset = omega (arith, r.offset);
      above = λ j le ne.
          r.files j
          ∙ t.above j (omega (arith, r.offset)) (λ q. absurd (omega (arith, t.offset, r.offset)));
    }
    by_file {b} r (inr (path, size)) = record {
      flushed = r.buffer;
      size =
          size
          ∙ t.size
          ∙ sym (ap length (ap (λ p. contents p b.writer.files) path ∙ r.files a.writer.path));
      offset = omega (arith, r.offset, t.offset);
      above = λ j le ne. r.files j ∙ t.above j (omega (arith, r.offset)) (λ q. ne (path ∙ q));
    }

module _ (crc : List ℕ → ℕ) where
  maybe_rotate-IsTiled :
      {a : WalAppender} (b : Bool)
      → IsTiled a
      → (b ≡ true → 0 < a.current_file_size)
      → IsTiled (if b then rotate a else a)
  maybe_rotate-IsTiled true t pos = rotate-IsTiled t (pos refl)
  maybe_rotate-IsTiled false t pos = t

  -- A committed batch whose frames do not take the offset to 2 ^ 64 keeps the log tiled, whether
  -- or not the file is rotated: the open file is named by the offset of its first byte, its size
  -- is what the counter says, both add up to the current offset, and no other file from there on
  -- has bytes.
  pub process_batch-IsTiled :
      (batch : List WalRequest) (a : WalAppender)
      → IsTiled a
      → a.current_offset + length (log_of crc batch) < 2 ^ 64
      → (commit_batch crc batch a).0 ≡ true
      → IsTiled (process_batch crc batch a).1
  unfolding process_batch
  process_batch-IsTiled batch a t bounded good =
      let (success, to_index, last) = commit_batch crc batch a in
      maybe_rotate-IsTiled (success && leb max_file_size last.current_file_size)
        (committed-IsTiled crc t (commit_batch-Committed crc batch a good) bounded)
        (λ full. ground arith)
