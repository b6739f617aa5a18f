-- ===== src/Wal/Rotation.antt =====
-- The rotation of the log file in `WalAppender::run` of src/wal.rs, whether or not the next file can
-- be opened.
use edgewit.Prelude.{
  ℕ, ◌≡◌, ◌⊎◌, refl, ap, ◌∙◌, Bool, true, false, inl, inr, List, [], ◌∷◌, arith, append-nil,
  if◌then◌else◌,
}
use edgewit.Wal.Disk.{
  Writer, Outcome, done, failed, contents, append_to, flush_buf, flush_as, sync_data, sync_as,
  open_append, reopen, contents-append_to,
}
use edgewit.Wal.Appender.{WalAppender, rotate, rotated}

-- Of an empty buffer nothing is written.
pub flush_buf_noop : (w : Writer) → w.buffer ≡ [] → flush_buf w ≡ (true, w)
unfolding flush_buf flush_as
flush_buf_noop w e = ap (λ b. flush_as w.faults b w) e

pub record Keeps (w w' : Writer) : Type 0 where
  pub files : (j : ℕ) → contents j w'.files ≡ contents j w.files
  pub path : w'.path ≡ w.path
  pub buffer : w'.buffer ≡ w.buffer

pub sync_data-Keeps : (w : Writer) → Keeps w (sync_data w).1
unfolding sync_data
sync_data-Keeps w = by_faults w.faults
  where
    by_faults : (fs : List Outcome) → Keeps w (sync_as fs w).1
    by_faults [] = record { files = λ j. refl; path = refl; buffer = refl }
    by_faults (done ∷ fs) = record { files = λ j. refl; path = refl; buffer = refl }
    by_faults (failed k ∷ fs) = record { files = λ j. refl; path = refl; buffer = refl }

-- After the call that opens the file `path`: it is the writer's file, or the writer is as before.
pub record Opened (path : ℕ) (w : Writer) (r : Bool × Writer) : Type 0 where
  pub files : (j : ℕ) → contents j r.1.files ≡ contents j w.files
  pub buffer : r.1.buffer ≡ []
  pub file : r.1.path ≡ (if r.0 then path else w.path)

reopen-Opened :
    (path : ℕ) (w : Writer) (r : Bool × Writer)
    → Keeps w r.1
    → w.buffer ≡ []
    → Opened path w (reopen path r)
unfolding reopen
reopen-Opened path w (false, s) k e = record {
  files = k.files;
  buffer = k.buffer ∙ e;
  file = k.path;
}
reopen-Opened path w (true, s) k e = record {
  files = λ j. rw (flush_buf_noop s (k.buffer ∙ e)) (opened_contents j);
  buffer = refl;
  file = refl;
}
  where
    opened_contents : (j : ℕ) → contents j (append_to path [] s.files) ≡ contents j w.files
    opened_contents j =
        ground
          (arith, contents-append_to path j [] s.files, append-nil (contents j s.files), k.files j)

pub open_append-Opened :
    (path : ℕ) (w : Writer) → w.buffer ≡ [] → Opened path w (open_append path w)
unfolding open_append
open_append-Opened path w e = reopen-Opened path w (sync_data w) (sync_data-Keeps w) e

-- What a rotation changes: the writer's file, if the new one was opened, and then the size.
pub record Rotated (a b : WalAppender) : Type 0 where
  pub files : (j : ℕ) → contents j b.writer.files ≡ contents j a.writer.files
  pub buffer : b.writer.buffer ≡ []
  pub offset : b.current_offset ≡ a.current_offset
  pub file :
      ((b.writer.path ≡ a.current_offset) × (b.current_file_size ≡ 0))
      ⊎ ((b.writer.path ≡ a.writer.path) × (b.current_file_size ≡ a.current_file_size))

rotated-Rotated :
    (a : WalAppender) (w : Writer) (r : Bool × Writer)
    → Keeps a.writer w
    → Opened a.current_offset w r
    → Rotated a (rotated a r)
rotated-Rotated a w (true, s) k o = record {
  files = λ j. o.files j ∙ k.files j;
  buffer = o.buffer;
  offset = refl;
  file = inl (o.file, refl);
}
rotated-Rotated a w (false, s) k o = record {
  files = λ j. o.files j ∙ k.files j;
  buffer = o.buffer;
  offset = refl;
  file = inr (o.file ∙ k.path, refl);
}

pub rotate-Rotated : (a : WalAppender) → a.writer.buffer ≡ [] → Rotated a (rotate a)
unfolding rotate
rotate-Rotated a e = rw (flush_buf_noop a.writer e) (
    rotated-Rotated a (sync_data a.writer).1 (open_append a.current_offset (sync_data a.writer).1)
      (sync_data-Keeps a.writer)
      (open_append-Opened a.current_offset (sync_data a.writer).1
        ((sync_data-Keeps a.writer).buffer ∙ e)))
