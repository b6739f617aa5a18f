-- ===== src/Wal/Start.antt =====
-- The first state of `WalAppender::run` in src/wal.rs, on an empty directory and after a restart.
use edgewit.Prelude.{
  ℕ, ◌≡◌, ◌<◌, refl, sym, ap, ◌∙◌, Bool, true, false, List, [], length, some, arith,
}
use mathlib.Core.Path.{subst}
use mathlib.Core.Option.{some-injective}
use edgewit.Wal.Disk.{Writer, Files, Outcome, contents, open_append, sync_data}
use edgewit.Wal.Appender.{WalAppender, start, opened, made_dir}
use edgewit.Wal.Rotation.{open_append-Opened, Opened, sync_data-Keeps, Keeps}
use edgewit.Wal.Tiling.{IsTiled}

-- The counters, the file and the disk after the start at an offset.
pub record Started (offset : ℕ) (files : Files) (a : WalAppender) : Type 0 where
  pub current_offset : a.current_offset ≡ offset
  pub path : a.writer.path ≡ offset
  pub size : a.current_file_size ≡ length (contents offset files)
  pub buffer : a.writer.buffer ≡ []
  pub disk : (j : ℕ) → contents j a.writer.files ≡ contents j files

opened-Started :
    (offset : ℕ) (files : Files) (w : Writer) (r : Bool × Writer) (a : WalAppender)
    → ((j : ℕ) → contents j w.files ≡ contents j files)
    → Opened offset w r
    → opened offset r ≡ some a
    → Started offset files a
opened-Started offset files w (false, s) a same o h = absurd (cc h)
opened-Started offset files w (true, s) a same o h =
    subst (Started offset files) (some-injective _ _ h) (record {
      current_offset = refl;
      path = o.file;
      size = ap length (o.files offset ∙ same offset);
      buffer = o.buffer;
      disk = λ j. o.files j ∙ same j;
    })

made_dir-Started :
    (offset : ℕ) (w : Writer) (r : Bool × Writer) (a : WalAppender)
    → w.buffer ≡ []
    → Keeps w r.1
    → made_dir offset r ≡ some a
    → Started offset w.files a
made_dir-Started offset w (false, s) a e k h = absurd (cc h)
made_dir-Started offset w (true, s) a e k h =
    opened-Started offset w.files s (open_append offset s) a k.files
      (open_append-Opened offset s (k.buffer ∙ e)) h

pub start-Started :
    (offset : ℕ) (files : Files) (faults : List Outcome) (a : WalAppender)
    → start offset files faults ≡ some a
    → Started offset files a
unfolding start
start-Started offset files faults a h =
    let w : Writer = record { path = offset; buffer = []; files = files; faults = faults } in
    made_dir-Started offset w (sync_data w) a refl (sync_data-Keeps w) h

-- If no log file has any byte and the appender starts, it starts with a tiled log.
pub start-IsTiled :
    (offset : ℕ) (files : Files) (faults : List Outcome) (a : WalAppender)
    → ((j : ℕ) → contents j files ≡ [])
    → start offset files faults ≡ some a
    → IsTiled a
start-IsTiled offset files faults a none_yet h =
    let s = start-Started offset files faults a h in
    record {
      flushed = s.buffer;
      size = s.size ∙ sym (ap length (ap (λ p. contents p a.writer.files) s.path ∙ s.disk offset));
      offset = omega (arith, s.path, s.size, s.current_offset, ap length (none_yet offset));
      above = λ j le ne. s.disk j ∙ none_yet j;
    }

-- If the file of the start offset has bytes already, the log is not tiled when the appender
-- starts.
pub restart-not-IsTiled :
    (offset : ℕ) (files : Files) (faults : List Outcome) (a : WalAppender)
    → 0 < length (contents offset files)
    → start offset files faults ≡ some a
    → ¬ IsTiled a
restart-not-IsTiled offset files faults a old h t =
    let s = start-Started offset files faults a h in
    omega (arith, s.path, s.size, s.current_offset, t.offset)
