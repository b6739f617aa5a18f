-- ===== src/Wal/Appender.antt =====
-- `WalAppender` of src/wal.rs: batches of requests go to the log, and only then to their clients
-- and to the indexer.
use edgewit.Prelude.{
  ℕ, zero, suc, ◌*◌, Bool, true, false, ◌&&◌, Option, none, some, List, [], ◌∷◌, ◌++◌, Text, ascii,
  Result, ok, err, length, leb, if◌then◌else◌,
}
use edgewit.Wal.Frame.{IngestEvent, frame_parts, frame_len, add64}
use edgewit.Wal.Disk.{
  Writer, Files, Outcome, contents, write_all, flush_buf, sync_data, open_append,
}

-- `WalRequest`; a number stands for the responder's channel.
pub record WalRequest : Type 0 where
  pub event : IngestEvent
  pub responder : ℕ

-- `IndexerEvent` of src/indexer.rs
pub record IndexerEvent : Type 0 where
  pub event : IngestEvent
  pub wal_offset : ℕ

-- What the appender sends, in order: to a responder, and to the indexer's channel.
pub data Output : Type 0 where
  respond : ℕ → Result Text (Unit {0}) → Output
  forward : IndexerEvent → Output

pub record WalAppender : Type 0 where
  pub writer : Writer
  pub current_offset : ℕ
  pub current_file_start_offset : ℕ
  pub current_file_size : ℕ

-- The beginning of `run`: the directory is made and the file of the current offset is opened.
-- `none` is the early return.
abbrev pub opened : ℕ → Bool × Writer → Option WalAppender
opened offset (true, w) = some (record {
  writer = w;
  current_offset = offset;
  current_file_start_offset = offset;
  current_file_size = length (contents offset w.files);
})
opened offset (false, w) = none

abbrev pub made_dir : ℕ → Bool × Writer → Option WalAppender
made_dir offset (true, w) = opened offset (open_append offset w)
made_dir offset (false, w) = none

unfoldable pub start : ℕ → Files → List Outcome → Option WalAppender
start offset files faults =
    made_dir offset
      (sync_data (record { path = offset; buffer = []; files = files; faults = faults }))

abbrev pub max_batch : ℕ
max_batch = 5000

-- The inner loop: `try_recv` until the channel is empty or the batch has its limit.
unfoldable pub drain : List WalRequest → List WalRequest → List WalRequest × List WalRequest
drain batch [] = (batch, [])
drain batch (r ∷ queue) =
    let batch' = batch ++ r ∷ [] in
    if leb max_batch (length batch') then (batch', queue) else drain batch' queue

-- `write_all` of one part after another, until one fails.
unfoldable pub write_parts : List (List ℕ) → Writer → Bool × Writer
write_parts [] w = (true, w)
write_parts (p ∷ ps) w =
    let (good, w') = write_all p w in if good then write_parts ps w' else (false, w')

-- The counters after a whole frame.
abbrev pub advance : IngestEvent → WalAppender → WalAppender
advance e a = record a {
  current_offset = add64 a.current_offset (frame_len e);
  current_file_size = add64 a.current_file_size (frame_len e);
}

module _ (crc : List ℕ → ℕ) where
  -- The loop over the batch: the flag `batch_success`, `to_index`, and the new state. It breaks at the
  -- first frame that cannot be written.
  unfoldable pub write_batch :
      List WalRequest → WalAppender → Bool × List (WalRequest × ℕ) × WalAppender
  write_batch [] a = (true, [], a)
  write_batch (r ∷ rs) a =
      let (good, w) = write_parts (frame_parts crc r.event) a.writer in
      let a' = advance r.event (record a { writer = w }) in
      let (success, to_index, last) = write_batch rs a' in
      if good
      then (success, (r, a'.current_offset) ∷ to_index, last)
      else (false, [], record a { writer = w })

abbrev pub max_file_size : ℕ
max_file_size = 32 * 1024 * 1024

-- Later steps are taken only while the flag is up.
abbrev pub if_good : (Writer → Bool × Writer) → Bool × Writer → Bool × Writer
if_good step (true, w) = step w
if_good step (false, w) = (false, w)

abbrev pub rotated : WalAppender → Bool × Writer → WalAppender
rotated a (true, w) = record a {
  writer = w;
  current_file_start_offset = a.current_offset;
  current_file_size = 0;
}
rotated a (false, w) = record a { writer = w; current_file_start_offset = a.current_offset }

-- The results of this flush and this sync are ignored.
unfoldable pub rotate : WalAppender → WalAppender
rotate a =
    let (_, flushed) = flush_buf a.writer in
    let (_, synced) = sync_data flushed in rotated a (open_append a.current_offset synced)

unfoldable pub failure : Text
failure = ascii "Failed to safely write to WAL"

unfoldable pub answer : Bool → List (WalRequest × ℕ) → List Output
answer success [] = []
answer true ((r, offset) ∷ rest) =
    respond r.responder (ok tt)
    ∷ forward (record { event = r.event; wal_offset = offset })
    ∷ answer true rest
answer false ((r, offset) ∷ rest) = respond r.responder (err failure) ∷ answer false rest

-- The flush and the sync that end a batch, each only if all went well before.
unfoldable pub finish :
    Bool × List (WalRequest × ℕ) × WalAppender → Bool × List (WalRequest × ℕ) × WalAppender
finish (written, to_index, a) =
    let (success, w) = if_good sync_data (if_good flush_buf (written, a.writer)) in
    (success, to_index, record a { writer = w })

module _ (crc : List ℕ → ℕ) where
  -- The writes, the flush and the sync of one batch.
  unfoldable pub commit_batch :
      List WalRequest → WalAppender → Bool × List (WalRequest × ℕ) × WalAppender
  commit_batch batch a = finish (write_batch crc batch a)

  unfoldable pub process_batch : List WalRequest → WalAppender → List Output × WalAppender
  process_batch batch a =
      let (success, to_index, a') = commit_batch batch a in
      (
        answer success to_index,
        if success && leb max_file_size a'.current_file_size then rotate a' else a',
      )

  -- The outer loop over a channel that holds `queue`, for at most `n` batches.
  unfoldable pub run : ℕ → List WalRequest → WalAppender → List Output × WalAppender
  run zero queue a = ([], a)
  run (suc n) [] a = ([], a)
  run (suc n) (r ∷ queue) a =
      let (batch, queue') = drain (r ∷ []) queue in
      let (sent, a') = process_batch batch a in
      let (later, last) = run n queue' a' in (sent ++ later, last)
