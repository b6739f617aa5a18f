-- ===== src/Wal/Tests.antt =====
-- Runs of the log of src/wal.rs on two small events.
use edgewit.Prelude.{
  ℕ, ◌<◌, ◌≡◌, ◌⊎◌, refl, true, List, [], ◌∷◌, ◌++◌, All, ascii, arith, ok, err, some, length, take,
}
use edgewit.Wal.Utf8.{is_utf8, utf8_from, lead}
use edgewit.Wal.Frame.{
  from_le_bytes, IngestEvent, encode_frame, frame_len, frame_parts, to_le_bytes, add64,
}
use edgewit.Wal.Reader.{
  frame_or_eof, after_len, frame_body, string_from_utf8, read, read_exact, next_frame,
  unexpected_eof,
}
use edgewit.Wal.Disk.{
  Files, Outcome, failed, contents, append_to, write_all, write_cold, flush_buf, flush_as,
  sync_data, sync_as, reopen, open_append,
}
use edgewit.Wal.Appender.{
  answer, WalRequest, WalAppender, write_batch, write_parts, commit_batch, process_batch, finish,
  run, start,
}
use edgewit.Wal.Durability.{stored}
use edgewit.Wal.Batches.{log_of, offsets, acknowledgements, IsRefusal}
use edgewit.Wal.RoundTrip.{Fits, next_frame-encode_frame}
use edgewit.Wal.TornWrites.{next_frame_torn}
use edgewit.Wal.Recovery.{replay, replay_on, forwarded, replay-log_of}
use edgewit.Wal.Reliable.{run_acknowledges}
use edgewit.Wal.Answers.{process_batch_outcome}
use edgewit.Wal.TornBatches.{GainsPrefix, commit_batch-GainsPrefix}
use edgewit.Wal.Tiling.{IsTiled, process_batch-IsTiled}
use edgewit.Wal.Start.{restart-not-IsTiled}
use edgewit.Wal.Ending.{Within, answered, responders, run_ends}
use edgewit.Wal.Crash.{process_batch-replay}
use edgewit.Wal.Crash.{process_batch-replay}
use edgewit.Prelude.{◌+◌}

abbrev pub checksum : List ℕ → ℕ
checksum bytes = length bytes

abbrev first_event : IngestEvent
first_event = record { index = ascii "logs"; payload = ascii "{}" }

abbrev second_event : IngestEvent
second_event = record { index = ascii "web"; payload = ascii "[]" }

abbrev two_requests : List WalRequest
two_requests =
    record { event = first_event; responder = 1 }
    ∷ record { event = second_event; responder = 2 }
    ∷ []

abbrev one_request : List WalRequest
one_request = record { event = second_event; responder = 3 } ∷ []

abbrev pub appender : List Outcome → WalAppender
appender faults = record {
  writer = record { path = 0; buffer = []; files = []; faults = faults };
  current_offset = 0;
  current_file_start_offset = 0;
  current_file_size = 0;
}

Fits-first : Fits first_event
unfolding is_utf8 utf8_from lead
Fits-first = record { index_len = omega arith; payload_len = omega arith; utf8 = refl }

Fits-second : Fits second_event
unfolding is_utf8 utf8_from lead
Fits-second = record { index_len = omega arith; payload_len = omega arith; utf8 = refl }

-- The frame of the first event.
first_frame :
    encode_frame checksum first_event
    ≡ 4 ∷ 0 ∷ ascii "logs" ++ (2 ∷ 0 ∷ 0 ∷ 0 ∷ ascii "{}" ++ (6 ∷ 0 ∷ 0 ∷ 0 ∷ []))
unfolding encode_frame frame_parts to_le_bytes
first_frame = refl

next_frame-encode_frame_example :
    next_frame (record { file = encode_frame checksum first_event ++ (9 ∷ []); current_offset = 5 })
    ≡ (
      ok (some (first_event, add64 5 (frame_len first_event))),
      record { file = 9 ∷ []; current_offset = add64 5 (frame_len first_event) },
    )
next_frame-encode_frame_example = next_frame-encode_frame checksum first_event (9 ∷ []) Fits-first 5

short : 7 < frame_len first_event
unfolding frame_len
short = omega arith

next_frame_torn_example :
    next_frame (record { file = take 7 (encode_frame checksum first_event); current_offset = 5 })
    ≡ (err unexpected_eof, record { file = []; current_offset = 5 })
next_frame_torn_example = next_frame_torn checksum first_event Fits-first 7 5 (omega arith) short

replay-log_of_example :
    replay 3 (record { file = log_of checksum two_requests; current_offset = 0 })
    ≡ forwarded (offsets 0 two_requests)
replay-log_of_example = replay-log_of checksum two_requests 0 (Fits-first, (Fits-second, tt))

run_acknowledges_example :
    (run checksum 2 two_requests (appender [])).0 ≡ acknowledgements (offsets 0 two_requests)
run_acknowledges_example = run_acknowledges checksum 2 two_requests (appender []) (omega arith) refl

process_batch_outcome_example :
    ((process_batch checksum two_requests (appender (failed 3 ∷ []))).0
        ≡ acknowledgements (offsets 0 two_requests))
      × (contents 0 (process_batch checksum two_requests (appender (failed 3 ∷ []))).1.writer.files
          ≡ stored (appender (failed 3 ∷ [])).writer ++ log_of checksum two_requests)
    ⊎ All IsRefusal (process_batch checksum two_requests (appender (failed 3 ∷ []))).0
process_batch_outcome_example =
    process_batch_outcome checksum two_requests (appender (failed 3 ∷ []))

commit_batch-GainsPrefix_example :
    GainsPrefix
      (appender (failed 3 ∷ [])).writer
      (commit_batch checksum two_requests (appender (failed 3 ∷ []))).2.writer
      (log_of checksum two_requests)
commit_batch-GainsPrefix_example =
    commit_batch-GainsPrefix checksum two_requests (appender (failed 3 ∷ []))

tiled : IsTiled (appender [])
unfolding contents
tiled = record { flushed = refl; size = refl; offset = refl; above = λ j l n. refl }

two_frames : length (log_of checksum two_requests) ≡ 31
unfolding encode_frame frame_parts to_le_bytes
two_frames = refl

committed : (commit_batch checksum two_requests (appender [])).0 ≡ true
unfolding commit_batch write_batch write_parts write_all write_cold flush_buf flush_as sync_data
    sync_as finish frame_parts to_le_bytes
committed = refl

process_batch-IsTiled_example : IsTiled (process_batch checksum two_requests (appender [])).1
process_batch-IsTiled_example =
    process_batch-IsTiled checksum two_requests (appender []) tiled (omega (arith, two_frames))
      committed

abbrev after_torn : WalAppender
after_torn = (process_batch checksum two_requests (appender (failed 3 ∷ []))).1

abbrev used_files : Files
used_files = (0, 1 ∷ 2 ∷ []) ∷ []

abbrev started : Files → WalAppender
started files = record {
  writer = record { path = 0; buffer = []; files = files; faults = [] };
  current_offset = 0;
  current_file_start_offset = 0;
  current_file_size = length (contents 0 files);
}

start_fresh : start 0 [] [] ≡ some (started ((0, []) ∷ []))
unfolding start sync_data sync_as open_append reopen flush_buf flush_as append_to contents
start_fresh = refl

start_used : start 0 used_files [] ≡ some (started used_files)
unfolding start sync_data sync_as open_append reopen flush_buf flush_as append_to contents
start_used = refl

no_bytes : (j : ℕ) → contents j [] ≡ []
unfolding contents
no_bytes j = refl

two_bytes : 0 < length (contents 0 used_files)
unfolding contents
two_bytes = omega arith

restart-not-IsTiled_example : ¬ IsTiled (started used_files)
restart-not-IsTiled_example =
    restart-not-IsTiled 0 used_files [] (started used_files) two_bytes start_used

run_ends_example :
    (run checksum (2 + 3) two_requests (appender (failed 4 ∷ []))
      ≡ run checksum 2 two_requests (appender (failed 4 ∷ [])))
    × Within
        (answered (run checksum 2 two_requests (appender (failed 4 ∷ []))).0)
        (responders two_requests)
run_ends_example = run_ends checksum 3 two_requests (appender (failed 4 ∷ []))

-- A log that holds one frame, and a write of 20 bytes of the next batch before the process dies.
abbrev crashing : WalAppender
crashing = record (appender (failed 20 ∷ [])) {
  writer = record {
    path = 0;
    buffer = [];
    files = (0, log_of checksum one_request) ∷ [];
    faults = failed 20 ∷ [];
  };
}

abbrev crashed : WalAppender
crashed = (process_batch checksum two_requests crashing).1

held : contents 0 crashing.writer.files ≡ log_of checksum one_request
unfolding contents
held = refl

-- The old event and the one whose frame is whole are read.
crashed_replay :
    replay 4 (record { file = contents 0 crashed.writer.files; current_offset = 0 })
    ≡ (second_event, 15) ∷ (first_event, 31) ∷ []
unfolding replay replay_on next_frame frame_or_eof after_len frame_body string_from_utf8 is_utf8
    utf8_from lead read read_exact from_le_bytes contents process_batch commit_batch write_batch
    write_parts write_all write_cold flush_buf flush_as sync_data sync_as finish answer frame_parts
    encode_frame to_le_bytes append_to
crashed_replay = refl

process_batch-replay_example :
    (k : ℕ) × (replay 4 (record { file = contents 0 crashed.writer.files; current_offset = 0 })
      ≡ forwarded (offsets 0 (one_request ++ take k two_requests)))
    × ((commit_batch checksum two_requests crashing).0 ≡ true → take k two_requests ≡ two_requests)
process_batch-replay_example =
    process_batch-replay checksum one_request crashing refl held two_requests 0 (Fits-second, tt)
      (Fits-first, (Fits-second, tt))
