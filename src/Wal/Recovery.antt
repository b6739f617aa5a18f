-- ===== src/Wal/Recovery.antt =====
-- Reading back, with `WalReader` of src/wal.rs, a log that its appender wrote.
use edgewit.Prelude.{
  ℕ, zero, suc, ◌≡◌, refl, ap, Option, none, some, List, [], ◌∷◌, Result, ok, err, length, All,
}
use edgewit.Wal.Frame.{IngestEvent, frame_len, add64}
use edgewit.Wal.Reader.{IoError, WalReader, next_frame, frame_or_eof, after_len, read}
use edgewit.Wal.Appender.{WalRequest}
use edgewit.Wal.RoundTrip.{Fits, next_frame-encode_frame}
use edgewit.Wal.Batches.{log_of, offsets}

unfoldable pub replay_on :
    (WalReader → List (IngestEvent × ℕ))
    → Result IoError (Option (IngestEvent × ℕ)) × WalReader
    → List (IngestEvent × ℕ)
replay_on rest (ok (some frame), r) = frame ∷ rest r
replay_on rest (ok none, r) = []
replay_on rest (err e, r) = []

-- A replay: the frames up to the end of the file or the first that cannot be read, at most `n`.
unfoldable pub replay : ℕ → WalReader → List (IngestEvent × ℕ)
unfolding replay_on
replay zero r = []
replay (suc n) r = let rest = replay n in replay_on rest (next_frame r)

-- The events with the offsets that the indexer is told.
abbrev pub forwarded : List (WalRequest × ℕ) → List (IngestEvent × ℕ)
forwarded [] = []
forwarded ((r, offset) ∷ rest) = (r.event, offset) ∷ forwarded rest

abbrev pub AllFit : List WalRequest → Type 0
AllFit = All (λ (r : WalRequest). Fits r.event)

pub next_frame_end :
    (offset : ℕ)
    → next_frame (record { file = []; current_offset = offset })
      ≡ (ok none, record { file = []; current_offset = offset })
unfolding next_frame frame_or_eof after_len read
next_frame_end offset = refl

module _ (crc : List ℕ → ℕ) where
  -- Reading the frames of a batch to the end, where every event fits in a frame, gives exactly the
  -- events and offsets that the appender hands to the indexer for the batch; one step more than
  -- the batch has requests is enough.
  pub replay-log_of :
      (batch : List WalRequest) (offset : ℕ)
      → AllFit batch
      → replay (suc (length batch)) (record { file = log_of crc batch; current_offset = offset })
        ≡ forwarded (offsets offset batch)
  unfolding replay
  replay-log_of [] offset fit = rw next_frame_end refl
  replay-log_of (r ∷ rs) offset (fits, fit) =
      rw (next_frame-encode_frame crc r.event (log_of crc rs) fits offset) (
        ap (◌∷◌ (r.event, add64 offset (frame_len r.event)))
          (replay-log_of rs (add64 offset (frame_len r.event)) fit))
