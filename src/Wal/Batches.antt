-- ===== src/Wal/Batches.antt =====
-- What one batch of `WalAppender::run` in src/wal.rs does when all its writes succeed, and what is
-- sent to whom.
use edgewit.Prelude.{
  ℕ, ◌≡◌, refl, ap, ◌∙◌, Bool, true, false, Bool-cases, inl, inr, List, [], ◌∷◌, ◌++◌, ok, err, All,
  append-nil,
}
use edgewit.Wal.Frame.{frame_parts, frame_len, encode_frame, add64}
use edgewit.Wal.Disk.{Writer, flush_buf, sync_data}
use edgewit.Wal.Appender.{
  WalRequest, WalAppender, Output, respond, forward, write_parts, write_batch, commit_batch, answer,
  if_good, finish, advance,
}
use edgewit.Wal.Durability.{
  Gains, Gains-refl, Gains-trans, write_parts-Gains, flush_buf-Gains, flush_buf_empty,
  sync_data-Gains,
}

-- The frames of a batch, one behind the other.
abbrev pub log_of : (List ℕ → ℕ) → List WalRequest → List ℕ
log_of crc [] = []
log_of crc (r ∷ rs) = encode_frame crc r.event ++ log_of crc rs

-- Each request with the offset behind its frame, from a first offset on.
abbrev pub offsets : ℕ → List WalRequest → List (WalRequest × ℕ)
offsets o [] = []
offsets o (r ∷ rs) = (r, add64 o (frame_len r.event)) ∷ offsets (add64 o (frame_len r.event)) rs

abbrev pub end_offset : ℕ → List WalRequest → ℕ
end_offset o [] = o
end_offset o (r ∷ rs) = end_offset (add64 o (frame_len r.event)) rs

-- What is sent for requests that are safely in the log.
abbrev pub acknowledgements : List (WalRequest × ℕ) → List Output
acknowledgements [] = []
acknowledgements ((r, offset) ∷ rest) =
    respond r.responder (ok tt)
    ∷ forward (record { event = r.event; wal_offset = offset })
    ∷ acknowledgements rest

-- Not a confirmation, and nothing for the indexer.
abbrev pub IsRefusal : Output → Type 0
IsRefusal (respond id (ok u)) = ⊥
IsRefusal (respond id (err e)) = Unit
IsRefusal (forward event) = ⊥

pub answer-true : (l : List (WalRequest × ℕ)) → answer true l ≡ acknowledgements l
unfolding answer
answer-true [] = refl
answer-true ((r, o) ∷ l) = rw (answer-true l) refl

pub answer-false : (l : List (WalRequest × ℕ)) → All IsRefusal (answer false l)
unfolding answer
answer-false [] = tt
answer-false ((r, o) ∷ l) = (tt, answer-false l)

module _ (crc : List ℕ → ℕ) where
  -- The requests to answer and the state after the loop over the batch, when no write failed.
  pub record Wrote (batch : List WalRequest) (a : WalAppender) (to_index : List (WalRequest × ℕ))
      (last : WalAppender) : Type 0 where
    pub gains : Gains a.writer last.writer (log_of crc batch)
    pub indexed : to_index ≡ offsets a.current_offset batch
    pub offset : last.current_offset ≡ end_offset a.current_offset batch
    pub size : last.current_file_size ≡ end_offset a.current_file_size batch
    pub start : last.current_file_start_offset ≡ a.current_file_start_offset

  write_batch-Wrote :
      (batch : List WalRequest) (a : WalAppender)
      → (write_batch crc batch a).0 ≡ true
      → Wrote batch a (write_batch crc batch a).1 (write_batch crc batch a).2
  unfolding write_batch encode_frame
  write_batch-Wrote [] a h = record {
    gains = Gains-refl a.writer;
    indexed = refl;
    offset = refl;
    size = refl;
    start = refl;
  }
  write_batch-Wrote (r ∷ rs) a h =
      elim (Bool-cases (write_parts (frame_parts crc r.event) a.writer).0) [
        | inl good ↦
            let a' : WalAppender =
              advance r.event
                (record a { writer = (write_parts (frame_parts crc r.event) a.writer).1 }) in
            let ih : Wrote rs a' (write_batch crc rs a').1 (write_batch crc rs a').2 =
              write_batch-Wrote rs a' (rw good at h) in
            rw good (record {
              gains =
                  Gains-trans (write_parts-Gains (frame_parts crc r.event) a.writer good) ih.gains;
              indexed = ap (◌∷◌ (r, a'.current_offset)) ih.indexed;
              offset = ih.offset;
              size = ih.size;
              start = ih.start;
            })
        | inr bad ↦ absurd (cc (rw bad at h))
      ]

  -- After the flush and the sync nothing is left in the buffer.
  pub record Committed (batch : List WalRequest) (a : WalAppender)
      (to_index : List (WalRequest × ℕ)) (last : WalAppender) : Type 0 where
    pub wrote : Wrote batch a to_index last
    pub flushed : last.writer.buffer ≡ []

  synced :
      {batch : List WalRequest} {a : WalAppender} (to_index : List (WalRequest × ℕ))
      (last : WalAppender) (f : Bool × Writer)
      → Wrote batch a to_index last
      → Gains last.writer f.1 []
      → (f.0 ≡ true → f.1.buffer ≡ [])
      → (if_good sync_data f).0 ≡ true
      → Committed batch a to_index (record last { writer = (if_good sync_data f).1 })
  synced to_index last (false, f) w g e h = absurd (cc h)
  synced to_index last (true, f) w g e h = record {
    wrote = record {
      gains =
          rw append-nil at
            (Gains-trans w.gains (rw append-nil at (Gains-trans g (sync_data-Gains f).0)));
      indexed = w.indexed;
      offset = w.offset;
      size = w.size;
      start = w.start;
    };
    flushed = (sync_data-Gains f).1 ∙ e refl;
  }

  finish-Committed :
      {batch : List WalRequest} {a : WalAppender} (r : Bool × List (WalRequest × ℕ) × WalAppender)
      → (r.0 ≡ true → Wrote batch a r.1 r.2)
      → (finish r).0 ≡ true
      → Committed batch a (finish r).1 (finish r).2
  unfolding finish
  finish-Committed (false, to_index, last) w h = absurd (cc h)
  finish-Committed (true, to_index, last) w h =
      synced to_index last (flush_buf last.writer) (w refl) (flush_buf-Gains last.writer)
        (flush_buf_empty last.writer) h

  pub commit_batch-Committed :
      (batch : List WalRequest) (a : WalAppender)
      → (commit_batch crc batch a).0 ≡ true
      → Committed batch a (commit_batch crc batch a).1 (commit_batch crc batch a).2
  unfolding commit_batch
  commit_batch-Committed batch a h =
      finish-Committed (write_batch crc batch a) (write_batch-Wrote batch a) h
