-- ===== src/Wal/Crash.antt =====
-- What reading the log of src/wal.rs again gives after the writing of a batch stopped anywhere.
use edgewit.Prelude.{
  All-append, ◌≤◌, ℕ, zero, suc, ◌-◌, ◌≡◌, refl, sym, ap, ◌∙◌, true, false, Bool-cases, inl, inr,
  List, [], ◌∷◌, ◌++◌, arith, length, append-nil, append_assoc, take, take_append_ge, dec_lt,
}
use edgewit.Wal.Frame.{encode_frame, frame_len, length-encode_frame, add64}
use edgewit.Wal.Disk.{contents}
use edgewit.Wal.Appender.{WalRequest, WalAppender, commit_batch, process_batch}
use edgewit.Wal.RoundTrip.{next_frame-encode_frame}
use edgewit.Wal.TornWrites.{next_frame_torn}
use edgewit.Wal.Durability.{stored}
use edgewit.Wal.Batches.{log_of, offsets}
use edgewit.Wal.Answers.{process_batch_success}
use edgewit.Wal.TornBatches.{commit_batch-GainsPrefix, process_failed, take_all}
use edgewit.Wal.Growth.{commit_batch-Grows}
use edgewit.Wal.Recovery.{replay, replay_on, forwarded, AllFit, next_frame_end, replay-log_of}

append_cancel : (xs ys zs : List ℕ) → xs ++ ys ≡ xs ++ zs → ys ≡ zs
append_cancel [] ys zs e = e
append_cancel (x ∷ xs) ys zs e = append_cancel xs ys zs (cc e)

take_append_le : (n : ℕ) (xs ys : List ℕ) → n ≤ length xs → take n (xs ++ ys) ≡ take n xs
take_append_le zero xs ys h = refl
take_append_le (suc n) [] ys h = absurd (omega arith)
take_append_le (suc n) (x ∷ xs) ys h = ap (◌∷◌ x) (take_append_le n xs ys (omega arith))

-- What a beginning of a beginning of `ys` ends with is not needed to find it in `ys`.
take_of_append : (n : ℕ) (xs us ys : List ℕ) → xs ++ us ≡ take n ys → (m : ℕ) × (xs ≡ take m ys)
take_of_append n [] us ys e = (0, refl)
take_of_append zero (x ∷ xs) us ys e = cc e
take_of_append (suc n) (x ∷ xs) us [] e = cc e
take_of_append (suc n) (x ∷ xs) us (y ∷ ys) e =
    let (m, later) = take_of_append n xs us ys (cc e) in (suc m, cc (later, e))

module _ (crc : List ℕ → ℕ) where
  log_of-append : (xs ys : List WalRequest) → log_of crc (xs ++ ys) ≡ log_of crc xs ++ log_of crc ys
  log_of-append [] ys = refl
  log_of-append (x ∷ xs) ys =
      rw (log_of-append xs ys)
        (sym (append_assoc (encode_frame crc x.event) (log_of crc xs) (log_of crc ys)))

  -- The frames that are whole in a log that was cut are read, and the reading ends there.
  replay-take :
      (batch : List WalRequest) (n offset : ℕ)
      → AllFit batch
      → (k : ℕ) × (replay
            (suc (length batch))
            (record { file = take n (log_of crc batch); current_offset = offset })
          ≡ forwarded (offsets offset (take k batch)))
  unfolding replay replay_on
  replay-take [] zero offset fit = (0, rw (next_frame_end offset) refl)
  replay-take [] (suc n) offset fit = (0, rw (next_frame_end offset) refl)
  replay-take (r ∷ rs) zero offset fit = (0, rw (next_frame_end offset) refl)
  replay-take (r ∷ rs) (suc n) offset (fits, fit) =
      let next = add64 offset (frame_len r.event) in
      let (k, later) = replay-take rs (suc n - frame_len r.event) next fit in
      elim (dec_lt (suc n) (frame_len r.event)) [
        | yes short ↦ (
          0,
          rw
              (
                take_append_le (suc n) (encode_frame crc r.event) (log_of crc rs)
                    (omega (arith, length-encode_frame crc r.event)),
                next_frame_torn crc r.event fits (suc n) offset (omega arith) short,
              )
              refl,
        )
        | no long ↦ (
          suc k,
          rw
              (
                take_append_ge (suc n) (encode_frame crc r.event) (log_of crc rs)
                    (omega (arith, length-encode_frame crc r.event)),
                length-encode_frame crc r.event,
                next_frame-encode_frame crc r.event
                    (take (suc n - frame_len r.event) (log_of crc rs)) fits offset,
              )
              (ap (◌∷◌ (r.event, next)) later),
        )
      ]

  -- The same behind frames that are whole.
  replay_behind :
      (prev batch : List WalRequest) (n offset : ℕ)
      → AllFit prev
      → AllFit batch
      → (k : ℕ) × (replay (suc (length (prev ++ batch))) (record {
        file = log_of crc prev ++ take n (log_of crc batch);
        current_offset = offset;
      })
          ≡ forwarded (offsets offset (prev ++ take k batch)))
  unfolding replay replay_on
  replay_behind [] batch n offset f g = replay-take batch n offset g
  replay_behind (r ∷ rs) batch n offset (fits, f) g =
      let next = add64 offset (frame_len r.event) in
      let (k, later) = replay_behind rs batch n next f g in
      (
        k,
        rw
            (
              append_assoc (encode_frame crc r.event) (log_of crc rs) (take n (log_of crc batch)),
              next_frame-encode_frame crc r.event (log_of crc rs ++ take n (log_of crc batch)) fits
                  offset,
            )
            (ap (◌∷◌ (r.event, next)) later),
      )

  module _ (prev : List WalRequest) (a : WalAppender) (empty : a.writer.buffer ≡ [])
      (held : contents a.writer.path a.writer.files ≡ log_of crc prev) where
    stored_before : stored a.writer ≡ log_of crc prev
    stored_before = rw (empty, append-nil) held

    -- However the system calls end, the file has the frames it had and a beginning of the new ones.
    left_on_disk :
        (batch : List WalRequest)
        → (commit_batch crc batch a).0 ≡ false
        → (n : ℕ) × (contents a.writer.path (process_batch crc batch a).1.writer.files
            ≡ log_of crc prev ++ take n (log_of crc batch))
    left_on_disk batch bad =
        let w = (commit_batch crc batch a).2.writer in
        let g = commit_batch-Grows crc batch a in
        let p = commit_batch-GainsPrefix crc batch a in
        let grown : contents w.path w.files ≡ log_of crc prev ++ g.more =
          g.grown ∙ ap (λ l. l ++ g.more) held in
        let whole : g.more ++ w.buffer ≡ take p.count (log_of crc batch) =
          append_cancel (log_of crc prev) (g.more ++ w.buffer) (take p.count (log_of crc batch)) (
            sym (append_assoc (log_of crc prev) g.more w.buffer)
            ∙ ap (λ l. l ++ w.buffer) (sym grown)
            ∙ p.gains.gained
            ∙ ap (λ l. l ++ take p.count (log_of crc batch)) stored_before) in
        let (n, e) = take_of_append p.count g.more w.buffer (log_of crc batch) whole in
        (
          n,
          ap (λ (b : WalAppender). contents a.writer.path b.writer.files)
                (process_failed crc batch a bad)
              ∙ ap (λ q. contents q w.files) (sym g.path)
              ∙ grown
              ∙ ap (λ l. log_of crc prev ++ l) e,
        )

    -- If every event fits in a frame and a batch is written behind the frames of earlier requests,
    -- with nothing in the buffer, then however the system calls end, reading the file again to its
    -- end gives the earlier events and the first few of the batch, all of them if the batch is
    -- committed, each with its offset.
    pub process_batch-replay :
        (batch : List WalRequest) (offset : ℕ)
        → AllFit prev
        → AllFit batch
        → (k : ℕ) × (replay (suc (length (prev ++ batch))) (record {
          file = contents a.writer.path (process_batch crc batch a).1.writer.files;
          current_offset = offset;
        })
            ≡ forwarded (offsets offset (prev ++ take k batch)))
          × ((commit_batch crc batch a).0 ≡ true → take k batch ≡ batch)
    process_batch-replay batch offset f g = elim (Bool-cases (commit_batch crc batch a).0) [
      | inl good ↦ (
        length batch,
        rw
            (
              take_all batch,
              (process_batch_success crc batch a good).1,
              stored_before,
              ← log_of-append prev batch,
            )
            (replay-log_of crc (prev ++ batch) offset (All-append _ prev batch f g)),
        λ _. take_all batch,
      )
      | inr bad ↦
          let (n, file) = left_on_disk batch bad in
          let (k, read_back) = replay_behind prev batch n offset f g in
          (k, rw file read_back, λ good. absurd (cc (bad, good)))
    ]
