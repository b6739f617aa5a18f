-- ===== src/Compaction/Errors.antt =====
-- What a compaction of one index in src/compaction.rs can fail with, and what it has done by then.
use edgewit.Prelude.{
  ◌≤◌, ◌≡◌, inl, inr, refl, ap, ◌∙◌, List, Text, ltb, length, Result, ok, err, Bool-cases, arith,
}
use edgewit.Compaction.{
  Library, TantivyError, lock_failure, other_error, CompactionError, tantivy, CompactionWorker,
  compact_index, attempt, with_segments, with_writer, merged, committed,
}

module _ (lib : Library) where
  -- The calls up to the writer, and that none was made after the one that failed: the index is not
  -- opened, has no reader, or has segments enough but no writer for a reason other than its lock.
  pub data Failed (self : CompactionWorker) (path : List Text) (w : lib.World) (x : CompactionError)
      (after : lib.World) : Type 0 where
    not_opened :
        (e : TantivyError)
        → x ≡ tantivy e
        → lib.open_in_dir path w ≡ (err e, after)
        → Failed self path w x after
    not_read :
        (e : TantivyError) (index : lib.Index) (opened : lib.World)
        → x ≡ tantivy e
        → lib.open_in_dir path w ≡ (ok index, opened)
        → lib.reader index opened ≡ (err e, after)
        → Failed self path w x after
    not_writable :
        (e : Text) (index : lib.Index) (reader : lib.Reader) (opened read : lib.World)
        → x ≡ tantivy (other_error e)
        → lib.open_in_dir path w ≡ (ok index, opened)
        → lib.reader index opened ≡ (ok reader, read)
        → self.min_segments ≤ length (lib.segments reader read)
        → lib.writer index read ≡ (err (other_error e), after)
        → Failed self path w x after

  -- Once there is a writer, nothing fails any more.
  committed_ok :
      (writer : lib.Writer) (r : Result TantivyError (Unit {0}) × lib.World)
      → (committed lib writer r).0 ≡ ok tt
  committed_ok writer (ok u, w) = refl
  committed_ok writer (err e, w) = refl

  merged_ok :
      (writer : lib.Writer) (r : Result TantivyError (Unit {0}) × lib.World)
      → (merged lib writer r).0 ≡ ok tt
  merged_ok writer (ok u, w) = committed_ok writer (lib.commit writer w)
  merged_ok writer (err e, w) = refl

  with_writer_err :
      (ids : List lib.Segment) (r : Result TantivyError lib.Writer × lib.World)
      (x : CompactionError) (after : lib.World)
      → with_writer lib ids r ≡ (err x, after)
      → (e : Text) × (x ≡ tantivy (other_error e)) × (r ≡ (err (other_error e), after))
  with_writer_err ids (ok writer, w) x after h =
      absurd (cc (merged_ok writer (lib.merge writer ids w), ap (λ p. p.0) h))
  with_writer_err ids (err lock_failure, w) x after h = absurd (cc (ap (λ p. p.0) h))
  with_writer_err ids (err (other_error e), w) x after h =
      let error : ◌≡◌ {A = Result CompactionError (Unit {0})} (err (tantivy (other_error e)))
          (err x) =
        ap (λ p. p.0) h in
      (e, cc error, ap (λ u. (err (other_error e), u)) (ap (λ p. p.1) h))

  module _ (self : CompactionWorker) (path : List Text) (w : lib.World) (x : CompactionError)
      (after : lib.World) where
    segments_err :
        (index : lib.Index) (reader : lib.Reader) (opened read : lib.World)
        → lib.open_in_dir path w ≡ (ok index, opened)
        → lib.reader index opened ≡ (ok reader, read)
        → with_segments lib self.min_segments index (lib.segments reader read) read ≡ (err x, after)
        → Failed self path w x after
    segments_err index reader opened read eo er h =
        let ids = lib.segments reader read in
        elim (Bool-cases (ltb (length ids) self.min_segments)) [
          | inl few ↦ absurd (cc (ap (λ p. p.0) (rw few at h)))
          | inr enough ↦
              let (e, ex, ew) =
                with_writer_err ids (lib.writer index read) x after (rw enough at h) in
              not_writable e index reader opened read ex eo er (ground arith) ew
        ]

    reader_err :
        (index : lib.Index) (opened : lib.World) (r : Result TantivyError lib.Reader × lib.World)
        → lib.open_in_dir path w ≡ (ok index, opened)
        → lib.reader index opened ≡ r
        → attempt lib r (λ reader read.
          with_segments lib self.min_segments index (lib.segments reader read) read)
          ≡ (err x, after)
        → Failed self path w x after
    reader_err index opened (ok reader, read) eo er h =
        segments_err index reader opened read eo er h
    reader_err index opened (err e, read) eo er h =
        let error : ◌≡◌ {A = Result CompactionError (Unit {0})} (err (tantivy e)) (err x) =
          ap (λ p. p.0) h in
        not_read e index opened (cc error) eo (er ∙ ap (λ u. (err e, u)) (ap (λ p. p.1) h))

    open_err :
        (r : Result TantivyError lib.Index × lib.World)
        → lib.open_in_dir path w ≡ r
        → attempt lib r (λ index opened. attempt lib (lib.reader index opened) (λ reader read.
          with_segments lib self.min_segments index (lib.segments reader read) read))
          ≡ (err x, after)
        → Failed self path w x after
    open_err (ok index, opened) eo h = reader_err index opened (lib.reader index opened) eo refl h
    open_err (err e, opened) eo h =
        let error : ◌≡◌ {A = Result CompactionError (Unit {0})} (err (tantivy e)) (err x) =
          ap (λ p. p.0) h in
        not_opened e (cc error) (eo ∙ ap (λ u. (err e, u)) (ap (λ p. p.1) h))

    -- Only these calls can make a compaction fail.
    pub compact_index_errors :
        compact_index lib self path w ≡ (err x, after) → Failed self path w x after
    unfolding compact_index
    compact_index_errors h = open_err (lib.open_in_dir path w) refl h
