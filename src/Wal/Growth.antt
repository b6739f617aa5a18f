-- ===== src/Wal/Growth.antt =====
-- That the files of src/wal.rs only grow: what a batch leaves in the open file begins with what
-- stood there before.
use edgewit.Prelude.{
  ℕ, ◌-◌, ◌≡◌, refl, sym, ◌∙◌, Bool, true, false, Bool-cases, inl, inr, List, [], ◌∷◌, ◌++◌, length,
  take, leb, ltb, append-nil, append_assoc,
}
use edgewit.Wal.Frame.{frame_parts}
use edgewit.Wal.Disk.{
  Writer, Outcome, done, failed, contents, append_to, os_write_as, os_write, flush_as, flush_buf,
  write_cold, write_all, sync_as, sync_data, capacity,
}
use edgewit.Wal.Appender.{
  WalRequest, WalAppender, write_parts, write_batch, commit_batch, finish, if_good, advance,
}
use edgewit.Wal.Durability.{took_self}

-- The OS took more bytes of the open file.
pub record Grows (w w' : Writer) : Type 0 where
  pub path : w'.path ≡ w.path
  pub more : List ℕ
  pub grown : contents w'.path w'.files ≡ contents w.path w.files ++ more

Grows-refl : (w : Writer) → Grows w w
Grows-refl w = record { path = refl; more = []; grown = sym (append-nil (contents w.path w.files)) }

Grows-trans : {w w' w'' : Writer} → Grows w w' → Grows w' w'' → Grows w w''
Grows-trans {w} g h = record {
  path = h.path ∙ g.path;
  more = g.more ++ h.more;
  grown = h.grown ∙ rw g.grown (append_assoc (contents w.path w.files) g.more h.more);
}

took-Grows :
    (w : Writer) (bytes rest : List ℕ) (fs : List Outcome)
    → Grows w (record w { files = append_to w.path bytes w.files; faults = fs; buffer = rest })
took-Grows w bytes rest fs = record {
  path = refl;
  more = bytes;
  grown = took_self w.path bytes w.files;
}

unmoved-Grows :
    (w : Writer) (rest : List ℕ) (fs : List Outcome)
    → Grows w (record w { faults = fs; buffer = rest })
unmoved-Grows w rest fs = record {
  path = refl;
  more = [];
  grown = sym (append-nil (contents w.path w.files));
}

os_write-Grows :
    (fs : List Outcome) (bytes : List ℕ) (w : Writer) → Grows w (os_write_as fs bytes w).1
unfolding os_write_as
os_write-Grows [] bytes w = took-Grows w bytes w.buffer []
os_write-Grows (done ∷ fs) bytes w = took-Grows w bytes w.buffer fs
os_write-Grows (failed k ∷ fs) bytes w = took-Grows w (take k bytes) w.buffer fs

flush_as-Grows : (fs : List Outcome) (bytes : List ℕ) (w : Writer) → Grows w (flush_as fs bytes w).1
unfolding flush_as
flush_as-Grows fs [] w = Grows-refl w
flush_as-Grows [] (b ∷ bs) w = took-Grows w (b ∷ bs) [] []
flush_as-Grows (done ∷ fs) (b ∷ bs) w = took-Grows w (b ∷ bs) [] fs
flush_as-Grows (failed k ∷ fs) (b ∷ bs) w = took-Grows w _ _ fs

sync_as-Grows : (fs : List Outcome) (w : Writer) → Grows w (sync_as fs w).1
unfolding sync_as
sync_as-Grows [] w = Grows-refl w
sync_as-Grows (done ∷ fs) w = unmoved-Grows w w.buffer fs
sync_as-Grows (failed k ∷ fs) w = unmoved-Grows w w.buffer fs

flush_buf-Grows : (w : Writer) → Grows w (flush_buf w).1
unfolding flush_buf
flush_buf-Grows w = flush_as-Grows w.faults w.buffer w

write_cold-Grows : (bytes : List ℕ) (r : Bool × Writer) → Grows r.1 (write_cold bytes r).1
unfolding write_cold os_write
write_cold-Grows bytes (false, w) = Grows-refl w
write_cold-Grows bytes (true, w) = elim (Bool-cases (leb capacity (length bytes))) [
  | inl big ↦ rw big (os_write-Grows w.faults bytes w)
  | inr small ↦ rw small (unmoved-Grows w (w.buffer ++ bytes) w.faults)
]

write_all-Grows : (bytes : List ℕ) (w : Writer) → Grows w (write_all bytes w).1
unfolding write_all
write_all-Grows bytes w = elim (Bool-cases (ltb (length bytes) (capacity - length w.buffer))) [
  | inl fits ↦ rw fits (unmoved-Grows w (w.buffer ++ bytes) w.faults)
  | inr full ↦ elim (Bool-cases (ltb (capacity - length w.buffer) (length bytes))) [
    | inl over ↦
        rw (full, over) (Grows-trans (flush_buf-Grows w) (write_cold-Grows bytes (flush_buf w)))
    | inr exact ↦ rw (full, exact) (write_cold-Grows bytes (true, w))
  ]
]

write_parts-Grows : (parts : List (List ℕ)) (w : Writer) → Grows w (write_parts parts w).1
unfolding write_parts
write_parts-Grows [] w = Grows-refl w
write_parts-Grows (p ∷ ps) w =
    let later = write_parts-Grows ps (write_all p w).1 in
    elim (Bool-cases (write_all p w).0) [
      | inl good ↦ rw good (Grows-trans (write_all-Grows p w) later)
      | inr bad ↦ rw bad (write_all-Grows p w)
    ]

synced-Grows : (f : Bool × Writer) → Grows f.1 (if_good sync_data f).1
unfolding sync_data
synced-Grows (false, f) = Grows-refl f
synced-Grows (true, f) = sync_as-Grows f.faults f

flushed-Grows : (r : Bool × Writer) → Grows r.1 (if_good sync_data (if_good flush_buf r)).1
flushed-Grows (false, w) = Grows-refl w
flushed-Grows (true, w) = Grows-trans (flush_buf-Grows w) (synced-Grows (flush_buf w))

finish-Grows :
    (r : Bool × List (WalRequest × ℕ) × WalAppender) → Grows r.2.writer (finish r).2.writer
unfolding finish
finish-Grows (written, to_index, a) = flushed-Grows (written, a.writer)

module _ (crc : List ℕ → ℕ) where
  write_batch-Grows :
      (batch : List WalRequest) (a : WalAppender)
      → Grows a.writer (write_batch crc batch a).2.writer
  unfolding write_batch
  write_batch-Grows [] a = Grows-refl a.writer
  write_batch-Grows (r ∷ rs) a =
      let parts = frame_parts crc r.event in
      let a' : WalAppender =
        advance r.event (record a { writer = (write_parts parts a.writer).1 }) in
      let later = write_batch-Grows rs a' in
      elim (Bool-cases (write_parts parts a.writer).0) [
        | inl good ↦ rw good (Grows-trans (write_parts-Grows parts a.writer) later)
        | inr bad ↦ rw bad (write_parts-Grows parts a.writer)
      ]

  -- However the system calls end, a batch only adds to the open file.
  pub commit_batch-Grows :
      (batch : List WalRequest) (a : WalAppender)
      → Grows a.writer (commit_batch crc batch a).2.writer
  unfolding commit_batch
  commit_batch-Grows batch a =
      Grows-trans (write_batch-Grows batch a) (finish-Grows (write_batch crc batch a))
