-- ===== src/Wal/Durability.antt =====
-- What the writes of src/wal.rs leave in the log, on every way that the system calls can end.
use edgewit.Prelude.{
  ℕ, ◌-◌, ◌≤◌, ◌≡◌, ◌≢◌, refl, sym, ap, ◌∙◌, Bool, true, false, Bool-cases, inl, inr, List, [], ◌∷◌,
  ◌++◌, arith, length, take, drop, ltb, leb, append-nil, append_assoc, take-append-drop,
}
use edgewit.Wal.Frame.{concat}
use edgewit.Wal.Disk.{
  Writer, Files, Outcome, done, failed, contents, append_to, os_write_as, os_write, flush_as,
  flush_buf, write_cold, write_all, sync_as, sync_data, capacity, contents-append_to,
}
use edgewit.Wal.Appender.{write_parts}

-- The open file as it will be once the buffer is written.
abbrev pub stored : Writer → List ℕ
stored w = contents w.path w.files ++ w.buffer

-- From `w` to `w'` the open file gained `bytes`, in the OS or in the buffer, and no other file
-- changed.
pub record Gains (w w' : Writer) (bytes : List ℕ) : Type 0 where
  pub path : w'.path ≡ w.path
  pub gained : stored w' ≡ stored w ++ bytes
  pub others : (j : ℕ) → w.path ≢ j → contents j w'.files ≡ contents j w.files

pub Gains-refl : (w : Writer) → Gains w w []
Gains-refl w = record { path = refl; gained = sym (append-nil (stored w)); others = λ j h. refl }

pub Gains-trans :
    {w w' w'' : Writer} {xs ys : List ℕ} → Gains w w' xs → Gains w' w'' ys → Gains w w'' (xs ++ ys)
Gains-trans {w} {xs} {ys} g h = record {
  path = h.path ∙ g.path;
  gained = h.gained ∙ rw g.gained (append_assoc (stored w) xs ys);
  others = λ j ne. h.others j (rw g.path ne) ∙ g.others j ne;
}

took_others :
    (p j : ℕ) (new : List ℕ) (fs : Files) → p ≢ j → contents j (append_to p new fs) ≡ contents j fs
took_others p j new fs ne = ground (arith, contents-append_to p j new fs)

pub took_self :
    (p : ℕ) (new : List ℕ) (fs : Files) → contents p (append_to p new fs) ≡ contents p fs ++ new
took_self p new fs = ground (arith, contents-append_to p p new fs)

-- `bytes` go to the OS, and what the buffer then holds is `rest`.
pub took-Gains :
    (w : Writer) (bytes rest : List ℕ) (fs : List Outcome) (new : List ℕ)
    → w.buffer ++ new ≡ bytes ++ rest
    → Gains w (record w { files = append_to w.path bytes w.files; faults = fs; buffer = rest }) new
took-Gains w bytes rest fs new e = record {
  path = refl;
  gained =
      ap (λ l. l ++ rest) (took_self w.path bytes w.files)
      ∙ append_assoc (contents w.path w.files) bytes rest
      ∙ ap (λ l. contents w.path w.files ++ l) (sym e)
      ∙ sym (append_assoc (contents w.path w.files) w.buffer new);
  others = λ j ne. took_others w.path j bytes w.files ne;
}

os_write-Gains :
    (bytes : List ℕ) (w : Writer)
    → w.buffer ≡ []
    → (os_write bytes w).0 ≡ true
    → Gains w (os_write bytes w).1 bytes
unfolding os_write
os_write-Gains bytes w e h = by_faults w.faults h
  where
    by_faults :
        (fs : List Outcome)
        → (os_write_as fs bytes w).0 ≡ true
        → Gains w (os_write_as fs bytes w).1 bytes
    by_faults [] h' = rw (← e) at (took-Gains w bytes [] [] bytes (rw (e, append-nil) refl))
    by_faults (done ∷ fs) h' =
        rw (← e) at (took-Gains w bytes [] fs bytes (rw (e, append-nil) refl))
    by_faults (failed k ∷ fs) h' = cc

-- A flush moves bytes from the buffer to the OS, and loses none of them when it fails.
flush_as-Gains :
    (fs : List Outcome) (buffer : List ℕ) (w : Writer)
    → w.buffer ≡ buffer
    → Gains w (flush_as fs buffer w).1 []
unfolding flush_as
flush_as-Gains fs [] w e = Gains-refl w
flush_as-Gains [] (b ∷ bs) w e = took-Gains w (b ∷ bs) [] [] [] (ap (λ l. l ++ []) e)
flush_as-Gains (done ∷ fs) (b ∷ bs) w e = took-Gains w (b ∷ bs) [] fs [] (ap (λ l. l ++ []) e)
flush_as-Gains (failed k ∷ fs) (b ∷ bs) w e =
    took-Gains w (take k (b ∷ bs)) (drop k (b ∷ bs)) fs []
      (rw (e, append-nil, take-append-drop) refl)

flush_as_empty :
    (fs : List Outcome) (buffer : List ℕ) (w : Writer)
    → w.buffer ≡ buffer
    → (flush_as fs buffer w).0 ≡ true
    → (flush_as fs buffer w).1.buffer ≡ []
unfolding flush_as
flush_as_empty fs [] w e h = e
flush_as_empty [] (b ∷ bs) w e h = refl
flush_as_empty (done ∷ fs) (b ∷ bs) w e h = refl
flush_as_empty (failed k ∷ fs) (b ∷ bs) w e h = cc

pub flush_buf-Gains : (w : Writer) → Gains w (flush_buf w).1 []
unfolding flush_buf
flush_buf-Gains w = flush_as-Gains w.faults w.buffer w refl

pub flush_buf_empty : (w : Writer) → (flush_buf w).0 ≡ true → (flush_buf w).1.buffer ≡ []
unfolding flush_buf
flush_buf_empty w h = flush_as_empty w.faults w.buffer w refl h

pub sync_data-Gains :
    (w : Writer) → Gains w (sync_data w).1 [] × ((sync_data w).1.buffer ≡ w.buffer)
unfolding sync_data
sync_data-Gains w = by_faults w.faults
  where
    by_faults :
        (fs : List Outcome) → Gains w (sync_as fs w).1 [] × ((sync_as fs w).1.buffer ≡ w.buffer)
    by_faults [] = (Gains-refl w, refl)
    by_faults (done ∷ fs) =
        (record { path = refl; gained = sym (append-nil (stored w)); others = λ j ne. refl }, refl)
    by_faults (failed k ∷ fs) =
        (record { path = refl; gained = sym (append-nil (stored w)); others = λ j ne. refl }, refl)

pub push-Gains :
    (bytes : List ℕ) (w : Writer) → Gains w (record w { buffer = w.buffer ++ bytes }) bytes
push-Gains bytes w = record {
  path = refl;
  gained = sym (append_assoc (contents w.path w.files) w.buffer bytes);
  others = λ j ne. refl;
}

-- The step of `write_all` after the flush, if any.
write_cold-Gains :
    (bytes : List ℕ) (w : Writer)
    → (capacity ≤ length bytes → w.buffer ≡ [])
    → (write_cold bytes (true, w)).0 ≡ true
    → Gains w (write_cold bytes (true, w)).1 bytes
unfolding write_cold
write_cold-Gains bytes w empty h = elim (Bool-cases (leb capacity (length bytes))) [
  | inl big ↦ rw big (os_write-Gains bytes w (empty (ground arith)) (rw big at h))
  | inr small ↦ rw small (push-Gains bytes w)
]

flushed_cold :
    (bytes : List ℕ) (w : Writer)
    → (write_cold bytes (flush_buf w)).0 ≡ true
    → Gains w (write_cold bytes (flush_buf w)).1 bytes
flushed_cold bytes w h = by_result (flush_buf w) (flush_buf-Gains w) (flush_buf_empty w) h
  where
    by_result :
        (r : Bool × Writer)
        → Gains w r.1 []
        → (r.0 ≡ true → r.1.buffer ≡ [])
        → (write_cold bytes r).0 ≡ true
        → Gains w (write_cold bytes r).1 bytes
    by_result (true, w') g e h' = Gains-trans g (write_cold-Gains bytes w' (λ _. e refl) h')
    by_result (false, w') g e h' = unfold write_cold in cc h'

pub empty_of_length : (bs : List ℕ) → length bs ≡ 0 → bs ≡ []
empty_of_length [] h = refl
empty_of_length (b ∷ bs) h = absurd (omega arith)

-- A `write_all` that succeeds adds its bytes behind all that was written before.
pub write_all-Gains :
    (bytes : List ℕ) (w : Writer)
    → (write_all bytes w).0 ≡ true
    → Gains w (write_all bytes w).1 bytes
unfolding write_all
write_all-Gains bytes w h = elim (Bool-cases (ltb (length bytes) (capacity - length w.buffer))) [
  | inl fits ↦ rw fits (push-Gains bytes w)
  | inr full ↦ elim (Bool-cases (ltb (capacity - length w.buffer) (length bytes))) [
    | inl over ↦ rw (full, over) (flushed_cold bytes w (rw (full, over) at h))
    | inr exact ↦
        rw (full, exact)
          (write_cold-Gains bytes w (λ c. empty_of_length w.buffer (ground arith))
            (rw (full, exact) at h))
  ]
]

pub write_parts-Gains :
    (parts : List (List ℕ)) (w : Writer)
    → (write_parts parts w).0 ≡ true
    → Gains w (write_parts parts w).1 (concat parts)
unfolding write_parts
write_parts-Gains [] w h = Gains-refl w
write_parts-Gains (p ∷ ps) w h = elim (Bool-cases (write_all p w).0) [
  | inl good ↦ rw good (
      Gains-trans (write_all-Gains p w good)
        (write_parts-Gains ps (write_all p w).1 (rw good at h)))
  | inr bad ↦ cc (bad, h)
]
