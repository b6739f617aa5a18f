-- ===== src/Wal/RoundTrip.antt =====
-- What `next_frame` of src/wal.rs reads back from the frames of the appender.
use edgewit.Prelude.{
  ℕ, ◌^◌, ◌<◌, ◌≡◌, refl, sym, ◌∙◌, true, some, List, ◌++◌, arith, ok, length, length-append,
  take_append, drop_append, append_assoc,
}
use edgewit.Wal.Utf8.{is_utf8}
use edgewit.Wal.Frame.{
  IngestEvent, encode_frame, frame_len, to_le_bytes, from_le_bytes, as_u16, as_u32,
  length-to_le_bytes, u16_le_bytes, u32_le_bytes, add64,
}
use edgewit.Wal.Reader.{
  read, read_exact, string_from_utf8, frame_body, after_len, frame_or_eof, next_frame,
}

-- What the frame's length fields and `String` can hold.
pub record Fits (e : IngestEvent) : Type 0 where
  pub index_len : length e.index < 2 ^ 16
  pub payload_len : length e.payload < 2 ^ 32
  pub utf8 : is_utf8 e.index ≡ true

pub read_exact-append :
    (xs ys : List ℕ) (n : ℕ) → n ≡ length xs → read_exact n (xs ++ ys) ≡ (ok xs, ys)
unfolding read_exact
read_exact-append xs ys n h = rw (h, take_append, drop_append) (ground (arith, length-append xs ys))

pub read-append : (xs ys : List ℕ) (n : ℕ) → n ≡ length xs → read n (xs ++ ys) ≡ (ok xs, ys)
unfolding read
read-append xs ys n h = rw (h, take_append, drop_append) refl

pub string_from_utf8-ok : (t s : List ℕ) → is_utf8 t ≡ true → string_from_utf8 t s ≡ (ok t, s)
unfolding string_from_utf8
string_from_utf8-ok t s h = rw h refl

module _ (crc : List ℕ → ℕ) (e : IngestEvent) (rest : List ℕ) (fits : Fits e) where
  frame_body-encode :
      frame_body (to_le_bytes 2 (as_u16 (length e.index))) (
        e.index
        ++ (to_le_bytes 4 (as_u32 (length e.payload))
            ++ (e.payload ++ (to_le_bytes 4 (as_u32 (crc (e.index ++ e.payload))) ++ rest))))
      ≡ (ok (e, frame_len e), rest)
  unfolding frame_body frame_len
  frame_body-encode =
      let i : from_le_bytes (to_le_bytes 2 (as_u16 (length e.index))) ≡ length e.index =
        u16_le_bytes _ (omega (arith, fits.index_len)) ∙ (omega (arith, fits.index_len)) in
      let p : from_le_bytes (to_le_bytes 4 (as_u32 (length e.payload))) ≡ length e.payload =
        u32_le_bytes _ (omega (arith, fits.payload_len)) ∙ (omega (arith, fits.payload_len)) in
      rw
        (
          i,
          read_exact-append e.index _ _ refl,
          string_from_utf8-ok e.index _ fits.utf8,
          read_exact-append (to_le_bytes 4 (as_u32 (length e.payload))) _ 4
              (sym (length-to_le_bytes 4 _)),
          p,
          read_exact-append e.payload _ _ refl,
          read_exact-append (to_le_bytes 4 (as_u32 (crc (e.index ++ e.payload)))) rest 4
              (sym (length-to_le_bytes 4 _)),
        )
        refl

  frame_or_eof-encode_frame :
      frame_or_eof (encode_frame crc e ++ rest) ≡ (ok (some (e, frame_len e)), rest)
  unfolding encode_frame frame_or_eof after_len
  frame_or_eof-encode_frame = simp (append_assoc) (
      rw
        (
          read-append (to_le_bytes 2 (as_u16 (length e.index))) _ 2 (sym (length-to_le_bytes 2 _)),
          length-to_le_bytes 2 (as_u16 (length e.index)),
          frame_body-encode,
        )
        refl)

  -- The reader at the frame of an event whose index is UTF-8 of less than 2 ^ 16 bytes and whose
  -- payload has less than 2 ^ 32 bytes returns the event and the offset behind the frame, and
  -- stands at what follows the frame.
  pub next_frame-encode_frame :
      (offset : ℕ)
      → next_frame (record { file = encode_frame crc e ++ rest; current_offset = offset }) ≡ (
        ok (some (e, add64 offset (frame_len e))),
        record { file = rest; current_offset = add64 offset (frame_len e) },
      )
  unfolding next_frame
  next_frame-encode_frame offset = rw frame_or_eof-encode_frame refl
