-- ===== src/Wal/TornWrites.antt =====
-- What `next_frame` of src/wal.rs makes of a frame that was cut short.
use edgewit.Prelude.{
  ℕ, zero, suc, ◌+◌, ◌-◌, ◌≤◌, ◌<◌, ◌≡◌, refl, sym, List, ◌++◌, arith, ok, err, length, take,
  append-nil, take_append_ge, length-take-le, dec_lt, [], lt→ltb,
}
use edgewit.Wal.Frame.{
  IngestEvent, encode_frame, frame_len, to_le_bytes, from_le_bytes, as_u16, as_u32,
  length-to_le_bytes, u16_le_bytes, u32_le_bytes,
}
use edgewit.Wal.Reader.{
  read, read_exact, frame_body, after_len, frame_or_eof, next_frame, unexpected_eof,
}
use edgewit.Wal.RoundTrip.{Fits, read_exact-append, read-append, string_from_utf8-ok}

read_exact-take :
    (n k : ℕ) (s : List ℕ) → n < k → read_exact k (take n s) ≡ (err unexpected_eof, [])
unfolding read_exact
read_exact-take n k s h = rw (lt→ltb (length (take n s)) k (omega (arith, length-take-le n s))) refl

read_exact-take_ge :
    (n k : ℕ) (xs ys : List ℕ)
    → k ≡ length xs
    → k ≤ n
    → read_exact k (take n (xs ++ ys)) ≡ (ok xs, take (n - k) ys)
read_exact-take_ge n k xs ys e h =
    rw (e, take_append_ge n xs ys (omega arith), read_exact-append xs _ _ refl) refl

read_short :
    (n : ℕ) (xs ys : List ℕ)
    → 2 ≡ length xs
    → 2 ≤ n
    → read 2 (take n (xs ++ ys)) ≡ (ok xs, take (n - 2) ys)
read_short n xs ys e h = rw (take_append_ge n xs ys (omega arith), read-append xs _ 2 e, ← e) refl

module _ (crc : List ℕ → ℕ) (e : IngestEvent) (fits : Fits e) where
  index_field : from_le_bytes (to_le_bytes 2 (as_u16 (length e.index))) ≡ length e.index
  index_field = omega (arith, u16_le_bytes (as_u16 (length e.index)), fits.index_len)

  payload_field : from_le_bytes (to_le_bytes 4 (as_u32 (length e.payload))) ≡ length e.payload
  payload_field = omega (arith, u32_le_bytes (as_u32 (length e.payload)), fits.payload_len)

  frame_body_torn :
      (n : ℕ)
      → n < length e.index + (4 + (length e.payload + 4))
      → frame_body (to_le_bytes 2 (as_u16 (length e.index))) (
          take n (
            e.index
            ++ (to_le_bytes 4 (as_u32 (length e.payload))
                ++ (e.payload ++ to_le_bytes 4 (as_u32 (crc (e.index ++ e.payload)))))))
        ≡ (err unexpected_eof, [])
  unfolding frame_body
  frame_body_torn n h = rw index_field (elim (dec_lt n (length e.index)) [
    | yes p ↦ rw (read_exact-take n (length e.index) _ p) refl
    | no p ↦
        rw
          (
            read_exact-take_ge n _ e.index _ refl (omega arith),
            string_from_utf8-ok e.index _ fits.utf8,
          )
          (elim (dec_lt (n - length e.index) 4) [
            | yes q ↦ rw (read_exact-take (n - length e.index) 4 _ q) refl
            | no q ↦
                rw
                  (
                    read_exact-take_ge (n - length e.index) 4
                        (to_le_bytes 4 (as_u32 (length e.payload))) _ (sym (length-to_le_bytes 4 _))
                        (omega arith),
                    payload_field,
                  )
                  (elim (dec_lt (n - length e.index - 4) (length e.payload)) [
                    | yes r ↦ rw (read_exact-take (n - length e.index - 4) _ _ r) refl
                    | no r ↦
                        rw
                          (
                            read_exact-take_ge (n - length e.index - 4) (length e.payload) e.payload
                                _ refl (omega arith),
                            read_exact-take (n - length e.index - 4 - length e.payload) 4 _ (
                                let lt : n - length e.index - 4 - length e.payload < 4 =
                                  omega arith in
                                lt),
                          )
                          refl
                  ])
          ])
  ])

  frame_or_eof_torn :
      (n : ℕ)
      → 0 < n
      → n < frame_len e
      → frame_or_eof (take n (encode_frame crc e)) ≡ (err unexpected_eof, [])
  unfolding frame_or_eof encode_frame frame_len
  frame_or_eof_torn zero p h = absurd (omega arith)
  frame_or_eof_torn (suc zero) p h = unfold read after_len to_le_bytes in refl
  frame_or_eof_torn (suc (suc n)) p h = simp (append-nil) (
      rw
        (read_short (suc (suc n)) (to_le_bytes 2 (as_u16 (length e.index))) _
          (sym (length-to_le_bytes 2 _)) (omega arith))
        (unfold after_len in
          rw
            (
              length-to_le_bytes 2 (as_u16 (length e.index)),
              let q : suc (suc n) - 2 ≡ n = omega arith in q,
              frame_body_torn n (omega arith),
            )
            refl))

  -- If a frame of an event that fits was cut after its first byte and before its last, the reader
  -- reports the unexpected end of the file, returns no event, and does not move its offset.
  pub next_frame_torn :
      (n offset : ℕ)
      → 0 < n
      → n < frame_len e
      → next_frame (record { file = take n (encode_frame crc e); current_offset = offset })
        ≡ (err unexpected_eof, record { file = []; current_offset = offset })
  unfolding next_frame
  next_frame_torn n offset p h = rw (frame_or_eof_torn n p h) refl
