-- ===== src/Wal/Reader.antt =====
-- `WalReader` of src/wal.rs. A reader is the bytes that it has not read, and its offset.
use edgewit.Prelude.{
  ℕ, ◌+◌, Option, none, some, List, [], Text, Result, ok, err, length, take, drop, ltb, ◌==◌,
  if◌then◌else◌,
}
use edgewit.Wal.Utf8.{is_utf8}
use edgewit.Wal.Frame.{IngestEvent, from_le_bytes, add64}

-- The kinds of `std::io::Error` that the reader makes itself.
pub data IoError : Type 0 where
  unexpected_eof invalid_data not_found : IoError

-- Reading moves the position also where it fails.
abbrev pub Read : Type 0 → Type 0
Read A = List ℕ → Result IoError A × List ℕ

abbrev continue : {A B : Type 0} → Result IoError A → (A → Read B) → Read B
continue (ok a) f s = f a s
continue (err e) f s = (err e, s)

infixl 5 ◌>>=◌
abbrev pub ◌>>=◌ : {A B : Type 0} → Read A → (A → Read B) → Read B
◌>>=◌ m f s = let (r, s') = m s in continue r f s'

abbrev pub pure : {A : Type 0} → A → Read A
pure a s = (ok a, s)

abbrev pub fail : {A : Type 0} → IoError → Read A
fail e s = (err e, s)

-- `file.read(&mut buf)` with a buffer of `n` bytes: fewer only at the end of the file.
unfoldable pub read : ℕ → Read (List ℕ)
read n s = (ok (take n s), drop n s)

-- `file.read_exact(&mut buf)`; when it fails, all that was left has been read.
unfoldable pub read_exact : ℕ → Read (List ℕ)
read_exact n s = if ltb (length s) n then (err unexpected_eof, []) else (ok (take n s), drop n s)

unfoldable pub string_from_utf8 : List ℕ → Read Text
string_from_utf8 bytes = if is_utf8 bytes then pure bytes else fail invalid_data

-- The body of `next_frame` after the length of the index name. The checksum is read and not
-- compared with anything.
unfoldable pub frame_body : List ℕ → Read (IngestEvent × ℕ)
frame_body len_buf = do
  let idx_len = from_le_bytes len_buf
  idx_buf ← read_exact idx_len
  index ← string_from_utf8 idx_buf
  plen_buf ← read_exact 4
  let p_len = from_le_bytes plen_buf
  payload ← read_exact p_len
  crc_buf ← read_exact 4
  pure (record { index = index; payload = payload }, 2 + idx_len + 4 + p_len + 4)

-- The two checks on `bytes_read`, and the rest of the frame.
unfoldable pub after_len : List ℕ → Read (Option (IngestEvent × ℕ))
after_len len_buf =
    if length len_buf == 0
    then pure none
    else if ltb (length len_buf) 2
    then fail unexpected_eof
    else (do frame ← frame_body len_buf; pure (some frame))

unfoldable pub frame_or_eof : Read (Option (IngestEvent × ℕ))
frame_or_eof = do len_buf ← read 2; after_len len_buf

pub record WalReader : Type 0 where
  pub file : List ℕ
  pub current_offset : ℕ

-- `WalReader::new`: seek to `start_offset`, possibly past the end. `none` is a file that cannot be
-- opened.
unfoldable pub new : Option (List ℕ) → ℕ → Result IoError WalReader
new none start_offset = err not_found
new (some bytes) start_offset =
    ok (record { file = drop start_offset bytes; current_offset = start_offset })

abbrev advance :
    Result IoError (Option (IngestEvent × ℕ))
    → List ℕ
    → ℕ
    → Result IoError (Option (IngestEvent × ℕ)) × WalReader
advance (ok (some (event, frame_size))) rest offset = (
  ok (some (event, add64 offset frame_size)),
  record { file = rest; current_offset = add64 offset frame_size },
)
advance (ok none) rest offset = (ok none, record { file = rest; current_offset = offset })
advance (err e) rest offset = (err e, record { file = rest; current_offset = offset })

unfoldable pub next_frame : WalReader → Result IoError (Option (IngestEvent × ℕ)) × WalReader
next_frame r = let (result, rest) = frame_or_eof r.file in advance result rest r.current_offset
