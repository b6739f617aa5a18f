-- ===== src/Wal/Frame.antt =====
-- The binary framing of src/wal.rs: what `WalAppender::run` writes for an event.
use edgewit.Prelude.{
  ℕ, zero, suc, ◌+◌, ◌*◌, ◌/◌, ◌%◌, ◌^◌, ◌<◌, ◌≡◌, refl, ap, List, [], ◌∷◌, ◌++◌, Text, arith,
  length, length-append,
}

-- `IngestEvent`
pub record IngestEvent : Type 0 where
  pub index : Text
  pub payload : List ℕ

-- `to_le_bytes` of an integer of `k` bytes
unfoldable pub to_le_bytes : ℕ → ℕ → List ℕ
to_le_bytes zero v = []
to_le_bytes (suc k) v = (v % 256) ∷ to_le_bytes k (v / 256)

unfoldable pub from_le_bytes : List ℕ → ℕ
from_le_bytes [] = 0
from_le_bytes (b ∷ bs) = b + 256 * from_le_bytes bs

-- `x as u16`, `x as u32`
abbrev pub as_u16 : ℕ → ℕ
as_u16 x = x % 2 ^ 16

abbrev pub as_u32 : ℕ → ℕ
as_u32 x = x % 2 ^ 32

-- `+=` on a `u64`
abbrev pub add64 : ℕ → ℕ → ℕ
add64 a b = (a + b) % 2 ^ 64

-- The arguments of the five `write_all` calls for one event, in order. `crc` is crc32fast's
-- checksum of the bytes that the hasher was fed.
unfoldable pub frame_parts : (List ℕ → ℕ) → IngestEvent → List (List ℕ)
frame_parts crc e =
    to_le_bytes 2 (as_u16 (length e.index))
    ∷ e.index
    ∷ to_le_bytes 4 (as_u32 (length e.payload))
    ∷ e.payload
    ∷ to_le_bytes 4 (as_u32 (crc (e.index ++ e.payload)))
    ∷ []

-- `frame_len`
unfoldable pub frame_len : IngestEvent → ℕ
frame_len e = 2 + length e.index + 4 + length e.payload + 4

abbrev pub concat : List (List ℕ) → List ℕ
concat [] = []
concat (p ∷ ps) = p ++ concat ps

-- The bytes of one frame.
unfoldable pub encode_frame : (List ℕ → ℕ) → IngestEvent → List ℕ
unfolding frame_parts
encode_frame crc e = concat (frame_parts crc e)

pub length-to_le_bytes : (k v : ℕ) → length (to_le_bytes k v) ≡ k
unfolding to_le_bytes
length-to_le_bytes zero v = refl
length-to_le_bytes (suc k) v = ap suc (length-to_le_bytes k (v / 256))

pub u16_le_bytes : (v : ℕ) → v < 2 ^ 16 → from_le_bytes (to_le_bytes 2 v) ≡ v
unfolding to_le_bytes from_le_bytes
u16_le_bytes v h = omega arith

pub u32_le_bytes : (v : ℕ) → v < 2 ^ 32 → from_le_bytes (to_le_bytes 4 v) ≡ v
unfolding to_le_bytes from_le_bytes
u32_le_bytes v h = omega arith

pub length-encode_frame :
    (crc : List ℕ → ℕ) (e : IngestEvent) → length (encode_frame crc e) ≡ frame_len e
unfolding encode_frame frame_len
length-encode_frame crc e = simp (length-append, length-to_le_bytes) (omega arith)
