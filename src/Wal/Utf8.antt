-- ===== src/Wal/Utf8.antt =====
-- `String::from_utf8`, which `next_frame` of src/wal.rs calls on the index name: the well-formed
-- byte sequences of the Unicode standard. `more` continuation bytes are still to come, and the
-- next of them lies from `lo` to `hi`.
use edgewit.Prelude.{
  ℕ, zero, suc, Bool, true, false, ◌&&◌, List, [], ◌∷◌, leb, ltb, ◌==◌, if◌then◌else◌,
}

-- The number of continuation bytes after a leading byte, and the range of the first of them.
unfoldable pub lead : ℕ → ℕ × ℕ × ℕ
lead b =
    if leb 0xc2 b && leb b 0xdf
    then (1, 0x80, 0xbf)
    else if b == 0xe0
    then (2, 0xa0, 0xbf)
    else if b == 0xed
    then (2, 0x80, 0x9f)
    else if leb 0xe1 b && leb b 0xef
    then (2, 0x80, 0xbf)
    else if b == 0xf0
    then (3, 0x90, 0xbf)
    else if leb 0xf1 b && leb b 0xf3
    then (3, 0x80, 0xbf)
    else if b == 0xf4
    then (3, 0x80, 0x8f)
    else (1, 1, 0)

unfoldable pub utf8_from : ℕ → ℕ → ℕ → List ℕ → Bool
unfolding lead
utf8_from zero lo hi [] = true
utf8_from (suc more) lo hi [] = false
utf8_from zero lo hi (b ∷ bs) =
    if ltb b 0x80 then utf8_from zero 0 0 bs else let (n, l, h) = lead b in utf8_from n l h bs
utf8_from (suc more) lo hi (b ∷ bs) = leb lo b && leb b hi && utf8_from more 0x80 0xbf bs

unfoldable pub is_utf8 : List ℕ → Bool
unfolding utf8_from
is_utf8 bs = utf8_from 0 0 0 bs
