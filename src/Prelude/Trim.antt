-- ===== src/Prelude/Trim.antt =====
-- `str::trim` of the standard library, on the bytes of a text.
use edgewit.Prelude.Tests.{if◌then◌else◌}
use edgewit.Prelude.Lists.{length, drop}
use edgewit.Prelude.Bytes.{Text, starts_with}
use Prim.Native.Nat.{ℕ, zero, suc}
use mathlib.Core.Option.{Option, none, some}
use mathlib.Core.List.{List, [], ◌∷◌, ◌++◌, map, reverse}

-- The encodings of the characters with the property `White_Space`.
abbrev white_spaces : List Text
white_spaces =
    map (λ c. c ∷ []) (9 ∷ 10 ∷ 11 ∷ 12 ∷ 13 ∷ 32 ∷ [])
    ++ map (λ c. 0xc2 ∷ c ∷ []) (0x85 ∷ 0xa0 ∷ [])
    ++ map (λ c. 0xe2 ∷ 0x80 ∷ c ∷ [])
        (0x80 ∷ 0x81 ∷ 0x82 ∷ 0x83 ∷ 0x84 ∷ 0x85 ∷ 0x86 ∷ 0x87 ∷ 0x88 ∷ 0x89 ∷ 0x8a ∷ 0xa8 ∷ 0xa9
          ∷ 0xaf ∷ [])
    ++ (0xe1 ∷ 0x9a ∷ 0x80 ∷ []) ∷ (0xe2 ∷ 0x81 ∷ 0x9f ∷ []) ∷ (0xe3 ∷ 0x80 ∷ 0x80 ∷ []) ∷ []

-- The text after the first of the words that it starts with.
strip_one : List Text → Text → Option Text
strip_one [] s = none
strip_one (w ∷ ws) s = if starts_with s w then some (drop (length w) s) else strip_one ws s

-- Each round takes a byte at least, so as many rounds as bytes are enough.
strip_all : ℕ → List Text → Text → Text
strip_all zero ws s = s
strip_all (suc n) ws s = elim (strip_one ws s) [ none ↦ s | some rest ↦ strip_all n ws rest ]

unfoldable pub trim : Text → Text
unfolding strip_all strip_one starts_with
trim s =
    let front = strip_all (length s) white_spaces s in
    reverse (strip_all (length s) (map reverse white_spaces) (reverse front))
