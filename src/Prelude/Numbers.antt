-- ===== src/Prelude/Numbers.antt =====
-- `str::parse::<u64>()`, `str::parse::<i64>()` and `u64::from_str_radix`, over bytes.
use Prim.Native.Nat.{ℕ, zero, suc, ◌+◌, ◌-◌, ◌*◌, ◌^◌, ◌≤◌}
use mathlib.Core.Path.{◌≡◌}
use mathlib.Core.Bool.{◌&&◌}
use mathlib.Core.Option.{Option, none, some}
use mathlib.Core.List.{[], ◌∷◌}
use native.Mathlib.Omega.{arith}
use edgewit.Prelude.Tests.{ltb, leb, ◌==◌, if◌then◌else◌, Option-cases}
use mathlib.Core.Logic.{inl, inr, ◌≢◌}
use edgewit.Prelude.Bytes.{Text}

-- `negsuc n` is -(n + 1).
pub data ℤ : Type 0 where
  pos : ℕ → ℤ
  negsuc : ℕ → ℤ

-- -n
abbrev pub neg : ℕ → ℤ
neg zero = pos 0
neg (suc n) = negsuc n

-- The value of a digit in a radix of at most 36.
unfoldable pub digit : ℕ → ℕ → Option ℕ
digit radix c =
    let v =
      if leb b'0' c && leb c b'9'
      then c - b'0'
      else if leb b'a' c && leb c b'z'
      then c - b'a' + 10
      else if leb b'A' c && leb c b'Z'
      then c - b'A' + 10
      else radix in
    if ltb v radix then some v else none

abbrev pub next : Option ℕ → (ℕ → Option ℕ) → Option ℕ
next none f = none
next (some v) f = f v

-- The loop with its overflow checks: no value above `top`.
unfoldable pub digits : ℕ → ℕ → ℕ → Text → Option ℕ
digits radix top n [] = some n
digits radix top n (c ∷ cs) =
    next (digit radix c)
      (λ d. if leb (n * radix + d) top then digits radix top (n * radix + d) cs else none)

-- An unsigned integer: a `+` may stand in front, and a digit must follow.
unfoldable pub after_plus : ℕ → ℕ → Text → Option ℕ
after_plus radix top [] = none
after_plus radix top (c ∷ cs) = digits radix top 0 (c ∷ cs)

unfoldable pub parse_unsigned : ℕ → ℕ → Text → Option ℕ
unfolding after_plus
parse_unsigned radix top [] = none
parse_unsigned radix top (c ∷ cs) =
    if c == b'+' then after_plus radix top cs else digits radix top 0 (c ∷ cs)

abbrev pub u64_max : ℕ
u64_max = 2 ^ 64 - 1

abbrev pub i64_max : ℕ
i64_max = 2 ^ 63 - 1

unfoldable pub parse_u64 : Text → Option ℕ
parse_u64 s = parse_unsigned 10 u64_max s

-- `u64::from_str_radix(s, 16)`
unfoldable pub parse_hex : Text → Option ℕ
parse_hex s = parse_unsigned 16 u64_max s

abbrev signed : (ℕ → ℤ) → Option ℕ → Option ℤ
signed f none = none
signed f (some n) = some (f n)

unfoldable pub parse_i64 : Text → Option ℤ
parse_i64 [] = none
parse_i64 (c ∷ cs) =
    if c == b'-'
    then signed neg (after_plus 10 (2 ^ 63) cs)
    else signed pos (parse_unsigned 10 i64_max (c ∷ cs))

digits-ge : (top n v : ℕ) (s : Text) → digits 10 top n s ≡ some v → n ≤ v
unfolding digits
digits-ge top n v [] h = ground arith
digits-ge top n v (c ∷ cs) h = elim (Option-cases (digit 10 c)) [
  | inl no_digit ↦ absurd (cc (rw no_digit at h))
  | inr (d, e) ↦ ground (arith, rw e at h, digits-ge top (n * 10 + d) v cs)
]

-- A lower limit keeps the values that are within it and refuses the others.
digits_within :
    (top low n v : ℕ) (s : Text)
    → low ≤ top
    → n ≤ low
    → digits 10 top n s ≡ some v
    → digits 10 low n s ≡ (if leb v low then some v else none)
unfolding digits
digits_within top low n v [] le fits h = ground arith
digits_within top low n v (c ∷ cs) le fits h = elim (Option-cases (digit 10 c)) [
  | inl no_digit ↦ absurd (cc (rw no_digit at h))
  | inr (d, e) ↦ rw e (
      ground (
        arith,
        rw e at h,
        digits-ge top (n * 10 + d) v cs,
        digits_within top low (n * 10 + d) v cs,
      ))
]

parse_unsigned_within :
    (top low v : ℕ) (s : Text)
    → low ≤ top
    → parse_unsigned 10 top s ≡ some v
    → parse_unsigned 10 low s ≡ (if leb v low then some v else none)
unfolding parse_unsigned after_plus
parse_unsigned_within top low v [] le h = absurd (cc h)
parse_unsigned_within top low v (c ∷ []) le h = ground (arith, digits_within top low 0 v (c ∷ []))
parse_unsigned_within top low v (c ∷ d ∷ ds) le h =
    ground (arith, digits_within top low 0 v (c ∷ d ∷ ds), digits_within top low 0 v (d ∷ ds))

no_minus : (top v c : ℕ) (cs : Text) → c ≡ b'-' → parse_unsigned 10 top (c ∷ cs) ≢ some v
unfolding parse_unsigned digits digit
no_minus top v c cs e = rw e (λ h. cc h)

-- What `parse::<i64>()` makes of a text that `parse::<u64>()` accepts: the same number, if it is below
-- 2 ^ 63.
pub parse_i64_of_u64 :
    (s : Text) (v : ℕ)
    → parse_u64 s ≡ some v
    → parse_i64 s ≡ (if leb v i64_max then some (pos v) else none)
unfolding parse_u64 parse_i64
parse_i64_of_u64 [] v h = unfold parse_unsigned in absurd (cc h)
parse_i64_of_u64 (c ∷ cs) v h =
    ground (arith, no_minus u64_max v c cs, parse_unsigned_within u64_max i64_max v (c ∷ cs))
