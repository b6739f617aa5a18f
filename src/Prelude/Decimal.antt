-- ===== src/Prelude/Decimal.antt =====
-- `to_string` of an unsigned integer, and that parsing reads it back.
use Prim.Native.Nat.{ℕ, zero, suc, ◌+◌, ◌*◌, ◌/◌, ◌%◌, ◌^◌, ◌≤◌, ◌<◌}
use mathlib.Core.Path.{◌≡◌, refl, sym, ap, ◌∙◌}
use mathlib.Core.Logic.{inl, inr}
use mathlib.Core.Option.{Option, none, some}
use mathlib.Core.List.{[], ◌∷◌, ◌++◌}
use native.Mathlib.Omega.{arith}
use edgewit.Prelude.Tests.{ltb, leb, if◌then◌else◌, Bool-cases}
use edgewit.Prelude.Bytes.{Text}
use edgewit.Prelude.Numbers.{next, digit, digits, parse_unsigned, parse_u64, u64_max}

-- The digits of a number below `10 ^ fuel`, the last one at least.
unfoldable pub show : ℕ → ℕ → Text
show zero n = []
show (suc fuel) n =
    let front = show fuel (n / 10) in
    if ltb n 10 then (b'0' + n) ∷ [] else front ++ (b'0' + n % 10) ∷ []

-- A `u64` has at most 20 digits.
unfoldable pub decimal : ℕ → Text
decimal n = show 20 n

digits-append :
    (top n : ℕ) (s t : Text)
    → digits 10 top n (s ++ t) ≡ next (digits 10 top n s) (λ m. digits 10 top m t)
unfolding digits
digits-append top n [] t = refl
digits-append top n (c ∷ s) t = by_digit (λ d. digits-append top (n * 10 + d) s t) (digit 10 c)
  where
    by_digit :
        ((d : ℕ)
          → digits 10 top (n * 10 + d) (s ++ t)
            ≡ next (digits 10 top (n * 10 + d) s) (λ m. digits 10 top m t))
        → (o : Option ℕ)
        → next o (λ d. if leb (n * 10 + d) top then digits 10 top (n * 10 + d) (s ++ t) else none)
          ≡ next
              (next o (λ d. if leb (n * 10 + d) top then digits 10 top (n * 10 + d) s else none))
              (λ m. digits 10 top m t)
    by_digit ih none = refl
    by_digit ih (some d) = elim (Bool-cases (leb (n * 10 + d) top)) [
      | inl fits ↦ rw fits (ih d)
      | inr over ↦ rw over refl
    ]

digit-shown : (d : ℕ) → d < 10 → digit 10 (b'0' + d) ≡ some d
unfolding digit
digit-shown d h = ground arith

-- One digit more.
digits-snoc :
    (top n d : ℕ) (s : Text)
    → digits 10 top 0 s ≡ some n
    → d < 10
    → n * 10 + d ≤ top
    → digits 10 top 0 (s ++ (b'0' + d) ∷ []) ≡ some (n * 10 + d)
digits-snoc top n d s h small le =
    digits-append top 0 s ((b'0' + d) ∷ [])
    ∙ rw h (unfold digits in rw (digit-shown d small) (ground arith))

digits-show : (top fuel n : ℕ) → n < 10 ^ fuel → n ≤ top → digits 10 top 0 (show fuel n) ≡ some n
unfolding show
digits-show top zero n small le = unfold digits in ap some' (omega arith)
  where
    some' : ℕ → Option ℕ
    some' = some
digits-show top (suc fuel) n small le = elim (Bool-cases (ltb n 10)) [
  | inl one ↦ rw one (unfold digits in rw (digit-shown n (ground arith)) (ground arith))
  | inr more ↦ rw more (
      digits-snoc top (n / 10) (n % 10) (show fuel (n / 10))
        (digits-show top fuel (n / 10) (tenth fuel n small) (omega arith)) (omega arith)
        (omega arith)
      ∙ ap some' (omega arith))
]
  where
    some' : ℕ → Option ℕ
    some' = some

    tenth : (fuel n : ℕ) → n < 10 ^ suc fuel → n / 10 < 10 ^ fuel
    tenth fuel n h = omega arith

-- The text begins with a digit.
show-begins : (fuel n : ℕ) → (c : ℕ) × (cs : Text) × (show (suc fuel) n ≡ c ∷ cs) × (48 ≤ c)
unfolding show
show-begins zero n = elim (Bool-cases (ltb n 10)) [
  | inl one ↦ (b'0' + n, [], rw one refl, omega arith)
  | inr more ↦ (b'0' + n % 10, [], rw more refl, omega arith)
]
show-begins (suc fuel) n =
    let (c, cs, e, le) = show-begins fuel (n / 10) in
    elim (Bool-cases (ltb n 10)) [
      | inl one ↦ (b'0' + n, [], rw one refl, omega arith)
      | inr more ↦
          (c, cs ++ (b'0' + n % 10) ∷ [], rw more (ap (λ l. l ++ (b'0' + n % 10) ∷ []) e), le)
    ]

no_plus :
    (top c : ℕ) (cs : Text) → 48 ≤ c → parse_unsigned 10 top (c ∷ cs) ≡ digits 10 top 0 (c ∷ cs)
unfolding parse_unsigned
no_plus top c cs le = ground arith

-- A `u64` is read back from its text.
pub parse_u64-decimal : (n : ℕ) → n < 2 ^ 64 → parse_u64 (decimal n) ≡ some n
unfolding parse_u64 decimal
parse_u64-decimal n h =
    let (c, cs, e, le) = show-begins 19 n in
    ap (parse_unsigned 10 u64_max) e
    ∙ (no_plus u64_max c cs le
        ∙ (ap (digits 10 u64_max 0) (sym e) ∙ digits-show u64_max 20 n (omega arith) (omega arith)))
