-- ===== src/Schema/Retentions.antt =====
-- Which texts `is_valid_retention` of src/schema/validation.rs accepts.
use edgewit.Prelude.{
  ℕ, suc, ◌≤◌, ◌<◌, ◌≡◌, ◌↔◌, inl, inr, refl, sym, ap, true, ◌&&◌, some, [], ◌∷◌, ◌++◌, Text, leb,
  if◌then◌else◌, length, text_eq, arith, take_append, drop_append, length-append, Option-cases,
}
use edgewit.Prelude.Attempts.{returns, panics, ◌>>=◌}
use edgewit.Prelude.Numbers.{parse_u64}
use edgewit.Schema.Validation.{is_valid_retention, split_at, is_char_boundary, is_unit, is_some}

-- A text that is not empty is the bytes before its last one, and that one.
pub snoc : (c : ℕ) (cs : Text) → (num : Text) × (u : ℕ) × (c ∷ cs ≡ num ++ u ∷ [])
snoc c [] = ([], c, refl)
snoc c (d ∷ cs) = let (num, u, e) = snoc d cs in (c ∷ num, u, ap (◌∷◌ c) e)

-- `split_at(len - 1)` takes the last byte off, if it is a character of its own.
pub split_at_last {ℓ} :
    {E : Type ℓ} (num : Text) (u : ℕ)
    → split_at {E = E} (num ++ u ∷ []) (length num)
      ≡ (if leb 0x80 u && leb u 0xbf then panics else returns (num, u ∷ []))
unfolding split_at is_char_boundary
split_at_last num u = rw (take_append, drop_append) (ground arith)

is_valid_retention_snoc :
    (num : Text) (u : ℕ)
    → is_valid_retention (num ++ u ∷ []) ≡ (do
      (a, b) ← split_at (num ++ u ∷ []) (length num)
      returns (is_some (parse_u64 a) && is_unit b))
unfolding is_valid_retention
is_valid_retention_snoc [] u = refl
is_valid_retention_snoc (c ∷ num) u =
    rw
      (let e : length (num ++ u ∷ []) ≡ suc (length num) =
          omega (arith, length-append num (u ∷ [])) in
        e)
      refl

-- The form of a valid retention: a number that fits in a `u64`, and one of the seven units.
pub record IsRetention (s : Text) (v u : ℕ) : Type 0 where
  pub num : Text
  pub form : s ≡ num ++ u ∷ []
  pub number : parse_u64 num ≡ some v
  pub units : is_unit (u ∷ []) ≡ true

pub unit_ascii : (u : ℕ) → is_unit (u ∷ []) ≡ true → u < 0x80
unfolding is_unit text_eq
unit_ascii u h = ground arith

pub IsRetention-valid :
    (s : Text) (v u : ℕ) → IsRetention s v u → is_valid_retention s ≡ returns true
IsRetention-valid s v u r =
    rw (r.form, is_valid_retention_snoc, split_at_last)
      (ground (arith, unit_ascii u r.units, r.number, r.units))

accepted :
    (num : Text) (u : ℕ)
    → is_valid_retention (num ++ u ∷ []) ≡ returns true
    → (v : ℕ) × IsRetention (num ++ u ∷ []) v u
accepted num u h = elim (Option-cases (parse_u64 num)) [
  | inl e ↦ absurd (ground (arith, e, rw (is_valid_retention_snoc, split_at_last) at h))
  | inr (v, e) ↦ (
    v,
    record {
      num = num;
      form = refl;
      number = e;
      units = ground (arith, e, rw (is_valid_retention_snoc, split_at_last) at h);
    },
  )
]

-- A retention is accepted exactly if it is a number that fits in a `u64` followed by one of the
-- seven units.
pub is_valid_retention_iff :
    (s : Text) → (is_valid_retention s ≡ returns true) ↔ ((v : ℕ) × (u : ℕ) × IsRetention s v u)
is_valid_retention_iff s = (valid s, λ r. IsRetention-valid s r.0 r.1 r.2)
  where
    valid : (t : Text) → is_valid_retention t ≡ returns true → (v : ℕ) × (u : ℕ) × IsRetention t v u
    valid [] h = unfold is_valid_retention in absurd (ground arith)
    valid (c ∷ cs) h =
        let (num, u, e) = snoc c cs in
        let (v, r) = accepted num u (rw e at h) in (v, u, rw (sym e) at r)

-- A retention whose last byte is a continuation byte of UTF-8 makes the validation panic.
pub is_valid_retention_panics :
    (num : Text) (u : ℕ) → 0x80 ≤ u → u ≤ 0xbf → is_valid_retention (num ++ u ∷ []) ≡ panics
is_valid_retention_panics num u lo hi = rw (is_valid_retention_snoc, split_at_last) (ground arith)
