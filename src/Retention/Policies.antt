-- ===== src/Retention/Policies.antt =====
-- What `parse_retention_duration` of src/retention.rs makes of a policy that was validated.
use edgewit.Prelude.{
  ℕ, suc, ◌≤◌, ◌<◌, ◌≡◌, ◌≢◌, refl, Bool, true, false, ◌&&◌, ◌||◌, Option, none, some, [], ◌∷◌,
  ◌++◌, Text, leb, if◌then◌else◌, length, arith, length-append, Bool-cases, inl, inr,
}
use edgewit.Prelude.Attempts.{Attempt, fails, ◌>>=◌}
use edgewit.Prelude.Numbers.{ℤ, pos, parse_i64, i64_max, parse_i64_of_u64}
use edgewit.Schema.Validation.{split_at, is_unit}
use edgewit.Schema.Retentions.{IsRetention, split_at_last, unit_ascii}
use edgewit.Retention.Duration.{
  Chrono, Absent, absent, duration_of, parse_retention_duration, or_absent, or_panic, mul_i64,
}

le→leb : (a b : ℕ) → a ≤ b → leb a b ≡ true
le→leb a b h = ground arith

gt→leb : (a b : ℕ) → b < a → leb a b ≡ false
gt→leb a b h = ground arith

module _ (c : Chrono) where
  parse_snoc :
      (num : Text) (u : ℕ)
      → parse_retention_duration c (num ++ u ∷ []) ≡ (do
        (a, b) ← split_at (num ++ u ∷ []) (length num)
        n ← or_absent (parse_i64 a)
        duration_of c b n)
  unfolding parse_retention_duration
  parse_snoc [] u = refl
  parse_snoc (d ∷ num) u =
      rw
        (let e : length (num ++ u ∷ []) ≡ suc (length num) =
            omega (arith, length-append num (u ∷ [])) in
          e)
        refl

  parse_valid :
      (s : Text) (v u : ℕ) (r : IsRetention s v u)
      → parse_retention_duration c s
        ≡ (if leb v i64_max then duration_of c (u ∷ []) (pos v) else fails absent)
  parse_valid s v u r =
      let one_byte : (leb 0x80 u && leb u 0xbf) ≡ false = ground (arith, unit_ascii u r.units) in
      rw (r.form, parse_snoc, split_at_last, one_byte, parse_i64_of_u64 r.num v r.number)
        (elim (Bool-cases (leb v i64_max)) [ inl e ↦ rw e refl | inr e ↦ rw e refl ])

  or_panic_present : (o : Option c.Duration) → or_panic o ≢ fails absent
  or_panic_present none e = cc e
  or_panic_present (some d) e = cc e

  -- One step down the chain of tests.
  present_if :
      (b rest : Bool) (o : Option c.Duration) (y : Attempt Absent c.Duration)
      → (rest ≡ true → y ≢ fails absent)
      → (b || rest) ≡ true
      → (if b then or_panic o else y) ≢ fails absent
  present_if true rest o y later h = or_panic_present o
  present_if false rest o y later h = later h

  present_last :
      (b : Bool) (o : Option c.Duration)
      → b ≡ true
      → (if b then or_panic o else fails absent) ≢ fails absent
  present_last true o h = or_panic_present o
  present_last false o h = absurd (cc h)

  duration_of_unit :
      (u : ℕ) (n : ℤ) → is_unit (u ∷ []) ≡ true → duration_of c (u ∷ []) n ≢ fails absent
  unfolding duration_of is_unit
  duration_of_unit u n = present_if _ _ (c.seconds n) _ (
      present_if _ _ (c.minutes n) _ (
        present_if _ _ (c.hours n) _ (
          present_if _ _ (c.days n) _ (
            present_if _ _ (c.days (mul_i64 n 7)) _ (
              present_if _ _ (c.days (mul_i64 n 30)) _
                (present_last _ (c.days (mul_i64 n 365))))))))

  -- A valid retention, with any chrono, is taken for no policy exactly if its number is 2 ^ 63 or
  -- more.
  pub valid_retention_is_read :
      (s : Text) (v u : ℕ)
      → IsRetention s v u
      → (v ≤ i64_max → parse_retention_duration c s ≢ fails absent)
        × (i64_max < v → parse_retention_duration c s ≡ fails absent)
  valid_retention_is_read s v u r = (
    λ le.
        rw (parse_valid s v u r, let e : leb v i64_max ≡ true = le→leb v i64_max le in e)
          (duration_of_unit u (pos v) r.units),
    λ gt. rw (parse_valid s v u r, let e : leb v i64_max ≡ false = gt→leb v i64_max gt in e) refl,
  )
