-- ===== src/Retention/Duration.antt =====
-- `parse_retention_duration` of src/retention.rs. chrono's durations are a parameter.
use edgewit.Prelude.{
  ℕ, suc, ◌-◌, ◌*◌, ◌%◌, ◌^◌, Option, none, some, [], ◌∷◌, Text, length, ltb, if◌then◌else◌,
  text_eq, ascii,
}
use edgewit.Prelude.Attempts.{Attempt, returns, fails, panics, ◌>>=◌}
use edgewit.Prelude.Numbers.{ℤ, pos, negsuc, parse_i64}
use edgewit.Schema.Validation.{split_at}

-- The number that a pattern of 64 bits stands for as an `i64`.
abbrev pub signed64 : ℕ → ℤ
signed64 p = if ltb p (2 ^ 63) then pos p else negsuc (2 ^ 64 - p - 1)

-- `n * k` on an `i64`, which wraps in the release profile.
unfoldable pub mul_i64 : ℤ → ℕ → ℤ
mul_i64 (pos a) k = signed64 (a * k % 2 ^ 64)
mul_i64 (negsuc a) k = signed64 ((2 ^ 64 - suc a * k % 2 ^ 64) % 2 ^ 64)

-- `None` of the source
pub data Absent : Type 0 where
  absent : Absent

-- `chrono::Duration` and its constructors. `none` is the documented panic on a value that is out of
-- bounds.
pub record Chrono : Type 1 where
  pub Duration : Type 0
  pub seconds : ℤ → Option Duration
  pub minutes : ℤ → Option Duration
  pub hours : ℤ → Option Duration
  pub days : ℤ → Option Duration

abbrev pub or_panic {ℓ κ} : {E : Type ℓ} {A : Type κ} → Option A → Attempt E A
or_panic none = panics
or_panic (some a) = returns a

-- `o.ok()?`
abbrev pub or_absent {κ} : {A : Type κ} → Option A → Attempt Absent A
or_absent none = fails absent
or_absent (some a) = returns a

module _ (c : Chrono) where
  open c use {Duration, seconds, minutes, hours, days}

  unfoldable pub duration_of : Text → ℤ → Attempt Absent Duration
  duration_of unit n =
      if text_eq unit (ascii "s")
      then or_panic (seconds n)
      else if text_eq unit (ascii "m")
      then or_panic (minutes n)
      else if text_eq unit (ascii "h")
      then or_panic (hours n)
      else if text_eq unit (ascii "d")
      then or_panic (days n)
      else if text_eq unit (ascii "w")
      then or_panic (days (mul_i64 n 7))
      else if text_eq unit (ascii "M")
      then or_panic (days (mul_i64 n 30))
      else if text_eq unit (ascii "y")
      then or_panic (days (mul_i64 n 365))
      else fails absent

  unfoldable pub parse_retention_duration : Text → Attempt Absent Duration
  parse_retention_duration [] = fails absent
  parse_retention_duration (b ∷ bs) = do
    (num_str, unit) ← split_at (b ∷ bs) (length bs)
    n ← or_absent (parse_i64 num_str)
    duration_of unit n
