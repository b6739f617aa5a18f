-- ===== src/Schema/Validation.antt =====
-- src/schema/validation.rs: `validate_schema` and `is_valid_retention`.
use edgewit.Prelude.{
  ℕ, Bool, true, false, ◌&&◌, ◌||◌, not, Option, none, some, List, [], ◌∷◌, Text, leb,
  if◌then◌else◌, contains_key, length, take, drop, ascii, text_eq,
}
use edgewit.Prelude.Attempts.{Attempt, returns, fails, panics, ◌>>=◌}
use edgewit.Prelude.Numbers.{parse_u64}
use edgewit.Schema.Definition.{IndexDefinition, PartitionStrategy}

pub data ValidationError : Type 0 where
  missing_timestamp_field : Text → ValidationError
  invalid_retention_format : Text → ValidationError
  io_error : ValidationError
  yaml_error : ValidationError

-- `s.split_at(mid)` on a text panics unless a character begins at byte `mid`: that byte is no
-- continuation byte, or `mid` is the length.
unfoldable pub is_char_boundary : List ℕ → Bool
is_char_boundary [] = true
is_char_boundary (b ∷ bs) = not (leb 0x80 b && leb b 0xbf)

unfoldable pub split_at {ℓ} : {E : Type ℓ} → Text → ℕ → Attempt E (Text × Text)
split_at s mid = if is_char_boundary (drop mid s) then returns (take mid s, drop mid s) else panics

-- `matches!(unit_part, "s" | "m" | "h" | "d" | "w" | "M" | "y")`
unfoldable pub is_unit : Text → Bool
is_unit u =
    text_eq u (ascii "s")
    || (text_eq u (ascii "m")
        || (text_eq u (ascii "h")
            || (text_eq u (ascii "d")
                || (text_eq u (ascii "w") || (text_eq u (ascii "M") || text_eq u (ascii "y"))))))

abbrev pub is_some : {A : Type 0} → Option A → Bool
is_some none = false
is_some (some a) = true

unfoldable pub is_valid_retention : Text → Attempt ValidationError Bool
is_valid_retention [] = returns false
is_valid_retention (c ∷ cs) = do
  (num_part, unit_part) ← split_at (c ∷ cs) (length cs)
  returns (is_some (parse_u64 num_part) && is_unit unit_part)

-- `def.partition != PartitionStrategy::None`
abbrev pub is_partitioned : PartitionStrategy → Bool
is_partitioned PartitionStrategy.none = false
is_partitioned _ = true

unfoldable pub check_retention : Option Text → Attempt ValidationError (Unit {0})
check_retention none = returns tt
check_retention (some retention) = do
  valid ← is_valid_retention retention
  if valid then returns tt else fails (invalid_retention_format retention)

unfoldable pub validate_schema : IndexDefinition → Attempt ValidationError (Unit {0})
validate_schema def =
    if is_partitioned def.partition && not (contains_key def.timestamp_field def.fields)
    then fails (missing_timestamp_field def.timestamp_field)
    else check_retention def.retention
