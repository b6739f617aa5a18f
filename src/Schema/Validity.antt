-- ===== src/Schema/Validity.antt =====
-- Which definitions `validate_schema` of src/schema/validation.rs accepts.
use edgewit.Prelude.{
  ℕ, ◌≡◌, ◌⊎◌, ◌↔◌, inl, inr, refl, ap, Bool, true, false, Bool-cases, Option, none, some, Text,
  contains_key, text_eq, ascii, [], ◌∷◌, ◌++◌, if◌then◌else◌, ◌∙◌, arith,
}
use edgewit.Prelude.Attempts.{returns, fails, Attempt, >>=-eq-returns}
use edgewit.Prelude.Numbers.{parse_u64}
use edgewit.Schema.Definition.{IndexDefinition, PartitionStrategy}
use edgewit.Schema.Validation.{
  ValidationError, validate_schema, check_retention, is_valid_retention, is_partitioned, is_unit,
  invalid_retention_format,
}
use edgewit.Schema.Retentions.{IsRetention, is_valid_retention_iff}

-- One of the letters of a text.
abbrev pub OneOf : ℕ → Text → Type 0
OneOf u [] = ⊥
OneOf u (c ∷ cs) = (u ≡ c) ⊎ OneOf u cs

-- A number that fits in a `u64`, and one of seven letters.
pub record HasForm (s : Text) : Type 0 where
  pub number : Text
  pub unit : ℕ
  pub form : s ≡ number ++ unit ∷ []
  pub value : ℕ
  pub read : parse_u64 number ≡ some value
  pub units : OneOf unit (ascii "smhdwMy")

is_unit_iff : (u : ℕ) → (is_unit (u ∷ []) ≡ true) ↔ OneOf u (ascii "smhdwMy")
unfolding is_unit text_eq
is_unit_iff u = ground arith

HasForm-IsRetention : (s : Text) → HasForm s → (v : ℕ) × (u : ℕ) × IsRetention s v u
HasForm-IsRetention s f = (
  f.value,
  f.unit,
  record { num = f.number; form = f.form; number = f.read; units = (is_unit_iff f.unit).1 f.units },
)

IsRetention-HasForm : (s : Text) (v u : ℕ) → IsRetention s v u → HasForm s
IsRetention-HasForm s v u r = record {
  number = r.num;
  unit = u;
  form = r.form;
  value = v;
  read = r.number;
  units = (is_unit_iff u).0 r.units;
}

-- A partitioned index has its timestamp field, and a retention has the form of one.
pub record IsSound (def : IndexDefinition) : Type 0 where
  pub timestamp :
      (def.partition ≡ PartitionStrategy.none)
      ⊎ (contains_key def.timestamp_field def.fields ≡ true)
  pub retention : (def.retention ≡ none) ⊎ ((s : Text) × (def.retention ≡ some s) × HasForm s)

partition_cases : (p : PartitionStrategy) → (p ≡ PartitionStrategy.none) ⊎ (is_partitioned p ≡ true)
partition_cases PartitionStrategy.none = inl refl
partition_cases PartitionStrategy.daily = inr refl
partition_cases PartitionStrategy.hourly = inr refl
partition_cases PartitionStrategy.monthly = inr refl

abbrev result_of : Bool → ValidationError → Attempt ValidationError (Unit {0})
result_of valid e = if valid then returns tt else fails e

if_returns : (b : Bool) (e : ValidationError) → result_of b e ≡ returns tt → b ≡ true
if_returns true e h = refl
if_returns false e h = absurd (cc h)

-- No retention, or one in the form of a retention.
abbrev HasSoundRetention : Option Text → Type 0
HasSoundRetention retention = (retention ≡ none) ⊎ ((s : Text) × (retention ≡ some s) × HasForm s)

check_retention_iff :
    (retention : Option Text)
    → (check_retention retention ≡ returns tt) ↔ HasSoundRetention retention
unfolding check_retention
check_retention_iff none = (λ _. inl refl, λ _. refl)
check_retention_iff (some s) = (λ h. inr (s, refl, form h), passes)
  where
    form : check_retention (some s) ≡ returns tt → HasForm s
    form h =
        let (valid, e, h') = >>=-eq-returns (is_valid_retention s) _ h in
        let (v, u, r) =
          (is_valid_retention_iff s).0
            (e ∙ ap returns (if_returns valid (invalid_retention_format s) h')) in
        IsRetention-HasForm s v u r

    passes : HasSoundRetention (some s) → check_retention (some s) ≡ returns tt
    passes (inl e) = absurd (cc e)
    passes (inr (s', e, f)) =
        rw
          ((is_valid_retention_iff s).1 (HasForm-IsRetention s (rw (let q : s ≡ s' = cc e in q) f)))
          refl

-- A definition is accepted exactly if its fields have its timestamp field or it is not
-- partitioned, and it has no retention or one that is a number that fits in a `u64` followed by
-- one of the letters s, m, h, d, w, M and y.
pub validate_schema_iff : (def : IndexDefinition) → (validate_schema def ≡ returns tt) ↔ IsSound def
unfolding validate_schema
validate_schema_iff def = elim (partition_cases def.partition) [
  | inl e ↦ (
    λ h. record {
      timestamp = inl e;
      retention = (check_retention_iff def.retention).0 (rw e at h);
    },
    λ s. rw e ((check_retention_iff def.retention).1 s.retention),
  )
  | inr p ↦ elim (Bool-cases (contains_key def.timestamp_field def.fields)) [
    | inl there ↦ (
      λ h. record {
        timestamp = inr there;
        retention = (check_retention_iff def.retention).0 (rw (p, there) at h);
      },
      λ s. rw (p, there) ((check_retention_iff def.retention).1 s.retention),
    )
    | inr missing ↦ (
      λ h. absurd (cc (rw (p, missing) at h)),
      λ s. absurd (ground (arith, s.timestamp, p, missing)),
    )
  ]
]
