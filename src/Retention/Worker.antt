-- ===== src/Retention/Worker.antt =====
-- `apply_retention` of src/retention.rs. chrono's instants are a parameter.
use edgewit.Prelude.{
  ◌≡◌, refl, ap, Bool, true, false, Option, none, some, List, [], ◌∷◌, Text, arith,
}
use edgewit.Prelude.Attempts.{Attempt, returns, fails, panics}
use edgewit.Schema.Definition.{IndexDefinition}
use edgewit.Retention.Duration.{Chrono, Absent, parse_retention_duration}

-- `PurgeCommand` of src/indexer.rs
pub record PurgeCommand (Instant : Type 0) : Type 0 where
  pub index_name : Text
  pub cutoff : Instant

-- `before_now` is `Utc::now() - duration`, which panics out of bounds. A send to a closed channel is
-- only logged.
module _ (c : Chrono) (Instant : Type 0) (before_now : c.Duration → Option Instant) where
  -- The commands that were sent, and whether the loop came to its end without a panic.
  abbrev pub Sent : Type 0
  Sent = List (PurgeCommand Instant) × Bool

  abbrev pub with_cutoff : Text → Option Instant → Sent → Sent
  with_cutoff name none rest = ([], false)
  with_cutoff name (some cutoff) (commands, finished) =
      (record { index_name = name; cutoff = cutoff } ∷ commands, finished)

  abbrev pub with_duration : Text → Attempt Absent c.Duration → Sent → Sent
  with_duration name (fails e) rest = rest
  with_duration name panics rest = ([], false)
  with_duration name (returns duration) rest = with_cutoff name (before_now duration) rest

  abbrev pub with_retention : Text → Option Text → Sent → Sent
  with_retention name none rest = rest
  with_retention name (some retention) rest =
      with_duration name (parse_retention_duration c retention) rest

  -- The loop over `registry.list()`.
  unfoldable pub apply_retention : List IndexDefinition → Sent
  apply_retention [] = ([], true)
  apply_retention (def ∷ defs) = with_retention def.name def.retention (apply_retention defs)

  -- What a definition asks for.
  abbrev pub cutoff_of : Attempt Absent c.Duration → Option Instant
  cutoff_of (returns duration) = before_now duration
  cutoff_of (fails e) = none
  cutoff_of panics = none

  abbrev pub policy_of : Option Text → Option Instant
  policy_of none = none
  policy_of (some retention) = cutoff_of (parse_retention_duration c retention)

  abbrev pub keep_policy :
      Text → Option Instant → List (PurgeCommand Instant) → List (PurgeCommand Instant)
  keep_policy name none rest = rest
  keep_policy name (some cutoff) rest = record { index_name = name; cutoff = cutoff } ∷ rest

  abbrev pub policies : List IndexDefinition → List (PurgeCommand Instant)
  policies [] = []
  policies (def ∷ defs) = keep_policy def.name (policy_of def.retention) (policies defs)

  with_duration-policy :
      (name : Text) (d : Attempt Absent c.Duration) (rest : Sent) (ps : List (PurgeCommand Instant))
      → (rest.1 ≡ true → rest.0 ≡ ps)
      → (with_duration name d rest).1 ≡ true
      → (with_duration name d rest).0 ≡ keep_policy name (cutoff_of d) ps
  with_duration-policy name (fails e) rest ps k h = k h
  with_duration-policy name panics rest ps k h = ground arith
  with_duration-policy name (returns d) rest ps k h = by_cutoff (before_now d) h
    where
      by_cutoff :
          (o : Option Instant)
          → (with_cutoff name o rest).1 ≡ true
          → (with_cutoff name o rest).0 ≡ keep_policy name o ps
      by_cutoff none q = ground arith
      by_cutoff (some t) q = ap (λ l. record { index_name = name; cutoff = t } ∷ l) (k q)

  -- If the pass over the indexes comes to its end without a panic, it has sent one purge for each
  -- index that has a retention which can be read, in order, with the cutoff of that retention.
  pub apply_retention-policies :
      (defs : List IndexDefinition)
      → (apply_retention defs).1 ≡ true
      → (apply_retention defs).0 ≡ policies defs
  unfolding apply_retention
  apply_retention-policies [] h = refl
  apply_retention-policies (def ∷ defs) h =
      by_retention (apply_retention-policies defs) def.retention h
    where
      by_retention :
          ((apply_retention defs).1 ≡ true → (apply_retention defs).0 ≡ policies defs)
          → (r : Option Text) → (with_retention def.name r (apply_retention defs)).1 ≡ true
          → (with_retention def.name r (apply_retention defs)).0
            ≡ keep_policy def.name (policy_of r) (policies defs)
      by_retention k none q = k q
      by_retention k (some s) q =
          with_duration-policy def.name (parse_retention_duration c s) (apply_retention defs)
            (policies defs) k q
