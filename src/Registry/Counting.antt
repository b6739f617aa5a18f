-- ===== src/Registry/Counting.antt =====
-- The number that `load_from_dir` of src/registry.rs returns.
use edgewit.Prelude.{
  ℕ, ◌+◌, ◌≡◌, inl, inr, refl, Bool, true, false, Bool-cases, Option, none, some, List, [], ◌∷◌,
  Text, Assoc, insert, contains_key, if◌then◌else◌, arith, length,
}
use edgewit.Prelude.Attempts.{Attempt, returns, fails, panics}
use edgewit.Schema.Definition.{IndexDefinition}
use edgewit.Schema.Validation.{ValidationError, validate_schema}
use edgewit.Registry.Store
use edgewit.Registry.Store.{
  RegistryError, already_exists, not_found, lock_error, validation_error, IndexRegistry, Method,
  validated, register,
}
use edgewit.Registry.Loading.{
  DirEntry, DirPath, missing, unreadable, directory, from_file, is_definition, counted, loaded,
  load_entries, load_from_dir,
}

length-insert :
    (k : Text) (d : IndexDefinition) (m : Assoc IndexDefinition)
    → contains_key k m ≡ false
    → length (insert k d m) ≡ length m + 1
unfolding insert contains_key
length-insert k d [] h = omega arith
length-insert k d ((j, e) ∷ m) h = ground (arith, length-insert k d m)

-- `register` adds an entry exactly when it succeeds.
data Registered (reg : IndexRegistry)
    : Attempt RegistryError (Unit {0}) × IndexRegistry → Type 0 where
  added :
      (r : IndexRegistry)
      → length r.indexes ≡ length reg.indexes + 1
      → Registered reg (returns tt, r)
  refused : (e : RegistryError) → Registered reg (fails e, reg)
  stopped : Registered reg (panics, reg)

register_cases : (d : IndexDefinition) (reg : IndexRegistry) → Registered reg (register d reg)
unfolding register
register_cases d reg = by_validation (validate_schema d)
  where
    inserted :
        (b : Bool)
        → contains_key d.name reg.indexes ≡ b
        → Registered reg (if b then (fails (already_exists d.name), reg) else Store.put d reg)
    inserted true e = refused (already_exists d.name)
    inserted false e = added _ (length-insert d.name d reg.indexes e)

    by_lock :
        (b : Bool)
        → Registered reg (
            if b
            then (fails lock_error, reg)
            else (if contains_key d.name reg.indexes
                then (fails (already_exists d.name), reg)
                else Store.put d reg))
    by_lock true = refused lock_error
    by_lock false = inserted (contains_key d.name reg.indexes) refl

    by_validation :
        (v : Attempt ValidationError (Unit {0}))
        → Registered reg (
            validated v
              (Store.locked (λ r.
                if contains_key d.name r.indexes
                then (fails (already_exists d.name), r)
                else Store.put d r))
              reg)
    by_validation (returns u) = by_lock reg.poisoned
    by_validation (fails e) = refused (validation_error e)
    by_validation panics = stopped

-- The number of definitions.
abbrev pub size : IndexRegistry → ℕ
size reg = length reg.indexes

module _ (from_yaml : List ℕ → Option IndexDefinition) where
  -- What the rest of a load counts, it adds.
  abbrev Counts : (ℕ → Method ℕ) → Type 0
  Counts next =
      (count : ℕ) (reg : IndexRegistry) (n : ℕ)
      → (next count reg).0 ≡ returns n
      → size (next count reg).1 + count ≡ size reg + n

  counted-Counts :
      (next : ℕ → Method ℕ) (count : ℕ) (reg : IndexRegistry) (n : ℕ)
      (r : Attempt RegistryError (Unit {0}) × IndexRegistry)
      → Counts next
      → Registered reg r
      → (counted from_yaml next count r).0 ≡ returns n
      → size (counted from_yaml next count r).1 + count ≡ size reg + n
  counted-Counts next count reg n r k (added s more) h = omega (arith, k (count + 1) s n h)
  counted-Counts next count reg n r k (refused (already_exists name)) h = k count reg n h
  counted-Counts next count reg n r k (refused (not_found name)) h = absurd (cc h)
  counted-Counts next count reg n r k (refused (validation_error e)) h = absurd (cc h)
  counted-Counts next count reg n r k (refused Store.io_error) h = absurd (cc h)
  counted-Counts next count reg n r k (refused lock_error) h = absurd (cc h)
  counted-Counts next count reg n r k stopped h = absurd (cc h)

  loaded-Counts :
      (next : ℕ → Method ℕ) (count : ℕ) (reg : IndexRegistry) (n : ℕ)
      (d : Attempt ValidationError IndexDefinition)
      → Counts next
      → (loaded from_yaml next count d reg).0 ≡ returns n
      → size (loaded from_yaml next count d reg).1 + count ≡ size reg + n
  loaded-Counts next count reg n (returns d) k h =
      counted-Counts next count reg n (register d reg) k (register_cases d reg) h
  loaded-Counts next count reg n (fails e) k h = absurd (cc h)
  loaded-Counts next count reg n panics k h = absurd (cc h)

  load_entries-Counts : (es : List (Option DirEntry)) → Counts (load_entries from_yaml es)
  unfolding load_entries
  load_entries-Counts [] count reg n h = ground arith
  load_entries-Counts (none ∷ es) count reg n h = absurd (cc h)
  load_entries-Counts (some e ∷ es) count reg n h = elim (Bool-cases (is_definition from_yaml e)) [
    | inl yes_it_is ↦ rw yes_it_is (
        loaded-Counts (load_entries from_yaml es) count reg n (from_file from_yaml e)
          (load_entries-Counts es) (rw yes_it_is at h))
    | inr other ↦ rw other (load_entries-Counts es count reg n (rw other at h))
  ]

  -- If a load from a directory succeeds, the number that it returns is the number of definitions
  -- that the registry has gained.
  pub load_from_dir_count :
      (path : DirPath) (reg : IndexRegistry) (n : ℕ)
      → (load_from_dir from_yaml path reg).0 ≡ returns n
      → size (load_from_dir from_yaml path reg).1 ≡ size reg + n
  unfolding load_from_dir
  load_from_dir_count missing reg n h = ground arith
  load_from_dir_count unreadable reg n h = absurd (cc h)
  load_from_dir_count (directory es) reg n h = omega (arith, load_entries-Counts es 0 reg n h)
