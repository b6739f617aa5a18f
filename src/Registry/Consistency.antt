-- ===== src/Registry/Consistency.antt =====
-- The invariant of `IndexRegistry` in src/registry.rs.
use edgewit.Prelude.{
  ℕ, ◌+◌, ◌≡◌, refl, Bool, true, false, Option, none, some, List, [], ◌∷◌, Text, lookup,
  contains_key, if◌then◌else◌, arith, lookup-insert, lookup-remove, text_eq_iff, HasUniqueKeys,
  HasUniqueKeys-insert, HasUniqueKeys-remove,
}
use edgewit.Prelude.Attempts.{Attempt, returns, fails, panics}
use edgewit.Schema.Definition.{IndexDefinition}
use edgewit.Schema.Validation.{ValidationError, validate_schema}
use edgewit.Registry.Store.{
  RegistryError, already_exists, IndexRegistry, Method, new, validated, put, register, upsert,
  removed, remove,
}
use edgewit.Registry.Loading.{
  DirEntry, DirPath, missing, unreadable, directory, from_file, is_definition, counted, loaded,
  load_entries, load_from_dir,
}

pub record IsConsistent (reg : IndexRegistry) : Type 0 where
  pub unique : HasUniqueKeys reg.indexes
  pub own_name : (k : Text) (d : IndexDefinition) → lookup k reg.indexes ≡ some d → d.name ≡ k
  pub valid :
      (k : Text) (d : IndexDefinition)
      → lookup k reg.indexes ≡ some d
      → validate_schema d ≡ returns tt

new-IsConsistent : IsConsistent new
unfolding new lookup
new-IsConsistent = record { unique = tt; own_name = λ k d h. cc; valid = λ k d h. cc }

put-IsConsistent :
    (d : IndexDefinition) (reg : IndexRegistry)
    → validate_schema d ≡ returns tt
    → IsConsistent reg
    → IsConsistent (put d reg).1
put-IsConsistent d reg v c = record {
  unique = HasUniqueKeys-insert d.name d reg.indexes c.unique;
  own_name = λ k x h.
      ground (arith, lookup-insert d.name k d reg.indexes, text_eq_iff d.name k, c.own_name k x);
  valid = λ k x h.
      ground (arith, lookup-insert d.name k d reg.indexes, text_eq_iff d.name k, c.valid k x);
}

-- A method that begins with a validation keeps what its rest keeps.
validated-keeps :
    {A : Type 0} (P : IndexRegistry → Type 0) (v : Attempt ValidationError (Unit {0}))
    (rest : Method A) (reg : IndexRegistry)
    → P reg
    → (v ≡ returns tt → P (rest reg).1)
    → P (validated v rest reg).1
validated-keeps P (returns u) rest reg h k = k refl
validated-keeps P (fails e) rest reg h k = h
validated-keeps P panics rest reg h k = h

pub if-keeps :
    {A : Type 0} (P : IndexRegistry → Type 0) (b : Bool)
    (x y : Attempt RegistryError A × IndexRegistry)
    → P x.1
    → P y.1
    → P (if b then x else y).1
if-keeps P true x y h k = h
if-keeps P false x y h k = k

register-IsConsistent :
    (d : IndexDefinition) (reg : IndexRegistry) → IsConsistent reg → IsConsistent (register d reg).1
unfolding register
register-IsConsistent d reg c = validated-keeps IsConsistent (validate_schema d) _ reg c λ v.
    if-keeps IsConsistent reg.poisoned _ _ c
      (if-keeps IsConsistent (contains_key d.name reg.indexes) _ _ c (put-IsConsistent d reg v c))

upsert-IsConsistent :
    (d : IndexDefinition) (reg : IndexRegistry) → IsConsistent reg → IsConsistent (upsert d reg).1
unfolding upsert
upsert-IsConsistent d reg c =
    validated-keeps IsConsistent (validate_schema d) _ reg c
      λ v. if-keeps IsConsistent reg.poisoned _ _ c (put-IsConsistent d reg v c)

removed-IsConsistent :
    (name : Text) (reg : IndexRegistry) (o : Option IndexDefinition)
    → IsConsistent reg
    → IsConsistent (removed name reg o).1
removed-IsConsistent name reg none c = c
removed-IsConsistent name reg (some d) c = record {
  unique = HasUniqueKeys-remove name reg.indexes c.unique;
  own_name = λ k x h. ground (arith, lookup-remove name k reg.indexes, c.own_name k x);
  valid = λ k x h. ground (arith, lookup-remove name k reg.indexes, c.valid k x);
}

remove-IsConsistent :
    (name : Text) (reg : IndexRegistry) → IsConsistent reg → IsConsistent (remove name reg).1
unfolding remove
remove-IsConsistent name reg c =
    if-keeps IsConsistent reg.poisoned _ _ c
      (removed-IsConsistent name reg (lookup name reg.indexes) c)

module _ (from_yaml : List ℕ → Option IndexDefinition) where
  counted-keeps :
      (P : IndexRegistry → Type 0) (next : ℕ → Method ℕ) (count : ℕ)
      (r : Attempt RegistryError (Unit {0}) × IndexRegistry)
      → ((n : ℕ) (reg : IndexRegistry) → P reg → P (next n reg).1)
      → P r.1
      → P (counted from_yaml next count r).1
  counted-keeps P next count (returns u, reg) k h = k (count + 1) reg h
  counted-keeps P next count (fails (already_exists name), reg) k h = k count reg h
  counted-keeps P next count (fails _, reg) k h = h
  counted-keeps P next count (panics, reg) k h = h

  -- What every `register` keeps, the loading of a directory keeps.
  module _ (P : IndexRegistry → Type 0)
      (keep : (d : IndexDefinition) (reg : IndexRegistry) → P reg → P (register d reg).1) where
    loaded-keeps :
        (next : ℕ → Method ℕ) (count : ℕ) (d : Attempt ValidationError IndexDefinition)
        (reg : IndexRegistry)
        → ((n : ℕ) (r : IndexRegistry) → P r → P (next n r).1)
        → P reg
        → P (loaded from_yaml next count d reg).1
    loaded-keeps next count (returns d) reg k h =
        counted-keeps P next count (register d reg) k (keep d reg h)
    loaded-keeps next count (fails e) reg k h = h
    loaded-keeps next count panics reg k h = h

    load_entries-keeps :
        (es : List (Option DirEntry)) (count : ℕ) (reg : IndexRegistry)
        → P reg
        → P (load_entries from_yaml es count reg).1
    unfolding load_entries
    load_entries-keeps [] count reg h = h
    load_entries-keeps (none ∷ es) count reg h = h
    load_entries-keeps (some e ∷ es) count reg h =
        let next = load_entries from_yaml es in
        if-keeps P (is_definition from_yaml e)
          (loaded from_yaml next count (from_file from_yaml e) reg) (next count reg)
          (loaded-keeps next count (from_file from_yaml e) reg (load_entries-keeps es) h)
          (load_entries-keeps es count reg h)

    pub load_from_dir-keeps :
        (path : DirPath) (reg : IndexRegistry) → P reg → P (load_from_dir from_yaml path reg).1
    unfolding load_from_dir
    load_from_dir-keeps missing reg h = h
    load_from_dir-keeps unreadable reg h = h
    load_from_dir-keeps (directory es) reg h = load_entries-keeps es 0 reg h

-- A call of one of the registry's methods.
pub data Call : Type 0 where
  registers upserts : IndexDefinition → Call
  removes : Text → Call
  loads : DirPath → Call

module _ (from_yaml : List ℕ → Option IndexDefinition) where
  -- The registry after a call, whether the call succeeds or fails.
  unfoldable pub after : Call → IndexRegistry → IndexRegistry
  after (registers d) reg = (register d reg).1
  after (upserts d) reg = (upsert d reg).1
  after (removes name) reg = (remove name reg).1
  after (loads path) reg = (load_from_dir from_yaml path reg).1

  unfoldable pub run : List Call → IndexRegistry → IndexRegistry
  run [] reg = reg
  run (call ∷ calls) reg = run calls (after call reg)

  after-IsConsistent :
      (call : Call) (reg : IndexRegistry) → IsConsistent reg → IsConsistent (after call reg)
  unfolding after
  after-IsConsistent (registers d) reg c = register-IsConsistent d reg c
  after-IsConsistent (upserts d) reg c = upsert-IsConsistent d reg c
  after-IsConsistent (removes name) reg c = remove-IsConsistent name reg c
  after-IsConsistent (loads path) reg c =
      load_from_dir-keeps from_yaml IsConsistent register-IsConsistent path reg c

  run-IsConsistent :
      (calls : List Call) (reg : IndexRegistry) → IsConsistent reg → IsConsistent (run calls reg)
  unfolding run
  run-IsConsistent [] reg c = c
  run-IsConsistent (call ∷ calls) reg c =
      run-IsConsistent calls (after call reg) (after-IsConsistent call reg c)

  -- After any sequence of registrations, upserts, removals and loads of directories on a new
  -- registry, successful or not, each name has one definition, which carries that name and is
  -- valid.
  pub run-new-IsConsistent : (calls : List Call) → IsConsistent (run calls new)
  run-new-IsConsistent calls = run-IsConsistent calls new new-IsConsistent
