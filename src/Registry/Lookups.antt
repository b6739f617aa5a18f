-- ===== src/Registry/Lookups.antt =====
-- What a client of `IndexRegistry` in src/registry.rs sees after a change.
use edgewit.Prelude.{
  ◌≡◌, ◌≢◌, refl, ap, ◌∙◌, true, false, Option, none, some, Text, Assoc, lookup, contains_key,
  if◌then◌else◌, lookup-insert, lookup-remove, text_eq, contains_key_lem, is_some,
}
use edgewit.Prelude.Attempts.{returns, fails}
use edgewit.Schema.Definition.{IndexDefinition}
use edgewit.Schema.Validation.{ValidationError, validate_schema}
use edgewit.Registry.Store.{
  already_exists, not_found, validation_error, IndexRegistry, register, upsert, remove, get,
}

contains_key_of_lookup :
    (k : Text) (m : Assoc IndexDefinition) → lookup k m ≢ none → contains_key k m ≡ true
contains_key_of_lookup k m h = contains_key_lem k m ∙ by_cases (lookup k m) h
  where
    by_cases : (o : Option IndexDefinition) → o ≢ none → is_some o ≡ true
    by_cases none ne = absurd (ne refl)
    by_cases (some d) ne = refl

module _ (reg : IndexRegistry) (free : reg.poisoned ≡ false) where
  -- On a registry that is not poisoned, a valid definition whose name is free is registered: `get`
  -- returns it for its name and what it returned for every other; if the name is taken, the answer
  -- is an error and nothing changes.
  pub register_outcome :
      (d : IndexDefinition)
      → validate_schema d ≡ returns tt
      → (get reg d.name ≡ none
          → ((register d reg).0 ≡ returns tt)
            × ((name : Text)
                → get (register d reg).1 name
                  ≡ (if text_eq d.name name then some d else get reg name)))
        × (get reg d.name ≢ none → register d reg ≡ (fails (already_exists d.name), reg))
  unfolding register get
  register_outcome d v = (
    λ fresh.
        let c : contains_key d.name reg.indexes ≡ false =
          contains_key_lem d.name reg.indexes ∙ ap is_some (rw free at fresh) in
        rw (v, free, c) (refl, λ name. rw lookup-insert refl),
    λ old.
        let c : contains_key d.name reg.indexes ≡ true =
          contains_key_of_lookup d.name reg.indexes (rw free at old) in
        rw (v, free, c) refl,
  )

  -- On a registry that is not poisoned, a valid definition always takes the place of what stood
  -- under its name, and `get` returns what it returned for every other name.
  pub upsert_outcome :
      (d : IndexDefinition)
      → validate_schema d ≡ returns tt
      → ((upsert d reg).0 ≡ returns tt)
        × ((name : Text)
            → get (upsert d reg).1 name ≡ (if text_eq d.name name then some d else get reg name))
  unfolding upsert get
  upsert_outcome d v = rw (v, free) (refl, λ name. rw lookup-insert refl)

  -- On a registry that is not poisoned, removing a name returns its definition, which `get` does
  -- not return any more while all others stay; a name without definition is an error and nothing
  -- changes.
  pub remove_outcome :
      (name : Text)
      → ((d : IndexDefinition)
          → get reg name ≡ some d
          → ((remove name reg).0 ≡ returns d)
            × ((other : Text)
                → get (remove name reg).1 other
                  ≡ (if text_eq name other then none else get reg other)))
        × (get reg name ≡ none → remove name reg ≡ (fails (not_found name), reg))
  unfolding remove get
  remove_outcome name = (
    λ d h.
        rw (free, let e : lookup name reg.indexes ≡ some d = rw free at h in e)
          (refl, λ other. rw lookup-remove refl),
    λ h. rw (free, let e : lookup name reg.indexes ≡ none = rw free at h in e) refl,
  )

-- A definition that does not validate is refused with that error by `register` and by `upsert`,
-- and the registry does not change.
pub invalid_is_refused :
    (d : IndexDefinition) (reg : IndexRegistry) (e : ValidationError)
    → validate_schema d ≡ fails e
    → (register d reg ≡ (fails (validation_error e), reg))
      × (upsert d reg ≡ (fails (validation_error e), reg))
unfolding register upsert
invalid_is_refused d reg e v = rw v (refl, refl)
