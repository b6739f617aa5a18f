-- ===== src/Registry/Store.antt =====
-- `IndexRegistry` of src/registry.rs and its operations on single definitions.
use edgewit.Prelude.{
  Bool, false, Option, none, some, List, [], ◌∷◌, Text, Assoc, lookup, insert, remove as remove_key,
  contains_key, if◌then◌else◌,
}
use edgewit.Prelude.Attempts.{Attempt, returns, fails, panics}
use edgewit.Schema.Definition.{IndexDefinition}
use edgewit.Schema.Validation.{ValidationError, validate_schema}

pub data RegistryError : Type 0 where
  already_exists : Text → RegistryError
  not_found : Text → RegistryError
  validation_error : ValidationError → RegistryError
  io_error : RegistryError
  lock_error : RegistryError

-- The map behind the lock; a thread that panicked while it held the lock has poisoned it.
pub record IndexRegistry : Type 0 where
  pub indexes : Assoc IndexDefinition
  pub poisoned : Bool

-- A method's result, and the registry after it.
abbrev pub Method : Type 0 → Type 0
Method A = IndexRegistry → Attempt RegistryError A × IndexRegistry

unfoldable pub new : IndexRegistry
new = record { indexes = []; poisoned = false }

-- `definition.validate()?` and then the rest.
abbrev pub validated : {A : Type 0} → Attempt ValidationError (Unit {0}) → Method A → Method A
validated (returns u) rest reg = rest reg
validated (fails e) rest reg = (fails (validation_error e), reg)
validated panics rest reg = (panics, reg)

-- `self.indexes.write()…?` and then the rest.
abbrev pub locked : {A : Type 0} → Method A → Method A
locked rest reg = if reg.poisoned then (fails lock_error, reg) else rest reg

abbrev pub put : IndexDefinition → Method (Unit {0})
put definition reg =
    (returns tt, record reg { indexes = insert definition.name definition reg.indexes })

unfoldable pub register : IndexDefinition → Method (Unit {0})
register definition = validated (validate_schema definition) (
    locked (λ reg.
      if contains_key definition.name reg.indexes
      then (fails (already_exists definition.name), reg)
      else put definition reg))

unfoldable pub upsert : IndexDefinition → Method (Unit {0})
upsert definition = validated (validate_schema definition) (locked (put definition))

unfoldable pub get : IndexRegistry → Text → Option IndexDefinition
get reg name = if reg.poisoned then none else lookup name reg.indexes

abbrev pub values : Assoc IndexDefinition → List IndexDefinition
values [] = []
values ((k, v) ∷ m) = v ∷ values m

unfoldable pub list : IndexRegistry → List IndexDefinition
list reg = if reg.poisoned then [] else values reg.indexes

abbrev pub removed :
    Text
    → IndexRegistry
    → Option IndexDefinition
    → Attempt RegistryError IndexDefinition × IndexRegistry
removed name reg none = (fails (not_found name), reg)
removed name reg (some definition) =
    (returns definition, record reg { indexes = remove_key name reg.indexes })

unfoldable pub remove : Text → Method IndexDefinition
remove name = locked (λ reg. removed name reg (lookup name reg.indexes))
