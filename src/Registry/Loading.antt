-- ===== src/Registry/Loading.antt =====
-- `IndexDefinition::from_file` of src/schema/definition.rs and `load_from_dir` of src/registry.rs.
-- serde_yaml's reading of a file is a parameter.
use edgewit.Prelude.{
  ℕ, ◌+◌, Bool, false, ◌&&◌, ◌||◌, Option, none, some, List, [], ◌∷◌, Text, ascii, ends_with,
  if◌then◌else◌,
}
use edgewit.Prelude.Attempts.{Attempt, returns, fails, panics, ◌>>=◌, ◌>>◌}
use edgewit.Schema.Definition.{IndexDefinition}
use edgewit.Schema.Validation.{ValidationError, io_error, yaml_error, validate_schema}
use edgewit.Registry.Store
use edgewit.Registry.Store.{
  RegistryError, already_exists, validation_error, IndexRegistry, Method, register,
}

-- An entry of a directory: `name` is `none` if it is no UTF-8, `content` if it cannot be read.
pub record DirEntry : Type 0 where
  pub name : Option Text
  pub is_file : Bool
  pub content : Option (List ℕ)

-- What the path is: nothing, a directory that cannot be read, or one with these entries.
pub data DirPath : Type 0 where
  missing : DirPath
  unreadable : DirPath
  directory : List (Option DirEntry) → DirPath

module _ (from_yaml : List ℕ → Option IndexDefinition) where
  abbrev pub parsed : Option (List ℕ) → Attempt ValidationError IndexDefinition
  parsed none = fails io_error
  parsed (some content) = elim (from_yaml content) [
    | none ↦ fails yaml_error
    | some def ↦ returns def
  ]

  unfoldable pub from_file : DirEntry → Attempt ValidationError IndexDefinition
  from_file e = do def ← parsed e.content; validate_schema def; returns def

  abbrev pub named : Option Text → Bool
  named none = false
  named (some name) = ends_with name (ascii ".index.yaml") || ends_with name (ascii ".index.yml")

  unfoldable pub is_definition : DirEntry → Bool
  is_definition e = e.is_file && named e.name

  -- The match on the result of `register`.
  abbrev pub counted :
      (ℕ → Method ℕ)
      → ℕ
      → Attempt RegistryError (Unit {0}) × IndexRegistry
      → Attempt RegistryError ℕ × IndexRegistry
  counted next count (returns u, reg) = next (count + 1) reg
  counted next count (fails (already_exists name), reg) = next count reg
  counted next count (fails e, reg) = (fails e, reg)
  counted next count (panics, reg) = (panics, reg)

  abbrev pub loaded : (ℕ → Method ℕ) → ℕ → Attempt ValidationError IndexDefinition → Method ℕ
  loaded next count (returns def) reg = counted next count (register def reg)
  loaded next count (fails e) reg = (fails (validation_error e), reg)
  loaded next count panics reg = (panics, reg)

  -- The loop over the entries; `none` is an entry that cannot be read.
  unfoldable pub load_entries : List (Option DirEntry) → ℕ → Method ℕ
  load_entries [] count reg = (returns count, reg)
  load_entries (none ∷ es) count reg = (fails Store.io_error, reg)
  load_entries (some e ∷ es) count reg =
      let next = load_entries es in
      if is_definition e then loaded next count (from_file e) reg else next count reg

  unfoldable pub load_from_dir : DirPath → Method ℕ
  load_from_dir missing reg = (returns 0, reg)
  load_from_dir unreadable reg = (fails Store.io_error, reg)
  load_from_dir (directory entries) reg = load_entries entries 0 reg
