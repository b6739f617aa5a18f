-- ===== src/Indexer/Caching.antt =====
-- The caches of `IndexManager` (src/index_manager.rs).
use edgewit.Prelude.{
  ◌≡◌, refl, ap, ◌∙◌, false, Option, none, some, Text, lookup, Result, ok, err, arith,
  lookup-insert_self,
}
use edgewit.Registry.Store.{IndexRegistry, get}
use edgewit.Schema.Definition.{IndexDefinition}
use edgewit.Schema.Builder.{build_schema}
use edgewit.Indexer.Engine.{Engine}
use edgewit.Indexer.Manager.{
  IndexManager, index_path, cached, keep_index, open_defined, cached_or_open, get_or_create_index,
}

module _ (lib : Engine) where
  -- The index is in the cache, as long as its lock is not poisoned.
  abbrev Holds : Text → lib.Index → IndexManager lib → Type 0
  Holds name idx m = (m.indexes_poisoned ≡ false) × (lookup name m.indexes ≡ some idx)

  keep_index-Holds :
      (name : Text) (idx : lib.Index) (m : IndexManager lib) (p : Result Text lib.Index × lib.World)
      → m.indexes_poisoned ≡ false
      → (keep_index lib name m p).0 ≡ ok idx
      → Holds name idx (keep_index lib name m p).1.0
  keep_index-Holds name idx m (ok i, w) f h = (f, rw f (lookup-insert_self name i m.indexes ∙ cc h))
  keep_index-Holds name idx m (err e, w) f h = ground arith

  open_defined-Holds :
      (name : Text) (idx : lib.Index) (m : IndexManager lib) (w : lib.World)
      (def : Option IndexDefinition)
      → m.indexes_poisoned ≡ false
      → (open_defined lib name m w def).0 ≡ ok idx
      → Holds name idx (open_defined lib name m w def).1.0
  open_defined-Holds name idx m w none f h = ground arith
  open_defined-Holds name idx m w (some def) f h =
      keep_index-Holds name idx m (lib.open_or_create (index_path lib m name) (build_schema def) w)
        f h

  cached_or_open-Holds :
      (name : Text) (idx : lib.Index) (m : IndexManager lib) (w : lib.World)
      (found : Option lib.Index)
      → m.indexes_poisoned ≡ false
      → cached lib m.indexes_poisoned m.indexes name ≡ found
      → (cached_or_open lib name m w found).0 ≡ ok idx
      → Holds name idx (cached_or_open lib name m w found).1.0
  cached_or_open-Holds name idx m w (some i) f e h = (f, (rw f at e) ∙ cc h)
  cached_or_open-Holds name idx m w none f e h =
      open_defined-Holds name idx m w (get m.registry name) f h

  hit :
      (name : Text) (idx : lib.Index) (m : IndexManager lib) (w : lib.World)
      → m.indexes_poisoned ≡ false
      → lookup name m.indexes ≡ some idx
      → get_or_create_index lib name m w ≡ (ok idx, (m, w))
  unfolding get_or_create_index
  hit name idx m w f e =
      let found : cached lib m.indexes_poisoned m.indexes name ≡ some idx = (rw f e) in
      ap (cached_or_open lib name m w) found

  -- If the cache is not poisoned, an index that was returned once is returned again from the
  -- cache, whatever registry and outside world the manager has by then: nothing is opened and
  -- nothing changes.
  pub get_or_create_index_again :
      (name : Text) (idx : lib.Index) (m : IndexManager lib) (w : lib.World)
      → m.indexes_poisoned ≡ false
      → (get_or_create_index lib name m w).0 ≡ ok idx
      → (registry : IndexRegistry) (later : lib.World)
      → let m' : IndexManager lib = record (get_or_create_index lib name m w).1.0 {
        registry = registry;
      } in
        get_or_create_index lib name m' later ≡ (ok idx, (m', later))
  unfolding get_or_create_index
  get_or_create_index_again name idx m w f h registry later =
      let (p, e) =
        cached_or_open-Holds name idx m w (cached lib m.indexes_poisoned m.indexes name) f refl h in
      hit name idx (record (get_or_create_index lib name m w).1.0 { registry = registry }) later p e
