-- ===== src/Indexer/Roots.antt =====
-- The document that `process_event` of src/indexer.rs hands to the search library.
use edgewit.Prelude.{
  ◌≡◌, refl, sym, ap, ◌∙◌, inl, inr, Bool, true, false, ◌&&◌, not, Bool-cases, Option, none, some,
  List, [], ◌∷◌, ◌++◌, Text, Assoc, ascii, lookup, insert, contains_key, if◌then◌else◌, text_eq,
  text_eq_iff, lookup-insert, HasUniqueKeys,
}
use edgewit.Json.{Value, string, is_null}
use edgewit.Schema.Definition.{IndexDefinition, SchemaMode, strict, drop_unmapped, dynamic}
use edgewit.Indexer.Engine.{Engine}
use edgewit.Indexer.Document.{dynamic_part, collect, with_dynamic, root_of, join}

-- A value stands in the document under its own name if the definition has the name and it is not null.
abbrev pub mapped : IndexDefinition → Text → Option Value → Option Value
mapped def name none = none
mapped def name (some v) = if contains_key name def.fields && not (is_null v) then some v else none

abbrev pub or_else : Option Value → Option Value → Option Value
or_else (some v) o = some v
or_else none o = o

or_else_none : (o : Option Value) → or_else o none ≡ o
or_else_none none = refl
or_else_none (some v) = refl

-- The entry `k` goes into the document, or not; `name` is asked for.
entry_taken :
    (def : IndexDefinition) (k name : Text) (v : Value) (map root : Assoc Value)
    → lookup k map ≡ none
    → (contains_key k def.fields && not (is_null v)) ≡ true
    → or_else
        (mapped def name (lookup name map))
        (if text_eq k name then some v else lookup name root)
      ≡ or_else
          (mapped def name (if text_eq k name then some v else lookup name map))
          (lookup name root)
entry_taken def k name v map root fresh b = elim (Bool-cases (text_eq k name)) [
  | inl y ↦
      let same = (text_eq_iff k name).0 y in
      rw
        (
          y,
          ap (λ i. lookup i map) (sym same) ∙ fresh,
          ap (λ i. contains_key i def.fields && not (is_null v)) (sym same) ∙ b,
        )
        refl
  | inr n ↦ rw n refl
]

entry_skipped :
    (def : IndexDefinition) (k name : Text) (v : Value) (map root : Assoc Value)
    → lookup k map ≡ none
    → (contains_key k def.fields && not (is_null v)) ≡ false
    → or_else (mapped def name (lookup name map)) (lookup name root)
      ≡ or_else
          (mapped def name (if text_eq k name then some v else lookup name map))
          (lookup name root)
entry_skipped def k name v map root fresh b = elim (Bool-cases (text_eq k name)) [
  | inl y ↦
      let same = (text_eq_iff k name).0 y in
      rw
        (
          y,
          ap (λ i. lookup i map) (sym same) ∙ fresh,
          ap (λ i. contains_key i def.fields && not (is_null v)) (sym same) ∙ b,
        )
        refl
  | inr n ↦ rw n refl
]

if_same :
    {A B : Type 0} (b : Bool) (x y : A) (f : A → B) (z : B)
    → f x ≡ z
    → f y ≡ z
    → f (if b then x else y) ≡ z
if_same true x y f z p q = p
if_same false x y f z p q = q

module _ (lib : Engine) where
  lookup-collect :
      (def : IndexDefinition) (name : Text) (map root : Assoc Value) (parts : List Text)
      → HasUniqueKeys map
      → lookup name (collect lib def map root parts).0
        ≡ or_else (mapped def name (lookup name map)) (lookup name root)
  unfolding collect lookup
  lookup-collect def name [] root parts u = refl
  lookup-collect def name ((k, v) ∷ map) root parts (fresh, u) =
      elim (Bool-cases (contains_key k def.fields && not (is_null v))) [
        | inl y ↦
            rw
              (
                y,
                lookup-collect def name map (insert k v root) parts u,
                lookup-insert k name v root,
              )
              (entry_taken def k name v map root fresh y)
        | inr n ↦
            rw
              (
                n,
                if_same (not (is_null v)) (collect lib def map root (parts ++ dynamic_part lib v))
                    (collect lib def map root parts) (λ c. lookup name c.0)
                    (or_else (mapped def name (lookup name map)) (lookup name root))
                    (lookup-collect def name map root (parts ++ dynamic_part lib v) u)
                    (lookup-collect def name map root parts u),
              )
              (entry_skipped def k name v map root fresh n)
      ]

  lookup-collect_start :
      (def : IndexDefinition) (name : Text) (map : Assoc Value)
      → HasUniqueKeys map
      → lookup name (collect lib def map [] []).0 ≡ mapped def name (lookup name map)
  unfolding lookup
  lookup-collect_start def name map u =
      lookup-collect def name map [] [] u ∙ or_else_none (mapped def name (lookup name map))

  lookup-with_dynamic :
      (mode : SchemaMode) (name : Text) (parts : List Text) (root : Assoc Value)
      → text_eq (ascii "_dynamic") name ≡ false
      → lookup name (with_dynamic lib mode parts root) ≡ lookup name root
  lookup-with_dynamic dynamic name [] root n = refl
  lookup-with_dynamic dynamic name (p ∷ ps) root n =
      lookup-insert (ascii "_dynamic") name (string (join (ascii " ") (p ∷ ps))) root ∙ (rw n refl)
  lookup-with_dynamic strict name parts root n = refl
  lookup-with_dynamic drop_unmapped name parts root n = refl

  -- If the names of the payload are distinct, the document made of it holds the whole payload
  -- under `_source`, and under any other name but `_dynamic` the value of the payload exactly if
  -- the definition has the name and the value is not null.
  pub lookup-root_of :
      (def : IndexDefinition) (source : Value) (map : Assoc Value) (name : Text)
      → HasUniqueKeys map
      → text_eq (ascii "_dynamic") name ≡ false
      → lookup name (root_of lib def source map) ≡ (
          if text_eq (ascii "_source") name then some source else mapped def name (lookup name map))
  unfolding root_of
  lookup-root_of def source map name u n =
      let c = collect lib def map [] [] in
      rw
        (
          lookup-with_dynamic def.mode name c.1 (insert (ascii "_source") source c.0) n,
          lookup-insert (ascii "_source") name source c.0,
          lookup-collect_start def name map u,
        )
        refl
