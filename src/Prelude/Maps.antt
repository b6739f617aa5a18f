-- ===== src/Prelude/Maps.antt =====
-- A `HashMap` or `BTreeMap` with text keys: its entries in the order of iteration.
use mathlib.Core.Path.{◌≡◌, refl}
use mathlib.Core.Bool.{Bool, true, false}
use mathlib.Core.Option.{Option, none, some}
use mathlib.Core.List.{List, [], ◌∷◌}
use native.Mathlib.Omega.{arith}
use edgewit.Prelude.Tests.{if◌then◌else◌}
use edgewit.Prelude.Bytes.{Text, text_eq, text_eq_iff, text_eq_refl}

abbrev pub Assoc {ℓ} : Type ℓ → Type ℓ
Assoc V = List (Text × V)

module _ {ℓ} {V : Type ℓ} where
  unfoldable pub lookup : Text → Assoc V → Option V
  lookup k [] = none
  lookup k ((j, v) ∷ m) = if text_eq j k then some v else lookup k m

  unfoldable pub insert : Text → V → Assoc V → Assoc V
  insert k v [] = (k, v) ∷ []
  insert k v ((j, w) ∷ m) = if text_eq j k then (j, v) ∷ m else (j, w) ∷ insert k v m

  unfoldable pub remove : Text → Assoc V → Assoc V
  remove k [] = []
  remove k ((j, v) ∷ m) = let rest = remove k m in if text_eq j k then rest else (j, v) ∷ rest

  unfoldable pub contains_key : Text → Assoc V → Bool
  contains_key k [] = false
  contains_key k ((j, v) ∷ m) = if text_eq j k then true else contains_key k m

  unfoldable pub keys : Assoc V → List Text
  keys [] = []
  keys ((j, v) ∷ m) = j ∷ keys m

  pub lookup-insert :
      (k j : Text) (v : V) (m : Assoc V)
      → lookup j (insert k v m) ≡ (if text_eq k j then some v else lookup j m)
  unfolding lookup insert
  lookup-insert k j v [] = refl
  lookup-insert k j v ((i, w) ∷ m) =
      ground (arith, text_eq_iff k j, text_eq_iff i k, text_eq_iff i j, lookup-insert k j v m)

  pub lookup-remove :
      (k j : Text) (m : Assoc V)
      → lookup j (remove k m) ≡ (if text_eq k j then none else lookup j m)
  unfolding lookup remove
  lookup-remove k j [] = ground arith
  lookup-remove k j ((i, w) ∷ m) =
      ground (arith, text_eq_iff k j, text_eq_iff i k, text_eq_iff i j, lookup-remove k j m)

  pub lookup-insert_self : (k : Text) (v : V) (m : Assoc V) → lookup k (insert k v m) ≡ some v
  lookup-insert_self k v m = simp (lookup-insert, text_eq_refl)

  pub lookup-remove_self : (k : Text) (m : Assoc V) → lookup k (remove k m) ≡ none
  lookup-remove_self k m = simp (lookup-remove, text_eq_refl)

  abbrev pub is_some : Option V → Bool
  is_some none = false
  is_some (some v) = true

  pub contains_key_lem : (k : Text) (m : Assoc V) → contains_key k m ≡ is_some (lookup k m)
  unfolding contains_key lookup
  contains_key_lem k [] = refl
  contains_key_lem k ((j, v) ∷ m) = ground (arith, contains_key_lem k m)

  -- No entry of `m` has the key `k`.
  abbrev pub IsFresh : Text → Assoc V → Type ℓ
  IsFresh k m = lookup k m ≡ none

  -- Every key stands once.
  abbrev pub HasUniqueKeys : Assoc V → Type ℓ
  HasUniqueKeys [] = Unit {ℓ}
  HasUniqueKeys ((k, v) ∷ m) = IsFresh k m × HasUniqueKeys m

  pub HasUniqueKeys-insert :
      (k : Text) (v : V) (m : Assoc V) → HasUniqueKeys m → HasUniqueKeys (insert k v m)
  unfolding insert
  HasUniqueKeys-insert k v [] h = (unfold lookup in refl, tt)
  HasUniqueKeys-insert k v ((j, w) ∷ m) h =
      ground
        (arith, text_eq_iff j k, text_eq_iff k j, lookup-insert k j v m, HasUniqueKeys-insert k v m)

  pub HasUniqueKeys-remove : (k : Text) (m : Assoc V) → HasUniqueKeys m → HasUniqueKeys (remove k m)
  unfolding remove
  HasUniqueKeys-remove k [] h = tt
  HasUniqueKeys-remove k ((j, w) ∷ m) h =
      ground (arith, lookup-remove k j m, HasUniqueKeys-remove k m)

pub ruleset assoc_laws = (lookup-insert, lookup-remove, text_eq_refl)
