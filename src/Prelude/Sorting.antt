-- ===== src/Prelude/Sorting.antt =====
-- The stable `sort_by` of the standard library, given when its comparison says `Greater`.
pub mod Top
use edgewit.Prelude.Tests.{if◌then◌else◌, Bool-cases}
use edgewit.Prelude.Lists.{length, take, drop, All, take-append-drop}
use Prim.Native.Nat.{ℕ, zero, suc, ◌≤◌}
use mathlib.Core.Path.{◌≡◌, refl, sym, ap, ◌∙◌}
use mathlib.Core.Logic.{inl, inr}
use mathlib.Core.Bool.{Bool, true, false}
use mathlib.Core.List.{List, [], ◌∷◌, ◌++◌, map}
use mathlib.Core.List.Perm
use mathlib.Core.List.{Perm}
use native.Mathlib.Omega.{arith}

module _ {ℓ} {A : Type ℓ} (greater : A → A → Bool) where
  unfoldable pub insert_by : A → List A → List A
  insert_by x [] = x ∷ []
  insert_by x (y ∷ ys) = if greater x y then y ∷ insert_by x ys else x ∷ y ∷ ys

  unfoldable pub insert_all : List A → List A → List A
  insert_all [] ys = ys
  insert_all (x ∷ xs) ys = insert_by x (insert_all xs ys)

  unfoldable pub sort_by : List A → List A
  sort_by xs = insert_all xs []

  -- No element is greater than one behind it.
  abbrev pub IsSorted : List A → Type 0
  IsSorted [] = Unit {0}
  IsSorted (x ∷ xs) = All (λ y. greater x y ≡ false) xs × IsSorted xs

  -- The comparison is one of a total order, which may hold elements for equal.
  pub record IsOrder : Type ℓ where
    pub asymmetric : (x y : A) → greater x y ≡ true → greater y x ≡ false
    pub transitive : (x y z : A) → greater x y ≡ false → greater y z ≡ false → greater x z ≡ false

  module _ (o : IsOrder) where
    All-later :
        (x y : A) (ys : List A)
        → greater x y ≡ false
        → All (λ z. greater y z ≡ false) ys
        → All (λ z. greater x z ≡ false) ys
    All-later x y [] h all = tt
    All-later x y (z ∷ zs) h (a, all) = (o.transitive x y z h a, All-later x y zs h all)

    All-insert_by {κ} :
        (P : A → Type κ) (x : A) (ys : List A) → P x → All P ys → All P (insert_by x ys)
    unfolding insert_by
    All-insert_by P x [] p all = (p, tt)
    All-insert_by P x (y ∷ ys) p (q, all) = elim (Bool-cases (greater x y)) [
      | inl g ↦ rw g (q, All-insert_by P x ys p all)
      | inr n ↦ rw n (p, (q, all))
    ]

    pub insert_by-IsSorted : (x : A) (ys : List A) → IsSorted ys → IsSorted (insert_by x ys)
    unfolding insert_by
    insert_by-IsSorted x [] h = (tt, tt)
    insert_by-IsSorted x (y ∷ ys) (all, h) = elim (Bool-cases (greater x y)) [
      | inl g ↦ rw g (
        All-insert_by (λ z. greater y z ≡ false) x ys (o.asymmetric x y g) all,
        insert_by-IsSorted x ys h,
      )
      | inr n ↦ rw n ((n, All-later x y ys n all), (all, h))
    ]

    pub insert_all-IsSorted : (xs ys : List A) → IsSorted ys → IsSorted (insert_all xs ys)
    unfolding insert_all
    insert_all-IsSorted [] ys h = h
    insert_all-IsSorted (x ∷ xs) ys h =
        insert_by-IsSorted x (insert_all xs ys) (insert_all-IsSorted xs ys h)

    pub sort_by-IsSorted : (xs : List A) → IsSorted (sort_by xs)
    unfolding sort_by
    sort_by-IsSorted xs = insert_all-IsSorted xs [] tt

  All-take {κ} : (P : A → Type κ) (n : ℕ) (xs : List A) → All P xs → All P (take n xs)
  All-take P zero xs h = tt
  All-take P (suc n) [] h = tt
  All-take P (suc n) (x ∷ xs) (p, h) = (p, All-take P n xs h)

  pub take-IsSorted : (n : ℕ) (xs : List A) → IsSorted xs → IsSorted (take n xs)
  take-IsSorted zero xs h = tt
  take-IsSorted (suc n) [] h = tt
  take-IsSorted (suc n) (x ∷ xs) (all, h) =
      (All-take (λ y. greater x y ≡ false) n xs all, take-IsSorted n xs h)

  pub drop-IsSorted : (n : ℕ) (xs : List A) → IsSorted xs → IsSorted (drop n xs)
  drop-IsSorted zero xs h = h
  drop-IsSorted (suc n) [] h = tt
  drop-IsSorted (suc n) (x ∷ xs) (all, h) = drop-IsSorted n xs h

module _ {ℓ κ} {A : Type ℓ} {B : Type κ} (greater : A → A → Bool) (above : B → B → Bool) (f : A → B)
    (same : (x y : A) → above (f x) (f y) ≡ greater x y) where
  All-map :
      (x : A) (ys : List A)
      → All (λ y. greater x y ≡ false) ys
      → All (λ b. above (f x) b ≡ false) (map f ys)
  All-map x [] h = tt
  All-map x (y ∷ ys) (e, h) = (same x y ∙ e, All-map x ys h)

  pub map-IsSorted : (xs : List A) → IsSorted greater xs → IsSorted above (map f xs)
  map-IsSorted [] h = tt
  map-IsSorted (x ∷ xs) (all, h) = (All-map x xs all, map-IsSorted xs h)
