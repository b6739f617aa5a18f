-- ===== src/Prelude/Sorting/Top.antt =====
-- The first places of a sorted list, when only the first of each sorted part are sorted.
use edgewit.Prelude.Tests.{Bool-cases}
use edgewit.Prelude.Lists.{length, take, drop, All, take-append-drop}
use edgewit.Prelude.Sorting.{insert_by, insert_all, sort_by, IsSorted, IsOrder, insert_all-IsSorted}
use Prim.Native.Nat.{ℕ, zero, suc, ◌≤◌}
use mathlib.Core.Path.{◌≡◌, refl, sym, ap, ◌∙◌}
use mathlib.Core.Logic.{◌⊎◌, inl, inr}
use mathlib.Core.Bool.{Bool, false}
use mathlib.Core.List.{List, [], ◌∷◌, ◌++◌, append-nil, map}
use native.Mathlib.Omega.{arith}

unfoldable pub concat {ℓ} : {A : Type ℓ} → List (List A) → List A
concat [] = []
concat (xs ∷ xss) = xs ++ concat xss

module _ {ℓ} {A : Type ℓ} (greater : A → A → Bool) where
  -- `xs` is `ys` with `x` put behind its first `k` elements, and before none that `x` is greater than.
  data Extra (x : A) : ℕ → List A → List A → Type ℓ where
    here : (ys : List A) → All (λ y. greater x y ≡ false) ys → Extra x zero (x ∷ ys) ys
    there : {k : ℕ} {xs ys : List A} (y : A) → Extra x k xs ys → Extra x (suc k) (y ∷ xs) (y ∷ ys)

  take-Extra :
      {x : A} {k : ℕ} {xs ys : List A} (n : ℕ) → n ≤ k → Extra x k xs ys → take n xs ≡ take n ys
  take-Extra zero le e = refl
  take-Extra (suc n) le (here ys all) = absurd (omega arith)
  take-Extra {x = x} (suc n) le (there {k = k} {xs = xs} {ys = ys} y e) =
      ap (◌∷◌ y) (take-Extra {k = k} {xs = xs} {ys = ys} n (omega arith) e)

  take-take-suc : (n : ℕ) (xs : List A) → take n (take (suc n) xs) ≡ take n xs
  take-take-suc zero xs = refl
  take-take-suc (suc n) [] = refl
  take-take-suc (suc n) (x ∷ xs) = ap (◌∷◌ x) (take-take-suc n xs)

  take_fewer : (n : ℕ) (xs ys : List A) → take (suc n) xs ≡ take (suc n) ys → take n xs ≡ take n ys
  take_fewer n xs ys h = sym (take-take-suc n xs) ∙ ap (take n) h ∙ take-take-suc n ys

  -- What is put into a list shows in its first places as what is put into those does.
  take-insert_by :
      (n : ℕ) (x : A) (xs ys : List A)
      → take n xs ≡ take n ys
      → take n (insert_by greater x xs) ≡ take n (insert_by greater x ys)
  unfolding insert_by
  take-insert_by zero x xs ys h = refl
  take-insert_by (suc n) x [] [] h = refl
  take-insert_by (suc n) x [] (b ∷ ys) h = absurd (cc h)
  take-insert_by (suc n) x (a ∷ xs) [] h = absurd (cc h)
  take-insert_by (suc n) x (a ∷ xs) (b ∷ ys) h =
      let heads : a ≡ b = cc h in
      let tails : take n xs ≡ take n ys = cc h in
      rw heads (elim (Bool-cases (greater x b)) [
        | inl g ↦ rw g (ap (◌∷◌ b) (take-insert_by n x xs ys tails))
        | inr m ↦ rw m (ap (◌∷◌ x) (take_fewer n (b ∷ xs) (b ∷ ys) (ap (◌∷◌ b) tails)))
      ])

  pub take-insert_all :
      (n : ℕ) (zs xs ys : List A)
      → take n xs ≡ take n ys
      → take n (insert_all greater zs xs) ≡ take n (insert_all greater zs ys)
  unfolding insert_all
  take-insert_all n [] xs ys h = h
  take-insert_all n (z ∷ zs) xs ys h =
      take-insert_by n z (insert_all greater zs xs) (insert_all greater zs ys)
        (take-insert_all n zs xs ys h)

  insert_all-append :
      (xs ys zs : List A)
      → insert_all greater (xs ++ ys) zs ≡ insert_all greater xs (insert_all greater ys zs)
  unfolding insert_all
  insert_all-append [] ys zs = refl
  insert_all-append (x ∷ xs) ys zs = ap (insert_by greater x) (insert_all-append xs ys zs)

  module _ (o : IsOrder greater) where
    All-behind :
        (x y : A) (ys : List A)
        → greater x y ≡ false
        → All (λ z. greater y z ≡ false) ys
        → All (λ z. greater x z ≡ false) ys
    All-behind x y [] h all = tt
    All-behind x y (z ∷ zs) h (a, all) = (o.transitive x y z h a, All-behind x y zs h all)

    -- An element that is put into a sorted list is an extra one.
    insert_by-Extra :
        (x : A) (ys : List A)
        → IsSorted greater ys
        → (k : ℕ) × Extra x k (insert_by greater x ys) ys
    unfolding insert_by
    insert_by-Extra x [] h = (zero, here [] tt)
    insert_by-Extra x (y ∷ ys) (all, h) = elim (Bool-cases (greater x y)) [
      | inl g ↦ rw g (let rest = insert_by-Extra x ys h in (suc rest.0, there y rest.1))
      | inr n ↦ rw n (zero, here (y ∷ ys) (n, All-behind x y ys n all))
    ]

    insert_by_first :
        (p : A) (ys : List A) → All (λ y. greater p y ≡ false) ys → insert_by greater p ys ≡ p ∷ ys
    unfolding insert_by
    insert_by_first p [] all = refl
    insert_by_first p (y ∷ ys) (h, all) = rw h

    -- It falls back by a place with each element that it is not to stand before.
    Extra-insert_by :
        {x : A} {k : ℕ} {xs ys : List A} (p : A)
        → greater p x ≡ false
        → Extra x k xs ys
        → Extra x (suc k) (insert_by greater p xs) (insert_by greater p ys)
    unfolding insert_by
    Extra-insert_by {x = x} p h (here ys all) =
        rw h (rw (insert_by_first p ys (All-behind p x ys h all)) (there p (here ys all)))
    Extra-insert_by {x = x} p h (there {k = k} {xs = xs} {ys = ys} y e) =
        elim (Bool-cases (greater p y)) [
          | inl g ↦ rw g (there y (Extra-insert_by {x = x} {k = k} {xs = xs} {ys = ys} p h e))
          | inr n ↦ rw n (there p (there y e))
        ]

    -- What follows `n` elements that it is not to stand before does not show in the first `n` places.
    Extra-insert_all :
        (x : A) (ps ys : List A)
        → All (λ p. greater p x ≡ false) ps
        → IsSorted greater ys
        → (k : ℕ) × (length ps ≤ k)
          × Extra x k (insert_all greater ps (insert_by greater x ys)) (insert_all greater ps ys)
    unfolding insert_all
    Extra-insert_all x [] ys all h = let e = insert_by-Extra x ys h in (e.0, omega arith, e.1)
    Extra-insert_all x (p ∷ ps) ys (b, all) h =
        let e = Extra-insert_all x ps ys all h in
        (suc e.0, omega (arith, e.1), Extra-insert_by p b e.2)

    -- Each element of the one list is in order with each of the other.
    abbrev Precede : List A → List A → Type 0
    Precede ps xs = All (λ x. All (λ p. greater p x ≡ false) ps) xs

    insert_all_behind :
        (n : ℕ) (ps xs ys : List A)
        → n ≤ length ps
        → Precede ps xs
        → IsSorted greater ys
        → take n (insert_all greater ps (insert_all greater xs ys))
          ≡ take n (insert_all greater ps ys)
    unfolding insert_all
    insert_all_behind n ps [] ys le h s = refl
    insert_all_behind n ps (x ∷ xs) ys le (b, h) s =
        let rest = insert_all-IsSorted greater o xs ys s in
        let e = Extra-insert_all x ps (insert_all greater xs ys) b rest in
        take-Extra n (omega (arith, e.1)) e.2 ∙ insert_all_behind n ps xs ys le h s

    Precede-cons :
        (p : A) (ps xs : List A)
        → All (λ x. greater p x ≡ false) xs
        → Precede ps xs
        → Precede (p ∷ ps) xs
    Precede-cons p ps [] b h = tt
    Precede-cons p ps (x ∷ xs) (b, bs) (h, hs) = ((b, h), Precede-cons p ps xs bs hs)

    Precede-nil : (xs : List A) → Precede [] xs
    Precede-nil [] = tt
    Precede-nil (x ∷ xs) = (tt, Precede-nil xs)

    All-drop {κ} : (P : A → Type κ) (n : ℕ) (xs : List A) → All P xs → All P (drop n xs)
    All-drop P zero xs h = h
    All-drop P (suc n) [] h = tt
    All-drop P (suc n) (x ∷ xs) (p, h) = All-drop P n xs h

    Precede-take-drop :
        (n : ℕ) (xs : List A) → IsSorted greater xs → Precede (take n xs) (drop n xs)
    Precede-take-drop zero xs h = Precede-nil xs
    Precede-take-drop (suc n) [] h = tt
    Precede-take-drop (suc n) (x ∷ xs) (b, h) =
        Precede-cons x (take n xs) (drop n xs) (All-drop (λ y. greater x y ≡ false) n xs b)
          (Precede-take-drop n xs h)

    short_or_long : (n : ℕ) (xs : List A) → (drop n xs ≡ []) ⊎ (n ≤ length (take n xs))
    short_or_long zero xs = inr (omega arith)
    short_or_long (suc n) [] = inl refl
    short_or_long (suc n) (x ∷ xs) = elim (short_or_long n xs) [
      | inl e ↦ inl e
      | inr le ↦ inr (omega arith)
    ]

    -- The first `n` places show only the first `n` elements of each sorted list that is put in.
    pub take-insert_all-take :
        (n : ℕ) (xs ys : List A)
        → IsSorted greater xs
        → IsSorted greater ys
        → take n (insert_all greater (take n xs) ys) ≡ take n (insert_all greater xs ys)
    take-insert_all-take n xs ys h s = elim (short_or_long n xs) [
      | inl none ↦ ap (λ l. take n (insert_all greater l ys)) (whole none)
      | inr le ↦
          sym (insert_all_behind n (take n xs) (drop n xs) ys le (Precede-take-drop n xs h) s)
          ∙ ap (take n) (
              sym (insert_all-append (take n xs) (drop n xs) ys)
              ∙ ap (λ l. insert_all greater l ys) (take-append-drop n xs))
    ]
      where
        whole : drop n xs ≡ [] → take n xs ≡ xs
        whole e =
            sym (append-nil (take n xs)) ∙ ap (λ l. take n xs ++ l) (sym e) ∙ take-append-drop n xs

    -- The same for all of the lists.
    pub take-sort_by-concat :
        (n : ℕ) (xss : List (List A))
        → All (λ xs. IsSorted greater xs) xss
        → take n (sort_by greater (concat (map (take n) xss)))
          ≡ take n (sort_by greater (concat xss))
    unfolding sort_by concat
    take-sort_by-concat n [] h = refl
    take-sort_by-concat n (xs ∷ xss) (s, h) =
        let some_rest = insert_all greater (concat (map (take n) xss)) [] in
        let all_rest = insert_all greater (concat xss) [] in
        ap (take n) (insert_all-append (take n xs) (concat (map (take n) xss)) [])
        ∙ (take-insert_all-take n xs some_rest s
              (insert_all-IsSorted greater o (concat (map (take n) xss)) [] tt)
            ∙ (take-insert_all n xs some_rest all_rest (take-sort_by-concat n xss h)
                ∙ ap (take n) (sym (insert_all-append xs (concat xss) []))))
