-- ===== src/Indexer/Growth.antt =====
-- What the operations of `IndexerActor` (src/indexer.rs) do to its writers and to the table of what
-- is not committed yet.
use edgewit.Prelude.{
  ℕ, ◌≡◌, inl, inr, refl, ap, ◌∙◌, true, Bool-cases, Option, none, some, Text, Assoc, insert,
  contains_key, if◌then◌else◌, Result, ok, err, arith, text_eq, text_eq_refl, lookup-insert,
  contains_key_lem,
}
use edgewit.Prelude.States.{then_do, ◌>>=◌, ◌>>◌, lift, require, change}
use edgewit.Indexer.Engine.{Engine}
use edgewit.Indexer.Actor.{
  IndexerActor, Act, calls, get_index, make_writer, open_writer, ensure_writer,
}

pub contains_key-insert :
    {V : Type 0} (k j : Text) (v : V) (m : Assoc V)
    → contains_key j (insert k v m) ≡ (if text_eq k j then true else contains_key j m)
contains_key-insert k j v m =
    rw (contains_key_lem j (insert k v m), contains_key_lem j m, lookup-insert k j v m)
      (elim (Bool-cases (text_eq k j)) [ inl y ↦ rw y refl | inr n ↦ rw n refl ])

contains_key-insert_self :
    {V : Type 0} (k : Text) (v : V) (m : Assoc V) → contains_key k (insert k v m) ≡ true
contains_key-insert_self k v m = rw (contains_key-insert k k v m, text_eq_refl) refl

contains_key-insert_keeps :
    {V : Type 0} (k j : Text) (v : V) (m : Assoc V)
    → contains_key j m ≡ true
    → contains_key j (insert k v m) ≡ true
contains_key-insert_keeps k j v m h = rw (contains_key-insert k j v m, h) (ground arith)

module _ (lib : Engine) where
  -- Nothing becomes dirty, and no writer is lost.
  abbrev pub Grows : IndexerActor lib → IndexerActor lib → Type 0
  Grows s t =
      (t.dirty_writers ≡ s.dirty_writers)
      × ((j : Text) → contains_key j s.writers ≡ true → contains_key j t.writers ≡ true)

  pub Grows-refl : (s : IndexerActor lib) → Grows s s
  Grows-refl s = (refl, λ j h. h)

  pub Grows-trans : (s t u : IndexerActor lib) → Grows s t → Grows t u → Grows s u
  Grows-trans s t u (d, w) (e, v) = (e ∙ d, λ j h. v j (w j h))

  abbrev pub Extends : {A : Type 0} → Act lib A → Type 0
  Extends m = (s : IndexerActor lib) → Grows s (m s).1

  pub bind-Extends :
      {A B : Type 0} (m : Act lib A) (f : A → Act lib B)
      → Extends m
      → ((a : A) → Extends (f a))
      → Extends (m >>= f)
  bind-Extends {A} {B} m f h k s = by_result (m s) (h s)
    where
      by_result : (p : Result Text A × IndexerActor lib) → Grows s p.1 → Grows s (then_do p f).1
      by_result (ok a, t) g = Grows-trans s t (f a t).1 g (k a t)
      by_result (err e, t) g = g

  pub calls-Extends :
      {A : Type 0} (f : lib.World → Result Text A × lib.World) → Extends (calls lib f)
  calls-Extends f s = (refl, λ j h. h)

  pub get_index-Extends : (name : Text) → Extends (get_index lib name)
  get_index-Extends name s = (refl, λ j h. h)

  make_writer-Extends : (index : lib.Index) → Extends (make_writer lib index)
  make_writer-Extends index s = (refl, λ j h. h)

  pub lift-Extends : {A : Type 0} (r : Result Text A) → Extends (lift r)
  lift-Extends r s = (refl, λ j h. h)

  pub require-Extends : {A : Type 0} (e : Text) (o : Option A) → Extends (require e o)
  require-Extends e none s = (refl, λ j h. h)
  require-Extends e (some a) s = (refl, λ j h. h)

  -- A writer is there after `ensure_writer`, unless it fails.
  abbrev pub Ensured : Text → IndexerActor lib → Result Text (Unit {0}) × IndexerActor lib → Type 0
  Ensured name s (ok u, t) = Grows s t × (contains_key name t.writers ≡ true)
  Ensured name s (err e, t) = Grows s t

  open_writer-Ensured :
      (name : Text) (s : IndexerActor lib) → Ensured name s (open_writer lib name s)
  open_writer-Ensured name s = by_index (get_index lib name s) (get_index-Extends name s)
    where
      by_writer :
          (p : Result Text lib.Writer × IndexerActor lib)
          → Grows s p.1
          → Ensured name s (
              then_do p (λ writer.
                change (λ self. record self { writers = insert name writer self.writers })))
      by_writer (ok writer, t) (d, w) = (
        (d, λ j h. contains_key-insert_keeps name j writer t.writers (w j h)),
        contains_key-insert_self name writer t.writers,
      )
      by_writer (err e, t) g = g

      by_index :
          (p : Result Text lib.Index × IndexerActor lib)
          → Grows s p.1
          → Ensured name s (
              then_do p (λ index. make_writer lib index >>= λ writer.
              change (λ self. record self { writers = insert name writer self.writers })))
      by_index (ok index, t) g =
          by_writer (make_writer lib index t)
            (Grows-trans s t (make_writer lib index t).1 g (make_writer-Extends index t))
      by_index (err e, t) g = g

  pub ensure_writer-Ensured :
      (name : Text) (s : IndexerActor lib) → Ensured name s (ensure_writer lib name s)
  unfolding ensure_writer
  ensure_writer-Ensured name s = elim (Bool-cases (contains_key name s.writers)) [
    | inl y ↦ rw y (Grows-refl s, y)
    | inr n ↦ rw n (open_writer-Ensured name s)
  ]

  -- What has succeeded changed the table of dirty writers by `f`, and its index has a writer; what has
  -- failed left the table as it was.
  abbrev pub Marked :
      Text
      → (Assoc ℕ → Assoc ℕ)
      → IndexerActor lib
      → Result Text (Unit {0}) × IndexerActor lib
      → Type 0
  Marked name f s (ok u, t) =
      (t.dirty_writers ≡ f s.dirty_writers)
      × (contains_key name t.writers ≡ true)
      × ((j : Text) → contains_key j s.writers ≡ true → contains_key j t.writers ≡ true)
  Marked name f s (err e, t) = Grows s t

  pub Marked-after :
      (name : Text) (f : Assoc ℕ → Assoc ℕ) (s t : IndexerActor lib)
      (p : Result Text (Unit {0}) × IndexerActor lib)
      → Grows s t
      → Marked name f t p
      → Marked name f s p
  Marked-after name f s t (ok u, v) (d, w) (e, c, x) = (e ∙ ap f d, c, λ j h. x j (w j h))
  Marked-after name f s t (err e, v) g h = Grows-trans s t v g h

  -- What is done once the writer is there.
  abbrev pub MarksReady : Text → (Assoc ℕ → Assoc ℕ) → Act lib (Unit {0}) → Type 0
  MarksReady name f m =
      (s : IndexerActor lib) → contains_key name s.writers ≡ true → Marked name f s (m s)

  pub bind-MarksReady :
      {A : Type 0} (name : Text) (f : Assoc ℕ → Assoc ℕ) (m : Act lib A)
      (g : A → Act lib (Unit {0}))
      → Extends m
      → ((a : A) → MarksReady name f (g a))
      → MarksReady name f (m >>= g)
  bind-MarksReady {A} name f m g h k s r = by_result (m s) (h s)
    where
      by_result :
          (p : Result Text A × IndexerActor lib) → Grows s p.1 → Marked name f s (then_do p g)
      by_result (ok a, t) (d, w) = Marked-after name f s t (g a t) (d, w) (k a t (w name r))
      by_result (err e, t) g' = g'

  abbrev pub Marks : Text → (Assoc ℕ → Assoc ℕ) → Act lib (Unit {0}) → Type 0
  Marks name f m = (s : IndexerActor lib) → Marked name f s (m s)

  pub bind-Marks :
      {A : Type 0} (name : Text) (f : Assoc ℕ → Assoc ℕ) (m : Act lib A)
      (g : A → Act lib (Unit {0}))
      → Extends m
      → ((a : A) → Marks name f (g a))
      → Marks name f (m >>= g)
  bind-Marks {A} name f m g h k s = by_result (m s) (h s)
    where
      by_result :
          (p : Result Text A × IndexerActor lib) → Grows s p.1 → Marked name f s (then_do p g)
      by_result (ok a, t) g' = Marked-after name f s t (g a t) g' (k a t)
      by_result (err e, t) g' = g'

  pub ensure_writer-Marks :
      (name : Text) (f : Assoc ℕ → Assoc ℕ) (m : Act lib (Unit {0}))
      → MarksReady name f m
      → Marks name f (ensure_writer lib name >> m)
  ensure_writer-Marks name f m k s =
      by_result (ensure_writer lib name s) (ensure_writer-Ensured name s)
    where
      by_result :
          (p : Result Text (Unit {0}) × IndexerActor lib)
          → Ensured name s p
          → Marked name f s (then_do p (λ _. m))
      by_result (ok u, t) (g, c) = Marked-after name f s t (m t) g (k t c)
      by_result (err e, t) g = g

  pub change-MarksReady :
      (name : Text) (f : Assoc ℕ → Assoc ℕ)
      → MarksReady name f (change (λ self. record self { dirty_writers = f self.dirty_writers }))
  change-MarksReady name f s r = (refl, r, λ j h. h)
