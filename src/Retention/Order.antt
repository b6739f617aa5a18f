-- ===== src/Retention/Order.antt =====
-- The order in which `cleanup_wals` of src/retention.rs looks at the log files, and what it does to the
-- file that the appender of src/wal.rs has just created.
use edgewit.Prelude.{
  ℕ, ◌≤◌, ◌≡◌, ◌⊎◌, inl, inr, refl, sym, ap, ◌∙◌, Bool, true, false, ◌&&◌, Option, none, some, List,
  [], ◌∷◌, ◌++◌, Text, leb, if◌then◌else◌, arith, Bool-cases, All,
}
use mathlib.Core.List.Perm
use mathlib.Core.List.{Perm}
use edgewit.Wal.Frame.{add64}
use edgewit.Retention.Cleanup.{
  DirEntry, WalFile, wal_file, wal_files, keep, insert_by_start, sort_by_start, first_pass,
  cleanup_files, cleanup_wals,
}

abbrev pub IsAscending : List WalFile → Type 0
IsAscending [] = Unit
IsAscending (f ∷ fs) = All (λ (g : WalFile). f.start ≤ g.start) fs × IsAscending fs

abbrev pub Among : WalFile → List WalFile → Type 0
Among f [] = ⊥
Among f (g ∷ gs) = (f ≡ g) ⊎ Among f gs

insert-above :
    (low : ℕ) (f : WalFile) (gs : List WalFile)
    → low ≤ f.start
    → All (λ (g : WalFile). low ≤ g.start) gs
    → All (λ (g : WalFile). low ≤ g.start) (insert_by_start f gs)
unfolding insert_by_start
insert-above low f [] le h = (le, tt)
insert-above low f (g ∷ gs) le h = ground (arith, insert-above low f gs)

above-weaken :
    (low high : ℕ) (gs : List WalFile)
    → low ≤ high
    → All (λ (g : WalFile). high ≤ g.start) gs
    → All (λ (g : WalFile). low ≤ g.start) gs
above-weaken low high [] le h = tt
above-weaken low high (g ∷ gs) le (h, hs) = (omega arith, above-weaken low high gs le hs)

insert_by_start-IsAscending :
    (f : WalFile) (gs : List WalFile) → IsAscending gs → IsAscending (insert_by_start f gs)
unfolding insert_by_start
insert_by_start-IsAscending f [] h = (tt, tt)
insert_by_start-IsAscending f (g ∷ gs) (above, h) = elim (Bool-cases (leb f.start g.start)) [
  | inl first ↦
      rw first ((ground arith, above-weaken f.start g.start gs (ground arith) above), (above, h))
  | inr later ↦
      rw later (insert-above g.start f gs (ground arith) above, insert_by_start-IsAscending f gs h)
]

-- The log files are looked at in the order of their start offsets.
pub sort_by_start-IsAscending : (fs : List WalFile) → IsAscending (sort_by_start fs)
unfolding sort_by_start
sort_by_start-IsAscending [] = tt
sort_by_start-IsAscending (f ∷ fs) =
    insert_by_start-IsAscending f (sort_by_start fs) (sort_by_start-IsAscending fs)

insert_by_start-perm : (f : WalFile) (gs : List WalFile) → Perm (insert_by_start f gs) (f ∷ gs)
unfolding insert_by_start
insert_by_start-perm f [] = Perm.refl (f ∷ [])
insert_by_start-perm f (g ∷ gs) = elim (Bool-cases (leb f.start g.start)) [
  | inl first ↦ rw first (Perm.refl (f ∷ g ∷ gs))
  | inr later ↦ rw later (Perm.trans (Perm.cons g (insert_by_start-perm f gs)) (Perm.swap f g gs))
]

-- Sorting gives the same files, as often.
pub sort_by_start-perm : (fs : List WalFile) → Perm (sort_by_start fs) fs
unfolding sort_by_start
sort_by_start-perm [] = Perm.refl []
sort_by_start-perm (f ∷ fs) =
    Perm.trans (insert_by_start-perm f (sort_by_start fs)) (Perm.cons f (sort_by_start-perm fs))

insert-Among :
    (f g : WalFile) (gs : List WalFile) → (f ≡ g) ⊎ Among f gs → Among f (insert_by_start g gs)
unfolding insert_by_start
insert-Among f g [] h = h
insert-Among f g (k ∷ gs) h = elim (Bool-cases (leb g.start k.start)) [
  | inl first ↦ rw first h
  | inr later ↦ rw later (elim h [
    | inl e ↦ inr (insert-Among f g gs (inl e))
    | inr (inl e) ↦ inl e
    | inr (inr m) ↦ inr (insert-Among f g gs (inr m))
  ])
]

sort-Among : (f : WalFile) (fs : List WalFile) → Among f fs → Among f (sort_by_start fs)
unfolding sort_by_start
sort-Among f [] m = absurd m
sort-Among f (g ∷ gs) (inl e) = insert-Among f g (sort_by_start gs) (inl e)
sort-Among f (g ∷ gs) (inr m) = insert-Among f g (sort_by_start gs) (inr (sort-Among f gs m))

Among-if_head :
    (b : Bool) (f g : WalFile) (l : List WalFile)
    → f ≡ g
    → b ≡ true
    → Among f (if b then g ∷ l else l)
Among-if_head true f g l e h = inl e
Among-if_head false f g l e h = absurd (cc h)

Among-if_tail :
    (b : Bool) (f g : WalFile) (l : List WalFile) → Among f l → Among f (if b then g ∷ l else l)
Among-if_tail true f g l m = inr m
Among-if_tail false f g l m = m

Among-append : (f : WalFile) (xs ys : List WalFile) → Among f xs → Among f (xs ++ ys)
Among-append f [] ys m = absurd m
Among-append f (x ∷ xs) ys (inl e) = inl e
Among-append f (x ∷ xs) ys (inr m) = inr (Among-append f xs ys m)

wal_files-Among :
    (e : DirEntry) (f : WalFile) (before after : List DirEntry)
    → wal_file e ≡ some f
    → Among f (wal_files (before ++ e ∷ after))
unfolding wal_files
wal_files-Among e f [] after h = rw h (inl refl)
wal_files-Among e f (d ∷ before) after h = kept (wal_file d) (wal_files-Among e f before after h)
  where
    kept :
        (o : Option WalFile)
        → Among f (wal_files (before ++ e ∷ after))
        → Among f (keep o (wal_files (before ++ e ∷ after)))
    kept none m = m
    kept (some g) m = inr m

module _ (removable : Text → Bool) where
  first_pass-Among :
      (c : ℕ) (f : WalFile) (fs : List WalFile) (total : ℕ)
      → add64 f.start f.size ≤ c
      → removable f.path ≡ true
      → Among f fs
      → Among f (first_pass removable c fs total).0
  unfolding first_pass
  first_pass-Among c f [] total le r m = absurd m
  first_pass-Among c f (g ∷ gs) total le r (inl e) =
      let gone = λ (x : WalFile). leb (add64 x.start x.size) c && removable x.path in
      Among-if_head (gone g) f g _ e (ap gone (sym e) ∙ rw r (ground arith))
  first_pass-Among c f (g ∷ gs) total le r (inr m) =
      Among-if_tail _ f g _ (first_pass-Among c f gs _ le r m)

  -- A log file that begins at offset 0, is empty and can be removed is deleted when nothing is
  -- committed, whatever the limit is.
  pub empty_log_is_deleted :
      (before after : List DirEntry) (e : DirEntry) (f : WalFile) (max : ℕ)
      → wal_file e ≡ some f
      → f.start ≡ 0
      → f.size ≡ 0
      → removable f.path ≡ true
      → Among f (cleanup_wals removable (some (before ++ e ∷ after)) 0 max).0
  unfolding cleanup_wals cleanup_files
  empty_log_is_deleted before after e f max h start size r =
      let files = wal_files (before ++ e ∷ after) in
      Among-append f _ _ (
        first_pass-Among 0 f (sort_by_start files) _ (rw (start, size) (omega arith)) r
          (sort-Among f files (wal_files-Among e f before after h)))
