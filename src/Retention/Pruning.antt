-- ===== src/Retention/Pruning.antt =====
-- What `cleanup_wals` of src/retention.rs deletes and what it keeps.
use edgewit.Prelude.{
  ℕ, ◌+◌, ◌-◌, ◌^◌, ◌≤◌, ◌<◌, ◌≡◌, ◌≢◌, inl, inr, refl, sym, ap, ◌∙◌, Bool, true, List, [], ◌∷◌,
  ◌++◌, Text, leb, if◌then◌else◌, arith, Bool-cases,
}
use edgewit.Wal.Frame.{add64}
use edgewit.Retention.Cleanup.{WalFile, total_size, first_pass, second_pass, cleanup_files}

-- Every file can be removed.
abbrev pub all_removable : Text → Bool
all_removable path = true

-- The sum of the sizes, which does not wrap.
abbrev pub sum : List WalFile → ℕ
sum [] = 0
sum (f ∷ fs) = f.size + sum fs

total_size-eq : (fs : List WalFile) → sum fs < 2 ^ 64 → total_size fs ≡ sum fs
unfolding total_size
total_size-eq [] h = refl
total_size-eq (f ∷ fs) h = rw (total_size-eq fs (omega arith)) (omega arith)

-- Files whose last byte is before the committed offset, and the others.
abbrev pub committed_of : ℕ → List WalFile → List WalFile
committed_of c [] = []
committed_of c (f ∷ fs) =
    if leb (add64 f.start f.size) c then f ∷ committed_of c fs else committed_of c fs

abbrev pub uncommitted_of : ℕ → List WalFile → List WalFile
uncommitted_of c [] = []
uncommitted_of c (f ∷ fs) =
    if leb (add64 f.start f.size) c then uncommitted_of c fs else f ∷ uncommitted_of c fs

first_pass_lem :
    (c : ℕ) (fs : List WalFile) (extra : ℕ)
    → first_pass all_removable c fs (sum fs + extra)
      ≡ (committed_of c fs, uncommitted_of c fs, sum (uncommitted_of c fs) + extra)
unfolding first_pass
first_pass_lem c [] extra = refl
first_pass_lem c (f ∷ fs) extra = elim (Bool-cases (leb (add64 f.start f.size) c)) [
  | inl gone ↦ rw gone (
      rw
        (
          let e : f.size + sum fs + extra - f.size ≡ sum fs + extra = omega arith in e,
          first_pass_lem c fs extra,
        )
        refl)
  | inr stays ↦ rw stays (
      rw
        (
          let e : f.size + sum fs + extra ≡ sum fs + (f.size + extra) = omega arith in e,
          first_pass_lem c fs (f.size + extra),
        )
        (ap (λ n. (committed_of c fs, f ∷ uncommitted_of c fs, n)) (omega arith)))
]

-- The pruning: an oldest part goes, the rest is within the limit, and with one file more it would not
-- be.
pub record Pruned (max : ℕ) (files deleted : List WalFile) (total : ℕ) : Type 0 where
  pub kept : List WalFile
  pub split : files ≡ deleted ++ kept
  pub left : total ≡ sum kept
  pub within : sum kept ≤ max
  pub needed :
      (older : List WalFile) (f : WalFile) → deleted ≡ older ++ f ∷ [] → max < f.size + sum kept

cons-injective : {f g : WalFile} {xs ys : List WalFile} → f ∷ xs ≡ g ∷ ys → (f ≡ g) × (xs ≡ ys)
cons-injective e = (cc e, cc e)

nil-ne-snoc : (older : List WalFile) (f : WalFile) → [] ≢ older ++ f ∷ []
nil-ne-snoc [] f e = cc e
nil-ne-snoc (g ∷ gs) f e = cc e

needed_more :
    {max : ℕ} (f : WalFile) (fs d : List WalFile) {t : ℕ} (p : Pruned max fs d t)
    → max < f.size + sum fs
    → (older : List WalFile) (g : WalFile) → f ∷ d ≡ older ++ g ∷ []
    → max < g.size + sum p.kept
needed_more f fs [] p over [] g e =
    rw (ap (λ (x : WalFile). x.size) (sym (cons-injective e).0), ap sum (sym p.split)) over
needed_more f fs (h ∷ d) p over [] g e = absurd (cc (cons-injective e).1)
needed_more f fs d p over (o ∷ os) g e = p.needed os g (cons-injective e).1

second_pass-Pruned :
    (max : ℕ) (fs : List WalFile)
    → Pruned max fs
        (second_pass all_removable max fs (sum fs)).0
        (second_pass all_removable max fs (sum fs)).1
unfolding second_pass
second_pass-Pruned max [] = record {
  kept = [];
  split = refl;
  left = refl;
  within = omega arith;
  needed = λ older f e. absurd (nil-ne-snoc older f e);
}
second_pass-Pruned max (f ∷ fs) = elim (Bool-cases (leb (sum (f ∷ fs)) max)) [
  | inl fits ↦ rw fits (record {
    kept = f ∷ fs;
    split = refl;
    left = refl;
    within = ground arith;
    needed = λ older g e. absurd (nil-ne-snoc older g e);
  })
  | inr over ↦
      let p = second_pass-Pruned max fs in
      rw (over, let e : f.size + sum fs - f.size ≡ sum fs = omega arith in e)
        (record {
          kept = p.kept;
          split = ap (◌∷◌ f) p.split;
          left = p.left;
          within = p.within;
          needed = needed_more f fs _ p (ground arith);
        })
]

-- What `cleanup_wals` does to the log files when all can be removed: every committed file goes, and
-- of the others the oldest, as many as it takes to come within the limit and no more.
pub record Cleaned (max c : ℕ) (files deleted : List WalFile) (total : ℕ) : Type 0 where
  pub pruned : List WalFile
  pub parts : deleted ≡ committed_of c files ++ pruned
  pub oldest : Pruned max (uncommitted_of c files) pruned total

-- Where every file can be removed and the sizes do not add up to 2 ^ 64, the files deleted are
-- those that end at or before the committed offset and then a beginning of the others: the total
-- that is returned is the sum of what is kept, it is within the limit, and with the last file
-- deleted for the limit it would not be.
pub cleanup_files-Cleaned :
    (files : List WalFile) (c max : ℕ)
    → sum files < 2 ^ 64
    → Cleaned max c files
        (cleanup_files all_removable files c max).0
        (cleanup_files all_removable files c max).1
unfolding cleanup_files
cleanup_files-Cleaned files c max h =
    let total : total_size files ≡ sum files + 0 = total_size-eq files h ∙ omega arith in
    let p = second_pass-Pruned max (uncommitted_of c files) in
    rw
      (
        total,
        first_pass_lem c files 0,
        let e : sum (uncommitted_of c files) + 0 ≡ sum (uncommitted_of c files) = omega arith in e,
      )
      (record {
        pruned =
            (second_pass all_removable max (uncommitted_of c files)
              (sum (uncommitted_of c files))).0;
        parts = refl;
        oldest = p;
      })
