-- ===== src/Retention/Cleanup.antt =====
-- `cleanup_wals` of src/retention.rs. Names are UTF-8 texts.
use edgewit.Prelude.{
  ℕ, ◌-◌, Bool, false, ◌&&◌, ◌||◌, not, Option, none, some, List, [], ◌∷◌, ◌++◌, Text, leb, ◌==◌,
  if◌then◌else◌, text_eq, ascii,
}
use edgewit.Prelude.Numbers.{parse_hex}
use edgewit.Wal.Frame.{add64}

-- An entry of the data directory; `size` is `none` if its metadata cannot be read.
pub record DirEntry : Type 0 where
  pub name : Text
  pub is_file : Bool
  pub size : Option ℕ

-- The triple of start offset, path and size.
pub record WalFile : Type 0 where
  pub start : ℕ
  pub path : Text
  pub size : ℕ

-- The texts before and behind the last dot.
unfoldable pub last_dot : Text → Option (Text × Text)
last_dot [] = none
last_dot (c ∷ cs) = elim (last_dot cs) [
  | some (before, after) ↦ some (c ∷ before, after)
  | none ↦ if c == b'.' then some ([], cs) else none
]

-- A dot in front belongs to the stem.
abbrev extension_of : Option (Text × Text) → Option Text
extension_of none = none
extension_of (some ([], after)) = none
extension_of (some (c ∷ before, after)) = some after

abbrev stem_of : Text → Option (Text × Text) → Text
stem_of name none = name
stem_of name (some ([], after)) = name
stem_of name (some (c ∷ before, after)) = c ∷ before

-- `path.extension()`, `path.file_stem()`
unfoldable pub extension : Text → Option Text
extension name = extension_of (last_dot name)

unfoldable pub file_stem : Text → Text
file_stem name = stem_of name (last_dot name)

abbrev is_wal : Option Text → Bool
is_wal none = false
is_wal (some ext) = text_eq ext (ascii "wal")

abbrev with_start : Text → Option ℕ → Option ℕ → Option WalFile
with_start name none size = none
with_start name (some start) none = none
with_start name (some start) (some size) = some (record { start = start; path = name; size = size })

-- The body of the `filter_map`.
unfoldable pub wal_file : DirEntry → Option WalFile
wal_file e =
    if not e.is_file || not (is_wal (extension e.name))
    then none
    else with_start e.name (parse_hex (file_stem e.name)) e.size

abbrev pub keep : {A : Type 0} → Option A → List A → List A
keep none l = l
keep (some a) l = a ∷ l

unfoldable pub wal_files : List DirEntry → List WalFile
wal_files [] = []
wal_files (e ∷ es) = keep (wal_file e) (wal_files es)

-- `sort_by_key` on the start offset, which is stable.
unfoldable pub insert_by_start : WalFile → List WalFile → List WalFile
insert_by_start f [] = f ∷ []
insert_by_start f (g ∷ gs) = if leb f.start g.start then f ∷ g ∷ gs else g ∷ insert_by_start f gs

unfoldable pub sort_by_start : List WalFile → List WalFile
sort_by_start [] = []
sort_by_start (f ∷ fs) = insert_by_start f (sort_by_start fs)

unfoldable pub total_size : List WalFile → ℕ
total_size [] = 0
total_size (f ∷ fs) = add64 f.size (total_size fs)

-- `removable` says of each path whether `remove_file` succeeds.
module _ (removable : Text → Bool) where
  -- The first pass: what it deletes, the files that remain for the second, and the total.
  unfoldable pub first_pass : ℕ → List WalFile → ℕ → List WalFile × List WalFile × ℕ
  first_pass committed [] total = ([], [], total)
  first_pass committed (f ∷ fs) total =
      let done = leb (add64 f.start f.size) committed in
      let gone = done && removable f.path in
      let (deleted, remaining, total') =
        first_pass committed fs (if gone then total - f.size else total) in
      (if gone then f ∷ deleted else deleted, if done then remaining else f ∷ remaining, total')

  -- The second pass, which stops once the total is within the limit.
  unfoldable pub second_pass : ℕ → List WalFile → ℕ → List WalFile × ℕ
  second_pass max [] total = ([], total)
  second_pass max (f ∷ fs) total =
      let gone = removable f.path in
      let (deleted, total') = second_pass max fs (if gone then total - f.size else total) in
      if leb total max then ([], total) else (if gone then f ∷ deleted else deleted, total')

  -- The files that were deleted, and the total at the end.
  unfoldable pub cleanup_files : List WalFile → ℕ → ℕ → List WalFile × ℕ
  cleanup_files files committed max =
      let (committed_files, remaining, total) = first_pass committed files (total_size files) in
      let (pruned, total') = second_pass max remaining total in (committed_files ++ pruned, total')

  -- `none` is a directory that cannot be read.
  unfoldable pub cleanup_wals : Option (List DirEntry) → ℕ → ℕ → List WalFile × ℕ
  cleanup_wals none committed max = ([], 0)
  cleanup_wals (some entries) committed max =
      cleanup_files (sort_by_start (wal_files entries)) committed max
