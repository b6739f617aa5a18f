-- ===== src/Retention/Size.antt =====
-- `RetentionConfig`, `parse_size` and `dir_size` of src/retention.rs. Settings are ASCII texts.
use edgewit.Prelude.{
  ℕ, ◌+◌, ◌-◌, ◌*◌, ◌%◌, ◌^◌, Bool, ◌&&◌, ◌||◌, Option, none, some, [], ◌∷◌, Text, leb, ◌==◌,
  if◌then◌else◌, length, take, map, ascii, ends_with,
}
use mathlib.Core.Option
use mathlib.Core.List.{reverse}
use edgewit.Prelude.Numbers.{parse_u64}

pub record RetentionConfig : Type 0 where
  pub max_index_bytes : ℕ
  pub max_wal_bytes : ℕ

abbrev pub default : RetentionConfig
default = record { max_index_bytes = 1024 * 1024 * 1024; max_wal_bytes = 512 * 1024 * 1024 }

unfoldable pub is_space : ℕ → Bool
is_space c = (leb 9 c && leb c 13) || c == 32

unfoldable pub trim_start : Text → Text
trim_start [] = []
trim_start (c ∷ cs) = if is_space c then trim_start cs else c ∷ cs

unfoldable pub trim : Text → Text
trim s = reverse (trim_start (reverse (trim_start s)))

unfoldable pub to_upper : ℕ → ℕ
to_upper c = if leb b'a' c && leb c b'z' then c - 32 else c

unfoldable pub to_uppercase : Text → Text
to_uppercase = map to_upper

-- The text without its last `n` bytes.
unfoldable pub strip : ℕ → Text → Text
strip n s = take (length s - n) s

-- The number's text and the multiplier.
unfoldable pub split_suffix : Text → Text × ℕ
split_suffix s =
    if ends_with s (ascii "GB")
    then (strip 2 s, 1073741824)
    else if ends_with s (ascii "MB")
    then (strip 2 s, 1048576)
    else if ends_with s (ascii "KB")
    then (strip 2 s, 1024)
    else if ends_with s (ascii "B")
    then (strip 1 s, 1)
    else (s, 1)

-- The product is a `u64`, which wraps in the release profile.
unfoldable pub parse_size : Text → Option ℕ
parse_size s =
    let (num_str, mul) = split_suffix (to_uppercase (trim s)) in
    Option.map (λ v. v * mul % 2 ^ 64) (parse_u64 (trim num_str))

abbrev or_default : ℕ → Option ℕ → ℕ
or_default d none = d
or_default d (some n) = n

abbrev limit : ℕ → Option Text → ℕ
limit d none = d
limit d (some v) = or_default d (parse_size v)

-- `RetentionConfig::from_env`, given the values of the two variables.
unfoldable pub from_env : Option Text → Option Text → RetentionConfig
from_env index_bytes wal_bytes = record {
  max_index_bytes = limit default.max_index_bytes index_bytes;
  max_wal_bytes = limit default.max_wal_bytes wal_bytes;
}

-- What `read_dir` and `metadata` show: files with their sizes, directories that can or cannot be
-- read, and the rest, with entries whose metadata cannot be read.
mutual
  pub data Node : Type 0 where
    file : ℕ → Node
    dir : Nodes → Node
    unreadable : Node
    other : Node

  pub data Nodes : Type 0 where
    end : Nodes
    node : Node → Nodes → Nodes

unfoldable mutual
  pub node_size : Node → ℕ
  node_size (file n) = n
  node_size (dir ns) = nodes_size ns
  node_size unreadable = 0
  node_size other = 0

  pub nodes_size : Nodes → ℕ
  nodes_size end = 0
  nodes_size (node n ns) = (node_size n + nodes_size ns) % 2 ^ 64

-- `dir_size` of a path, `none` if it cannot be read.
unfoldable pub dir_size : Option Nodes → ℕ
dir_size none = 0
dir_size (some ns) = nodes_size ns
