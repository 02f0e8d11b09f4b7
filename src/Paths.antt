-- ===== src/Paths.antt =====
-- Paths below the mount and keys of the bucket: `join` and `parentOf` of internal/s3fs/fs.go,
-- `baseOf` of internal/s3fs/node.go, `Key`, `DirKey` and `PathOf` of internal/s3io/s3io.go.
pub mod Split
use remote_s3_bucket_plugin.Table.{Text, text_eq, has_prefix}
use remote_s3_bucket_plugin.Prelude.{
  ℕ, suc, ◌+◌, ◌/◌, Bool, false, ◌||◌, Option, none, some, [], ◌∷◌, ◌++◌, ◌==◌, if◌then◌else◌,
  length, take, drop,
}

-- `strings.LastIndexByte`.
unfoldable pub last_index : ℕ → Text → Option ℕ
last_index b [] = none
last_index b (x ∷ xs) =
    let rest = last_index b xs in
    elim rest [ some i ↦ some (suc i) | none ↦ if x == b then some 0 else none ]

-- `strings.TrimPrefix`.
unfoldable pub trim_prefix : Text → Text → Text
trim_prefix s prefix = if has_prefix s prefix then drop (length prefix) s else s

-- `dir == "" || dir == "."`.
abbrev pub is_top : Text → Bool
is_top dir = text_eq dir [] || text_eq dir (46 ∷ [])

unfoldable pub join : Text → Text → Text
join dir name = if is_top dir then name else dir ++ 47 ∷ name

unfoldable pub parent_of : Text → Text
parent_of p = elim (last_index 47 p) [ none ↦ [] | some i ↦ take i p ]

unfoldable pub base_of : Text → Text
base_of p = elim (last_index 47 p) [ none ↦ p | some i ↦ drop (i + 1) p ]

unfoldable pub key : Text → Text → Text
key prefix path = prefix ++ trim_prefix path (47 ∷ [])

-- `strings.HasSuffix(k, "/")`.
ends_in_slash : Text → Bool
ends_in_slash [] = false
ends_in_slash (x ∷ []) = x == 47
ends_in_slash (x ∷ y ∷ xs) = ends_in_slash (y ∷ xs)

unfoldable pub dir_key : Text → Text → Text
unfolding ends_in_slash
dir_key prefix path =
    let k = key prefix path in if text_eq k [] || ends_in_slash k then k else k ++ 47 ∷ []

unfoldable pub path_of : Text → Text → Text
path_of prefix k = trim_prefix k prefix
