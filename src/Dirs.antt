-- ===== src/Dirs.antt =====
-- internal/s3fs/dircache.go: the listings of directories that the mount remembers. The clock and the
-- order in which Go visits the keys of the map are arguments.
pub mod Contents
use remote_s3_bucket_plugin.Table.{
  Text, text_eq, in_subtree, lookup, keep, erase, store, drop_until,
}
use remote_s3_bucket_plugin.Prelude.{
  ℕ, ◌+◌, ◌/◌, Bool, false, not, ◌&&◌, ◌||◌, Option, none, some, List, [], ◌∷◌, ◌++◌, map, ltb,
  if◌then◌else◌, length,
}

-- A `fuse.DirEntry`.
pub record DirEntry : Type 0 where
  pub name : Text
  pub mode : ℕ

pub record Listing : Type 0 where
  pub entries : List DirEntry
  pub expires : ℕ

pub record DirCache : Type 0 where
  pub m : List (Text × Listing)
  pub ttl : ℕ
  pub exclusive : Bool
  pub max_size : ℕ

unfoldable pub new_dir_cache : ℕ → Bool → DirCache
new_dir_cache ttl exclusive = record { m = []; ttl = ttl; exclusive = exclusive; max_size = 20000 }

-- `none` if there is no listing, or it has expired.
unfoldable pub get : ℕ → Text → DirCache → Option (List DirEntry)
get now p c = elim (lookup p c.m) [
  | none ↦ none
  | some e ↦ if not c.exclusive && ltb e.expires now then none else some e.entries
]

-- The sweep of what has expired, which exclusive mode skips, and then of whatever comes first.
unfoldable pub trim : ℕ → List Text → DirCache → DirCache
trim now order c =
    let swept = if c.exclusive then c.m else keep (λ k v. not (ltb v.expires now)) c.m in
    record c { m = drop_until (c.max_size / 2) order swept }

unfoldable pub put : ℕ → List Text → Text → List DirEntry → DirCache → DirCache
unfolding trim
put now order p entries c =
    let c' = if ltb c.max_size (length c.m) then trim now order c else c in
    record c { m = store p (record { entries = entries; expires = now + c.ttl }) c'.m }

unfoldable pub clear : DirCache → DirCache
clear c = record c { m = [] }

-- The loops over the entries of a listing.
unfoldable pub has_name : Text → List DirEntry → Bool
has_name n [] = false
has_name n (x ∷ xs) = let rest = has_name n xs in text_eq x.name n || rest

unfoldable pub without : Text → List DirEntry → List DirEntry
without n [] = []
without n (x ∷ xs) = let rest = without n xs in if text_eq x.name n then rest else x ∷ rest

-- A child that this mount created.
unfoldable pub add : Text → DirEntry → DirCache → DirCache
unfolding lookup has_name
add p entry c = elim (lookup p c.m) [
  | none ↦ c
  | some e ↦
      if has_name entry.name e.entries
      then c
      else record c { m = store p (record e { entries = e.entries ++ entry ∷ [] }) c.m }
]

-- A child that this mount deleted.
unfoldable pub remove : Text → Text → DirCache → DirCache
unfolding lookup without
remove p name c = elim (lookup p c.m) [
  | none ↦ c
  | some e ↦ record c { m = store p (record e { entries = without name e.entries }) c.m }
]

-- A directory that this mount created is empty.
unfoldable pub seed : ℕ → Text → DirCache → DirCache
seed now p c = record c { m = store p (record { entries = []; expires = now + c.ttl }) c.m }

unfoldable pub invalidate : Text → DirCache → DirCache
invalidate p c = record c { m = erase p c.m }

unfoldable pub invalidate_prefix : Text → DirCache → DirCache
invalidate_prefix p c = record c { m = keep (λ k v. not (in_subtree p k)) c.m }
