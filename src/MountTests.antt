-- ===== src/MountTests.antt =====
-- Runs of the mount's caches and paths on small inputs.
use remote_s3_bucket_plugin.Table.{Text, text_eq, lookup, has_prefix}
use remote_s3_bucket_plugin.Table.Laws.{text_eq_sym, IsMap, Covers, any_eq}
use remote_s3_bucket_plugin.Dirs.{DirEntry, DirCache, has_name}
use remote_s3_bucket_plugin.Dirs
use remote_s3_bucket_plugin.Dirs.Contents.{put_lem}
use remote_s3_bucket_plugin.Attrs.{Attr, Known, AttrCache}
use remote_s3_bucket_plugin.Attrs
use remote_s3_bucket_plugin.Attrs.Sticky.{sticky_lem}
use remote_s3_bucket_plugin.Batches.{delete_multi}
use remote_s3_bucket_plugin.Batches.Complete.{Ordered, delete_multi-Ordered}
use remote_s3_bucket_plugin.Entry.{Error, Uploaded, stored}
use remote_s3_bucket_plugin.Multipart.{Part, part_size, copy_multipart}
use remote_s3_bucket_plugin.Multipart.Tiles.{Tiled, Numbered, Refused, copy_multipart-Tiled}
use remote_s3_bucket_plugin.Paths.{join, parent_of, base_of, is_top, key, path_of, last_index}
use remote_s3_bucket_plugin.Paths.Split.{parts-join, path_of-key}
use remote_s3_bucket_plugin.Prelude.{
  ℕ, ◌≤◌, ◌≡◌, refl, ◌⊎◌, true, false, Option, none, some, List, [], ◌∷◌, arith, if◌then◌else◌,
  length,
}

-- Directory "a" with a child "b", and directory "c" without children; room for one.
abbrev dirs : DirCache
dirs = record {
  m =
      (97 ∷ [], record { entries = record { name = 98 ∷ []; mode = 1 } ∷ []; expires = 5 })
      ∷ (99 ∷ [], record { entries = []; expires = 9 })
      ∷ [];
  ttl = 4;
  exclusive = false;
  max_size = 1;
}

dirs-IsMap : IsMap dirs.m
unfolding IsMap lookup text_eq
dirs-IsMap = (refl, (refl, tt))

covered : Covers ((99 ∷ []) ∷ (97 ∷ []) ∷ []) dirs.m
unfolding any_eq lookup
covered k out =
    let first : text_eq k (97 ∷ []) ≡ false = ground arith in
    let second : text_eq k (99 ∷ []) ≡ false = ground arith in
    rw (text_eq_sym (97 ∷ []) k, first, text_eq_sym (99 ∷ []) k, second) refl

put_lem_example :
    IsMap (Dirs.put 7 ((99 ∷ []) ∷ (97 ∷ []) ∷ []) (101 ∷ []) [] dirs).m
    × (length (Dirs.put 7 ((99 ∷ []) ∷ (97 ∷ []) ∷ []) (101 ∷ []) [] dirs).m ≤ 2)
    × ((later : ℕ)
        → later ≤ 11
        → Dirs.get later (101 ∷ []) (Dirs.put 7 ((99 ∷ []) ∷ (97 ∷ []) ∷ []) (101 ∷ []) [] dirs)
          ≡ some [])
put_lem_example = put_lem 7 ((99 ∷ []) ∷ (97 ∷ []) ∷ []) (101 ∷ []) [] dirs dirs-IsMap covered

abbrev local : Known
local = record { attr = none; negative = true; sticky = true; expires = 0 }

abbrev attrs : AttrCache
attrs = record {
  m = (97 ∷ [], local) ∷ (98 ∷ [], record local { sticky = false }) ∷ [];
  ttl = 4;
  neg_ttl = 1;
  max_size = 1;
  exclusive = false;
}

attrs-IsMap : IsMap attrs.m
unfolding IsMap lookup text_eq
attrs-IsMap = (refl, (refl, tt))

local_there : lookup (97 ∷ []) attrs.m ≡ some local
unfolding lookup text_eq
local_there = refl

apart : text_eq (97 ∷ []) (98 ∷ []) ≡ false
unfolding text_eq
apart = refl

sticky_lem_example :
    (lookup (97 ∷ []) (Attrs.evict 3 ((97 ∷ []) ∷ (98 ∷ []) ∷ []) attrs).m ≡ some local)
    × (lookup (97 ∷ []) (Attrs.set 3 ((97 ∷ []) ∷ (98 ∷ []) ∷ []) (98 ∷ []) none true false attrs).m
        ≡ some local)
    × (lookup (97 ∷ []) (Attrs.get 3 (98 ∷ []) attrs).1.m ≡ some local)
    × (lookup (97 ∷ []) (Attrs.refresh attrs).m ≡ some local)
    × ((Attrs.get 3 (97 ∷ []) attrs).0 ≡ some (none, true))
sticky_lem_example =
    sticky_lem 3 ((97 ∷ []) ∷ (98 ∷ []) ∷ []) (98 ∷ []) none true false attrs (97 ∷ []) local
      attrs-IsMap local_there refl apart

-- "a/b" and "c".
no_slash : last_index 47 (99 ∷ []) ≡ none
unfolding last_index
no_slash = refl

parts-join_example :
    (parent_of (join (97 ∷ 47 ∷ 98 ∷ []) (99 ∷ []))
      ≡ (if is_top (97 ∷ 47 ∷ 98 ∷ []) then [] else 97 ∷ 47 ∷ 98 ∷ []))
    × (base_of (join (97 ∷ 47 ∷ 98 ∷ []) (99 ∷ [])) ≡ 99 ∷ [])
parts-join_example = parts-join (97 ∷ 47 ∷ 98 ∷ []) (99 ∷ []) no_slash

relative : has_prefix (97 ∷ 47 ∷ 98 ∷ []) (47 ∷ []) ≡ false
unfolding has_prefix
relative = refl

path_of-key_example :
    path_of (112 ∷ 47 ∷ []) (key (112 ∷ 47 ∷ []) (97 ∷ 47 ∷ 98 ∷ [])) ≡ 97 ∷ 47 ∷ 98 ∷ []
path_of-key_example = path_of-key (112 ∷ 47 ∷ []) (97 ∷ 47 ∷ 98 ∷ []) relative

-- A bucket that answers every request.
abbrev willing : List Text → Option Error
willing batch = none

abbrev two_keys : List Text
two_keys = (97 ∷ []) ∷ (98 ∷ []) ∷ []

delete_multi-Ordered_example : Ordered willing two_keys (delete_multi willing two_keys)
delete_multi-Ordered_example = delete_multi-Ordered willing two_keys

abbrev storing : Part → Uploaded
storing p = stored (7 ∷ [])

abbrev completes : List (Text × ℕ) → Option Error
completes parts = none

-- An object of 9 bytes is one part.
copy_multipart-Tiled_example :
    let r = copy_multipart none storing completes 0 9 in
    ((parts : List (Text × ℕ))
      → r.completing ≡ some parts
      → Tiled (part_size 0) 1 0 9 r.asked
        × Numbered storing r.asked parts
        × (r.error ≡ none)
        × (r.aborted ≡ false))
    × (r.completing ≡ none
        → (err : Error) × (r.error ≡ some err)
          × (((r.aborted ≡ true) × Refused storing err r.asked)
              ⊎ ((◌≡◌ {A = Option Error} none (some err)) × (r.asked ≡ []))))
copy_multipart-Tiled_example = copy_multipart-Tiled none storing completes 0 9 (omega arith)
