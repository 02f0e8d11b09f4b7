-- ===== src/Attrs.antt =====
-- internal/s3fs/attr.go, the attribute cache: what is known of paths, absent ones included. "Sticky"
-- entries are what only this mount knows. The clock and the order in which Go visits the keys of the
-- map are arguments.
pub mod Sticky
pub mod Meta
use remote_s3_bucket_plugin.Table.{Text, in_subtree, lookup, keep, erase, store}
use remote_s3_bucket_plugin.Prelude.{
  ℕ, ◌+◌, ◌-◌, ◌/◌, Bool, true, false, not, ◌&&◌, Option, none, some, List, [], ◌∷◌, map, ltb, leb,
  ◌==◌, if◌then◌else◌, length,
}

-- Times are numbers.
pub record Attr : Type 0 where
  pub mode : ℕ
  pub size : ℕ
  pub uid : ℕ
  pub gid : ℕ
  pub mtime : ℕ
  pub atime : ℕ
  pub ctime : ℕ
  pub etag : Text
  pub symlink : Text

pub record Known : Type 0 where
  pub attr : Option Attr
  pub negative : Bool
  pub sticky : Bool
  pub expires : ℕ

pub record AttrCache : Type 0 where
  pub m : List (Text × Known)
  pub ttl : ℕ
  pub neg_ttl : ℕ
  pub max_size : ℕ
  pub exclusive : Bool

unfoldable pub new_attr_cache : ℕ → ℕ → Bool → AttrCache
new_attr_cache ttl neg_ttl exclusive = record {
  m = [];
  ttl = ttl;
  neg_ttl = neg_ttl;
  max_size = 200000;
  exclusive = exclusive;
}

-- The attribute, if any, and whether the path is known to be absent. What has expired is dropped.
unfoldable pub get : ℕ → Text → AttrCache → Option (Option Attr × Bool) × AttrCache
get now p c = elim (lookup p c.m) [
  | none ↦ (none, c)
  | some e ↦
      if not e.sticky && not c.exclusive && ltb e.expires now
      then (none, record c { m = erase p c.m })
      else (some (e.attr, e.negative), c)
]

-- Drops `n` entries that are not sticky, those that come first in the order.
unfoldable pub drop_loop : ℕ → List Text → List (Text × Known) → List (Text × Known)
drop_loop n [] t = t
drop_loop n (k ∷ ks) t =
    let skip = drop_loop n ks t in
    let go = drop_loop (n - 1) ks (erase k t) in
    if n == 0 then t else elim (lookup k t) [ none ↦ skip | some e ↦ if e.sticky then skip else go ]

unfoldable pub evict : ℕ → List Text → AttrCache → AttrCache
unfolding drop_loop
evict now order c =
    let swept =
      if c.exclusive then c.m else keep (λ k e. not (not e.sticky && ltb e.expires now)) c.m in
    let c' = record c { m = swept } in
    if leb (length swept) c.max_size
    then c'
    else record c { m = drop_loop (length swept - c.max_size / 2) order swept }

unfoldable pub set : ℕ → List Text → Text → Option Attr → Bool → Bool → AttrCache → AttrCache
unfolding evict
set now order p a negative sticky c =
    let c' = if ltb c.max_size (length c.m) then evict now order c else c in
    let ttl = if negative then c.neg_ttl else c.ttl in
    let e : Known = record {
      attr = a;
      negative = negative;
      sticky = sticky;
      expires = now + ttl;
    } in
    record c { m = store p e c'.m }

abbrev pub put : ℕ → List Text → Text → Attr → AttrCache → AttrCache
put now order p a c = set now order p (some a) false false c

abbrev pub put_sticky : ℕ → List Text → Text → Attr → AttrCache → AttrCache
put_sticky now order p a c = set now order p (some a) false true c

abbrev pub put_negative : ℕ → List Text → Text → AttrCache → AttrCache
put_negative now order p c = set now order p none true false c

-- A path that was only local is in the bucket now.
unfoldable pub unstick : ℕ → Text → Attr → AttrCache → AttrCache
unstick now p a c = record c {
  m =
      store p (record { attr = some a; negative = false; sticky = false; expires = now + c.ttl })
        c.m;
}

unfoldable pub invalidate : Text → AttrCache → AttrCache
invalidate p c = record c { m = erase p c.m }

unfoldable pub invalidate_prefix : Text → AttrCache → AttrCache
invalidate_prefix p c = record c { m = keep (λ k e. not (in_subtree p k)) c.m }

-- Forgets what was learned from the bucket.
unfoldable pub refresh : AttrCache → AttrCache
refresh c = record c { m = keep (λ k e. e.sticky) c.m }
