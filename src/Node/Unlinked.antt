-- ===== src/Node/Unlinked.antt =====
-- What `Unlink` leaves behind.
use remote_s3_bucket_plugin.Table.{Text, lookup}
use remote_s3_bucket_plugin.Table.Laws.{IsMap, text_eq_refl, lookup-head}
use remote_s3_bucket_plugin.Paths.{is_top, trim_prefix, join, key}
use remote_s3_bucket_plugin.Attrs
use remote_s3_bucket_plugin.Attrs.{Attr, Known, AttrCache, set}
use remote_s3_bucket_plugin.Attrs.Meta.{is_dir}
use remote_s3_bucket_plugin.Entry.{Error, Outcome, done, failed, os_error, Counters, Options, Entry}
use remote_s3_bucket_plugin.Entry.Upload.{finish_flush, flush as flush_open}
use remote_s3_bucket_plugin.Cache
use remote_s3_bucket_plugin.Cache.{Cache, on_entry}
use remote_s3_bucket_plugin.Cache.Keys.{remove-drop}
use remote_s3_bucket_plugin.Cache.Writeback.{flush_entry}
use remote_s3_bucket_plugin.Config.{Config}
use remote_s3_bucket_plugin.Fs.{
  World, Fs, M, ◌>>=◌, ◌>>◌, modify, on_cache, fail, eisdir, enoent, to_errno, writable,
  clear_pending,
}
use remote_s3_bucket_plugin.Fs.Stat.{stat}
use remote_s3_bucket_plugin.Fs.Upload.{options, flush}
use remote_s3_bucket_plugin.Fs.Rename.{delete_object, forgive}
use remote_s3_bucket_plugin.Fs.Quiet.{Keeps, bind-Keeps, stat-Keeps}
use remote_s3_bucket_plugin.Node.{ok, errno, reply, count_op}
use remote_s3_bucket_plugin.Node.Names.{lookup_name, unlink, forget_file}
use remote_s3_bucket_plugin.Node.Created.{bind_done, reply_ok, writable_done}
use remote_s3_bucket_plugin.Prelude.{
  ℕ, ◌+◌, ◌≡◌, refl, sym, ap, subst, ◌∙◌, inl, inr, Bool, true, false, not, ◌&&◌, ◌||◌, Option,
  none, some, List, [], ◌∷◌, ltb, leb, if◌then◌else◌, leb→le, le→ltb_false, Bool-cases,
  Option-cases,
}

delete_object-cache : (w : World) (k : Text) → Keeps (λ s. s.cache) (delete_object w k)
unfolding delete_object
delete_object-cache w k s = elim (Option-cases (forgive (w.bucket.on_delete s.requests k))) [
  | inl e ↦ rw (delete_object, e)
  | inr (err, e) ↦ rw (delete_object, e)
]

-- The part of `Unlink` after the checks.
delete_file : Config → World → Text → Text → M (Unit {0})
delete_file g w dir name =
    let p = join dir name in
    modify (on_cache (Cache.remove g.block_size (key g.prefix p)))
    >> (delete_object w (key g.prefix p) >> modify (forget_file w dir name))

delete_file-cache :
    (g : Config) (w : World) (dir name : Text) (s : Fs)
    → (delete_file g w dir name s).1.cache
      ≡ Cache.remove g.block_size (key g.prefix (join dir name)) s.cache
unfolding delete_file forget_file clear_pending
delete_file-cache g w dir name s =
    bind-Keeps (λ t. t.cache) (delete_object w (key g.prefix (join dir name))) _
      (delete_object-cache w (key g.prefix (join dir name))) (λ u t. refl)
      (on_cache (Cache.remove g.block_size (key g.prefix (join dir name))) s)

-- What `Unlink` does to the file that it found, if that succeeds.
unlink-found :
    (g : Config) (w : World) (dir name : Text) (s : Fs)
    → (unlink g w dir name s).0 ≡ ok tt
    → let after = delete_file g w dir name (stat g w (join dir name) (count_op s)).1 in
      ((unlink g w dir name s).1 ≡ after.1) × (after.0 ≡ done tt)
unfolding unlink delete_file
unlink-found g w dir name s h =
    let m = stat g w (join dir name) in
    let f : Attr → M (Unit {0}) =
      λ a. if is_dir a then fail (os_error eisdir) else delete_file g w dir name in
    let ok_body : (writable g (m >>= f) (count_op s)).0 ≡ done tt = reply_ok _ tt h in
    let allowed : writable g (m >>= f) (count_op s) ≡ (m >>= f) (count_op s) =
      writable_done g (m >>= f) (count_op s) tt ok_body in
    let (a, found, rest) =
      bind_done m f (count_op s) tt
        (sym (ap (λ (x : Outcome (Unit {0}) × Fs). x.0) allowed) ∙ ok_body) in
    let whole : writable g (m >>= f) (count_op s) ≡ f a (m (count_op s)).1 = allowed ∙ rest in
    let chosen : f a (m (count_op s)).1 ≡ delete_file g w dir name (m (count_op s)).1 =
      elim (Bool-cases (is_dir a)) [
        | inr file ↦ rw file
        | inl directory ↦
            let bad : failed (os_error eisdir) ≡ done tt =
              sym (
                ap
                  (λ b.
                    ((if b then fail (os_error eisdir) else delete_file g w dir name)
                      (m (count_op s)).1).0)
                  directory)
              ∙ sym (ap (λ (x : Outcome (Unit {0}) × Fs). x.0) whole)
              ∙ ok_body in
            cc
      ] in
    (
      ap (λ (x : Outcome (Unit {0}) × Fs). x.1) (whole ∙ chosen),
      sym (ap (λ (x : Outcome (Unit {0}) × Fs). x.0) (whole ∙ chosen)) ∙ ok_body,
    )

unlink-cache :
    (g : Config) (w : World) (dir name : Text) (s : Fs)
    → (unlink g w dir name s).0 ≡ ok tt
    → (unlink g w dir name s).1.cache
      ≡ Cache.remove g.block_size (key g.prefix (join dir name)) s.cache
unlink-cache g w dir name s h =
    ap (λ (x : Fs). x.cache) (unlink-found g w dir name s h).0
    ∙ delete_file-cache g w dir name (stat g w (join dir name) (count_op s)).1
    ∙ ap (Cache.remove g.block_size (key g.prefix (join dir name)))
        (stat-Keeps (λ t. t.cache) (λ c t. refl) g w (join dir name) (count_op s))

or_true : (b : Bool) → (b || true) ≡ true
or_true true = refl
or_true false = refl

flush_open-deleted :
    (o : Options) (cut sync : Option Error) (now : ℕ) (e : Entry) (c : Counters)
    → e.deleted ≡ true
    → flush_open o cut sync now e c ≡ (done none, e, c)
unfolding flush_open
flush_open-deleted o cut sync now e c h = elim (Bool-cases o.read_only) [
  | inl ro ↦ simp (ro)
  | inr rw_ ↦ simp (rw_, h, or_true (not e.dirty))
]

flush-deleted :
    (g : Config) (w : World) (id : ℕ) (t : Fs)
    → (t.cache.store id).deleted ≡ true
    → (flush g w id t).1.requests ≡ t.requests
unfolding flush options flush_entry on_entry
flush-deleted g w id t h = rw (
  flush,
  flush_entry,
  on_entry,
  flush_open-deleted (options g w t) (w.os.flush_file.cut id) (w.os.flush_file.sync id) w.now
      (t.cache.store id) t.cache.counters h,
)

finish_flush-deleted :
    (o : Options) (cut sync : Option Error) (now : ℕ) (k : Text) (e : Entry) (c : Counters)
    → e.deleted ≡ true
    → finish_flush o cut sync now k e c ≡ (done none, e, c)
unfolding finish_flush
finish_flush-deleted o cut sync now k e c h = simp (h, or_true (not e.dirty))

-- After `Unlink` of a file with a cached entry, the name has no entry, and the old one, which may still
-- be open or in the hands of the background flusher, is never uploaded again: a flush of it makes no
-- request, and neither does one that had already begun, once it has the lock.
pub unlink-stays_gone :
    (g : Config) (w : World) (dir name : Text) (s : Fs) (id : ℕ)
    → IsMap s.cache.table
    → lookup (key g.prefix (join dir name)) s.cache.table ≡ some id
    → (unlink g w dir name s).0 ≡ ok tt
    → let t = (unlink g w dir name s).1 in
      (lookup (key g.prefix (join dir name)) t.cache.table ≡ none)
      × ((w' : World) → (flush g w' id t).1.requests ≡ t.requests)
      × ((o : Options) (cut sync : Option Error) (now : ℕ) (k : Text) (c : Counters)
          → finish_flush o cut sync now k (t.cache.store id) c ≡ (done none, t.cache.store id, c))
unlink-stays_gone g w dir name s id d row h =
    let k = key g.prefix (join dir name) in
    let t = (unlink g w dir name s).1 in
    let now_gone : t.cache ≡ Cache.remove g.block_size k s.cache = unlink-cache g w dir name s h in
    let (rows, entry, files) = remove-drop g.block_size k id s.cache d row in
    let gone : (t.cache.store id).deleted ≡ true =
      ap (λ (c : Cache). (c.store id).deleted) now_gone ∙ ap (λ (e : Entry). e.deleted) entry in
    (
      ap (λ (c : Cache). lookup k c.table) now_gone ∙ rows k ∙ rw (text_eq_refl k),
      λ w'. flush-deleted g w' id t gone,
      λ o cut sync now k c. finish_flush-deleted o cut sync now k (t.cache.store id) c gone,
    )

-- What has not expired is found.
get_fresh :
    (later : ℕ) (p : Text) (c : AttrCache) (v : Known)
    → lookup p c.m ≡ some v
    → (c.exclusive || leb later v.expires) ≡ true
    → (Attrs.get later p c).0 ≡ some (v.attr, v.negative)
unfolding Attrs.get
get_fresh later p c v row h =
    let cond : (not v.sticky && not c.exclusive && ltb v.expires later) ≡ false =
      in_time v.sticky c.exclusive v.expires later h in
    rw (Attrs.get, row, cond)
  where
    in_time :
        (sticky exclusive : Bool) (expires later : ℕ)
        → (exclusive || leb later expires) ≡ true
        → (not sticky && not exclusive && ltb expires later) ≡ false
    in_time true exclusive expires later h = refl
    in_time false true expires later h = refl
    in_time false false expires later h = le→ltb_false expires later (leb→le later expires h)

get-put_negative :
    (later now : ℕ) (order : List Text) (p : Text) (c : AttrCache)
    → (c.exclusive || leb later (now + c.neg_ttl)) ≡ true
    → (Attrs.get later p (Attrs.put_negative now order p c)).0 ≡ some (none, true)
unfolding set
get-put_negative later now order p c h =
    get_fresh later p (Attrs.put_negative now order p c) _ (lookup-head p p _ _ (text_eq_refl p)) h

-- The attributes that a successful `Unlink` leaves.
unlink-attrs :
    (g : Config) (w : World) (dir name : Text) (s : Fs)
    → (unlink g w dir name s).0 ≡ ok tt
    → (c : AttrCache) × ((unlink g w dir name s).1.attrs
        ≡ Attrs.put_negative w.now w.attr_order (join dir name) c)
unfolding delete_file forget_file clear_pending
unlink-attrs g w dir name s h =
    let (state, deleted) = unlink-found g w dir name s h in
    let k = key g.prefix (join dir name) in
    let s1 = on_cache (Cache.remove g.block_size k) (stat g w (join dir name) (count_op s)).1 in
    let (u, sent, rest) =
      bind_done (delete_object w k) (λ _. modify (forget_file w dir name)) s1 tt deleted in
    (
      (delete_object w k s1).1.attrs,
      ap (λ (x : Fs). x.attrs) state ∙ ap (λ (x : Outcome (Unit {0}) × Fs). x.1.attrs) rest,
    )

stat-negative :
    (g : Config) (w : World) (p : Text) (s : Fs)
    → is_top p ≡ false
    → trim_prefix p (47 ∷ []) ≡ p
    → (Attrs.get w.now p s.attrs).0 ≡ some (none, true)
    → (stat g w p s).0 ≡ failed (os_error enoent)
unfolding stat
stat-negative g w p s top bare found =
    let q = trim_prefix p (47 ∷ []) in
    let top' : is_top q ≡ false = ap is_top bare ∙ top in
    let found' : (Attrs.get w.now q s.attrs).0 ≡ some (none, true) = rw bare found in
    rw (stat, top', found')

-- After `Unlink`, the name is absent until the time to live of what is known to be absent is over, in
-- exclusive mode for ever, whatever the bucket answers.
pub unlink-lookup_name :
    (g : Config) (w w' : World) (dir name : Text) (s : Fs)
    → is_top (join dir name) ≡ false
    → trim_prefix (join dir name) (47 ∷ []) ≡ join dir name
    → (unlink g w dir name s).0 ≡ ok tt
    → let t = (unlink g w dir name s).1 in
      (t.attrs.exclusive || leb w'.now (w.now + t.attrs.neg_ttl)) ≡ true
      → (lookup_name g w' dir name t).0 ≡ errno enoent
unfolding lookup_name reply set to_errno
unlink-lookup_name g w w' dir name s top bare h until =
    let t = (unlink g w dir name s).1 in
    let p = join dir name in
    let (c, e) = unlink-attrs g w dir name s h in
    let c' = Attrs.put_negative w.now w.attr_order p c in
    let until' : (c'.exclusive || leb w'.now (w.now + c'.neg_ttl)) ≡ true =
      subst (λ (x : AttrCache). (x.exclusive || leb w'.now (w.now + x.neg_ttl)) ≡ true) e until in
    let found : (Attrs.get w'.now p t.attrs).0 ≡ some (none, true) =
      ap (λ x. (Attrs.get w'.now p x).0) e
      ∙ get-put_negative w'.now w.now w.attr_order p c until' in
    let gone : (stat g w' p (count_op t)).0 ≡ failed (os_error enoent) =
      stat-negative g w' p (count_op t) top bare found in
    rw gone
