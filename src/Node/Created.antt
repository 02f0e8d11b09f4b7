-- ===== src/Node/Created.antt =====
-- What `Create` leaves behind.
pub mod Listed
use remote_s3_bucket_plugin.Table.{Text, text_eq, lookup, store}
use remote_s3_bucket_plugin.Table.Laws.{text_eq_refl, lookup-head, lookup-store}
use remote_s3_bucket_plugin.Paths.{trim_prefix, is_top, join, key, dir_key}
use remote_s3_bucket_plugin.Attrs
use remote_s3_bucket_plugin.Attrs.{Attr, AttrCache, set}
use remote_s3_bucket_plugin.Attrs.Meta.{Stat, fill, reg_bits, perm_bits}
use remote_s3_bucket_plugin.Dirs
use remote_s3_bucket_plugin.Dirs.{DirEntry, has_name}
use remote_s3_bucket_plugin.Entry.{
  Error, Outcome, done, failed, os_error, untouched, ref, invalidate,
}
use remote_s3_bucket_plugin.Cache
use remote_s3_bucket_plugin.Cache.{
  Cache, put_entry, set_counters, release_bytes, emptied, fresh_entry, add_entry,
}
use remote_s3_bucket_plugin.Cache.Rows.{self_id}
use remote_s3_bucket_plugin.Config.{Config}
use remote_s3_bucket_plugin.Fs.{
  World, Fs, M, ◌>>=◌, ◌>>◌, resume, put_sticky, mark_pending, names_in, drop_name, writable, erofs,
}
use remote_s3_bucket_plugin.Fs.Stat.{stat, mem_name}
use remote_s3_bucket_plugin.Node.{Reply, ok, errno, reply, count_op, FileHandle, new_attr, counted}
use remote_s3_bucket_plugin.Node.Files.{
  create, create_file, create_entry, check_exclusive, note_created, flush_file,
}
use remote_s3_bucket_plugin.Node.Names.{lookup_name}
use remote_s3_bucket_plugin.Prelude.{
  ℕ, bit_and, bit_or, ◌≡◌, refl, sym, ap, subst, ◌∙◌, inl, inr, true, false, Option, some, List, [],
  ◌∷◌, if◌then◌else◌, Bool-cases, Option-cases,
}

-- A chain that succeeds is its last operation, in the state that the first one left.
pub bind_done :
    {A B : Type 0} (m : M A) (f : A → M B) (s : Fs) (b : B)
    → ((m >>= f) s).0 ≡ done b
    → (a : A) × ((m s).0 ≡ done a) × ((m >>= f) s ≡ f a (m s).1)
bind_done m f s b h = result f (m s).0 (m s).1 b h
  where
    result :
        {A B : Type 0} (f : A → M B) (r : Outcome A) (s : Fs) (b : B)
        → (resume f r s).0 ≡ done b
        → (a : A) × (r ≡ done a) × (resume f r s ≡ f a s)
    result f (done a) s b h = (a, refl, refl)
    result f (failed err) s b h = cc

pub reply_ok : {A : Type 0} (o : Outcome A) (a : A) → reply o ≡ ok a → o ≡ done a
unfolding reply
reply_ok (done a') a h = cc
reply_ok (failed err) a h = cc

pub writable_done :
    {A : Type 0} (g : Config) (m : M A) (s : Fs) (a : A)
    → (writable g m s).0 ≡ done a
    → writable g m s ≡ m s
unfolding writable
writable_done {A} g m s a h =
    let refusal : Outcome A × Fs = (failed (os_error erofs), s) in
    elim (Bool-cases g.read_only) [
      | inl e ↦
          let bad : failed (os_error erofs) ≡ done a =
            sym (ap (λ b. (if b then refusal else m s).0) e) ∙ h in
          cc
      | inr e ↦ simp (e)
    ]

pub done_inj : {A : Type 0} {a b : A} → done a ≡ done b → a ≡ b
done_inj h = cc

-- From the result of `Create` to what it says of the entry.
of_result :
    (r : Outcome ℕ × Cache) (n id : ℕ) (c : Cache)
    → r ≡ (done n, c)
    → r.0 ≡ done id
    → untouched (c.store n) ≡ true
    → untouched (r.1.store id) ≡ true
of_result r n id c e h u =
    subst (λ (x : Outcome ℕ × Cache). untouched (x.1.store id) ≡ true) (sym e)
      (subst (λ i. untouched (c.store i) ≡ true)
        (done_inj (sym (ap (λ (x : Outcome ℕ × Cache). x.0) e) ∙ h)) u)

create_entry-untouched :
    (bs now : ℕ) (path_for : Text → Text) (io : Option Error) (k : Text) (c : Cache) (id : ℕ)
    → (Cache.create bs path_for io now k c).0 ≡ done id
    → untouched ((Cache.create bs path_for io now k c).1.store id) ≡ true
unfolding Cache.create emptied fresh_entry add_entry put_entry untouched ref invalidate
create_entry-untouched bs now path_for io k c id h = elim (Option-cases (lookup k c.table)) [
  | inl e ↦ elim (Option-cases io) [
    | inl e' ↦
        of_result (Cache.create bs path_for io now k c) c.next id
          (add_entry k (fresh_entry bs now (path_for k) k 0 [] now true) c)
          (rw (Cache.create, e, e')) h (rw (self_id c.next))
    | inr (err, e') ↦
        let E : Cache.create bs path_for io now k c ≡ (failed err, c) = rw (Cache.create, e, e') in
        let bad : failed err ≡ done id = sym (ap (λ (x : Outcome ℕ × Cache). x.0) E) ∙ h in cc
  ]
  | inr (other, e) ↦
      of_result (Cache.create bs path_for io now k c) other id
        (set_counters (release_bytes bs (c.store other) c.counters)
          (put_entry other (emptied bs now (c.store other)) c))
        (rw (Cache.create, e)) h (rw (self_id other))
]

get-put_sticky :
    (later now : ℕ) (order : List Text) (p : Text) (a : Attr) (c : AttrCache)
    → Attrs.get later p (Attrs.put_sticky now order p a c)
      ≡ (some (some a, false), Attrs.put_sticky now order p a c)
unfolding Attrs.get set lookup
get-put_sticky later now order p a c = rw (Attrs.get, text_eq_refl p)

-- A sticky attribute is what `stat` answers at any time.
stat-put_sticky :
    (g : Config) (w w' : World) (p : Text) (a : Attr) (s t : Fs)
    → is_top p ≡ false
    → trim_prefix p (47 ∷ []) ≡ p
    → t.attrs ≡ Attrs.put_sticky w.now w.attr_order p a s.attrs
    → stat g w' p t ≡ (done a, t)
unfolding stat
stat-put_sticky g w w' p a s t top bare e =
    let found : Attrs.get w'.now p t.attrs ≡ (some (some a, false), t.attrs) =
      subst (λ c. Attrs.get w'.now p c ≡ (some (some a, false), c)) (sym e)
        (get-put_sticky w'.now w.now w.attr_order p a s.attrs) in
    let q = trim_prefix p (47 ∷ []) in
    let top' : is_top q ≡ false = ap is_top bare ∙ top in
    let found' : Attrs.get w'.now q t.attrs ≡ (some (some a, false), t.attrs) = rw bare found in
    rw (stat, top', found') (ap (λ x. (done a, record t { attrs = x.1 })) found')

-- The attributes of a new file.
abbrev pub new_file : Config → World → ℕ → Attr
new_file g w mode = new_attr g w (bit_or reg_bits (bit_and mode perm_bits)) 0 []

-- The state that a creation leaves, and its entry.
pub create-note_created :
    (g : Config) (w : World) (dir name : Text) (flags mode : ℕ) (s : Fs) (r : Stat × FileHandle × ℕ)
    → (create g w dir name flags mode s).0 ≡ ok r
    → (t : Fs) × ((create g w dir name flags mode s).1
        ≡ note_created w dir name (new_file g w mode) t)
      × (untouched (t.cache.store r.1.entry) ≡ true)
unfolding create create_file
create-note_created g w dir name flags mode s r h =
    let body = create_file g w dir name flags mode in
    let ok_body : (writable g body (count_op s)).0 ≡ done r = reply_ok _ r h in
    let allowed : writable g body (count_op s) ≡ body (count_op s) =
      writable_done g body (count_op s) r ok_body in
    let (u, checked, is_rest) =
      bind_done (check_exclusive g w (join dir name) flags) _ (count_op s) r
        (sym (ap (λ (x : Outcome (Stat × FileHandle × ℕ) × Fs). x.0) allowed) ∙ ok_body) in
    let s1 = (check_exclusive g w (join dir name) flags (count_op s)).1 in
    let (id, made, is_last) = bind_done (create_entry g w (join dir name)) _ s1 r (
      sym (ap (λ (x : Outcome (Stat × FileHandle × ℕ) × Fs). x.0) (allowed ∙ is_rest)) ∙ ok_body) in
    let s2 = (create_entry g w (join dir name) s1).1 in
    let whole = allowed ∙ is_rest ∙ is_last in
    let same_result =
      done_inj (sym (ap (λ (x : Outcome (Stat × FileHandle × ℕ) × Fs). x.0) whole) ∙ ok_body) in
    (
      s2,
      ap (λ (x : Outcome (Stat × FileHandle × ℕ) × Fs). x.1) whole,
      subst (λ (x : Stat × FileHandle × ℕ). untouched (s2.cache.store x.1.entry) ≡ true) same_result
          (create_entry-untouched g.block_size w.now w.os.path_for w.os.open_file
            (key g.prefix (join dir name)) s1.cache id made),
    )

-- After `Create`, the name resolves at any time to the new file, which is empty, whatever the bucket
-- answers. Resolving it changes nothing but the count of operations.
pub create-lookup_name :
    (g : Config) (w w' : World) (dir name : Text) (flags mode : ℕ) (s : Fs)
    (r : Stat × FileHandle × ℕ)
    → is_top (join dir name) ≡ false
    → trim_prefix (join dir name) (47 ∷ []) ≡ join dir name
    → (create g w dir name flags mode s).0 ≡ ok r
    → lookup_name g w' dir name (create g w dir name flags mode s).1
      ≡ (ok (fill (new_file g w mode)), count_op (create g w dir name flags mode s).1)
unfolding lookup_name note_created mark_pending reply
create-lookup_name g w w' dir name flags mode s r top bare h =
    let (t, made, fresh) = create-note_created g w dir name flags mode s r h in
    let s' = (create g w dir name flags mode s).1 in
    let known : stat g w' (join dir name) (count_op s') ≡ (done (new_file g w mode), count_op s') =
      stat-put_sticky g w w' (join dir name) (new_file g w mode) t (count_op s') top bare
        (ap (λ (x : Fs). x.attrs) made) in
    rw known

-- A flush of the descriptor after `Create`, before the first write, does nothing.
create-flush_file :
    (g : Config) (w w' : World) (dir name : Text) (flags mode : ℕ) (s : Fs)
    (r : Stat × FileHandle × ℕ)
    → (create g w dir name flags mode s).0 ≡ ok r
    → flush_file g w' (some r.1) (create g w dir name flags mode s).1
      ≡ (ok tt, count_op (create g w dir name flags mode s).1)
unfolding flush_file note_created mark_pending reply
create-flush_file g w w' dir name flags mode s r h =
    let (t, made, fresh) = create-note_created g w dir name flags mode s r h in
    let s' = (create g w dir name flags mode s).1 in
    let still : untouched (s'.cache.store r.1.entry) ≡ true =
      ap (λ (x : Fs). untouched (x.cache.store r.1.entry)) made ∙ fresh in
    rw (flush_file, still)
