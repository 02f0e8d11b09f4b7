-- ===== src/Control/Registered.antt =====
-- `Find` after `Register` and after `Deregister`.
use remote_s3_bucket_plugin.Table.{Text, text_eq, lookup, erase}
use remote_s3_bucket_plugin.Table.Laws.{
  IsMap, text_eq_refl, text_eq_sym, eq_of_text_eq, lookup-erase, lookup-store, store-IsMap,
  keep-IsMap, some_inj, some_ne_none, any_eq,
}
use remote_s3_bucket_plugin.Config.Source.{is_empty}
use remote_s3_bucket_plugin.Utf8.{is_utf8}
use remote_s3_bucket_plugin.Control.{
  MountEntry, Registry, registry_file, register, answers, list_mounts, find_exact, find_in, find,
}
use remote_s3_bucket_plugin.Prelude.{
  ◌≡◌, refl, sym, ap, subst, ◌∙◌, inl, inr, Bool, true, false, none, some, List, [], ◌∷◌,
  Bool-cases, Option-cases,
}

-- Each record is in the file of its mountpoint, which is an absolute path.
pub record IsFiled (abs : Text → Text) (reg : Registry) : Type 0 where
  pub distinct : IsMap reg
  pub filed :
      (name : Text) (e : MountEntry)
      → lookup name reg ≡ some e
      → (name ≡ registry_file e.mountpoint) × (abs e.mountpoint ≡ e.mountpoint)

erase-IsFiled :
    (abs : Text → Text) (reg : Registry) (name : Text)
    → IsFiled abs reg
    → IsFiled abs (erase name reg)
erase-IsFiled abs reg name f = record {
  distinct = keep-IsMap _ reg f.distinct;
  filed = λ k e found. elim (Bool-cases (text_eq k name)) [
    | inl same ↦
        let gone : none ≡ some e =
          sym (lookup-erase name k reg f.distinct ∙ rw same refl) ∙ found in
        absurd (some_ne_none (sym gone))
    | inr other ↦ f.filed k e (sym (lookup-erase name k reg f.distinct ∙ rw other refl) ∙ found)
  ];
}

register-IsFiled :
    (reread : MountEntry → MountEntry) (abs : Text → Text) (written : Bool) (e : MountEntry)
    (reg : Registry)
    → reread e ≡ e
    → abs e.mountpoint ≡ e.mountpoint
    → IsFiled abs reg
    → IsFiled abs (register reread abs written e reg)
unfolding register
register-IsFiled reread abs false e reg same_record at f = f
register-IsFiled reread abs true e reg same_record at f = record {
  distinct = store-IsMap _ (reread e) reg f.distinct;
  filed = λ k e' found. elim (Bool-cases (text_eq k (registry_file (abs e.mountpoint)))) [
    | inl same ↦
        let here : some (reread e) ≡ some e' =
          sym (lookup-store _ k (reread e) reg f.distinct ∙ rw same refl) ∙ found in
        let is : e ≡ e' = sym same_record ∙ some_inj here in
        subst (λ x. (k ≡ registry_file x.mountpoint) × (abs x.mountpoint ≡ x.mountpoint)) is
          (eq_of_text_eq k _ same ∙ ap registry_file at, at)
    | inr other ↦
        f.filed k e' (sym (lookup-store _ k (reread e) reg f.distinct ∙ rw other refl) ∙ found)
  ];
}

-- The record of the file of `mp` is the only one with that mountpoint.
module _ (abs : Text → Text) (dial : Text → Bool) (mp : Text) where
  other_mountpoint :
      (reg : Registry) (name : Text) (e : MountEntry)
      → IsFiled abs reg
      → lookup name reg ≡ some e
      → text_eq name (registry_file mp) ≡ false
      → text_eq e.mountpoint mp ≡ false
  other_mountpoint reg name e f found other = elim (Bool-cases (text_eq e.mountpoint mp)) [
    | inr differs ↦ differs
    | inl same ↦
        let (at, _) = f.filed name e found in
        let is : text_eq name (registry_file mp) ≡ true =
          ap (λ n. text_eq n (registry_file mp))
            (at ∙ ap registry_file (eq_of_text_eq e.mountpoint mp same))
          ∙ text_eq_refl (registry_file mp) in
        let clash : true ≡ false = sym is ∙ other in cc
  ]

  find_exact-head :
      (e : MountEntry) (es : List MountEntry) → e.mountpoint ≡ mp → find_exact mp (e ∷ es) ≡ some e
  unfolding find_exact
  find_exact-head e es at =
      let same : text_eq e.mountpoint mp ≡ true = ap (λ t. text_eq t mp) at ∙ text_eq_refl mp in
      rw same refl

  find_exact-skip :
      (e : MountEntry) (es : List MountEntry)
      → text_eq e.mountpoint mp ≡ false
      → find_exact mp (e ∷ es) ≡ find_exact mp es
  unfolding find_exact
  find_exact-skip e es h = rw h refl

  find_exact-list_mounts :
      (names : List Text) (reg : Registry) (e : MountEntry)
      → any_eq (registry_file mp) names ≡ true
      → IsFiled abs reg
      → lookup (registry_file mp) reg ≡ some e
      → e.mountpoint ≡ mp
      → answers dial e.socket ≡ true
      → find_exact mp (list_mounts dial names reg).0 ≡ some e
  unfolding list_mounts any_eq
  find_exact-list_mounts [] reg e h f row at live = let clash : false ≡ true = h in cc
  find_exact-list_mounts (n ∷ names) reg e h f row at live =
      elim (Bool-cases (text_eq (registry_file mp) n)) [
        | inl same ↦
            let here : lookup n reg ≡ some e =
              sym (ap (λ k. lookup k reg) (eq_of_text_eq (registry_file mp) n same)) ∙ row in
            rw (here, list_mounts, live) (find_exact-head e _ at)
        | inr other ↦
            let listed : any_eq (registry_file mp) names ≡ true = rw other at h in
            elim (Option-cases (lookup n reg)) [
              | inl nothing ↦
                  rw (nothing, list_mounts)
                    (find_exact-list_mounts names reg e listed f row at live)
              | inr (e', found) ↦
                  let different =
                    other_mountpoint reg n e' f found (text_eq_sym n (registry_file mp) ∙ other) in
                  elim (Bool-cases (answers dial e'.socket)) [
                    | inl alive ↦
                        rw (found, list_mounts, alive)
                          (find_exact-skip e' _ different
                            ∙ find_exact-list_mounts names reg e listed f row at live)
                    | inr dead ↦
                        rw (found, list_mounts, dead)
                          (find_exact-list_mounts names (erase n reg) e listed
                            (erase-IsFiled abs reg n f)
                            (lookup-erase n (registry_file mp) reg f.distinct ∙ rw other row) at
                            live)
                  ]
            ]
      ]

find_in-exact :
    (abs : Text → Text) (path : Text) (entries : List MountEntry) (e : MountEntry)
    → is_empty path ≡ false
    → find_exact (abs path) entries ≡ some e
    → find_in abs path entries ≡ some e
unfolding find_in
find_in-exact abs path entries e named found = simp (named, found)

registered :
    (reread : MountEntry → MountEntry) (abs : Text → Text) (e : MountEntry) (reg : Registry)
    → reread e ≡ e
    → abs e.mountpoint ≡ e.mountpoint
    → IsFiled abs reg
    → lookup (registry_file e.mountpoint) (register reread abs true e reg) ≡ some e
unfolding register
registered reread abs e reg same_record at f =
    lookup-store (registry_file (abs e.mountpoint)) (registry_file e.mountpoint) (reread e) reg
      f.distinct
    ∙ rw (at, text_eq_refl (registry_file e.mountpoint)) (ap some same_record)

-- A record that JSON can hold: its texts are valid UTF-8.
pub record IsWritable (e : MountEntry) : Type 0 where
  pub mountpoint : is_utf8 e.mountpoint ≡ true
  pub bucket : is_utf8 e.bucket ≡ true
  pub prefix : is_utf8 e.prefix ≡ true
  pub cache_dir : is_utf8 e.cache_dir ≡ true
  pub socket : is_utf8 e.socket ≡ true

-- After `Register` of a mount with an absolute path whose socket answers, `Find` of its mountpoint
-- gives its record, in any order of the directory that has its file, if the texts of the record are
-- valid UTF-8 and every other record is in the file of its mountpoint, an absolute path. It is relied
-- on that the JSON library reads such a record as it was written.
pub find-register :
    (reread : MountEntry → MountEntry) (abs : Text → Text) (dial : Text → Bool) (names : List Text)
    (e : MountEntry) (reg : Registry)
    → ((r : MountEntry) → IsWritable r → reread r ≡ r)
    → IsWritable e
    → IsFiled abs reg
    → abs e.mountpoint ≡ e.mountpoint
    → is_empty e.mountpoint ≡ false
    → answers dial e.socket ≡ true
    → any_eq (registry_file e.mountpoint) names ≡ true
    → (find abs dial names e.mountpoint (register reread abs true e reg)).0 ≡ some e
unfolding find
find-register reread abs dial names e reg json fine f at named live listed =
    let reg' = register reread abs true e reg in
    let same_record = json e fine in
    let row : lookup (registry_file e.mountpoint) reg' ≡ some e =
      registered reread abs e reg same_record at f in
    let exact =
      find_exact-list_mounts abs dial e.mountpoint names reg' e listed
        (register-IsFiled reread abs true e reg same_record at f) row refl live in
    find_in-exact abs e.mountpoint (list_mounts dial names reg').0 e named
      (ap (λ t. find_exact t (list_mounts dial names reg').0) at ∙ exact)
