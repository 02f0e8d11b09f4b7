-- ===== src/Attrs/Sticky.antt =====
-- What the attribute cache never forgets by itself.
use remote_s3_bucket_plugin.Table.{Text, text_eq, lookup, keep, erase, store}
use remote_s3_bucket_plugin.Table.Laws.{
  text_eq_refl, eq_of_text_eq, IsMap, screened, lookup-keep, lookup-erase, lookup-store, keep-IsMap,
}
use remote_s3_bucket_plugin.Attrs.{Attr, Known, AttrCache, get, drop_loop, evict, set, refresh}
use remote_s3_bucket_plugin.Prelude.{
  ℕ, ◌+◌, ◌-◌, ◌/◌, ◌≡◌, refl, sym, ap, ◌∙◌, inl, inr, Bool, true, false, not, ◌&&◌, ◌||◌, Option,
  none, some, List, [], ◌∷◌, arith, ltb, leb, ◌==◌, if◌then◌else◌, Bool-cases, Option-cases, length,
}

-- An entry that a filter keeps is found after it.
keep-some :
    (f : Text → Known → Bool) (k : Text) (e : Known) (t : List (Text × Known))
    → IsMap t
    → lookup k t ≡ some e
    → f k e ≡ true
    → lookup k (keep f t) ≡ some e
keep-some f k e t d h yes_f = lookup-keep f k t d ∙ ap (screened f k) h ∙ rw yes_f refl

some_inj : {a b : Known} → some a ≡ some b → a ≡ b
some_inj h = cc

-- Another path than `p`.
erase-sticky :
    (p k : Text) (e v : Known) (t : List (Text × Known))
    → IsMap t
    → lookup k t ≡ some e
    → e.sticky ≡ true
    → lookup p t ≡ some v
    → v.sticky ≡ false
    → lookup k (erase p t) ≡ some e
erase-sticky p k e v t d h sticky h' loose = elim (Bool-cases (text_eq k p)) [
  | inr other ↦ lookup-erase p k t d ∙ rw other h
  | inl same ↦
      let eq = eq_of_text_eq k p same in
      let one : e ≡ v = some_inj (sym h ∙ ap (λ x. lookup x t) eq ∙ h') in
      let clash : true ≡ false = sym sticky ∙ ap (λ (x : Known). x.sticky) one ∙ loose in cc
]

drop_loop-sticky :
    (n : ℕ) (order : List Text) (t : List (Text × Known)) (k : Text) (e : Known)
    → IsMap t
    → lookup k t ≡ some e
    → e.sticky ≡ true
    → IsMap (drop_loop n order t) × (lookup k (drop_loop n order t) ≡ some e)
unfolding drop_loop
drop_loop-sticky n [] t k e d h sticky = (d, h)
drop_loop-sticky n (p ∷ ps) t k e d h sticky = elim (Bool-cases (n == 0)) [
  | inl spent ↦ rw spent (d, h)
  | inr more ↦ elim (Option-cases (lookup p t)) [
    | inl gone ↦ rw (more, gone) (drop_loop-sticky n ps t k e d h sticky)
    | inr (v, here) ↦ elim (Bool-cases v.sticky) [
      | inl stays ↦ rw (more, here, stays) (drop_loop-sticky n ps t k e d h sticky)
      | inr loose ↦
          rw (more, here, loose)
            (drop_loop-sticky (n - 1) ps (erase p t) k e (keep-IsMap (λ k v. not (text_eq k p)) t d)
              (erase-sticky p k e v t d h sticky here loose) sticky)
    ]
  ]
]

abbrev swept : ℕ → AttrCache → List (Text × Known)
swept now c = if c.exclusive then c.m else keep (λ k e. not (not e.sticky && ltb e.expires now)) c.m

swept-sticky :
    (now : ℕ) (c : AttrCache) (k : Text) (e : Known)
    → IsMap c.m
    → lookup k c.m ≡ some e
    → e.sticky ≡ true
    → IsMap (swept now c) × (lookup k (swept now c) ≡ some e)
swept-sticky now c k e d h sticky = elim (Bool-cases c.exclusive) [
  | inl alone ↦ simp alone (d, h)
  | inr shared ↦
      let f : Text → Known → Bool = λ k e. not (not e.sticky && ltb e.expires now) in
      simp shared (keep-IsMap f c.m d, keep-some f k e c.m d h (rw sticky refl))
]

evict-sticky :
    (now : ℕ) (order : List Text) (c : AttrCache) (k : Text) (e : Known)
    → IsMap c.m
    → lookup k c.m ≡ some e
    → e.sticky ≡ true
    → IsMap (evict now order c).m × (lookup k (evict now order c).m ≡ some e)
unfolding evict
evict-sticky now order c k e d h sticky =
    let (d', h') = swept-sticky now c k e d h sticky in
    let t = swept now c in
    elim (Bool-cases (leb (length t) c.max_size)) [
      | inl small ↦ rw small (d', h')
      | inr big ↦ rw big (drop_loop-sticky (length t - c.max_size / 2) order t k e d' h' sticky)
    ]

set-sticky :
    (now : ℕ) (order : List Text) (p : Text) (a : Option Attr) (negative sticky : Bool)
    (c : AttrCache) (k : Text) (e : Known)
    → IsMap c.m
    → lookup k c.m ≡ some e
    → e.sticky ≡ true
    → text_eq k p ≡ false
    → lookup k (set now order p a negative sticky c).m ≡ some e
unfolding set
set-sticky now order p a negative sticky c k e d h stays other =
    elim (Bool-cases (ltb c.max_size (length c.m))) [
      | inl full ↦
          let (d', h') = evict-sticky now order c k e d h stays in
          rw full (lookup-store p k _ (evict now order c).m d' ∙ rw other h')
      | inr room ↦ rw room (lookup-store p k _ c.m d ∙ rw other h)
    ]

get-other :
    (now : ℕ) (p k : Text) (e : Known) (c : AttrCache)
    → IsMap c.m
    → lookup k c.m ≡ some e
    → text_eq k p ≡ false
    → lookup k (get now p c).1.m ≡ some e
unfolding get
get-other now p k e c d h other = elim (Option-cases (lookup p c.m)) [
  | inl gone ↦ rw (gone, get) h
  | inr (v, here) ↦ elim (Bool-cases (not v.sticky && not c.exclusive && ltb v.expires now)) [
    | inl old ↦ rw (here, get, old) (lookup-erase p k c.m d ∙ rw other h)
    | inr valid ↦ rw (here, get, valid) h
  ]
]

get-sticky :
    (now : ℕ) (k : Text) (e : Known) (c : AttrCache)
    → lookup k c.m ≡ some e
    → e.sticky ≡ true
    → (get now k c).0 ≡ some (e.attr, e.negative)
unfolding get
get-sticky now k e c h stays = rw (h, get) (simp stays refl)

-- A sticky entry survives whatever the cache does by itself: an eviction, a `set` of another path,
-- which may evict, a `get`, which may drop what has expired, and `refresh`. A `get` finds it at any
-- time.
pub sticky_lem :
    (now : ℕ) (order : List Text) (p : Text) (a : Option Attr) (negative sticky : Bool)
    (c : AttrCache) (k : Text) (e : Known)
    → IsMap c.m
    → lookup k c.m ≡ some e
    → e.sticky ≡ true
    → text_eq k p ≡ false
    → (lookup k (evict now order c).m ≡ some e)
      × (lookup k (set now order p a negative sticky c).m ≡ some e)
      × (lookup k (get now p c).1.m ≡ some e)
      × (lookup k (refresh c).m ≡ some e)
      × ((get now k c).0 ≡ some (e.attr, e.negative))
unfolding set get refresh
sticky_lem now order p a negative sticky c k e d h stays other = (
  (evict-sticky now order c k e d h stays).1,
  set-sticky now order p a negative sticky c k e d h stays other,
  get-other now p k e c d h other,
  keep-some (λ k v. v.sticky) k e c.m d h stays,
  get-sticky now k e c h stays,
)

-- Forgetting what was learned from the bucket leaves nothing but sticky entries, as they were.
pub refresh_lem :
    (c : AttrCache) (k : Text)
    → IsMap c.m
    → lookup k (refresh c).m ≡ screened (λ k e. e.sticky) k (lookup k c.m)
unfolding refresh
refresh_lem c k d = lookup-keep (λ k e. e.sticky) k c.m d

drop_loop-IsMap :
    (n : ℕ) (order : List Text) (t : List (Text × Known)) → IsMap t → IsMap (drop_loop n order t)
unfolding drop_loop
drop_loop-IsMap n [] t d = d
drop_loop-IsMap n (p ∷ ps) t d = elim (Bool-cases (n == 0)) [
  | inl spent ↦ rw spent d
  | inr more ↦ elim (Option-cases (lookup p t)) [
    | inl gone ↦ rw (more, gone) (drop_loop-IsMap n ps t d)
    | inr (v, here) ↦ elim (Bool-cases v.sticky) [
      | inl stays ↦ rw (more, here, stays) (drop_loop-IsMap n ps t d)
      | inr loose ↦
          rw (more, here, loose)
            (drop_loop-IsMap (n - 1) ps (erase p t) (keep-IsMap (λ k v. not (text_eq k p)) t d))
    ]
  ]
]

settled : (now : ℕ) (order : List Text) (c : AttrCache) → IsMap c.m → IsMap (evict now order c).m
unfolding evict
settled now order c d =
    let f : Text → Known → Bool = λ k e. not (not e.sticky && ltb e.expires now) in
    let d' : IsMap (swept now c) = elim (Bool-cases c.exclusive) [
      | inl alone ↦ simp alone d
      | inr shared ↦ simp shared (keep-IsMap f c.m d)
    ] in
    elim (Bool-cases (leb (length (swept now c)) c.max_size)) [
      | inl small ↦ rw small d'
      | inr big ↦
          rw big (drop_loop-IsMap (length (swept now c) - c.max_size / 2) order (swept now c) d')
    ]

-- What a `get` finds in the entry `e`.
fresh_value :
    (later : ℕ) (p : Text) (e : Known) (t : List (Text × Known)) (c : AttrCache)
    → IsMap t
    → (get later p (record c { m = store p e t })).0
      ≡ (if e.sticky || c.exclusive || leb later e.expires then some (e.attr, e.negative) else none)
unfolding get
fresh_value later p e t c d =
    let found : lookup p (store p e t) ≡ some e =
      rw (lookup-store p p e t d, text_eq_refl p) refl in
    rw (found, get)
      (elim (Bool-cases (not e.sticky && not c.exclusive && ltb e.expires later)) [
        | inl old ↦
            let gone : (e.sticky || c.exclusive || leb later e.expires) ≡ false = ground arith in
            rw (old, gone) refl
        | inr valid ↦
            let there : (e.sticky || c.exclusive || leb later e.expires) ≡ true = ground arith in
            rw (valid, there) refl
      ])

-- What was set for a path is what `get` answers, for a sticky entry and in exclusive mode at any
-- time, otherwise until its time to live is over, which for an absent path is its own one;
-- after that the path is unknown.
get-set :
    (now : ℕ) (order : List Text) (p : Text) (a : Option Attr) (negative sticky : Bool)
    (c : AttrCache) (later : ℕ)
    → IsMap c.m
    → (get later p (set now order p a negative sticky c)).0 ≡ (
        if sticky || c.exclusive || leb later (now + (if negative then c.neg_ttl else c.ttl))
        then some (a, negative)
        else none)
unfolding set
get-set now order p a negative sticky c later d = elim (Bool-cases (ltb c.max_size (length c.m))) [
  | inl full ↦ rw full (fresh_value later p _ (evict now order c).m c (settled now order c d))
  | inr room ↦ rw room (fresh_value later p _ c.m c d)
]
