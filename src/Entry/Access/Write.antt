-- ===== src/Entry/Access/Write.antt =====
-- `WriteAt` against the file that the entry stands for.
use native.Mathlib.Nat.{div-add-mod', mul-le-mul_right}
use remote_s3_bucket_plugin.OsFile
use remote_s3_bucket_plugin.OsFile.{byte_at, byte_at-write_at}
use remote_s3_bucket_plugin.Bitmap.{set_range}
use remote_s3_bucket_plugin.Bitmap.Access.{has}
use remote_s3_bucket_plugin.Bitmap.Range.{set_range_lem}
use remote_s3_bucket_plugin.Entry.{
  charge, touch, Error, Options, Counters, Entry, Outcome, done, failed, M, resume,
}
use remote_s3_bucket_plugin.Entry.View.{
  view, IsValid, Serves, Kept, Kept-refl, in_block_lo, in_block_hi, block_start, block_stop,
}
use remote_s3_bucket_plugin.Entry.Ensure.Faults.{ensure_lem, Serves-Kept, obj_size-Kept, ne_zero}
use remote_s3_bucket_plugin.Entry.Access.{Wrote, write_at, finish_write, ensure_edge}
use remote_s3_bucket_plugin.Prelude.{
  ℕ, ◌+◌, ◌-◌, ◌*◌, ◌/◌, ◌%◌, ◌≤◌, ◌<◌, min, max, ◌≡◌, refl, ap, ◌∙◌, ◌⊎◌, inl, inr, true, ◌&&◌,
  Option, List, [], ◌∷◌, arith, ltb, leb, ◌==◌, if◌then◌else◌, Bool-cases, ℕ-cases, length, get_or,
  take, pos,
}

-- The file `now` is the file `was` with `xs` written at `off`.
abbrev pub Overwritten : List ℕ → ℕ → (ℕ → ℕ) → (ℕ → ℕ) → Type 0
Overwritten xs off was now =
    (p : ℕ)
    → now p ≡ (if leb off p && ltb p (off + length xs) then get_or xs (p - off) 0 else was p)

-- Around a write of `n` bytes at `off`, what lies in its first and last blocks is present.
abbrev Edges : ℕ → ℕ → ℕ → Entry → Type 0
Edges bs off n e =
    (p : ℕ)
    → p < e.obj_size
    → off / bs ≤ p / bs
    → p / bs ≤ (off + n - 1) / bs
    → (p < off) ⊎ (off + n ≤ p)
    → has e.blocks (p / bs) ≡ true

-- The state in which `WriteAt` leaves the entry once `n > 0` bytes `xs` are in the file.
stored : ℕ → List ℕ → ℕ → Entry → Entry
stored bs xs off e = record e {
  file = OsFile.write_at e.file xs off;
  blocks = (set_range e.blocks (pos (off / bs)) (pos ((off + length xs - 1) / bs))).0;
  size = if ltb e.size (off + length xs) then off + length xs else e.size;
}

module _ (bs : ℕ) (remote : ℕ → ℕ) (xs : List ℕ) (off : ℕ) (e : Entry) (v : IsValid bs e)
    (some_bytes : 0 < length xs) where
  stored-IsValid : IsValid bs (stored bs xs off e)
  unfolding stored OsFile.write_at
  stored-IsValid = record {
    positive = v.positive;
    blocks = (set_range_lem e.blocks _ _ v.blocks).0;
    file_length = ground (arith, v.file_length);
    object_fits = ground (arith, v.object_fits);
  }

  -- Outside the written bytes.
  stored_outside :
      (p : ℕ)
      → (p < off) ⊎ (off + length xs ≤ p)
      → (p < e.obj_size
          → off / bs ≤ p / bs
          → p / bs ≤ (off + length xs - 1) / bs
          → has e.blocks (p / bs) ≡ true)
      → view bs remote (stored bs xs off e) p ≡ view bs remote e p
  unfolding stored view
  stored_outside p out edge = ground (
    arith,
    (set_range_lem e.blocks (off / bs) ((off + length xs - 1) / bs) v.blocks).1 (p / bs),
    byte_at-write_at e.file xs off p,
    edge,
  )

  stored_inside :
      (p : ℕ)
      → off ≤ p
      → p < off + length xs
      → view bs remote (stored bs xs off e) p ≡ get_or xs (p - off) 0
  unfolding stored view
  stored_inside p lo hi =
      let last = (off + length xs - 1) / bs in
      ground (
        arith,
        (set_range_lem e.blocks (off / bs) last v.blocks).1 (p / bs),
        byte_at-write_at e.file xs off p,
        in_block_lo bs (off / bs) p v.positive (omega (arith, block_start bs off)),
        in_block_hi bs last p v.positive
            (omega (arith, block_stop bs (off + length xs - 1) v.positive)),
      )

  stored-Overwritten :
      Edges bs off (length xs) e
      → Overwritten xs off (view bs remote e) (view bs remote (stored bs xs off e))
  stored-Overwritten edges p = elim (ℕ-cases p off) [
    | inl before ↦
        ground (arith, stored_outside p (inl before) (λ h lo hi. edges p h lo hi (inl before)))
    | inr from ↦ elim (ℕ-cases p (off + length xs)) [
      | inl inside ↦ ground (arith, stored_inside p from inside)
      | inr after ↦
          ground (arith, stored_outside p (inr after) (λ h lo hi. edges p h lo hi (inr after)))
    ]
  ]

take_all : (xs : List ℕ) → take (length xs) xs ≡ xs
take_all [] = refl
take_all (x ∷ xs) = ap (◌∷◌ x) (take_all xs)

-- What a successful edge fault gives, and keeps through a second one.
edges_present :
    (o : Options) (remote : ℕ → ℕ) (p : ℕ) (e : Entry) (c : Counters)
    → IsValid o.block_size e
    → Serves o e.key remote
    → Kept o.block_size remote e (ensure_edge o p e c).1
      × ((ensure_edge o p e c).0 ≡ done tt
          → (q : ℕ) → q < e.obj_size
          → q / o.block_size ≡ p / o.block_size
          → (p % o.block_size ≡ 0) ⊎ (has (ensure_edge o p e c).1.blocks (q / o.block_size) ≡ true))
unfolding ensure_edge
edges_present o remote p e c v s = elim (Bool-cases (p % o.block_size == 0)) [
  | inl aligned ↦ rw aligned (Kept-refl v, λ _ q inside same. inl (ground (arith, aligned)))
  | inr partial ↦
      let bs = o.block_size in
      let (kept, ok) = ensure_lem o remote (p / bs * bs) bs e c v s in
      rw partial (
        kept,
        λ h q inside same. inr (
            ok h q (omega (arith, block_start bs q, ap (λ b. b * bs) same))
              (omega (arith, block_stop bs q v.positive, ap (λ b. b * bs) same)) inside),
      )
]

div_mono : (bs p q : ℕ) → 0 < bs → p ≤ q → p / bs ≤ q / bs
div_mono bs p q h le = in_block_lo bs (p / bs) q h (omega (arith, block_start bs p))

aligned_start : (bs p : ℕ) → p % bs ≡ 0 → p / bs * bs ≡ p
aligned_start bs p h = omega (arith, div-add-mod' p bs)

-- The two edge blocks are all that a write leaves partly unwritten.
Edges-both :
    (bs off n : ℕ) (e : Entry)
    → 0 < bs
    → 0 < n
    → ((q : ℕ)
        → q < e.obj_size
        → q / bs ≡ off / bs
        → (off % bs ≡ 0) ⊎ (has e.blocks (q / bs) ≡ true))
    → ((q : ℕ)
        → q < e.obj_size
        → q / bs ≡ (off + n) / bs
        → ((off + n) % bs ≡ 0) ⊎ (has e.blocks (q / bs) ≡ true))
    → Edges bs off n e
Edges-both bs off n e h some_bytes left right p inside lo hi (inl before) =
    let same : p / bs ≡ off / bs = omega (arith, div_mono bs p off h (omega arith)) in
    elim (left p inside same) [
      | inr there ↦ there
      | inl aligned ↦
          absurd
            (omega (arith, aligned_start bs off aligned, block_start bs p, ap (λ b. b * bs) same))
    ]
Edges-both bs off n e h some_bytes left right p inside lo hi (inr after) =
    let up = div_mono bs (off + n) p h after in
    let down = div_mono bs (off + n - 1) (off + n) h (omega arith) in
    let same : p / bs ≡ (off + n) / bs = omega arith in
    elim (right p inside same) [
      | inr there ↦ there
      | inl aligned ↦ absurd (
          omega (
            arith,
            aligned_start bs (off + n) aligned,
            block_stop bs (off + n - 1) h,
            ap (λ b. b * bs) same,
            mul-le-mul_right bs hi,
          ))
    ]

-- An error leaves the file as it was. A success has written all of `xs`, and the file is the old one
-- with `xs` at `off`, as long as that takes it.
pub record IsWritten (bs : ℕ) (remote : ℕ → ℕ) (xs : List ℕ) (off : ℕ) (e : Entry)
    (r : Outcome (ℕ × Option Error) × Entry × Counters) : Type 0 where
  pub valid : IsValid bs r.1
  pub unwritten :
      (err : Error)
      → r.0 ≡ failed err
      → (r.1.size ≡ e.size) × ((p : ℕ) → view bs remote r.1 p ≡ view bs remote e p)
  pub written :
      (n : ℕ) (err : Option Error)
      → r.0 ≡ done (n, err)
      → (n ≡ length xs)
        × (r.1.size ≡ max e.size (off + length xs))
        × (r.1.dirty ≡ true)
        × Overwritten xs off (view bs remote e) (view bs remote r.1)

module _ (o : Options) (remote : ℕ → ℕ) (xs : List ℕ) (off : ℕ) where
  resume-IsWritten :
      (r : Outcome (Unit {0})) (e e' : Entry) (c' : Counters) (k : M (ℕ × Option Error))
      → Kept o.block_size remote e e'
      → (r ≡ done tt → IsWritten o.block_size remote xs off e' (k e' c'))
      → IsWritten o.block_size remote xs off e (resume (λ _. k) r e' c')
  resume-IsWritten (failed err) e e' c' k kept next = record {
    valid = kept.valid;
    unwritten = λ _ _. (ap (λ (x : Entry). x.size) kept.same_rest, kept.same_view);
    written = λ n err h. cc;
  }
  resume-IsWritten (done tt) e e' c' k kept next =
      let w = next refl in
      let size = ap (λ (x : Entry). x.size) kept.same_rest in
      record {
        valid = w.valid;
        unwritten = λ err h.
            ((w.unwritten err h).0 ∙ size, λ p. (w.unwritten err h).1 p ∙ kept.same_view p);
        written = λ n err h.
            let (all, grown, dirty, bytes) = w.written n err h in
            (all, omega (arith, grown, size), dirty, λ p. bytes p ∙ rw (kept.same_view p));
      }

  finish_write-stored :
      (io : Wrote) (now : ℕ) (e : Entry) (c : Counters)
      → 0 < length xs
      → length xs ≤ io.wrote
      → finish_write o io now xs off e c ≡ (
        done (length xs, io.error),
        touch now (stored o.block_size xs off e),
        charge o e (stored o.block_size xs off e) c,
      )
  unfolding finish_write stored
  finish_write-stored io now e c some_bytes whole =
      let n : min io.wrote (length xs) ≡ length xs = omega arith in
      rw (n, take_all xs, ne_zero (length xs) some_bytes) refl

  finish_write-IsWritten :
      (io : Wrote) (now : ℕ) (e : Entry) (c : Counters)
      → IsValid o.block_size e
      → 0 < length xs
      → length xs ≤ io.wrote
      → Edges o.block_size off (length xs) e
      → IsWritten o.block_size remote xs off e (finish_write o io now xs off e c)
  unfolding stored view
  finish_write-IsWritten io now e c v some_bytes whole edges =
      let valid = stored-IsValid o.block_size remote xs off e v some_bytes in
      rw (finish_write-stored io now e c some_bytes whole) (record {
        valid = record {
          positive = valid.positive;
          blocks = valid.blocks;
          file_length = valid.file_length;
          object_fits = valid.object_fits;
        };
        unwritten = λ err h. cc;
        written = λ n err h. (
          cc,
          ground arith,
          refl,
          stored-Overwritten o.block_size remote xs off e v some_bytes edges,
        );
      })

-- `WriteAt` is faithful when the operating system writes what it is given: an error from a GET
-- leaves the file as it was, and a success leaves the old file with `xs` at `off`.
pub write_at-IsWritten :
    (o : Options) (remote : ℕ → ℕ) (io : Wrote) (now : ℕ) (xs : List ℕ) (off : ℕ) (e : Entry)
    (c : Counters)
    → IsValid o.block_size e
    → Serves o e.key remote
    → 0 < length xs
    → length xs ≤ io.wrote
    → IsWritten o.block_size remote xs off e (write_at o io now xs off e c)
unfolding write_at
write_at-IsWritten o remote io now xs off e c v s some_bytes whole =
    rw (ne_zero (length xs) some_bytes) (
      let (kept, left) = edges_present o remote off e c v s in
      let r = ensure_edge o off e c in
      let s' = Serves-Kept kept s in
      let (kept', right) = edges_present o remote (off + length xs) r.1 r.2 kept.valid s' in
      let r' = ensure_edge o (off + length xs) r.1 r.2 in
      resume-IsWritten o remote xs off r.0 e r.1 r.2 _ kept λ ok.
        resume-IsWritten o remote xs off r'.0 r.1 r'.1 r'.2 _ kept' λ ok'.
          finish_write-IsWritten o remote xs off io now r'.1 r'.2 kept'.valid some_bytes whole (
            Edges-both o.block_size off (length xs) r'.1 v.positive some_bytes
              (λ q inside same.
                elim (left ok q (omega (arith, obj_size-Kept kept, obj_size-Kept kept')) same) [
                  | inl aligned ↦ inl aligned
                  | inr there ↦ inr (kept'.still (q / o.block_size) there)
                ])
              (λ q inside. right ok' q (omega (arith, obj_size-Kept kept')))))
