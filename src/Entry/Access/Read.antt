-- ===== src/Entry/Access/Read.antt =====
-- `ReadAt` against the file that the entry stands for.
use remote_s3_bucket_plugin.OsFile
use remote_s3_bucket_plugin.OsFile.{byte_at, slice, get_or-slice, length-slice}
use remote_s3_bucket_plugin.Bitmap.Access.{has}
use remote_s3_bucket_plugin.Entry.{
  Error, eof, Options, Counters, Entry, Outcome, done, failed, resume,
}
use remote_s3_bucket_plugin.Entry.View.{view, IsValid, Serves, Kept, Kept-refl}
use remote_s3_bucket_plugin.Entry.Ensure.{ensure}
use remote_s3_bucket_plugin.Entry.Ensure.Faults.{ensure_lem, ne_zero}
use remote_s3_bucket_plugin.Entry.Access.{read_at, finish_read}
use remote_s3_bucket_plugin.Prelude.{
  ℕ, ◌+◌, ◌-◌, ◌/◌, ◌≤◌, ◌<◌, min, ◌≡◌, refl, sym, ap, ◌∙◌, inl, inr, true, Option, none, some,
  List, [], arith, ltb, if◌then◌else◌, le→leb, lt→leb_false, ℕ-cases, length, get_or,
}

-- A successful read of `n` bytes from `off` on returns the bytes that the file has there, and the
-- entry stands for the same file.
pub record IsRead (bs : ℕ) (remote : ℕ → ℕ) (off n : ℕ) (e : Entry)
    (r : Outcome (List ℕ) × Entry × Counters) : Type 0 where
  pub valid : IsValid bs r.1
  pub same_size : r.1.size ≡ e.size
  pub same_view : (p : ℕ) → view bs remote r.1 p ≡ view bs remote e p
  pub read :
      (got : List ℕ)
      → r.0 ≡ done got
      → (length got ≡ min n (e.size - off))
        × ((k : ℕ) → k < length got → get_or got k 0 ≡ view bs remote e (off + k))

-- What is present is read from the local file.
view_local :
    (bs : ℕ) (remote : ℕ → ℕ) (e : Entry) (p : ℕ)
    → (p < e.obj_size → has e.blocks (p / bs) ≡ true)
    → view bs remote e p ≡ byte_at e.file p
unfolding view
view_local bs remote e p h = ground (arith, h)

module _ (bs : ℕ) (remote : ℕ → ℕ) (off n : ℕ) (e e' : Entry) (c' : Counters)
    (kept : Kept bs remote e e') (inside : off < e.size) (short : n ≤ e.size - off)
    (here : (p : ℕ) → off ≤ p → p < off + n → p < e.obj_size → has e'.blocks (p / bs) ≡ true) where
  finish_read-IsRead : (io : Option Error) → IsRead bs remote off n e (finish_read io off n e' c')
  unfolding finish_read view OsFile.read_at slice
  finish_read-IsRead (some err) = record {
    valid = record {
      positive = kept.valid.positive;
      blocks = kept.valid.blocks;
      file_length = kept.valid.file_length;
      object_fits = kept.valid.object_fits;
    };
    same_size = ap (λ (x : Entry). x.size) kept.same_rest;
    same_view = kept.same_view;
    read = λ got h. cc;
  }
  finish_read-IsRead none = record {
    valid = record {
      positive = kept.valid.positive;
      blocks = kept.valid.blocks;
      file_length = kept.valid.file_length;
      object_fits = kept.valid.object_fits;
    };
    same_size = same_size;
    same_view = kept.same_view;
    read = λ got h. rw (is_local got h) (size, bytes);
  }
    where
      same_size : e'.size ≡ e.size
      same_size = ap (λ (x : Entry). x.size) kept.same_rest

      local : List ℕ
      local = OsFile.read_at e'.file off n

      size : length local ≡ min n (e.size - off)
      size = length-slice _ e'.file off ∙ omega (arith, kept.valid.file_length, same_size)

      is_local : (got : List ℕ) → (finish_read none off n e' c').0 ≡ done got → got ≡ local
      is_local got h = ground arith

      bytes : (k : ℕ) → k < length local → get_or local k 0 ≡ view bs remote e (off + k)
      bytes k h =
          get_or-slice _ e'.file off k
            (omega (arith, length-slice (min n (e'.file.len - off)) e'.file off))
          ∙ sym (
              view_local bs remote e' (off + k) (λ room.
                here (off + k) (omega arith) (omega (arith, size))
                  (omega (arith, ap (λ (x : Entry). x.obj_size) kept.same_rest))))
          ∙ kept.same_view (off + k)

IsRead-error :
    (bs : ℕ) (remote : ℕ → ℕ) (off n : ℕ) (e e' : Entry) (c' : Counters) (err : Error)
    → Kept bs remote e e'
    → IsRead bs remote off n e (failed err, e', c')
IsRead-error bs remote off n e e' c' err kept = record {
  valid = kept.valid;
  same_size = ap (λ (x : Entry). x.size) kept.same_rest;
  same_view = kept.same_view;
  read = λ got h. cc;
}

-- The last step, after `ensure` answered `r`.
resume-IsRead :
    (bs : ℕ) (remote : ℕ → ℕ) (io : Option Error) (off n : ℕ) (e e' : Entry) (c' : Counters)
    (r : Outcome (Unit {0}))
    → Kept bs remote e e'
    → off < e.size
    → n ≤ e.size - off
    → (r ≡ done tt
        → (p : ℕ) → off ≤ p
        → p < off + n
        → p < e.obj_size
        → has e'.blocks (p / bs) ≡ true)
    → IsRead bs remote off n e (resume (λ _. finish_read io off n) r e' c')
resume-IsRead bs remote io off n e e' c' (failed err) kept inside short here =
    IsRead-error bs remote off n e e' c' err kept
resume-IsRead bs remote io off n e e' c' (done tt) kept inside short here =
    finish_read-IsRead bs remote off n e e' c' kept inside short (here refl) io

-- A read past the end is one of what is left, and the time of the last use is not part of the file.
IsRead-cut :
    (bs : ℕ) (remote : ℕ → ℕ) (off n n' now : ℕ) (e : Entry)
    (r : Outcome (List ℕ) × Entry × Counters)
    → min n' (e.size - off) ≡ min n (e.size - off)
    → IsRead bs remote off n' (record e { used = now }) r
    → IsRead bs remote off n e r
unfolding view
IsRead-cut bs remote off n n' now e r same h = record {
  valid = h.valid;
  same_size = h.same_size;
  same_view = h.same_view;
  read = λ got ok. ((h.read got ok).0 ∙ same, (h.read got ok).1);
}

-- `ReadAt` is faithful: whatever the GETs and the operating system answer, the entry stands for the
-- same file afterwards, and a read that succeeds returns exactly the file's bytes from `off` on,
-- `n` of them or as many as the file has.
pub read_at-IsRead :
    (o : Options) (remote : ℕ → ℕ) (io : Option Error) (now n off : ℕ) (e : Entry) (c : Counters)
    → IsValid o.block_size e
    → Serves o e.key remote
    → IsRead o.block_size remote off n e (read_at o io now n off e c)
unfolding read_at view
read_at-IsRead o remote io now n off e c v s = elim (ℕ-cases 0 n) [
  | inr nothing ↦
      let e0 : n ≡ 0 = omega arith in
      rw e0 (record {
        valid = v;
        same_size = refl;
        same_view = λ p. refl;
        read = λ got h.
            let empty : got ≡ [] = cc in rw empty (omega arith, λ k less. absurd (omega arith));
      })
  | inl some_bytes ↦ elim (ℕ-cases off e.size) [
    | inr past ↦
        rw (ne_zero n some_bytes, le→leb _ _ past)
          (IsRead-cut bs remote off n n now e _ refl
            (IsRead-error bs remote off n opened opened c eof (Kept-refl opened_valid)))
    | inl inside ↦
        rw (ne_zero n some_bytes, lt→leb_false _ _ inside)
          (IsRead-cut bs remote off n n' now e _ (ground arith) (
            let (kept, here) = ensure_lem o remote off n' opened c opened_valid s in
            let r = ensure o off n' opened c in
            resume-IsRead bs remote io off n' opened r.1 r.2 r.0 kept inside (ground arith) here))
  ]
]
  where
    bs : ℕ
    bs = o.block_size

    n' : ℕ
    n' = if ltb e.size (off + n) then e.size - off else n

    opened : Entry
    opened = record e { used = now }

    opened_valid : IsValid bs opened
    opened_valid = record {
      positive = v.positive;
      blocks = v.blocks;
      file_length = v.file_length;
      object_fits = v.object_fits;
    }
