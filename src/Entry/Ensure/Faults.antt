-- ===== src/Entry/Ensure/Faults.antt =====
-- The whole of `ensure`: a reader sees the same file before and after, whatever the GETs answer,
-- and on success every block of the range is on the local disk.
use native.Mathlib.Nat.{mul-le-mul_right}
use remote_s3_bucket_plugin.Bitmap.Access.{has}
use remote_s3_bucket_plugin.Entry.{
  Text, Options, Counters, Entry, Outcome, done, failed, M, resume, block_present,
}
use remote_s3_bucket_plugin.Entry.View.{
  IsValid, Serves, Kept, Kept-refl, Kept-trans, missing_block, present_block, in_block_lo,
  in_block_hi, block_start, block_stop,
}
use remote_s3_bucket_plugin.Entry.Ensure.{
  missing_loop, run_end, fetch_run, fetch_loop, ensure, fetch_end,
}
use remote_s3_bucket_plugin.Entry.Ensure.Runs.{
  Missing, missing_loop_lem, run_end-Missing, fetch_run-Kept,
}
use remote_s3_bucket_plugin.Prelude.{
  ℕ, zero, suc, ◌+◌, ◌-◌, ◌*◌, ◌/◌, ◌≤◌, ◌<◌, ◌≡◌, refl, ap, inl, inr, true, false, none, arith,
  ltb, ◌==◌, if◌then◌else◌, le→leb, lt→leb_false, Bool-cases, ℕ-cases,
}

-- The key and the size of the object are what they were.
pub Serves-Kept :
    {bs : ℕ} {o : Options} {remote : ℕ → ℕ} {e e' : Entry}
    → Kept bs remote e e'
    → Serves o e.key remote
    → Serves o e'.key remote
Serves-Kept {o} {remote} k s = rw (ap (λ (x : Entry). x.key) k.same_rest) s

pub obj_size-Kept :
    {bs : ℕ} {remote : ℕ → ℕ} {e e' : Entry} → Kept bs remote e e' → e'.obj_size ≡ e.obj_size
obj_size-Kept k = ap (λ (x : Entry). x.obj_size) k.same_rest

-- The blocks from i on, below `stop`, that hold bytes of the object are present.
abbrev pub Present : ℕ → Entry → ℕ → ℕ → Type 0
Present bs e i stop = (k : ℕ) → i ≤ k → k < stop → k * bs < e.obj_size → has e.blocks k ≡ true

abbrev Faulted : ℕ → (ℕ → ℕ) → ℕ → ℕ → Entry → Outcome (Unit {0}) × Entry × Counters → Type 0
Faulted bs remote i stop e r = Kept bs remote e r.1 × (r.0 ≡ done tt → Present bs r.1 i stop)

-- A block past the object's content ends the loop.
past_object : (bs i k n : ℕ) → i ≤ k → n ≤ i * bs → ¬ (k * bs < n)
past_object bs i k n le past h = omega (arith, mul-le-mul_right bs le)

-- The rest of the loop after a GET for blocks i to j.
resume-Faulted :
    (bs : ℕ) (remote : ℕ → ℕ) (i j stop : ℕ) (e e' : Entry) (c' : Counters) (k : M (Unit {0}))
    (r : Outcome (Unit {0}))
    → Kept bs remote e e'
    → (r ≡ done tt → (b : ℕ) → i ≤ b → b ≤ j → has e'.blocks b ≡ true)
    → Faulted bs remote (j + 1) stop e' (k e' c')
    → Faulted bs remote i stop e (resume (λ _. k) r e' c')
resume-Faulted bs remote i j stop e e' c' k (failed err) kept run rest = (kept, λ h. cc)
resume-Faulted bs remote i j stop e e' c' k (done tt) kept run rest = (
  Kept-trans kept rest.0,
  λ ok b lo hi inside. elim (ℕ-cases j b) [
    | inl later ↦ rest.1 ok b (omega arith) hi inside
    | inr near ↦ rest.0.still b (run refl b lo near)
  ],
)

fetch_loop-Faulted :
    (fuel : ℕ) (o : Options) (remote : ℕ → ℕ) (stop i : ℕ) (e : Entry) (c : Counters)
    → IsValid o.block_size e
    → Serves o e.key remote
    → stop ≤ i + fuel
    → Faulted o.block_size remote i stop e (fetch_loop fuel o stop i e c)
unfolding fetch_loop
fetch_loop-Faulted zero o remote stop i e c v s enough =
    (Kept-refl v, λ _ k lo hi _. absurd (omega arith))
fetch_loop-Faulted (suc fuel) o remote stop i e c v s enough = elim (ℕ-cases i stop) [
  | inr over ↦ rw (le→leb stop i over) (Kept-refl v, λ _ k lo hi _. absurd (omega arith))
  | inl more ↦ elim (ℕ-cases (i * o.block_size) e.obj_size) [
    | inr past ↦
        rw (lt→leb_false i stop more, le→leb _ _ past)
          (Kept-refl v, λ _ k lo hi inside. absurd (past_object o.block_size i k _ lo past inside))
    | inl inside ↦ elim (Bool-cases (block_present o.block_size e i)) [
      | inl there ↦
          rw (lt→leb_false i stop more, lt→leb_false _ _ inside, there)
            (let (kept, ok) = fetch_loop-Faulted fuel o remote stop (i + 1) e c v s (omega arith) in
              (
                kept,
                λ h k lo hi room. elim (ℕ-cases i k) [
                  | inl later ↦ ok h k (omega arith) hi room
                  | inr here ↦
                      let same : k ≡ i = omega arith in
                      rw same (kept.still i (present_block o.block_size e i v there inside))
                ],
              ))
      | inr gone ↦
          rw (lt→leb_false i stop more, lt→leb_false _ _ inside, gone)
            (let first : Missing o.block_size e i i = record {
              ordered = omega arith;
              absent = λ k lo hi.
                  let same : k ≡ i = omega arith in
                  rw same (missing_block o.block_size e i v gone).1;
              inside = inside;
            } in
              let (run, grows, _) = run_end-Missing o.block_size (stop - 1 - i) e i i v first in
              let j = run_end o.block_size (stop - 1 - i) e i in
              let (kept, ok) = fetch_run-Kept o remote i j e c v s run in
              let r = fetch_run o i j e c in
              resume-Faulted o.block_size remote i j stop e r.1 r.2 _ r.0 kept ok (
                fetch_loop-Faulted fuel o remote stop (j + 1) r.1 r.2 kept.valid
                  (Serves-Kept kept s) (omega (arith, grows))))
    ]
  ]
]

pub ne_zero : (n : ℕ) → 0 < n → (n == 0) ≡ false
ne_zero n h = ground arith

-- `ensure` is safe and sufficient: a reader sees the same file before and after, whatever the GETs
-- answer, nothing but the file and the blocks changes, and on success every byte of the range that
-- belongs to the object is on the local disk.
pub ensure_lem :
    (o : Options) (remote : ℕ → ℕ) (off n : ℕ) (e : Entry) (c : Counters)
    → IsValid o.block_size e
    → Serves o e.key remote
    → Kept o.block_size remote e (ensure o off n e c).1
      × ((ensure o off n e c).0 ≡ done tt
          → (p : ℕ) → off ≤ p
          → p < off + n
          → p < e.obj_size
          → has (ensure o off n e c).1.blocks (p / o.block_size) ≡ true)
unfolding ensure
ensure_lem o remote off n e c v s = elim (ℕ-cases 0 n) [
  | inr nothing ↦
      let e0 : n ≡ 0 = omega arith in rw e0 (Kept-refl v, λ _ p lo hi _. absurd (omega arith))
  | inl some_bytes ↦ elim (ℕ-cases off e.obj_size) [
    | inr past ↦
        rw (ne_zero n some_bytes, le→leb _ _ past)
          (Kept-refl v, λ _ p lo hi inside. absurd (omega arith))
    | inl within_object ↦ elim (Bool-cases (missing_loop bs (stop - first) e first)) [
      | inr none_missing ↦
          rw (ne_zero n some_bytes, lt→leb_false _ _ within_object, none_missing)
            (
              Kept-refl v,
              λ _ p lo hi inside.
                  let (after, before) = spans p lo (cut p lo hi inside) in
                  present_block bs e (p / bs) v
                    (missing_loop_lem bs (stop - first) e first (p / bs) none_missing after
                      (omega arith))
                    (omega (arith, block_start bs p)),
            )
      | inl missing ↦
          rw (ne_zero n some_bytes, lt→leb_false _ _ within_object, missing)
            (let (kept, ok) =
                fetch_loop-Faulted (stop - first) o remote stop first e c v s (omega arith) in
              (
                kept,
                λ h p lo hi inside.
                    let (after, before) = spans p lo (cut p lo hi inside) in
                    ok h (p / bs) after before
                      (omega (arith, block_start bs p, obj_size-Kept kept)),
              ))
    ]
  ]
]
  where
    bs : ℕ
    bs = o.block_size

    n' : ℕ
    n' = if ltb e.obj_size (off + n) then e.obj_size - off else n

    first : ℕ
    first = off / bs

    stop : ℕ
    stop = (off + n' - 1) / bs + 1

    cut : (p : ℕ) → off ≤ p → p < off + n → p < e.obj_size → p < off + n'
    cut p lo hi inside = ground arith

    spans : (p : ℕ) → off ≤ p → p < off + n' → (first ≤ p / bs) × (p / bs < stop)
    spans p lo hi = (
      in_block_lo bs first p v.positive (omega (arith, block_start bs off)),
      omega (
        arith,
        in_block_hi bs ((off + n' - 1) / bs) p v.positive
            (omega (arith, block_stop bs (off + n' - 1) v.positive)),
      ),
    )

-- What the code relies on of a bucket that answers every GET.
abbrev pub IsReliable : Options → Type 0
IsReliable o =
    (key : Text) (off n : ℕ) → ((o.fetch key off n).failed ≡ none) × ((o.fetch key off n).got ≡ n)

fetch_run-done :
    (o : Options) (i j : ℕ) (e : Entry) (c : Counters)
    → IsReliable o
    → (fetch_run o i j e c).0 ≡ done tt
unfolding fetch_run
fetch_run-done o i j e c reliable =
    let start = i * o.block_size in
    ground (arith, reliable e.key start (fetch_end o.block_size e j - start))

fetch_loop-done :
    (fuel : ℕ) (o : Options) (stop i : ℕ) (e : Entry) (c : Counters)
    → IsReliable o
    → (fetch_loop fuel o stop i e c).0 ≡ done tt
unfolding fetch_loop
fetch_loop-done zero o stop i e c reliable = refl
fetch_loop-done (suc fuel) o stop i e c reliable =
    let j = run_end o.block_size (stop - 1 - i) e i in
    let r = fetch_run o i j e c in
    ground (
      arith,
      fetch_loop-done fuel o stop (i + 1) e c reliable,
      fetch_run-done o i j e c reliable,
      fetch_loop-done fuel o stop (j + 1) r.1 r.2 reliable,
    )

-- With a bucket that answers every GET, `ensure` succeeds.
pub ensure-done :
    (o : Options) (off n : ℕ) (e : Entry) (c : Counters)
    → IsReliable o
    → (ensure o off n e c).0 ≡ done tt
unfolding ensure
ensure-done o off n e c reliable = ground (
  arith,
  fetch_loop-done
      ((off + (if ltb e.obj_size (off + n) then e.obj_size - off else n) - 1) / o.block_size
        + 1
        - off / o.block_size)
      o ((off + (if ltb e.obj_size (off + n) then e.obj_size - off else n) - 1) / o.block_size + 1)
      (off / o.block_size) e c reliable,
)

-- With a bucket that answers every GET in full, `ensure` succeeds, after rounds that are enough for
-- the range: every byte of the range that belongs to the object is then on the local disk.
pub ensure-IsReliable :
    (o : Options) (remote : ℕ → ℕ) (off n : ℕ) (e : Entry) (c : Counters)
    → IsValid o.block_size e
    → Serves o e.key remote
    → IsReliable o
    → ((ensure o off n e c).0 ≡ done tt)
      × ((p : ℕ)
          → off ≤ p
          → p < off + n
          → p < e.obj_size
          → has (ensure o off n e c).1.blocks (p / o.block_size) ≡ true)
ensure-IsReliable o remote off n e c v s reliable =
    let ok = ensure-done o off n e c reliable in (ok, (ensure_lem o remote off n e c v s).1 ok)
