-- ===== src/Entry/Ensure/Paid.antt =====
-- `ensure` charges what it puts on the local disk.
use remote_s3_bucket_plugin.Bitmap.{set_range}
use remote_s3_bucket_plugin.Entry.{
  Options, Counters, Entry, Outcome, done, failed, M, resume, block_present,
}
use remote_s3_bucket_plugin.Entry.Accounts.{Pays, Pays-charge, disk_bytes_ext}
use remote_s3_bucket_plugin.Entry.Ensure.{
  missing_loop, run_end, fetch_end, fetch_into, finish_fetch, fetch_run, fetch_loop, ensure,
}
use remote_s3_bucket_plugin.Prelude.{
  ℕ, zero, suc, ◌+◌, ◌-◌, ◌*◌, ◌/◌, ◌≡◌, refl, inl, inr, arith, ltb, leb, ◌==◌, if◌then◌else◌,
  Bool-cases, Option-cases, pos,
}

-- An entry and the counters after an operation.
abbrev pub PaysAfter : ℕ → Entry → Counters → {A : Type 0} → A × Entry × Counters → Type 0
PaysAfter bs e k r = Pays bs e k r.1 r.2

finish_fetch-Pays :
    (o : Options) (snapshot i j : ℕ) (e : Entry) (k : Counters)
    → let r = finish_fetch o snapshot i j e k in Pays o.block_size e k r.0 r.1
unfolding finish_fetch
finish_fetch-Pays o snapshot i j e k = elim (Bool-cases (e.obj_size == snapshot)) [
  | inr moved ↦ rw moved (omega arith)
  | inl same ↦ rw same (
      Pays-charge o e (record e { blocks = (set_range e.blocks (pos i) (pos j)).0 })
        (record k { blocks_fetched = k.blocks_fetched + (set_range e.blocks (pos i) (pos j)).1 }))
]

fetch_run-Pays :
    (o : Options) (i j : ℕ) (e : Entry) (k : Counters)
    → PaysAfter o.block_size e k (fetch_run o i j e k)
unfolding fetch_run
fetch_run-Pays o i j e k =
    let start = i * o.block_size in
    let r = o.fetch e.key start (fetch_end o.block_size e j - start) in
    let e' = fetch_into e start r in
    let same = disk_bytes_ext o.block_size e e' refl refl in
    elim (Option-cases r.failed) [
      | inr (err, bad) ↦ rw (bad, fetch_run) (omega (arith, same))
      | inl ok ↦ elim (Bool-cases (r.got == fetch_end o.block_size e j - start)) [
        | inr short ↦ rw (ok, short, fetch_run) (omega (arith, same))
        | inl whole ↦
            rw (ok, whole, fetch_run) (omega (arith, same, finish_fetch-Pays o e.obj_size i j e' k))
      ]
    ]

-- An error ends the operation.
pub resume-Pays :
    {A B : Type 0} (bs : ℕ) (f : A → M B) (r : Outcome A) (e e' : Entry) (k k' : Counters)
    → Pays bs e k e' k'
    → ((a : A) → r ≡ done a → PaysAfter bs e' k' (f a e' k'))
    → PaysAfter bs e k (resume f r e' k')
resume-Pays bs f (failed err) e e' k k' p q = p
resume-Pays bs f (done a) e e' k k' p q = omega (arith, p, q a refl)

fetch_loop-Pays :
    (fuel : ℕ) (o : Options) (stop i : ℕ) (e : Entry) (k : Counters)
    → PaysAfter o.block_size e k (fetch_loop fuel o stop i e k)
unfolding fetch_loop
fetch_loop-Pays zero o stop i e k = omega arith
fetch_loop-Pays (suc fuel) o stop i e k =
    let j = run_end o.block_size (stop - 1 - i) e i in
    let r = fetch_run o i j e k in
    let go =
      resume-Pays o.block_size (λ _. fetch_loop fuel o stop (j + 1)) r.0 e r.1 k r.2
        (fetch_run-Pays o i j e k) (λ _ _. fetch_loop-Pays fuel o stop (j + 1) r.1 r.2) in
    let skip = fetch_loop-Pays fuel o stop (i + 1) e k in
    elim (Bool-cases (leb stop i)) [
      | inl over ↦ rw over (omega arith)
      | inr more ↦ elim (Bool-cases (leb e.obj_size (i * o.block_size))) [
        | inl past ↦ rw (more, past) (omega arith)
        | inr inside ↦ elim (Bool-cases (block_present o.block_size e i)) [
          | inl there ↦ rw (more, inside, there) skip
          | inr gone ↦ rw (more, inside, gone) go
        ]
      ]
    ]

pub ensure-Pays :
    (o : Options) (off n : ℕ) (e : Entry) (k : Counters)
    → PaysAfter o.block_size e k (ensure o off n e k)
unfolding ensure
ensure-Pays o off n e k =
    let n' = if ltb e.obj_size (off + n) then e.obj_size - off else n in
    let first = off / o.block_size in
    let stop = (off + n' - 1) / o.block_size + 1 in
    elim (Bool-cases (n == 0)) [
      | inl nothing ↦ rw nothing (omega arith)
      | inr more ↦ elim (Bool-cases (leb e.obj_size off)) [
        | inl past ↦ rw (more, past) (omega arith)
        | inr inside ↦ elim (Bool-cases (missing_loop o.block_size (stop - first) e first)) [
          | inr there ↦ rw (more, inside, there) (omega arith)
          | inl gone ↦ rw (more, inside, gone) (fetch_loop-Pays (stop - first) o stop first e k)
        ]
      ]
    ]
