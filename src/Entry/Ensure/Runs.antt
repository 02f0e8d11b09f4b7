-- ===== src/Entry/Ensure/Runs.antt =====
-- Runs of missing blocks, and the GET for one run.
use native.Mathlib.Nat.{le-div_iff_mul-le, div-lt_iff_lt-mul}
use remote_s3_bucket_plugin.OsFile.{byte_at, write_at, byte_at-write_at}
use remote_s3_bucket_plugin.Bitmap.{set_range}
use remote_s3_bucket_plugin.Bitmap.Access
use remote_s3_bucket_plugin.Bitmap.Access.{has}
use remote_s3_bucket_plugin.Bitmap.Range.{within, set_range_lem}
use remote_s3_bucket_plugin.Entry.{Fetched, Options, Counters, Entry, done, block_present}
use remote_s3_bucket_plugin.Entry.View.{
  view, IsValid, Serves, Kept, missing_block, in_block_lo, in_block_hi,
}
use remote_s3_bucket_plugin.Entry.Ensure.{
  missing_loop, run_end, fetch_end, fetch_into, finish_fetch, fetch_run,
}
use remote_s3_bucket_plugin.Prelude.{
  ℕ, zero, suc, ◌+◌, ◌-◌, ◌*◌, ◌/◌, ◌≤◌, ◌<◌, ◌≡◌, refl, ap, inl, inr, true, false, not, ◌&&◌, ◌||◌,
  none, arith, ltb, leb, ◌==◌, lt→ltb, Bool-cases, Option-cases, ℕ-cases, length, pos,
}

-- Without a missing block, all are present.
pub missing_loop_lem :
    (bs r : ℕ) (e : Entry) (i k : ℕ)
    → missing_loop bs r e i ≡ false
    → i ≤ k
    → k < i + r
    → block_present bs e k ≡ true
unfolding missing_loop
missing_loop_lem bs zero e i k h lo hi = absurd (omega arith)
missing_loop_lem bs (suc r) e i k h lo hi = elim (ℕ-cases i k) [
  | inl later ↦ missing_loop_lem bs r e (i + 1) k (ground arith) (omega arith) (omega arith)
  | inr here ↦ let same : k ≡ i = omega arith in ground (arith, ap (block_present bs e) same)
]

-- Blocks i to j are missing, and start inside the object.
pub record Missing (bs : ℕ) (e : Entry) (i j : ℕ) : Type 0 where
  pub ordered : i ≤ j
  pub absent : (k : ℕ) → i ≤ k → k ≤ j → has e.blocks k ≡ false
  pub inside : j * bs < e.obj_size

pub run_end-Missing :
    (bs r : ℕ) (e : Entry) (i j : ℕ)
    → IsValid bs e
    → Missing bs e i j
    → Missing bs e i (run_end bs r e j) × (j ≤ run_end bs r e j) × (run_end bs r e j ≤ j + r)
unfolding run_end
run_end-Missing bs zero e i j v m = (m, omega arith, omega arith)
run_end-Missing bs (suc r) e i j v m = elim (Bool-cases (block_present bs e (j + 1))) [
  | inl there ↦ rw there (m, omega arith, omega arith)
  | inr gone ↦
      let (inside, absent) = missing_block bs e (j + 1) v gone in
      let m' : Missing bs e i (j + 1) = record {
        ordered = omega (arith, m.ordered);
        absent = λ k lo hi. elim (ℕ-cases j k) [
          | inl last ↦ let same : k ≡ j + 1 = omega arith in rw same absent
          | inr before ↦ m.absent k lo before
        ];
        inside = inside;
      } in
      let (rest, grows, bound) = run_end-Missing bs r e i (j + 1) v m' in
      rw (gone, lt→ltb _ _ inside) (rest, omega (arith, grows), omega (arith, bound))
]

-- The GET for a missing run lies within the object.
pub fetch_end_lem :
    (bs : ℕ) (e : Entry) (j p : ℕ) → p < fetch_end bs e j → (p < e.obj_size) × (p < (j + 1) * bs)
fetch_end_lem bs e j p h = ground arith

block_below : (bs p j : ℕ) → 0 < bs → p / bs ≤ j → p < (j + 1) * bs
block_below bs p j h le = (div-lt_iff_lt-mul h).0 (omega arith)

-- The blocks i to j are marked in `e`.
pub mark : ℕ → ℕ → Entry → Entry
mark i j e = record e { blocks = (set_range e.blocks (pos i) (pos j)).0 }

pub has-mark :
    (i j k : ℕ) (e : Entry)
    → Access.IsValid e.blocks
    → has (mark i j e).blocks k ≡ (within i (suc j) k || has e.blocks k)
unfolding mark
has-mark i j k e v = (set_range_lem e.blocks i j v).1 k

finish_fetch-mark :
    (o : Options) (i j : ℕ) (e : Entry) (c : Counters)
    → (finish_fetch o e.obj_size i j e c).0 ≡ mark i j e
unfolding finish_fetch mark
finish_fetch-mark o i j e c = ground arith

module _ (o : Options) (remote : ℕ → ℕ) (i j : ℕ) (e : Entry) where
  start : ℕ
  start = i * o.block_size

  -- What the GET answers, and the state right after it.
  answer : Fetched
  answer = o.fetch e.key start (fetch_end o.block_size e j - start)

  streamed : Entry
  unfolding start answer
  streamed = fetch_into e start answer

  module _ (v : IsValid o.block_size e) (s : Serves o e.key remote)
      (m : Missing o.block_size e i j) where
    -- A byte that the GET writes lies in the run and in the object.
    in_run :
        (p : ℕ)
        → start ≤ p
        → p < start + length answer.body
        → (p < e.obj_size) × (i ≤ p / o.block_size) × (p / o.block_size ≤ j)
    unfolding start answer
    in_run p lo hi =
        let few = s.bounded (i * o.block_size) (fetch_end o.block_size e j - i * o.block_size) in
        let (inside, below) = fetch_end_lem o.block_size e j p (omega (arith, few)) in
        (
          inside,
          in_block_lo o.block_size i p v.positive lo,
          in_block_hi o.block_size j p v.positive below,
        )

    -- So a GET touches no byte that a reader sees.
    outside_run :
        (p : ℕ)
        → (ltb p e.obj_size && not (has e.blocks (p / o.block_size))) ≡ false
        → byte_at streamed.file p ≡ byte_at e.file p
    unfolding streamed start answer
    outside_run p seen = elim (Bool-cases (leb start p && ltb p (start + length answer.body))) [
      | inr out ↦ ground (arith, byte_at-write_at e.file answer.body start p)
      | inl hit ↦
          let (inside, lo, hi) = in_run p (ground arith) (ground arith) in
          absurd (ground (arith, m.absent (p / o.block_size) lo hi))
    ]

    streamed_len : streamed.file.len ≡ e.size
    unfolding streamed start answer
    streamed_len = elim (ℕ-cases 0 (length answer.body)) [
      | inr empty ↦ unfold write_at in ground (arith, v.file_length)
      | inl some_byte ↦
          let last = start + length answer.body - 1 in
          let (inside, _, _) = in_run last (omega arith) (omega arith) in
          unfold write_at in ground (arith, v.file_length, v.object_fits)
    ]

    streamed-Kept : Kept o.block_size remote e streamed
    unfolding streamed view start answer
    streamed-Kept = record {
      valid = record {
        positive = v.positive;
        blocks = v.blocks;
        file_length = streamed_len;
        object_fits = v.object_fits;
      };
      same_view = λ p. ground (arith, outside_run p);
      same_rest = refl;
      still = λ k h. h;
    }

    -- After a GET that delivered its range, the file has the object's bytes there.
    streamed_run :
        answer.failed ≡ none
        → answer.got ≡ fetch_end o.block_size e j - start
        → (p : ℕ) → p < e.obj_size
        → i ≤ p / o.block_size
        → p / o.block_size ≤ j
        → byte_at streamed.file p ≡ remote p
    unfolding streamed start answer
    streamed_run ok full p inside lo hi =
        let (size, same) =
          s.whole (i * o.block_size) (fetch_end o.block_size e j - i * o.block_size) ok full in
        let left = (le-div_iff_mul-le v.positive).0 lo in
        let right = block_below o.block_size p j v.positive hi in
        let stop : p < fetch_end o.block_size e j = ground (arith, left, right) in
        let place : start + (p - start) ≡ p = omega (arith, left) in
        ground (
          arith,
          left,
          byte_at-write_at e.file answer.body start p,
          same (p - start) (omega (arith, left, stop)),
          ap remote place,
          size,
          stop,
        )

    mark-Kept :
        ((p : ℕ)
          → p < e.obj_size
          → i ≤ p / o.block_size
          → p / o.block_size ≤ j
          → byte_at streamed.file p ≡ remote p)
        → Kept o.block_size remote e (mark i j streamed)
    unfolding mark view streamed
    mark-Kept bytes = record {
      valid = record {
        positive = v.positive;
        blocks = (set_range_lem e.blocks i j v.blocks).0;
        file_length = streamed_len;
        object_fits = v.object_fits;
      };
      same_view = λ p. ground (
        arith,
        (set_range_lem e.blocks i j v.blocks).1 (p / o.block_size),
        bytes p,
        outside_run p,
      );
      same_rest = refl;
      still = λ k h. ground (arith, (set_range_lem e.blocks i j v.blocks).1 k);
    }

-- The GET for a missing run: a reader sees the same file, and on success the run is present.
pub fetch_run-Kept :
    (o : Options) (remote : ℕ → ℕ) (i j : ℕ) (e : Entry) (c : Counters)
    → IsValid o.block_size e
    → Serves o e.key remote
    → Missing o.block_size e i j
    → Kept o.block_size remote e (fetch_run o i j e c).1
      × ((fetch_run o i j e c).0 ≡ done tt
          → (k : ℕ) → i ≤ k
          → k ≤ j
          → has (fetch_run o i j e c).1.blocks k ≡ true)
unfolding fetch_run start answer streamed
fetch_run-Kept o remote i j e c v s m = elim (Option-cases (answer o remote i j e).failed) [
  | inr (err, bad) ↦ rw (bad, fetch_run) (streamed-Kept o remote i j e v s m, λ h. cc)
  | inl good ↦
      let wanted = fetch_end o.block_size e j - i * o.block_size in
      elim (Bool-cases ((answer o remote i j e).got == wanted)) [
        | inr short ↦ rw (good, fetch_run, short) (streamed-Kept o remote i j e v s m, λ h. cc)
        | inl full ↦
            rw (good, fetch_run, full, finish_fetch-mark o i j (streamed o remote i j e) c)
              (
                mark-Kept o remote i j e v s m
                    (streamed_run o remote i j e v s m good (ground (arith, full))),
                λ _ k lo hi. ground (arith, has-mark i j k (streamed o remote i j e) v.blocks),
              )
      ]
]
