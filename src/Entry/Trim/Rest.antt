-- ===== src/Entry/Trim/Rest.antt =====
-- What `trim` does not touch.
use remote_s3_bucket_plugin.OsFile.{punch_hole}
use remote_s3_bucket_plugin.Bitmap.{get, clear}
use remote_s3_bucket_plugin.Entry.{Error, Options, Counters, Entry}
use remote_s3_bucket_plugin.Entry.Trim.{trim, trim_loop, kept, block_length}
use remote_s3_bucket_plugin.Prelude.{
  ℕ, zero, suc, ◌+◌, ◌*◌, ◌≡◌, refl, inl, inr, not, ◌||◌, Option, leb, ◌==◌, Bool-cases,
  Option-cases, drop, pos_part, ℤ, pos,
}

-- Punching holes changes nothing but the file and the blocks.
trim_loop-rest :
    (rounds : ℕ) (o : Options) (io : ℕ → Option Error) (need i freed : ℕ) (e : Entry)
    → let e' = (trim_loop rounds o io need i freed e).0 in
      e' ≡ record e { file = e'.file; blocks = e'.blocks }
unfolding trim_loop
trim_loop-rest zero o io need i freed e = refl
trim_loop-rest (suc rounds) o io need i freed e = elim (Bool-cases (leb need freed)) [
  | inl enough ↦ rw enough refl
  | inr short ↦
      let n = block_length o.block_size e i in
      elim (Bool-cases (kept o e i || not (get e.blocks (pos i)) || n == 0)) [
        | inl skip ↦ rw (short, skip) (trim_loop-rest rounds o io need (i + 1) freed e)
        | inr drop ↦ elim (Option-cases (io (i * o.block_size))) [
          | inr (err, bad) ↦ rw (short, drop, bad) refl
          | inl ok ↦
              rw (short, drop, ok)
                (trim_loop-rest rounds o io need (i + 1) (freed + n) (record e {
                  file = punch_hole e.file (i * o.block_size) n;
                  blocks = (clear e.blocks (pos i)).0;
                }))
        ]
      ]
]

pub trim-rest :
    (o : Options) (io : ℕ → Option Error) (need : ℤ) (e : Entry) (c : Counters)
    → let e' = (trim o io need e c).0 in e' ≡ record e { file = e'.file; blocks = e'.blocks }
unfolding trim
trim-rest o io need e c = elim (Bool-cases (pos_part need == 0)) [
  | inl nothing ↦ rw nothing refl
  | inr more ↦ elim (Bool-cases (e.dirty || e.new_file || e.deleted)) [
    | inl stays ↦ simp (more, stays) refl
    | inr free ↦ simp (more, free) (trim_loop-rest e.blocks.n o io (pos_part need) 0 0 e)
  ]
]
