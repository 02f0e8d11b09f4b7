-- ===== src/Entry/Trim/Reclaim.antt =====
-- What `trim` gives back, and that a reader cannot tell.
use remote_s3_bucket_plugin.Bitmap.{get}
use remote_s3_bucket_plugin.Bitmap.Access.{has, get-has, clear_lem}
use remote_s3_bucket_plugin.Entry.{Error, Options, Counters, Entry}
use remote_s3_bucket_plugin.Entry.View.{view}
use remote_s3_bucket_plugin.Entry.Ensure.Faults.{ne_zero}
use remote_s3_bucket_plugin.Entry.Trim.{kept, block_length, trim_loop, trim}
use remote_s3_bucket_plugin.Entry.Trim.Near.{Near, kept-far}
use remote_s3_bucket_plugin.Entry.Trim.Punch.{
  IsClean, Trimmed, view-clean, punched, punched-IsClean, Trimmed-refl, length-punched,
  Trimmed-punched,
}
use remote_s3_bucket_plugin.Prelude.{
  ℕ, zero, suc, ◌+◌, ◌*◌, ◌≤◌, ◌<◌, ◌≡◌, refl, sym, ap, subst, ◌∙◌, inl, inr, Bool, true, false,
  not, ◌||◌, Option, none, some, arith, ltb, ◌==◌, if◌then◌else◌, le→leb, lt→leb_false, Bool-cases,
  Option-cases, ℕ-cases, drop, pos_part, ℤ, pos,
}

-- Enough was dropped, or what is left of the blocks [i, stop) is near the reader or past the end.
abbrev pub Exhausted : Options → (ℕ → Option Error) → ℕ → ℕ → ℕ → Entry → Entry × ℕ → Type 0
Exhausted o io need i stop e r =
    ((off : ℕ) → io off ≡ none)
    → r.1 < need
    → (k : ℕ) → i ≤ k
    → k < stop
    → ¬ Near o.block_size o.readahead e.read_off k
    → has r.0.blocks k ≡ true
    → block_length o.block_size e k ≡ 0

some_ne_none : {err : Error} → ¬ (some err ≡ none)
some_ne_none h = cc

-- What the loop has done from block `i` on, with result `r`.
abbrev Looped : Options → (ℕ → ℕ) → (ℕ → Option Error) → ℕ → ℕ → ℕ → ℕ → Entry → Entry × ℕ → Type 0
Looped o remote io need i stop freed e r =
    (m : ℕ) × (r.1 ≡ freed + m) × Trimmed o remote e r.0 m × Exhausted o io need i stop e r

true_ne_false : ¬ (true ≡ false)
true_ne_false h = cc

module _ (o : Options) (remote : ℕ → ℕ) (io : ℕ → Option Error) (need i stop freed : ℕ) (e : Entry)
    (r : Entry × ℕ) (v : IsClean o.block_size remote e) where
  skip-Looped :
      (kept o e i || not (get e.blocks (pos i)) || block_length o.block_size e i == 0) ≡ true
      → Looped o remote io need (i + 1) stop freed e r
      → Looped o remote io need i stop freed e r
  skip-Looped skip (m, total, t, all) = (
    m,
    total,
    t,
    λ fine left k lo hi far on. elim (ℕ-cases i k) [
      | inl later ↦ all fine left k (omega arith) hi far on
      | inr here ↦
          let same : k ≡ i = omega arith in
          rw same (
            ground (
              arith,
              t.fewer k on,
              get-has e.blocks i v.valid.blocks,
              ap (has e.blocks) same,
              ap (kept o e) same,
              kept-far o e i v.valid.positive,
            ))
    ],
  )

  punched-absent : (k : ℕ) → k ≡ i → has (punched o.block_size i e).blocks k ≡ false
  unfolding punched
  punched-absent k same =
      let (_, row, _) = clear_lem e.blocks i v.valid.blocks in ground (arith, row k)

  drop-Looped :
      (kept o e i || not (get e.blocks (pos i)) || block_length o.block_size e i == 0) ≡ false
      → Looped o remote io need
          (i + 1)
          stop
          (freed + block_length o.block_size e i)
          (punched o.block_size i e)
          r
      → Looped o remote io need i stop freed e r
  unfolding punched
  drop-Looped drop (m, total, t, all) =
      let (_, row, _) = clear_lem e.blocks i v.valid.blocks in
      (
        block_length o.block_size e i + m,
        omega (arith, total),
        Trimmed-punched o remote e r.0 i m v (ground arith)
            (ground (arith, get-has e.blocks i v.valid.blocks)) (ground arith) t,
        λ fine left k lo hi far on. elim (ℕ-cases i k) [
          | inl later ↦
              sym (length-punched o.block_size i e k) ∙ all fine left k (omega arith) hi far on
          | inr here ↦
              let same : k ≡ i = omega arith in
              absurd (true_ne_false (sym (t.fewer k on) ∙ punched-absent k same))
        ],
      )

-- Every round passes one block.
trim_loop-Looped :
    (rounds : ℕ) (o : Options) (remote : ℕ → ℕ) (io : ℕ → Option Error) (need i stop freed : ℕ)
    (e : Entry)
    → IsClean o.block_size remote e
    → stop ≤ i + rounds
    → Looped o remote io need i stop freed e (trim_loop rounds o io need i freed e)
unfolding trim_loop punched
trim_loop-Looped zero o remote io need i stop freed e v enough =
    (0, omega arith, Trimmed-refl v, λ _ _ k lo hi. absurd (omega arith))
trim_loop-Looped (suc rounds) o remote io need i stop freed e v enough = elim (ℕ-cases freed need) [
  | inr paid ↦
      rw (le→leb need freed paid) (0, omega arith, Trimmed-refl v, λ _ short. absurd (omega arith))
  | inl short ↦
      elim (Bool-cases
        (kept o e i || not (get e.blocks (pos i)) || block_length o.block_size e i == 0)) [
          | inl skip ↦
              rw (lt→leb_false freed need short, skip)
                (skip-Looped o remote io need i stop freed e _ v skip
                  (trim_loop-Looped rounds o remote io need (i + 1) stop freed e v (omega arith)))
          | inr drop ↦ elim (Option-cases (io (i * o.block_size))) [
            | inr (err, bad) ↦
                rw (lt→leb_false freed need short, drop, bad)
                  (
                    0,
                    omega arith,
                    Trimmed-refl v,
                    λ fine. absurd (some_ne_none (sym bad ∙ fine (i * o.block_size))),
                  )
            | inl ok ↦
                rw (lt→leb_false freed need short, drop, ok)
                  (drop-Looped o remote io need i stop freed e _ v drop (
                    trim_loop-Looped rounds o remote io need (i + 1) stop
                      (freed + block_length o.block_size e i) (punched o.block_size i e)
                      (punched-IsClean o.block_size remote e i v) (omega arith)))
          ]
        ]
]

view-Trimmed :
    (o : Options) (remote : ℕ → ℕ) (e e' : Entry) (m p : ℕ)
    → IsClean o.block_size remote e
    → Trimmed o remote e e' m
    → view o.block_size remote e' p ≡ view o.block_size remote e p
view-Trimmed o remote e e' m p v t =
    view-clean o.block_size remote e' p t.clean
    ∙ ap (λ (x : Entry). if ltb p x.size then remote p else 0) t.same_rest
    ∙ sym (view-clean o.block_size remote e p v)

-- The kinds of entry that `trim` leaves alone.
abbrev pub pinned : Entry → Bool
pinned e = e.dirty || e.new_file || e.deleted

-- A dirty, new or deleted entry is left as it was.
pub trim-pinned :
    (o : Options) (io : ℕ → Option Error) (need : ℤ) (e : Entry) (c : Counters)
    → pinned e ≡ true
    → trim o io need e c ≡ (e, c, 0)
unfolding trim
trim-pinned o io need e c stays = ground (arith, stays)

-- For a clean entry whose present blocks agree with the object, `trim` is invisible: a reader sees
-- the same file afterwards, the present blocks stay that reach past one
-- block before the last read offset at most and start no further ahead of it than the readahead or
-- than one block, the space on disk falls by exactly the
-- number returned, and, if the entry is not dirty, new or deleted, unless that is what was needed or
-- a hole could not be punched, nothing that could be dropped is left.
pub trim_lem :
    (o : Options) (remote : ℕ → ℕ) (io : ℕ → Option Error) (need : ℤ) (e : Entry) (c : Counters)
    → IsClean o.block_size remote e
    → let r = trim o io need e c in
      Trimmed o remote e r.0 r.2
      × ((p : ℕ) → view o.block_size remote r.0 p ≡ view o.block_size remote e p)
      × (pinned e ≡ false → Exhausted o io (pos_part need) 0 e.blocks.n e (r.0, r.2))
unfolding trim
trim_lem o remote io need e c v = elim (ℕ-cases 0 (pos_part need)) [
  | inr nothing ↦
      let e0 : pos_part need ≡ 0 = omega arith in
      rw e0 (Trimmed-refl v, λ p. refl, λ _ _ short. absurd (omega arith))
  | inl more ↦ elim (Bool-cases (pinned e)) [
    | inl stays ↦ rw (ne_zero (pos_part need) more, stays) (Trimmed-refl v, λ p. refl, λ h. cc)
    | inr free ↦
        rw (ne_zero (pos_part need) more, free)
          (let (m, total, t, all) =
              trim_loop-Looped e.blocks.n o remote io (pos_part need) 0 e.blocks.n 0 e v
                (omega arith) in
            let r = trim_loop e.blocks.n o io (pos_part need) 0 0 e in
            let same : m ≡ r.1 = omega (arith, total) in
            (
              subst (Trimmed o remote e r.0) same t,
              λ p. view-Trimmed o remote e _ m p v t,
              λ _. all,
            ))
  ]
]
