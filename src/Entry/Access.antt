-- ===== src/Entry/Access.antt =====
-- `ReadAt`, `WriteAt` and `Truncate` of internal/cache/entry.go. `io` is what the operating system
-- answers to the file operation inside.
pub mod Read
pub mod Write
pub mod Resize
use remote_s3_bucket_plugin.OsFile
use remote_s3_bucket_plugin.OsFile.{File}
use remote_s3_bucket_plugin.Bitmap.{set_range, clear_from}
use remote_s3_bucket_plugin.Entry.{
  Error, eof, negative_size, Options, Entry, done, failed, M, ◌>>◌, nblocks, charge, touch,
}
use remote_s3_bucket_plugin.Entry.Ensure.{ensure}
use remote_s3_bucket_plugin.Prelude.{
  ℕ, ◌+◌, ◌-◌, ◌*◌, ◌/◌, ◌%◌, min, Option, none, some, List, [], ltb, leb, ◌==◌, if◌then◌else◌,
  length, take, ℤ, pos, negsuc,
}

-- The locked end of `ReadAt`. A read that finds no byte reports the end of the file.
finish_read : Option Error → ℕ → ℕ → M (List ℕ)
finish_read (some err) off n e c = (failed err, record e { read_off = off }, c)
finish_read none off n e c =
    let got = OsFile.read_at e.file off n in
    (if length got == 0 then failed eof else done got, record e { read_off = off }, c)

-- Reads `n` bytes from `off` on, or what is left of the file.
unfoldable pub read_at : Options → Option Error → ℕ → ℕ → ℕ → M (List ℕ)
unfolding finish_read
read_at o io now n off e c =
    let size = e.size in
    let e' = record e { used = now } in
    let n' = if ltb size (off + n) then size - off else n in
    if n == 0
    then (done [], e, c)
    else if leb size off
    then (failed eof, e', c)
    else (do ensure o off n'; finish_read io off n') e' c

-- `file.WriteAt` wrote the first `wrote` bytes, and may report an error.
pub record Wrote : Type 0 where
  pub wrote : ℕ
  pub error : Option Error

-- The locked part of `WriteAt`, after both edge blocks have been faulted in.
finish_write : Options → Wrote → ℕ → List ℕ → ℕ → M (ℕ × Option Error)
finish_write o io now xs off e c =
    let n = min io.wrote (length xs) in
    let bs = o.block_size in
    let first = off / bs in
    let last = (off + n - 1) / bs in
    let e' = record e {
      file = OsFile.write_at e.file (take n xs) off;
      blocks = (set_range e.blocks (pos first) (pos last)).0;
      size = if ltb e.size (off + n) then off + n else e.size;
    } in
    if n == 0
    then (done (n, io.error), e, c)
    else (done (n, io.error), touch now e', charge o e e' c)

-- A partial write to a block needs the rest of the block first.
ensure_edge : Options → ℕ → M (Unit {0})
ensure_edge o p =
    let bs = o.block_size in
    if p % bs == 0 then (λ e c. (done tt, e, c)) else ensure o (p / bs * bs) bs

unfoldable pub write_at : Options → Wrote → ℕ → List ℕ → ℕ → M (ℕ × Option Error)
unfolding finish_write ensure_edge
write_at o io now xs off e c =
    let go =
      (do ensure_edge o off; ensure_edge o (off + length xs); finish_write o io now xs off) e c in
    if length xs == 0 then (done (0, none), e, c) else go

-- The new size of the object's part of the file, and its blocks.
shrink : ℕ → ℕ → Entry → Entry
shrink bs size e =
    if ltb size e.obj_size
    then record e { obj_size = size; blocks = (clear_from e.blocks (pos (nblocks size bs))).0 }
    else e

unfoldable pub truncate : Options → Option Error → ℕ → ℤ → M (Unit {0})
unfolding shrink
truncate o io now (negsuc _) e c = (failed negative_size, e, c)
truncate o (some err) now (pos size) e c = (failed err, e, c)
truncate o none now (pos size) e c =
    let e' = record (shrink o.block_size size (record e { file = OsFile.truncate e.file size })) {
      size = size;
    } in
    (done tt, touch now e', charge o e e' c)
