-- ===== src/Node/Files.antt =====
-- Open files in internal/s3fs/node.go: `Open`, `Create`, `Mknod`, `Read`, `Write`, `Flush`, `Fsync` and
-- `Release`. The count of bytes that `Write` answers besides an error is left out.
use remote_s3_bucket_plugin.Table.{Text}
use remote_s3_bucket_plugin.Paths.{join, key}
use remote_s3_bucket_plugin.Attrs.{Attr}
use remote_s3_bucket_plugin.Attrs.Meta.{is_dir, file_type, reg_bits, perm_bits, Stat, fill}
use remote_s3_bucket_plugin.Dirs
use remote_s3_bucket_plugin.Entry.{
  Error, eof, not_found, os_error, Outcome, done, failed, untouched,
}
use remote_s3_bucket_plugin.Entry.Access.{read_at, write_at}
use remote_s3_bucket_plugin.Cache
use remote_s3_bucket_plugin.Cache.{on_entry, unref_entry}
use remote_s3_bucket_plugin.Config.{Config}
use remote_s3_bucket_plugin.Fs.{
  World, Fs, M, ◌>>=◌, ◌>>◌, return, fail, modify, writable, mark_pending, put_sticky, on_dirs,
  on_cache, in_cache, ebadf, eexist, eisdir, enotsup,
}
use remote_s3_bucket_plugin.Fs.Stat.{stat}
use remote_s3_bucket_plugin.Fs.Upload.{options, flush}
use remote_s3_bucket_plugin.Fs.Rename.{note_write}
use remote_s3_bucket_plugin.Node.{
  ok, errno, Op, uncounted, counted, count_op, FileHandle, note_read, new_attr, open_flags,
}
use remote_s3_bucket_plugin.Node.Attributes.{open_file}
use remote_s3_bucket_plugin.Prelude.{
  ℕ, bit_and, bit_or, Bool, not, ◌&&◌, Option, none, some, List, [], ◌==◌, if◌then◌else◌, length,
}

-- `O_WRONLY | O_RDWR | O_APPEND | O_TRUNC`, and the flags by themselves.
abbrev pub write_flags : ℕ
write_flags = 1539

abbrev pub o_wronly : ℕ
o_wronly = 1

abbrev pub o_creat : ℕ
o_creat = 64

abbrev pub o_excl : ℕ
o_excl = 128

abbrev pub o_trunc : ℕ
o_trunc = 512

abbrev pub o_append : ℕ
o_append = 1024

-- `flags & bits != 0`.
abbrev pub has_flag : ℕ → ℕ → Bool
has_flag flags bits = not (bit_and flags bits == 0)

abbrev pub new_handle : Config → Text → ℕ → ℕ → FileHandle
new_handle g p flags id = record {
  entry = id;
  path = p;
  key = key g.prefix p;
  flags = flags;
  next_off = 0;
  seq = 0;
}

abbrev pub create_entry : Config → World → Text → M ℕ
create_entry g w p =
    in_cache (Cache.create g.block_size w.os.path_for w.os.open_file w.now (key g.prefix p))

-- `O_TRUNC`.
unfoldable pub open_empty : Config → World → Text → Attr → M ℕ
open_empty g w p a = create_entry g w p >>= λ id.
    modify (put_sticky w p (record a { size = 0; mtime = w.now })) >> return id

-- What exists is opened, if it is not a directory: the handle and the flags of the answer.
unfoldable pub open_found : Config → World → Text → ℕ → Attr → M (FileHandle × ℕ)
unfolding open_empty
open_found g w p flags a =
    if is_dir a
    then fail (os_error eisdir)
    else (if has_flag flags o_trunc then open_empty g w p a else open_file g w p a) >>= λ id.
        return (new_handle g p flags id, open_flags g)

unfoldable pub open_path : Config → World → Text → ℕ → Op (FileHandle × ℕ)
unfolding open_found
open_path g w p flags = counted (
    let rest = stat g w p >>= open_found g w p flags in
    if has_flag flags write_flags then writable g rest else rest)

-- What `stat` answers to an exclusive creation.
unfoldable pub must_be_absent : Outcome Attr → Outcome (Unit {0})
must_be_absent (done a) = failed (os_error eexist)
must_be_absent (failed not_found) = done tt
must_be_absent (failed (os_error n)) = if n == 2 then done tt else failed (os_error n)
must_be_absent (failed err) = failed err

unfoldable pub check_exclusive : Config → World → Text → ℕ → M (Unit {0})
unfolding must_be_absent
check_exclusive g w p flags s =
    let (r, s') = stat g w p s in
    if has_flag flags o_excl then (must_be_absent r, s') else (done tt, s)

-- A new name is known, and only local.
unfoldable pub note_created : World → Text → Text → Attr → Fs → Fs
note_created w dir name a s =
    on_dirs (Dirs.add dir (record { name = name; mode = reg_bits }))
      (mark_pending dir name (put_sticky w (join dir name) a s))

unfoldable pub create_file : Config → World → Text → Text → ℕ → ℕ → M (Stat × FileHandle × ℕ)
unfolding check_exclusive note_created
create_file g w dir name flags mode =
    let p = join dir name in
    let a = new_attr g w (bit_or reg_bits (bit_and mode perm_bits)) 0 [] in
    check_exclusive g w p flags
    >> (create_entry g w p >>= λ id.
        modify (note_created w dir name a)
        >> return (fill a, new_handle g p flags id, open_flags g))

unfoldable pub create : Config → World → Text → Text → ℕ → ℕ → Op (Stat × FileHandle × ℕ)
unfolding create_file
create g w dir name flags mode = counted (writable g (create_file g w dir name flags mode))

-- The entry stays open if its flush fails, as in the source.
unfoldable pub mknod : Config → World → Text → Text → ℕ → Op Stat
unfolding create_file
mknod g w dir name mode s =
    let make =
      counted
        (writable g (
          create_file g w dir name (bit_or o_creat o_wronly) (bit_or mode reg_bits) >>= λ r.
          flush g w r.1.entry >> (modify (on_cache (unref_entry r.1.entry)) >> return r.0)))
        s in
    if not (file_type mode == reg_bits) && not (file_type mode == 0)
    then (errno enotsup, s)
    else make

-- A read at the end of the file is empty.
unfoldable pub eof_is_empty : Outcome (List ℕ) → Outcome (List ℕ)
eof_is_empty (failed eof) = done []
eof_is_empty r = r

-- The bytes, the handle afterwards and what is to be read ahead.
unfoldable pub read :
    Config → World → Option FileHandle → ℕ → ℕ → Op (List ℕ × FileHandle × Option (ℕ × ℕ))
unfolding eof_is_empty
read g w none n off s = (errno ebadf, count_op s)
read g w (some h) n off s =
    let (r, s') =
      in_cache (on_entry h.entry (read_at (options g w s) w.os.read_file w.now n off))
        (count_op s) in
    uncounted
      ((λ t. (eof_is_empty r, t)) >>= λ bytes.
        let (h', ahead) = note_read off (length bytes) g.readahead h in return (bytes, h', ahead))
      s'

-- The count of the bytes that were written, or the error.
unfoldable pub written : ℕ × Option Error → M ℕ
written (n, none) = return n
written (n, some err) = fail err

unfoldable pub write_file : Config → World → FileHandle → List ℕ → ℕ → M ℕ
unfolding written
write_file g w h bytes off s =
    let at = if has_flag h.flags o_append then (s.cache.store h.entry).size else off in
    (in_cache (on_entry h.entry (write_at (options g w s) w.os.write_file w.now bytes at)) >>= λ r.
    written r >>= λ n s'. (done n, note_write w h.path (s'.cache.store h.entry).size s'))
      s

unfoldable pub write : Config → World → Option FileHandle → List ℕ → ℕ → Op ℕ
unfolding write_file
write g w none bytes off = counted (writable g (fail (os_error ebadf)))
write g w (some h) bytes off = counted (writable g (write_file g w h bytes off))

-- The close of a descriptor. What was created and not written to waits for the release.
unfoldable pub flush_file : Config → World → Option FileHandle → Op (Unit {0})
flush_file g w none = counted (return tt)
flush_file g w (some h) = counted (λ s.
    let go = flush g w h.entry s in
    if untouched (s.cache.store h.entry)
    then (done tt, s)
    else if g.async_writeback
    then (done tt, s)
    else go)

unfoldable pub fsync : Config → World → Option FileHandle → Op (Unit {0})
fsync g w none = uncounted (return tt)
fsync g w (some h) = uncounted (flush g w h.entry)

unfoldable pub release : Config → World → Option FileHandle → Op (Unit {0})
release g w none s = (ok tt, s)
release g w (some h) s =
    let (r, s') = (if g.async_writeback then return tt else flush g w h.entry) s in
    uncounted (λ t. (r, t)) (on_cache (unref_entry h.entry) s')
