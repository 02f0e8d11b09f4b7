-- ===== src/Lib.antt =====
-- s3disk mounts an S3 bucket as a filesystem. This library models the parts that hold data and
-- answer the kernel: the cache of internal/cache, which keeps parts of objects in sparse local
-- files, fetches what is missing, and writes changed files back; the caches of internal/s3fs, which
-- answer for names and attributes without a request to the bucket; the operations of internal/s3fs
-- on both and on the bucket; the requests of internal/s3io that these make; and the way from a
-- command line to the settings of a mount in cmd/s3disk and internal/config, with the records of
-- live mounts in internal/ctl.
--
-- The parts and their modules:
--   * Prelude: Boolean tests, lists and signed integers over the native numbers.
--   * Bits: bits of words, for the bitmap.
--   * Bitmap (internal/cache/bitmap.go): which blocks of a file are local. `get`, `set`,
--     `set_range`, `clear`, `clear_from`, `count`, `bytes` and `bitmap_from_bytes` are the methods
--     of the same names. A word is a number below 2 ^ 64 with the wrap-around written out.
--   * OsFile: what the code uses of a sparse local file. Every operating-system call may fail
--     where the source tests its error: the answer is an argument of the operation.
--   * Entry (internal/cache/entry.go): one object. The record `Entry` has the fields of the
--     struct. Entry/Ensure is `ensure`, Entry/Access `ReadAt`, `WriteAt` and `Truncate`,
--     Entry/Upload `Flush` and Entry/Trim `trim`. `account`, `nblocks` and the options are those
--     of internal/cache/cache.go.
--   * Cache (internal/cache/cache.go): the entries by key, with `Open`, `Create`, `Rename`,
--     `Remove` and `Unref`. Cache/Writeback is `FlushAll`, `flushLoop`, `Stats`, `Close` and the
--     `Recover` of internal/cache/index.go, Cache/Evict is `evict`, and Cache/Index `saveIndex`,
--     `loadIndex` and `New`. An entry outlives its row while it is open, so entries have numbers:
--     the table holds the numbers, and a handle keeps one.
--   * Table: maps with text keys. Paths (internal/s3fs/fs.go, internal/s3fs/node.go and
--     internal/s3io/s3io.go): paths of the mount and keys of the bucket.
--   * Dirs (internal/s3fs/dircache.go) and Attrs (internal/s3fs/attr.go): what the mount remembers
--     of directories and of paths. The operations have the names of the methods. Attrs/Meta
--     (internal/s3fs/attr.go): the POSIX metadata of objects, over the numbers of Decimal.
--   * Config (internal/config/config.go): the settings that the filesystem reads. Config/Source is
--     `ParseS3URL` and `Describe`, with `TrimSpace` for the whitespace of Unicode, Config/Values
--     `ParseSize`, `ParseMode` and `ParseOwner`, and Config/Settings the struct with `Default` and
--     `Validate`.
--   * Command (cmd/s3disk/args.go and cmd/s3disk/mount.go): the words of a command line.
--     Command/Args is `permute` and the library's parser of flags, Command/Flags the flags of
--     `mount` with their variables, Command/Options the lists of `-o`, Command/Mount `runMount`,
--     `runMountHelper` and `checkMountpoint`.
--   * Control (internal/ctl/registry.go): the records of live mounts. Mounts
--     (internal/s3fs/mounted.go and internal/s3fs/mount.go): the mounts that the kernel lists, and
--     the options of a mount.
--   * Objects (internal/s3io/s3io.go): `Head`, `List`, `ListAll` and `Copy` over what the SDK
--     answers, and in Objects/Bodies `GetRange`, `GetAll`, `Put` and `Exists`. The answers to the
--     requests of one listing are a finite sequence of pages.
--   * Fs (internal/s3fs/fs.go and internal/s3fs/node.go): the state of a mount, the names that are
--     only local, `toErrno`. Fs/Stat is `stat`, Fs/Listing `listDir`, Fs/Upload `uploadObject` and
--     `onUploaded`, Fs/Rename `rename` and `persistMetadata`.
--   * Node (internal/s3fs/node.go and internal/s3fs/file.go): what the kernel asks of a mount.
--     Node/Files has the operations on open files, Node/Names those on names, Node/Attributes
--     `Getattr`, `Setattr` and `Statfs`. Node/Steps is a run of a mount: operations in any order,
--     and between them background flushes, evictions and refreshes.
--   * Batches (internal/s3io/s3io.go): the requests of `DeleteMulti`, on fuel for each key, which
--     is enough because every request names a key. Multipart (the same file): `copyMultipart`, on
--     fuel for each byte, which is enough because every range has a byte.
--   * Tests, MountTests, FsTests and CommandTests: runs on small inputs, and for each theorem with
--     conditions an input that meets them.
--
-- An operation takes the entry and the counters of the cache and returns a result, a new entry and
-- new counters, also where it fails. The bucket is the pair of functions `fetch` and `upload` of the
-- options, as in the source; `Serves` states what is relied on of a ranged GET, and only the length
-- is relied on of what it streams when it reports an error or a wrong count. The file that an entry
-- stands for is `view`: local bytes where a block is present, the bytes of the object elsewhere.
--
-- Loops are structural: over the words of a bitmap, and over a number of rounds computed before the
-- loop starts. `fetch_loop` runs on fuel, one round for each block of the range, and each round
-- passes at least one block; `ones_loop` has 64 rounds, one for each bit. Both are shown to be
-- enough.
--
-- An operation of Fs and Node takes the settings and a `World`: the clock, the caller, and the
-- answers of the bucket and the operating system. What the bucket answers may depend on the requests
-- that changed it before, which the state records where the bucket took them. Errors are those of
-- the source, and `reply` turns them into their numbers.
--
-- The clock is an argument, and stands still during an operation of Fs and Node. Go visits the keys
-- of a map in any order: a loop that may stop early takes the order as an argument, and `Covers`
-- says that it misses no key.
--
-- Each operation runs on its own: calls of other goroutines between its critical sections, and the
-- background readahead `Prefetch`, are not modelled; what the source does in parallel, as the copies
-- of a renamed directory, runs in turn. Sizes and offsets are numbers without the overflow of int64,
-- and times count from 1970 on. The formatting of error messages and logs is left out, and so are
-- the content types of uploads. The index and the records of mounts stand for what decoding their
-- JSON gives. Go writes bytes that are no UTF-8 as U+FFFD there, so what is read back of what was
-- written is an argument, and Utf8 says which texts are kept. Floating-point numbers are an
-- interface. Not modelled: that a deleted entry that is still open shares its file with a new entry
-- of the same key; the start of a mount and its status, and the kernel's caches (the rest of
-- internal/s3fs/fs.go); the uploader of the SDK, and how internal/s3io sets it up; the background
-- process, the logs and the signals of cmd/s3disk, the commands but `mount`, which print, and the
-- control socket, which is HTTP.
pub mod Prelude
pub mod Bits
pub mod Bitmap
pub mod OsFile
pub mod Utf8
pub mod Table
pub mod Entry
pub mod Paths
pub mod Cache
pub mod Dirs
pub mod Batches
pub mod Multipart
pub mod Attrs
pub mod Decimal
pub mod Mounts
pub mod Control
pub mod Command
pub mod Config
pub mod Objects
pub mod Fs
pub mod Node
mod Tests
mod MountTests
mod FsTests
mod CommandTests
