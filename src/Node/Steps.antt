-- ===== src/Node/Steps.antt =====
-- Runs of a mount: the operations of internal/s3fs/node.go, each with its own surroundings, and between
-- them the control socket's `Refresh` and what the cache does by itself.
pub mod ReadOnly
use remote_s3_bucket_plugin.Table.{Text}
use remote_s3_bucket_plugin.Entry.{Error}
use remote_s3_bucket_plugin.Cache.Evict.{evict}
use remote_s3_bucket_plugin.Config.{Config}
use remote_s3_bucket_plugin.Fs.{World, Fs, on_cache, refresh}
use remote_s3_bucket_plugin.Fs.Upload.{options, flush}
use remote_s3_bucket_plugin.Node.{FileHandle}
use remote_s3_bucket_plugin.Node.Attributes.{get_attr, SetAttrIn, set_attr, statfs}
use remote_s3_bucket_plugin.Node.Files.{
  open_path, create, mknod, read, write, flush_file, fsync, release,
}
use remote_s3_bucket_plugin.Node.Names.{
  lookup_name, readdir, mkdir, rmdir, unlink, symlink, readlink, rename,
}
use remote_s3_bucket_plugin.Prelude.{ℕ, Option, List}

pub data Event : Type 0 where
  on_lookup : Text → Text → Event
  on_getattr : Text → Option FileHandle → Event
  on_setattr : Text → Option FileHandle → SetAttrIn → Event
  on_readdir : Text → Event
  on_open : Text → ℕ → Event
  on_create : Text → Text → ℕ → ℕ → Event
  on_mknod : Text → Text → ℕ → Event
  on_read : Option FileHandle → ℕ → ℕ → Event
  on_write : Option FileHandle → List ℕ → ℕ → Event
  on_flush : Option FileHandle → Event
  on_fsync : Option FileHandle → Event
  on_release : Option FileHandle → Event
  on_mkdir : Text → Text → ℕ → Event
  on_rmdir : Text → Text → Event
  on_unlink : Text → Text → Event
  on_symlink : Text → Text → Text → Event
  on_readlink : Text → Event
  on_rename : Text → Text → Option Text → Text → ℕ → Event
  on_statfs : Event
  on_refresh : Event
  on_background_flush : ℕ → Event
  on_evict : (ℕ → ℕ → Option Error) → Event

-- The state after an event.
unfoldable pub after : Config → World → Event → Fs → Fs
after g w (on_lookup dir name) s = (lookup_name g w dir name s).1
after g w (on_getattr p fh) s = (get_attr g w p fh s).1
after g w (on_setattr p fh i) s = (set_attr g w p fh i s).1
after g w (on_readdir p) s = (readdir g w p s).1
after g w (on_open p flags) s = (open_path g w p flags s).1
after g w (on_create dir name flags mode) s = (create g w dir name flags mode s).1
after g w (on_mknod dir name mode) s = (mknod g w dir name mode s).1
after g w (on_read fh n off) s = (read g w fh n off s).1
after g w (on_write fh bytes off) s = (write g w fh bytes off s).1
after g w (on_flush fh) s = (flush_file g w fh s).1
after g w (on_fsync fh) s = (fsync g w fh s).1
after g w (on_release fh) s = (release g w fh s).1
after g w (on_mkdir dir name mode) s = (mkdir g w dir name mode s).1
after g w (on_rmdir dir name) s = (rmdir g w dir name s).1
after g w (on_unlink dir name) s = (unlink g w dir name s).1
after g w (on_symlink dir target name) s = (symlink g w dir target name s).1
after g w (on_readlink p) s = (readlink g w p s).1
after g w (on_rename dir name parent new_name flags) s =
    (rename g w dir name parent new_name flags s).1
after g w on_statfs s = (statfs s).1
after g w on_refresh s = refresh s
after g w (on_background_flush id) s = (flush g w id s).1
after g w (on_evict io) s = on_cache (evict (options g w s) io) s

-- The states that a mount can get to.
pub data Reaches (g : Config) (s : Fs) : Fs → Type 0 where
  stay : Reaches g s s
  step : {t : Fs} → Reaches g s t → (w : World) (e : Event) → Reaches g s (after g w e t)
