-- ===== src/Control.antt =====
-- internal/ctl/registry.go: the records of live mounts. The directory is a table by file name of the
-- records that decoding the JSON of the file gives; what the JSON library makes of a record that is
-- written and read again, the order in which the directory is read, which sockets answer and
-- `filepath.Abs` are arguments. A file that is no readable record is no row.
pub mod Registered
use remote_s3_bucket_plugin.Table.{Text, text_eq, has_prefix, lookup, store, erase}
use remote_s3_bucket_plugin.Paths.{trim_prefix}
use remote_s3_bucket_plugin.Config.Source.{is_empty}
use remote_s3_bucket_plugin.Config.Settings.{Environment, flat_name}
use remote_s3_bucket_plugin.Prelude.{
  ℕ, ◌-◌, ◌/◌, Bool, false, not, Option, none, some, List, [], ◌∷◌, ◌++◌, ◌==◌, if◌then◌else◌,
  codes,
}

pub record MountEntry : Type 0 where
  pub mountpoint : Text
  pub bucket : Text
  pub prefix : Text
  pub cache_dir : Text
  pub socket : Text
  pub pid : ℕ
  pub started : ℕ

abbrev pub Registry : Type 0
Registry = List (Text × MountEntry)

-- `strings.ReplaceAll(s, "/", "-")`.
unfoldable pub dashed : Text → Text
dashed [] = []
dashed (x ∷ xs) = (if x == 47 then 45 else x) ∷ dashed xs

-- The name of the file in the directory of the registry.
unfoldable pub registry_file : Text → Text
unfolding dashed trim_prefix
registry_file abs =
    let name = dashed (trim_prefix abs (47 ∷ [])) in
    (if is_empty name then codes "root" else name) ++ codes ".json"

-- `made` is whether `/run/s3disk` could be made.
unfoldable pub registry_dir : Environment → Bool → Text → Text
registry_dir env made temp_dir =
    if not (is_empty (env.get (codes "S3DISK_RUN_DIR")))
    then env.get (codes "S3DISK_RUN_DIR")
    else if not (is_empty (env.get (codes "XDG_RUNTIME_DIR")))
    then env.get (codes "XDG_RUNTIME_DIR") ++ codes "/s3disk"
    else if made
    then codes "/run/s3disk"
    else temp_dir ++ codes "/s3disk"

-- `reread` is what decoding gives of the JSON of a record, and `written` is whether the directory and
-- the file could be written.
unfoldable pub register :
    (MountEntry → MountEntry) → (Text → Text) → Bool → MountEntry → Registry → Registry
unfolding registry_file
register reread abs written e reg =
    if written then store (registry_file (abs e.mountpoint)) (reread e) reg else reg

unfoldable pub deregister : (Text → Text) → Text → Registry → Registry
unfolding registry_file
deregister abs mountpoint reg = erase (registry_file (abs mountpoint)) reg

abbrev pub answers : (Text → Bool) → Text → Bool
answers dial socket = if is_empty socket then false else dial socket

abbrev pub add_live : MountEntry → List MountEntry × Registry → List MountEntry × Registry
add_live e (live, reg) = (e ∷ live, reg)

-- The live mounts, and the registry without the records of dead ones.
unfoldable pub list_mounts : (Text → Bool) → List Text → Registry → List MountEntry × Registry
unfolding lookup
list_mounts dial [] reg = ([], reg)
list_mounts dial (name ∷ names) reg =
    let rest = list_mounts dial names reg in
    let pruned = list_mounts dial names (erase name reg) in
    elim (lookup name reg) [
      | none ↦ rest
      | some e ↦ if answers dial e.socket then add_live e rest else pruned
    ]

unfoldable pub find_exact : Text → List MountEntry → Option MountEntry
find_exact abs [] = none
find_exact abs (e ∷ es) =
    let rest = find_exact abs es in if text_eq e.mountpoint abs then some e else rest

unfoldable pub find_inside : Text → List MountEntry → Option MountEntry
find_inside abs [] = none
find_inside abs (e ∷ es) =
    let rest = find_inside abs es in
    if has_prefix abs (e.mountpoint ++ 47 ∷ []) then some e else rest

-- Without a path, the only mount.
abbrev pub only_mount : List MountEntry → Option MountEntry
only_mount (e ∷ []) = some e
only_mount _ = none

unfoldable pub find_in : (Text → Text) → Text → List MountEntry → Option MountEntry
unfolding find_exact find_inside
find_in abs path entries =
    let found : Option MountEntry = elim (find_exact (abs path) entries) [
      | some e ↦ some e
      | none ↦ find_inside (abs path) entries
    ] in
    if is_empty path then only_mount entries else found

unfoldable pub find :
    (Text → Text) → (Text → Bool) → List Text → Text → Registry → Option MountEntry × Registry
unfolding list_mounts find_in
find abs dial names path reg =
    let (entries, reg') = list_mounts dial names reg in (find_in abs path entries, reg')
