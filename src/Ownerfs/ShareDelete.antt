-- ===== src/Ownerfs/ShareDelete.antt =====
-- The directory that claudy-p2p/internal/ownerfs/share_delete_windows.go serves on Windows, the one method
-- that it does not leave to webdav.Dir. Paths are written with slashes for the separator of the system and
-- without the name of the volume, which `filepath.Join` leaves alone.
pub mod Escape
pub mod Modes
use some_go_foolery.Base.{
  ℕ, ◌≡◌, Bool, true, false, ◌&&◌, ◌||◌, Option, none, some, List, [], ◌∷◌, ◌++◌, ◌==◌,
  if◌then◌else◌,
}
use some_go_foolery.Base.Bytes.{Bytes}
use some_go_foolery.Base.Paths.{slash, dot, join, is_rooted}

abbrev pub backslash : ℕ
backslash = 92

abbrev pub has_byte : ℕ → Bytes → Bool
has_byte b [] = false
has_byte b (c ∷ s) = c == b || has_byte b s

-- `slashClean`.
unfoldable pub slash_clean : Bytes → Bytes
slash_clean name = if is_rooted name then name else slash ∷ name

abbrev pub root_or_dot : Bytes → Bytes
root_or_dot [] = dot
root_or_dot (c ∷ s) = c ∷ s

-- `resolve`, or none for its empty string. The Join of two texts that are not empty is that of package path.
unfoldable pub resolve : Bytes → Bytes → Option Bytes
resolve root name =
    if has_byte backslash name
    then none
    else if has_byte 0 name
    then none
    else some (join (root_or_dot root) (slash_clean name))

-- The bits of the flag argument that `OpenFile` tests.
pub record Flags : Type 0 where
  pub wronly : Bool
  pub rdwr : Bool
  pub append : Bool
  pub create : Bool
  pub excl : Bool
  pub trunc : Bool

-- The GENERIC bits of the access.
pub record Access : Type 0 where
  pub read : Bool
  pub write : Bool

abbrev pub base_access : Flags → Access
base_access f =
    if f.wronly
    then record { read = false; write = true }
    else if f.rdwr
    then record { read = true; write = true }
    else record { read = true; write = false }

unfoldable pub access : Flags → Access
access f = if f.append then record (base_access f) { write = true } else base_access f

pub data Disposition : Type 0 where
  create_new create_always open_always truncate_existing open_existing : Disposition

unfoldable pub disposition : Flags → Disposition
disposition f =
    if f.create && f.excl
    then create_new
    else if f.create && f.trunc
    then create_always
    else if f.create
    then open_always
    else if f.trunc
    then truncate_existing
    else open_existing

pub data Attributes : Type 0 where
  normal backup_semantics : Attributes

-- What the calls give: whether the path has a form for the system, whether Stat says that it is a directory,
-- whether CreateFile opens, whether NewFile takes the handle, and whether Seek works.
pub record Calls : Type 0 where
  pub encodes : Bool
  pub is_dir : Bool
  pub opens : Bool
  pub wraps : Bool
  pub seeks : Bool

pub data Error : Type 0 where
  not_exist bad_path open_failed nil_file seek_failed : Error

-- How CreateFile is called; its share mode is always that of read, write and delete together.
pub record CreateFile : Type 0 where
  pub path : Bytes
  pub access : Access
  pub disposition : Disposition
  pub attributes : Attributes

-- `call` is the CreateFile that was made; `held` says that its handle is open at the end; `at_end` that the
-- file is positioned at its end.
pub record Opened : Type 0 where
  pub error : Option Error
  pub call : Option CreateFile
  pub held : Bool
  pub at_end : Bool

abbrev pub failed : Error → Option CreateFile → Opened
failed e call = record { error = some e; call = call; held = false; at_end = false }

abbrev pub after_create : Flags → Calls → CreateFile → Opened
after_create f c call =
    if c.opens
    then if c.wraps
      then if f.append
        then if c.seeks
          then record { error = none; call = some call; held = true; at_end = true }
          else failed seek_failed (some call)
        else record { error = none; call = some call; held = true; at_end = false }
      else failed nil_file (some call)
    else failed open_failed (some call)

abbrev pub open_path : Flags → Calls → Option Bytes → Opened
open_path f c none = failed not_exist none
open_path f c (some full) =
    if c.encodes
    then after_create f c (record {
      path = full;
      access = access f;
      disposition = disposition f;
      attributes = if c.is_dir then backup_semantics else normal;
    })
    else failed bad_path none

-- `OpenFile`.
unfoldable pub open_file : Bytes → Bytes → Flags → Calls → Opened
open_file root name f c = open_path f c (resolve root name)
