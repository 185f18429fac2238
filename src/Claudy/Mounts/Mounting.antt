-- ===== src/Claudy/Mounts/Mounting.antt =====
-- `mount` of claudy-p2p/cmd/claudy/main.go and the unmount of `stopConnect`, over how the commands of the
-- platform end.
use some_go_foolery.Base.{
  ◌≡◌, refl, Bool, true, false, Option, none, some, List, [], ◌∷◌, ◌++◌, All, if◌then◌else◌,
}
use some_go_foolery.Base.Bytes.{Bytes, bytes, has_prefix, str_eq}
use some_go_foolery.Claudy.Subprocess.{Subprocess, push_log_line}
use some_go_foolery.Claudy.App.{App, is_empty}
use some_go_foolery.Claudy.Mounts.{
  Os, darwin, windows, linux, other, trim_left, split_lines, parse_lines, parse_net_use_drive,
  mount_path, unmount_args,
}

pub data MountError : Type 0 where
  command_failed gio_not_found unsupported : MountError

-- The words of the log line before the path.
abbrev pub mounted_words : Os → Bytes
mounted_words windows = bytes "mounted as "
mounted_words _ = bytes "mounted at "

-- The path is recorded, and the log says so.
abbrev pub record_path : Os → Option Bytes → Subprocess → Option MountError × Subprocess
record_path os none sp = (some unsupported, sp)
record_path os (some path) sp =
    (none, push_log_line (mounted_words os ++ path) (record sp { mount_path = path }))

-- The end of the mount command: what it has printed, or nothing where it has failed.
abbrev pub ran :
    Os → Bytes → Bytes → Bytes → Option Bytes → Subprocess → Option MountError × Subprocess
ran os room addr uid none sp = (some command_failed, sp)
ran os room addr uid (some out) sp = record_path os (mount_path os room addr uid out) sp

-- `mount`, given whether gio is installed and the end of the mount command. The stale drives, which Windows
-- deletes before it, are in the parent module.
unfoldable pub mount :
    Os → Bytes → Bytes → Bytes → Bool → Option Bytes → Subprocess → Option MountError × Subprocess
mount linux room addr uid false result sp = (some gio_not_found, sp)
mount linux room addr uid true result sp = ran linux room addr uid result sp
mount darwin room addr uid gio result sp = ran darwin room addr uid result sp
mount windows room addr uid gio result sp = ran windows room addr uid result sp
mount other room addr uid gio result sp = (some unsupported, sp)

abbrev pub unmounts : Os → Option Subprocess → Option (List Bytes)
unmounts os none = none
unmounts os (some sp) =
    if is_empty sp.mount_path then none else some (unmount_args os sp.mount_path)

-- The arguments of the command that `stopConnect` runs to unmount, if it runs one.
unfoldable pub stop_connect_unmounts : Os → App → Option (List Bytes)
stop_connect_unmounts os a = unmounts os a.connect

-- The line does not start with the English word, after white space.
abbrev pub Foreign : Bytes → Type 0
Foreign line = has_prefix (trim_left line) (bytes "Drive ") ≡ false

no_drive : (lines : List Bytes) → All Foreign lines → parse_lines lines ≡ []
no_drive [] h = refl
no_drive (line ∷ lines) (f, h) = rw f (no_drive lines h)

-- Where no line that "net use" prints starts with "Drive ", as on a Windows in another language, the mount
-- reports no error and records no path, so that stopping the connection does not unmount the drive.
pub unnamed_mount_stays :
    (room addr uid out : Bytes) (gio : Bool) (sp : Subprocess) (a : App)
    → All Foreign (split_lines out)
    → let r = mount windows room addr uid gio (some out) sp in
      (r.0 ≡ none)
      × (r.1.mount_path ≡ [])
      × (stop_connect_unmounts windows (record a { connect = some r.1 }) ≡ none)
unfolding mount mount_path parse_net_use_drive push_log_line stop_connect_unmounts str_eq
unnamed_mount_stays room addr uid out gio sp a h =
    (refl, no_drive (split_lines out) h, rw (no_drive (split_lines out) h) refl)
