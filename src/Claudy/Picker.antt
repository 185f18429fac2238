-- ===== src/Claudy/Picker.antt =====
-- The choice of a folder in claudy-p2p/cmd/claudy/main.go: what the dialog of each platform returns becomes a
-- folder or an error, and that the answer of /api/pick-dir.
use some_go_foolery.Base.{
  ℕ, ◌≡◌, ◌≢◌, inl, inr, Bool, false, ◌&&◌, Option, none, some, [], ◌∷◌, if◌then◌else◌, Bool-cases,
  arith,
}
use some_go_foolery.Base.Bytes.{Bytes, bytes, contains, str_eq, str_eq_iff}
use some_go_foolery.Claudy.Mounts.{Os, darwin, windows, linux, other, is_space, trim_left}

-- How a command ends: its output, an exit with its error output, or no start at all.
pub data Ran : Type 0 where
  output : Bytes → Ran
  exit_error : Bytes → Ran
  not_started : Ran

pub data Picked : Type 0 where
  folder : Bytes → Picked
  canceled unavailable failed : Picked

abbrev pub is_empty : Bytes → Bool
is_empty s = str_eq s []

unfoldable pub trim_right : Bytes → Bytes
trim_right [] = []
trim_right (c ∷ s) = let rest = trim_right s in if is_empty rest && is_space c then [] else c ∷ rest

-- `strings.TrimSpace` on the spaces of ASCII.
abbrev pub trim_space : Bytes → Bytes
trim_space s = trim_right (trim_left s)

unfoldable pub pick_folder_darwin : Ran → Picked
pick_folder_darwin (output out) = folder (trim_space out)
pick_folder_darwin (exit_error stderr) =
    if contains stderr (bytes "User canceled") then canceled else failed
pick_folder_darwin not_started = failed

abbrev pub or_canceled : Bytes → Picked
or_canceled path = if is_empty path then canceled else folder path

unfoldable pub pick_folder_windows : Ran → Picked
pick_folder_windows (output out) = or_canceled (trim_space out)
pick_folder_windows (exit_error stderr) = failed
pick_folder_windows not_started = failed

-- A dialog of Linux, which is canceled by any error.
abbrev pub dialog : Ran → Picked
dialog (output out) = or_canceled (trim_space out)
dialog (exit_error stderr) = canceled
dialog not_started = canceled

-- Each of zenity and kdialog is installed or not, and ends in some way.
unfoldable pub pick_folder_linux : Option Ran → Option Ran → Picked
pick_folder_linux (some zenity) kdialog = dialog zenity
pick_folder_linux none (some kdialog) = dialog kdialog
pick_folder_linux none none = unavailable

-- `pickFolder`, given the run of the dialog and of the second one on Linux.
unfoldable pub pick_folder : Os → Option Ran → Option Ran → Picked
pick_folder darwin (some run) second = pick_folder_darwin run
pick_folder darwin none second = failed
pick_folder windows (some run) second = pick_folder_windows run
pick_folder windows none second = failed
pick_folder linux first second = pick_folder_linux first second
pick_folder other first second = unavailable

-- The answer of /api/pick-dir: its code, and the folder of a success.
abbrev pub picked_answer : Picked → ℕ × Option Bytes
picked_answer (folder path) = (200, some path)
picked_answer canceled = (204, none)
picked_answer unavailable = (500, none)
picked_answer failed = (500, none)

unfoldable pub pick_dir_route : Bool → Os → Option Ran → Option Ran → ℕ × Option Bytes
pick_dir_route post os first second =
    if post then picked_answer (pick_folder os first second) else (405, none)

abbrev NotEmpty : Picked → Type 0
NotEmpty (folder path) = path ≢ []
NotEmpty p = Unit

or_canceled-NotEmpty : (path : Bytes) → NotEmpty (or_canceled path)
or_canceled-NotEmpty path = elim (Bool-cases (is_empty path)) [
  | inl empty ↦ rw empty tt
  | inr some_bytes ↦ rw some_bytes (λ e. differ e some_bytes)
]
  where
    differ : path ≡ [] → str_eq path [] ≡ false → ⊥
    differ e h = ground (arith, str_eq_iff path [])

dialog-NotEmpty : (r : Ran) → NotEmpty (dialog r)
dialog-NotEmpty (output out) = or_canceled-NotEmpty (trim_space out)
dialog-NotEmpty (exit_error stderr) = tt
dialog-NotEmpty not_started = tt

-- On Windows and Linux no empty folder is picked, whatever the dialogs print.
pick_folder-NotEmpty :
    (first second : Option Ran)
    → NotEmpty (pick_folder windows first second) × NotEmpty (pick_folder linux first second)
unfolding pick_folder pick_folder_windows pick_folder_linux
pick_folder-NotEmpty none none = (tt, tt)
pick_folder-NotEmpty none (some kdialog) = (tt, dialog-NotEmpty kdialog)
pick_folder-NotEmpty (some (output out)) second =
    (or_canceled-NotEmpty (trim_space out), dialog-NotEmpty (output out))
pick_folder-NotEmpty (some (exit_error stderr)) second = (tt, tt)
pick_folder-NotEmpty (some not_started) second = (tt, tt)
