-- ===== src/Claudy/Mounts.antt =====
-- Mounting and unmounting in claudy-p2p/cmd/claudy/main.go: the commands that are run and the text that
-- they print. The commands themselves belong to the platform. Texts are ASCII.
pub mod Unmount
pub mod Drives
pub mod Mounting
use some_go_foolery.Base.{
  ℕ, suc, ◌+◌, ◌≡◌, Bool, true, false, ◌&&◌, ◌||◌, Option, none, some, List, [], ◌∷◌, ◌++◌, map,
  leb, ◌==◌, if◌then◌else◌, length, drop,
}
use some_go_foolery.Base.Bytes.{Bytes, bytes, str_eq, has_prefix, contains}

pub data Os : Type 0 where
  darwin windows linux other : Os

-- `strings.Cut(s, sep)`, where the separator is found; it is not empty.
abbrev pub cons_cut : ℕ → Option (Bytes × Bytes) → Option (Bytes × Bytes)
cons_cut c none = none
cons_cut c (some (before, after)) = some (c ∷ before, after)

unfoldable pub cut : Bytes → Bytes → Option (Bytes × Bytes)
cut sep [] = none
cut sep (c ∷ s) =
    let later = cons_cut c (cut sep s) in
    if has_prefix (c ∷ s) sep then some ([], drop (length sep) (c ∷ s)) else later

-- The first two results of `strings.Cut`, in any case.
abbrev pub cut_or_all : Bytes → Option (Bytes × Bytes) → Bytes × Bytes
cut_or_all s none = (s, [])
cut_or_all s (some r) = r

abbrev pub is_space : ℕ → Bool
is_space c = c == 32 || (leb 9 c && leb c 13)

-- The words of a text, given the one that is being read.
abbrev pub end_word : Bytes → List Bytes → List Bytes
end_word [] words = words
end_word (c ∷ w) words = (c ∷ w) ∷ words

unfoldable pub words_from : Bytes → Bytes → List Bytes
words_from w [] = end_word w []
words_from w (c ∷ s) =
    let ended = end_word w (words_from [] s) in
    let longer = words_from (w ++ c ∷ []) s in if is_space c then ended else longer

-- `strings.Fields`.
abbrev pub fields : Bytes → List Bytes
fields s = words_from [] s

unfoldable pub trim_left : Bytes → Bytes
trim_left [] = []
trim_left (c ∷ s) = if is_space c then trim_left s else c ∷ s

-- `strings.Split(s, "\n")`.
abbrev pub cons_line : ℕ → List Bytes → List Bytes
cons_line c [] = (c ∷ []) ∷ []
cons_line c (l ∷ ls) = (c ∷ l) ∷ ls

unfoldable pub split_lines : Bytes → List Bytes
split_lines [] = [] ∷ []
split_lines (c ∷ s) = let rest = split_lines s in if c == 10 then [] ∷ rest else cons_line c rest

-- The second word of a line, if there is one.
abbrev pub second : List Bytes → Option Bytes
second [] = none
second (a ∷ []) = none
second (a ∷ b ∷ ws) = some b

-- The second word of a line that starts with "Drive ", after white space. White space at the end of a line
-- makes no difference: a line with two words has its space before the second.
abbrev pub drive_of : Bytes → Option Bytes
drive_of line = if has_prefix (trim_left line) (bytes "Drive ") then second (fields line) else none

abbrev pub first_drive : Option Bytes → Bytes → Bytes
first_drive none later = later
first_drive (some d) later = d

abbrev pub parse_lines : List Bytes → Bytes
parse_lines [] = []
parse_lines (line ∷ lines) = first_drive (drive_of line) (parse_lines lines)

-- `parseNetUseDrive`.
unfoldable pub parse_net_use_drive : Bytes → Bytes
parse_net_use_drive s = parse_lines (split_lines s)

-- The path that `mount` records, given the room, the local address, the number of the user as a text, and
-- what the command has printed.
unfoldable pub mount_path : Os → Bytes → Bytes → Bytes → Bytes → Option Bytes
mount_path darwin room addr uid out = some (bytes "/tmp/claudy-" ++ room)
mount_path windows room addr uid out = some (parse_net_use_drive out)
mount_path linux room addr uid out =
    let hp = cut_or_all addr (cut (bytes ":") addr) in
    some (
      bytes "/run/user/"
      ++ (uid ++ (bytes "/gvfs/dav:host=" ++ (hp.0 ++ (bytes ",port=" ++ hp.1)))))
mount_path other room addr uid out = none

-- The URL that is mounted.
unfoldable pub mount_url : Os → Bytes → Bytes
mount_url linux addr = bytes "dav://" ++ (addr ++ bytes "/")
mount_url _ addr = bytes "http://" ++ (addr ++ bytes "/")

abbrev pub by_url : Bytes → Option (Bytes × Bytes) → List Bytes
by_url path none = bytes "mount" ∷ bytes "-u" ∷ path ∷ []
by_url path (some (host, port)) =
    bytes "mount"
    ∷ bytes "-u"
    ∷ (bytes "dav://" ++ (host ++ (bytes ":" ++ (port ++ bytes "/"))))
    ∷ []

abbrev pub by_host : Bytes → Option (Bytes × Bytes) → List Bytes
by_host path none = bytes "mount" ∷ bytes "-u" ∷ path ∷ []
by_host path (some (before, rest)) = by_url path (cut (bytes ",port=") rest)

unfoldable pub unmount_args : Os → Bytes → List Bytes
unmount_args windows path = bytes "use" ∷ path ∷ bytes "/delete" ∷ bytes "/y" ∷ []
unmount_args linux path = by_host path (cut (bytes "dav:host=") path)
unmount_args darwin path = path ∷ []
unmount_args other path = path ∷ []

abbrev pub is_letter : ℕ → Bool
is_letter c = (leb b'A' c && leb c b'Z') || (leb b'a' c && leb c b'z')

-- A letter and a colon.
abbrev pub is_drive : Bytes → Bool
is_drive [] = false
is_drive (c ∷ []) = false
is_drive (c ∷ d ∷ []) = is_letter c && d == b':'
is_drive (c ∷ d ∷ e ∷ s) = false

abbrev pub find_drive : List Bytes → Option Bytes
find_drive [] = none
find_drive (w ∷ ws) = let later = find_drive ws in if is_drive w then some w else later

abbrev pub cons_drive : Option Bytes → List Bytes → List Bytes
cons_drive none ds = ds
cons_drive (some d) ds = d ∷ ds

abbrev pub stale_in : List Bytes → List Bytes
stale_in [] = []
stale_in (line ∷ lines) =
    let later = stale_in lines in
    if contains line (bytes "127.0.0.1") then cons_drive (find_drive (fields line)) later else later

-- The drives that `cleanStaleClaudyDrives` deletes, given what "net use" prints.
unfoldable pub stale_drives : Bytes → List Bytes
stale_drives out = stale_in (split_lines out)
