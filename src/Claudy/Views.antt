-- ===== src/Claudy/Views.antt =====
-- What claudy-p2p/cmd/claudy/main.go shows of its state: the status of /api/status and the text of /api/logs.
-- Both list the slots in the order in which a range over the map yields them, which is an argument.
pub mod Dump
use some_go_foolery.Base.{
  ℕ, ◌≡◌, Bool, true, false, ◌||◌, not, Option, none, some, List, [], ◌∷◌, ◌++◌, if◌then◌else◌,
}
use some_go_foolery.Base.Bytes.{Bytes, bytes}
use some_go_foolery.Claudy.Subprocess.{Subprocess, Status, snapshot, all_logs}
use some_go_foolery.Claudy.App.{App, is_empty}

pub record SlotInfo : Type 0 where
  pub room : Bytes
  pub state : Status
  pub uptime_secs : ℕ
  pub recent_logs : List Bytes

pub record ConnectInfo : Type 0 where
  pub room : Bytes
  pub state : Status
  pub mount_path : Bytes
  pub uptime_secs : ℕ
  pub recent_logs : List Bytes

pub record ShareInfo : Type 0 where
  pub dir : Bytes
  pub slots : List SlotInfo

-- The type `Status` of the source.
pub record AppStatus : Type 0 where
  pub share : Option ShareInfo
  pub connect : Option ConnectInfo
  pub force_relay : Bool

abbrev pub slot_info : ℕ → Subprocess → SlotInfo
slot_info now sp =
    let (state, up, logs, path) = snapshot now sp in
    record { room = sp.room; state = state; uptime_secs = up; recent_logs = logs }

abbrev pub slot_infos : ℕ → List Subprocess → List SlotInfo
slot_infos now [] = []
slot_infos now (sp ∷ slots) = slot_info now sp ∷ slot_infos now slots

abbrev pub connect_info : ℕ → Option Subprocess → Option ConnectInfo
connect_info now none = none
connect_info now (some sp) =
    let (state, up, logs, path) = snapshot now sp in
    some (record {
      room = sp.room;
      state = state;
      mount_path = path;
      uptime_secs = up;
      recent_logs = logs;
    })

abbrev pub no_slots : List Subprocess → Bool
no_slots [] = true
no_slots (sp ∷ slots) = false

-- `snapshot`.
unfoldable pub app_snapshot : ℕ → List Subprocess → App → AppStatus
app_snapshot now slots a = record {
  share =
      if not (is_empty a.share_dir) || not (no_slots slots)
      then some (record { dir = a.share_dir; slots = slot_infos now slots })
      else none;
  connect = connect_info now a.connect;
  force_relay = a.force_relay;
}

abbrev pub newline : Bytes
newline = bytes "\n"

-- Each line with its newline.
abbrev pub text_of : List Bytes → Bytes
text_of [] = []
text_of (l ∷ ls) = l ++ (newline ++ text_of ls)

abbrev pub connect_title : Bytes → Bytes
connect_title room = bytes "=== Connect (room: " ++ (room ++ bytes ") ===")

abbrev pub slot_title : Bytes → Bytes
slot_title room = bytes "--- slot room: " ++ (room ++ bytes " ---")

-- The three bytes are the dash in the text.
abbrev pub share_title : Bytes → Bytes
share_title dir =
    bytes "=== Share " ++ (0xE2 ∷ 0x80 ∷ 0x94 ∷ bytes " folder: ") ++ (dir ++ bytes " ===")

abbrev pub connect_dump : Option Subprocess → Bytes
connect_dump none = []
connect_dump (some sp) = text_of (connect_title sp.room ∷ all_logs sp) ++ newline

abbrev pub slots_dump : List Subprocess → Bytes
slots_dump [] = []
slots_dump (sp ∷ slots) =
    text_of (slot_title sp.room ∷ all_logs sp) ++ (newline ++ slots_dump slots)

abbrev pub share_dump : List Subprocess → Bytes → Bytes
share_dump slots dir =
    if not (is_empty dir) || not (no_slots slots)
    then text_of (share_title dir ∷ [] ∷ []) ++ slots_dump slots
    else []

abbrev pub none_dump : Option Subprocess → List Subprocess → Bytes
none_dump none [] = text_of (bytes "(no active sessions)" ∷ [])
none_dump _ _ = []

-- The text of /api/logs behind its first lines, which name the time and the system.
unfoldable pub log_dump : List Subprocess → App → Bytes
log_dump slots a =
    connect_dump a.connect ++ (share_dump slots a.share_dir ++ none_dump a.connect slots)
