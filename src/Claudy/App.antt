-- ===== src/Claudy/App.antt =====
-- The appState of claudy-p2p/cmd/claudy/main.go. An operation is its critical sections and what it does
-- between and after them, with no other request in between; Races takes them apart. The arguments of the
-- commands that are started are left out.
pub mod Kills
pub mod Owned
pub mod Commands
pub mod Races
use some_go_foolery.Base.{
  ℕ, zero, suc, ◌≡◌, ◌⊎◌, inl, inr, Bool, true, false, ◌&&◌, ◌||◌, Option, none, some, List, [],
  ◌∷◌, ◌++◌, if◌then◌else◌, ◌==◌,
}
use some_go_foolery.Base.Bytes.{Bytes, bytes, str_eq}
use some_go_foolery.Base.Dict.{Dict, lookup, insert, remove}
use some_go_foolery.Claudy.Subprocess.{Subprocess, Status, starting, launch, stop, child_exited}

pub record App : Type 0 where
  pub connect : Option Subprocess
  pub share_dir : Bytes
  pub slots : Dict Subprocess
  pub force_relay : Bool

abbrev pub new_app_state : App
new_app_state = record { connect = none; share_dir = []; slots = []; force_relay = false }

pub data Error : Type 0 where
  dir_required resolve_dir not_a_directory no_folder spawn_failed already_connected room_required :
      Error

-- What the operations change: the state, and the children that run.
pub record World : Type 0 where
  pub app : App
  pub running : List ℕ

abbrev pub is_empty : Bytes → Bool
is_empty s = str_eq s []

-- What `filepath.Abs` returns, and whether that is a directory.
abbrev pub resolved : Option Bytes → Bool → World → Option Error × World
resolved none is_dir w = (some resolve_dir, w)
resolved (some path) is_dir w =
    if is_dir
    then (none, record w { app = record w.app { share_dir = path } })
    else (some not_a_directory, w)

unfoldable pub start_share : Bytes → Option Bytes → Bool → World → Option Error × World
start_share dir abs is_dir w =
    if is_empty dir then (some dir_required, w) else resolved abs is_dir w

-- The signal to a child: it no longer runs.
unfoldable pub kill : Option ℕ → List ℕ → List ℕ
kill none running = running
kill (some n) [] = []
kill (some n) (m ∷ ms) = let rest = kill (some n) ms in if n == m then rest else m ∷ rest

abbrev pub kill_all : Dict Subprocess → List ℕ → List ℕ
kill_all [] running = running
kill_all ((room, sp) ∷ slots) running = kill_all slots (kill (stop sp).0 running)

abbrev pub new_viewer : Bytes → Bytes → ℕ → Subprocess
new_viewer room dir now = record {
  room = room;
  dir = dir;
  local_addr = [];
  started = now;
  cmd = none;
  mount_path = [];
  log_lines = [];
  last_status = starting;
}

-- The last critical section of `addViewer`.
unfoldable pub put_slot : Bytes → Subprocess → App → App
put_slot room sp a = record a { slots = insert room sp a.slots }

-- `addViewer`, given the random room, the time, and the child that Start yields.
abbrev pub spawned : Bytes → ℕ → Option ℕ → World → (Error ⊎ Bytes) × World
spawned room now none w = (inl spawn_failed, w)
spawned room now (some n) w = (
  inr room,
  record {
    app = put_slot room (launch n (new_viewer room w.app.share_dir now)) w.app;
    running = n ∷ w.running;
  },
)

unfoldable pub add_viewer : Bytes → ℕ → Option ℕ → World → (Error ⊎ Bytes) × World
add_viewer room now start w =
    if is_empty w.app.share_dir then (inl no_folder, w) else spawned room now start w

abbrev pub stop_slot : Option Subprocess → List ℕ → List ℕ
stop_slot none running = running
stop_slot (some sp) running = kill (stop sp).0 running

-- The critical section of `removeViewer`; the child is stopped after it.
abbrev pub take_viewer : Bytes → World → World
take_viewer room w = record w { app = record w.app { slots = remove room w.app.slots } }

unfoldable pub remove_viewer : Bytes → World → World
remove_viewer room w =
    let taken = lookup room w.app.slots in
    let after = take_viewer room w in record after { running = stop_slot taken after.running }

-- The critical section of `stopShare`; the children are stopped after it.
abbrev pub take_share : World → World
take_share w = record w { app = record w.app { slots = []; share_dir = [] } }

unfoldable pub stop_share : World → World
stop_share w =
    let taken = w.app.slots in
    let after = take_share w in record after { running = kill_all taken after.running }

abbrev pub new_client : Bytes → Bytes → ℕ → Subprocess
new_client room addr now = record {
  room = room;
  dir = [];
  local_addr = addr;
  started = now;
  cmd = none;
  mount_path = [];
  log_lines = [];
  last_status = starting;
}

abbrev pub connecting : Bytes → Bytes → ℕ → Option ℕ → World → Option Error × World
connecting room addr now none w = (some spawn_failed, w)
connecting room addr now (some n) w = (
  none,
  record {
    app = record w.app { connect = some (launch n (new_client room addr now)) };
    running = n ∷ w.running;
  },
)

-- `startConnect`, given the room trimmed and in lower case, the local address, and the child. The
-- goroutine that mounts is not part of it.
abbrev pub connect_if_free :
    Option Subprocess → Bytes → Bytes → ℕ → Option ℕ → World → Option Error × World
connect_if_free (some sp) room addr now start w = (some already_connected, w)
connect_if_free none room addr now start w =
    if is_empty room then (some room_required, w) else connecting room addr now start w

unfoldable pub start_connect : Bytes → Bytes → ℕ → Option ℕ → World → Option Error × World
start_connect room addr now start w = connect_if_free w.app.connect room addr now start w

-- The critical section of `stopConnect`; the command that unmounts, which is left out, and the stop of the
-- child come after it.
abbrev pub take_connect : World → World
take_connect w = record w { app = record w.app { connect = none } }

unfoldable pub stop_connect : World → World
stop_connect w =
    let taken = w.app.connect in
    let after = take_connect w in record after { running = stop_slot taken after.running }

unfoldable pub stop_all : World → World
stop_all w = stop_share (stop_connect w)

unfoldable pub set_force_relay : Bool → World → World
set_force_relay b w = record w { app = record w.app { force_relay = b } }

abbrev pub is_child : ℕ → Option ℕ → Bool
is_child n none = false
is_child n (some m) = n == m

unfoldable pub mark_exited : ℕ → Option Bytes → Subprocess → Subprocess
mark_exited n failure sp = if is_child n sp.cmd then child_exited failure sp else sp

abbrev pub mark_slots : ℕ → Option Bytes → Dict Subprocess → Dict Subprocess
mark_slots n failure [] = []
mark_slots n failure ((room, sp) ∷ slots) =
    (room, mark_exited n failure sp) ∷ mark_slots n failure slots

abbrev pub mark_connect : ℕ → Option Bytes → Option Subprocess → Option Subprocess
mark_connect n failure none = none
mark_connect n failure (some sp) = some (mark_exited n failure sp)

-- The child n exits, and the goroutine of its `launch` marks its subprocess.
unfoldable pub exits : ℕ → Option Bytes → World → World
exits n failure w = record {
  app = record w.app {
    connect = mark_connect n failure w.app.connect;
    slots = mark_slots n failure w.app.slots;
  };
  running = kill (some n) w.running;
}
