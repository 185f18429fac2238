-- ===== src/Claudy/Subprocess.antt =====
-- The subprocess type of claudy-p2p/cmd/claudy/main.go: a child's log ring and its status.
pub mod Pipe
pub mod Ring
use some_go_foolery.Base.{
  ℕ, zero, suc, ◌-◌, ◌<◌, ◌≤◌, ◌≡◌, Bool, true, false, ◌||◌, Option, none, some, List, [], ◌∷◌,
  ◌++◌, length, drop, ltb, if◌then◌else◌,
}
use some_go_foolery.Base.Bytes.{Bytes, bytes, contains}

-- The values that the code gives to `lastStatus`; `relayed` is "connected (via relay)".
pub data Status : Type 0 where
  starting waiting paired connected reconnecting relayed stopped : Status

-- `cmd` is the number of the child that runs.
pub record Subprocess : Type 0 where
  pub room : Bytes
  pub dir : Bytes
  pub local_addr : Bytes
  pub started : ℕ
  pub cmd : Option ℕ
  pub mount_path : Bytes
  pub log_lines : List Bytes
  pub last_status : Status

abbrev pub is_connected : Status → Bool
is_connected connected = true
is_connected s = false

-- The assignment that the case's guard lets through.
abbrev pub unless_connected : Status → Status → Status
unless_connected s new = if is_connected s then s else new

-- The markers of a line, in the order of the cases.
abbrev pub is_waiting : Bytes → Bool
is_waiting line = contains line (bytes "waiting for viewer")

abbrev pub is_paired : Bytes → Bool
is_paired line =
    contains line (bytes "paired with owner") || contains line (bytes "paired with viewer")

abbrev pub is_up : Bytes → Bool
is_up line = contains line (bytes "tunnel up")

abbrev pub is_lost : Bytes → Bool
is_lost line = contains line (bytes "state=failed") || contains line (bytes "state=closed")

abbrev pub is_selected : Bytes → Bool
is_selected line = contains line (bytes "ice selected")

abbrev pub is_relay : Bytes → Bool
is_relay line = contains line (bytes "local=relay") || contains line (bytes "remote=relay")

-- The switch of `pushLogLine`.
unfoldable pub next_status : Bytes → Status → Status
next_status line s =
    if is_waiting line
    then waiting
    else if is_paired line
    then unless_connected s paired
    else if is_up line
    then connected
    else if is_lost line
    then unless_connected s reconnecting
    else if is_selected line
    then if is_relay line then relayed else s
    else s

abbrev pub max_log_lines : ℕ
max_log_lines = 200

-- The last n of a list, or all of it.
abbrev pub last_lines {ℓ} : {A : Type ℓ} → ℕ → List A → List A
last_lines n l = if ltb n (length l) then drop (length l - n) l else l

unfoldable pub push_log_line : Bytes → Subprocess → Subprocess
push_log_line line s = record s {
  log_lines = last_lines max_log_lines (s.log_lines ++ line ∷ []);
  last_status = next_status line s.last_status;
}

unfoldable pub all_logs : Subprocess → List Bytes
all_logs s = s.log_lines

-- The four results of `snapshot`, at a time in seconds; the start is never zero.
unfoldable pub snapshot : ℕ → Subprocess → Status × ℕ × List Bytes × Bytes
snapshot now s = (s.last_status, now - s.started, last_lines 30 s.log_lines, s.mount_path)

-- The goroutine of `launch` after `Wait`: `failure` is the text of its error.
abbrev pub report_exit : Option Bytes → Subprocess → Subprocess
report_exit none s = s
report_exit (some failure) s = push_log_line (bytes "child exited: " ++ failure) s

unfoldable pub child_exited : Option Bytes → Subprocess → Subprocess
child_exited failure s = report_exit failure (record s { cmd = none; last_status = stopped })

-- `launch` after a successful Start of the child n.
unfoldable pub launch : ℕ → Subprocess → Subprocess
launch n s = record s { cmd = some n }

-- `stop`, and the child that it signals.
unfoldable pub stop : Subprocess → Option ℕ × Subprocess
stop s = (s.cmd, record s { cmd = none; last_status = stopped })
