-- ===== src/Session/Viewer.antt =====
-- The viewerSession of claudy-p2p/cmd/dav-client/main.go: its supervisor and the callbacks of its peer
-- connections, in any order. A peer connection and its tunnel are named by their epoch; a ready channel
-- by the number of its creation; times are in nanoseconds.
pub mod Epochs
pub mod Escalation
use some_go_foolery.Base.{
  ℕ, zero, suc, ◌+◌, ◌-◌, ◌*◌, ◌≡◌, Bool, true, false, not, ◌&&◌, ◌||◌, ltb, ◌==◌, Option, none,
  some, List, [], ◌∷◌, if◌then◌else◌,
}
use some_go_foolery.Base.Bytes.{Bytes, bytes, contains, str_eq}

-- 30 seconds.
abbrev pub sdp_race_window : ℕ
sdp_race_window = 30 * 1000000000

-- `rebuild_pending` is the one place of the channel `rebuildCh`. `closes` lists every close of a ready
-- channel. `to_close` are the channels of the OnOpen callbacks that have installed their tunnel and have
-- not yet closed the channel that they captured. `captured` has the ready channel of each epoch.
pub record Viewer : Type 0 where
  pub rebuild_pending : Bool
  pub relay_only : Bool
  pub consecutive_fails : ℕ
  pub last_sdp_race : ℕ
  pub pc : Option ℕ
  pub mux : Option ℕ
  pub ready : ℕ
  pub epoch : ℕ
  pub now : ℕ
  pub closes : List ℕ
  pub made : ℕ
  pub to_close : List ℕ
  pub captured : List (ℕ × ℕ)

abbrev pub new_viewer_session : Bool → ℕ → Viewer
new_viewer_session force_relay now = record {
  rebuild_pending = false;
  relay_only = force_relay;
  consecutive_fails = 0;
  last_sdp_race = 0;
  pc = none;
  mux = none;
  ready = 0;
  epoch = 0;
  now = now;
  closes = [];
  made = 1;
  to_close = [];
  captured = [];
}

unfoldable pub request_rebuild : Viewer → Viewer
request_rebuild s = record s { rebuild_pending = true }

abbrev pub count : ℕ → List ℕ → ℕ
count k [] = 0
count k (x ∷ xs) = let rest = count k xs in if k == x then suc rest else rest

abbrev pub is_closed : ℕ → Viewer → Bool
is_closed k s = ltb 0 (count k s.closes)

unfoldable pub in_race_window : Viewer → Bool
in_race_window s = ltb 0 s.last_sdp_race && ltb (s.now - s.last_sdp_race) sdp_race_window

unfoldable pub classify_and_maybe_escalate : Viewer → Viewer
classify_and_maybe_escalate s =
    if in_race_window s
    then s
    else let fails = suc s.consecutive_fails in
      record s {
        consecutive_fails = fails;
        relay_only = if ltb fails 2 then s.relay_only else true;
      }

-- The part of `rebuild` under the mutex, where the flag says whether the new peer connection could be
-- made. What follows works on the new connection, and its errors ask for a rebuild.
unfoldable pub rebuild : Bool → Viewer → Viewer
rebuild false s = record s { mux = none; pc = none }
rebuild true s =
    let used = is_closed s.ready s in
    let channel = if used then s.made else s.ready in
    record s {
      mux = none;
      pc = some (suc s.epoch);
      epoch = suc s.epoch;
      ready = channel;
      made = if used then suc s.made else s.made;
      captured = (suc s.epoch, channel) ∷ s.captured;
    }

pub data PeerState : Type 0 where
  connected failed closed disconnected : PeerState

abbrev pub on_live_state : PeerState → Viewer → Viewer
on_live_state connected s = record s { consecutive_fails = 0 }
on_live_state failed s = request_rebuild (classify_and_maybe_escalate s)
on_live_state closed s = request_rebuild s
on_live_state disconnected s = s

-- The callback of OnConnectionStateChange of the epoch e; its guard and what follows are one step.
unfoldable pub on_state : ℕ → PeerState → Viewer → Viewer
on_state e st s = if s.epoch == e then on_live_state st s else s

-- The end of OnOpen of the epoch e: the tunnel could be dialed or not. Its guard on the epoch comes
-- before the dial, where a callback that stops does nothing, and again before it installs the tunnel.
abbrev pub channel_of : ℕ → List (ℕ × ℕ) → Option ℕ
channel_of e [] = none
channel_of e ((d, k) ∷ rest) = let later = channel_of e rest in if e == d then some k else later

abbrev pub install : ℕ → Option ℕ → Viewer → Viewer
install e none s = s
install e (some k) s =
    if s.epoch == e then record s { mux = some e; to_close = k ∷ s.to_close } else s

unfoldable pub on_open : ℕ → Bool → Viewer → Viewer
on_open e false s = request_rebuild s
on_open e true s = install e (channel_of e s.captured) s

-- `close(readyCh)`, after the mutex is given back.
abbrev pub close_captured : List ℕ → Viewer → Viewer
close_captured [] s = s
close_captured (k ∷ ks) s = record s { to_close = ks; closes = k ∷ s.closes }

unfoldable pub close_ready : Viewer → Viewer
close_ready s = close_captured s.to_close s

-- `handleSignal`, given the text of the error of ApplyRemote, if any.
abbrev pub is_race : Bytes → Bool
is_race msg = contains msg (bytes "InvalidModification") || contains msg (bytes "stable->SetRemote")

abbrev pub applied : Option Bytes → Viewer → Viewer
applied none s = s
applied (some msg) s = if is_race msg then record s { last_sdp_race = s.now } else s

abbrev pub apply_to : Option ℕ → Option Bytes → Viewer → Viewer
apply_to none result s = s
apply_to (some pc) result s = applied result s

unfoldable pub handle_signal : Bytes → Option Bytes → Viewer → Viewer
handle_signal kind result s =
    if str_eq kind (bytes "ready") then request_rebuild s else apply_to s.pc result s

-- One turn of the loop of `run`: a failed rebuild is asked for again.
abbrev pub rebuilt : Bool → Bool → Viewer → Viewer
rebuilt made true s = rebuild made s
rebuilt made false s = request_rebuild (rebuild made s)

unfoldable pub run_once : Bool → Bool → Viewer → Viewer
run_once made works s =
    if s.rebuild_pending
    then rebuilt made (made && works) (record s { rebuild_pending = false })
    else s

pub data Event : Type 0 where
  tick : ℕ → Event
  supervise : Bool → Bool → Event
  state_change : ℕ → PeerState → Event
  opened : ℕ → Bool → Event
  closes_ready tunnel_closed : Event
  envelope : Bytes → Option Bytes → Event

unfoldable pub step : Event → Viewer → Viewer
step (tick n) s = record s { now = s.now + n }
step (supervise made works) s = run_once made works s
step (state_change e st) s = on_state e st s
step (opened e ok) s = on_open e ok s
step closes_ready s = close_ready s
step tunnel_closed s = request_rebuild s
step (envelope kind result) s = handle_signal kind result s

unfoldable pub steps : List Event → Viewer → Viewer
steps [] s = s
steps (e ∷ es) s = steps es (step e s)
