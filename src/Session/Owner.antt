-- ===== src/Session/Owner.antt =====
-- The ownerSession of claudy-p2p/cmd/dav-owner/main.go: its supervisor, the callbacks of its peer
-- connections and its signal handler, in any order. A peer connection is named by its epoch; an OnOpen
-- callback, and the tunnel session that it makes, by a number; times are in nanoseconds.
pub mod Supervision
pub mod Attention
pub mod Mirror
use some_go_foolery.Base.{
  ℕ, zero, suc, ◌+◌, ◌-◌, ◌*◌, ◌≡◌, Bool, true, false, not, ◌&&◌, ◌||◌, ltb, ◌==◌, Option, none,
  some, List, [], ◌∷◌, ◌++◌, if◌then◌else◌,
}
use some_go_foolery.Base.Bytes.{Bytes, bytes, contains, str_eq}
use some_go_foolery.Base.Members.{has, without}
use some_go_foolery.Session.Viewer.{PeerState, connected, failed, closed, disconnected}

-- Where the loop of `run` stands: at its select, in the wait after a failed build, or returned.
pub data Phase : Type 0 where
  waiting retrying stopped : Phase

-- `rebuild_pending` is the one place of the channel `rebuild`. `live` are the installed sessions that are
-- not closed, `watched` those whose watchdog still waits, `serving` the OnOpen callbacks that are past
-- their first guard, with their epochs. `installed` records the sessions that were put in place, the last
-- one first, with the epochs of their channels, and `answers` the epochs for which an answer was sent.
pub record Owner : Type 0 where
  pub phase : Phase
  pub rebuild_pending : Bool
  pub relay_only : Bool
  pub consecutive_fails : ℕ
  pub last_sdp_race : ℕ
  pub pc : Option ℕ
  pub mux : Option ℕ
  pub epoch : ℕ
  pub now : ℕ
  pub made : ℕ
  pub live : List ℕ
  pub watched : List ℕ
  pub serving : List (ℕ × ℕ)
  pub installed : List (ℕ × ℕ)
  pub answers : List ℕ

abbrev pub new_owner_session : Bool → ℕ → Owner
new_owner_session force_relay now = record {
  phase = waiting;
  rebuild_pending = false;
  relay_only = force_relay;
  consecutive_fails = 0;
  last_sdp_race = 0;
  pc = none;
  mux = none;
  epoch = 0;
  now = now;
  made = 0;
  live = [];
  watched = [];
  serving = [];
  installed = [];
  answers = [];
}

unfoldable pub request_rebuild : Owner → Owner
request_rebuild s = record s { rebuild_pending = true }

-- The first line of `run`.
abbrev pub start : Bool → ℕ → Owner
start force_relay now = request_rebuild (new_owner_session force_relay now)

-- 30 seconds.
abbrev pub sdp_race_window : ℕ
sdp_race_window = 30 * 1000000000

unfoldable pub in_race_window : Owner → Bool
in_race_window s = ltb 0 s.last_sdp_race && ltb (s.now - s.last_sdp_race) sdp_race_window

unfoldable pub classify_and_maybe_escalate : Owner → Owner
classify_and_maybe_escalate s =
    if in_race_window s
    then s
    else let fails = suc s.consecutive_fails in
      record s {
        consecutive_fails = fails;
        relay_only = if ltb fails 2 then s.relay_only else true;
      }

abbrev pub close : Option ℕ → List ℕ → List ℕ
close none live = live
close (some n) live = without n live

-- `buildPC` with the reaction of `run`, where the flag says whether the new peer connection could be made.
unfoldable pub build_pc : Bool → Owner → Owner
build_pc false s = record s { mux = none; pc = none; live = close s.mux s.live; phase = retrying }
build_pc true s = record s {
  mux = none;
  pc = some (suc s.epoch);
  epoch = suc s.epoch;
  live = close s.mux s.live;
}

abbrev pub turn : Phase → Bool → Owner → Owner
turn waiting made s =
    if s.rebuild_pending then build_pc made (record s { rebuild_pending = false }) else s
turn retrying made s = s
turn stopped made s = s

-- One turn of the loop of `run` at its select.
unfoldable pub run_once : Bool → Owner → Owner
run_once made s = turn s.phase made s

abbrev pub retry_from : Phase → Owner → Owner
retry_from waiting s = s
retry_from retrying s = request_rebuild (record s { phase = waiting })
retry_from stopped s = s

-- The two seconds after a failed build are over.
unfoldable pub retry : Owner → Owner
retry s = retry_from s.phase s

abbrev pub cancel_from : Phase → Owner → Owner
cancel_from waiting s = record s { phase = stopped; live = close s.mux s.live }
cancel_from retrying s = record s { phase = stopped }
cancel_from stopped s = s

-- The context is done.
unfoldable pub cancel : Owner → Owner
cancel s = cancel_from s.phase s

abbrev pub on_live_state : PeerState → Owner → Owner
on_live_state connected s = record s { consecutive_fails = 0 }
on_live_state failed s = request_rebuild (classify_and_maybe_escalate s)
on_live_state closed s = request_rebuild s
on_live_state disconnected s = s

-- The callback of OnConnectionStateChange of the epoch e; its guard and what follows are one step.
unfoldable pub on_state : ℕ → PeerState → Owner → Owner
on_state e st s = if s.epoch == e then on_live_state st s else s

-- A data channel of the epoch e opens: the label is tested when it arrives, the epoch when it opens.
unfoldable pub on_open : ℕ → Bytes → Owner → Owner
on_open e label s =
    if str_eq label (bytes "tunnel") && s.epoch == e
    then record s { serving = (s.made, e) ∷ s.serving; made = suc s.made }
    else s

abbrev pub epoch_of : ℕ → List (ℕ × ℕ) → Option ℕ
epoch_of n [] = none
epoch_of n ((m, e) ∷ rest) = let later = epoch_of n rest in if n == m then some e else later

abbrev pub finish : ℕ → List (ℕ × ℕ) → List (ℕ × ℕ)
finish n [] = []
finish n ((m, e) ∷ rest) = let later = finish n rest in if n == m then later else (m, e) ∷ later

-- A session of another epoch is closed at once.
abbrev pub install : ℕ → ℕ → Owner → Owner
install n e s =
    if s.epoch == e
    then record s {
      mux = some n;
      live = n ∷ s.live;
      watched = n ∷ s.watched;
      installed = (n, e) ∷ s.installed;
    }
    else s

abbrev pub serve_end : ℕ → Bool → Option ℕ → Owner → Owner
serve_end n ok none s = s
serve_end n false (some e) s = request_rebuild s
serve_end n true (some e) s = install n e s

-- tunnel.Serve returns to the callback n, with a session or an error.
unfoldable pub served : ℕ → Bool → Owner → Owner
served n ok s = serve_end n ok (epoch_of n s.serving) (record s { serving = finish n s.serving })

-- The session n ends on its own.
unfoldable pub session_dies : ℕ → Owner → Owner
session_dies n s = record s { live = without n s.live }

-- The watchdog of the session n finds it closed.
unfoldable pub watchdog : ℕ → Owner → Owner
watchdog n s =
    if has n s.watched && not (has n s.live)
    then request_rebuild (record s { watched = without n s.watched })
    else s

-- What ApplyRemote returns: the text of its error, or whether it has consumed the envelope.
pub data Outcome : Type 0 where
  refused : Bytes → Outcome
  accepted : Bool → Outcome

abbrev pub is_race : Bytes → Bool
is_race msg = contains msg (bytes "InvalidModification") || contains msg (bytes "stable->SetRemote")

-- CreateAnswer, SetLocalDescription and Send, each of which may fail.
pub record Answering : Type 0 where
  pub creates : Bool
  pub sets : Bool
  pub sends : Bool

abbrev pub answers_well : Answering → Bool
answers_well a = a.creates && a.sets && a.sends

abbrev pub answer : ℕ → Answering → Owner → Owner
answer e a s = if answers_well a then record s { answers = s.answers ++ e ∷ [] } else s

abbrev pub applied : Bytes → ℕ → Outcome → Answering → Owner → Owner
applied kind e (refused msg) a s = if is_race msg then record s { last_sdp_race = s.now } else s
applied kind e (accepted consumed) a s =
    if consumed && str_eq kind (bytes "sdp") then answer e a s else s

abbrev pub apply_to : Option ℕ → Bytes → Outcome → Answering → Owner → Owner
apply_to none kind r a s = s
apply_to (some e) kind r a s = applied kind e r a s

-- `handleSignal`, as one step.
unfoldable pub handle_signal : Bytes → Outcome → Answering → Owner → Owner
handle_signal kind r a s =
    if str_eq kind (bytes "ready") then request_rebuild s else apply_to s.pc kind r a s

pub data Event : Type 0 where
  tick : ℕ → Event
  supervise : Bool → Event
  waited cancelled : Event
  state_change : ℕ → PeerState → Event
  opened : ℕ → Bytes → Event
  serve_returns : ℕ → Bool → Event
  dies watches : ℕ → Event
  envelope : Bytes → Outcome → Answering → Event

unfoldable pub step : Event → Owner → Owner
step (tick n) s = record s { now = s.now + n }
step (supervise made) s = run_once made s
step waited s = retry s
step cancelled s = cancel s
step (state_change e st) s = on_state e st s
step (opened e label) s = on_open e label s
step (serve_returns n ok) s = served n ok s
step (dies n) s = session_dies n s
step (watches n) s = watchdog n s
step (envelope kind r a) s = handle_signal kind r a s

unfoldable pub steps : List Event → Owner → Owner
steps [] s = s
steps (e ∷ es) s = steps es (step e s)
