-- ===== src/Claudy/Waiting.antt =====
-- The loops of claudy-p2p/cmd/claudy/main.go that wait: `waitForStatus` and the mount supervisor of
-- `startConnect`. Times are in milliseconds; what the loops see in each round is a function of its number.
pub mod Ends
pub mod Mounting
use some_go_foolery.Base.{
  ℕ, zero, suc, ◌+◌, ◌*◌, ◌/◌, ◌≤◌, ◌<◌, ◌≡◌, Bool, true, false, not, ◌&&◌, ◌||◌, Option, none,
  some, List, [], ◌∷◌, ltb, if◌then◌else◌,
}
use some_go_foolery.Base.Bytes.{Bytes}
use some_go_foolery.Claudy.Subprocess.{Status, connected, relayed}

-- The predicate of the supervisor.
abbrev pub is_up : Status → Bool
is_up connected = true
is_up relayed = true
is_up other = false

-- The loop of `waitForStatus` from its poll i on: `clock` is the time at which a poll starts, `status` what
-- it reads. none means that the fuel is used up.
module _ (clock : ℕ → ℕ) (status : ℕ → Status) (pred : Status → Bool) (deadline : ℕ) where
  unfoldable pub poll : ℕ → ℕ → Option Bool
  poll zero i = none
  poll (suc fuel) i =
      let later = poll fuel (suc i) in
      if ltb (clock i) deadline then if pred (status i) then some true else later else some false

-- `waitForStatus`, with a round for every 100 ms that the timeout holds, and two more.
unfoldable pub wait_for_status : (ℕ → ℕ) → (ℕ → Status) → (Status → Bool) → ℕ → ℕ → Option Bool
wait_for_status clock status pred start timeout =
    poll clock status pred (start + timeout) (timeout / 100 + 2) 0

-- What a round of the mount supervisor finds: whether the connection is still the one that it serves,
-- whether its status was up within a minute, whether a path is mounted, and what the mount command gives.
pub record Round : Type 0 where
  pub alive : Bool
  pub up : Bool
  pub already : Bool
  pub mounts : Bool

pub data End : Type 0 where
  stopped already_mounted mounted gave_up : End

abbrev pub tries : Round → Bool
tries r = r.alive && (r.up && not r.already)

-- How a round ends the loop, if it does.
abbrev pub round_end : Round → Option End
round_end r =
    if r.alive
    then if r.up
      then if r.already then some already_mounted else if r.mounts then some mounted else none
      else none
    else some stopped

-- The rounds in which the mount command is run, and the end of the loop unless the fuel is used up.
pub record Supervised : Type 0 where
  pub tried : List ℕ
  pub end : Option End

abbrev pub add_try : Bool → ℕ → Supervised → Supervised
add_try true i r = record r { tried = i ∷ r.tried }
add_try false i r = r

abbrev pub ended : Option End → Supervised → Supervised
ended none later = later
ended (some e) later = record { tried = []; end = some e }

-- Five minutes.
abbrev pub mount_limit : ℕ
mount_limit = 5 * 60 * 1000

module _ (clock : ℕ → ℕ) (round : ℕ → Round) (deadline : ℕ) where
  unfoldable pub supervise : ℕ → ℕ → Supervised
  supervise zero i = record { tried = []; end = none }
  supervise (suc fuel) i =
      let later = supervise fuel (suc i) in
      let this = add_try (tries (round i)) i (ended (round_end (round i)) later) in
      if ltb (clock i) deadline then this else record { tried = []; end = some gave_up }

-- The supervisor from its start, with a round for every millisecond of its five minutes, and one more.
unfoldable pub mount_supervisor : (ℕ → ℕ) → (ℕ → Round) → ℕ → Supervised
mount_supervisor clock round start = supervise clock round (start + mount_limit) (mount_limit + 1) 0
