-- ===== src/Claudy/App/Commands.antt =====
-- The children of claudy-p2p/cmd/claudy/main.go over whole runs of requests.
use some_go_foolery.Base.{
  ℕ, ◌≡◌, ◌⊎◌, inl, inr, refl, Bool, true, false, Option, none, some, List, [], ◌∷◌, Bool-cases,
}
use some_go_foolery.Base.Bytes.{Bytes}
use some_go_foolery.Base.Dict.{lookup}
use some_go_foolery.Claudy.Subprocess.{Subprocess}
use some_go_foolery.Claudy.App.{
  World, new_app_state, is_empty, start_share, resolved, add_viewer, remove_viewer, stop_share,
  connect_if_free, start_connect, stop_connect, stop_all, set_force_relay, exits,
}
use some_go_foolery.Claudy.App.Kills.{In, InSlot, InConnect, Owned}
use some_go_foolery.Claudy.App.Owned.{
  unheld, add-Owned, remove-Owned, stop_share-Owned, stop_connect-Owned, connect-Owned, exits-Owned,
}

-- The requests that the service handles, one after the other, and the exit of a child.
pub data Command : Type 0 where
  start_share_with : Bytes → Option Bytes → Bool → Command
  add : Bytes → ℕ → Option ℕ → Command
  remove_room : Bytes → Command
  stop_sharing stop_connecting : Command
  connect_to : Bytes → Bytes → ℕ → Option ℕ → Command
  relay : Bool → Command
  exited : ℕ → Option Bytes → Command

unfoldable pub command : Command → World → World
command (start_share_with dir abs is_dir) w = (start_share dir abs is_dir w).1
command (add room now start) w = (add_viewer room now start w).1
command (remove_room room) w = remove_viewer room w
command stop_sharing w = stop_share w
command stop_connecting w = stop_connect w
command (connect_to room addr now start) w = (start_connect room addr now start w).1
command (relay b) w = set_force_relay b w
command (exited n failure) w = exits n failure w

-- The random room of an added viewer is not in use.
abbrev pub Fresh : Command → World → Type 0
Fresh (add room now start) w = lookup room w.app.slots ≡ none
Fresh c w = Unit

resolved-Owned :
    (m : ℕ) (abs : Option Bytes) (is_dir : Bool) (w : World)
    → Owned m w
    → Owned m (resolved abs is_dir w).1
resolved-Owned m none is_dir w h = h
resolved-Owned m (some path) true w h = h
resolved-Owned m (some path) false w h = h

start_share-Owned :
    (m : ℕ) (dir : Bytes) (abs : Option Bytes) (is_dir : Bool) (w : World)
    → Owned m w
    → Owned m (start_share dir abs is_dir w).1
unfolding start_share
start_share-Owned m dir abs is_dir w h = elim (Bool-cases (is_empty dir)) [
  | inl e ↦ rw e h
  | inr e ↦ rw e (resolved-Owned m abs is_dir w h)
]

add_viewer-Owned :
    (m : ℕ) (room : Bytes) (now : ℕ) (start : Option ℕ) (w : World)
    → lookup room w.app.slots ≡ none
    → Owned m w
    → Owned m (add_viewer room now start w).1
unfolding add_viewer
add_viewer-Owned m room now start w fresh h = elim (Bool-cases (is_empty w.app.share_dir)) [
  | inl e ↦ rw e h
  | inr e ↦ rw e (add-Owned m room now start w fresh h)
]

start_connect-Owned :
    (m : ℕ) (room addr : Bytes) (now : ℕ) (start : Option ℕ) (w : World)
    → Owned m w
    → Owned m (start_connect room addr now start w).1
unfolding start_connect
start_connect-Owned m room addr now start w h = go w.app.connect refl
  where
    go :
        (o : Option Subprocess)
        → w.app.connect ≡ o
        → Owned m (connect_if_free o room addr now start w).1
    go (some sp) e = h
    go none e = elim (Bool-cases (is_empty room)) [
      | inl empty ↦ rw empty h
      | inr named ↦ rw named (connect-Owned m room addr now start w e h)
    ]

pub command-Owned :
    (m : ℕ) (c : Command) (w : World) → Fresh c w → Owned m w → Owned m (command c w)
unfolding command set_force_relay
command-Owned m (start_share_with dir abs is_dir) w f h = start_share-Owned m dir abs is_dir w h
command-Owned m (add room now start) w f h = add_viewer-Owned m room now start w f h
command-Owned m (remove_room room) w f h = remove-Owned m room w h
command-Owned m stop_sharing w f h = stop_share-Owned m w h
command-Owned m stop_connecting w f h = stop_connect-Owned m w h
command-Owned m (connect_to room addr now start) w f h =
    start_connect-Owned m room addr now start w h
command-Owned m (relay b) w f h = h
command-Owned m (exited n failure) w f h = exits-Owned m n failure w h

unfoldable pub commands : List Command → World → World
commands [] w = w
commands (c ∷ cs) w = commands cs (command c w)

unfoldable pub AllFresh : List Command → World → Type 0
AllFresh [] w = Unit
AllFresh (c ∷ cs) w = Fresh c w × AllFresh cs (command c w)

abbrev pub new_world : World
new_world = record { app = new_app_state; running = [] }

commands-Owned :
    (m : ℕ) (cs : List Command) (w : World) → AllFresh cs w → Owned m w → Owned m (commands cs w)
unfolding commands AllFresh
commands-Owned m [] w f h = h
commands-Owned m (c ∷ cs) w (f, fs) h =
    commands-Owned m cs (command c w) fs (command-Owned m c w f h)

pub stop_all_empty : (m : ℕ) (w : World) → Owned m w → ¬ In m (stop_all w).running
unfolding stop_all stop_share stop_connect lookup
stop_all_empty m w h i = elim (stop_share-Owned m (stop_connect w) (stop_connect-Owned m w h) i) [
  | inl s ↦ no_slot s
  | inr c ↦ no_connect c
]
  where
    no_slot : ¬ InSlot m (stop_share (stop_connect w)).app.slots
    no_slot (r, sp, found, runs) = unheld found

    no_connect : ¬ InConnect m (stop_share (stop_connect w)).app.connect
    no_connect (sp, taken, runs) = unheld taken

-- After any requests, handled one after the other, in which no added viewer gets a room in use: every
-- child that runs is that of a slot or of the connection, and the stop at the end of the program leaves
-- none.
no_orphans :
    (cs : List Command) (m : ℕ)
    → AllFresh cs new_world
    → let w = commands cs new_world in
      (In m w.running → InSlot m w.app.slots ⊎ InConnect m w.app.connect)
      × ¬ In m (stop_all w).running
no_orphans cs m f =
    let owned = commands-Owned m cs new_world f (λ i. elim i [ ]) in
    (owned, stop_all_empty m (commands cs new_world) owned)
