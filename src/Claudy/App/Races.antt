-- ===== src/Claudy/App/Races.antt =====
-- The requests of claudy-p2p/cmd/claudy/main.go at the same time: addViewer and startConnect take the mutex
-- once to look and once to store; removeViewer, stopShare and stopConnect give it back before they stop the
-- children that they have taken. Other requests get in between.
pub mod Stops
pub mod Known
pub mod Lost
use some_go_foolery.Base.{ℕ, zero, suc, ◌≡◌, Bool, Option, none, some, List, [], ◌∷◌, if◌then◌else◌}
use some_go_foolery.Base.Bytes.{Bytes}
use some_go_foolery.Base.Dict.{Dict, lookup}
use some_go_foolery.Claudy.Subprocess.{Subprocess, launch, stop}
use some_go_foolery.Claudy.App.{
  World, is_empty, put_slot, new_viewer, new_client, mark_exited, kill, take_viewer, take_share,
  take_connect,
}
use some_go_foolery.Claudy.App.Commands.{Command, exited, command, Fresh, new_world}

-- A child in the hands of a request: not stored yet, for a slot or as the connection; or taken out, and its
-- stop not over.
pub data Pending : Type 0 where
  slot_of : Bytes → Subprocess → Pending
  connection stopping : Subprocess → Pending

pub record Racing : Type 0 where
  pub world : World
  pub pending : List Pending

abbrev pub new_racing : Racing
new_racing = record { world = new_world; pending = [] }

abbrev pub child_of : Pending → Subprocess
child_of (slot_of room sp) = sp
child_of (connection sp) = sp
child_of (stopping sp) = sp

-- The child that Start yields runs, and its subprocess is to be stored.
abbrev pub to_store : Option ℕ → (ℕ → Pending) → Racing → Racing
to_store none p r = r
to_store (some n) p r = record {
  world = record r.world { running = n ∷ r.world.running };
  pending = p n ∷ r.pending;
}

-- `addViewer` up to its last critical section.
unfoldable pub begin_add : Bytes → ℕ → Option ℕ → Racing → Racing
begin_add room now start r =
    let dir = r.world.app.share_dir in
    if is_empty dir
    then r
    else to_store start (λ n. slot_of room (launch n (new_viewer room dir now))) r

abbrev pub begin_free : Option Subprocess → Bytes → Bytes → ℕ → Option ℕ → Racing → Racing
begin_free (some sp) room addr now start r = r
begin_free none room addr now start r =
    if is_empty room
    then r
    else to_store start (λ n. connection (launch n (new_client room addr now))) r

-- `startConnect` up to its last critical section.
unfoldable pub begin_connect : Bytes → Bytes → ℕ → Option ℕ → Racing → Racing
begin_connect room addr now start r = begin_free r.world.app.connect room addr now start r

abbrev pub stopping_slot : Option Subprocess → List Pending → List Pending
stopping_slot none ps = ps
stopping_slot (some sp) ps = stopping sp ∷ ps

abbrev pub stopping_all : Dict Subprocess → List Pending → List Pending
stopping_all [] ps = ps
stopping_all ((room, sp) ∷ slots) ps = stopping sp ∷ stopping_all slots ps

-- `removeViewer`, `stopShare` and `stopConnect` up to the end of their critical section.
unfoldable pub begin_remove : Bytes → Racing → Racing
begin_remove room r = record {
  world = take_viewer room r.world;
  pending = stopping_slot (lookup room r.world.app.slots) r.pending;
}

unfoldable pub begin_stop_share : Racing → Racing
begin_stop_share r = record {
  world = take_share r.world;
  pending = stopping_all r.world.app.slots r.pending;
}

unfoldable pub begin_stop_connect : Racing → Racing
begin_stop_connect r = record {
  world = take_connect r.world;
  pending = stopping_slot r.world.app.connect r.pending;
}

-- The last critical section of addViewer or startConnect, or the end of the stop of a child.
abbrev pub store : Pending → World → World
store (slot_of room sp) w = record w { app = put_slot room sp w.app }
store (connection sp) w = record w { app = record w.app { connect = some sp } }
store (stopping sp) w = record w { running = kill (stop sp).0 w.running }

abbrev pub below : Pending → Option (Pending × List Pending) → Option (Pending × List Pending)
below p none = none
below p (some (q, ps)) = some (q, p ∷ ps)

-- One of the pending children, and the others.
abbrev pub pick : ℕ → List Pending → Option (Pending × List Pending)
pick i [] = none
pick zero (p ∷ ps) = some (p, ps)
pick (suc i) (p ∷ ps) = below p (pick i ps)

abbrev pub finished : Option (Pending × List Pending) → Racing → Racing
finished none r = r
finished (some (p, ps)) r = record { world = store p r.world; pending = ps }

unfoldable pub finish : ℕ → Racing → Racing
finish i r = finished (pick i r.pending) r

abbrev pub mark : ℕ → Option Bytes → Pending → Pending
mark n failure (slot_of room sp) = slot_of room (mark_exited n failure sp)
mark n failure (connection sp) = connection (mark_exited n failure sp)
mark n failure (stopping sp) = stopping (mark_exited n failure sp)

abbrev pub mark_all : ℕ → Option Bytes → List Pending → List Pending
mark_all n failure [] = []
mark_all n failure (p ∷ ps) = mark n failure p ∷ mark_all n failure ps

-- An exit also marks a subprocess that a request holds.
abbrev pub after_exit : Command → List Pending → List Pending
after_exit (exited n failure) ps = mark_all n failure ps
after_exit c ps = ps

-- A request that nothing interrupts, or a part of one.
pub data Event : Type 0 where
  request : Command → Event
  begins_adding : Bytes → ℕ → Option ℕ → Event
  begins_connecting : Bytes → Bytes → ℕ → Option ℕ → Event
  begins_removing : Bytes → Event
  begins_stopping_share begins_stopping_connect : Event
  finishes : ℕ → Event

unfoldable pub step : Event → Racing → Racing
step (request c) r = record { world = command c r.world; pending = after_exit c r.pending }
step (begins_adding room now start) r = begin_add room now start r
step (begins_connecting room addr now start) r = begin_connect room addr now start r
step (begins_removing room) r = begin_remove room r
step begins_stopping_share r = begin_stop_share r
step begins_stopping_connect r = begin_stop_connect r
step (finishes i) r = finish i r

unfoldable pub steps : List Event → Racing → Racing
steps [] r = r
steps (e ∷ es) r = steps es (step e r)

-- What is stored replaces nothing.
abbrev pub Free : Option (Pending × List Pending) → World → Type 0
Free none w = Unit
Free (some (slot_of room sp, ps)) w = lookup room w.app.slots ≡ none
Free (some (connection sp, ps)) w = w.app.connect ≡ none
Free (some (stopping sp, ps)) w = Unit

abbrev pub Calm : Event → Racing → Type 0
Calm (request c) r = Fresh c r.world
Calm (finishes i) r = Free (pick i r.pending) r.world
Calm (begins_adding room now start) r = Unit
Calm (begins_connecting room addr now start) r = Unit
Calm (begins_removing room) r = Unit
Calm begins_stopping_share r = Unit
Calm begins_stopping_connect r = Unit

unfoldable pub AllCalm : List Event → Racing → Type 0
AllCalm [] r = Unit
AllCalm (e ∷ es) r = Calm e r × AllCalm es (step e r)
