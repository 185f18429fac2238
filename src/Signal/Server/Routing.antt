-- ===== src/Signal/Server/Routing.antt =====
-- Where frames go, and how a join takes over a slot.
use some_go_foolery.Base.{
  ℕ, ◌≡◌, ◌≢◌, refl, inl, inr, Bool, true, ◌&&◌, ◌⊎◌, false, Option, none, some, List, [], ◌∷◌,
  ◌++◌, Option-cases, arith, if◌then◌else◌,
}
use some_go_foolery.Base.Bytes.{Bytes, str_eq, str_eq_iff, str_eq_refl}
use some_go_foolery.Base.Dict.{Dict}
use some_go_foolery.Signaling.{Envelope}
use some_go_foolery.Signal.{
  PeerConn, Room, socket, owner_role, viewer_role, pair, counterpart, drop,
}
use some_go_foolery.Signal.Slots.{
  IsRole, opposite, slot, slot-pair, slot-drop, pair-results, counterpart-slot,
}
use some_go_foolery.Signal.Server.{
  Session, Server, Event, accept, read, new_hub, find_pump, is_bad_join, forward, handle, leave,
  pump_round, step, run, ready_envelope,
}
use some_go_foolery.Signal.Server.Invariant.{find_pump-end_pump, slots_live}

-- The pumps that run serve one of the two roles.
Roles : Server → Type 0
Roles w = (ws : ℕ) (s : Session) → find_pump ws w.pumps ≡ some s → IsRole s.role

handle-Roles : (w : Server) (first : Option Envelope) → Roles w → Roles (handle w first)
unfolding Roles handle pair
handle-Roles w none v ws s h = v ws s h
handle-Roles w (some join) v ws s h =
    ground (arith, v ws s, str_eq_iff join.role owner_role, str_eq_iff join.role viewer_role)

leave-Roles : (w : Server) (s : Session) → Roles w → Roles (leave w s)
unfolding Roles leave
leave-Roles w s v ws t h = ground (arith, v ws t, find_pump-end_pump s.me.ws ws w.pumps)

pump_round-Roles :
    (w : Server) (s : Session) (frame : Option Envelope) (written : Bool)
    → Roles w
    → Roles (pump_round w s frame written)
unfolding pump_round
pump_round-Roles w s none written v = leave-Roles w s v
pump_round-Roles w s (some e) written v = go (counterpart w.rooms s.room s.role) written
  where
    go : (peer : Option PeerConn) (written : Bool) → Roles (forward w s e written peer)
    go none written = v
    go (some p) true = unfold Roles in v
    go (some p) false = leave-Roles w s v

step-Roles : (w : Server) (e : Event) → Roles w → Roles (step w e)
unfolding step
step-Roles w (accept first) v = handle-Roles w first v
step-Roles w (read ws frame written) v = elim (Option-cases (find_pump ws w.pumps)) [
  | inl gone ↦ rw gone v
  | inr (s, found) ↦ rw found (pump_round-Roles w s frame written v)
]

run-Roles : (w : Server) (es : List Event) → Roles w → Roles (run w es)
unfolding run
run-Roles w [] v = v
run-Roles w (e ∷ es) v = run-Roles (step w e) es (step-Roles w e v)

run-new_hub-Roles : (es : List Event) → Roles (run new_hub es)
unfolding Roles
run-new_hub-Roles es = run-Roles new_hub es (unfold Roles in λ ws s h. cc)

-- What becomes of a frame that the session s has read, by the holder of the opposite slot of its room.
abbrev pub Forwards : Server → Session → Envelope → Bool → Server → Type 0
Forwards w s e written w' =
    ((slot w.rooms s.room (opposite s.role) ≡ none) × (w' ≡ w))
    ⊎ ((p : PeerConn) × (slot w.rooms s.room (opposite s.role) ≡ some p)
        × (find_pump p.ws w.pumps ≡ some (record { room = s.room; role = opposite s.role; me = p }))
        × (w' ≡ (if written then record w { sent = (p.ws, e) ∷ w.sent } else leave w s)))

-- After any history, where a running pump reads a frame: if the opposite slot of its room is empty, the
-- server is unchanged. Otherwise the pump of the holder of that slot runs, and if the write to it works,
-- the frame goes there, unchanged, and nothing else changes; if the write fails, nothing is sent, and the
-- session that has read the frame leaves.
pub read-Forwards :
    (es : List Event) (ws : ℕ) (s : Session) (e : Envelope) (written : Bool)
    → find_pump ws (run new_hub es).pumps ≡ some s
    → Forwards (run new_hub es) s e written (step (run new_hub es) (read ws (some e) written))
unfolding step pump_round
read-Forwards es ws s e written found =
    rw found (rw (counterpart-slot rooms s.room s.role (roles ws s found)) (go _ refl))
  where
    rooms : Dict Room
    rooms = (run new_hub es).rooms

    roles : (ws : ℕ) (s : Session) → find_pump ws (run new_hub es).pumps ≡ some s → IsRole s.role
    roles = unfold Roles in run-new_hub-Roles es

    go :
        (o : Option PeerConn)
        → slot rooms s.room (opposite s.role) ≡ o
        → Forwards (run new_hub es) s e written (forward (run new_hub es) s e written o)
    go none h = inl (h, refl)
    go (some p) h = inr (p, h, slots_live es s.room (opposite s.role) p h, refl)

-- A connection that was replaced in its slot can leave late: no slot changes, and the newcomer stays.
drop-pair_displaced :
    (rooms : Dict Room) (id role : Bytes) (old new : PeerConn)
    → IsRole role
    → old.ws ≢ new.ws
    → (j s : Bytes)
    → slot (drop (pair rooms id role new).rooms id role old) j s
      ≡ (if str_eq id j && str_eq role s then some new else slot rooms j s)
drop-pair_displaced rooms id role old new h ne j s = ground (
  arith,
  slot-drop (pair rooms id role new).rooms id role old j s,
  slot-pair rooms id role new id role,
  slot-pair rooms id role new j s,
  (pair-results rooms id role new h).0,
  str_eq_refl id,
  str_eq_refl role,
)

-- A well-formed join in either role, whose counterpart is in the room, announces to both sides the
-- other's key, and the socket that it displaces, if any, is closed.
handle_announces :
    (w : Server) (join : Envelope) (peer : PeerConn)
    → is_bad_join join ≡ false
    → IsRole join.role
    → slot w.rooms join.room (opposite join.role) ≡ some peer
    → ((handle w (some join)).sent
        ≡ (w.accepted, ready_envelope peer.pubkey) ∷ (peer.ws, ready_envelope join.pubkey) ∷ w.sent)
      × ((handle w (some join)).closed ≡ socket (slot w.rooms join.room join.role) ++ w.closed)
unfolding handle
handle_announces w join peer good h there =
    let me : PeerConn = record { ws = w.accepted; pubkey = join.pubkey } in
    ground (arith, pair-results w.rooms join.room join.role me h)
