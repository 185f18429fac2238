-- ===== src/Signal/Server/Invariant.antt =====
-- Slots and running pumps of claudy-p2p/cmd/signal/main.go after any history.
use some_go_foolery.Base.{
  ℕ, suc, ◌<◌, ◌≡◌, refl, inl, inr, Bool, true, false, Option, none, some, List, [], ◌∷◌, ◌==◌,
  Bool-cases, Option-cases, arith, if◌then◌else◌,
}
use some_go_foolery.Base.Dict.{lookup}
use some_go_foolery.Base.{ap, ◌∙◌}
use some_go_foolery.Base.Bytes.{Bytes, str_eq_iff}
use some_go_foolery.Signaling.{Envelope}
use some_go_foolery.Signal.{PeerConn, pair}
use some_go_foolery.Signal.Slots.{slot, slot-pair, slot-drop}
use some_go_foolery.Signal.Server.{
  Session, Server, Event, accept, read, new_hub, find_pump, end_pump, is_bad_join, admit, forward,
  handle, leave, pump_round, step, run,
}

-- Every slot is held by a connection whose pump runs for that room and role, and the pumps belong
-- to sockets that were accepted.
pub record Inv (w : Server) : Type 0 where
  pub live :
      (id role : Bytes) (p : PeerConn)
      → slot w.rooms id role ≡ some p
      → find_pump p.ws w.pumps ≡ some (record { room = id; role = role; me = p })
  pub fresh :
      (ws : ℕ) (s : Session) → find_pump ws w.pumps ≡ some s → (ws < w.accepted) × (s.me.ws ≡ ws)

pub find_pump-end_pump :
    (ws other : ℕ) (ss : List Session)
    → find_pump other (end_pump ws ss) ≡ (if ws == other then none else find_pump other ss)
find_pump-end_pump ws other [] = ground arith
find_pump-end_pump ws other (s ∷ ss) = ground (arith, find_pump-end_pump ws other ss)

leave-Inv :
    (w : Server) (s : Session) → Inv w → find_pump s.me.ws w.pumps ≡ some s → Inv (leave w s)
unfolding leave
leave-Inv w s v here = record {
  live = λ id role p h. ground (
    arith,
    slot-drop w.rooms s.room s.role s.me id role,
    find_pump-end_pump s.me.ws p.ws w.pumps,
    v.live id role p,
    str_eq_iff s.room id,
    str_eq_iff s.role role,
  );
  fresh = λ ws t h. ground (arith, find_pump-end_pump s.me.ws ws w.pumps, v.fresh ws t);
}

admit-Inv :
    (w : Server) (join : Envelope) (me : PeerConn)
    → Inv w
    → me.ws ≡ w.accepted
    → Inv (
        admit
          (record w { accepted = suc w.accepted })
          join
          me
          (pair w.rooms join.room join.role me))
admit-Inv w join me v new = record {
  live = λ id role p h. ground (
    arith,
    slot-pair w.rooms join.room join.role me id role,
    v.live id role p,
    v.fresh p.ws (record { room = id; role = role; me = p }),
    str_eq_iff join.room id,
    str_eq_iff join.role role,
  );
  fresh = λ ws t h. ground (arith, v.fresh ws t);
}

handle-Inv : (w : Server) (first : Option Envelope) → Inv w → Inv (handle w first)
unfolding handle
handle-Inv w none v = record { live = v.live; fresh = λ ws t h. ground (arith, v.fresh ws t) }
handle-Inv w (some join) v = elim (Bool-cases (is_bad_join join)) [
  | inl bad ↦ rw bad (record { live = v.live; fresh = λ ws t h. ground (arith, v.fresh ws t) })
  | inr good ↦ rw good (admit-Inv w join _ v refl)
]

forward-Inv :
    (w : Server) (s : Session) (e : Envelope) (written : Bool) (peer : Option PeerConn)
    → Inv w
    → find_pump s.me.ws w.pumps ≡ some s
    → Inv (forward w s e written peer)
forward-Inv w s e written none v here = v
forward-Inv w s e true (some peer) v here = record { live = v.live; fresh = v.fresh }
forward-Inv w s e false (some peer) v here = leave-Inv w s v here

pump_round-Inv :
    (w : Server) (s : Session) (frame : Option Envelope) (written : Bool)
    → Inv w
    → find_pump s.me.ws w.pumps ≡ some s
    → Inv (pump_round w s frame written)
unfolding pump_round
pump_round-Inv w s none written v here = leave-Inv w s v here
pump_round-Inv w s (some e) written v here = forward-Inv w s e written _ v here

-- Accepting a socket, or one round of any pump, keeps the invariant, whatever is read or written.
pub step-Inv : (w : Server) (e : Event) → Inv w → Inv (step w e)
unfolding step
step-Inv w (accept first) v = handle-Inv w first v
step-Inv w (read ws frame written) v = elim (Option-cases (find_pump ws w.pumps)) [
  | inl gone ↦ rw gone v
  | inr (s, found) ↦ rw found (
      pump_round-Inv w s frame written v
        (ap (λ (n : ℕ). find_pump n w.pumps) (v.fresh ws s found).1 ∙ found))
]

pub run-Inv : (w : Server) (es : List Event) → Inv w → Inv (run w es)
unfolding run
run-Inv w [] v = v
run-Inv w (e ∷ es) v = run-Inv (step w e) es (step-Inv w e v)

new_hub-Inv : Inv new_hub
unfolding slot lookup
new_hub-Inv = record { live = λ id role p h. cc; fresh = λ ws s h. cc }

-- After any history, whoever holds a slot of a room is a connection that is still being pumped, for
-- that room and that role: no slot is left to a connection that has gone.
pub slots_live :
    (es : List Event) (id role : Bytes) (p : PeerConn)
    → slot (run new_hub es).rooms id role ≡ some p
    → find_pump p.ws (run new_hub es).pumps ≡ some (record { room = id; role = role; me = p })
slots_live es = (run-Inv new_hub es new_hub-Inv).live
