-- ===== src/Signal/Server.antt =====
-- The connection handler of claudy-p2p/cmd/signal/main.go: handle and pump, over every order in
-- which sockets join, deliver frames and fail. Keepalive pings only decide when a read fails.
pub mod Invariant
pub mod Routing
pub mod Vacancy
use some_go_foolery.Base.{
  ℕ, suc, Bool, true, false, not, ◌||◌, Option, none, some, List, [], ◌∷◌, ◌==◌, ◌++◌,
  if◌then◌else◌,
}
use some_go_foolery.Base.Bytes.{Bytes, bytes, str_eq}
use some_go_foolery.Base.Dict.{Dict}
use some_go_foolery.Signaling.{Envelope, empty_envelope}
use some_go_foolery.Signal.{PeerConn, Room, Pairing, pair, counterpart, drop}

-- The arguments of a running `pump`.
pub record Session : Type 0 where
  pub room : Bytes
  pub role : Bytes
  pub me : PeerConn

-- The hub, the pumps that run, and what the sockets have seen. `accepted` numbers the sockets.
pub record Server : Type 0 where
  pub rooms : Dict Room
  pub pumps : List Session
  pub closed : List ℕ
  pub sent : List (ℕ × Envelope)
  pub accepted : ℕ

abbrev pub new_hub : Server
new_hub = record { rooms = []; pumps = []; closed = []; sent = []; accepted = 0 }

abbrev pub find_pump : ℕ → List Session → Option Session
find_pump ws [] = none
find_pump ws (s ∷ ss) = if s.me.ws == ws then some s else find_pump ws ss

abbrev pub end_pump : ℕ → List Session → List Session
end_pump ws [] = []
end_pump ws (s ∷ ss) = let rest = end_pump ws ss in if s.me.ws == ws then rest else s ∷ rest

abbrev error_envelope : Bytes → Envelope
error_envelope text = record empty_envelope { kind = bytes "error"; error = text }

abbrev pub ready_envelope : Bytes → Envelope
ready_envelope pubkey = record empty_envelope { kind = bytes "ready"; pubkey = pubkey }

-- `join.Kind != "join" || join.Room == ""`
abbrev pub is_bad_join : Envelope → Bool
is_bad_join e = not (str_eq e.kind (bytes "join")) || str_eq e.room []

-- An error is written to the socket, and it is closed.
abbrev refuse : Server → ℕ → Bytes → Server
refuse w ws text = record w { sent = (ws, error_envelope text) ∷ w.sent; closed = ws ∷ w.closed }

-- The two ready frames; the counterpart's is written first, so it stands last here.
abbrev pub announce : Option PeerConn → ℕ → Bytes → List (ℕ × Envelope) → List (ℕ × Envelope)
announce none ws pubkey sent = sent
announce (some peer) ws pubkey sent =
    (ws, ready_envelope peer.pubkey) ∷ (peer.ws, ready_envelope pubkey) ∷ sent

-- `handle` from `pair` up to the call of `pump`.
abbrev pub admit : Server → Envelope → PeerConn → Pairing → Server
admit w join me r =
    if r.ok
    then record w {
      rooms = r.rooms;
      pumps = record { room = join.room; role = join.role; me = me } ∷ w.pumps;
      closed = r.closed ++ w.closed;
      sent = announce r.peer me.ws join.pubkey w.sent;
    }
    else refuse (record w { rooms = r.rooms }) me.ws (bytes "role conflict or room full")

-- `handle` on a fresh socket; no first frame stands for a read that failed.
unfoldable pub handle : Server → Option Envelope → Server
handle w none =
    refuse (record w { accepted = suc w.accepted }) w.accepted
      (bytes "expected join{room,role,pubkey}")
handle w (some join) =
    let ws = w.accepted in
    let w' = record w { accepted = suc ws } in
    let me : PeerConn = record { ws = ws; pubkey = join.pubkey } in
    if is_bad_join join
    then refuse w' ws (bytes "expected join{room,role,pubkey}")
    else admit w' join me (pair w.rooms join.room join.role me)

-- The deferred calls of `pump`.
unfoldable pub leave : Server → Session → Server
leave w s = record w {
  rooms = drop w.rooms s.room s.role s.me;
  pumps = end_pump s.me.ws w.pumps;
  closed = s.me.ws ∷ w.closed;
}

abbrev pub forward : Server → Session → Envelope → Bool → Option PeerConn → Server
forward w s e written none = w
forward w s e written (some peer) =
    if written then record w { sent = (peer.ws, e) ∷ w.sent } else leave w s

-- One round of the loop of `pump`: the frame read, if any, and whether the write succeeded.
unfoldable pub pump_round : Server → Session → Option Envelope → Bool → Server
pump_round w s none written = leave w s
pump_round w s (some e) written = forward w s e written (counterpart w.rooms s.room s.role)

pub data Event : Type 0 where
  accept : Option Envelope → Event
  read : ℕ → Option Envelope → Bool → Event

abbrev deliver : Server → Option Session → Option Envelope → Bool → Server
deliver w none frame written = w
deliver w (some s) frame written = pump_round w s frame written

unfoldable pub step : Server → Event → Server
step w (accept first) = handle w first
step w (read ws frame written) = deliver w (find_pump ws w.pumps) frame written

unfoldable pub run : Server → List Event → Server
run w [] = w
run w (e ∷ es) = run (step w e) es
