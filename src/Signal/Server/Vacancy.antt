-- ===== src/Signal/Server/Vacancy.antt =====
-- Rooms without members: when the table of claudy-p2p/cmd/signal/main.go keeps one.
use some_go_foolery.Base.{
  suc, ◌≡◌, refl, inl, inr, Bool, true, false, ◌⊎◌, Option, none, some, List, [], ◌∷◌, Option-cases,
  Bool-cases, All, arith,
}
use some_go_foolery.Base.Bytes.{Bytes, str_eq, str_eq_iff, str_eq_refl}
use some_go_foolery.Base.Dict.{Dict, lookup, lookup-insert, lookup-remove}
use some_go_foolery.Signaling.{Envelope}
use some_go_foolery.Signal.{
  PeerConn, Room, fresh_room, or_fresh, ensure, is_vacant, vacate, owner_role, viewer_role, pair,
  counterpart, drop,
}
use some_go_foolery.Signal.Slots.{IsRole, pair_refused}
use some_go_foolery.Signal.Server.{
  Session, Server, Event, accept, read, new_hub, find_pump, is_bad_join, admit, forward, handle,
  leave, pump_round, step, run,
}

-- No room of the table is empty.
abbrev Occupied : Dict Room → Type 0
Occupied rooms = (id : Bytes) (r : Room) → lookup id rooms ≡ some r → is_vacant r ≡ false

pair-Occupied :
    (rooms : Dict Room) (id role : Bytes) (p : PeerConn)
    → IsRole role
    → Occupied rooms
    → Occupied (pair rooms id role p).rooms
unfolding pair
pair-Occupied rooms id role p h v j r e = ground (
  arith,
  lookup-ensure id j rooms,
  lookup-insert id j (record (or_fresh (lookup id rooms)) { owner = some p })
      (ensure id (lookup id rooms) rooms),
  lookup-insert id j (record (or_fresh (lookup id rooms)) { viewer = some p })
      (ensure id (lookup id rooms) rooms),
  str_eq_iff id j,
  str_eq_iff role owner_role,
  str_eq_iff role viewer_role,
  v j r,
)
  where
    lookup-ensure :
        (id j : Bytes) (rooms : Dict Room)
        → (str_eq id j ≡ true) ⊎ (lookup j (ensure id (lookup id rooms) rooms) ≡ lookup j rooms)
    lookup-ensure id j rooms = elim (Option-cases (lookup id rooms)) [
      | inl e ↦ rw e (ground (arith, lookup-insert id j fresh_room rooms))
      | inr (r, e) ↦ rw e (inr refl)
    ]

drop-Occupied :
    (rooms : Dict Room) (id role : Bytes) (self : PeerConn)
    → Occupied rooms
    → Occupied (drop rooms id role self)
unfolding drop
drop-Occupied rooms id role self v j r = elim (Option-cases (lookup id rooms)) [
  | inl e ↦ rw (e, drop) (v j r)
  | inr (r', e) ↦
      rw (e, drop)
        λ h.
          ground
            (arith, lookup-insert id j (vacate role self r') rooms, lookup-remove id j rooms, v j r)
]

-- A first frame that `handle` refuses before `pair`, or that names one of the two roles.
abbrev NamesRole : Event → Type 0
NamesRole (accept (some join)) = (is_bad_join join ≡ true) ⊎ IsRole join.role
NamesRole _ = Unit

handle-Occupied :
    (w : Server) (join : Envelope)
    → NamesRole (accept (some join))
    → Occupied w.rooms
    → Occupied (handle w (some join)).rooms
unfolding handle
handle-Occupied w join h v = elim (Bool-cases (is_bad_join join)) [
  | inl bad ↦ rw bad v
  | inr good ↦ rw good (admitted (ground (arith, h)))
]
  where
    me : PeerConn
    me = record { ws = w.accepted; pubkey = join.pubkey }

    admitted :
        IsRole join.role
        → Occupied
            (admit
              (record w { accepted = suc w.accepted })
              join
              me
              (pair w.rooms join.room join.role me)).rooms
    admitted role = elim (Bool-cases (pair w.rooms join.room join.role me).ok) [
      | inl e ↦ rw e (pair-Occupied w.rooms join.room join.role me role v)
      | inr e ↦ rw e (pair-Occupied w.rooms join.room join.role me role v)
    ]

pump_round-Occupied :
    (w : Server) (s : Session) (frame : Option Envelope) (written : Bool)
    → Occupied w.rooms
    → Occupied (pump_round w s frame written).rooms
unfolding pump_round leave
pump_round-Occupied w s none written v = drop-Occupied w.rooms s.room s.role s.me v
pump_round-Occupied w s (some e) written v = go (counterpart w.rooms s.room s.role) written
  where
    go : (peer : Option PeerConn) (written : Bool) → Occupied (forward w s e written peer).rooms
    go none written = v
    go (some p) true = v
    go (some p) false = drop-Occupied w.rooms s.room s.role s.me v

step-Occupied :
    (w : Server) (e : Event) → NamesRole e → Occupied w.rooms → Occupied (step w e).rooms
unfolding step
step-Occupied w (accept none) n v = unfold handle in v
step-Occupied w (accept (some join)) n v = handle-Occupied w join n v
step-Occupied w (read ws frame written) n v = elim (Option-cases (find_pump ws w.pumps)) [
  | inl gone ↦ rw gone v
  | inr (s, found) ↦ rw found (pump_round-Occupied w s frame written v)
]

run-Occupied :
    (w : Server) (es : List Event) → All NamesRole es → Occupied w.rooms → Occupied (run w es).rooms
unfolding run
run-Occupied w [] n v = v
run-Occupied w (e ∷ es) n v = run-Occupied (step w e) es n.1 (step-Occupied w e n.0 v)

-- If every join that reaches `pair` names one of the two roles, then after any history no room of the
-- table is empty: a room goes with its last member.
pub run-new_hub-Occupied : (es : List Event) → All NamesRole es → Occupied (run new_hub es).rooms
unfolding lookup
run-new_hub-Occupied es n = run-Occupied new_hub es n (λ id r h. cc)

-- A well-formed join with any other role, in a room that is not in the table, is refused, yet leaves
-- an empty room in the table, and starts no pump that could remove it.
pub handle_leaks_room :
    (w : Server) (join : Envelope)
    → is_bad_join join ≡ false
    → ¬ IsRole join.role
    → lookup join.room w.rooms ≡ none
    → (lookup join.room (handle w (some join)).rooms ≡ some fresh_room)
      × ((handle w (some join)).pumps ≡ w.pumps)
unfolding handle pair
handle_leaks_room w join good h new = ground (
  arith,
  pair_refused w.rooms join.room join.role (record { ws = w.accepted; pubkey = join.pubkey }) h,
  lookup-insert join.room join.room fresh_room w.rooms,
  str_eq_refl join.room,
  str_eq_iff join.role owner_role,
  str_eq_iff join.role viewer_role,
)
