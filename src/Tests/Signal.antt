-- ===== src/Tests/Signal.antt =====
-- claudy-p2p/cmd/signal/main.go on small histories.
use some_go_foolery.Base.{◌≡◌, refl, inl, inr, true, false, ◌⊎◌, none, some, List, [], ◌∷◌}
use some_go_foolery.Base.Bytes.{Bytes, bytes, str_eq}
use some_go_foolery.Base.Dict.{lookup, insert}
use some_go_foolery.Signaling.{Envelope, empty_envelope}
use some_go_foolery.Signal.{
  PeerConn, fresh_room, owner_role, viewer_role, pair, drop, is_vacant, trunc_key,
}
use some_go_foolery.Signal.Slots.{slot, slot-pair}
use some_go_foolery.Signal.Server.{
  Session, Event, accept, read, new_hub, find_pump, handle, leave, pump_round, step, run,
  ready_envelope,
}
use some_go_foolery.Signal.Server.Invariant.{slots_live}
use some_go_foolery.Signal.Server.Routing.{Forwards, read-Forwards}
use some_go_foolery.Signal.Server.Vacancy.{run-new_hub-Occupied, handle_leaks_room}

abbrev join_as : Bytes → Bytes → Envelope
join_as role key = record empty_envelope {
  kind = bytes "join";
  room = bytes "r";
  role = role;
  pubkey = key;
}

abbrev owner_joins : Event
owner_joins = accept (some (join_as owner_role (bytes "ko")))

abbrev viewer_joins : Event
viewer_joins = accept (some (join_as viewer_role (bytes "kv")))

abbrev both : List Event
both = owner_joins ∷ viewer_joins ∷ []

abbrev offer : Envelope
offer = record empty_envelope { kind = bytes "sdp"; payload = bytes "o" }

abbrev viewer_session : Session
viewer_session = record {
  room = bytes "r";
  role = viewer_role;
  me = record { ws = 1; pubkey = bytes "kv" };
}

both_ready :
    (run new_hub both).sent
    ≡ (1, ready_envelope (bytes "ko")) ∷ (0, ready_envelope (bytes "kv")) ∷ []
unfolding run step handle pair lookup insert str_eq
both_ready = refl

slots_live_example : find_pump 1 (run new_hub both).pumps ≡ some viewer_session
unfolding run step handle pair lookup insert str_eq slot
slots_live_example =
    slots_live both (bytes "r") viewer_role (record { ws = 1; pubkey = bytes "kv" }) refl

read-Forwards_example :
    Forwards
      (run new_hub both)
      viewer_session
      offer
      true
      (step (run new_hub both) (read 1 (some offer) true))
unfolding run step handle pair lookup insert str_eq
read-Forwards_example = read-Forwards both 1 viewer_session offer true refl

abbrev old_owner : PeerConn
old_owner = record { ws = 0; pubkey = [] }

abbrev new_owner : PeerConn
new_owner = record { ws = 5; pubkey = [] }

run-new_hub-Occupied_example :
    is_vacant (record { owner = none; viewer = some (record { ws = 1; pubkey = bytes "kv" }) })
    ≡ false
unfolding run step handle pair lookup insert str_eq leave pump_round drop
run-new_hub-Occupied_example =
    run-new_hub-Occupied (owner_joins ∷ viewer_joins ∷ read 0 none true ∷ [])
      (inr (inl refl), (inr (inr refl), (tt, tt))) (bytes "r")
      (record { owner = none; viewer = some (record { ws = 1; pubkey = bytes "kv" }) }) refl

handle_leaks_room_example :
    (lookup (bytes "r") (handle new_hub (some (join_as [] []))).rooms ≡ some fresh_room)
    × ((handle new_hub (some (join_as [] []))).pumps ≡ [])
unfolding str_eq lookup
handle_leaks_room_example = handle_leaks_room new_hub (join_as [] []) refl not_role refl
  where
    not_role : ¬ (([] ≡ owner_role) ⊎ ([] ≡ viewer_role))
    not_role (inl e) = cc
    not_role (inr e) = cc

long_key :
    trunc_key (bytes "0123456789abcdef")
    ≡ 48 ∷ 49 ∷ 50 ∷ 51 ∷ 52 ∷ 53 ∷ 54 ∷ 55 ∷ 56 ∷ 57 ∷ 97 ∷ 98 ∷ 0xE2 ∷ 0x80 ∷ 0xA6 ∷ []
unfolding trunc_key
long_key = refl

slot-pair_example :
    slot (pair [] (bytes "r") owner_role new_owner).rooms (bytes "r") owner_role ≡ some new_owner
unfolding pair str_eq
slot-pair_example = slot-pair [] (bytes "r") owner_role new_owner (bytes "r") owner_role
