-- ===== src/Signal.antt =====
-- The room table of claudy-p2p/cmd/signal/main.go: pair, counterpart and drop.
pub mod Slots
pub mod Server
use some_go_foolery.Base.{
  ℕ, Bool, true, false, ◌&&◌, Option, none, some, List, [], ◌∷◌, ◌==◌, if◌then◌else◌, length, take,
  ltb, ◌++◌,
}
use some_go_foolery.Base.Bytes.{Bytes, bytes, str_eq}
use some_go_foolery.Base.Dict.{Dict, lookup, insert, remove}

-- A `peerConn` is allocated once for each accepted socket, so the socket's number serves as the
-- address that `drop` compares.
pub record PeerConn : Type 0 where
  pub ws : ℕ
  pub pubkey : Bytes

pub record Room : Type 0 where
  pub owner : Option PeerConn
  pub viewer : Option PeerConn

abbrev pub fresh_room : Room
fresh_room = record { owner = none; viewer = none }

abbrev pub owner_role : Bytes
owner_role = bytes "owner"

abbrev pub viewer_role : Bytes
viewer_role = bytes "viewer"

-- The results of `pair`, with the table that it leaves and the sockets that it closes.
pub record Pairing : Type 0 where
  pub rooms : Dict Room
  pub closed : List ℕ
  pub peer : Option PeerConn
  pub displaced : Option PeerConn
  pub ok : Bool

abbrev pub or_fresh : Option Room → Room
or_fresh none = fresh_room
or_fresh (some r) = r

-- `if !exists { r = &room{}; h.rooms[id] = r }`
abbrev pub ensure : Bytes → Option Room → Dict Room → Dict Room
ensure id none rooms = insert id fresh_room rooms
ensure id (some r) rooms = rooms

abbrev pub socket : Option PeerConn → List ℕ
socket none = []
socket (some p) = p.ws ∷ []

unfoldable pub pair : Dict Room → Bytes → Bytes → PeerConn → Pairing
pair rooms id role p =
    let found = lookup id rooms in
    let r = or_fresh found in
    let table = ensure id found rooms in
    if str_eq role owner_role
    then record {
      rooms = insert id (record r { owner = some p }) table;
      closed = socket r.owner;
      peer = r.viewer;
      displaced = r.owner;
      ok = true;
    }
    else if str_eq role viewer_role
    then record {
      rooms = insert id (record r { viewer = some p }) table;
      closed = socket r.viewer;
      peer = r.owner;
      displaced = r.viewer;
      ok = true;
    }
    else record { rooms = table; closed = []; peer = none; displaced = none; ok = false }

-- The socket that frames of a peer in this role go to. Every role but "owner" is sent to the owner.
unfoldable pub counterpart : Dict Room → Bytes → Bytes → Option PeerConn
counterpart rooms id my_role = elim (lookup id rooms) [
  | none ↦ none
  | some r ↦ if str_eq my_role owner_role then r.viewer else r.owner
]

-- `r.owner == self`, a comparison of pointers.
abbrev pub holds : Option PeerConn → PeerConn → Bool
holds none self = false
holds (some p) self = p.ws == self.ws

abbrev is_none : Option PeerConn → Bool
is_none none = true
is_none (some p) = false

-- `r.owner == nil && r.viewer == nil`
abbrev pub is_vacant : Room → Bool
is_vacant r = is_none r.owner && is_none r.viewer

-- The two conditional resets of `drop`, in order.
abbrev pub vacate_owner : Bytes → PeerConn → Room → Room
vacate_owner role self r =
    if str_eq role owner_role && holds r.owner self then record r { owner = none } else r

abbrev pub vacate_viewer : Bytes → PeerConn → Room → Room
vacate_viewer role self r =
    if str_eq role viewer_role && holds r.viewer self then record r { viewer = none } else r

abbrev pub vacate : Bytes → PeerConn → Room → Room
vacate role self r = vacate_viewer role self (vacate_owner role self r)

-- The room is a pointer in Go, so the resets are written back to the table.
abbrev pub drop_in : Dict Room → Bytes → Bytes → PeerConn → Room → Dict Room
drop_in rooms id role self r =
    let left = vacate role self r in
    if is_vacant left then remove id rooms else insert id left rooms

unfoldable pub drop : Dict Room → Bytes → Bytes → PeerConn → Dict Room
drop rooms id role self = elim (lookup id rooms) [
  | none ↦ rooms
  | some r ↦ drop_in rooms id role self r
]

-- The first 12 bytes of a longer key, and the three bytes of an ellipsis.
unfoldable pub trunc_key : Bytes → Bytes
trunc_key s = if ltb 12 (length s) then take 12 s ++ 0xE2 ∷ 0x80 ∷ 0xA6 ∷ [] else s
