-- ===== src/Signal/Slots.antt =====
-- The room table seen as one slot for each room and role.
use some_go_foolery.Base.{
  ◌≡◌, ◌⊎◌, true, false, ◌&&◌, true, Option, none, some, arith, refl, inl, inr, Option-cases,
  if◌then◌else◌,
}
use some_go_foolery.Base.Bytes.{Bytes, str_eq, str_eq_iff, str_eq_refl}
use some_go_foolery.Base.Dict.{Dict, lookup, lookup-insert, lookup-remove}
use some_go_foolery.Signal.{
  PeerConn, Room, fresh_room, owner_role, viewer_role, or_fresh, ensure, pair, counterpart, holds,
  vacate, drop, socket, counterpart,
}

abbrev pub IsRole : Bytes → Type 0
IsRole role = (role ≡ owner_role) ⊎ (role ≡ viewer_role)

abbrev occupant : Bytes → Room → Option PeerConn
occupant role r =
    if str_eq role owner_role then r.owner else if str_eq role viewer_role then r.viewer else none

abbrev room_slot : Bytes → Option Room → Option PeerConn
room_slot role none = none
room_slot role (some r) = occupant role r

-- Who holds the slot of a role in a room.
unfoldable pub slot : Dict Room → Bytes → Bytes → Option PeerConn
slot rooms id role = room_slot role (lookup id rooms)

-- The role on the other side of a room.
abbrev pub opposite : Bytes → Bytes
opposite role = if str_eq role owner_role then viewer_role else owner_role

owner_ne_viewer : str_eq owner_role viewer_role ≡ false
unfolding str_eq
owner_ne_viewer = refl

viewer_ne_owner : str_eq viewer_role owner_role ≡ false
unfolding str_eq
viewer_ne_owner = refl

lookup-ensure :
    (id j : Bytes) (found : Option Room) (rooms : Dict Room)
    → lookup id rooms ≡ found
    → lookup j (ensure id found rooms)
      ≡ (if str_eq id j then some (or_fresh found) else lookup j rooms)
lookup-ensure id j none rooms h = lookup-insert id j fresh_room rooms
lookup-ensure id j (some r) rooms h = ground (arith, str_eq_iff id j)

-- What a successful `pair` tells its caller: who sits opposite, and whom the join replaces.
pub pair-results :
    (rooms : Dict Room) (id role : Bytes) (p : PeerConn)
    → IsRole role
    → ((pair rooms id role p).ok ≡ true)
      × ((pair rooms id role p).peer ≡ slot rooms id (opposite role))
      × ((pair rooms id role p).displaced ≡ slot rooms id role)
      × ((pair rooms id role p).closed ≡ socket (slot rooms id role))
unfolding slot pair
pair-results rooms id role p h = ground (
  arith,
  str_eq_iff role owner_role,
  str_eq_iff role viewer_role,
  str_eq_refl owner_role,
  str_eq_refl viewer_role,
  owner_ne_viewer,
  viewer_ne_owner,
)

pub pair_refused :
    (rooms : Dict Room) (id role : Bytes) (p : PeerConn)
    → ¬ IsRole role
    → (pair rooms id role p).ok ≡ false
unfolding pair
pair_refused rooms id role p h =
    ground (arith, str_eq_iff role owner_role, str_eq_iff role viewer_role)

pub counterpart-slot :
    (rooms : Dict Room) (id role : Bytes)
    → IsRole role
    → counterpart rooms id role ≡ slot rooms id (opposite role)
unfolding slot counterpart
counterpart-slot rooms id role h = ground (
  arith,
  str_eq_iff role owner_role,
  str_eq_iff role viewer_role,
  str_eq_refl owner_role,
  str_eq_refl viewer_role,
  owner_ne_viewer,
  viewer_ne_owner,
)

module _ (rooms : Dict Room) (id role : Bytes) (p : PeerConn) where
  -- A join changes the slot of its room and role, and no other slot; a refused one changes none.
  pub slot-pair :
      (j s : Bytes)
      → slot (pair rooms id role p).rooms j s ≡ (
          if (pair rooms id role p).ok && (str_eq id j && str_eq role s)
          then some p
          else slot rooms j s)
  unfolding slot pair
  slot-pair j s = ground (
    arith,
    lookup-ensure id j (lookup id rooms) rooms refl,
    lookup-insert id j (record (or_fresh (lookup id rooms)) { owner = some p })
        (ensure id (lookup id rooms) rooms),
    lookup-insert id j (record (or_fresh (lookup id rooms)) { viewer = some p })
        (ensure id (lookup id rooms) rooms),
    str_eq_iff id j,
    str_eq_iff role owner_role,
    str_eq_iff role viewer_role,
    str_eq_iff role s,
    str_eq_iff s owner_role,
    str_eq_iff s viewer_role,
    owner_ne_viewer,
  )

  pub slot-drop :
      (j s : Bytes)
      → slot (drop rooms id role p) j s ≡ (
          if str_eq id j && (str_eq role s && holds (slot rooms id role) p)
          then none
          else slot rooms j s)
  unfolding slot drop
  slot-drop j s = elim (Option-cases (lookup id rooms)) [
    | inl e ↦ rw (e, drop) (ground (arith, str_eq_iff id j))
    | inr (r, e) ↦
        rw (e, drop)
          (ground (
            arith,
            lookup-insert id j (vacate role p r) rooms,
            lookup-remove id j rooms,
            str_eq_iff id j,
            str_eq_iff role owner_role,
            str_eq_iff role viewer_role,
            str_eq_iff role s,
            str_eq_iff s owner_role,
            str_eq_iff s viewer_role,
            owner_ne_viewer,
          ))
  ]
