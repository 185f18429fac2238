-- ===== src/Session/Viewer/Escalation.antt =====
-- When claudy-p2p/cmd/dav-client/main.go goes over to relayed paths.
use some_go_foolery.Base.{
  ℕ, suc, ◌≡◌, refl, Bool, true, false, not, ◌&&◌, ◌||◌, ltb, ◌==◌, if◌then◌else◌, arith,
  Bool-cases, inl, inr,
}
use some_go_foolery.Session.Viewer.{
  Viewer, request_rebuild, classify_and_maybe_escalate, in_race_window, PeerState, connected,
  failed, closed, disconnected, on_state,
}

abbrev is_failed : PeerState → Bool
is_failed failed = true
is_failed st = false

abbrev pub is_connected : PeerState → Bool
is_connected connected = true
is_connected st = false

-- The failure counts: the peer connection is the current one, and no stale description was just refused.
abbrev pub counts : ℕ → PeerState → Viewer → Bool
counts e st s = (s.epoch == e) && is_failed st && not (in_race_window s)

-- A state change of the epoch e counts a failure if it is one that counts, and a connection of the
-- current epoch sets the count back; the relay is forced if it was, or if a failure counts after at
-- least one other since the last connection.
pub on_state_lem :
    (e : ℕ) (st : PeerState) (s : Viewer)
    → ((on_state e st s).relay_only
        ≡ (s.relay_only || (counts e st s && ltb 0 s.consecutive_fails)))
      × ((on_state e st s).consecutive_fails ≡ (
          if counts e st s
          then suc s.consecutive_fails
          else if (s.epoch == e) && is_connected st
          then 0
          else s.consecutive_fails))
unfolding on_state classify_and_maybe_escalate request_rebuild
on_state_lem e connected s = elim (Bool-cases (s.epoch == e)) [
  | inl live ↦ rw live (ground arith, refl)
  | inr stale ↦ rw stale (ground arith, refl)
]
on_state_lem e closed s = elim (Bool-cases (s.epoch == e)) [
  | inl live ↦ rw live (ground arith, refl)
  | inr stale ↦ rw stale (ground arith, refl)
]
on_state_lem e disconnected s = elim (Bool-cases (s.epoch == e)) [
  | inl live ↦ rw live (ground arith, refl)
  | inr stale ↦ rw stale (ground arith, refl)
]
on_state_lem e failed s = elim (Bool-cases (s.epoch == e)) [
  | inr stale ↦ rw stale (ground arith, refl)
  | inl live ↦ elim (Bool-cases (in_race_window s)) [
    | inl race ↦ rw (live, race) (ground arith, refl)
    | inr counted ↦ rw (live, counted) (ground arith, refl)
  ]
]
