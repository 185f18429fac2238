-- ===== src/Session/Owner/Mirror.antt =====
-- The two sides of claudy-p2p/cmd/dav-owner/main.go and claudy-p2p/cmd/dav-client/main.go that the first
-- calls twins, the answers of the owner, and what a rebuild of the owner sets off.
use some_go_foolery.Base.{
  ℕ, suc, ◌≡◌, refl, sym, Bool, true, false, ◌&&◌, Option, none, some, List, [], ◌∷◌, ◌++◌,
  if◌then◌else◌, ==_iff, arith, Bool-cases, if_cases, inl, inr,
}
use mathlib.Core.List.{append-nil}
use some_go_foolery.Base.Bytes.{Bytes, bytes, str_eq, str_eq_sound}
use some_go_foolery.Base.Members.{has, has-without}
use some_go_foolery.Session.Viewer
use some_go_foolery.Session.Viewer.{Viewer, PeerState, connected, failed, closed, disconnected}
use some_go_foolery.Session.Owner.{
  Owner, waiting, build_pc, run_once, request_rebuild, in_race_window, classify_and_maybe_escalate,
  on_state, watchdog, Outcome, refused, accepted, is_race, Answering, answers_well, apply_to,
  handle_signal,
}

-- The same policy: what decides when to rebuild and when to force the relay.
pub record Twins (s : Owner) (v : Viewer) : Type 0 where
  pub rebuild_pending : s.rebuild_pending ≡ v.rebuild_pending
  pub relay_only : s.relay_only ≡ v.relay_only
  pub consecutive_fails : s.consecutive_fails ≡ v.consecutive_fails
  pub last_sdp_race : s.last_sdp_race ≡ v.last_sdp_race
  pub epoch : s.epoch ≡ v.epoch
  pub now : s.now ≡ v.now

-- Every state change of a peer connection keeps the owner's policy and the viewer's the same.
on_state-Twins :
    (e : ℕ) (st : PeerState) {s : Owner} {v : Viewer}
    → Twins s v
    → Twins (on_state e st s) (Viewer.on_state e st v)
unfolding on_state in_race_window classify_and_maybe_escalate request_rebuild Viewer.on_state
    Viewer.in_race_window Viewer.classify_and_maybe_escalate Viewer.request_rebuild
on_state-Twins e connected t = ground arith
on_state-Twins e failed t = ground arith
on_state-Twins e closed t = ground arith
on_state-Twins e disconnected t = ground arith

-- A rebuild that closes a tunnel whose watchdog waits is followed by another: the watchdog asks for it
-- though the new peer connection is well, and the next turn of the supervisor replaces that one too.
pub rebuilds_twice :
    (s : Owner) (n : ℕ)
    → s.phase ≡ waiting
    → s.rebuild_pending ≡ true
    → s.mux ≡ some n
    → has n s.watched ≡ true
    → let rebuilt = run_once true s in
      let asked = watchdog n rebuilt in
      (rebuilt.pc ≡ some (suc s.epoch))
      × (rebuilt.rebuild_pending ≡ false)
      × (asked.rebuild_pending ≡ true)
      × ((run_once true asked).pc ≡ some (suc (suc s.epoch)))
unfolding run_once build_pc watchdog request_rebuild
rebuilds_twice s n p due held watched = ground (arith, has-without n n s.live, ==_iff n n)

-- The envelope brings a description that the peer connection has taken.
abbrev takes_sdp : Bytes → Outcome → Bool
takes_sdp kind (refused msg) = false
takes_sdp kind (accepted consumed) = consumed && str_eq kind (bytes "sdp")

abbrev new_answers : Option ℕ → Bool → List ℕ
new_answers none ok = []
new_answers (some e) ok = if ok then e ∷ [] else []

takes_ready :
    (kind : Bytes) (r : Outcome) → str_eq kind (bytes "ready") ≡ true → takes_sdp kind r ≡ false
unfolding str_eq
takes_ready kind (refused msg) h = refl
takes_ready kind (accepted consumed) h = rw (str_eq_sound kind (bytes "ready") h) (ground arith)

new_answers_none : (pc : Option ℕ) → new_answers pc false ≡ []
new_answers_none none = refl
new_answers_none (some e) = refl

answered :
    (e : ℕ) (taken well : Bool) (s : Owner)
    → (if taken then if well then record s { answers = s.answers ++ e ∷ [] } else s else s).answers
      ≡ s.answers ++ new_answers (some e) (taken && well)
answered e true true s = refl
answered e true false s = sym (append-nil s.answers)
answered e false well s = sym (append-nil s.answers)

-- Whatever arrives, one answer goes out, for the peer connection that is held, exactly if that took the
-- description of an sdp envelope and the answer could be made, set and sent; otherwise none.
handle_signal_lem :
    (kind : Bytes) (r : Outcome) (a : Answering) (s : Owner)
    → (handle_signal kind r a s).answers
      ≡ s.answers ++ new_answers s.pc (takes_sdp kind r && answers_well a)
unfolding handle_signal request_rebuild
handle_signal_lem kind r a s = elim (Bool-cases (str_eq kind (bytes "ready"))) [
  | inl ready ↦
      rw (ready, takes_ready kind r ready, new_answers_none s.pc) (sym (append-nil s.answers))
  | inr other ↦ rw other (by_pc s.pc r)
]
  where
    by_pc :
        (pc : Option ℕ) (r : Outcome)
        → (apply_to pc kind r a s).answers
          ≡ s.answers ++ new_answers pc (takes_sdp kind r && answers_well a)
    by_pc none r = sym (append-nil s.answers)
    by_pc (some e) (refused msg) =
        if_cases (λ t. t.answers ≡ s.answers ++ []) (is_race msg)
          (record s { last_sdp_race = s.now }) s (λ q. sym (append-nil s.answers))
          (λ q. sym (append-nil s.answers))
    by_pc (some e) (accepted consumed) =
        answered e (consumed && str_eq kind (bytes "sdp")) (answers_well a) s
