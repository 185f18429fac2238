-- ===== src/Session/Viewer/Epochs.antt =====
-- The tunnel that claudy-p2p/cmd/dav-client/main.go hands out.
use some_go_foolery.Base.{
  ℕ, suc, ◌≡◌, refl, Bool, true, false, ◌&&◌, Option, none, some, List, [], ◌∷◌, if◌then◌else◌,
  ◌==◌, ==_iff, arith, ltb,
}
use some_go_foolery.Base.Bytes.{Bytes, bytes, str_eq}
use some_go_foolery.Session.Viewer.{
  Viewer, new_viewer_session, request_rebuild, classify_and_maybe_escalate, in_race_window, rebuild,
  PeerState, connected, failed, closed, disconnected, on_live_state, on_state, on_open, install,
  channel_of, close_captured, close_ready, applied, apply_to, is_race, handle_signal, rebuilt,
  run_once, Event, tick, supervise, state_change, opened, closes_ready, tunnel_closed, envelope,
  step, steps,
}

abbrev Current : Viewer → Type 0
Current s = (e : ℕ) → s.mux ≡ some e → e ≡ s.epoch

no_tunnel : {P : Type 0} (e : ℕ) → none ≡ some e → P
no_tunnel e h = cc

rebuild-Current : (made : Bool) (s : Viewer) → Current (rebuild made s)
unfolding rebuild
rebuild-Current true s e h = no_tunnel e h
rebuild-Current false s e h = no_tunnel e h

rebuilt-Current : (made works : Bool) (s : Viewer) → Current (rebuilt made works s)
unfolding request_rebuild
rebuilt-Current made true s = rebuild-Current made s
rebuilt-Current made false s = rebuild-Current made s

run_once-Current : (made works : Bool) (s : Viewer) → Current s → Current (run_once made works s)
unfolding run_once
run_once-Current made works s h = go s.rebuild_pending
  where
    go :
        (b : Bool)
        → Current
            (if b then rebuilt made (made && works) (record s { rebuild_pending = false }) else s)
    go true = rebuilt-Current made (made && works) (record s { rebuild_pending = false })
    go false = h

classify-Current : (s : Viewer) → Current s → Current (classify_and_maybe_escalate s)
unfolding classify_and_maybe_escalate
classify-Current s h = go (in_race_window s)
  where
    go :
        (b : Bool)
        → Current (
            if b then s else record s {
              consecutive_fails = suc s.consecutive_fails;
              relay_only = if ltb (suc s.consecutive_fails) 2 then s.relay_only else true;
            })
    go true = h
    go false = h

on_live_state-Current : (st : PeerState) (s : Viewer) → Current s → Current (on_live_state st s)
unfolding request_rebuild
on_live_state-Current connected s h = h
on_live_state-Current failed s h = classify-Current s h
on_live_state-Current closed s h = h
on_live_state-Current disconnected s h = h

on_state-Current : (e : ℕ) (st : PeerState) (s : Viewer) → Current s → Current (on_state e st s)
unfolding on_state
on_state-Current e st s h = go (s.epoch == e)
  where
    go : (b : Bool) → Current (if b then on_live_state st s else s)
    go true = on_live_state-Current st s h
    go false = h

install-Current : (e : ℕ) (o : Option ℕ) (s : Viewer) → Current s → Current (install e o s)
install-Current e none s h = h
install-Current e (some k) s h = go (s.epoch == e) refl
  where
    same : {d : ℕ} → some e ≡ some d → e ≡ d
    same q = cc

    go :
        (b : Bool)
        → (s.epoch == e) ≡ b
        → Current (if b then record s { mux = some e; to_close = k ∷ s.to_close } else s)
    go true q = λ d i. ground (arith, ==_iff s.epoch e, same i)
    go false q = h

on_open-Current : (e : ℕ) (ok : Bool) (s : Viewer) → Current s → Current (on_open e ok s)
unfolding on_open request_rebuild
on_open-Current e true s h = install-Current e (channel_of e s.captured) s h
on_open-Current e false s h = h

close_captured-Current : (l : List ℕ) (s : Viewer) → Current s → Current (close_captured l s)
close_captured-Current [] s h = h
close_captured-Current (k ∷ ks) s h = h

applied-Current : (result : Option Bytes) (s : Viewer) → Current s → Current (applied result s)
applied-Current none s h = h
applied-Current (some msg) s h = go (is_race msg)
  where
    go : (b : Bool) → Current (if b then record s { last_sdp_race = s.now } else s)
    go true = h
    go false = h

apply_to-Current :
    (o : Option ℕ) (result : Option Bytes) (s : Viewer) → Current s → Current (apply_to o result s)
apply_to-Current none result s h = h
apply_to-Current (some pc) result s h = applied-Current result s h

handle_signal-Current :
    (kind : Bytes) (result : Option Bytes) (s : Viewer)
    → Current s
    → Current (handle_signal kind result s)
unfolding handle_signal request_rebuild
handle_signal-Current kind result s h = go (str_eq kind (bytes "ready"))
  where
    go :
        (b : Bool)
        → Current (if b then record s { rebuild_pending = true } else apply_to s.pc result s)
    go true = h
    go false = apply_to-Current s.pc result s h

step-Current : (e : Event) (s : Viewer) → Current s → Current (step e s)
unfolding step request_rebuild close_ready
step-Current (tick n) s h = h
step-Current (supervise made works) s h = run_once-Current made works s h
step-Current (state_change e st) s h = on_state-Current e st s h
step-Current (opened e ok) s h = on_open-Current e ok s h
step-Current closes_ready s h = close_captured-Current s.to_close s h
step-Current tunnel_closed s h = h
step-Current (envelope kind result) s h = handle_signal-Current kind result s h

steps-Current : (es : List Event) (s : Viewer) → Current s → Current (steps es s)
unfolding steps
steps-Current [] s h = h
steps-Current (e ∷ es) s h = steps-Current es (step e s) (step-Current e s h)

-- However callbacks, envelopes and rebuilds interleave, a tunnel that is handed out is that of the
-- latest peer connection, never one that a rebuild has replaced.
pub tunnel_is_current :
    (es : List Event) (force_relay : Bool) (now e : ℕ)
    → let s = steps es (new_viewer_session force_relay now) in s.mux ≡ some e → e ≡ s.epoch
tunnel_is_current es force_relay now e =
    steps-Current es (new_viewer_session force_relay now) (λ d h. no_tunnel d h) e
