-- ===== src/Tests/Session.antt =====
-- Runs of the viewer's supervisor.
use some_go_foolery.Base.{
  ◌≡◌, refl, true, false, ◌&&◌, ◌||◌, ltb, ◌==◌, some, List, [], ◌∷◌, if◌then◌else◌,
}
use some_go_foolery.Session.Viewer.{
  Viewer, new_viewer_session, count, supervise, opened, closes_ready, tunnel_closed, failed, step,
  steps, request_rebuild, run_once, rebuild, on_open, close_ready, on_state, Event,
}
use some_go_foolery.Session.Viewer.Epochs.{tunnel_is_current}
use some_go_foolery.Session.Viewer.Escalation.{counts, is_connected, on_state_lem}

abbrev up : List Event
up = tunnel_closed ∷ supervise true true ∷ opened 1 true ∷ []

up_in_epoch_1 : (steps up (new_viewer_session false 0)).mux ≡ some 1
unfolding steps step request_rebuild run_once rebuild on_open
up_in_epoch_1 = refl

tunnel_is_current_example : 1 ≡ (steps up (new_viewer_session false 0)).epoch
tunnel_is_current_example = tunnel_is_current up false 0 1 up_in_epoch_1

-- A rebuild between the install of a tunnel and the close of its channel.
abbrev overtaken : List Event
overtaken =
    tunnel_closed
    ∷ supervise true true
    ∷ opened 1 true
    ∷ tunnel_closed
    ∷ supervise true true
    ∷ closes_ready
    ∷ opened 2 true
    ∷ closes_ready
    ∷ []

closes_twice : count 0 (steps overtaken (new_viewer_session false 0)).closes ≡ 2
unfolding steps step request_rebuild run_once rebuild on_open close_ready
closes_twice = refl

abbrev failed_once : Viewer
failed_once = record (new_viewer_session false 50) { epoch = 1; consecutive_fails = 1 }

on_state_lem_example :
    ((on_state 1 failed failed_once).relay_only
      ≡ (false || (counts 1 failed failed_once && ltb 0 1)))
    × ((on_state 1 failed failed_once).consecutive_fails ≡ (
        if counts 1 failed failed_once
        then 2
        else if (1 == 1) && is_connected failed
        then 0
        else 1))
on_state_lem_example = on_state_lem 1 failed failed_once
