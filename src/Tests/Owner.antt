-- ===== src/Tests/Owner.antt =====
-- Runs of the owner's supervisor.
use some_go_foolery.Base.{◌≡◌, refl, true, false, ◌⊎◌, suc, some, List, [], ◌∷◌}
use some_go_foolery.Base.Bytes.{bytes, str_eq}
use some_go_foolery.Base.Members.{has, without}
use some_go_foolery.Session.Viewer
use some_go_foolery.Session.Viewer.{failed}
use some_go_foolery.Session.Owner.{
  Owner, waiting, start, new_owner_session, request_rebuild, run_once, build_pc, on_open, served,
  watchdog, on_state, classify_and_maybe_escalate, in_race_window, epoch_of, step, steps, Event,
  supervise, opened, serve_returns, accepted, Answering, handle_signal,
}
use some_go_foolery.Session.Owner.Supervision.{displaced, sessions_accounted}
use some_go_foolery.Session.Owner.Attention.{is_broken, attended, never_stuck}
use some_go_foolery.Session.Owner.Mirror.{Twins, rebuilds_twice}

abbrev up : List Event
up = supervise true ∷ opened 1 (bytes "tunnel") ∷ serve_returns 0 true ∷ []

abbrev serving_well : Owner
serving_well = steps up (start false 0)

serving_well_lem : (serving_well.mux ≡ some 0) × (has 0 serving_well.live ≡ true)
unfolding steps step run_once request_rebuild build_pc on_open served str_eq has
serving_well_lem = (refl, refl)

sessions_accounted_example :
    ((serving_well.mux ≡ some 0) × (epoch_of 0 serving_well.installed ≡ some serving_well.epoch))
    ⊎ (displaced 0 serving_well.installed ≡ true)
sessions_accounted_example = sessions_accounted up false 0 0 serving_well_lem.1

-- The peer connection has failed while its tunnel was up.
abbrev falls : List Event
falls =
    supervise true
    ∷ opened 1 (bytes "tunnel")
    ∷ serve_returns 0 true
    ∷ Event.state_change 1 failed
    ∷ []

abbrev fallen : Owner
fallen = steps falls (start false 0)

fallen_waiting :
    (fallen.phase ≡ waiting)
    × (is_broken falls (start false 0) false ≡ true)
    × (fallen.rebuild_pending ≡ true)
unfolding steps step run_once request_rebuild build_pc on_open served str_eq on_state
    classify_and_maybe_escalate in_race_window
fallen_waiting = (refl, refl, refl)

never_stuck_example : attended (is_broken falls (start false 0) false) fallen ≡ true
never_stuck_example = never_stuck falls false 0 fallen_waiting.0

-- A second tunnel channel of one peer connection leaves the first session open, through a rebuild too.
leaks :
    has 0
      (steps
        (supervise true
          ∷ opened 1 (bytes "tunnel")
          ∷ opened 1 (bytes "tunnel")
          ∷ serve_returns 0 true
          ∷ serve_returns 1 true
          ∷ Event.envelope
              (bytes "ready")
              (accepted false)
              (record { creates = true; sets = true; sends = true })
          ∷ supervise true
          ∷ [])
        (start false 0)).live
    ≡ true
unfolding steps step run_once request_rebuild build_pc on_open served str_eq has without
    handle_signal
leaks = refl

twins : Twins (new_owner_session false 0) (Viewer.new_viewer_session false 0)
twins = record {
  rebuild_pending = refl;
  relay_only = refl;
  consecutive_fails = refl;
  last_sdp_race = refl;
  epoch = refl;
  now = refl;
}

abbrev due : Owner
due = record (new_owner_session false 0) {
  rebuild_pending = true;
  epoch = 1;
  pc = some 1;
  mux = some 0;
  live = 0 ∷ [];
  watched = 0 ∷ [];
}

due_watched : has 0 due.watched ≡ true
unfolding has
due_watched = refl

rebuilds_twice_example :
    let rebuilt = run_once true due in
    let asked = watchdog 0 rebuilt in
    (rebuilt.pc ≡ some (suc 1))
    × (rebuilt.rebuild_pending ≡ false)
    × (asked.rebuild_pending ≡ true)
    × ((run_once true asked).pc ≡ some (suc (suc 1)))
rebuilds_twice_example = rebuilds_twice due 0 refl refl refl due_watched

abbrev well : Answering
well = record { creates = true; sets = true; sends = true }
