-- ===== src/Session/Owner/Attention.antt =====
-- When the supervisor of claudy-p2p/cmd/dav-owner/main.go rebuilds.
use some_go_foolery.Base.{
  ℕ, suc, ==_iff, ◌≡◌, refl, sym, ◌∙◌, inl, inr, Bool, true, false, not, ◌&&◌, ◌||◌, Option, none,
  some, List, [], ◌∷◌, ◌==◌, arith, if_cases, Bool-cases,
}
use some_go_foolery.Base.Bytes.{Bytes, bytes, str_eq}
use some_go_foolery.Base.Members.{has}
use some_go_foolery.Session.Viewer.{PeerState, connected, failed, closed, disconnected}
use some_go_foolery.Session.Owner.{
  Owner, Phase, waiting, retrying, stopped, start, request_rebuild, build_pc, turn, run_once,
  retry_from, retry, cancel_from, cancel, on_live_state, on_state, on_open, epoch_of, finish,
  serve_end, served, session_dies, watchdog, Outcome, refused, accepted, is_race, Answering,
  answers_well, answer, apply_to, handle_signal, Event, tick, supervise, waited, cancelled,
  state_change, opened, serve_returns, dies, watches, envelope, step, steps,
}
use some_go_foolery.Session.Owner.Supervision.{steps-Kept, start-Kept, is_epoch}

abbrev is_terminal : PeerState → Bool
is_terminal connected = false
is_terminal failed = true
is_terminal closed = true
is_terminal disconnected = false

-- The event says that the peer connection of now is of no use: it has failed or is closed, its tunnel could
-- not be served, or the viewer has joined anew.
abbrev pub breaks : Event → Owner → Bool
breaks (tick n) s = false
breaks (supervise made) s = false
breaks waited s = false
breaks cancelled s = false
breaks (state_change e st) s = s.epoch == e && is_terminal st
breaks (opened e label) s = false
breaks (serve_returns n ok) s = is_epoch (epoch_of n s.serving) s.epoch && not ok
breaks (dies n) s = false
breaks (watches n) s = false
breaks (envelope kind r a) s = str_eq kind (bytes "ready")

-- Whether, after the event, the peer connection of now is known to be of no use; a new one is good.
abbrev broken_after : Event → Owner → Bool → Bool
broken_after e s broken = (step e s).epoch == s.epoch && (breaks e s || broken)

abbrev pub is_broken : List Event → Owner → Bool → Bool
is_broken [] s broken = broken
is_broken (e ∷ es) s broken = is_broken es (step e s) (broken_after e s broken)

-- At its select, the supervisor has a rebuild to do if its peer connection is of no use.
abbrev Mended : Bool → Owner → Type 0
Mended broken s = s.phase ≡ waiting → broken ≡ true → s.rebuild_pending ≡ true

-- What an event leaves mended that breaks nothing.
abbrev Unbroken : Bool → Owner → Type 0
Unbroken broken s = (same : Bool) → Mended (same && (false || broken)) s

unbroken : (broken : Bool) (s : Owner) → Mended broken s → Unbroken broken s
unbroken broken s h same p q = h p (ground arith)

turn-Mended :
    (p : Phase) (made broken : Bool) (s : Owner)
    → s.phase ≡ p
    → Mended broken s
    → Mended ((turn p made s).epoch == s.epoch && (false || broken)) (turn p made s)
unfolding build_pc
turn-Mended waiting made broken s at h =
    if_cases (λ (t : Owner). Mended (t.epoch == s.epoch && (false || broken)) t) s.rebuild_pending
      (build_pc made (record s { rebuild_pending = false })) s (λ due. rebuilt made)
      (λ idle. unbroken broken s h (s.epoch == s.epoch))
  where
    rebuilt :
        (made : Bool)
        → let t = build_pc made (record s { rebuild_pending = false }) in
          Mended (t.epoch == s.epoch && (false || broken)) t
    rebuilt true p q = ground (arith, ==_iff (suc s.epoch) s.epoch)
    rebuilt false p q = cc
turn-Mended retrying made broken s at h = unbroken broken s h (s.epoch == s.epoch)
turn-Mended stopped made broken s at h = unbroken broken s h (s.epoch == s.epoch)

retry_from-Unbroken :
    (p : Phase) (broken : Bool) (s : Owner) → Mended broken s → Unbroken broken (retry_from p s)
unfolding request_rebuild
retry_from-Unbroken waiting broken s h = unbroken broken s h
retry_from-Unbroken retrying broken s h = λ same p q. refl
retry_from-Unbroken stopped broken s h = unbroken broken s h

cancel_from-Unbroken :
    (p : Phase) (broken : Bool) (s : Owner) → Mended broken s → Unbroken broken (cancel_from p s)
cancel_from-Unbroken waiting broken s h = λ same p q. cc
cancel_from-Unbroken retrying broken s h = λ same p q. cc
cancel_from-Unbroken stopped broken s h = unbroken broken s h

on_state-Mended :
    (e : ℕ) (st : PeerState) (same broken : Bool) (s : Owner)
    → Mended broken s
    → Mended (same && (s.epoch == e && is_terminal st || broken)) (on_state e st s)
unfolding on_state request_rebuild
on_state-Mended e st same broken s h = elim (Bool-cases (s.epoch == e)) [
  | inl now ↦ rw now (heard st)
  | inr other ↦ rw other (unbroken broken s h same)
]
  where
    heard : (st : PeerState) → Mended (same && (is_terminal st || broken)) (on_live_state st s)
    heard connected = unbroken broken s h same
    heard failed = λ p q. refl
    heard closed = λ p q. refl
    heard disconnected = unbroken broken s h same

serve_end-Mended :
    (n : ℕ) (ok : Bool) (o : Option ℕ) (same broken : Bool) (s : Owner)
    → Mended broken s
    → Mended (same && (is_epoch o s.epoch && not ok || broken)) (serve_end n ok o s)
unfolding request_rebuild
serve_end-Mended n ok none same broken s h = unbroken broken s h same
serve_end-Mended n false (some e) same broken s h = λ p q. refl
serve_end-Mended n true (some e) same broken s h =
    if_cases (λ t. Mended (same && (e == s.epoch && false || broken)) t) (s.epoch == e) _ s
      (λ now p q. h p (ground arith)) (λ other p q. h p (ground arith))

watchdog-Unbroken :
    (n : ℕ) (broken : Bool) (s : Owner) → Mended broken s → Unbroken broken (watchdog n s)
unfolding watchdog request_rebuild
watchdog-Unbroken n broken s h =
    if_cases (Unbroken broken) (has n s.watched && not (has n s.live)) _ s (λ q same p r. refl)
      (λ q. unbroken broken s h)

apply_to-Unbroken :
    (pc : Option ℕ) (kind : Bytes) (r : Outcome) (a : Answering) (broken : Bool) (s : Owner)
    → Mended broken s
    → Unbroken broken (apply_to pc kind r a s)
apply_to-Unbroken none kind r a broken s h = unbroken broken s h
apply_to-Unbroken (some e) kind (refused msg) a broken s h =
    if_cases (Unbroken broken) (is_race msg) _ s (λ q. unbroken broken s h)
      (λ q. unbroken broken s h)
apply_to-Unbroken (some e) kind (accepted consumed) a broken s h =
    if_cases (Unbroken broken) (consumed && str_eq kind (bytes "sdp")) (answer e a s) s
      (λ q.
        if_cases (Unbroken broken) (answers_well a) _ s (λ r. unbroken broken s h)
          (λ r. unbroken broken s h))
      (λ q. unbroken broken s h)

step-Mended :
    (e : Event) (broken : Bool) (s : Owner)
    → Mended broken s
    → Mended (broken_after e s broken) (step e s)
unfolding step run_once retry cancel on_open served session_dies handle_signal request_rebuild
step-Mended (tick n) broken s h = unbroken broken s h _
step-Mended (supervise made) broken s h = turn-Mended s.phase made broken s refl h
step-Mended waited broken s h = retry_from-Unbroken s.phase broken s h _
step-Mended cancelled broken s h = cancel_from-Unbroken s.phase broken s h _
step-Mended (state_change e st) broken s h = on_state-Mended e st _ broken s h
step-Mended (opened e label) broken s h =
    if_cases (λ (t : Owner). Unbroken broken t) (str_eq label (bytes "tunnel") && s.epoch == e) _ s
      (λ q. unbroken broken s h) (λ q. unbroken broken s h) _
step-Mended (serve_returns n ok) broken s h =
    serve_end-Mended n ok (epoch_of n s.serving) _ broken
      (record s { serving = finish n s.serving }) h
step-Mended (dies n) broken s h = unbroken broken s h _
step-Mended (watches n) broken s h = watchdog-Unbroken n broken s h _
step-Mended (envelope kind r a) broken s h = elim (Bool-cases (str_eq kind (bytes "ready"))) [
  | inl again ↦ rw again (λ p q. refl)
  | inr other ↦ rw other (apply_to-Unbroken s.pc kind r a broken s h _)
]

steps-Mended :
    (es : List Event) (broken : Bool) (s : Owner)
    → Mended broken s
    → Mended (is_broken es s broken) (steps es s)
unfolding steps
steps-Mended [] broken s h = h
steps-Mended (e ∷ es) broken s h =
    steps-Mended es (broken_after e s broken) (step e s) (step-Mended e broken s h)

-- A rebuild is due, or a peer connection that is not broken waits for its tunnel, or its tunnel is not
-- closed, or the watchdog of the tunnel asks for a rebuild when it runs.
abbrev attended_with : Option ℕ → Option ℕ → Bool → Owner → Bool
attended_with none held broken s = s.rebuild_pending
attended_with (some e) none broken s = s.rebuild_pending || not broken
attended_with (some e) (some n) broken s =
    s.rebuild_pending || not broken && (has n s.live || (watchdog n s).rebuild_pending)

abbrev pub attended : Bool → Owner → Bool
attended broken s = attended_with s.pc s.mux broken s

watchdog_asks :
    (n : ℕ) (s : Owner)
    → (has n s.watched || s.rebuild_pending) ≡ true
    → (has n s.live || (watchdog n s).rebuild_pending) ≡ true
unfolding watchdog request_rebuild
watchdog_asks n s h = ground arith

Kept-attended :
    (pc held : Option ℕ) (broken : Bool) (s : Owner)
    → (pc ≡ none → s.rebuild_pending ≡ true)
    → (broken ≡ true → s.rebuild_pending ≡ true)
    → ((n : ℕ) → held ≡ some n → (has n s.watched || s.rebuild_pending) ≡ true)
    → attended_with pc held broken s ≡ true
Kept-attended none held broken s awake mended heeded = awake refl
Kept-attended (some e) none broken s awake mended heeded = waits broken mended
  where
    waits : (b : Bool) → (b ≡ true → s.rebuild_pending ≡ true) → (s.rebuild_pending || not b) ≡ true
    waits true m = rw (m refl) refl
    waits false m = ground arith
Kept-attended (some e) (some n) broken s awake mended heeded =
    held broken mended (watchdog_asks n s (heeded n refl))
  where
    held :
        (b : Bool)
        → (b ≡ true → s.rebuild_pending ≡ true)
        → (has n s.live || (watchdog n s).rebuild_pending) ≡ true
        → (s.rebuild_pending || not b && (has n s.live || (watchdog n s).rebuild_pending)) ≡ true
    held true m w = rw (m refl) refl
    held false m w = rw w (ground arith)

-- In any run, when the supervisor is at its select: it has a rebuild to do; or no event has said that its
-- peer connection is of no use, and that still waits for a tunnel, or its tunnel is not closed, or the
-- watchdog of the tunnel asks for a rebuild as soon as it runs.
pub never_stuck :
    (es : List Event) (force_relay : Bool) (now : ℕ)
    → let s = steps es (start force_relay now) in
      s.phase ≡ waiting → attended (is_broken es (start force_relay now) false) s ≡ true
never_stuck es force_relay now p =
    let s = steps es (start force_relay now) in
    let h = steps-Kept es (start force_relay now) (start-Kept force_relay now) in
    Kept-attended s.pc s.mux (is_broken es (start force_relay now) false) s (h.1 p)
      (steps-Mended es false (start force_relay now) (λ q r. cc) p) (h.2 (λ q. running (sym p ∙ q)))
  where
    running : waiting ≡ stopped → ⊥
    running q = cc
