-- ===== src/Session/Owner/Supervision.antt =====
-- What the supervisor of claudy-p2p/cmd/dav-owner/main.go keeps open.
use some_go_foolery.Base.{
  ℕ, suc, ◌≡◌, ◌≢◌, ◌⊎◌, inl, inr, refl, sym, ap, Bool, true, false, not, ◌&&◌, ◌||◌, Option, none,
  some, List, [], ◌∷◌, ◌==◌, ==_iff, arith, if_cases, Bool-cases,
}
use some_go_foolery.Base.Bytes.{Bytes, bytes, str_eq}
use some_go_foolery.Base.Members.{has, has-without}
use some_go_foolery.Session.Viewer.{PeerState, connected, failed, closed, disconnected}
use some_go_foolery.Session.Owner.{
  Owner, Phase, waiting, retrying, stopped, new_owner_session, start, request_rebuild,
  in_race_window, classify_and_maybe_escalate, close, build_pc, turn, run_once, retry_from, retry,
  cancel_from, cancel, on_live_state, on_state, on_open, epoch_of, finish, install, serve_end,
  served, session_dies, watchdog, Outcome, refused, accepted, is_race, Answering, answers_well,
  answer, apply_to, handle_signal, Event, tick, supervise, waited, cancelled, state_change, opened,
  serve_returns, dies, watches, envelope, step, steps,
}

abbrev pub is_epoch : Option ℕ → ℕ → Bool
is_epoch none e = false
is_epoch (some d) e = d == e

-- After the session n another one was put in place, for a channel of the same peer connection.
abbrev pub displaced : ℕ → List (ℕ × ℕ) → Bool
displaced n [] = false
displaced n ((m, e) ∷ rest) = is_epoch (epoch_of n rest) e || displaced n rest

-- A session that is not closed is held, for the peer connection of now, or was displaced.
abbrev Accounted : Owner → Type 0
Accounted s =
    (n : ℕ)
    → has n s.live ≡ true
    → ((s.mux ≡ some n) × (epoch_of n s.installed ≡ some s.epoch))
      ⊎ (displaced n s.installed ≡ true)

-- At its select, with no peer connection, the supervisor has a rebuild to do.
abbrev Awake : Owner → Type 0
Awake s = s.phase ≡ waiting → s.pc ≡ none → s.rebuild_pending ≡ true

-- Until the supervisor returns, the held session has its watchdog, or a rebuild is due.
abbrev Heeded : Owner → Type 0
Heeded s =
    s.phase ≢ stopped → (n : ℕ) → s.mux ≡ some n → (has n s.watched || s.rebuild_pending) ≡ true

abbrev pub Kept : Owner → Type 0
Kept s = Accounted s × Awake s × Heeded s

-- What is left open after a close was open, and is not what was closed.
has-close :
    (n : ℕ) (o : Option ℕ) (l : List ℕ) → has n (close o l) ≡ true → (has n l ≡ true) × (o ≢ some n)
has-close n none l h = (h, λ q. cc)
has-close n (some m) l h = ground (arith, has-without n m l, ==_iff m n)

close-Accounted :
    (o : Option ℕ) (e : ℕ) (s : Owner)
    → Accounted s
    → Accounted (record s { mux = o; epoch = e; live = close s.mux s.live })
close-Accounted o e s h n i =
    let left = has-close n s.mux s.live i in
    elim (h n left.0) [ inl held ↦ absurd (left.1 held.0) | inr gone ↦ inr gone ]

request_rebuild-Kept : (s : Owner) → Accounted s → Kept (request_rebuild s)
unfolding request_rebuild
request_rebuild-Kept s h = (h, λ p q. refl, λ p n q. ground arith)

build_pc-Kept : (made : Bool) (s : Owner) → Accounted s → Kept (build_pc made s)
unfolding build_pc
build_pc-Kept true s h = (close-Accounted none (suc s.epoch) s h, λ p q. cc, λ p n q. cc)
build_pc-Kept false s h = (close-Accounted none s.epoch s h, λ p q. cc, λ p n q. cc)

turn-Kept : (p : Phase) (made : Bool) (s : Owner) → Kept s → Kept (turn p made s)
turn-Kept waiting made s h =
    if_cases Kept s.rebuild_pending (build_pc made (record s { rebuild_pending = false })) s
      (λ q. build_pc-Kept made (record s { rebuild_pending = false }) h.0) (λ q. h)
turn-Kept retrying made s h = h
turn-Kept stopped made s h = h

retry_from-Kept : (p : Phase) (s : Owner) → Kept s → Kept (retry_from p s)
retry_from-Kept waiting s h = h
retry_from-Kept retrying s h = request_rebuild-Kept (record s { phase = waiting }) h.0
retry_from-Kept stopped s h = h

cancel_from-Kept : (p : Phase) (s : Owner) → Kept s → Kept (cancel_from p s)
cancel_from-Kept waiting s h =
    (close-Accounted s.mux s.epoch s h.0, λ p q. cc, λ p n q. absurd (p refl))
cancel_from-Kept retrying s h = (h.0, λ p q. cc, λ p n q. absurd (p refl))
cancel_from-Kept stopped s h = h

classify-Kept : (s : Owner) → Kept s → Kept (classify_and_maybe_escalate s)
unfolding classify_and_maybe_escalate
classify-Kept s h = if_cases Kept (in_race_window s) s _ (λ q. h) (λ q. h)

on_live_state-Kept : (st : PeerState) (s : Owner) → Kept s → Kept (on_live_state st s)
on_live_state-Kept connected s h = h
on_live_state-Kept failed s h =
    request_rebuild-Kept (classify_and_maybe_escalate s) (classify-Kept s h).0
on_live_state-Kept closed s h = request_rebuild-Kept s h.0
on_live_state-Kept disconnected s h = h

install-Accounted :
    (m e : ℕ) (s : Owner)
    → s.epoch ≡ e
    → Accounted s
    → Accounted (record s {
      mux = some m;
      live = m ∷ s.live;
      watched = m ∷ s.watched;
      installed = (m, e) ∷ s.installed;
    })
unfolding has
install-Accounted m e s now h n i = elim (Bool-cases (n == m)) [
  | inl same ↦ inl (ground (arith, ==_iff n m), rw same (ap some (sym now)))
  | inr apart ↦ inr (later (h n (ground arith)))
]
  where
    later :
        ((s.mux ≡ some n) × (epoch_of n s.installed ≡ some s.epoch))
          ⊎ (displaced n s.installed ≡ true)
        → (is_epoch (epoch_of n s.installed) e || displaced n s.installed) ≡ true
    later (inl held) = rw held.1 (ground (arith, ==_iff s.epoch e))
    later (inr gone) = ground arith

install-Kept : (m e : ℕ) (s : Owner) → Kept s → Kept (install m e s)
unfolding has
install-Kept m e s h =
    if_cases Kept (s.epoch == e) _ s
      (λ q. (
        install-Accounted m e s ((==_iff s.epoch e).0 q) h.0,
        h.1,
        λ p n i. ground (arith, ==_iff n m),
      ))
      (λ q. h)

serve_end-Kept : (n : ℕ) (ok : Bool) (o : Option ℕ) (s : Owner) → Kept s → Kept (serve_end n ok o s)
serve_end-Kept n ok none s h = h
serve_end-Kept n false (some e) s h = request_rebuild-Kept s h.0
serve_end-Kept n true (some e) s h = install-Kept n e s h

session_dies-Kept : (n : ℕ) (s : Owner) → Kept s → Kept (session_dies n s)
unfolding session_dies
session_dies-Kept n s h = (λ m i. h.0 m (ground (arith, has-without m n s.live)), h.1, h.2)

watchdog-Kept : (n : ℕ) (s : Owner) → Kept s → Kept (watchdog n s)
unfolding watchdog request_rebuild
watchdog-Kept n s h =
    if_cases Kept (has n s.watched && not (has n s.live)) _ s
      (λ q. (h.0, λ p r. refl, λ p m r. ground arith)) (λ q. h)

answer-Kept : (e : ℕ) (a : Answering) (s : Owner) → Kept s → Kept (answer e a s)
answer-Kept e a s h = if_cases Kept (answers_well a) _ s (λ q. h) (λ q. h)

apply_to-Kept :
    (pc : Option ℕ) (kind : Bytes) (r : Outcome) (a : Answering) (s : Owner)
    → Kept s
    → Kept (apply_to pc kind r a s)
apply_to-Kept none kind r a s h = h
apply_to-Kept (some e) kind (refused msg) a s h = if_cases Kept (is_race msg) _ s (λ q. h) (λ q. h)
apply_to-Kept (some e) kind (accepted consumed) a s h =
    if_cases Kept (consumed && str_eq kind (bytes "sdp")) (answer e a s) s
      (λ q. answer-Kept e a s h) (λ q. h)

step-Kept : (e : Event) (s : Owner) → Kept s → Kept (step e s)
unfolding step run_once retry cancel on_state on_open served handle_signal
step-Kept (tick n) s h = h
step-Kept (supervise made) s h = turn-Kept s.phase made s h
step-Kept waited s h = retry_from-Kept s.phase s h
step-Kept cancelled s h = cancel_from-Kept s.phase s h
step-Kept (state_change e st) s h =
    if_cases Kept (s.epoch == e) _ s (λ q. on_live_state-Kept st s h) (λ q. h)
step-Kept (opened e label) s h =
    if_cases Kept (str_eq label (bytes "tunnel") && s.epoch == e) _ s (λ q. h) (λ q. h)
step-Kept (serve_returns n ok) s h =
    serve_end-Kept n ok (epoch_of n s.serving) (record s { serving = finish n s.serving }) h
step-Kept (dies n) s h = session_dies-Kept n s h
step-Kept (watches n) s h = watchdog-Kept n s h
step-Kept (envelope kind r a) s h =
    if_cases Kept (str_eq kind (bytes "ready")) _ _ (λ q. request_rebuild-Kept s h.0)
      (λ q. apply_to-Kept s.pc kind r a s h)

pub steps-Kept : (es : List Event) (s : Owner) → Kept s → Kept (steps es s)
unfolding steps
steps-Kept [] s h = h
steps-Kept (e ∷ es) s h = steps-Kept es (step e s) (step-Kept e s h)

pub start-Kept : (force_relay : Bool) (now : ℕ) → Kept (start force_relay now)
unfolding has
start-Kept force_relay now = request_rebuild-Kept (new_owner_session force_relay now) (λ n i. cc)

-- In any run, a tunnel session that is not closed is the one that is held, and it was put in place for a
-- channel of the peer connection of now, or another session was put in place after it for a channel of the
-- same peer connection.
pub sessions_accounted :
    (es : List Event) (force_relay : Bool) (now n : ℕ)
    → let s = steps es (start force_relay now) in
      has n s.live ≡ true
      → ((s.mux ≡ some n) × (epoch_of n s.installed ≡ some s.epoch))
        ⊎ (displaced n s.installed ≡ true)
sessions_accounted es force_relay now =
    (steps-Kept es (start force_relay now) (start-Kept force_relay now)).0
