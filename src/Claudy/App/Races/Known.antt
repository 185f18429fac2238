-- ===== src/Claudy/App/Races/Known.antt =====
-- Whether the web service of claudy-p2p/cmd/claudy/main.go knows the children that run.
use some_go_foolery.Base.{
  ℕ, zero, suc, ◌≡◌, ◌≢◌, ◌⊎◌, inl, inr, refl, ap, sym, ◌∙◌, subst, Option, none, some, List, [],
  ◌∷◌, if◌then◌else◌, ◌==◌, ==_iff, Bool-cases, arith,
}
use some_go_foolery.Base.Bytes.{Bytes, str_eq_iff}
use some_go_foolery.Base.Dict.{lookup, lookup-insert}
use some_go_foolery.Claudy.Subprocess.{Subprocess, launch, stop}
use some_go_foolery.Claudy.App.{World, is_empty, put_slot, exits, stop_all}
use some_go_foolery.Claudy.App.Kills.{In, In-kill, In-kill_option, some_injective}
use some_go_foolery.Claudy.App.Owned.{unheld, insert-InSlot, mark_exited-cmd}
use some_go_foolery.Claudy.App.Commands.{
  Command, exited, start_share_with, add, remove_room, stop_sharing, stop_connecting, connect_to,
  relay, command, command-Owned, stop_all_empty,
}
use some_go_foolery.Claudy.App.Races.{
  Pending, slot_of, connection, stopping, begins_removing, begins_stopping_share,
  begins_stopping_connect, Racing, new_racing, child_of, to_store, begin_add, begin_free,
  begin_connect, store, below, pick, finished, finish, mark, mark_all, after_exit, Event, request,
  begins_adding, begins_connecting, finishes, step, steps, Free, Calm, AllCalm,
}
use some_go_foolery.Claudy.App.Races.Stops.{
  InPending, Held, Known, begin_remove-Known, begin_stop_share-Known, begin_stop_connect-Known,
}

cmd_cases : (m : ℕ) (o : Option ℕ) → (o ≡ some m) ⊎ (o ≢ some m)
cmd_cases m none = inr (λ q. cc)
cmd_cases m (some n) = elim (Bool-cases (n == m)) [
  | inl same ↦ inl (ap some ((==_iff n m).0 same))
  | inr apart ↦ inr (λ q. ground (arith, ==_iff n m, some_injective q))
]

pending_cases : (m : ℕ) (ps : List Pending) → InPending m ps ⊎ ¬ InPending m ps
pending_cases m [] = inr (λ i. i)
pending_cases m (p ∷ ps) = elim (cmd_cases m (child_of p).cmd) [
  | inl here ↦ inl (inl here)
  | inr away ↦ elim (pending_cases m ps) [
    | inl there ↦ inl (inr there)
    | inr none_left ↦ inr (λ i. elim i [ inl e ↦ away e | inr j ↦ none_left j ])
  ]
]

mark-cmd :
    (n m : ℕ) (failure : Option Bytes) (p : Pending)
    → n ≢ m
    → (child_of p).cmd ≡ some m
    → (child_of (mark n failure p)).cmd ≡ some m
mark-cmd n m failure (slot_of room sp) ne e = mark_exited-cmd n m failure sp ne e
mark-cmd n m failure (connection sp) ne e = mark_exited-cmd n m failure sp ne e
mark-cmd n m failure (stopping sp) ne e = mark_exited-cmd n m failure sp ne e

InPending-mark_all :
    (n m : ℕ) (failure : Option Bytes) (ps : List Pending)
    → n ≢ m
    → InPending m ps
    → InPending m (mark_all n failure ps)
InPending-mark_all n m failure [] ne i = elim i [ ]
InPending-mark_all n m failure (p ∷ ps) ne (inl e) = inl (mark-cmd n m failure p ne e)
InPending-mark_all n m failure (p ∷ ps) ne (inr i) = inr (InPending-mark_all n m failure ps ne i)

-- What is pending stays so over other requests, or no longer runs.
stays :
    (c : Command) (m : ℕ) (w : World) (ps : List Pending)
    → In m (command c w).running
    → InPending m ps
    → InPending m (after_exit c ps)
unfolding command exits
stays (exited n failure) m w ps i p =
    InPending-mark_all n m failure ps (λ e. (In-kill m n w.running i).1 (sym e)) p
stays (start_share_with dir abs is_dir) m w ps i p = p
stays (add room now start) m w ps i p = p
stays (remove_room room) m w ps i p = p
stays stop_sharing m w ps i p = p
stays stop_connecting m w ps i p = p
stays (connect_to room addr now start) m w ps i p = p
stays (relay b) m w ps i p = p

request-Known :
    (m : ℕ) (c : Command) (r : Racing)
    → Calm (request c) r
    → Known m r
    → Known m (record { world = command c r.world; pending = after_exit c r.pending })
request-Known m c r calm h i = elim (pending_cases m r.pending) [
  | inl p ↦ inr (stays c m r.world r.pending i p)
  | inr away ↦ inl (
      command-Owned m c r.world calm (λ j. elim (h j) [ inl held ↦ held | inr p ↦ absurd (away p) ])
        i)
]

to_store-Known :
    (m : ℕ) (start : Option ℕ) (p : ℕ → Pending) (r : Racing)
    → ((n : ℕ) → (child_of (p n)).cmd ≡ some n)
    → Known m r
    → Known m (to_store start p r)
to_store-Known m none p r c h i = h i
to_store-Known m (some n) p r c h (inl e) = inr (inl (c n ∙ ap some (sym e)))
to_store-Known m (some n) p r c h (inr i) = elim (h i) [ inl held ↦ inl held | inr q ↦ inr (inr q) ]

-- A pending child is the one that is picked, or is among the others.
abbrev pub Split : ℕ → Option (Pending × List Pending) → List Pending → Type 0
Split m none ps = InPending m ps
Split m (some (p, rest)) ps = ((child_of p).cmd ≡ some m) ⊎ InPending m rest

below-Split :
    (m : ℕ) (q : Pending) (o : Option (Pending × List Pending)) (ps : List Pending)
    → ((child_of q).cmd ≡ some m) ⊎ Split m o ps
    → Split m (below q o) (q ∷ ps)
below-Split m q none ps h = h
below-Split m q (some (p, rest)) ps (inl e) = inr (inl e)
below-Split m q (some (p, rest)) ps (inr (inl e)) = inl e
below-Split m q (some (p, rest)) ps (inr (inr i)) = inr (inr i)

pick-Split : (m i : ℕ) (ps : List Pending) → InPending m ps → Split m (pick i ps) ps
pick-Split m i [] h = h
pick-Split m zero (p ∷ ps) h = h
pick-Split m (suc i) (p ∷ ps) (inl e) = below-Split m p (pick i ps) ps (inl e)
pick-Split m (suc i) (p ∷ ps) (inr h) = below-Split m p (pick i ps) ps (inr (pick-Split m i ps h))

-- The end of a request keeps what is known of a child that runs after it.
store-Held :
    (m : ℕ) (p : Pending) (ps : List Pending) (w : World)
    → Free (some (p, ps)) w
    → In m (store p w).running
    → Held m w ⊎ ((child_of p).cmd ≡ some m)
    → Held m (store p w)
unfolding put_slot stop
store-Held m (slot_of room sp) ps w free i (inl (inl s)) =
    inl (insert-InSlot room sp m w.app.slots free s)
store-Held m (slot_of room sp) ps w free i (inl (inr c)) = inr c
store-Held m (slot_of room sp) ps w free i (inr e) = inl (
  room,
  sp,
  lookup-insert room room sp w.app.slots
      ∙ ap (λ b. if b then some sp else lookup room w.app.slots) ((str_eq_iff room room).1 refl),
  e,
)
store-Held m (connection sp) ps w free i (inl (inl s)) = inl s
store-Held m (connection sp) ps w free i (inl (inr (sq, taken, runs))) =
    absurd (unheld (sym free ∙ taken))
store-Held m (connection sp) ps w free i (inr e) = inr (sp, refl, e)
store-Held m (stopping sp) ps w free i (inl held) = held
store-Held m (stopping sp) ps w free i (inr e) = absurd ((In-kill_option m sp.cmd w.running i).1 e)

store-running : (m : ℕ) (p : Pending) (w : World) → In m (store p w).running → In m w.running
unfolding put_slot stop
store-running m (slot_of room sp) w i = i
store-running m (connection sp) w i = i
store-running m (stopping sp) w i = (In-kill_option m sp.cmd w.running i).0

finished-Known :
    (m : ℕ) (o : Option (Pending × List Pending)) (r : Racing)
    → (InPending m r.pending → Split m o r.pending)
    → Free o r.world
    → Known m r
    → Known m (finished o r)
finished-Known m none r among free h i = h i
finished-Known m (some (p, ps)) r among free h i = elim (h (store-running m p r.world i)) [
  | inl held ↦ inl (store-Held m p ps r.world free i (inl held))
  | inr q ↦ elim (among q) [
    | inl this ↦ inl (store-Held m p ps r.world free i (inr this))
    | inr other ↦ inr other
  ]
]

begin_add-Known :
    (m : ℕ) (room : Bytes) (now : ℕ) (start : Option ℕ) (r : Racing)
    → Known m r
    → Known m (begin_add room now start r)
unfolding begin_add launch
begin_add-Known m room now start r h = elim (Bool-cases (is_empty r.world.app.share_dir)) [
  | inl e ↦ rw e h
  | inr e ↦ rw e (to_store-Known m start _ r (λ n. refl) h)
]

begin_connect-Known :
    (m : ℕ) (room addr : Bytes) (now : ℕ) (start : Option ℕ) (r : Racing)
    → Known m r
    → Known m (begin_connect room addr now start r)
unfolding begin_connect launch
begin_connect-Known m room addr now start r h = go r.world.app.connect
  where
    go : (o : Option Subprocess) → Known m (begin_free o room addr now start r)
    go (some sp) = h
    go none = elim (Bool-cases (is_empty room)) [
      | inl e ↦ rw e h
      | inr e ↦ rw e (to_store-Known m start _ r (λ n. refl) h)
    ]

step-Known : (m : ℕ) (e : Event) (r : Racing) → Calm e r → Known m r → Known m (step e r)
unfolding step finish
step-Known m (request c) r calm h = request-Known m c r calm h
step-Known m (begins_adding room now start) r calm h = begin_add-Known m room now start r h
step-Known m (begins_connecting room addr now start) r calm h =
    begin_connect-Known m room addr now start r h
step-Known m (begins_removing room) r calm h = begin_remove-Known m room r h
step-Known m begins_stopping_share r calm h = begin_stop_share-Known m r h
step-Known m begins_stopping_connect r calm h = begin_stop_connect-Known m r h
step-Known m (finishes i) r calm h =
    finished-Known m (pick i r.pending) r (pick-Split m i r.pending) calm h

steps-Known :
    (m : ℕ) (es : List Event) (r : Racing) → AllCalm es r → Known m r → Known m (steps es r)
unfolding steps AllCalm
steps-Known m [] r calm h = h
steps-Known m (e ∷ es) r (c, cs) h = steps-Known m es (step e r) cs (step-Known m e r c h)

-- However requests interleave, as long as nothing that is stored replaces another child: every child that
-- runs is that of a slot, of the connection, or in the hands of a request that has not stored it yet or
-- whose stop of it is not over; and once no such request is left, the stop at the end of the program leaves
-- none.
pub children_known :
    (es : List Event) (m : ℕ)
    → AllCalm es new_racing
    → let r = steps es new_racing in
      (In m r.world.running → Held m r.world ⊎ InPending m r.pending)
      × (r.pending ≡ [] → ¬ In m (stop_all r.world).running)
children_known es m calm =
    let r = steps es new_racing in
    let known = steps-Known m es new_racing calm (λ i. elim i [ ]) in
    (
      known,
      λ empty.
          stop_all_empty m r.world (λ i. elim (known i) [
            | inl held ↦ held
            | inr p ↦ absurd (subst (InPending m) empty p)
          ]),
    )
