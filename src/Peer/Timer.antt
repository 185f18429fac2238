-- ===== src/Peer/Timer.antt =====
-- The atomicTimer of claudy-p2p/internal/peer/conn.go, with the goroutines that the runtime starts for
-- its timers. A channel is the number of its creation; the clock is in nanoseconds, and a time that is
-- zero is `none`.
use some_go_foolery.Base.{
  ℕ, suc, ◌+◌, ◌<◌, ◌≤◌, ◌≡◌, refl, Bool, true, false, Option, none, some, List, [], ◌∷◌, ltb, leb,
  ◌==◌, ==_iff, if◌then◌else◌, All, arith, ap, ◌⊎◌, ◌∙◌, sym, Bool-cases, inl, inr,
}

-- A scheduled function and its channel, and the time at which it is due.
pub record Alarm : Type 0 where
  pub due : ℕ
  pub channel : ℕ

-- `timer` and `fired` are the fields of the type. `started` are the functions that have begun and have
-- not closed their channel; `closed` lists every close; `made` counts the channels.
pub record Timer : Type 0 where
  pub now : ℕ
  pub timer : Option Alarm
  pub fired : Option ℕ
  pub started : List ℕ
  pub closed : List ℕ
  pub made : ℕ

abbrev pub new_timer : Timer
new_timer = record { now = 0; timer = none; fired = none; started = []; closed = []; made = 0 }

-- `Stop`, which prevents a function that has not begun.
abbrev pub stop : Timer → Timer
stop t = record t { timer = none; fired = none }

-- The body of `set`, under the mutex.
unfoldable pub set : Option ℕ → Timer → Timer
set none t = stop t
set (some at) t =
    if leb at t.now
    then record t {
      timer = none;
      fired = some t.made;
      closed = t.made ∷ t.closed;
      made = suc t.made;
    }
    else record t {
      timer = some (record { due = at; channel = t.made });
      fired = some t.made;
      made = suc t.made;
    }

-- The clock moves; a timer that is due starts its function; a function closes its channel.
pub data Event : Type 0 where
  tick : ℕ → Event
  set_to : Option ℕ → Event
  expire close_first : Event

abbrev pub expire_alarm : Timer → Option Alarm → Timer
expire_alarm t none = t
expire_alarm t (some a) =
    if leb a.due t.now then record t { timer = none; started = a.channel ∷ t.started } else t

abbrev pub close_started : Timer → List ℕ → Timer
close_started t [] = t
close_started t (k ∷ ks) = record t { started = ks; closed = k ∷ t.closed }

unfoldable pub step : Event → Timer → Timer
step (tick n) t = record t { now = t.now + n }
step (set_to d) t = set d t
step expire t = expire_alarm t t.timer
step close_first t = close_started t t.started

unfoldable pub run : List Event → Timer → Timer
run [] t = t
run (e ∷ es) t = run es (step e t)

abbrev pub one : Bool → ℕ
one true = 1
one false = 0

abbrev pub count : ℕ → List ℕ → ℕ
count k [] = 0
count k (x ∷ xs) = one (k == x) + count k xs

abbrev alarms : ℕ → Option Alarm → ℕ
alarms k none = 0
alarms k (some a) = one (k == a.channel)

-- A channel is in one place at most, and one that is not made is in none.
abbrev pub Inv : Timer → Type 0
Inv t = (k : ℕ) → alarms k t.timer + count k t.started + count k t.closed ≤ one (ltb k t.made)

one_eq : (k m : ℕ) → one (ltb k m) + one (k == m) ≡ one (ltb k (suc m))
one_eq k m = ground (arith, ==_iff k m)

set-Inv : (d : Option ℕ) (t : Timer) → Inv t → Inv (set d t)
unfolding set
set-Inv none t h k = omega (arith, h k)
set-Inv (some at) t h k = elim (Bool-cases (leb at t.now)) [
  | inl e ↦ rw e (omega (arith, h k, one_eq k t.made))
  | inr e ↦ rw e (omega (arith, h k, one_eq k t.made))
]

expire-Inv : (o : Option Alarm) (t : Timer) → t.timer ≡ o → Inv t → Inv (expire_alarm t o)
expire-Inv none t e h = h
expire-Inv (some a) t e h = elim (Bool-cases (leb a.due t.now)) [
  | inl due ↦ rw due (λ k.
      let moved : alarms k t.timer ≡ one (k == a.channel) = ap (alarms k) e in
      omega (arith, h k, moved))
  | inr early ↦ rw early h
]

close-Inv : (l : List ℕ) (t : Timer) → t.started ≡ l → Inv t → Inv (close_started t l)
close-Inv [] t e h = h
close-Inv (c ∷ cs) t e h = λ k.
    let moved : count k t.started ≡ count k (c ∷ cs) = ap (count k) e in omega (arith, h k, moved)

step-Inv : (e : Event) (t : Timer) → Inv t → Inv (step e t)
unfolding step
step-Inv (tick n) t h = h
step-Inv (set_to d) t h = set-Inv d t h
step-Inv expire t h = expire-Inv t.timer t refl h
step-Inv close_first t h = close-Inv t.started t refl h

pub run-Inv : (es : List Event) (t : Timer) → Inv t → Inv (run es t)
unfolding run
run-Inv [] t h = h
run-Inv (e ∷ es) t h = run-Inv es (step e t) (step-Inv e t h)

-- Whatever is set and however the timers and their functions run, no channel is closed twice.
closed_once : (es : List Event) (k : ℕ) → count k (run es new_timer).closed ≤ 1
closed_once es k = let bound = run-Inv es new_timer (λ j. omega arith) k in ground (arith, bound)

abbrev NotSet : Event → Type 0
NotSet (set_to d) = ⊥
NotSet e = Unit

-- Since `set` the channel is current, its alarm is for that time, and it is closed no earlier.
record Waits (at c : ℕ) (t : Timer) : Type 0 where
  current : t.fired ≡ some c
  on_time : (t.timer ≡ none) ⊎ (t.timer ≡ some (record { due = at; channel = c }))
  due : 0 < count c t.started + count c t.closed → at ≤ t.now

set-Waits : (at : ℕ) (t : Timer) → Inv t → Waits at t.made (set (some at) t)
unfolding set
set-Waits at t h = elim (Bool-cases (leb at t.now)) [
  | inl past ↦ rw past (record { current = refl; on_time = inl refl; due = λ q. ground arith })
  | inr future ↦
      rw future (record { current = refl; on_time = inr refl; due = λ q. ground (arith, h t.made) })
]

expire-Waits :
    (at c : ℕ) (o : Option Alarm) (t : Timer)
    → t.timer ≡ o
    → Waits at c t
    → Waits at c (expire_alarm t o)
expire-Waits at c none t e w = w
expire-Waits at c (some a) t e w = elim w.on_time [
  | inl off ↦ absurd (clash (sym off ∙ e))
  | inr on ↦ elim (Bool-cases (leb a.due t.now)) [
    | inl due ↦ rw due (
        let same : a.due ≡ at = ap due_of (sym e ∙ on) in
        record { current = w.current; on_time = inl refl; due = λ q. ground (arith, same) })
    | inr early ↦ rw early w
  ]
]
  where
    clash : none ≡ some a → ⊥
    clash h = cc

    due_of : Option Alarm → ℕ
    due_of none = 0
    due_of (some b) = b.due

close-Waits :
    (at c : ℕ) (l : List ℕ) (t : Timer)
    → t.started ≡ l
    → Waits at c t
    → Waits at c (close_started t l)
close-Waits at c [] t e w = w
close-Waits at c (k ∷ ks) t e w = record {
  current = w.current;
  on_time = w.on_time;
  due = λ q. w.due (omega (arith, q, moved));
}
  where
    moved : count c t.started ≡ count c (k ∷ ks)
    moved = ap (count c) e

step-Waits : (at c : ℕ) (e : Event) (t : Timer) → NotSet e → Waits at c t → Waits at c (step e t)
unfolding step
step-Waits at c (tick n) t o w = record {
  current = w.current;
  on_time = w.on_time;
  due = λ q. omega (arith, w.due q);
}
step-Waits at c (set_to d) t o w = absurd o
step-Waits at c expire t o w = expire-Waits at c t.timer t refl w
step-Waits at c close_first t o w = close-Waits at c t.started t refl w

run-Waits :
    (at c : ℕ) (es : List Event) (t : Timer) → All NotSet es → Waits at c t → Waits at c (run es t)
unfolding run
run-Waits at c [] t o w = w
run-Waits at c (e ∷ es) t (o, os) w = run-Waits at c es (step e t) os (step-Waits at c e t o w)

-- After any run and a `set`, until the next one, the channel of that `set` is the current one, and it
-- is closed only when the time has come.
pub not_early :
    (before after : List Event) (at : ℕ)
    → All NotSet after
    → let t = run before new_timer in
      let t' = run after (set (some at) t) in
      (t'.fired ≡ some t.made) × (0 < count t.made t'.closed → at ≤ t'.now)
not_early before after at o =
    let t = run before new_timer in
    let w =
      run-Waits at t.made after (set (some at) t) o
        (set-Waits at t (run-Inv before new_timer (λ j. omega arith))) in
    (w.current, λ q. w.due (omega arith))

close_started-count :
    (k : ℕ) (l : List ℕ) (t : Timer) → count k t.closed ≤ count k (close_started t l).closed
close_started-count k [] t = omega arith
close_started-count k (x ∷ xs) t = omega arith

self : (k : ℕ) → one (k == k) ≡ 1
self k = ground (arith, ==_iff k k)

-- Once the time has come, the timer's function closes the channel of the `set`.
closes_on_time :
    (at n : ℕ) (t : Timer)
    → at ≤ t.now + n
    → 0 < count t.made (run (tick n ∷ expire ∷ close_first ∷ []) (set (some at) t)).closed
unfolding run step set
closes_on_time at n t h = elim (Bool-cases (leb at t.now)) [
  | inl past ↦ rw past (
      let past_set = set (some at) t in
      let more = close_started-count t.made t.started (record t {
        now = t.now + n;
        timer = none;
        fired = some t.made;
        closed = t.made ∷ t.closed;
        made = suc t.made;
      }) in
      omega (arith, self t.made, more))
  | inr future ↦
      let due : leb at (t.now + n) ≡ true = ground arith in
      rw (future, due) (omega (arith, self t.made))
]
