-- ===== src/Signaling/Client/Recovery.antt =====
-- Reconnects, sends and receives of claudy-p2p/internal/signaling/client.go.
use some_go_foolery.Base.{
  ℕ, zero, suc, ◌*◌, ◌≡◌, ◌≢◌, ◌⊎◌, inl, inr, refl, ap, sym, subst, Bool, true, false, ltb, Option,
  none, some, List, [], ◌∷◌, ◌++◌, if◌then◌else◌, Bool-cases, All, arith,
}
use some_go_foolery.Signaling.{Envelope}
use some_go_foolery.Signaling.Client.{
  first_backoff, next_backoff, Error, is_recoverable, Client, join_envelope, Attempt, Dialed,
  dial_failed, join_failed, joined, End, reconnected, client_closed, still_trying, Reconnect,
  waited, after_dial, redial, reconnect_locked, Outcome, done, got, failed, reconnect_failed,
  nil_conn, unfinished, write_json, write_on, on_end, after_reconnect, write_now, first_write,
  write_somewhere, write_envelope, Read, arrives, breaks, read_on, recv,
}

abbrev doubled : ℕ → ℕ
doubled zero = 250
doubled (suc k) = doubled k * 2

-- The wait number k: 250 ms doubled k times, and 5 s at most.
abbrev capped : ℕ → ℕ
capped k = if ltb 5000 (doubled k) then 5000 else doubled k

-- The waits are those from number k on.
abbrev Doubling : ℕ → List ℕ → Type 0
Doubling k [] = Unit
Doubling k (w ∷ ws) = (w ≡ capped k) × Doubling (suc k) ws

next_backoff-capped : (k : ℕ) → next_backoff (capped k) ≡ capped (suc k)
next_backoff-capped k = ground arith

after_dial-Doubling :
    (k : ℕ) (d : Dialed) (closing : Bool) (c : Client) (r : Reconnect)
    → Doubling (suc k) r.waits
    → Doubling k (after_dial (capped k) d closing c r).waits
after_dial-Doubling k dial_failed true c r h = (refl, tt)
after_dial-Doubling k dial_failed false c r h = (refl, h)
after_dial-Doubling k (join_failed n) true c r h = (refl, tt)
after_dial-Doubling k (join_failed n) false c r h = (refl, h)
after_dial-Doubling k (joined n) closing c r h = tt

redial-Doubling :
    (k : ℕ) (attempts : List Attempt) (c : Client) → Doubling k (redial (capped k) attempts c).waits
unfolding redial
redial-Doubling k [] c = tt
redial-Doubling k (a ∷ attempts) c = elim (Bool-cases a.closed_before) [
  | inl e ↦ rw e tt
  | inr e ↦ rw e (
      after_dial-Doubling k a.dialed a.closed_waiting c
        (redial (next_backoff (capped k)) attempts c)
        (subst (λ b. Doubling (suc k) (redial b attempts c).waits) (sym (next_backoff-capped k))
          (redial-Doubling (suc k) attempts c)))
]

-- A loop that has ended well has sent its join first on the new socket; one that was closed has no
-- socket and has sent nothing.
abbrev pub Ends : Client → Reconnect → Type 0
Ends c r =
    (r.end ≡ reconnected
      → (n : ℕ) × (r.client.conn ≡ some n) × (r.client.sent ≡ (n, join_envelope c) ∷ c.sent))
    × (r.end ≡ client_closed → (r.client.conn ≡ none) × (r.client.sent ≡ c.sent))

waited-Ends :
    (b : ℕ) (closing : Bool) (c : Client) (r : Reconnect)
    → c.conn ≡ none
    → Ends c r
    → Ends c (waited b closing c r)
waited-Ends b true c r n h = (λ e. absurd (clash e), λ e. (n, refl))
  where
    clash : client_closed ≡ reconnected → ⊥
    clash e = cc
waited-Ends b false c r n h = h

after_dial-Ends :
    (b : ℕ) (d : Dialed) (closing : Bool) (c : Client) (r : Reconnect)
    → c.conn ≡ none
    → Ends c r
    → Ends c (after_dial b d closing c r)
after_dial-Ends b dial_failed closing c r n h = waited-Ends b closing c r n h
after_dial-Ends b (join_failed m) closing c r n h = waited-Ends b closing c r n h
after_dial-Ends b (joined m) closing c r n h = (λ e. (m, refl, refl), λ e. absurd (clash e))
  where
    clash : reconnected ≡ client_closed → ⊥
    clash e = cc

redial-Ends :
    (b : ℕ) (attempts : List Attempt) (c : Client) → c.conn ≡ none → Ends c (redial b attempts c)
unfolding redial
redial-Ends b [] c n = (λ e. absurd (clash e), λ e. absurd (clash' e))
  where
    clash : still_trying ≡ reconnected → ⊥
    clash e = cc

    clash' : still_trying ≡ client_closed → ⊥
    clash' e = cc
redial-Ends b (a ∷ attempts) c n = elim (Bool-cases a.closed_before) [
  | inl e ↦ rw e (λ q. absurd (clash q), λ q. (n, refl))
  | inr e ↦ rw e (
      after_dial-Ends b a.dialed a.closed_waiting c (redial (next_backoff b) attempts c) n
        (redial-Ends (next_backoff b) attempts c n))
]
  where
    clash : client_closed ≡ reconnected → ⊥
    clash q = cc

-- The waits of a reconnect double from 250 ms up to 5 s. When it succeeds, its join is the first
-- envelope on the new socket, and all that it sent; when the client is closed, there is no socket.
reconnect_locked_lem :
    (attempts : List Attempt) (c : Client)
    → let r = reconnect_locked attempts c in
      Doubling 0 r.waits
      × (r.end ≡ reconnected
          → (n : ℕ) × (r.client.conn ≡ some n) × (r.client.sent ≡ (n, join_envelope c) ∷ c.sent))
      × (r.end ≡ client_closed → (r.client.conn ≡ none) × (r.client.sent ≡ c.sent))
unfolding reconnect_locked
reconnect_locked_lem attempts c =
    let without = record c { conn = none } in
    let (ok, closed) = redial-Ends first_backoff attempts without refl in
    (redial-Doubling 0 attempts without, ok, closed)

-- A read that breaks with a recoverable error, after which the loop reaches the broker again.
abbrev pub Recovers : Read → Type 0
Recovers (arrives e) = ⊥
Recovers (breaks err attempts) =
    (is_recoverable err ≡ true) × ((c : Client) → (reconnect_locked attempts c).end ≡ reconnected)

-- However often the socket breaks with a recoverable error, where each time the loop reaches the broker
-- again, Recv returns the first envelope that arrives.
pub recv_lem :
    (rs more : List Read) (e : Envelope) (c : Client) (n : ℕ)
    → c.conn ≡ some n
    → All Recovers rs
    → (recv (rs ++ arrives e ∷ more) c).0 ≡ got e
unfolding recv reconnect_locked
recv_lem [] more e c n h o = rw h refl
recv_lem (arrives d ∷ rs) more e c n h (o, os) = absurd o
recv_lem (breaks err attempts ∷ rs) more e c n h ((again, reaches), os) =
    rw (h, again, reaches c)
      (later (recv_lem rs more e (reconnect_locked attempts c).client)
        ((reconnect_locked_lem attempts c).1 (reaches c)))
  where
    later :
        ((m : ℕ)
          → (reconnect_locked attempts c).client.conn ≡ some m
          → All Recovers rs
          → (recv (rs ++ arrives e ∷ more) (reconnect_locked attempts c).client).0 ≡ got e)
        → (m : ℕ) × ((reconnect_locked attempts c).client.conn ≡ some m)
          × ((reconnect_locked attempts c).client.sent ≡ (m, join_envelope c) ∷ c.sent)
        → (recv (rs ++ arrives e ∷ more) (reconnect_locked attempts c).client).0 ≡ got e
    later rest (m, conn, sent) = rest m conn os

-- What a Send that has worked has put on the current socket: the envelope, and before it, if the socket
-- is new, the join.
abbrev pub Sent : Envelope → Client → Client → Type 0
Sent e c c' =
    (n : ℕ) × (c'.conn ≡ some n)
    × ((c'.sent ≡ (n, e) ∷ c.sent) ⊎ (c'.sent ≡ (n, e) ∷ (n, join_envelope c) ∷ c.sent))

abbrev Holds : Envelope → Client → Outcome × Client → Type 0
Holds e c r = (r.0 ≡ done → Sent e c r.1) × (r.0 ≡ reconnect_failed → r.1.conn ≡ none)

not_done : {o : Outcome} {P : Type 0} → o ≢ done → o ≡ done → P
not_done h e = absurd (h e)

write_json-Holds :
    (e : Envelope) (r : Option Error) (c c' : Client) (n : ℕ)
    → c'.conn ≡ some n
    → (c'.sent ≡ c.sent) ⊎ (c'.sent ≡ (n, join_envelope c) ∷ c.sent)
    → Holds e c (write_json e r n c')
write_json-Holds e none c c' n h (inl s) =
    (λ o. (n, h, inl (ap (◌∷◌ (n, e)) s)), λ o. absurd (clash o))
  where
    clash : done ≡ reconnect_failed → ⊥
    clash o = cc
write_json-Holds e none c c' n h (inr s) =
    (λ o. (n, h, inr (ap (◌∷◌ (n, e)) s)), λ o. absurd (clash o))
  where
    clash : done ≡ reconnect_failed → ⊥
    clash o = cc
write_json-Holds e (some err) c c' n h s = (λ o. absurd (clash o), λ o. absurd (clash' o))
  where
    clash : failed err ≡ done → ⊥
    clash o = cc

    clash' : failed err ≡ reconnect_failed → ⊥
    clash' o = cc

after_reconnect-Holds :
    (e : Envelope) (second : Option Error) (c : Client) (r : Reconnect)
    → Ends c r
    → Holds e c (after_reconnect r (write_now e second))
after_reconnect-Holds e second c r h = go r.end refl
  where
    go : (end : End) → r.end ≡ end → Holds e c (on_end end r.client (write_now e second))
    go reconnected q =
        let (n, conn, sent) = h.0 q in
        subst (λ o. Holds e c (write_on e second o r.client)) (sym conn)
          (write_json-Holds e second c r.client n conn (inr sent))
    go client_closed q = (λ o. absurd (clash o), λ o. (h.1 q).0)
      where
        clash : reconnect_failed ≡ done → ⊥
        clash o = cc
    go still_trying q = (λ o. absurd (clash o), λ o. absurd (clash' o))
      where
        clash : unfinished ≡ done → ⊥
        clash o = cc

        clash' : unfinished ≡ reconnect_failed → ⊥
        clash' o = cc

first_write-Holds :
    (e : Envelope) (first : Option Error) (attempts : List Attempt) (second : Option Error)
    (c : Client) (n : ℕ)
    → c.conn ≡ some n
    → Holds e c (first_write e first attempts second n c)
first_write-Holds e none attempts second c n h = write_json-Holds e none c c n h (inl refl)
first_write-Holds e (some err) attempts second c n h = elim (Bool-cases (is_recoverable err)) [
  | inl again ↦ rw again (
      let (waits, ok, closed) = reconnect_locked_lem attempts c in
      after_reconnect-Holds e second c (reconnect_locked attempts c) (ok, closed))
  | inr fatal ↦ rw fatal (λ o. absurd (clash o), λ o. absurd (clash' o))
]
  where
    clash : failed err ≡ done → ⊥
    clash o = cc

    clash' : failed err ≡ reconnect_failed → ⊥
    clash' o = cc

write_envelope-Holds :
    (e : Envelope) (first : Option Error) (attempts : List Attempt) (second : Option Error)
    (c : Client) (n : ℕ)
    → c.conn ≡ some n
    → Holds e c (write_envelope e first attempts second c)
unfolding write_envelope
write_envelope-Holds e first attempts second c n h =
    subst (λ o. Holds e c (write_somewhere e first attempts second o c)) (sym h)
      (first_write-Holds e first attempts second c n h)

no_socket :
    (c : Client) (e : Envelope) (r : Read)
    → c.conn ≡ none
    → ((write_envelope e none [] none c).0 ≡ nil_conn) × ((recv (r ∷ []) c).0 ≡ nil_conn)
unfolding write_envelope recv
no_socket c e r h = (
  subst (λ o. (write_somewhere e none [] none o c).0 ≡ nil_conn) (sym h) refl,
  subst (λ o. (read_on o r (recv []) c).0 ≡ nil_conn) (sym h) refl,
)

-- A Send that works has put its envelope on the current socket, behind the join if the socket is new and
-- behind nothing else. One that failed to reconnect leaves no socket, and from then on every Send and
-- Recv is a method call on no socket.
pub write_envelope_lem :
    (e : Envelope) (first : Option Error) (attempts : List Attempt) (second : Option Error)
    (c : Client) (n : ℕ)
    → c.conn ≡ some n
    → let (o, c') = write_envelope e first attempts second c in
      (o ≡ done → Sent e c c')
      × (o ≡ reconnect_failed
          → (e' : Envelope) (r : Read)
          → ((write_envelope e' none [] none c').0 ≡ nil_conn) × ((recv (r ∷ []) c').0 ≡ nil_conn))
write_envelope_lem e first attempts second c n h =
    let (works, breaks_off) = write_envelope-Holds e first attempts second c n h in
    (works, λ o e' r. no_socket (write_envelope e first attempts second c).1 e' r (breaks_off o))
