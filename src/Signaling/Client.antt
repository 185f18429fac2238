-- ===== src/Signaling/Client.antt =====
-- claudy-p2p/internal/signaling/client.go: one socket to the broker that is dialed again when it breaks.
pub mod Recovery
use some_go_foolery.Base.{
  ℕ, zero, suc, ◌*◌, ◌≡◌, Bool, true, false, ◌||◌, ltb, ◌⊎◌, inl, inr, Option, none, some, List, [],
  ◌∷◌, ◌++◌, if◌then◌else◌,
}
use some_go_foolery.Base.Bytes.{Bytes, bytes, contains, str_eq}
use some_go_foolery.Signaling.{Envelope, empty_envelope}

-- Milliseconds.
abbrev pub reconnect_max_backoff : ℕ
reconnect_max_backoff = 5000

abbrev pub first_backoff : ℕ
first_backoff = 250

-- What the code asks of an error: whether it is a close error of the socket package, whether it wraps a
-- net.OpError, and its text.
pub record Error : Type 0 where
  pub close_error : Bool
  pub op_error : Bool
  pub text : Bytes

abbrev pub fragments : List Bytes
fragments =
    bytes "broken pipe"
    ∷ bytes "use of closed"
    ∷ bytes "EOF"
    ∷ bytes "reset by peer"
    ∷ bytes "connection refused"
    ∷ []

unfoldable pub contains_any : Bytes → List Bytes → Bool
contains_any s [] = false
contains_any s (f ∷ fs) = contains s f || contains_any s fs

-- Every close error counts: one of the four codes in the first test, any other in the second.
unfoldable pub is_recoverable : Error → Bool
is_recoverable e = e.close_error || e.op_error || contains_any e.text fragments

-- The sockets are numbered. `sent` are the envelopes written, the last one first, with their socket.
pub record Client : Type 0 where
  pub room : Bytes
  pub role : Bytes
  pub pubkey : Bytes
  pub conn : Option ℕ
  pub sent : List (ℕ × Envelope)

abbrev pub join_envelope : Client → Envelope
join_envelope c = record empty_envelope {
  kind = bytes "join";
  room = c.room;
  role = c.role;
  pubkey = c.pubkey;
}

-- A dial and the write of its join on the new socket.
pub data Dialed : Type 0 where
  dial_failed : Dialed
  join_failed joined : ℕ → Dialed

-- `DialWithLogger`.
unfoldable pub dial : Bytes → Bytes → Bytes → Dialed → Option Client
dial room role pubkey (joined n) =
    let c : Client = record {
      room = room;
      role = role;
      pubkey = pubkey;
      conn = some n;
      sent = [];
    } in
    some (record c { sent = (n, join_envelope c) ∷ [] })
dial room role pubkey d = none

pub data ReadyResult : Type 0 where
  read_failed : Error → ReadyResult
  signal_error unexpected peer_pubkey : Bytes → ReadyResult

-- `Ready`, given what its read returns.
unfoldable pub ready : Error ⊎ Envelope → ReadyResult
ready (inl e) = read_failed e
ready (inr e) =
    if str_eq e.kind (bytes "error")
    then signal_error e.error
    else if str_eq e.kind (bytes "ready")
    then peer_pubkey e.pubkey
    else unexpected e.kind

-- One round of the loop: the client may be closed before the dial, and during the wait.
pub record Attempt : Type 0 where
  pub closed_before : Bool
  pub dialed : Dialed
  pub closed_waiting : Bool

-- How the loop ends, where it has ended after the rounds that are given.
pub data End : Type 0 where
  reconnected client_closed still_trying : End

pub record Reconnect : Type 0 where
  pub end : End
  pub client : Client
  pub waits : List ℕ

abbrev pub next_backoff : ℕ → ℕ
next_backoff b = if ltb reconnect_max_backoff (b * 2) then reconnect_max_backoff else b * 2

abbrev pub waited : ℕ → Bool → Client → Reconnect → Reconnect
waited b true c next = record { end = client_closed; client = c; waits = b ∷ [] }
waited b false c next = record next { waits = b ∷ next.waits }

abbrev pub after_dial : ℕ → Dialed → Bool → Client → Reconnect → Reconnect
after_dial b dial_failed closing c next = waited b closing c next
after_dial b (join_failed n) closing c next = waited b closing c next
after_dial b (joined n) closing c next = record {
  end = reconnected;
  client = record c { conn = some n; sent = (n, join_envelope c) ∷ c.sent };
  waits = [];
}

-- The loop of `reconnectLocked`.
unfoldable pub redial : ℕ → List Attempt → Client → Reconnect
redial b [] c = record { end = still_trying; client = c; waits = [] }
redial b (a ∷ attempts) c =
    let next = redial (next_backoff b) attempts c in
    if a.closed_before
    then record { end = client_closed; client = c; waits = [] }
    else after_dial b a.dialed a.closed_waiting c next

unfoldable pub reconnect_locked : List Attempt → Client → Reconnect
reconnect_locked attempts c = redial first_backoff attempts (record c { conn = none })

-- What a call returns; `nil_conn` is the panic of a method call on no socket, and `unfinished` says that
-- the loop goes on after the given rounds.
pub data Outcome : Type 0 where
  done : Outcome
  got : Envelope → Outcome
  failed : Error → Outcome
  reconnect_failed nil_conn unfinished : Outcome

abbrev pub write_json : Envelope → Option Error → ℕ → Client → Outcome × Client
write_json e none n c = (done, record c { sent = (n, e) ∷ c.sent })
write_json e (some err) n c = (failed err, c)

abbrev pub write_on : Envelope → Option Error → Option ℕ → Client → Outcome × Client
write_on e r none c = (nil_conn, c)
write_on e r (some n) c = write_json e r n c

-- What follows the loop.
abbrev pub on_end : End → Client → (Client → Outcome × Client) → Outcome × Client
on_end reconnected c next = next c
on_end client_closed c next = (reconnect_failed, c)
on_end still_trying c next = (unfinished, c)

abbrev pub after_reconnect : Reconnect → (Client → Outcome × Client) → Outcome × Client
after_reconnect r next = on_end r.end r.client next

abbrev pub write_now : Envelope → Option Error → Client → Outcome × Client
write_now e r c = write_on e r c.conn c

abbrev pub on_write_error :
    Envelope → Error → List Attempt → Option Error → Client → Outcome × Client
on_write_error e err attempts second c =
    if is_recoverable err
    then after_reconnect (reconnect_locked attempts c) (write_now e second)
    else (failed err, c)

abbrev pub first_write :
    Envelope → Option Error → List Attempt → Option Error → ℕ → Client → Outcome × Client
first_write e none attempts second n c = write_json e none n c
first_write e (some err) attempts second n c = on_write_error e err attempts second c

abbrev pub write_somewhere :
    Envelope → Option Error → List Attempt → Option Error → Option ℕ → Client → Outcome × Client
write_somewhere e first attempts second none c = (nil_conn, c)
write_somewhere e first attempts second (some n) c = first_write e first attempts second n c

-- `writeEnvelope`, given the results of its one or two writes and the rounds of the loop between.
unfoldable pub write_envelope :
    Envelope → Option Error → List Attempt → Option Error → Client → Outcome × Client
write_envelope e first attempts second c = write_somewhere e first attempts second c.conn c

-- `Send`, given the JSON of the payload.
unfoldable pub send :
    Bytes → Bytes → Option Error → List Attempt → Option Error → Client → Outcome × Client
send kind payload first attempts second c =
    write_envelope (record empty_envelope { kind = kind; payload = payload }) first attempts second
      c

-- What one ReadJSON of `Recv` returns, with the rounds of the loop that follow a recoverable error.
pub data Read : Type 0 where
  arrives : Envelope → Read
  breaks : Error → List Attempt → Read

abbrev pub on_read : Read → (Client → Outcome × Client) → Client → Outcome × Client
on_read (arrives e) next c = (got e, c)
on_read (breaks err attempts) next c =
    if is_recoverable err
    then after_reconnect (reconnect_locked attempts c) next
    else (failed err, c)

abbrev pub read_on : Option ℕ → Read → (Client → Outcome × Client) → Client → Outcome × Client
read_on none r next c = (nil_conn, c)
read_on (some n) r next c = on_read r next c

-- `Recv`, given what its reads return.
unfoldable pub recv : List Read → Client → Outcome × Client
recv [] c = (unfinished, c)
recv (r ∷ rs) c = read_on c.conn r (recv rs) c
