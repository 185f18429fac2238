-- ===== src/Tests/Signaling.antt =====
-- Runs of the reconnecting client.
use some_go_foolery.Base.{◌≡◌, refl, true, false, none, some, List, [], ◌∷◌, ◌++◌}
use some_go_foolery.Base.Bytes.{bytes, contains, has_prefix}
use some_go_foolery.Signaling.{Envelope, empty_envelope}
use some_go_foolery.Signaling.Client.{
  Error, is_recoverable, Client, Attempt, dial_failed, joined, redial, reconnect_locked, done, got,
  reconnect_failed, nil_conn, send, write_envelope, arrives, breaks, Read, recv, contains_any,
}
use some_go_foolery.Signaling.Client.Recovery.{Recovers, Sent, recv_lem, write_envelope_lem}

abbrev viewer : Client
viewer = record { room = bytes "r"; role = bytes "v"; pubkey = []; conn = some 0; sent = [] }

abbrev reset : Error
reset = record { close_error = false; op_error = true; text = [] }

abbrev fails_once : List Attempt
fails_once =
    record { closed_before = false; dialed = dial_failed; closed_waiting = false }
    ∷ record { closed_before = false; dialed = joined 1; closed_waiting = false }
    ∷ []

abbrev closes : List Attempt
closes = record { closed_before = true; dialed = dial_failed; closed_waiting = false } ∷ []

an_eof :
    is_recoverable (record { close_error = false; op_error = false; text = bytes "an EOF" }) ≡ true
unfolding is_recoverable contains_any contains has_prefix
an_eof = refl

two_waits :
    (reconnect_locked
      (record { closed_before = false; dialed = dial_failed; closed_waiting = false } ∷ fails_once)
      viewer).waits
    ≡ 250 ∷ 500 ∷ []
unfolding reconnect_locked redial
two_waits = refl

reaches : Recovers (breaks reset fails_once)
unfolding is_recoverable reconnect_locked redial
reaches = (refl, λ c. refl)

recv_lem_example :
    (recv ((breaks reset fails_once ∷ []) ++ arrives empty_envelope ∷ []) viewer).0
    ≡ got empty_envelope
recv_lem_example =
    recv_lem (breaks reset fails_once ∷ []) [] empty_envelope viewer 0 refl (reaches, tt)

write_envelope_lem_example :
    let (o, c') = write_envelope empty_envelope (some reset) closes none viewer in
    (o ≡ done → Sent empty_envelope viewer c')
    × (o ≡ reconnect_failed
        → (e' : Envelope) (r : Read)
        → ((write_envelope e' none [] none c').0 ≡ nil_conn) × ((recv (r ∷ []) c').0 ≡ nil_conn))
write_envelope_lem_example =
    write_envelope_lem empty_envelope (some reset) closes none viewer 0 refl

closes_while_sending : (send (bytes "ice") [] (some reset) closes none viewer).0 ≡ reconnect_failed
unfolding send write_envelope is_recoverable reconnect_locked redial
closes_while_sending = refl
