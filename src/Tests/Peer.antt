-- ===== src/Tests/Peer.antt =====
-- Runs of the connection over a data channel.
use some_go_foolery.Base.{◌≡◌, refl, false, none, some, [], ◌∷◌}
use some_go_foolery.Base.Bytes.{bytes}
use some_go_foolery.Base.{true, ◌≤◌, ◌<◌, ℕ, List, ◌++◌, concat}
use some_go_foolery.Peer.Timer.{
  Event, tick, set_to, expire, close_first, new_timer, set, step, run, count, not_early,
}
use some_go_foolery.Peer.Listener.{Listener, accept, accept_all, on_closed, on_incoming}
use some_go_foolery.Peer.Link
use some_go_foolery.Peer.Link.{writes, arrives, reads, new_link, steps, link_lem}
use some_go_foolery.Peer.Conn.{
  on_message, Conn, frame, ctx_done, read, sends, fails, write, write_loop, send_failed,
}
use some_go_foolery.Peer.Conn.Bytestream.{Chunked, pending, write-Chunked}

abbrev two_frames : Conn
two_frames = record {
  queue = bytes "abc" ∷ bytes "de" ∷ [];
  leftover = [];
  done = false;
  expired = false;
  dc_closed = false;
}

read_part :
    read 2 frame two_frames
    ≡ some ((bytes "ab", none), record two_frames { queue = bytes "de" ∷ []; leftover = bytes "c" })
unfolding read
read_part = refl

not_ready : read 2 ctx_done two_frames ≡ none
unfolding read
not_ready = refl

fails_half_way :
    write (fails false ∷ []) (bytes "ab")
    ≡ record { total = 0; error = some send_failed; sent = [] }
unfolding write write_loop
fails_half_way = refl

write-Chunked_example : Chunked (bytes "ab") (write (sends ∷ []) (bytes "ab"))
write-Chunked_example = write-Chunked (sends ∷ []) (bytes "ab")

abbrev past_and_future : List Event
past_and_future =
    set_to (some 0) ∷ set_to (some 5) ∷ tick 5 ∷ expire ∷ set_to none ∷ close_first ∷ []

two_closed : (run past_and_future new_timer).closed ≡ 1 ∷ 0 ∷ []
unfolding run step set
two_closed = refl

not_early_example :
    let t = run (set_to (some 0) ∷ []) new_timer in
    let t' = run (tick 5 ∷ expire ∷ close_first ∷ []) (set (some 5) t) in
    (t'.fired ≡ some t.made) × (0 < count t.made t'.closed → 5 ≤ t'.now)
not_early_example =
    not_early (set_to (some 0) ∷ []) (tick 5 ∷ expire ∷ close_first ∷ []) 5 (tt, (tt, (tt, tt)))

abbrev two_waiting : Listener ℕ
two_waiting = record { incoming = 1 ∷ 2 ∷ []; ended = false; closed = true }

takes_in_order :
    accept_all (on_closed ∷ on_incoming ∷ []) two_waiting
    ≡ (1 ∷ [], record { incoming = 2 ∷ []; ended = false; closed = true })
unfolding accept_all accept
takes_in_order = refl

-- A write of two bytes arrives, and one of them is read.
abbrev half_read : List Link.Event
half_read = writes [] (bytes "ab") ∷ arrives frame ∷ reads 1 frame ∷ []

still_open : (steps half_read new_link).conn.done ≡ false
unfolding steps Link.step on_message read write write_loop
still_open = refl

link_lem_example :
    let l = steps half_read new_link in l.got ++ (pending l.conn ++ concat l.under_way) ≡ l.counted
link_lem_example = link_lem half_read still_open
