-- ===== src/Session/Delivery.antt =====
-- The two connections of claudy-p2p/internal/tunnel/tunnel.go on top of each other: the Noise transport over
-- the data channel.
use mathlib.Core.List.{append-nil}
use some_go_foolery.Base.{
  ℕ, ◌<◌, ◌≤◌, ◌≡◌, sym, ap, ◌∙◌, Bool, false, List, [], ◌++◌, take, length, concat, All,
}
use some_go_foolery.Base.Bytes.{Bytes}
use some_go_foolery.Secure.Channel.{Cipher, write}
use some_go_foolery.Secure.Channel.Stream.{read_many, read_many-write}
use some_go_foolery.Peer.Conn.Bytestream.{pending}
use some_go_foolery.Peer.Link.{Event, new_link, steps, link_lem}

module _ (c : Cipher) where
  open c use {State, Synced}

  -- What a Noise write hands to the data channel arrives: in any run of the two ends whose counted writes
  -- are its frames, whose reading end is not closed, and after which no byte waits or is under way, reads
  -- of any sizes but 0 over what was read from the channel return the bytes that the write has counted.
  pub delivered :
      (raw : List Bool) (e d : State) (p : Bytes) (ns : List ℕ) (es : List Event)
      → Synced e d
      → All (λ n. 0 < n) ns
      → length p ≤ length ns
      → let w = write c raw e p in
        let l = steps es new_link in
        l.conn.done ≡ false
        → l.counted ≡ concat w.frames
        → pending l.conn ++ concat l.under_way ≡ []
        → read_many c ns (record { dec = d; read_buf = []; stream = l.got }) ≡ take w.total p
  delivered raw e d p ns es synced pos enough open_end frames drained =
      let l = steps es new_link in
      let read_all : l.got ≡ concat (write c raw e p).frames =
        sym (ap (λ (s : Bytes). l.got ++ s) drained ∙ append-nil l.got)
        ∙ (link_lem es open_end ∙ frames) in
      rw read_all (read_many-write c raw e d p ns synced pos enough)
