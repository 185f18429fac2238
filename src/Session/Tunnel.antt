-- ===== src/Session/Tunnel.antt =====
-- Dial and Serve of claudy-p2p/internal/tunnel/tunnel.go: the handshake of Secure.Handshake on an open data
-- channel, and a yamux session on top, whose set-up fails or not.
use some_go_foolery.Base.{◌≡◌, ◌⊎◌, refl, Bool, true, false, Option, none, some, List, [], inl, inr}
use some_go_foolery.Base.Bytes.{Bytes}
use some_go_foolery.Secure.Handshake.{
  Noise, Failure, Outcome, open_conn, fail, Handshake, do_handshake, ed25519_pub_to_x25519, Silent,
  Proves, responder_pinned,
}

pub data Error : Type 0 where
  noise : Failure → Error
  yamux : Error

module _ (c : Noise) where
  open c use {CipherState}

  -- The session, which owns the cipher states; what has gone out on the channel; and whether the channel
  -- is closed again. Closing the secure connection closes the raw one.
  pub record Tunnel : Type 0 where
    pub session : Option (CipherState × CipherState)
    pub error : Option Error
    pub written : List Bytes
    pub closed : Bool

  abbrev pub multiplexed : Bool → List Bytes → Outcome c → Tunnel
  multiplexed yamux_fails written (fail f) = record {
    session = none;
    error = some (noise f);
    written = written;
    closed = true;
  }
  multiplexed true written (open_conn enc dec) = record {
    session = none;
    error = some yamux;
    written = written;
    closed = true;
  }
  multiplexed false written (open_conn enc dec) = record {
    session = some (enc, dec);
    error = none;
    written = written;
    closed = false;
  }

  -- `Dial` for the initiator and `Serve` for the responder.
  unfoldable pub tunnel : Bool → Bool → Bool → Bytes → Bytes → Bytes → Tunnel
  tunnel initiator write_fails yamux_fails my_priv peer_pub input =
      let h = do_handshake c write_fails initiator my_priv peer_pub input in
      multiplexed yamux_fails h.written h.outcome

  unfoldable pub dial : Bool → Bool → Bytes → Bytes → Bytes → Tunnel
  unfolding tunnel
  dial = tunnel true

  unfoldable pub serve : Bool → Bool → Bytes → Bytes → Bytes → Tunnel
  unfolding tunnel
  serve = tunnel false

  -- The channel is closed and there is an error, or neither and there is a session.
  abbrev pub Settled : Tunnel → Type 0
  Settled t =
      ((t.session ≡ none) × ((e : Error) × (t.error ≡ some e)) × (t.closed ≡ true))
      ⊎ (((s : CipherState × CipherState) × (t.session ≡ some s))
          × (t.error ≡ none)
          × (t.closed ≡ false))

  multiplexed-Settled :
      (yamux_fails : Bool) (written : List Bytes) (o : Outcome c)
      → Settled (multiplexed yamux_fails written o)
  multiplexed-Settled yamux_fails written (fail f) = inl (refl, (noise f, refl), refl)
  multiplexed-Settled true written (open_conn enc dec) = inl (refl, (yamux, refl), refl)
  multiplexed-Settled false written (open_conn enc dec) = inr (((enc, dec), refl), refl, refl)

  -- If the pinned key converts: Serve leaves no channel open without a session and no error without a
  -- closed channel; and where it leaves a session, or has written anything, the viewer has sent a first
  -- message that reveals the pinned static key.
  pub serve_lem :
      (write_fails yamux_fails : Bool) (my_priv peer_pub peer_x input : Bytes)
      → ed25519_pub_to_x25519 c peer_pub ≡ some peer_x
      → let t = serve write_fails yamux_fails my_priv peer_pub input in
        Settled t × (((t.session ≡ none) × (t.written ≡ [])) ⊎ Proves c my_priv input peer_x)
  unfolding serve tunnel
  serve_lem write_fails yamux_fails my_priv peer_pub peer_x input h =
      let hs = do_handshake c write_fails false my_priv peer_pub input in
      (
        multiplexed-Settled yamux_fails hs.written hs.outcome,
        shown hs (responder_pinned c write_fails my_priv peer_pub peer_x input h),
      )
    where
      shown :
          (hs : Handshake c)
          → Silent c hs ⊎ Proves c my_priv input peer_x
          → (((multiplexed yamux_fails hs.written hs.outcome).session ≡ none)
              × ((multiplexed yamux_fails hs.written hs.outcome).written ≡ []))
            ⊎ Proves c my_priv input peer_x
      shown hs (inl (w, f, q)) = inl (rw q refl, rw q w)
      shown hs (inr p) = inr p
