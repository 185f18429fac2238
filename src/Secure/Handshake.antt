-- ===== src/Secure/Handshake.antt =====
-- doHandshake and the key conversion of claudy-p2p/internal/secure/noise.go. The deadline that bounds
-- the exchange only makes a read or a write fail.
use some_go_foolery.Base.{
  ℕ, zero, suc, ◌+◌, ◌-◌, ◌/◌, ◌%◌, ◌<◌, ◌≤◌, ◌≡◌, ◌⊎◌, refl, Bool, true, false, Option, none, some,
  List, [], ◌∷◌, length, take, drop, ◌==◌, arith, Bool-cases, if◌then◌else◌, inl, inr,
}
use some_go_foolery.Base.Bytes.{Bytes, str_eq, str_eq_iff}
use some_go_foolery.Secure.Frame.{Result, ok, err, read_frame, write_frame}

pub data Failure : Type 0 where
  convert_priv convert_pub new_handshake write_msg1 send_msg1 read_msg2 parse_msg2 : Failure
  read_msg1 parse_msg1 peer_static_mismatch write_msg2 send_msg2 incomplete : Failure

-- What the code calls in other packages: SHA-512 and the decoding of a curve point, and the handshake
-- state of github.com/flynn/noise, whose messages may yield the two cipher states, the initiator's
-- sending state first.
pub record Noise : Type 1 where
  pub State : Type 0
  pub CipherState : Type 0
  pub sha512 : Bytes → Bytes
  pub montgomery : Bytes → Option Bytes
  pub new_state : Bool → Bytes → Bytes → Option Bytes → Option State
  pub write_message : State → Option (Bytes × State × Option (CipherState × CipherState))
  pub read_message : State → Bytes → Option (State × Option (CipherState × CipherState))
  pub peer_static : State → Bytes

-- `x[0] &= 248; x[31] &= 127; x[31] |= 64`
abbrev pub clear_low : Bytes → Bytes
clear_low [] = []
clear_low (b ∷ bs) = (b - b % 8) ∷ bs

abbrev pub set_high : ℕ → ℕ
set_high b = if b % 128 / 64 == 0 then b % 128 + 64 else b % 128

abbrev pub set_last : ℕ → Bytes → Bytes
set_last n [] = []
set_last zero (b ∷ bs) = set_high b ∷ bs
set_last (suc n) (b ∷ bs) = b ∷ set_last n bs

unfoldable pub clamp : Bytes → Bytes
clamp x = set_last 31 (clear_low x)

-- The byte at a place, 0 past the end.
abbrev pub byte_at : ℕ → Bytes → ℕ
byte_at n [] = 0
byte_at zero (b ∷ bs) = b
byte_at (suc n) (b ∷ bs) = byte_at n bs

byte_at-set_last :
    (n : ℕ) (x : Bytes) → n < length x → byte_at n (set_last n x) ≡ set_high (byte_at n x)
byte_at-set_last n [] h = absurd (omega arith)
byte_at-set_last zero (b ∷ bs) h = refl
byte_at-set_last (suc n) (b ∷ bs) h = byte_at-set_last n bs (omega arith)

length-clear_low : (x : Bytes) → length (clear_low x) ≡ length x
length-clear_low [] = refl
length-clear_low (b ∷ bs) = refl

first-set_last : (n : ℕ) (x : Bytes) → byte_at 0 (set_last (suc n) x) ≡ byte_at 0 x
first-set_last n [] = refl
first-set_last n (b ∷ bs) = refl

low_bits : (b : ℕ) → (b - b % 8) % 8 ≡ 0
low_bits b = omega arith

set_high_bounds : (b : ℕ) → (64 ≤ set_high b) × (set_high b < 128)
set_high_bounds b = ground arith

first-clear_low : (x : Bytes) → byte_at 0 (clear_low x) % 8 ≡ 0
first-clear_low [] = refl
first-clear_low (b ∷ bs) = low_bits b

-- A clamped scalar is a multiple of 8 in its first byte, and its last byte has the top bit clear and
-- the next one set.
pub clamp_bounds :
    (x : Bytes)
    → length x ≡ 32
    → (byte_at 0 (clamp x) % 8 ≡ 0) × (64 ≤ byte_at 31 (clamp x)) × (byte_at 31 (clamp x) < 128)
unfolding clamp
clamp_bounds x n =
    let (low, high) = set_high_bounds (byte_at 31 (clear_low x)) in
    let last = byte_at-set_last 31 (clear_low x) (omega (arith, length-clear_low x, n)) in
    (rw (first-set_last 30 (clear_low x)) (first-clear_low x), rw last low, rw last high)

module _ (c : Noise) where
  open c use {
    State, CipherState, sha512, montgomery, new_state, write_message, read_message, peer_static,
  }

  unfoldable pub ed25519_pub_to_x25519 : Bytes → Option Bytes
  ed25519_pub_to_x25519 pub_key = if length pub_key == 32 then montgomery pub_key else none

  abbrev pub with_scalar : Bytes → Option Bytes → Option (Bytes × Bytes)
  with_scalar scalar none = none
  with_scalar scalar (some pub_key) = some (scalar, pub_key)

  -- A private key is the seed followed by the public key.
  unfoldable pub ed25519_priv_to_x25519 : Bytes → Option (Bytes × Bytes)
  ed25519_priv_to_x25519 priv =
      if length priv == 64
      then with_scalar (clamp (take 32 (sha512 (take 32 priv))))
          (ed25519_pub_to_x25519 (drop 32 priv))
      else none

  -- The cipher states of the new Conn, or the failure; the frames written; the bytes left to read.
  pub data Outcome : Type 0 where
    open_conn : CipherState → CipherState → Outcome
    fail : Failure → Outcome

  pub record Handshake : Type 0 where
    pub outcome : Outcome
    pub written : List Bytes
    pub left : Bytes

  abbrev pub stop : Failure → List Bytes → Bytes → Handshake
  stop f written left = record { outcome = fail f; written = written; left = left }

  -- Each call of `Write` on the raw connection fails if the flag is set.
  abbrev pub initiator_end :
      List Bytes → Bytes → Option (State × Option (CipherState × CipherState)) → Handshake
  initiator_end written left none = stop parse_msg2 written left
  initiator_end written left (some (hs, none)) = stop incomplete written left
  initiator_end written left (some (hs, some (cs0, cs1))) = record {
    outcome = open_conn cs0 cs1;
    written = written;
    left = left;
  }

  abbrev pub initiator_read : List Bytes → State → Result (Bytes × Bytes) → Handshake
  initiator_read written hs (err e) = stop read_msg2 written []
  initiator_read written hs (ok (msg2, left)) = initiator_end written left (read_message hs msg2)

  abbrev pub initiator_send : Bool → Bytes → State → Result Bytes → Handshake
  initiator_send write_fails input hs (err e) = stop send_msg1 [] input
  initiator_send write_fails input hs (ok frame) =
      if write_fails
      then stop send_msg1 [] input
      else initiator_read (frame ∷ []) hs (read_frame input)

  abbrev pub initiator_start :
      Bool → Bytes → Option (Bytes × State × Option (CipherState × CipherState)) → Handshake
  initiator_start write_fails input none = stop write_msg1 [] input
  initiator_start write_fails input (some (msg1, hs, _)) =
      initiator_send write_fails input hs (write_frame msg1)

  abbrev pub responder_end :
      Bool → Bytes → Option (CipherState × CipherState) → Result Bytes → Handshake
  responder_end write_fails left cs (err e) = stop send_msg2 [] left
  responder_end write_fails left none (ok frame) =
      if write_fails then stop send_msg2 [] left else stop incomplete (frame ∷ []) left
  responder_end write_fails left (some (cs0, cs1)) (ok frame) =
      if write_fails
      then stop send_msg2 [] left
      else record { outcome = open_conn cs1 cs0; written = frame ∷ []; left = left }

  abbrev pub responder_reply :
      Bool → Bytes → Option (Bytes × State × Option (CipherState × CipherState)) → Handshake
  responder_reply write_fails left none = stop write_msg2 [] left
  responder_reply write_fails left (some (msg2, hs, cs)) =
      responder_end write_fails left cs (write_frame msg2)

  abbrev pub responder_check :
      Bool → Bytes → Bytes → Option (State × Option (CipherState × CipherState)) → Handshake
  responder_check write_fails peer_x left none = stop parse_msg1 [] left
  responder_check write_fails peer_x left (some (hs, _)) =
      if str_eq (peer_static hs) peer_x
      then responder_reply write_fails left (write_message hs)
      else stop peer_static_mismatch [] left

  abbrev pub responder_read : Bool → Bytes → State → Result (Bytes × Bytes) → Handshake
  responder_read write_fails peer_x hs (err e) = stop read_msg1 [] []
  responder_read write_fails peer_x hs (ok (msg1, left)) =
      responder_check write_fails peer_x left (read_message hs msg1)

  abbrev pub exchange : Bool → Bool → Bytes → Bytes → Option State → Handshake
  exchange initiator write_fails input peer_x none = stop new_handshake [] input
  exchange true write_fails input peer_x (some hs) =
      initiator_start write_fails input (write_message hs)
  exchange false write_fails input peer_x (some hs) =
      responder_read write_fails peer_x hs (read_frame input)

  -- The responder gives no peer key to the configuration.
  abbrev pub config_peer : Bool → Bytes → Option Bytes
  config_peer true peer_x = some peer_x
  config_peer false peer_x = none

  abbrev pub with_keys : Bool → Bool → Bytes → Option (Bytes × Bytes) → Option Bytes → Handshake
  with_keys initiator write_fails input none peer = stop convert_priv [] input
  with_keys initiator write_fails input (some keys) none = stop convert_pub [] input
  with_keys initiator write_fails input (some (x_priv, x_pub)) (some peer_x) =
      exchange initiator write_fails input peer_x
        (new_state initiator x_priv x_pub (config_peer initiator peer_x))

  unfoldable pub do_handshake : Bool → Bool → Bytes → Bytes → Bytes → Handshake
  do_handshake write_fails initiator my_priv peer_pub input =
      with_keys initiator write_fails input (ed25519_priv_to_x25519 my_priv)
        (ed25519_pub_to_x25519 peer_pub)

  abbrev pub Silent : Handshake → Type 0
  Silent h = (h.written ≡ []) × (f : Failure) × (h.outcome ≡ fail f)

  -- The first frame of the input, read by this fresh state, reveals this key.
  abbrev pub Reveals : Option State → Bytes → Bytes → Type 0
  Reveals o input peer_x =
      (msg1 left : Bytes) × (hs0 hs : State) × (cs : Option (CipherState × CipherState)) × (o
        ≡ some hs0)
      × (read_frame input ≡ ok (msg1, left))
      × (read_message hs0 msg1 ≡ some (hs, cs))
      × (peer_static hs ≡ peer_x)

  exchange_pinned :
      (write_fails : Bool) (input peer_x : Bytes) (o : Option State)
      → Silent (exchange false write_fails input peer_x o) ⊎ Reveals o input peer_x
  exchange_pinned write_fails input peer_x none = inl (refl, new_handshake, refl)
  exchange_pinned write_fails input peer_x (some hs0) = framed (read_frame input) refl
    where
      checked :
          (msg1 left : Bytes) (o : Option (State × Option (CipherState × CipherState)))
          → read_frame input ≡ ok (msg1, left)
          → read_message hs0 msg1 ≡ o
          → Silent (responder_check write_fails peer_x left o) ⊎ Reveals (some hs0) input peer_x
      checked msg1 left none r m = inl (refl, parse_msg1, refl)
      checked msg1 left (some (hs, cs)) r m = elim (Bool-cases (str_eq (peer_static hs) peer_x)) [
        | inl same ↦ inr (msg1, left, hs0, hs, cs, refl, r, m, (str_eq_iff _ _).0 same)
        | inr differs ↦ rw differs (inl (refl, peer_static_mismatch, refl))
      ]

      framed :
          (r : Result (Bytes × Bytes))
          → read_frame input ≡ r
          → Silent (responder_read write_fails peer_x hs0 r) ⊎ Reveals (some hs0) input peer_x
      framed (err e) h = inl (refl, read_msg1, refl)
      framed (ok (msg1, left)) h = checked msg1 left (read_message hs0 msg1) h refl

  -- So does the fresh state that a responder makes from its own keys, told no peer key.
  abbrev pub Proves : Bytes → Bytes → Bytes → Type 0
  Proves my_priv input peer_x =
      (x_priv x_pub : Bytes) × (ed25519_priv_to_x25519 my_priv ≡ some (x_priv, x_pub))
      × Reveals (new_state false x_priv x_pub none) input peer_x

  -- A responder that writes anything, or opens its connection, has read a first message whose static
  -- key is the pinned one; otherwise it fails without a word.
  pub responder_pinned :
      (write_fails : Bool) (my_priv peer_pub peer_x input : Bytes)
      → ed25519_pub_to_x25519 peer_pub ≡ some peer_x
      → Silent (do_handshake write_fails false my_priv peer_pub input) ⊎ Proves my_priv input peer_x
  unfolding do_handshake
  responder_pinned write_fails my_priv peer_pub peer_x input h =
      rw h (go (ed25519_priv_to_x25519 my_priv) refl)
    where
      go :
          (o : Option (Bytes × Bytes))
          → ed25519_priv_to_x25519 my_priv ≡ o
          → Silent (with_keys false write_fails input o (some peer_x)) ⊎ Proves my_priv input peer_x
      go none e = inl (refl, convert_priv, refl)
      go (some (x_priv, x_pub)) e =
          elim (exchange_pinned write_fails input peer_x (new_state false x_priv x_pub none)) [
            | inl quiet ↦ inl quiet
            | inr shown ↦ inr (x_priv, x_pub, e, shown)
          ]
