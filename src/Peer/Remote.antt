-- ===== src/Peer/Remote.antt =====
-- claudy-p2p/internal/peer/peer.go: the configuration of a peer connection, and the envelopes that it
-- consumes. The JSON and WebRTC packages are parameters.
use some_go_foolery.Base.{
  ◌≡◌, ◌≢◌, refl, Bool, true, false, Option, none, some, List, [], ◌∷◌, if◌then◌else◌,
}
use some_go_foolery.Base.Bytes.{Bytes, bytes, str_eq}
use some_go_foolery.Signaling.{Envelope}

pub record IceServer : Type 0 where
  pub urls : List Bytes
  pub username : Bytes
  pub credential : Bytes

abbrev pub turn_username : Bytes
turn_username = bytes "claudy"

-- The secret of the environment, or the one that is built in, whose text is an argument.
abbrev pub turn_secret : Bytes → Bytes → Bytes
turn_secret built_in [] = built_in
turn_secret built_in (x ∷ xs) = x ∷ xs

unfoldable pub default_ice_servers : Bytes → Bytes → List IceServer
default_ice_servers built_in env =
    record { urls = bytes "stun:stun.cloudflare.com:3478" ∷ []; username = []; credential = [] }
    ∷ record { urls = bytes "stun:stun.l.google.com:19302" ∷ []; username = []; credential = [] }
    ∷ record {
      urls = bytes "turn:23.172.217.149:3478?transport=udp" ∷ [];
      username = turn_username;
      credential = turn_secret built_in env;
    }
    ∷ record {
      urls = bytes "turn:23.172.217.149:3478?transport=tcp" ∷ [];
      username = turn_username;
      credential = turn_secret built_in env;
    }
    ∷ []

pub record Config : Type 0 where
  pub ice_servers : List IceServer
  pub relay_only : Bool

-- The configuration that `NewWithPolicy` makes.
unfoldable pub config : Bytes → Bytes → Bool → Config
config built_in env relay = record {
  ice_servers = default_ice_servers built_in env;
  relay_only = relay;
}

pub data Applied : Type 0 where
  consumed ignored decode_sdp set_remote_sdp decode_ice add_ice : Applied

-- What the code calls: the two decoders, and the two methods of a peer connection, which fail or give
-- its next state.
module _ {Pc Sdp Ice : Type 0} (unmarshal_sdp : Bytes → Option Sdp)
    (unmarshal_ice : Bytes → Option Ice) (set_remote_description : Sdp → Pc → Option Pc)
    (add_ice_candidate : Ice → Pc → Option Pc) where
  abbrev pub outcome : Applied → Pc → Option Pc → Applied × Pc
  outcome err pc none = (err, pc)
  outcome err pc (some pc') = (consumed, pc')

  abbrev pub take_sdp : Pc → Option Sdp → Applied × Pc
  take_sdp pc none = (decode_sdp, pc)
  take_sdp pc (some sdp) = outcome set_remote_sdp pc (set_remote_description sdp pc)

  abbrev pub take_ice : Pc → Option Ice → Applied × Pc
  take_ice pc none = (decode_ice, pc)
  take_ice pc (some cand) = outcome add_ice pc (add_ice_candidate cand pc)

  -- `ApplyRemote`: every result but `ignored` reports that the envelope was consumed.
  unfoldable pub apply_remote : Envelope → Pc → Applied × Pc
  apply_remote e pc =
      if str_eq e.kind (bytes "sdp")
      then take_sdp pc (unmarshal_sdp e.payload)
      else if str_eq e.kind (bytes "ice")
      then take_ice pc (unmarshal_ice e.payload)
      else (ignored, pc)

  taken_or_same :
      (err : Applied) (pc : Pc) (o : Option Pc)
      → err ≢ consumed
      → (outcome err pc o).0 ≢ consumed
      → (outcome err pc o).1 ≡ pc
  taken_or_same err pc none h n = refl
  taken_or_same err pc (some pc') h n = absurd (n refl)

  -- A peer connection changes only if the envelope is consumed without an error.
  apply_remote_lem :
      (e : Envelope) (pc : Pc) → (apply_remote e pc).0 ≢ consumed → (apply_remote e pc).1 ≡ pc
  unfolding apply_remote
  apply_remote_lem e pc =
      go (str_eq e.kind (bytes "sdp")) (str_eq e.kind (bytes "ice")) (unmarshal_sdp e.payload)
        (unmarshal_ice e.payload)
    where
      go :
          (a b : Bool) (s : Option Sdp) (i : Option Ice)
          → let r = if a then take_sdp pc s else if b then take_ice pc i else (ignored, pc) in
            r.0 ≢ consumed → r.1 ≡ pc
      go true b none i n = refl
      go true b (some sdp) i n =
          taken_or_same set_remote_sdp pc (set_remote_description sdp pc) (λ q. cc) n
      go false true s none n = refl
      go false true s (some cand) n =
          taken_or_same add_ice pc (add_ice_candidate cand pc) (λ q. cc) n
      go false false s i n = refl
