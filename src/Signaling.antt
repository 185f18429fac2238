-- ===== src/Signaling.antt =====
-- The wire format of claudy-p2p/internal/signaling/message.go.
pub mod Client
use mathlib.Core.List.{[]}
use some_go_foolery.Base.Bytes.{Bytes}

-- Every field is a string; an omitted one is empty.
pub record Envelope : Type 0 where
  pub kind : Bytes
  pub room : Bytes
  pub role : Bytes
  pub pubkey : Bytes
  pub payload : Bytes
  pub error : Bytes

-- `Envelope{}`.
abbrev pub empty_envelope : Envelope
empty_envelope = record { kind = []; room = []; role = []; pubkey = []; payload = []; error = [] }
