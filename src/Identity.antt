-- ===== src/Identity.antt =====
-- The long-term keypair of claudy-p2p/internal/identity/identity.go.
pub mod Base64
pub mod Utf8
pub mod KeyFile
pub mod Keyring
use some_go_foolery.Base.{
  arith, ℕ, ◌+◌, ◌≡◌, refl, Bool, true, false, Option, none, some, List, [], ◌∷◌, ◌++◌, length,
  ◌==◌, if◌then◌else◌,
}
use some_go_foolery.Base.Bytes.{Bytes}
use Base64.{encode, decode_string, AreBytes, decode_string-encode}

pub record Identity : Type 0 where
  pub private : Bytes
  pub public : Bytes

pub data ParseError : Type 0 where
  decode_pubkey pubkey_size : ParseError

pub data Parsed : Type 0 where
  ok : Bytes → Parsed
  err : ParseError → Parsed

-- `ed25519.PublicKeySize` and `ed25519.SeedSize`.
abbrev pub public_key_size : ℕ
public_key_size = 32

abbrev pub seed_size : ℕ
seed_size = 32

unfoldable pub public_base64 : Identity → Bytes
public_base64 id = encode id.public

abbrev pub sized : Option Bytes → Parsed
sized none = Parsed.err decode_pubkey
sized (some raw) = if length raw == public_key_size then Parsed.ok raw else Parsed.err pubkey_size

unfoldable pub parse_public : Bytes → Parsed
parse_public s = sized (decode_string s)

-- A public key of 32 bytes survives the wire: what `ParsePublic` reads from the text that
-- `PublicBase64` writes is that key.
parse_public-public_base64 :
    (id : Identity)
    → AreBytes id.public
    → length id.public ≡ public_key_size
    → parse_public (public_base64 id) ≡ Parsed.ok id.public
unfolding parse_public public_base64
parse_public-public_base64 id h n = ground (arith, decode_string-encode id.public h)

-- Whatever the text, an accepted key has 32 bytes.
pub parse_public_size :
    (s raw : Bytes) → parse_public s ≡ Parsed.ok raw → length raw ≡ public_key_size
unfolding parse_public
parse_public_size s raw h = ground arith
