-- ===== src/Identity/Base64.antt =====
-- base64.RawStdEncoding, as identity.go and keyring.go use it: no padding, and a decoder that skips
-- line breaks and ignores the unused low bits of the last character, as the standard library's does.
pub mod Decoded
use some_go_foolery.Base.{
  ℕ, ◌+◌, ◌-◌, ◌*◌, ◌/◌, ◌%◌, ◌<◌, ◌≡◌, refl, ap, ◌&&◌, ◌||◌, Option, none, some, [], ◌∷◌, ◌==◌,
  leb, ltb, All, arith, if◌then◌else◌,
}
use some_go_foolery.Base.Bytes.{Bytes}

abbrev pub AreBytes : Bytes → Type 0
AreBytes = All (λ b. b < 256)

-- The character of a group of six bits.
unfoldable pub encode_sextet : ℕ → ℕ
encode_sextet n =
    if ltb n 26
    then n + 65
    else if ltb n 52
    then n + 71
    else if ltb n 62
    then n - 4
    else if n == 62
    then 43
    else 47

unfoldable pub decode_sextet : ℕ → Option ℕ
decode_sextet c =
    if leb 65 c && leb c 90
    then some (c - 65)
    else if leb 97 c && leb c 122
    then some (c - 71)
    else if leb 48 c && leb c 57
    then some (c + 4)
    else if c == 43
    then some 62
    else if c == 47
    then some 63
    else none

unfoldable pub encode : Bytes → Bytes
encode [] = []
encode (a ∷ []) = encode_sextet (a / 4) ∷ encode_sextet (a % 4 * 16) ∷ []
encode (a ∷ b ∷ []) =
    encode_sextet (a / 4) ∷ encode_sextet (a % 4 * 16 + b / 16) ∷ encode_sextet (b % 16 * 4) ∷ []
encode (a ∷ b ∷ c ∷ rest) =
    encode_sextet (a / 4)
    ∷ encode_sextet (a % 4 * 16 + b / 16)
    ∷ encode_sextet (b % 16 * 4 + c / 64)
    ∷ encode_sextet (c % 64)
    ∷ encode rest

encode_sextet-small : (n : ℕ) → encode_sextet n < 128
unfolding encode_sextet
encode_sextet-small n = ground arith

-- The text is ASCII.
pub encode-small : (s : Bytes) → All (λ b. b < 128) (encode s)
unfolding encode
encode-small [] = tt
encode-small (a ∷ []) = (encode_sextet-small _, (encode_sextet-small _, tt))
encode-small (a ∷ b ∷ []) =
    (encode_sextet-small _, (encode_sextet-small _, (encode_sextet-small _, tt)))
encode-small (a ∷ b ∷ c ∷ rest) = (
  encode_sextet-small _,
  (encode_sextet-small _, (encode_sextet-small _, (encode_sextet-small _, encode-small rest))),
)

infixl 5 ◌>>=◌
abbrev ◌>>=◌ : {A B : Type 0} → Option A → (A → Option B) → Option B
none >>= f = none
some a >>= f = f a

unfoldable pub decode : Bytes → Option Bytes
decode [] = some []
decode (w ∷ []) = none
decode (w ∷ x ∷ []) = do i ← decode_sextet w; j ← decode_sextet x; some ((i * 4 + j / 16) ∷ [])
decode (w ∷ x ∷ y ∷ []) = do
  i ← decode_sextet w
  j ← decode_sextet x
  k ← decode_sextet y
  some ((i * 4 + j / 16) ∷ (j % 16 * 16 + k / 4) ∷ [])
decode (w ∷ x ∷ y ∷ z ∷ rest) = do
  i ← decode_sextet w
  j ← decode_sextet x
  k ← decode_sextet y
  l ← decode_sextet z
  tail ← decode rest
  some ((i * 4 + j / 16) ∷ (j % 16 * 16 + k / 4) ∷ (k % 4 * 64 + l) ∷ tail)

-- The decoder passes over line breaks.
unfoldable pub strip_breaks : Bytes → Bytes
strip_breaks [] = []
strip_breaks (c ∷ s) = let rest = strip_breaks s in if c == 10 || c == 13 then rest else c ∷ rest

unfoldable pub decode_string : Bytes → Option Bytes
decode_string s = decode (strip_breaks s)

decode_sextet-encode_sextet : (n : ℕ) → n < 64 → decode_sextet (encode_sextet n) ≡ some n
unfolding decode_sextet encode_sextet
decode_sextet-encode_sextet n h = ground arith

keep_sextet :
    (n : ℕ) (s : Bytes) → strip_breaks (encode_sextet n ∷ s) ≡ encode_sextet n ∷ strip_breaks s
unfolding strip_breaks encode_sextet
keep_sextet n s = ground arith

strip_breaks-nil : strip_breaks [] ≡ []
unfolding strip_breaks
strip_breaks-nil = refl

strip_breaks-encode : (bs : Bytes) → strip_breaks (encode bs) ≡ encode bs
unfolding encode
strip_breaks-encode [] = strip_breaks-nil
strip_breaks-encode (a ∷ []) = simp (keep_sextet, strip_breaks-nil)
strip_breaks-encode (a ∷ b ∷ []) = simp (keep_sextet, strip_breaks-nil)
strip_breaks-encode (a ∷ b ∷ c ∷ rest) = simp (keep_sextet, strip_breaks-encode rest)

decode-encode : (bs : Bytes) → AreBytes bs → decode (encode bs) ≡ some bs
unfolding encode decode
decode-encode [] h = refl
decode-encode (a ∷ []) h =
    ground (arith, decode_sextet-encode_sextet (a / 4), decode_sextet-encode_sextet (a % 4 * 16))
decode-encode (a ∷ b ∷ []) h = ground (
  arith,
  decode_sextet-encode_sextet (a / 4),
  decode_sextet-encode_sextet (a % 4 * 16 + b / 16),
  decode_sextet-encode_sextet (b % 16 * 4),
)
decode-encode (a ∷ b ∷ c ∷ rest) h = ground (
  arith,
  decode_sextet-encode_sextet (a / 4),
  decode_sextet-encode_sextet (a % 4 * 16 + b / 16),
  decode_sextet-encode_sextet (b % 16 * 4 + c / 64),
  decode_sextet-encode_sextet (c % 64),
  decode-encode rest h.1.1.1,
)

-- Decoding what was encoded gives the bytes back.
pub decode_string-encode : (bs : Bytes) → AreBytes bs → decode_string (encode bs) ≡ some bs
unfolding decode_string
decode_string-encode bs h = rw (strip_breaks-encode bs) (decode-encode bs h)

-- So two texts of byte strings are the same only for the same bytes.
pub encode_injective : (s t : Bytes) → AreBytes s → AreBytes t → encode s ≡ encode t → s ≡ t
encode_injective s t hs ht e =
    ground (arith, decode_string-encode s hs, decode_string-encode t ht, ap decode_string e)
