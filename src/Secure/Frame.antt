-- ===== src/Secure/Frame.antt =====
-- readFrame and writeFrame of claudy-p2p/internal/secure/noise.go: a blob behind two bytes of length.
use some_go_foolery.Base.{
  ℕ, ◌+◌, ◌*◌, ◌/◌, ◌%◌, ◌<◌, ◌≤◌, ◌≡◌, [], ◌∷◌, ◌++◌, length, take, drop, ◌==◌, leb, ltb,
  take-append, drop-append, length-append, ◌⊎◌, arith, Bool-cases, if◌then◌else◌, inl, inr,
}
use some_go_foolery.Base.Bytes.{Bytes}

pub data Error : Type 0 where
  eof unexpected_eof frame_too_large raw_failed encrypt_failed decrypt_failed : Error

pub data Result {ℓ} (A : Type ℓ) : Type ℓ where
  ok : A → Result A
  err : Error → Result A

infixl 5 ◌>>=◌
abbrev pub ◌>>=◌ {ℓ κ} : {A : Type ℓ} {B : Type κ} → Result A → (A → Result B) → Result B
ok a >>= f = f a
err e >>= f = err e

-- `io.ReadFull` of n bytes from a stream that ends after `s`: the bytes and the rest.
unfoldable pub read_full : ℕ → Bytes → Result (Bytes × Bytes)
read_full n s =
    if leb n (length s)
    then ok (take n s, drop n s)
    else if length s == 0
    then err eof
    else err unexpected_eof

-- `binary.BigEndian.Uint16` and `PutUint16`.
abbrev pub uint16 : Bytes → ℕ
uint16 (hi ∷ lo ∷ []) = hi * 256 + lo
uint16 _ = 0

abbrev pub put_uint16 : ℕ → Bytes
put_uint16 n = n / 256 % 256 ∷ n % 256 ∷ []

unfoldable pub read_frame : Bytes → Result (Bytes × Bytes)
read_frame s = do header ← read_full 2 s; read_full (uint16 header.0) header.1

-- What `writeFrame` hands to the one call of `Write`.
unfoldable pub write_frame : Bytes → Result Bytes
write_frame p =
    if ltb 0xFFFF (length p) then err frame_too_large else ok (put_uint16 (length p) ++ p)

read_full-append : (p s : Bytes) → read_full (length p) (p ++ s) ≡ ok (p, s)
unfolding read_full
read_full-append p s = rw (take-append, drop-append) (ground (arith, length-append p s))

uint16-put_uint16 : (n : ℕ) → n ≤ 0xFFFF → uint16 (put_uint16 n) ≡ n
uint16-put_uint16 n h = omega arith

read_frame_header :
    (p rest : Bytes)
    → length p ≤ 0xFFFF
    → read_frame (put_uint16 (length p) ++ (p ++ rest)) ≡ ok (p, rest)
unfolding read_frame
read_frame_header p rest h =
    rw (read_full-append (put_uint16 (length p)) (p ++ rest))
      (rw (uint16-put_uint16 (length p) h) (read_full-append p rest))

-- Whatever follows on the stream, the frame that was written is the frame that is read, and the
-- stream goes on behind it.
pub read_frame-write_frame :
    (p out rest : Bytes) → write_frame p ≡ ok out → read_frame (out ++ rest) ≡ ok (p, rest)
unfolding write_frame
read_frame-write_frame p out rest h =
    let small : length p ≤ 0xFFFF = ground arith in
    let shape : put_uint16 (length p) ++ p ≡ out = ground arith in
    rw (← shape) (read_frame_header p rest small)

-- A payload is framed exactly if its length fits the two bytes, and the frame is two bytes longer.
pub write_frame_fits :
    (p : Bytes)
    → ((length p ≤ 0xFFFF) × (out : Bytes) × (write_frame p ≡ ok out) × (length out ≡ length p + 2))
      ⊎ ((0xFFFF < length p) × (write_frame p ≡ err frame_too_large))
unfolding write_frame
write_frame_fits p = elim (Bool-cases (ltb 0xFFFF (length p))) [
  | inl big ↦ inr (ground arith, ground arith)
  | inr small ↦ inl (ground arith, put_uint16 (length p) ++ p, ground arith, ground arith)
]
