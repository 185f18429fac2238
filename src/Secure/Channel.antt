-- ===== src/Secure/Channel.antt =====
-- The Conn of claudy-p2p/internal/secure/noise.go: chunked writes, and reads with a leftover.
pub mod Stream
pub mod Sizes
use some_go_foolery.Base.{
  ℕ, zero, suc, ◌+◌, ◌-◌, ◌*◌, ◌<◌, ◌≤◌, ◌≡◌, ◌⊎◌, refl, ap, sym, ◌∙◌, Bool, true, false, Option,
  none, some, List, [], ◌∷◌, ◌++◌, length, take, drop, concat, ◌==◌, leb, ltb, All,
  take-append-drop, length-take, length-drop, length-append, arith, Bool-cases, Option-cases,
  if◌then◌else◌, inl, inr,
}
use some_go_foolery.Base.Bytes.{Bytes}
use some_go_foolery.Secure.Frame.{
  Error, Result, ok, err, encrypt_failed, decrypt_failed, raw_failed, read_frame, write_frame,
  read_frame-write_frame, write_frame_fits,
}

-- The cipher states of github.com/flynn/noise. A state counts its messages, and runs out of numbers.
-- `Synced e d` says that the state d expects the next message of the state e. What is relied on: a
-- synced state decrypts the other's message and stays synced, and a message is 16 bytes longer.
pub record Cipher : Type 1 where
  pub State : Type 0
  pub encrypt : State → Bytes → Option (Bytes × State)
  pub decrypt : State → Bytes → Option (Bytes × State)
  pub Synced : State → State → Type 0
  pub encrypt-decrypt :
      (e d e' : State) (p ct : Bytes)
      → Synced e d
      → encrypt e p ≡ some (ct, e')
      → (d' : State) × (decrypt d ct ≡ some (p, d')) × Synced e' d'
  pub length-encrypt :
      (e e' : State) (p ct : Bytes) → encrypt e p ≡ some (ct, e') → length ct ≡ length p + 16

abbrev pub max_frame_payload : ℕ
max_frame_payload = 16 * 1024 - 64

module _ (c : Cipher) where
  open c use {State, encrypt, decrypt, Synced, encrypt-decrypt, length-encrypt}

  -- What a `Write` has done: the count that it returns, its error, the cipher state, and the frames
  -- that it gave to the connection below, in order.
  pub record Written : Type 0 where
    pub total : ℕ
    pub error : Option Error
    pub enc : State
    pub frames : List Bytes

  -- One frame sent, and then the rest of the loop.
  abbrev pub after_frame : Bytes → Bytes → Written → Written
  after_frame chunk frame w = record w { total = length chunk + w.total; frames = frame ∷ w.frames }

  abbrev pub failed : State → Error → Written
  failed enc e = record { total = 0; error = some e; enc = enc; frames = [] }

  -- `writeFrame`, whose one call of `Write` on the connection below fails if the next flag is set.
  abbrev pub send_frame : Bytes → State → List Bool → Result Bytes → (List Bool → Written) → Written
  send_frame chunk e raw (err er) next = failed e er
  send_frame chunk e [] (ok frame) next = after_frame chunk frame (next [])
  send_frame chunk e (true ∷ raw) (ok frame) next = failed e raw_failed
  send_frame chunk e (false ∷ raw) (ok frame) next = after_frame chunk frame (next raw)

  abbrev pub send_chunk :
      Bytes → State → List Bool → Option (Bytes × State) → (State → List Bool → Written) → Written
  send_chunk chunk e raw none next = failed e encrypt_failed
  send_chunk chunk e raw (some (ct, e')) next = send_frame chunk e' raw (write_frame ct) (next e')

  -- The loop of `Write`. Every round takes at least a byte, so more fuel than bytes is enough.
  unfoldable pub write_loop : ℕ → List Bool → State → Bytes → Written
  write_loop zero raw e p = record { total = 0; error = none; enc = e; frames = [] }
  write_loop (suc fuel) raw e [] = record { total = 0; error = none; enc = e; frames = [] }
  write_loop (suc fuel) raw e (x ∷ xs) =
      send_chunk (take max_frame_payload (x ∷ xs)) e raw
        (encrypt e (take max_frame_payload (x ∷ xs)))
        (λ e' more. write_loop fuel more e' (drop max_frame_payload (x ∷ xs)))

  unfoldable pub write : List Bool → State → Bytes → Written
  write raw e p = write_loop (suc (length p)) raw e p

  -- The receiving side: the cipher state, the tail of a frame, and the bytes still to come.
  pub record Receiver : Type 0 where
    pub dec : State
    pub read_buf : Bytes
    pub stream : Bytes

  abbrev pub take_plain : ℕ → Bytes → Option (Bytes × State) → Result (Bytes × Receiver)
  take_plain n stream none = err decrypt_failed
  take_plain n stream (some (plain, d)) = ok (
    take n plain,
    record {
      dec = d;
      read_buf = if ltb n (length plain) then drop n plain else [];
      stream = stream;
    },
  )

  abbrev pub read_next : ℕ → State → Result (Bytes × Bytes) → Result (Bytes × Receiver)
  read_next n d (err e) = err e
  read_next n d (ok (ct, rest)) = take_plain n rest (decrypt d ct)

  -- `Read` into a buffer of n bytes.
  unfoldable pub read : ℕ → Receiver → Result (Bytes × Receiver)
  read n r =
      if ltb 0 (length r.read_buf)
      then ok (take n r.read_buf, record r { read_buf = drop n r.read_buf })
      else read_next n r.dec (read_frame r.stream)
