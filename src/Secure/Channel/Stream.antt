-- ===== src/Secure/Channel/Stream.antt =====
-- One end of the Conn of claudy-p2p/internal/secure/noise.go writes, and the other reads.
use some_go_foolery.Base.{
  take_past, ℕ, zero, suc, ◌<◌, ◌≤◌, ◌≡◌, ◌⊎◌, refl, ap, sym, subst, Bool, true, false, Option,
  none, some, List, [], ◌∷◌, ◌++◌, length, take, drop, concat, ltb, lt→ltb, ltb→lt, nil_of_length,
  All, take-append-drop, take_all, length-take, length-append, arith, Bool-cases, inl, inr,
}
use mathlib.Core.List.{append_assoc}
use some_go_foolery.Base.Bytes.{Bytes}
use some_go_foolery.Secure.Frame.{
  Error, eof, read_full, Result, ok, err, encrypt_failed, raw_failed, read_frame, write_frame,
  read_frame-write_frame,
}
use some_go_foolery.Secure.Channel.{
  Cipher, max_frame_payload, Written, after_frame, failed, send_frame, send_chunk, write_loop,
  write, Receiver, read_next, read,
}

module _ (c : Cipher) where
  open c use {State, encrypt, decrypt, Synced, encrypt-decrypt, length-encrypt}

  -- The stream holds frames that, decrypted from this state on, hold these bytes.
  pub data Carries : State → Bytes → Bytes → Type 0 where
    done : (d : State) (s q : Bytes) → s ≡ [] → q ≡ [] → Carries d s q
    frame :
        (d : State) (s q ct rest plain q' : Bytes) (d' : State)
        → read_frame s ≡ ok (ct, rest)
        → decrypt d ct ≡ some (plain, d')
        → 0 < length plain
        → q ≡ plain ++ q'
        → Carries d' rest q'
        → Carries d s q

  -- The frames of a write carry the bytes that it counts.
  Delivered : State → Bytes → Written c → Type 0
  Delivered d p w = Carries d (concat w.frames) (take w.total p) × (w.total ≤ length p)

  after_frame-Delivered :
      (chunk rest ct out : Bytes) (d d' : State) (w : Written c)
      → write_frame ct ≡ ok out
      → decrypt d ct ≡ some (chunk, d')
      → 0 < length chunk
      → Delivered d' rest w
      → Delivered d (chunk ++ rest) (after_frame c chunk out w)
  unfolding Delivered
  after_frame-Delivered chunk rest ct out d d' w framed opened some_bytes (carried, short) = (
    frame d _ _ ct (concat w.frames) chunk (take w.total rest) d'
        (read_frame-write_frame ct out (concat w.frames) framed) opened some_bytes
        (take_past chunk rest w.total) carried,
    omega (arith, length-append chunk rest),
  )

  send_chunk-Delivered :
      (chunk rest : Bytes) (e d : State) (raw : List Bool) (next : State → List Bool → Written c)
      → Synced e d
      → 0 < length chunk
      → ((e' d' : State) (more : List Bool) → Synced e' d' → Delivered d' rest (next e' more))
      → Delivered d (chunk ++ rest) (send_chunk c chunk e raw (encrypt e chunk) next)
  send_chunk-Delivered chunk rest e d raw next s some_bytes ih = go (encrypt e chunk) refl
    where
      nothing : (e' : State) (er : Error) → Delivered d (chunk ++ rest) (failed c e' er)
      nothing e' er = unfold Delivered in (done _ _ _ refl refl, omega arith)

      framed :
          (ct : Bytes) (e' d' : State) (raw : List Bool) (r : Result Bytes)
          → write_frame ct ≡ r
          → decrypt d ct ≡ some (chunk, d')
          → Synced e' d'
          → Delivered d (chunk ++ rest) (send_frame c chunk e' raw r (next e'))
      framed ct e' d' raw (err er) w o t = nothing e' er
      framed ct e' d' [] (ok out) w o t =
          after_frame-Delivered chunk rest ct out d d' _ w o some_bytes (ih e' d' [] t)
      framed ct e' d' (true ∷ raw) (ok out) w o t = nothing e' raw_failed
      framed ct e' d' (false ∷ raw) (ok out) w o t =
          after_frame-Delivered chunk rest ct out d d' _ w o some_bytes (ih e' d' raw t)

      go :
          (o : Option (Bytes × State))
          → encrypt e chunk ≡ o
          → Delivered d (chunk ++ rest) (send_chunk c chunk e raw o next)
      go none h = nothing e encrypt_failed
      go (some (ct, e')) h =
          let (d', opened, synced) = encrypt-decrypt e d e' chunk ct s h in
          framed ct e' d' raw (write_frame ct) refl opened synced

  write_loop-Delivered :
      (fuel : ℕ) (raw : List Bool) (e d : State) (p : Bytes)
      → Synced e d
      → Delivered d p (write_loop c fuel raw e p)
  unfolding write_loop
  write_loop-Delivered zero raw e d p s = unfold Delivered in (done _ _ _ refl refl, omega arith)
  write_loop-Delivered (suc fuel) raw e d [] s =
      unfold Delivered in (done _ _ _ refl refl, omega arith)
  write_loop-Delivered (suc fuel) raw e d (x ∷ xs) s =
      subst (λ q. Delivered d q (write_loop c (suc fuel) raw e (x ∷ xs)))
        (take-append-drop max_frame_payload (x ∷ xs))
        (send_chunk-Delivered (take max_frame_payload (x ∷ xs)) (drop max_frame_payload (x ∷ xs)) e
          d raw (λ e' more. write_loop c fuel more e' (drop max_frame_payload (x ∷ xs))) s
          (omega (arith, length-take max_frame_payload (x ∷ xs)))
          (λ e' d' more t.
            write_loop-Delivered fuel more e' d' (drop max_frame_payload (x ∷ xs)) t))

  -- From synced cipher states, the frames of a write carry exactly the bytes that it counts: the first
  -- `total` of those that it was given, also when it stops at an error.
  write-Carries :
      (raw : List Bool) (e d : State) (p : Bytes)
      → Synced e d
      → let w = write c raw e p in
        Carries d (concat w.frames) (take w.total p) × (w.total ≤ length p)
  unfolding write
  write-Carries raw e d p s = unfold Delivered in write_loop-Delivered (suc (length p)) raw e d p s

  -- A read that returns the next of the bytes q, at most n and at least one if there is room, and leaves
  -- the others to come.
  abbrev pub Reads : ℕ → Bytes → Result (Bytes × Receiver c) → Type 0
  Reads n q (err e) = ⊥
  Reads n q (ok (out, r)) =
      (q' : Bytes) × Carries r.dec r.stream q'
      × (q ≡ out ++ (r.read_buf ++ q'))
      × (length out ≤ n)
      × (0 < n → 0 < length out)

  split_read : (n : ℕ) (p q : Bytes) → p ++ q ≡ take n p ++ (drop n p ++ q)
  split_read n p q = rw (← append_assoc, take-append-drop)

  take_bounds :
      (n : ℕ) (p : Bytes) → 0 < length p → (length (take n p) ≤ n) × (0 < n → 0 < length (take n p))
  take_bounds n p h = omega (arith, length-take n p)

  buffered :
      (n : ℕ) (r : Receiver c) (q : Bytes)
      → 0 < length r.read_buf
      → Carries r.dec r.stream q
      → Reads n (r.read_buf ++ q) (read c n r)
  unfolding read
  buffered n r q h k =
      let (few, some_out) = take_bounds n r.read_buf h in
      rw (lt→ltb 0 (length r.read_buf) h) (q, k, split_read n r.read_buf q, few, some_out)

  next_frame :
      (n : ℕ) (d d' : State) (s ct rest plain q' : Bytes)
      → read_frame s ≡ ok (ct, rest)
      → decrypt d ct ≡ some (plain, d')
      → 0 < length plain
      → Carries d' rest q'
      → Reads n (plain ++ q') (read_next c n d (read_frame s))
  next_frame n d d' s ct rest plain q' framed opened some_bytes k =
      let (few, some_out) = take_bounds n plain some_bytes in
      rw framed (
        rw opened (elim (Bool-cases (ltb n (length plain))) [
          | inl long ↦ rw long (q', k, split_read n plain q', few, some_out)
          | inr short ↦ rw short (q', k, whole (ground arith), few, some_out)
        ]))
    where
      whole : length plain ≤ n → plain ++ q' ≡ take n plain ++ q'
      whole h = rw (take_all n plain h)

  read_frame-nil : read_frame [] ≡ err eof
  unfolding read_frame read_full
  read_frame-nil = refl

  -- Where the stream carries whole frames, a read returns the next bytes, at most as many as fit and at
  -- least one if there is room, and leaves the others to come; only when none is left it reports EOF.
  read-Reads :
      (n : ℕ) (r : Receiver c) (q : Bytes)
      → Carries r.dec r.stream q
      → Reads n (r.read_buf ++ q) (read c n r) ⊎ ((r.read_buf ++ q ≡ []) × (read c n r ≡ err eof))
  read-Reads n r q k = elim (Bool-cases (ltb 0 (length r.read_buf))) [
    | inl some_left ↦ inl (buffered n r q (ltb→lt 0 (length r.read_buf) some_left) k)
    | inr empty ↦
        unfold read in rw (empty, nil_of_length r.read_buf (ground arith)) (go r.dec r.stream q k)
  ]
    where
      go :
          (d : State) (s q : Bytes)
          → Carries d s q
          → Reads n q (read_next c n d (read_frame s))
            ⊎ ((q ≡ []) × (read_next c n d (read_frame s) ≡ err eof))
      go d s q (done _ _ _ hs hq) = inr (hq, rw (hs, read_frame-nil))
      go d s q (frame _ _ _ ct rest plain q' d' framed opened some_bytes e k') =
          inl (rw e (next_frame n d d' s ct rest plain q' framed opened some_bytes k'))

  -- The bytes that reads into buffers of these sizes return, up to the first error.
  pub read_many : List ℕ → Receiver c → Bytes
  read_many [] r = []
  read_many (n ∷ ns) r = elim (read c n r) [ ok (out, r') ↦ out ++ read_many ns r' | err e ↦ [] ]

  -- Reads of any sizes but 0, as many as there are bytes, return all that the stream carries.
  read_many-Carries :
      (ns : List ℕ) (r : Receiver c) (q : Bytes)
      → Carries r.dec r.stream q
      → All (λ n. 0 < n) ns
      → length (r.read_buf ++ q) ≤ length ns
      → read_many ns r ≡ r.read_buf ++ q
  unfolding read_many
  read_many-Carries [] r q k pos enough = sym (nil_of_length (r.read_buf ++ q) (omega arith))
  read_many-Carries (n ∷ ns) r q k pos enough =
      go (λ r' q' k' h. read_many-Carries ns r' q' k' pos.1 h) (read c n r) (read-Reads n r q k)
    where
      shorter :
          (out left : Bytes)
          → r.read_buf ++ q ≡ out ++ left
          → 0 < length out
          → length left ≤ length ns
      shorter out left e h = omega (arith, ap length e, length-append out left)

      Later : Type 0
      Later =
          (r' : Receiver c) (q' : Bytes)
          → Carries r'.dec r'.stream q'
          → length (r'.read_buf ++ q') ≤ length ns
          → read_many ns r' ≡ r'.read_buf ++ q'

      go :
          Later
          → (res : Result (Bytes × Receiver c))
          → Reads n (r.read_buf ++ q) res ⊎ ((r.read_buf ++ q ≡ []) × (res ≡ err eof))
          → (elim res [ ok (out, r') ↦ out ++ read_many ns r' | err e ↦ [] ]) ≡ r.read_buf ++ q
      go later (err e) (inl h) = absurd h
      go later (err e) (inr (h, _)) = sym h
      go later (ok (out, r')) (inr (h, e)) = cc
      go later (ok (out, r')) (inl (q', k', e, few, some_out)) =
          rw e (ap (◌++◌ out) (later r' q' k' (shorter out (r'.read_buf ++ q') e (some_out pos.0))))

  -- From synced cipher states: what one end counts as written is what the other end reads, whatever the
  -- sizes of its buffers (none is 0), once it has read as often as there are bytes.
  pub read_many-write :
      (raw : List Bool) (e d : State) (p : Bytes) (ns : List ℕ)
      → Synced e d
      → All (λ n. 0 < n) ns
      → length p ≤ length ns
      → let w = write c raw e p in
        read_many ns (record { dec = d; read_buf = []; stream = concat w.frames }) ≡ take w.total p
  read_many-write raw e d p ns s pos enough =
      let (carried, short) = write-Carries raw e d p s in
      read_many-Carries ns
        (record { dec = d; read_buf = []; stream = concat (write c raw e p).frames })
        (take (write c raw e p).total p) carried pos
        (omega (arith, length-take (write c raw e p).total p))
