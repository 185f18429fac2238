-- ===== src/Secure/Channel/Sizes.antt =====
-- How much a Write of claudy-p2p/internal/secure/noise.go sends, and in what sizes.
use some_go_foolery.Base.{
  ℕ, zero, suc, ◌+◌, ◌<◌, ◌≤◌, ◌≡◌, ◌≢◌, refl, subst, Bool, true, false, Option, none, some, List,
  [], ◌∷◌, ◌++◌, length, take, drop, All, take-append-drop, length-take, length-drop, length-append,
  arith, inl, inr,
}
use some_go_foolery.Base.Bytes.{Bytes}
use some_go_foolery.Secure.Frame.{
  Error, ok, frame_too_large, encrypt_failed, raw_failed, write_frame, write_frame_fits,
}
use some_go_foolery.Secure.Channel.{
  Cipher, max_frame_payload, Written, after_frame, failed, send_frame, send_chunk, write_loop,
  write,
}

-- The largest frame: two bytes of length, the payload and the tag.
abbrev pub max_frame : ℕ
max_frame = 2 + max_frame_payload + 16

module _ (c : Cipher) where
  open c use {State, encrypt, length-encrypt}

  -- A finished write has counted everything, no frame is larger than the largest, and none was refused
  -- for its size.
  pub record Sized (p : Bytes) (w : Written c) : Type 0 where
    pub complete : w.error ≡ none → w.total ≡ length p
    pub small : All (λ f. length f ≤ max_frame) w.frames
    pub fits : w.error ≢ some frame_too_large

  failed-Sized :
      (p : Bytes) (e : State) (er : Error) → er ≢ frame_too_large → Sized p (failed c e er)
  failed-Sized p e er ne = record {
    complete = λ h. absurd (unequal h);
    small = tt;
    fits = λ h. ne (same h);
  }
    where
      unequal : some er ≡ none → ⊥
      unequal h = cc

      same : some er ≡ some frame_too_large → er ≡ frame_too_large
      same h = cc

  after_frame-Sized :
      (chunk rest frame : Bytes) (w : Written c)
      → length frame ≤ max_frame
      → Sized rest w
      → Sized (chunk ++ rest) (after_frame c chunk frame w)
  after_frame-Sized chunk rest frame w h s = record {
    complete = λ e. omega (arith, s.complete e, length-append chunk rest);
    small = (h, s.small);
    fits = s.fits;
  }

  send_frame-Sized :
      (chunk rest ct : Bytes) (e : State) (raw : List Bool) (next : List Bool → Written c)
      → length chunk ≤ max_frame_payload
      → length ct ≡ length chunk + 16
      → ((more : List Bool) → Sized rest (next more))
      → Sized (chunk ++ rest) (send_frame c chunk e raw (write_frame ct) next)
  send_frame-Sized chunk rest ct e raw next small sized ih = elim (write_frame_fits ct) [
    | inl (_, frame, framed, long) ↦ rw framed (go frame (omega arith) raw)
    | inr (big, _) ↦ absurd (omega arith)
  ]
    where
      go :
          (frame : Bytes)
          → length frame ≤ max_frame
          → (raw : List Bool) → Sized (chunk ++ rest) (send_frame c chunk e raw (ok frame) next)
      go frame h [] = after_frame-Sized chunk rest frame _ h (ih [])
      go frame h (true ∷ raw) = failed-Sized (chunk ++ rest) e raw_failed (λ e. cc)
      go frame h (false ∷ raw) = after_frame-Sized chunk rest frame _ h (ih raw)

  send_chunk-Sized :
      (chunk rest : Bytes) (e : State) (raw : List Bool) (o : Option (Bytes × State))
      (next : State → List Bool → Written c)
      → encrypt e chunk ≡ o
      → length chunk ≤ max_frame_payload
      → ((e' : State) (more : List Bool) → Sized rest (next e' more))
      → Sized (chunk ++ rest) (send_chunk c chunk e raw o next)
  send_chunk-Sized chunk rest e raw none next h small ih =
      failed-Sized (chunk ++ rest) e encrypt_failed (λ e. cc)
  send_chunk-Sized chunk rest e raw (some (ct, e')) next h small ih =
      send_frame-Sized chunk rest ct e' raw (next e') small (length-encrypt e e' chunk ct h) (ih e')

  write_loop-Sized :
      (fuel : ℕ) (raw : List Bool) (e : State) (p : Bytes)
      → length p < fuel
      → Sized p (write_loop c fuel raw e p)
  unfolding write_loop
  write_loop-Sized zero raw e p h = absurd (omega arith)
  write_loop-Sized (suc fuel) raw e [] h = record {
    complete = λ e. refl;
    small = tt;
    fits = λ e. cc;
  }
  write_loop-Sized (suc fuel) raw e (x ∷ xs) h =
      subst (λ q. Sized q (write_loop c (suc fuel) raw e (x ∷ xs)))
        (take-append-drop max_frame_payload (x ∷ xs))
        (send_chunk-Sized (take max_frame_payload (x ∷ xs)) (drop max_frame_payload (x ∷ xs)) e raw
          _ (λ e' more. write_loop c fuel more e' (drop max_frame_payload (x ∷ xs))) refl
          (omega (arith, length-take max_frame_payload (x ∷ xs)))
          (λ e' more.
            write_loop-Sized fuel more e' (drop max_frame_payload (x ∷ xs))
              (omega (arith, length-drop max_frame_payload (x ∷ xs)))))

  -- A write that reports no error has counted all its bytes; every frame has at most 16,338 bytes, so it
  -- goes into one message of a DataChannel; and no write fails for the size of a frame.
  pub write-Sized : (raw : List Bool) (e : State) (p : Bytes) → Sized p (write c raw e p)
  unfolding write
  write-Sized raw e p = write_loop-Sized (suc (length p)) raw e p (omega arith)
