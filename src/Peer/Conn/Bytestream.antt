-- ===== src/Peer/Conn/Bytestream.antt =====
-- Bytes, their order and the size of messages in the Conn of claudy-p2p/internal/peer/conn.go.
use mathlib.Core.List.{append_assoc, append-nil}
use some_go_foolery.Base.{
  ℕ, zero, suc, ◌+◌, ◌<◌, ◌≤◌, ◌≡◌, ◌≢◌, inl, inr, refl, sym, ap, subst, ◌∙◌, true, false, Option,
  none, some, List, [], ◌∷◌, ◌++◌, length, take, drop, concat, concat-append, All, take-append-drop,
  take_all, nil_of_length, length-take, length-drop, length-append, Bool-cases, lt→ltb, take_past,
  drop_all, ltb, arith,
}
use some_go_foolery.Base.Bytes.{Bytes}
use some_go_foolery.Secure.Channel.Sizes.{max_frame}
use some_go_foolery.Peer.Conn.{
  Conn, Error, Ready, ctx_done, deadline, frame, Got, copy_frame, select_read, read, on_message,
  max_msg_size, queue_size, Round, cancelled, expired_write, sends, fails, Written, stopped,
  after_send, send_chunk, write_loop, write,
}

-- The bytes that have arrived and have not been read.
abbrev pub pending : Conn → Bytes
pending c = c.leftover ++ concat c.queue

abbrev pub TakesFront : ℕ → Conn → Got × Conn → Type 0
TakesFront n c ((out, e), c') =
    (pending c ≡ out ++ pending c') × (length out ≤ n) × (e ≢ none → (out ≡ []) × (c' ≡ c))

abbrev pub Gives {ℓ κ} : {A : Type ℓ} → (A → Type κ) → Option A → Type κ
Gives P none = Unit
Gives P (some a) = P a

split_read : (n : ℕ) (p q : Bytes) → p ++ q ≡ take n p ++ (drop n p ++ q)
split_read n p q = rw (← append_assoc, take-append-drop)

no_error {ℓ} : {P : Type ℓ} → ◌≢◌ {A = Option Error} none none → P
no_error h = absurd (h refl)

copy_frame-TakesFront :
    (n : ℕ) (queue : List Bytes) (c : Conn)
    → c.leftover ≡ []
    → c.queue ≡ queue
    → Gives (TakesFront n c) (copy_frame n c queue)
copy_frame-TakesFront n [] c l q = tt
copy_frame-TakesFront n (f ∷ fs) c l q = elim (Bool-cases (ltb n (length f))) [
  | inl long ↦
      rw (long, l, q) (split_read n f (concat fs), omega (arith, length-take n f), no_error)
  | inr short ↦
      rw (short, l, q)
        (
          ap (λ (p : Bytes). p ++ concat fs) (sym (take_all n f (ground arith))),
          omega (arith, length-take n f),
          no_error,
        )
]

select_read-TakesFront :
    (n : ℕ) (pick : Ready) (c : Conn)
    → c.leftover ≡ []
    → Gives (TakesFront n c) (select_read n c pick)
select_read-TakesFront n ctx_done c l = elim (Bool-cases c.done) [
  | inl e ↦ rw e (refl, omega arith, λ h. (refl, refl))
  | inr e ↦ rw e tt
]
select_read-TakesFront n deadline c l = elim (Bool-cases c.expired) [
  | inl e ↦ rw e (refl, omega arith, λ h. (refl, refl))
  | inr e ↦ rw e tt
]
select_read-TakesFront n frame c l = copy_frame-TakesFront n c.queue c l refl

-- A read that returns takes its bytes from the front of those that wait, at most as many as fit, and
-- takes none with an error; and where bytes wait, a read that picks the frame returns.
pub read-TakesFront :
    (n : ℕ) (pick : Ready) (c : Conn)
    → Gives (TakesFront n c) (read n pick c)
      × (pending c ≢ [] → (r : Got × Conn) × (read n frame c ≡ some r))
unfolding read
read-TakesFront n pick c = elim (Bool-cases (ltb 0 (length c.leftover))) [
  | inl some_left ↦ rw some_left (
    (split_read n c.leftover (concat c.queue), omega (arith, length-take n c.leftover), no_error),
    λ h. (_, refl),
  )
  | inr empty ↦ rw empty (
    select_read-TakesFront n pick c (nil_of_length c.leftover (ground arith)),
    returns c.queue (nil_of_length c.leftover (ground arith)),
  )
]
  where
    returns :
        (queue : List Bytes)
        → c.leftover ≡ []
        → c.leftover ++ concat queue ≢ []
        → (r : Got × Conn) × (copy_frame n c queue ≡ some r)
    returns [] l h = absurd (h (rw l))
    returns (f ∷ fs) l h = (_, refl)

-- A queued message goes behind all that wait.
pending-on_message :
    (msg : Bytes) (c : Conn)
    → length c.queue < queue_size
    → (c' : Conn) × (on_message msg frame c ≡ some c') × (pending c' ≡ pending c ++ msg)
unfolding on_message
pending-on_message msg c room = (
  record c { queue = c.queue ++ msg ∷ [] },
  rw (lt→ltb _ _ room),
  rw (concat-append, append-nil, append_assoc),
)

-- The messages of a write are the first `total` bytes in order; each has between 1 and 16,384; and a
-- write with no error has sent everything.
pub record Chunked (p : Bytes) (w : Written) : Type 0 where
  pub ordered : concat w.sent ≡ take w.total p
  pub counted : w.total ≤ length p
  pub sizes : All (λ m. (0 < length m) × (length m ≤ max_msg_size)) w.sent
  pub complete : w.error ≡ none → w.total ≡ length p

stopped-Chunked : (p : Bytes) (e : Error) → Chunked p (stopped e)
stopped-Chunked p e = record {
  ordered = refl;
  counted = omega arith;
  sizes = tt;
  complete = λ h. absurd (unequal h);
}
  where
    unequal : some e ≡ none → ⊥
    unequal h = cc

after_send-Chunked :
    (chunk rest : Bytes) (w : Written)
    → 0 < length chunk
    → length chunk ≤ max_msg_size
    → Chunked rest w
    → Chunked (chunk ++ rest) (after_send chunk w)
after_send-Chunked chunk rest w some_bytes small h = record {
  ordered = ap (◌++◌ chunk) h.ordered ∙ sym (take_past chunk rest w.total);
  counted = omega (arith, h.counted, length-append chunk rest);
  sizes = ((some_bytes, small), h.sizes);
  complete = λ e. omega (arith, h.complete e, length-append chunk rest);
}

send_chunk-Chunked :
    (chunk rest : Bytes) (rs : List Round) (next : List Round → Written)
    → 0 < length chunk
    → length chunk ≤ max_msg_size
    → ((more : List Round) → Chunked rest (next more))
    → Chunked (chunk ++ rest) (send_chunk chunk rs next)
send_chunk-Chunked chunk rest [] next s l h = after_send-Chunked chunk rest _ s l (h [])
send_chunk-Chunked chunk rest (cancelled ∷ rs) next s l h = stopped-Chunked _ _
send_chunk-Chunked chunk rest (expired_write ∷ rs) next s l h = stopped-Chunked _ _
send_chunk-Chunked chunk rest (fails true ∷ rs) next s l h = stopped-Chunked _ _
send_chunk-Chunked chunk rest (fails false ∷ rs) next s l h = stopped-Chunked _ _
send_chunk-Chunked chunk rest (sends ∷ rs) next s l h = after_send-Chunked chunk rest _ s l (h rs)

write_loop-Chunked :
    (fuel : ℕ) (rs : List Round) (p : Bytes) → length p < fuel → Chunked p (write_loop fuel rs p)
unfolding write_loop
write_loop-Chunked zero rs p h = absurd (omega arith)
write_loop-Chunked (suc fuel) rs [] h = record {
  ordered = refl;
  counted = omega arith;
  sizes = tt;
  complete = λ e. refl;
}
write_loop-Chunked (suc fuel) rs (x ∷ xs) h =
    subst (λ q. Chunked q (write_loop (suc fuel) rs (x ∷ xs)))
      (take-append-drop max_msg_size (x ∷ xs))
      (send_chunk-Chunked (take max_msg_size (x ∷ xs)) (drop max_msg_size (x ∷ xs)) rs
        (λ more. write_loop fuel more (drop max_msg_size (x ∷ xs)))
        (omega (arith, length-take max_msg_size (x ∷ xs)))
        (omega (arith, length-take max_msg_size (x ∷ xs)))
        (λ more.
          write_loop-Chunked fuel more (drop max_msg_size (x ∷ xs))
            (omega (arith, length-drop max_msg_size (x ∷ xs)))))

-- Whatever the context, the deadline and `Send` do, a write is chunked in that sense.
pub write-Chunked : (rs : List Round) (p : Bytes) → Chunked p (write rs p)
unfolding write
write-Chunked rs p = write_loop-Chunked (suc (length p)) rs p (omega arith)

one_chunk :
    (fuel : ℕ) (chunk rest p : Bytes)
    → chunk ≡ p
    → rest ≡ []
    → send_chunk chunk [] (λ more. write_loop (suc fuel) more rest)
      ≡ record { total = length p; error = none; sent = p ∷ [] }
unfolding write_loop
one_chunk fuel chunk rest p c r =
    rw (c, r) (ap (λ n. record { total = n; error = none; sent = p ∷ [] }) zero_right)
  where
    zero_right : length p + 0 ≡ length p
    zero_right = omega arith

fits_message : (n : ℕ) → n ≤ max_frame → n ≤ max_msg_size
fits_message n h = omega arith

-- What is no longer than the longest frame of the Noise transport is sent as one message.
write_one_message :
    (x : ℕ) (xs : Bytes)
    → length (x ∷ xs) ≤ max_frame
    → write [] (x ∷ xs) ≡ record { total = length (x ∷ xs); error = none; sent = (x ∷ xs) ∷ [] }
unfolding write write_loop
write_one_message x xs small =
    one_chunk (length xs) (take max_msg_size (x ∷ xs)) (drop max_msg_size (x ∷ xs)) (x ∷ xs)
      (take_all max_msg_size (x ∷ xs) (fits_message (length (x ∷ xs)) small))
      (drop_all max_msg_size (x ∷ xs) (fits_message (length (x ∷ xs)) small))
