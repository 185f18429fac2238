-- ===== src/Peer/Link.antt =====
-- Two ends of the Conn of claudy-p2p/internal/peer/conn.go over a data channel, which delivers the messages
-- of one end to the other in their order. One end writes and the other reads.
use mathlib.Core.List.{append_assoc, append-nil}
use some_go_foolery.Base.{
  ℕ, ◌≡◌, ◌⊎◌, inl, inr, refl, sym, ◌∙◌, Bool, true, false, Option, none, some, List, [], ◌∷◌, ◌++◌,
  take, length, concat, concat-append, Bool-cases, ltb, if◌then◌else◌,
}
use some_go_foolery.Base.Bytes.{Bytes}
use some_go_foolery.Peer.Conn.{
  Conn, Error, Ready, ctx_done, deadline, frame, Got, copy_frame, select_read, read, on_message,
  close, when, Round, Written, write, queue_size,
}
use some_go_foolery.Peer.Conn.Bytestream.{
  pending, TakesFront, Gives, read-TakesFront, write-Chunked,
}

-- What happens at the two ends: a write with its rounds, the handler of the first message that is under
-- way, a read, a deadline that is set and has or has not expired, a close of the reading end.
pub data Event : Type 0 where
  writes : List Round → Bytes → Event
  arrives : Ready → Event
  reads : ℕ → Ready → Event
  expires : Bool → Event
  closes : Event

-- `counted` are the bytes that the writes have reported as written, `got` those that the reads have
-- returned.
pub record Link : Type 0 where
  pub under_way : List Bytes
  pub conn : Conn
  pub got : Bytes
  pub counted : Bytes

abbrev new_conn : Conn
new_conn = record { queue = []; leftover = []; done = false; expired = false; dc_closed = false }

abbrev pub new_link : Link
new_link = record { under_way = []; conn = new_conn; got = []; counted = [] }

abbrev wrote : Bytes → Written → Link → Link
wrote p w l = record l { under_way = l.under_way ++ w.sent; counted = l.counted ++ take w.total p }

abbrev pub handled : List Bytes → Option Conn → Link → Link
handled ms none l = l
handled ms (some c) l = record l { under_way = ms; conn = c }

abbrev arrive : List Bytes → Ready → Link → Link
arrive [] pick l = l
arrive (m ∷ ms) pick l = handled ms (on_message m pick l.conn) l

abbrev pub returned : Option (Got × Conn) → Link → Link
returned none l = l
returned (some ((out, e), c)) l = record l { conn = c; got = l.got ++ out }

unfoldable pub step : Event → Link → Link
step (writes rs p) l = wrote p (write rs p) l
step (arrives pick) l = arrive l.under_way pick l
step (reads n pick) l = returned (read n pick l.conn) l
step (expires b) l = record l { conn = record l.conn { expired = b } }
step closes l = record l { conn = close l.conn }

unfoldable pub steps : List Event → Link → Link
steps [] l = l
steps (e ∷ es) l = steps es (step e l)

-- The reading end is closed, or every byte that is counted has been read, waits, or is under way, in order.
abbrev Exact : Link → Type 0
Exact l = (l.conn.done ≡ true) ⊎ (l.got ++ (pending l.conn ++ concat l.under_way) ≡ l.counted)

abbrev SameDone : Conn → Got × Conn → Type 0
SameDone c r = r.1.done ≡ c.done

when-SameDone : (b : Bool) (g : Got) (c : Conn) → Gives (SameDone c) (when b (g, c))
when-SameDone true g c = refl
when-SameDone false g c = tt

copy-SameDone : (n : ℕ) (c : Conn) (fs : List Bytes) → Gives (SameDone c) (copy_frame n c fs)
copy-SameDone n c [] = tt
copy-SameDone n c (f ∷ fs) = refl

select-SameDone : (n : ℕ) (pick : Ready) (c : Conn) → Gives (SameDone c) (select_read n c pick)
select-SameDone n ctx_done c = when-SameDone c.done ([], some Error.eof) c
select-SameDone n deadline c = when-SameDone c.expired ([], some Error.deadline_exceeded) c
select-SameDone n frame c = copy-SameDone n c c.queue

-- No read closes the connection.
read-SameDone : (n : ℕ) (pick : Ready) (c : Conn) → Gives (SameDone c) (read n pick c)
unfolding read
read-SameDone n pick c = elim (Bool-cases (ltb 0 (length c.leftover))) [
  | inl some_left ↦ rw some_left refl
  | inr empty ↦ rw empty (select-SameDone n pick c)
]

grown :
    (got waits way sent more counted : Bytes)
    → got ++ (waits ++ way) ≡ counted
    → sent ≡ more
    → got ++ (waits ++ (way ++ sent)) ≡ counted ++ more
grown got waits way sent more counted h e = rw (← h, e, append_assoc, append_assoc) refl

taken :
    (got out left way counted waits : Bytes)
    → waits ≡ out ++ left
    → got ++ (waits ++ way) ≡ counted
    → (got ++ out) ++ (left ++ way) ≡ counted
taken got out left way counted waits e h = rw (← h, e) (simp append_assoc)

moved :
    (got left m counted : Bytes) (queue ms way : List Bytes)
    → way ≡ m ∷ ms
    → got ++ ((left ++ concat queue) ++ concat way) ≡ counted
    → got ++ ((left ++ concat (queue ++ m ∷ [])) ++ concat ms) ≡ counted
moved got left m counted queue ms way u h =
    rw (← h, u, concat-append) (simp (append_assoc, append-nil))

write-Exact : (rs : List Round) (p : Bytes) (l : Link) → Exact l → Exact (wrote p (write rs p) l)
write-Exact rs p l (inl d) = inl d
write-Exact rs p l (inr e) = inr (
    rw concat-append (
      grown l.got (pending l.conn) (concat l.under_way) (concat (write rs p).sent)
        (take (write rs p).total p) l.counted e (write-Chunked rs p).ordered))

read-Exact :
    (l : Link) (r : Option (Got × Conn)) (n : ℕ)
    → Gives (TakesFront n l.conn) r
    → Gives (SameDone l.conn) r
    → Exact l
    → Exact (returned r l)
read-Exact l none n t s h = h
read-Exact l (some ((out, e), c)) n t s (inl d) = inl (s ∙ d)
read-Exact l (some ((out, e), c)) n (front, few, _) s (inr h) =
    inr (taken l.got out (pending c) (concat l.under_way) l.counted (pending l.conn) front h)

dropped :
    (b : Bool) (ms : List Bytes) (l : Link)
    → l.conn.done ≡ b
    → Exact l
    → Exact (handled ms (when b l.conn) l)
dropped true ms l d h = inl d
dropped false ms l d h = h

-- The handler queues the message, or waits, or drops it after a close.
handled-Exact :
    (pick : Ready) (m : Bytes) (ms : List Bytes) (l : Link)
    → l.under_way ≡ m ∷ ms
    → Exact l
    → Exact (handled ms (on_message m pick l.conn) l)
unfolding on_message
handled-Exact frame m ms l u h = elim (Bool-cases (ltb (length l.conn.queue) queue_size)) [
  | inr full ↦ rw full h
  | inl room ↦ rw room (queued h)
]
  where
    queued :
        Exact l → Exact (handled ms (some (record l.conn { queue = l.conn.queue ++ m ∷ [] })) l)
    queued (inl d) = inl d
    queued (inr e) = inr (moved l.got l.conn.leftover m l.counted l.conn.queue ms l.under_way u e)
handled-Exact ctx_done m ms l u h = dropped l.conn.done ms l refl h
handled-Exact deadline m ms l u h = dropped l.conn.done ms l refl h

arrive-Exact :
    (pick : Ready) (l : Link) (way : List Bytes)
    → l.under_way ≡ way
    → Exact l
    → Exact (arrive way pick l)
arrive-Exact pick l [] u h = h
arrive-Exact pick l (m ∷ ms) u h = handled-Exact pick m ms l u h

close-Exact : (l : Link) → Exact l → Exact (record l { conn = close l.conn })
unfolding close
close-Exact l h = shut l.conn.done refl
  where
    shut :
        (b : Bool)
        → l.conn.done ≡ b
        → Exact (record l {
          conn = if b then l.conn else record l.conn { done = true; dc_closed = true };
        })
    shut true d = inl d
    shut false d = inl refl

step-Exact : (e : Event) (l : Link) → Exact l → Exact (step e l)
unfolding step
step-Exact (writes rs p) l h = write-Exact rs p l h
step-Exact (arrives pick) l h = arrive-Exact pick l l.under_way refl h
step-Exact (reads n pick) l h =
    read-Exact l (read n pick l.conn) n (read-TakesFront n pick l.conn).0
      (read-SameDone n pick l.conn) h
step-Exact (expires b) l h = h
step-Exact closes l h = close-Exact l h

steps-Exact : (es : List Event) (l : Link) → Exact l → Exact (steps es l)
unfolding steps
steps-Exact [] l h = h
steps-Exact (e ∷ es) l h = steps-Exact es (step e l) (step-Exact e l h)

-- However writes, messages, reads and deadlines interleave on a new connection, as long as its reading end
-- is not closed: the bytes that the reads have returned, then those that wait there, then those that are
-- under way are the bytes that the writes have reported as written, in order.
pub link_lem :
    (es : List Event)
    → let l = steps es new_link in
      l.conn.done ≡ false → l.got ++ (pending l.conn ++ concat l.under_way) ≡ l.counted
link_lem es open_end = elim (steps-Exact es new_link (inr refl)) [
  | inl d ↦ absurd (differ (sym d ∙ open_end))
  | inr e ↦ e
]
  where
    differ : true ≡ false → ⊥
    differ e = cc
