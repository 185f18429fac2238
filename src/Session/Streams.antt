-- ===== src/Session/Streams.antt =====
-- The streams of claudy-p2p/cmd/dav-owner/main.go on their way to the HTTP server: the backlog that the
-- accept loops of the tunnels fill, and the streamListener that empties it. A stream is any value.
pub mod Backlog
pub mod Delivery
use mathlib.Core.List.{Perm, Sublist, sublist-cons_self, perm_middle, append_assoc, append-nil}
use mathlib.Core.List.Perm
use mathlib.Core.List.Sublist
use some_go_foolery.Base.{
  ◌<◌, ◌+◌, suc, ◌⊎◌, inl, inr, ℕ, ◌≤◌, ◌≡◌, refl, subst, Bool, true, false, Option, none, some,
  List, [], ◌∷◌, ◌++◌, length, length-append, ltb, ltb→lt, if◌then◌else◌, arith, if_cases,
}

-- The capacity of the channel `incoming`.
abbrev pub backlog : ℕ
backlog = 64

-- `incoming` is what waits in the channel, `refused` the streams that an accept loop has closed, `closed`
-- the listener's channel of that name.
pub record Streams {ℓ} (A : Type ℓ) : Type ℓ where
  pub incoming : List A
  pub refused : List A
  pub closed : Bool

-- The case that `select` picks in Accept, among those that are ready.
pub data Pick : Type 0 where
  on_closed on_incoming : Pick

pub data Event {ℓ} (A : Type ℓ) : Type ℓ where
  stream : A → Event A
  accepts : Pick → Event A
  closes : Event A

module _ {ℓ} {A : Type ℓ} where
  abbrev pub new_streams : Streams A
  new_streams = record { incoming = []; refused = []; closed = false }

  -- One round of an accept loop: the stream goes into the channel, or is closed where that is full.
  unfoldable pub offer : A → Streams A → Streams A
  offer c s =
      if ltb (length s.incoming) backlog
      then record s { incoming = s.incoming ++ c ∷ [] }
      else record s { refused = s.refused ++ c ∷ [] }

  abbrev pub receive : Streams A → List A → Option A × Streams A
  receive s [] = (none, s)
  receive s (c ∷ cs) = (some c, record s { incoming = cs })

  -- `Accept`: a stream, or none where it blocks or reports that the listener is closed. The channel
  -- `incoming` itself is never closed.
  unfoldable pub accept : Pick → Streams A → Option A × Streams A
  accept on_closed s = (none, s)
  accept on_incoming s = receive s s.incoming

  -- `Close`, whose body runs once.
  unfoldable pub close : Streams A → Streams A
  close s = record s { closed = true }

  abbrev pub keep : Option A → List A × Streams A → List A × Streams A
  keep none r = r
  keep (some c) r = (c ∷ r.0, r.1)

  -- The streams that the server gets, in order.
  unfoldable pub run : List (Event A) → Streams A → List A × Streams A
  run [] s = ([], s)
  run (stream c ∷ es) s = run es (offer c s)
  run (accepts p ∷ es) s = keep (accept p s).0 (run es (accept p s).1)
  run (closes ∷ es) s = run es (close s)

  abbrev pub offered : List (Event A) → List A
  offered [] = []
  offered (stream c ∷ es) = c ∷ offered es
  offered (accepts p ∷ es) = offered es
  offered (closes ∷ es) = offered es
