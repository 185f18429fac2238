-- ===== src/Session/Proxy.antt =====
-- `proxy` of claudy-p2p/cmd/dav-client/main.go: one local connection over the tunnel that is current.
use some_go_foolery.Base.{
  ℕ, ◌≡◌, refl, sym, ◌∙◌, Bool, true, false, Option, none, some, List, [], ◌∷◌, ◌++◌, if◌then◌else◌,
}
use mathlib.Core.List.{append_assoc, append-nil}
use some_go_foolery.Base.Bytes.{Bytes}

-- What the wait and the two lookups of the session come to: the wait times out after 20 s; a rebuild has
-- taken the tunnel away; the stream cannot be opened; or the bytes are copied.
pub data Attempt : Type 0 where
  not_ready no_mux no_stream : Attempt
  copies : ℕ → Attempt

abbrev pub on_mux : Bool → Option ℕ → Attempt
on_mux opens none = no_mux
on_mux opens (some e) = if opens then copies e else no_stream

-- Given whether the ready channel closes in time, the tunnel that is held then, and whether it opens a
-- stream.
unfoldable pub attempt : Bool → Option ℕ → Bool → Attempt
attempt ready mux opens = if ready then on_mux opens mux else not_ready

-- What the two copying loops do, in the order in which it happens: they move bytes up to the owner and
-- down to the client, and each ends once.
pub data Copy : Type 0 where
  up down : Bytes → Copy
  up_ends down_ends : Copy

pub record Pipe : Type 0 where
  pub to_owner : Bytes
  pub to_client : Bytes
  pub returned : Bool

abbrev pub opened : Pipe
opened = record { to_owner = []; to_client = []; returned = false }

-- The first loop that ends lets `proxy` return, which closes both connections.
unfoldable pub shuttle : List Copy → Pipe → Pipe
shuttle [] p = p
shuttle (up s ∷ cs) p = shuttle cs (record p { to_owner = p.to_owner ++ s })
shuttle (down s ∷ cs) p = shuttle cs (record p { to_client = p.to_client ++ s })
shuttle (up_ends ∷ cs) p = record p { returned = true }
shuttle (down_ends ∷ cs) p = record p { returned = true }

abbrev down_before_end : List Copy → Bytes
down_before_end [] = []
down_before_end (up s ∷ cs) = down_before_end cs
down_before_end (down s ∷ cs) = s ++ down_before_end cs
down_before_end (up_ends ∷ cs) = []
down_before_end (down_ends ∷ cs) = []

abbrev up_before_end : List Copy → Bytes
up_before_end [] = []
up_before_end (up s ∷ cs) = s ++ up_before_end cs
up_before_end (down s ∷ cs) = up_before_end cs
up_before_end (up_ends ∷ cs) = []
up_before_end (down_ends ∷ cs) = []

-- Up to the first end, each side gets what the loops have moved to it, in order; after it, nothing.
shuttle_lem :
    (cs : List Copy) (p : Pipe)
    → ((shuttle cs p).to_client ≡ p.to_client ++ down_before_end cs)
      × ((shuttle cs p).to_owner ≡ p.to_owner ++ up_before_end cs)
unfolding shuttle
shuttle_lem [] p = (sym (append-nil p.to_client), sym (append-nil p.to_owner))
shuttle_lem (up s ∷ cs) p =
    let (client, owner) = shuttle_lem cs (record p { to_owner = p.to_owner ++ s }) in
    (client, owner ∙ append_assoc p.to_owner s (up_before_end cs))
shuttle_lem (down s ∷ cs) p =
    let (client, owner) = shuttle_lem cs (record p { to_client = p.to_client ++ s }) in
    (client ∙ append_assoc p.to_client s (down_before_end cs), owner)
shuttle_lem (up_ends ∷ cs) p = (sym (append-nil p.to_client), sym (append-nil p.to_owner))
shuttle_lem (down_ends ∷ cs) p = (sym (append-nil p.to_client), sym (append-nil p.to_owner))

-- When the local client has sent its request and closes its side, whatever the owner still answers is lost.
answer_is_cut :
    (before after : List Copy) (p : Pipe)
    → shuttle (before ++ up_ends ∷ after) p ≡ shuttle (before ++ up_ends ∷ []) p
unfolding shuttle
answer_is_cut [] after p = refl
answer_is_cut (up s ∷ cs) after p = answer_is_cut cs after (record p { to_owner = p.to_owner ++ s })
answer_is_cut (down s ∷ cs) after p =
    answer_is_cut cs after (record p { to_client = p.to_client ++ s })
answer_is_cut (up_ends ∷ cs) after p = refl
answer_is_cut (down_ends ∷ cs) after p = refl
