-- ===== src/Peer/Listener.antt =====
-- The Listener of claudy-p2p/internal/peer/listener.go. A connection is any value.
use some_go_foolery.Base.{
  ◌≡◌, refl, Bool, true, false, List, [], ◌∷◌, ◌++◌, subst, sym, ap, ◌∙◌, if◌then◌else◌,
}

-- `incoming` is what waits on the channel and `ended` says that its owner has closed it; `closed` says
-- that the channel of that name is.
pub record Listener {ℓ} (A : Type ℓ) : Type ℓ where
  pub incoming : List A
  pub ended : Bool
  pub closed : Bool

-- The case that `select` picks among those that are ready.
pub data Pick : Type 0 where
  on_closed on_incoming : Pick

pub data Accepted {ℓ} (A : Type ℓ) : Type ℓ where
  accepted : A → Accepted A
  listener_closed blocks : Accepted A

module _ {ℓ} {A : Type ℓ} where
  abbrev pub receive : Listener A → List A → Accepted A × Listener A
  receive l [] = (if l.ended then listener_closed else blocks, l)
  receive l (c ∷ cs) = (accepted c, record l { incoming = cs })

  -- `Accept`, or `blocks` where the picked case is not ready.
  unfoldable pub accept : Pick → Listener A → Accepted A × Listener A
  accept on_closed l = (if l.closed then listener_closed else blocks, l)
  accept on_incoming l = receive l l.incoming

  -- `Close`, whose body runs once.
  unfoldable pub close_listener : Listener A → Listener A
  close_listener l = record l { closed = true }

  abbrev pub keep : Accepted A → List A × Listener A → List A × Listener A
  keep (accepted c) (cs, l') = (c ∷ cs, l')
  keep listener_closed r = r
  keep blocks r = r

  -- The connections that a sequence of calls of `Accept` returns.
  unfoldable pub accept_all : List Pick → Listener A → List A × Listener A
  accept_all [] l = ([], l)
  accept_all (p ∷ ps) l = keep (accept p l).0 (accept_all ps (accept p l).1)

  keep-idle :
      (b : Bool) (r : List A × Listener A) → keep (if b then listener_closed else blocks) r ≡ r
  keep-idle true r = refl
  keep-idle false r = refl

  abbrev Rest : Listener A → List A × Listener A → Type ℓ
  Rest l r = l.incoming ≡ r.0 ++ r.1.incoming

  -- Whichever cases are picked, the calls return the waiting connections in order, each once, and what
  -- they do not return still waits.
  accept_all_lem :
      (ps : List Pick) (l : Listener A)
      → let (out, l') = accept_all ps l in l.incoming ≡ out ++ l'.incoming
  unfolding accept_all accept
  accept_all_lem [] l = refl
  accept_all_lem (on_closed ∷ ps) l =
      subst (Rest l) (sym (keep-idle l.closed (accept_all ps l))) (accept_all_lem ps l)
  accept_all_lem (on_incoming ∷ ps) l = go l.incoming refl (accept_all_lem ps)
    where
      go :
          (q : List A)
          → l.incoming ≡ q
          → ((m : Listener A) → Rest m (accept_all ps m))
          → Rest l (keep (receive l q).0 (accept_all ps (receive l q).1))
      go [] e later = subst (Rest l) (sym (keep-idle l.ended (accept_all ps l))) (later l)
      go (c ∷ cs) e later = e ∙ ap (◌∷◌ c) (later (record l { incoming = cs }))
