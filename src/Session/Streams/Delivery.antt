-- ===== src/Session/Streams/Delivery.antt =====
-- No stream of claudy-p2p/cmd/dav-owner/main.go is lost, and their order is kept.
use mathlib.Core.List.{Perm, Sublist, sublist-cons_self, perm_middle, append_assoc, append-nil}
use mathlib.Core.List.Perm
use mathlib.Core.List.Sublist
use some_go_foolery.Base.{
  ◌<◌, ◌⊎◌, inl, inr, ◌≤◌, ◌≡◌, refl, subst, true, List, [], ◌∷◌, ◌++◌, length, ltb, arith,
  if_cases,
}
use some_go_foolery.Session.Streams.{
  backlog, Streams, Pick, on_closed, on_incoming, Event, stream, accepts, closes, new_streams,
  offer, receive, accept, close, keep, run, offered,
}
use some_go_foolery.Session.Streams.Backlog.{Spared, run-Fits, run-Spared}

module _ {ℓ} {A : Type ℓ} where
  -- What is left over: refused or still waiting.
  abbrev pub rest : Streams A → List A
  rest s = s.incoming ++ s.refused

  appended : (inc ref : List A) (c : A) → Perm ((inc ++ c ∷ []) ++ ref) (c ∷ inc ++ ref)
  appended inc ref c = rw (append_assoc inc (c ∷ []) ref) (perm_middle inc ref)

  moves :
      (inc ref off : List A) (c : A)
      → Perm ((inc ++ ref) ++ c ∷ off) (((inc ++ c ∷ []) ++ ref) ++ off)
  moves inc ref off c =
      Perm.trans (perm_middle (inc ++ ref) off)
        (Perm.symm (Perm.append_right off (appended inc ref c)))

  refuses :
      (inc ref off : List A) (c : A) → (inc ++ ref) ++ c ∷ off ≡ (inc ++ (ref ++ c ∷ [])) ++ off
  refuses inc ref off c = simp append_assoc

  -- What is true of the waiting and the offered streams against those delivered and left over.
  abbrev Conserves : List A → Streams A → List A × Streams A → Type ℓ
  Conserves es s r = Perm (rest s ++ es) (r.0 ++ rest r.1)

  offer-Conserves :
      (c : A) (off : List A) (s : Streams A) (r : List A × Streams A)
      → Conserves off (offer c s) r
      → Conserves (c ∷ off) s r
  unfolding offer
  offer-Conserves c off s r =
      if_cases (λ t. Conserves off t r → Conserves (c ∷ off) s r) (ltb (length s.incoming) backlog)
        (record s { incoming = s.incoming ++ c ∷ [] }) (record s { refused = s.refused ++ c ∷ [] })
        (λ q h. Perm.trans (moves s.incoming s.refused off c) h)
        (λ q h. rw (refuses s.incoming s.refused off c) h)

  receive-Conserves :
      (l off : List A) (s : Streams A) (r : List A × Streams A)
      → s.incoming ≡ l
      → Conserves off (receive s l).1 r
      → Conserves off s (keep (receive s l).0 r)
  receive-Conserves [] off s r e h = h
  receive-Conserves (c ∷ cs) off s r e h = rw e (Perm.cons c h)

  accept-Conserves :
      (p : Pick) (off : List A) (s : Streams A) (r : List A × Streams A)
      → Conserves off (accept p s).1 r
      → Conserves off s (keep (accept p s).0 r)
  unfolding accept
  accept-Conserves on_closed off s r h = h
  accept-Conserves on_incoming off s r h = receive-Conserves s.incoming off s r refl h

  run-Conserves : (es : List (Event A)) (s : Streams A) → Conserves (offered es) s (run es s)
  unfolding run close
  run-Conserves [] s = rw (append-nil (rest s)) (Perm.refl (rest s))
  run-Conserves (stream c ∷ es) s =
      offer-Conserves c (offered es) s (run es (offer c s)) (run-Conserves es (offer c s))
  run-Conserves (accepts p ∷ es) s =
      accept-Conserves p (offered es) s (run es (accept p s).1) (run-Conserves es (accept p s).1)
  run-Conserves (closes ∷ es) s = run-Conserves es (record s { closed = true })

  -- The order is kept: what is delivered and then still waits, among what waited and was then offered.
  abbrev Ordered : List A → Streams A → List A × Streams A → Type ℓ
  Ordered es s r = Sublist (r.0 ++ r.1.incoming) (s.incoming ++ es)

  offer-Ordered :
      (c : A) (off : List A) (s : Streams A) (r : List A × Streams A)
      → Ordered off (offer c s) r
      → Ordered (c ∷ off) s r
  unfolding offer
  offer-Ordered c off s r =
      if_cases (λ t. Ordered off t r → Ordered (c ∷ off) s r) (ltb (length s.incoming) backlog)
        (record s { incoming = s.incoming ++ c ∷ [] }) (record s { refused = s.refused ++ c ∷ [] })
        (λ q h. subst (Sublist (r.0 ++ r.1.incoming)) (append_assoc s.incoming (c ∷ []) off) h)
        (λ q h.
          Sublist.trans h (Sublist.append (Sublist.refl s.incoming) (sublist-cons_self c off)))

  receive-Ordered :
      (l off : List A) (s : Streams A) (r : List A × Streams A)
      → s.incoming ≡ l
      → Ordered off (receive s l).1 r
      → Ordered off s (keep (receive s l).0 r)
  receive-Ordered [] off s r e h = h
  receive-Ordered (c ∷ cs) off s r e h = rw e (Sublist.cons-cons c h)

  accept-Ordered :
      (p : Pick) (off : List A) (s : Streams A) (r : List A × Streams A)
      → Ordered off (accept p s).1 r
      → Ordered off s (keep (accept p s).0 r)
  unfolding accept
  accept-Ordered on_closed off s r h = h
  accept-Ordered on_incoming off s r h = receive-Ordered s.incoming off s r refl h

  run-Ordered : (es : List (Event A)) (s : Streams A) → Ordered (offered es) s (run es s)
  unfolding run close
  run-Ordered [] s = rw (append-nil s.incoming) (Sublist.refl s.incoming)
  run-Ordered (stream c ∷ es) s =
      offer-Ordered c (offered es) s (run es (offer c s)) (run-Ordered es (offer c s))
  run-Ordered (accepts p ∷ es) s =
      accept-Ordered p (offered es) s (run es (accept p s).1) (run-Ordered es (accept p s).1)
  run-Ordered (closes ∷ es) s = run-Ordered es (record s { closed = true })

  -- However tunnels and server interleave from the start, every stream is delivered, waits, or was closed,
  -- each once; those that are delivered and then those that wait are in the order of their arrival; at most
  -- 64 wait; and none was closed unless more than 64 have come in.
  pub streams_lem :
      (es : List (Event A))
      → let (out, s) = run es new_streams in
        Perm (offered es) (out ++ (s.incoming ++ s.refused))
        × Sublist (out ++ s.incoming) (offered es)
        × (length s.incoming ≤ backlog)
        × ((s.refused ≡ []) ⊎ (backlog < length (offered es)))
  streams_lem es = (
    run-Conserves es new_streams,
    run-Ordered es new_streams,
    run-Fits es new_streams (omega arith),
    spared (run-Spared es new_streams),
  )
    where
      spared :
          Spared (offered es) new_streams (run es new_streams)
          → ((run es new_streams).1.refused ≡ []) ⊎ (backlog < length (offered es))
      spared (inl same) = inl same
      spared (inr many) = inr (omega arith)
