-- ===== src/Session/Streams/Backlog.antt =====
-- How many streams wait in claudy-p2p/cmd/dav-owner/main.go, and when one is closed.
use some_go_foolery.Base.{
  ◌<◌, ◌+◌, suc, ◌⊎◌, inl, inr, ◌≤◌, ◌≡◌, refl, true, false, Option, none, some, List, [], ◌∷◌,
  ◌++◌, length, length-append, ltb, ltb→lt, arith, if_cases,
}
use some_go_foolery.Session.Streams.{
  backlog, Streams, Pick, on_closed, on_incoming, Event, stream, accepts, closes, offer, receive,
  accept, close, keep, run, offered,
}

module _ {ℓ} {A : Type ℓ} where
  abbrev Fits : Streams A → Type 0
  Fits s = length s.incoming ≤ backlog

  offer-Fits : (c : A) (s : Streams A) → Fits s → Fits (offer c s)
  unfolding offer
  offer-Fits c s h =
      if_cases Fits (ltb (length s.incoming) backlog) _ _
        (λ q.
          omega (arith, length-append s.incoming (c ∷ []), ltb→lt (length s.incoming) backlog q))
        (λ q. h)

  accept-Fits : (p : Pick) (s : Streams A) → Fits s → Fits (accept p s).1
  unfolding accept
  accept-Fits on_closed s h = h
  accept-Fits on_incoming s h = taken s.incoming h h
    where
      taken : (l : List A) → length l ≤ backlog → length s.incoming ≤ backlog → Fits (receive s l).1
      taken [] i k = k
      taken (c ∷ cs) i k = omega arith

  keep-state : (o : Option A) (r : List A × Streams A) → (keep o r).1 ≡ r.1
  keep-state none r = refl
  keep-state (some c) r = refl

  -- However tunnels and server interleave, no more than 64 streams wait.
  pub run-Fits :
      (es : List (Event A)) (s : Streams A)
      → length s.incoming ≤ backlog
      → length (run es s).1.incoming ≤ backlog
  unfolding run close
  run-Fits [] s h = h
  run-Fits (stream c ∷ es) s h = run-Fits es (offer c s) (offer-Fits c s h)
  run-Fits (accepts p ∷ es) s h =
      rw (keep-state (accept p s).0 (run es (accept p s).1))
        (run-Fits es (accept p s).1 (accept-Fits p s h))
  run-Fits (closes ∷ es) s h = run-Fits es (record s { closed = true }) h

  -- Nothing is closed unless more than the backlog has come in.
  abbrev pub Spared : List A → Streams A → List A × Streams A → Type ℓ
  Spared es s r = (r.1.refused ≡ s.refused) ⊎ (backlog < length s.incoming + length es)

  offer-Spared :
      (c : A) (off : List A) (s : Streams A) (r : List A × Streams A)
      → Spared off (offer c s) r
      → Spared (c ∷ off) s r
  unfolding offer
  offer-Spared c off s r =
      if_cases (λ t. Spared off t r → Spared (c ∷ off) s r) (ltb (length s.incoming) backlog)
        (record s { incoming = s.incoming ++ c ∷ [] }) (record s { refused = s.refused ++ c ∷ [] })
        (λ q h. elim h [
          | inl same ↦ inl same
          | inr many ↦ inr (omega (arith, length-append s.incoming (c ∷ [])))
        ])
        (λ q h. inr (full q))
    where
      full :
          ltb (length s.incoming) backlog ≡ false → backlog < length s.incoming + suc (length off)
      full q = ground arith

  receive-Spared :
      (l off : List A) (s : Streams A) (r : List A × Streams A)
      → s.incoming ≡ l
      → Spared off (receive s l).1 r
      → Spared off s (keep (receive s l).0 r)
  receive-Spared [] off s r e h = h
  receive-Spared (c ∷ cs) off s r e (inl same) = inl same
  receive-Spared (c ∷ cs) off s r e (inr many) = inr (rw e (omega arith))

  accept-Spared :
      (p : Pick) (off : List A) (s : Streams A) (r : List A × Streams A)
      → Spared off (accept p s).1 r
      → Spared off s (keep (accept p s).0 r)
  unfolding accept
  accept-Spared on_closed off s r h = h
  accept-Spared on_incoming off s r h = receive-Spared s.incoming off s r refl h

  pub run-Spared : (es : List (Event A)) (s : Streams A) → Spared (offered es) s (run es s)
  unfolding run close
  run-Spared [] s = inl refl
  run-Spared (stream c ∷ es) s =
      offer-Spared c (offered es) s (run es (offer c s)) (run-Spared es (offer c s))
  run-Spared (accepts p ∷ es) s =
      accept-Spared p (offered es) s (run es (accept p s).1) (run-Spared es (accept p s).1)
  run-Spared (closes ∷ es) s = run-Spared es (record s { closed = true })
