-- ===== src/Claudy/Waiting/Mounting.antt =====
-- The mount supervisor of claudy-p2p/cmd/claudy/main.go.
use some_go_foolery.Base.{
  ℕ, zero, suc, ◌+◌, ◌*◌, ◌≤◌, ◌<◌, ◌≡◌, refl, Bool, true, false, some, List, [], ◌∷◌, ltb,
  if◌then◌else◌, All, arith, Bool-cases, inl, inr,
}
use some_go_foolery.Claudy.Waiting.{
  Round, End, stopped, already_mounted, mounted, gave_up, tries, round_end, Supervised, add_try,
  ended, mount_limit, supervise, mount_supervisor,
}
use some_go_foolery.Claudy.Waiting.Ends.{closer, reached, not_before, not_lt}

abbrev pub is_mounted : End → ℕ
is_mounted mounted = 1
is_mounted e = 0

-- The mount commands that work.
abbrev pub successes : (ℕ → Round) → List ℕ → ℕ
successes round [] = 0
successes round (i ∷ is) =
    let later = successes round is in if (round i).mounts then suc later else later

module _ (clock : ℕ → ℕ) (round : ℕ → Round) (deadline : ℕ) where
  -- A round that may mount: it starts in time and finds the connection alive, up and not mounted.
  abbrev pub Mounts : ℕ → Type 0
  Mounts i = (tries (round i) ≡ true) × (clock i < deadline)

  -- The loop has ended; it has run the mount command only in rounds that may mount; and one command has
  -- worked if that ended the loop, else none.
  abbrev Ended : Supervised → Type 0
  Ended r =
      (e : End) × (r.end ≡ some e) × All Mounts r.tried × (successes round r.tried ≡ is_mounted e)

  flags :
      (i : ℕ) (alive up already mounts : Bool) (later : Supervised)
      → clock i < deadline
      → (round i).alive ≡ alive
      → (round i).up ≡ up
      → (round i).already ≡ already
      → (round i).mounts ≡ mounts
      → Ended later
      → let q : Round = record { alive = alive; up = up; already = already; mounts = mounts } in
        Ended (add_try (tries q) i (ended (round_end q) later))
  flags i false up already mounts later lt a u y m h = (stopped, refl, tt, refl)
  flags i true false already mounts later lt a u y m h = h
  flags i true true true mounts later lt a u y m h = (already_mounted, refl, tt, refl)
  flags i true true false true later lt a u y m h =
      (mounted, refl, ((rw (a, u, y) refl, lt), tt), rw m refl)
  flags i true true false false later lt a u y m (e, q, k, n) =
      (e, q, ((rw (a, u, y) refl, lt), k), rw m n)

  round_lem :
      (i : ℕ) (later : Supervised)
      → clock i < deadline
      → Ended later
      → Ended (add_try (tries (round i)) i (ended (round_end (round i)) later))
  round_lem i later lt h =
      flags i (round i).alive (round i).up (round i).already (round i).mounts later lt refl refl
        refl refl h

module _ (clock : ℕ → ℕ) (round : ℕ → Round) (deadline : ℕ)
    (ticks : (i : ℕ) → clock i + 1 ≤ clock (suc i)) where
  over_lem :
      (fuel i : ℕ)
      → deadline ≤ clock i
      → Ended clock round deadline (supervise clock round deadline (suc fuel) i)
  unfolding supervise
  over_lem fuel i over = rw (not_lt (clock i) deadline over) (gave_up, refl, tt, refl)

  supervise_lem :
      (fuel i : ℕ)
      → deadline ≤ clock i + 1 * fuel
      → Ended clock round deadline (supervise clock round deadline (suc fuel) i)
  unfolding supervise
  supervise_lem zero i d = over_lem zero i (reached deadline (clock i) 1 d)
  supervise_lem (suc fuel) i d = elim (Bool-cases (ltb (clock i) deadline)) [
    | inr over ↦ over_lem (suc fuel) i (not_before (clock i) deadline over)
    | inl inside ↦ rw inside (
        round_lem clock round deadline i (supervise clock round deadline (suc fuel) (suc i))
          (grind arith)
          (supervise_lem fuel (suc i)
            (closer deadline (clock i) (clock (suc i)) 1 fuel d (ticks i))))
  ]

limit_enough : (start c n : ℕ) → start ≤ c → start + n ≤ c + 1 * n
limit_enough start c n h = omega arith

-- If every round takes at least a millisecond and the first starts no earlier than the deadline is
-- computed, the supervisor ends; it runs the mount command only in rounds that start before the deadline
-- and find its connection alive, up and not mounted; and one command has worked if the loop ends mounted,
-- and none otherwise.
pub mount_supervisor_lem :
    (clock : ℕ → ℕ) (round : ℕ → Round) (start : ℕ)
    → ((i : ℕ) → clock i + 1 ≤ clock (suc i))
    → start ≤ clock 0
    → let r = mount_supervisor clock round start in
      (e : End) × (r.end ≡ some e)
      × All (λ i. (tries (round i) ≡ true) × (clock i < start + mount_limit)) r.tried
      × (successes round r.tried ≡ is_mounted e)
unfolding mount_supervisor
mount_supervisor_lem clock round start ticks h =
    supervise_lem clock round (start + mount_limit) ticks mount_limit 0
      (limit_enough start (clock 0) mount_limit h)
