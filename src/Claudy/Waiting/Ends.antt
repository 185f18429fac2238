-- ===== src/Claudy/Waiting/Ends.antt =====
-- The waiting loops of claudy-p2p/cmd/claudy/main.go end, and how.
use some_go_foolery.Base.{
  ℕ, zero, suc, ◌+◌, ◌*◌, ◌/◌, ◌≤◌, ◌<◌, ◌≡◌, ◌⊎◌, inl, inr, refl, subst, sym, ◌-◌, Bool, true,
  false, Option, some, ltb, ltb→lt, arith, Bool-cases,
}
use some_go_foolery.Claudy.Subprocess.{Status}
use some_go_foolery.Claudy.Waiting.{poll, wait_for_status}

pub not_before : (a b : ℕ) → ltb a b ≡ false → b ≤ a
not_before a b h = ground arith

pub not_lt : (a b : ℕ) → b ≤ a → ltb a b ≡ false
not_lt a b h = ground arith

chain : (a b c s : ℕ) → a ≤ b → b + s ≤ c → a ≤ c
chain a b c s h k = omega arith

shift : (i k : ℕ) → suc (i + k) ≡ i + suc k
shift i k = omega arith

same_place : (i : ℕ) → i ≡ i + 0
same_place i = omega arith

back : (i j : ℕ) → i ≤ j → i + (j - i) ≡ j
back i j le = omega arith

le_self : (a : ℕ) → a ≤ a
le_self a = omega arith

split_lt : (i j : ℕ) → (j < i) ⊎ (i ≤ j)
split_lt i j = ground arith

split_suc : (i j : ℕ) → j < suc i → (j < i) ⊎ (j ≡ i)
split_suc i j h = ground arith

clash : (a b c : ℕ) → a < b → b ≤ c → c ≤ a → ⊥
clash a b c p q r = omega arith

pub closer : (d a b s f : ℕ) → d ≤ a + s * suc f → a + s ≤ b → d ≤ b + s * f
closer d a b s f h k = grind arith

pub reached : (d a s : ℕ) → d ≤ a + s * 0 → d ≤ a
reached d a s h = grind arith

module _ (clock : ℕ → ℕ) (step : ℕ) (ticks : (i : ℕ) → clock i + step ≤ clock (suc i)) where
  -- A later round is not earlier.
  clock_mono : (i k : ℕ) → clock i ≤ clock (i + k)
  clock_mono i zero = subst (λ j. clock i ≤ clock j) (same_place i) (le_self (clock i))
  clock_mono i (suc k) =
      subst (λ j. clock i ≤ clock j) (shift i k)
        (chain (clock i) (clock (i + k)) (clock (suc (i + k))) step (clock_mono i k)
          (ticks (i + k)))

  from : (i j : ℕ) → i ≤ j → clock i ≤ clock j
  from i j le = subst (λ n. clock i ≤ clock n) (back i j le) (clock_mono i (j - i))

  -- What starts before the deadline is before the first round that does not.
  earlier : (deadline i j : ℕ) → deadline ≤ clock i → clock j < deadline → j < i
  earlier deadline i j over e = elim (split_lt i j) [
    | inl lt ↦ lt
    | inr le ↦ absurd (clash (clock j) deadline (clock i) e over (from i j le))
  ]

module _ (clock : ℕ → ℕ) (status : ℕ → Status) (pred : Status → Bool) (deadline : ℕ)
    (ticks : (i : ℕ) → clock i + 100 ≤ clock (suc i)) where
  abbrev Waited : Option Bool → Type 0
  Waited r =
      ((r ≡ some true) × ((i : ℕ) × (clock i < deadline) × (pred (status i) ≡ true)))
      ⊎ ((r ≡ some false) × ((i : ℕ) → clock i < deadline → pred (status i) ≡ false))

  abbrev Past : ℕ → Type 0
  Past i = (j : ℕ) → j < i → pred (status j) ≡ false

  Past-suc : (i : ℕ) → Past i → pred (status i) ≡ false → Past (suc i)
  Past-suc i past unseen j lt = elim (split_suc i j lt) [
    | inl before ↦ past j before
    | inr now ↦ subst (λ n. pred (status n) ≡ false) (sym now) unseen
  ]

  over_lem :
      (i : ℕ)
      → deadline ≤ clock i
      → Past i
      → (fuel : ℕ) → Waited (poll clock status pred deadline (suc fuel) i)
  unfolding poll
  over_lem i over past fuel =
      rw (not_lt (clock i) deadline over)
        (inr (refl, λ j e. past j (earlier clock 100 ticks deadline i j over e)))

  poll_lem :
      (fuel i : ℕ)
      → deadline ≤ clock i + 100 * fuel
      → Past i
      → Waited (poll clock status pred deadline (suc fuel) i)
  unfolding poll
  poll_lem zero i d past = over_lem i (reached deadline (clock i) 100 d) past zero
  poll_lem (suc fuel) i d past = elim (Bool-cases (ltb (clock i) deadline)) [
    | inr over ↦ over_lem i (not_before (clock i) deadline over) past (suc fuel)
    | inl inside ↦ elim (Bool-cases (pred (status i))) [
      | inl seen ↦ rw (inside, seen) (inl (refl, (i, ltb→lt (clock i) deadline inside, seen)))
      | inr unseen ↦
          rw (inside, unseen)
            (poll_lem fuel (suc i) (closer deadline (clock i) (clock (suc i)) 100 fuel d (ticks i))
              (Past-suc i past unseen))
    ]
  ]

rounds_enough : (start t c : ℕ) → start ≤ c → start + t ≤ c + 100 * (t / 100 + 1)
rounds_enough start t c h = omega arith

-- If every round of the loop takes at least its sleep of 100 ms and the first starts no earlier than the
-- deadline is computed: it ends within the rounds that the timeout holds, and two more; with true if a
-- round before the deadline has seen the predicate hold, and with false if none has.
pub wait_for_status_lem :
    (clock : ℕ → ℕ) (status : ℕ → Status) (pred : Status → Bool) (start timeout : ℕ)
    → ((i : ℕ) → clock i + 100 ≤ clock (suc i))
    → start ≤ clock 0
    → let r = wait_for_status clock status pred start timeout in
      ((r ≡ some true) × ((i : ℕ) × (clock i < start + timeout) × (pred (status i) ≡ true)))
      ⊎ ((r ≡ some false) × ((i : ℕ) → clock i < start + timeout → pred (status i) ≡ false))
unfolding wait_for_status
wait_for_status_lem clock status pred start timeout ticks h = rw (two (timeout / 100)) (
    poll_lem clock status pred (start + timeout) ticks (timeout / 100 + 1) 0
      (rounds_enough start timeout (clock 0) h) (λ j lt. absurd (omega arith)))
  where
    two : (n : ℕ) → n + 2 ≡ suc (n + 1)
    two n = omega arith
