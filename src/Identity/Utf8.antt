-- ===== src/Identity/Utf8.antt =====
-- What encoding/json keeps of a string in claudy-p2p/internal/identity/keyring.go: MarshalIndent writes
-- U+FFFD for each byte that is not part of a valid UTF-8 sequence, and Unmarshal reads that back.
use some_go_foolery.Base.{
  ℕ, zero, suc, ◌<◌, ◌≡◌, ◌⊎◌, inl, inr, refl, ap, ◌∙◌, Bool, true, false, ◌&&◌, Option, none, some,
  [], ◌∷◌, ◌++◌, All, ◌==◌, ltb, leb, arith, if◌then◌else◌, Option-cases,
}
use some_go_foolery.Base.Bytes.{Bytes, str_eq, str_eq_iff, contains, has_prefix-append}

abbrev pub in_range : ℕ → ℕ → ℕ → Bool
in_range low high b = leb low b && leb b high

-- How many bytes follow the first one of a sequence.
abbrev pub trailing : ℕ → Option ℕ
trailing b =
    if ltb b 128
    then some 0
    else if in_range 194 223 b
    then some 1
    else if in_range 224 239 b
    then some 2
    else if in_range 240 244 b
    then some 3
    else none

-- The second byte is limited further behind some first ones: no overlong form, no surrogate, nothing above
-- U+10FFFF.
abbrev pub second_fits : ℕ → Bytes → Bool
second_fits b [] = false
second_fits b (c ∷ s) =
    if b == 224
    then in_range 160 191 c
    else if b == 237
    then in_range 128 159 c
    else if b == 240
    then in_range 144 191 c
    else if b == 244
    then in_range 128 143 c
    else in_range 128 191 c

abbrev pub follows : ℕ → Bytes → Bool
follows zero s = true
follows (suc n) [] = false
follows (suc n) (c ∷ s) = let rest = follows n s in in_range 128 191 c && rest

abbrev pub rune_from : ℕ → Bytes → Option ℕ → Option ℕ
rune_from b s none = none
rune_from b s (some zero) = some 0
rune_from b s (some (suc n)) = if second_fits b s && follows (suc n) s then some (suc n) else none

-- The bytes that follow in the sequence that begins with b, if one does; `utf8.DecodeRuneInString`.
unfoldable pub rune_tail : ℕ → Bytes → Option ℕ
rune_tail b s = rune_from b s (trailing b)

-- U+FFFD.
abbrev pub replacement : Bytes
replacement = 239 ∷ 191 ∷ 189 ∷ []

abbrev pub lead : ℕ → Option ℕ → Bytes
lead b none = replacement
lead b (some n) = b ∷ []

abbrev pub rest_of_rune : Option ℕ → ℕ
rest_of_rune none = 0
rest_of_rune (some n) = n

-- The first n bytes belong to a sequence that has begun.
unfoldable pub coerce_from : ℕ → Bytes → Bytes
coerce_from n [] = []
coerce_from zero (b ∷ s) = lead b (rune_tail b s) ++ coerce_from (rest_of_rune (rune_tail b s)) s
coerce_from (suc n) (b ∷ s) = b ∷ coerce_from n s

unfoldable pub coerce : Bytes → Bytes
coerce s = coerce_from 0 s

-- Valid UTF-8, and U+FFFD does not occur.
abbrev pub Plain : Bytes → Type 0
Plain s = (coerce s ≡ s) × (contains s replacement ≡ false)

cons_cases :
    (b : ℕ) (t s : Bytes)
    → (t ≡ s) ⊎ (contains t replacement ≡ true)
    → (b ∷ t ≡ b ∷ s) ⊎ (contains (b ∷ t) replacement ≡ true)
unfolding contains
cons_cases b t s (inl e) = inl (ap (◌∷◌ b) e)
cons_cases b t s (inr c) = inr (ground (arith, c))

contains-replacement : (t : Bytes) → contains (replacement ++ t) replacement ≡ true
unfolding contains
contains-replacement t = rw (has_prefix-append replacement t) refl

-- A string is kept, or the result shows U+FFFD.
coerce_from_cases :
    (n : ℕ) (s : Bytes) → (coerce_from n s ≡ s) ⊎ (contains (coerce_from n s) replacement ≡ true)
unfolding coerce_from
coerce_from_cases n [] = inl refl
coerce_from_cases zero (b ∷ s) = elim (Option-cases (rune_tail b s)) [
  | inl bad ↦ rw bad (inr (contains-replacement (coerce_from 0 s)))
  | inr (k, good) ↦ rw good (cons_cases b (coerce_from k s) s (coerce_from_cases k s))
]
coerce_from_cases (suc n) (b ∷ s) = cons_cases b (coerce_from n s) s (coerce_from_cases n s)

-- Nothing becomes a plain string but that string itself.
pub str_eq-coerce : (s a : Bytes) → Plain a → str_eq (coerce s) a ≡ str_eq s a
unfolding coerce
str_eq-coerce s a (kept, without) = elim (coerce_from_cases 0 s) [
  | inl same ↦ rw same refl
  | inr shown ↦
      ground (arith, str_eq_iff (coerce_from 0 s) a, str_eq_iff s a, clash shown, other shown)
]
  where
    clash : contains (coerce_from 0 s) replacement ≡ true → coerce_from 0 s ≡ a → ⊥
    clash shown e = cc

    other : contains (coerce_from 0 s) replacement ≡ true → s ≡ a → ⊥
    other shown e = clash shown (ap (coerce_from 0) e ∙ kept)

rune_tail_ascii : (b : ℕ) (s : Bytes) → b < 128 → rune_tail b s ≡ some 0
unfolding rune_tail
rune_tail_ascii b s h = rw (small b h) refl
  where
    small : (b : ℕ) → b < 128 → ltb b 128 ≡ true
    small b h = ground arith

pub coerce_ascii : (s : Bytes) → All (λ b. b < 128) s → coerce s ≡ s
unfolding coerce coerce_from
coerce_ascii [] h = refl
coerce_ascii (b ∷ s) (h, hs) = rw (rune_tail_ascii b s h) (ap (◌∷◌ b) (coerce_ascii s hs))
