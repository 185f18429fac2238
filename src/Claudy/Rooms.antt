-- ===== src/Claudy/Rooms.antt =====
-- randomRoom of claudy-p2p/cmd/claudy/main.go.
use some_go_foolery.Base.{
  ℕ, zero, suc, ◌+◌, ◌*◌, ◌/◌, ◌%◌, ◌<◌, ◌≤◌, ◌≡◌, ◌≢◌, ◌⊎◌, inl, inr, refl, [], ◌∷◌, length, All,
  arith,
}
use some_go_foolery.Base.Bytes.{Bytes, bytes}

abbrev pub alphabet : Bytes
alphabet = bytes "abcdefghjkmnpqrstuvwxyz23456789"

-- 2 ^ 64 and 2 ^ 32.
abbrev two_64 : ℕ
two_64 = 18446744073709551616

abbrev two_32 : ℕ
two_32 = 4294967296

-- One step of the generator on 64-bit words, which wraps around.
unfoldable pub next_seed : ℕ → ℕ
next_seed now = (now * 6364136223846793005 + 1442695040888963407) % two_64

-- `alphabet[i]`, where i is in range.
abbrev pub char_at : ℕ → Bytes → ℕ
char_at i [] = 0
char_at zero (c ∷ cs) = c
char_at (suc i) (c ∷ cs) = char_at i cs

unfoldable pub room_char : ℕ → ℕ
room_char now = char_at (now / two_32 % length alphabet) alphabet

-- The loop, n characters from the word on.
unfoldable pub room_chars : ℕ → ℕ → Bytes
room_chars zero now = []
room_chars (suc n) now = room_char (next_seed now) ∷ room_chars n (next_seed now)

-- `now` is the clock in nanoseconds, as an unsigned word.
unfoldable pub random_room : ℕ → Bytes
random_room now = room_chars 6 now

-- A small letter or a digit that looks like no other: not i, l, o, 0 or 1.
abbrev Legible : ℕ → Type 0
Legible c = (((97 ≤ c) × (c ≤ 122)) ⊎ ((50 ≤ c) × (c ≤ 57))) × (c ≢ 105) × (c ≢ 108) × (c ≢ 111)

All-char_at : (P : ℕ → Type 0) (i : ℕ) (cs : Bytes) → i < length cs → All P cs → P (char_at i cs)
All-char_at P i [] h a = absurd (omega arith)
All-char_at P zero (c ∷ cs) h (a, rest) = a
All-char_at P (suc i) (c ∷ cs) h (a, rest) = All-char_at P i cs (omega arith) rest

letter : (c : ℕ) → (97 ≤ c) × (c ≤ 122) × (c ≢ 105) × (c ≢ 108) × (c ≢ 111) → Legible c
letter c (low, high, i, l, o) = (inl (low, high), i, l, o)

digit : (c : ℕ) → (50 ≤ c) × (c ≤ 57) → Legible c
digit c (low, high) = (inr (low, high), λ e. omega arith, λ e. omega arith, λ e. omega arith)

alphabet-Legible : All Legible alphabet
alphabet-Legible = (
  letter 97 (omega arith, omega arith, λ e. omega arith, λ e. omega arith, λ e. omega arith),
  (
    letter 98 (omega arith, omega arith, λ e. omega arith, λ e. omega arith, λ e. omega arith),
    (
      letter 99 (omega arith, omega arith, λ e. omega arith, λ e. omega arith, λ e. omega arith),
      (
        letter 100 (omega arith, omega arith, λ e. omega arith, λ e. omega arith, λ e. omega arith),
        (
          letter 101
              (omega arith, omega arith, λ e. omega arith, λ e. omega arith, λ e. omega arith),
          (
            letter 102
                (omega arith, omega arith, λ e. omega arith, λ e. omega arith, λ e. omega arith),
            (
              letter 103
                  (omega arith, omega arith, λ e. omega arith, λ e. omega arith, λ e. omega arith),
              (
                letter 104 (
                  omega arith,
                  omega arith,
                  λ e. omega arith,
                  λ e. omega arith,
                  λ e. omega arith,
                ),
                (
                  letter 106 (
                    omega arith,
                    omega arith,
                    λ e. omega arith,
                    λ e. omega arith,
                    λ e. omega arith,
                  ),
                  (
                    letter 107 (
                      omega arith,
                      omega arith,
                      λ e. omega arith,
                      λ e. omega arith,
                      λ e. omega arith,
                    ),
                    (
                      letter 109 (
                        omega arith,
                        omega arith,
                        λ e. omega arith,
                        λ e. omega arith,
                        λ e. omega arith,
                      ),
                      (
                        letter 110 (
                          omega arith,
                          omega arith,
                          λ e. omega arith,
                          λ e. omega arith,
                          λ e. omega arith,
                        ),
                        (
                          letter 112 (
                            omega arith,
                            omega arith,
                            λ e. omega arith,
                            λ e. omega arith,
                            λ e. omega arith,
                          ),
                          (
                            letter 113 (
                              omega arith,
                              omega arith,
                              λ e. omega arith,
                              λ e. omega arith,
                              λ e. omega arith,
                            ),
                            (
                              letter 114 (
                                omega arith,
                                omega arith,
                                λ e. omega arith,
                                λ e. omega arith,
                                λ e. omega arith,
                              ),
                              (
                                letter 115 (
                                  omega arith,
                                  omega arith,
                                  λ e. omega arith,
                                  λ e. omega arith,
                                  λ e. omega arith,
                                ),
                                (
                                  letter 116 (
                                    omega arith,
                                    omega arith,
                                    λ e. omega arith,
                                    λ e. omega arith,
                                    λ e. omega arith,
                                  ),
                                  (
                                    letter 117 (
                                      omega arith,
                                      omega arith,
                                      λ e. omega arith,
                                      λ e. omega arith,
                                      λ e. omega arith,
                                    ),
                                    (
                                      letter 118 (
                                        omega arith,
                                        omega arith,
                                        λ e. omega arith,
                                        λ e. omega arith,
                                        λ e. omega arith,
                                      ),
                                      (
                                        letter 119 (
                                          omega arith,
                                          omega arith,
                                          λ e. omega arith,
                                          λ e. omega arith,
                                          λ e. omega arith,
                                        ),
                                        (
                                          letter 120 (
                                            omega arith,
                                            omega arith,
                                            λ e. omega arith,
                                            λ e. omega arith,
                                            λ e. omega arith,
                                          ),
                                          (
                                            letter 121 (
                                              omega arith,
                                              omega arith,
                                              λ e. omega arith,
                                              λ e. omega arith,
                                              λ e. omega arith,
                                            ),
                                            (
                                              letter 122 (
                                                omega arith,
                                                omega arith,
                                                λ e. omega arith,
                                                λ e. omega arith,
                                                λ e. omega arith,
                                              ),
                                              (
                                                digit 50 (omega arith, omega arith),
                                                (
                                                  digit 51 (omega arith, omega arith),
                                                  (
                                                    digit 52 (omega arith, omega arith),
                                                    (
                                                      digit 53 (omega arith, omega arith),
                                                      (
                                                        digit 54 (omega arith, omega arith),
                                                        (
                                                          digit 55 (omega arith, omega arith),
                                                          (
                                                            digit 56 (omega arith, omega arith),
                                                            (
                                                            digit 57 (omega arith, omega arith),
                                                            tt,
                                                            ),
                                                          ),
                                                        ),
                                                      ),
                                                    ),
                                                  ),
                                                ),
                                              ),
                                            ),
                                          ),
                                        ),
                                      ),
                                    ),
                                  ),
                                ),
                              ),
                            ),
                          ),
                        ),
                      ),
                    ),
                  ),
                ),
              ),
            ),
          ),
        ),
      ),
    ),
  ),
)

room_char-Legible : (now : ℕ) → Legible (room_char now)
unfolding room_char
room_char-Legible now =
    All-char_at Legible (now / two_32 % length alphabet) alphabet (omega arith) alphabet-Legible

room_chars_lem : (n now : ℕ) → (length (room_chars n now) ≡ n) × All Legible (room_chars n now)
unfolding room_chars
room_chars_lem zero now = (refl, tt)
room_chars_lem (suc n) now =
    let (count, chars) = room_chars_lem n (next_seed now) in
    (omega (arith, count), (room_char-Legible (next_seed now), chars))

-- A room code has six characters, whatever the clock, and none can be taken for another: small letters
-- and digits without i, l, o, 0 and 1.
random_room_lem : (now : ℕ) → (length (random_room now) ≡ 6) × All Legible (random_room now)
unfolding random_room
random_room_lem now = room_chars_lem 6 now
