-- ===== src/Identity/Base64/Decoded.antt =====
-- What the base64 decoder of the standard library returns is bytes.
use some_go_foolery.Base.{
  ℕ, ◌+◌, ◌*◌, ◌/◌, ◌%◌, ◌<◌, ◌≡◌, refl, subst, Option, none, some, [], ◌∷◌, arith,
}
use some_go_foolery.Base.Bytes.{Bytes}
use some_go_foolery.Identity.Base64.{
  AreBytes, ◌>>=◌, decode_sextet, decode, strip_breaks, decode_string,
}

decode_sextet-lt : (c n : ℕ) → decode_sextet c ≡ some n → n < 64
unfolding decode_sextet
decode_sextet-lt c n h = ground arith

abbrev AllBytes : Option Bytes → Type 0
AllBytes none = Unit
AllBytes (some raw) = AreBytes raw

bind-AllBytes :
    {A : Type 0} (o : Option A) (f : A → Option Bytes)
    → ((a : A) → o ≡ some a → AllBytes (f a))
    → AllBytes (o >>= f)
bind-AllBytes none f k = tt
bind-AllBytes (some a) f k = k a refl

-- A sextet that some character stands for, in a bind.
bind_sextet-AllBytes :
    (c : ℕ) (f : ℕ → Option Bytes)
    → ((n : ℕ) → n < 64 → AllBytes (f n))
    → AllBytes (decode_sextet c >>= f)
bind_sextet-AllBytes c f k = bind-AllBytes (decode_sextet c) f (λ n e. k n (decode_sextet-lt c n e))

first : (i j : ℕ) → i < 64 → j < 64 → i * 4 + j / 16 < 256
first i j p q = omega arith

second : (j k : ℕ) → k < 64 → j % 16 * 16 + k / 4 < 256
second j k q = omega arith

third : (k l : ℕ) → l < 64 → k % 4 * 64 + l < 256
third k l q = omega arith

decode-AllBytes : (s : Bytes) → AllBytes (decode s)
unfolding decode
decode-AllBytes [] = tt
decode-AllBytes (w ∷ []) = tt
decode-AllBytes (w ∷ x ∷ []) =
    bind_sextet-AllBytes w _ (λ i p. bind_sextet-AllBytes x _ (λ j q. (first i j p q, tt)))
decode-AllBytes (w ∷ x ∷ y ∷ []) = bind_sextet-AllBytes w _ (λ i p.
    bind_sextet-AllBytes x _
      (λ j q. bind_sextet-AllBytes y _ (λ k r. (first i j p q, (second j k r, tt)))))
decode-AllBytes (w ∷ x ∷ y ∷ z ∷ rest) = bind_sextet-AllBytes w _ (λ i p.
    bind_sextet-AllBytes x _ (λ j q. bind_sextet-AllBytes y _ (λ k r.
      bind_sextet-AllBytes z _ (λ l t. bind-AllBytes (decode rest) _ (λ tail e.
        (first i j p q, (second j k r, (third k l t, subst AllBytes e (decode-AllBytes rest)))))))))

-- The decoder returns bytes.
pub decode_string-AreBytes : (s raw : Bytes) → decode_string s ≡ some raw → AreBytes raw
unfolding decode_string
decode_string-AreBytes s raw h = subst AllBytes h (decode-AllBytes (strip_breaks s))
