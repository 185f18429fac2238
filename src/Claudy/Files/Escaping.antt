-- ===== src/Claudy/Files/Escaping.antt =====
-- The URLs of claudy-p2p/cmd/claudy/files.go carry every path.
use mathlib.Core.List.{append_assoc, append-nil}
use some_go_foolery.Base.{
  ℕ, ◌+◌, ◌*◌, ◌/◌, ◌%◌, ◌<◌, ◌≡◌, ◌≢◌, refl, ap, ◌∙◌, true, false, some, List, [], ◌∷◌, ◌++◌, ◌==◌,
  ==_iff, arith, All, All-append, map, if_cases, Bool-cases, inl, inr,
}
use some_go_foolery.Base.Bytes.{Bytes}
use some_go_foolery.Base.Paths.{
  slash, split, is_rooted, NoSlash, split_element, split-append, split-some, cons_first,
}
use some_go_foolery.Claudy.Files.{
  percent, is_plain, hex, hex_value, escape_byte, path_escape, cons_byte, path_unescape, join_slash,
  rooted, escape_all, url_path,
}

abbrev pub AreBytes : Bytes → Type 0
AreBytes s = All (λ c. c < 256) s

hex_value-hex : (d : ℕ) → d < 16 → hex_value (hex d) ≡ some d
hex_value-hex d h = ground arith

-- A byte that is not a percent sign is read as it is.
unescape_plain :
    (c : ℕ) (s : Bytes)
    → (c == percent) ≡ false
    → path_unescape (c ∷ s) ≡ cons_byte (some c) (path_unescape s)
unfolding path_unescape
unescape_plain c [] h = rw h refl
unescape_plain c (a ∷ []) h = rw h refl
unescape_plain c (a ∷ b ∷ s) h = rw h refl

percent-plain : is_plain percent ≡ false
unfolding is_plain
percent-plain = refl

plain-percent : (c : ℕ) → is_plain c ≡ true → (c == percent) ≡ false
plain-percent c h = elim (Bool-cases (c == percent)) [
  | inl same ↦ absurd (clash ((==_iff c percent).0 same))
  | inr apart ↦ apart
]
  where
    clash : c ≡ percent → ⊥
    clash e = cc percent-plain

unescape_coded :
    (c : ℕ) (s : Bytes)
    → c < 256
    → path_unescape (percent ∷ hex (c / 16) ∷ hex (c % 16) ∷ s)
      ≡ cons_byte (some c) (path_unescape s)
unfolding path_unescape
unescape_coded c s h =
    rw (hex_value-hex (c / 16) (omega arith), hex_value-hex (c % 16) (omega arith))
      (ap (λ (d : ℕ). cons_byte (some d) (path_unescape s)) (digits c))
  where
    digits : (c : ℕ) → c / 16 * 16 + c % 16 ≡ c
    digits c = omega arith

unescape-escape_byte :
    (c : ℕ) (s : Bytes)
    → c < 256
    → path_unescape (escape_byte c ++ s) ≡ cons_byte (some c) (path_unescape s)
unfolding escape_byte
unescape-escape_byte c s h = elim (Bool-cases (is_plain c)) [
  | inl plain ↦ rw plain (unescape_plain c s (plain-percent c plain))
  | inr coded ↦ rw coded (unescape_coded c s h)
]

-- Escaping is undone, whatever follows.
unescape-escape :
    (s t u : Bytes)
    → AreBytes s
    → path_unescape t ≡ some u
    → path_unescape (path_escape s ++ t) ≡ some (s ++ u)
unfolding path_escape
unescape-escape [] t u h e = e
unescape-escape (c ∷ s) t u (h, hs) e =
    rw
      (
        append_assoc (escape_byte c) (path_escape s) t,
        unescape-escape_byte c (path_escape s ++ t) h,
        unescape-escape s t u hs e,
      )
      refl

-- A byte of an escaped segment: it ends neither a segment nor a path.
abbrev Inner : ℕ → Type 0
Inner c = (c ≢ slash) × (c ≢ b'?') × (c ≢ b'#')

is_plain-Inner : (c : ℕ) → is_plain c ≡ true → Inner c
unfolding is_plain
is_plain-Inner c h = (
  λ e. cc (ap is_plain e, slash_coded),
  λ e. cc (ap is_plain e, question_coded),
  λ e. cc (ap is_plain e, hash_coded),
)
  where
    slash_coded : is_plain slash ≡ false
    slash_coded = refl

    question_coded : is_plain b'?' ≡ false
    question_coded = refl

    hash_coded : is_plain b'#' ≡ false
    hash_coded = refl

hex-Inner : (d : ℕ) → Inner (hex d)
hex-Inner d = (λ e. ground arith, λ e. ground arith, λ e. ground arith)

escape_byte-Inner : (c : ℕ) → All Inner (escape_byte c)
unfolding escape_byte
escape_byte-Inner c = elim (Bool-cases (is_plain c)) [
  | inl plain ↦ rw plain (is_plain-Inner c plain, tt)
  | inr coded ↦ rw coded (
    (λ e. omega arith, λ e. omega arith, λ e. omega arith),
    (hex-Inner (c / 16), (hex-Inner (c % 16), tt)),
  )
]

path_escape-Inner : (s : Bytes) → All Inner (path_escape s)
unfolding path_escape
path_escape-Inner [] = tt
path_escape-Inner (c ∷ s) =
    All-append Inner (escape_byte c) (path_escape s) (escape_byte-Inner c) (path_escape-Inner s)

-- Cutting and joining at the slashes.
join-cons : (s : Bytes) (l : List Bytes) → l ≢ [] → join_slash (s ∷ l) ≡ s ++ slash ∷ join_slash l
join-cons s [] h = absurd (h refl)
join-cons s (t ∷ ts) h = refl

join-cons_first : (x : ℕ) (l : List Bytes) → l ≢ [] → join_slash (cons_first x l) ≡ x ∷ join_slash l
join-cons_first x [] h = absurd (h refl)
join-cons_first x (s ∷ []) h = refl
join-cons_first x (s ∷ t ∷ ts) h = refl

join-split : (p : Bytes) → join_slash (split p) ≡ p
unfolding split
join-split [] = refl
join-split (x ∷ xs) = elim (Bool-cases (x == slash)) [
  | inl e ↦
      rw e (join-cons [] (split xs) (split-some xs) ∙ cc ((==_iff x slash).0 e, join-split xs))
  | inr e ↦ rw e (join-cons_first x (split xs) (split-some xs) ∙ ap (◌∷◌ x) (join-split xs))
]

split-join : (s : Bytes) (l : List Bytes) → All NoSlash (s ∷ l) → split (join_slash (s ∷ l)) ≡ s ∷ l
split-join s [] (h, hs) = split_element s h
split-join s (t ∷ ts) (h, hs) =
    split-append s (join_slash (t ∷ ts)) ∙ rw (split_element s h, split-join t ts hs) refl

Inner-NoSlash : (s : Bytes) → All Inner s → NoSlash s
Inner-NoSlash [] h = tt
Inner-NoSlash (c ∷ s) (h, hs) = (h.0, Inner-NoSlash s hs)

escape_all-NoSlash : (l : List Bytes) → All NoSlash (escape_all l)
escape_all-NoSlash [] = tt
escape_all-NoSlash (s ∷ ss) =
    (Inner-NoSlash (path_escape s) (path_escape-Inner s), escape_all-NoSlash ss)

abbrev InPath : ℕ → Type 0
InPath c = (c ≢ b'?') × (c ≢ b'#')

Inner-InPath : (s : Bytes) → All Inner s → All InPath s
Inner-InPath [] h = tt
Inner-InPath (c ∷ s) (h, hs) = ((h.1, h.2), Inner-InPath s hs)

join-InPath : (l : List Bytes) → All InPath (join_slash (escape_all l))
join-InPath [] = tt
join-InPath (s ∷ []) = Inner-InPath (path_escape s) (path_escape-Inner s)
join-InPath (s ∷ t ∷ ts) =
    All-append InPath (path_escape s) (slash ∷ join_slash (escape_all (t ∷ ts)))
      (Inner-InPath (path_escape s) (path_escape-Inner s))
      ((λ e. omega arith, λ e. omega arith), join-InPath (t ∷ ts))

split-AreBytes : (p : Bytes) → AreBytes p → All AreBytes (split p)
unfolding split
split-AreBytes [] h = (tt, tt)
split-AreBytes (x ∷ xs) (h, hs) = elim (Bool-cases (x == slash)) [
  | inl e ↦ rw e (tt, split-AreBytes xs hs)
  | inr e ↦ rw e (first (split xs) (split-AreBytes xs hs))
]
  where
    first : (l : List Bytes) → All AreBytes l → All AreBytes (cons_first x l)
    first [] k = ((h, tt), tt)
    first (s ∷ ss) (k, ks) = ((h, k), ks)

unescape-join :
    (s : Bytes) (l : List Bytes)
    → All AreBytes (s ∷ l)
    → path_unescape (join_slash (escape_all (s ∷ l))) ≡ some (join_slash (s ∷ l))
unfolding path_unescape
unescape-join s [] (h, hs) =
    rw (append-nil (path_escape s), append-nil s) at (unescape-escape s [] [] h refl)
unescape-join s (t ∷ ts) (h, hs) =
    unescape-escape s (slash ∷ join_slash (escape_all (t ∷ ts))) (slash ∷ join_slash (t ∷ ts)) h (
      unescape_plain slash (join_slash (escape_all (t ∷ ts))) refl
      ∙ ap (cons_byte (some slash)) (unescape-join t ts hs))

unescape-url :
    (l : List Bytes)
    → l ≢ []
    → All AreBytes l
    → path_unescape (join_slash (escape_all l)) ≡ some (join_slash l)
unescape-url [] h k = absurd (h refl)
unescape-url (s ∷ ss) h k = unescape-join s ss k

split-url : (l : List Bytes) → l ≢ [] → split (join_slash (escape_all l)) ≡ escape_all l
split-url [] h = absurd (h refl)
split-url (s ∷ ss) h = split-join (path_escape s) (escape_all ss) (escape_all-NoSlash (s ∷ ss))

rooted-AreBytes : (p : Bytes) → AreBytes p → AreBytes (rooted p)
unfolding rooted
rooted-AreBytes p h = if_cases AreBytes (is_rooted p) p (slash ∷ p) (λ q. h) (λ q. (omega arith, h))

escape_all-map : (l : List Bytes) → escape_all l ≡ map path_escape l
escape_all-map [] = refl
escape_all-map (s ∷ ss) = ap (◌∷◌ (path_escape s)) (escape_all-map ss)

-- The path in a URL is read back as the path that was asked for, with its slash in front; it has the same
-- elements between its slashes, each escaped; and no byte of it starts a query or a fragment.
pub url_path_lem :
    (p : Bytes)
    → All (λ c. c < 256) p
    → (path_unescape (url_path p) ≡ some (rooted p))
      × (split (url_path p) ≡ map path_escape (split (rooted p)))
      × All (λ c. (c ≢ b'?') × (c ≢ b'#')) (url_path p)
unfolding url_path
url_path_lem p h = (
  unescape-url (split (rooted p)) (split-some (rooted p))
        (split-AreBytes (rooted p) (rooted-AreBytes p h))
      ∙ ap some (join-split (rooted p)),
  split-url (split (rooted p)) (split-some (rooted p)) ∙ escape_all-map (split (rooted p)),
  join-InPath (split (rooted p)),
)
