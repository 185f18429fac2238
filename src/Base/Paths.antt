-- ===== src/Base/Paths.antt =====
-- Package path of Go: Clean, Base, Dir and Join on slash-separated strings.
use Prim.Native.Nat.{ℕ}
use mathlib.Core.Path.{◌≡◌, refl, ap, ◌∙◌}
use mathlib.Core.Bool.{Bool, true, false, ◌||◌}
use mathlib.Core.List.{List, [], ◌∷◌, ◌++◌}
use mathlib.Core.Logic.{◌≢◌, inl, inr}
use native.Mathlib.Omega.{arith}
use some_go_foolery.Base.Tests.{◌==◌, ==_iff, if◌then◌else◌, Bool-cases}
use some_go_foolery.Base.Lists.{All}
use some_go_foolery.Base.Bytes.{Bytes, str_eq}

abbrev pub slash : ℕ
slash = 47

abbrev pub dot : Bytes
dot = 46 ∷ []

abbrev pub dot_dot : Bytes
dot_dot = 46 ∷ 46 ∷ []

abbrev pub cons_first : ℕ → List Bytes → List Bytes
cons_first x [] = (x ∷ []) ∷ []
cons_first x (s ∷ ss) = (x ∷ s) ∷ ss

-- The elements between the slashes; one more than there are slashes.
unfoldable pub split : Bytes → List Bytes
split [] = [] ∷ []
split (x ∷ xs) = let rest = split xs in if x == slash then [] ∷ rest else cons_first x rest

-- One step of `Clean`, on the elements kept so far, the last one first.
abbrev pub push : Bool → Bytes → List Bytes → List Bytes
push rooted s [] =
    if str_eq s [] || str_eq s dot
    then []
    else if str_eq s dot_dot
    then if rooted then [] else s ∷ []
    else s ∷ []
push rooted s (t ∷ ts) =
    if str_eq s [] || str_eq s dot
    then t ∷ ts
    else if str_eq s dot_dot
    then if str_eq t dot_dot then s ∷ t ∷ ts else ts
    else s ∷ t ∷ ts

abbrev pub push_all : Bool → List Bytes → List Bytes → List Bytes
push_all rooted [] kept = kept
push_all rooted (s ∷ ss) kept = push_all rooted ss (push rooted s kept)

abbrev pub is_rooted : Bytes → Bool
is_rooted [] = false
is_rooted (x ∷ xs) = x == slash

-- Each element behind a slash; the first one is the last of the path.
unfoldable pub join_rev : List Bytes → Bytes
join_rev [] = []
join_rev (s ∷ ss) = join_rev ss ++ slash ∷ s

abbrev pub drop_first : Bytes → Bytes
drop_first [] = []
drop_first (x ∷ xs) = xs

abbrev pub print : Bool → List Bytes → Bytes
print true [] = slash ∷ []
print false [] = dot
print true (s ∷ ss) = join_rev (s ∷ ss)
print false (s ∷ ss) = drop_first (join_rev (s ∷ ss))

-- The elements of the cleaned path, the last one first.
unfoldable pub elements : Bytes → List Bytes
elements p = push_all (is_rooted p) (split p) []

-- `path.Clean`.
unfoldable pub clean : Bytes → Bytes
clean p = print (is_rooted p) (elements p)

-- The last element that is not empty.
abbrev pub last_name : List Bytes → Bytes → Bytes
last_name [] found = found
last_name ([] ∷ ss) found = last_name ss found
last_name ((x ∷ xs) ∷ ss) found = last_name ss (x ∷ xs)

-- `path.Base`.
unfoldable pub base : Bytes → Bytes
base [] = dot
base (x ∷ xs) = last_name (split (x ∷ xs)) (slash ∷ [])

abbrev pub tail_rev : List Bytes → List Bytes
tail_rev [] = []
tail_rev (s ∷ ss) = ss

-- All up to the last slash, which `path.Split` returns first.
abbrev cons_dir : ℕ → Bytes → Bool → Bytes
cons_dir x d true = x ∷ d
cons_dir x d false = if x == slash then x ∷ [] else []

abbrev pub has_slash : Bytes → Bool
has_slash [] = false
has_slash (x ∷ xs) = x == slash || has_slash xs

unfoldable pub split_dir : Bytes → Bytes
split_dir [] = []
split_dir (x ∷ xs) = cons_dir x (split_dir xs) (has_slash xs)

-- `path.Dir` and `path.Join` of two elements that are not empty.
unfoldable pub dir : Bytes → Bytes
dir p = clean (split_dir p)

unfoldable pub join : Bytes → Bytes → Bytes
join p q = clean (p ++ slash ∷ q)

abbrev pub NoSlash : Bytes → Type 0
NoSlash s = All (λ x. x ≢ slash) s

-- An element of a cleaned path: not empty, without a slash.
abbrev pub Element : Bytes → Type 0
Element s = NoSlash s × (s ≢ [])

pub no_slash : (x : ℕ) → x ≢ slash → (x == slash) ≡ false
no_slash x h = ground (arith, ==_iff x slash)

cons_first-NoSlash :
    (x : ℕ) (l : List Bytes) → x ≢ slash → All NoSlash l → All NoSlash (cons_first x l)
cons_first-NoSlash x [] h a = ((h, tt), tt)
cons_first-NoSlash x (s ∷ ss) h (a, rest) = ((h, a), rest)

pub split-NoSlash : (p : Bytes) → All NoSlash (split p)
unfolding split
split-NoSlash [] = (tt, tt)
split-NoSlash (x ∷ xs) = elim (Bool-cases (x == slash)) [
  | inl e ↦ rw e (tt, split-NoSlash xs)
  | inr e ↦
      rw e
        (cons_first-NoSlash x (split xs) (λ q. ground (arith, ==_iff x slash)) (split-NoSlash xs))
]

cons_first-append :
    (x : ℕ) (l m : List Bytes) → l ≢ [] → cons_first x (l ++ m) ≡ cons_first x l ++ m
cons_first-append x [] m h = absurd (h refl)
cons_first-append x (s ∷ ss) m h = refl

cons_first-some : (x : ℕ) (l : List Bytes) → cons_first x l ≢ []
cons_first-some x [] h = cc
cons_first-some x (s ∷ ss) h = cc

pub split-some : (p : Bytes) → split p ≢ []
unfolding split
split-some [] = λ h. cc
split-some (x ∷ xs) = elim (Bool-cases (x == slash)) [
  | inl e ↦ rw e (λ h. cc)
  | inr e ↦ rw e (cons_first-some x (split xs))
]

-- Splitting goes through a slash.
pub split-append : (p q : Bytes) → split (p ++ slash ∷ q) ≡ split p ++ split q
unfolding split
split-append [] q = refl
split-append (x ∷ xs) q = elim (Bool-cases (x == slash)) [
  | inl e ↦ rw e (ap (◌∷◌ []) (split-append xs q))
  | inr e ↦ rw (e, split-append xs q) (cons_first-append x (split xs) (split q) (split-some xs))
]

pub split_element : (s : Bytes) → NoSlash s → split s ≡ s ∷ []
unfolding split
split_element [] h = refl
split_element (x ∷ xs) (h, hs) = rw (no_slash x h, split_element xs hs) refl

last_name-append : (l : List Bytes) (s found : Bytes) → s ≢ [] → last_name (l ++ s ∷ []) found ≡ s
last_name-append [] [] found h = absurd (h refl)
last_name-append [] (x ∷ xs) found h = refl
last_name-append ([] ∷ ss) s found h = last_name-append ss s found h
last_name-append ((x ∷ xs) ∷ ss) s found h = last_name-append ss s (x ∷ xs) h

base_of_some : (p : Bytes) → p ≢ [] → base p ≡ last_name (split p) (slash ∷ [])
unfolding base
base_of_some [] h = absurd (h refl)
base_of_some (x ∷ xs) h = refl

pub append-some : (p q : Bytes) (x : ℕ) → p ++ x ∷ q ≢ []
append-some [] q x h = cc
append-some (y ∷ ys) q x h = cc

-- The base of what ends in a slash and an element is that element.
pub base-append : (p s : Bytes) → Element s → base (p ++ slash ∷ s) ≡ s
base-append p s (h, some_bytes) =
    base_of_some (p ++ slash ∷ s) (append-some p s slash)
    ∙ rw (split-append p s, split_element s h)
        (last_name-append (split p) s (slash ∷ []) some_bytes)

pub base-Element : (s : Bytes) → Element s → base s ≡ s
base-Element s (h, some_bytes) =
    base_of_some s some_bytes
    ∙ rw (split_element s h) (last_name-append [] s (slash ∷ []) some_bytes)
