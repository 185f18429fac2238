-- ===== src/Base/Rooted.antt =====
-- Cleaned rooted paths under `Clean`, `Dir` and `Join` of Go's package path.
use mathlib.Core.Path.{◌≡◌, refl, ap, ◌∙◌}
use mathlib.Core.Bool.{Bool, true, false}
use mathlib.Core.Logic.{◌≢◌, ◌⊎◌, inl, inr}
use mathlib.Core.List.{List, [], ◌∷◌, ◌++◌}
use native.Mathlib.Omega.{arith}
use some_go_foolery.Base.Tests.{if◌then◌else◌, Bool-cases}
use some_go_foolery.Base.Lists.{All}
use some_go_foolery.Base.Bytes.{Bytes, str_eq, str_eq_iff}
use some_go_foolery.Base.Paths.{
  base, last_name, tail_rev, Element, split-append, slash, dot, dot_dot, split, push, push_all,
  is_rooted, join_rev, print, elements, clean, dir, join, split_dir, has_slash, NoSlash,
  split-NoSlash, split_element, append-some, no_slash,
}
use some_go_foolery.Base.Elements.{
  push_all-append, unequal, Name, elements-append, elements_trailing, push-Name_kept,
  is_rooted-append,
}

-- A rooted path keeps no dots.
push-Name :
    (s : Bytes) (kept : List Bytes) → NoSlash s → All Name kept → All Name (push true s kept)
unfolding str_eq
push-Name [] [] h k = tt
push-Name [] (t ∷ ts) h k = k
push-Name (x ∷ xs) [] h k = elim (Bool-cases (str_eq (x ∷ xs) dot)) [
  | inl e ↦ rw e tt
  | inr e ↦ elim (Bool-cases (str_eq (x ∷ xs) dot_dot)) [
    | inl up ↦ rw (e, up) tt
    | inr down ↦
        rw (e, down)
          (
            (
              (h, λ q. cc),
              λ q. ground (arith, str_eq_iff (x ∷ xs) dot),
              λ q. ground (arith, str_eq_iff (x ∷ xs) dot_dot),
            ),
            tt,
          )
  ]
]
push-Name (x ∷ xs) (t ∷ ts) h k = elim (Bool-cases (str_eq (x ∷ xs) dot)) [
  | inl e ↦ rw e k
  | inr e ↦ elim (Bool-cases (str_eq (x ∷ xs) dot_dot)) [
    | inl up ↦ rw (e, up) (above (str_eq t dot_dot) refl)
    | inr down ↦
        rw (e, down)
          (
            (
              (h, λ q. cc),
              λ q. ground (arith, str_eq_iff (x ∷ xs) dot),
              λ q. ground (arith, str_eq_iff (x ∷ xs) dot_dot),
            ),
            k,
          )
  ]
]
  where
    above : (b : Bool) → str_eq t dot_dot ≡ b → All Name (if b then (x ∷ xs) ∷ t ∷ ts else ts)
    above true e = absurd (k.0.2 ((str_eq_iff t dot_dot).0 e))
    above false e = k.1

push_all-Name :
    (l kept : List Bytes) → All NoSlash l → All Name kept → All Name (push_all true l kept)
push_all-Name [] kept h k = k
push_all-Name (s ∷ ss) kept (h, hs) k =
    push_all-Name ss (push true s kept) hs (push-Name s kept h k)

pub elements_rooted-Name : (p : Bytes) → All Name (elements (slash ∷ p))
unfolding elements
elements_rooted-Name p = push_all-Name (split (slash ∷ p)) [] (split-NoSlash (slash ∷ p)) tt

elements_under_root : (s : Bytes) → Name s → elements (slash ∷ s) ≡ s ∷ []
unfolding elements split str_eq
elements_under_root s n = rw (split_element s n.0.0) (push-Name_kept true s [] n)

join_rev-some : (s : Bytes) (ss : List Bytes) → join_rev (s ∷ ss) ≢ []
unfolding join_rev
join_rev-some s ss = append-some (join_rev ss) s slash

pub elements-print : (ss : List Bytes) → All Name ss → elements (print true ss) ≡ ss
unfolding join_rev elements split str_eq
elements-print [] n = refl
elements-print (s ∷ []) (n, ns) = elements_under_root s n
elements-print (s ∷ t ∷ ts) (n, ns) =
    elements-append (join_rev (t ∷ ts)) s (join_rev-some t ts) n
    ∙ ap (◌∷◌ s) (elements-print (t ∷ ts) ns)

rooted-join_rev : (s : Bytes) (ss : List Bytes) → is_rooted (join_rev (s ∷ ss)) ≡ true
unfolding join_rev
rooted-join_rev s [] = refl
rooted-join_rev s (t ∷ ts) =
    is_rooted-append (join_rev (t ∷ ts)) (slash ∷ s) (join_rev-some t ts) ∙ rooted-join_rev t ts

rooted-print : (ss : List Bytes) → is_rooted (print true ss) ≡ true
rooted-print [] = refl
rooted-print (s ∷ ss) = rooted-join_rev s ss

pub print-some : (ss : List Bytes) → print true ss ≢ []
print-some [] = λ h. cc
print-some (s ∷ ss) = join_rev-some s ss

pub clean_rooted :
    (p : Bytes) (ss : List Bytes) → is_rooted p ≡ true → elements p ≡ ss → clean p ≡ print true ss
unfolding clean
clean_rooted p ss r e = rw (r, e) refl

-- Cleaning what is clean changes nothing.
clean-print : (ss : List Bytes) → All Name ss → clean (print true ss) ≡ print true ss
clean-print ss n = clean_rooted (print true ss) ss (rooted-print ss) (elements-print ss n)

NoSlash-has_slash : (s : Bytes) → NoSlash s → has_slash s ≡ false
NoSlash-has_slash [] h = refl
NoSlash-has_slash (x ∷ xs) (h, hs) = rw (no_slash x h) (NoSlash-has_slash xs hs)

slash_there : (p s : Bytes) → has_slash (p ++ slash ∷ s) ≡ true
slash_there [] s = refl
slash_there (x ∷ p) s = ground (arith, slash_there p s)

split_dir_name : (p s : Bytes) → NoSlash s → split_dir (p ++ slash ∷ s) ≡ p ++ slash ∷ []
unfolding split_dir
split_dir_name [] s h = rw (NoSlash-has_slash s h) refl
split_dir_name (x ∷ p) s h = rw (slash_there p s, split_dir_name p s h) refl

-- A name in a directory is joined behind it, and the directory of the result is that directory.
pub dir-join :
    (ss : List Bytes) (s : Bytes)
    → All Name ss
    → Name s
    → (join (print true ss) s ≡ print true (s ∷ ss)) × (dir (print true (s ∷ ss)) ≡ print true ss)
unfolding dir join join_rev
dir-join ss s ns n = (
  clean_rooted (print true ss ++ slash ∷ s) (s ∷ ss)
      (is_rooted-append (print true ss) (slash ∷ s) (print-some ss) ∙ rooted-print ss)
      (elements-append (print true ss) s (print-some ss) n ∙ ap (◌∷◌ s) (elements-print ss ns)),
  rw (split_dir_name (join_rev ss) s n.0.0) (above ss ns),
)
  where
    above : (l : List Bytes) → All Name l → clean (join_rev l ++ slash ∷ []) ≡ print true l
    above [] k = clean-print [] tt
    above (t ∷ ts) k =
        clean_rooted (join_rev (t ∷ ts) ++ slash ∷ []) (t ∷ ts)
          (is_rooted-append (join_rev (t ∷ ts)) (slash ∷ []) (join_rev-some t ts)
            ∙ rooted-join_rev t ts)
          (elements_trailing (join_rev (t ∷ ts)) (join_rev-some t ts) ∙ elements-print (t ∷ ts) k)

-- A second slash in front adds nothing.
elements-slash : (q : Bytes) → is_rooted q ≡ true → elements (slash ∷ q) ≡ elements q
unfolding elements split str_eq
elements-slash q r = rw r refl

pub elements_of_print : (ss : List Bytes) → All Name ss → elements (slash ∷ print true ss) ≡ ss
elements_of_print ss n = elements-slash (print true ss) (rooted-print ss) ∙ elements-print ss n

-- One more element is one more step of `Clean`.
pub elements-push :
    (q s : Bytes)
    → q ≢ []
    → NoSlash s
    → elements (q ++ slash ∷ s) ≡ push (is_rooted q) s (elements q)
unfolding elements
elements-push q s h n =
    rw (is_rooted-append q (slash ∷ s) h, split-append q s, split_element s n, push_all-append) refl

-- A step up from a rooted path.
pub push-dot_dot : (kept : List Bytes) → All Name kept → push true dot_dot kept ≡ tail_rev kept
unfolding str_eq
push-dot_dot [] n = refl
push-dot_dot (t ∷ ts) (n, ns) = rw (unequal t dot_dot n.2) refl

pub push-dot : (kept : List Bytes) → push true dot kept ≡ kept
unfolding str_eq
push-dot [] = refl
push-dot (t ∷ ts) = refl

last_name-Element :
    (l : List Bytes) (found : Bytes)
    → All NoSlash l
    → (found ≡ slash ∷ []) ⊎ Element found
    → (last_name l found ≡ slash ∷ []) ⊎ Element (last_name l found)
last_name-Element [] found h k = k
last_name-Element ([] ∷ ss) found (h, hs) k = last_name-Element ss found hs k
last_name-Element ((x ∷ xs) ∷ ss) found (h, hs) k =
    last_name-Element ss (x ∷ xs) hs (inr (h, λ q. cc))

-- The base of what is not empty is an element, or a slash.
pub base-Element_or_slash : (p : Bytes) → p ≢ [] → (base p ≡ slash ∷ []) ⊎ Element (base p)
unfolding base
base-Element_or_slash [] h = absurd (h refl)
base-Element_or_slash (x ∷ xs) h =
    last_name-Element (split (x ∷ xs)) (slash ∷ []) (split-NoSlash (x ∷ xs)) (inl refl)

pub elements_of_root : (s : Bytes) → NoSlash s → elements (slash ∷ s) ≡ push true s []
unfolding elements split str_eq
elements_of_root s n = rw (split_element s n) refl
