-- ===== src/Base/Elements.antt =====
-- The elements between the slashes of a path, and the last of them, under `Clean` of Go's package path.
use mathlib.Core.Path.{◌≡◌, refl, subst}
use mathlib.Core.Bool.{Bool, true, false}
use mathlib.Core.List.{List, [], ◌∷◌, ◌++◌}
use mathlib.Core.Logic.{◌≢◌, inl, inr}
use native.Mathlib.Omega.{arith}
use some_go_foolery.Base.Tests.{if◌then◌else◌, Bool-cases}
use some_go_foolery.Base.Lists.{All}
use some_go_foolery.Base.Bytes.{Bytes, str_eq, str_eq_iff}
use some_go_foolery.Base.Paths.{
  Element, NoSlash, base, base-Element, base-append, clean, dot, dot_dot, drop_first, elements,
  is_rooted, join_rev, print, push, push_all, slash, split, split-NoSlash, split-append,
  split_element,
}

pub unequal : (s t : Bytes) → s ≢ t → str_eq s t ≡ false
unequal s t h = ground (arith, str_eq_iff s t)

-- A name: an element that is neither of the two dots.
abbrev pub Name : Bytes → Type 0
Name s = Element s × (s ≢ dot) × (s ≢ dot_dot)

pub push-Name_kept :
    (rooted : Bool) (s : Bytes) (kept : List Bytes) → Name s → push rooted s kept ≡ s ∷ kept
push-Name_kept rooted s [] ((h, some_bytes), d, dd) =
    rw (unequal s [] some_bytes, unequal s dot d, unequal s dot_dot dd) refl
push-Name_kept rooted s (t ∷ ts) ((h, some_bytes), d, dd) =
    rw (unequal s [] some_bytes, unequal s dot d, unequal s dot_dot dd) refl

-- `Clean` keeps elements only.
push-Element :
    (rooted : Bool) (s : Bytes) (kept : List Bytes)
    → NoSlash s
    → All Element kept
    → All Element (push rooted s kept)
unfolding str_eq
push-Element rooted [] [] h k = tt
push-Element rooted [] (t ∷ ts) h k = k
push-Element rooted (x ∷ xs) [] h k = elim (Bool-cases (str_eq (x ∷ xs) dot)) [
  | inl e ↦ rw e tt
  | inr e ↦ elim (Bool-cases (str_eq (x ∷ xs) dot_dot)) [
    | inl up ↦ rw (e, up) (root rooted)
    | inr down ↦ rw (e, down) ((h, λ q. cc), tt)
  ]
]
  where
    root : (b : Bool) → All Element (if b then [] else (x ∷ xs) ∷ [])
    root true = tt
    root false = ((h, λ q. cc), tt)
push-Element rooted (x ∷ xs) (t ∷ ts) h k = elim (Bool-cases (str_eq (x ∷ xs) dot)) [
  | inl e ↦ rw e k
  | inr e ↦ elim (Bool-cases (str_eq (x ∷ xs) dot_dot)) [
    | inl up ↦ rw (e, up) (above (str_eq t dot_dot))
    | inr down ↦ rw (e, down) ((h, λ q. cc), k)
  ]
]
  where
    above : (b : Bool) → All Element (if b then (x ∷ xs) ∷ t ∷ ts else ts)
    above true = ((h, λ q. cc), k)
    above false = k.1

push_all-Element :
    (rooted : Bool) (l kept : List Bytes)
    → All NoSlash l
    → All Element kept
    → All Element (push_all rooted l kept)
push_all-Element rooted [] kept h k = k
push_all-Element rooted (s ∷ ss) kept (h, hs) k =
    push_all-Element rooted ss (push rooted s kept) hs (push-Element rooted s kept h k)

pub push_all-append :
    (rooted : Bool) (l : List Bytes) (s : Bytes) (kept : List Bytes)
    → push_all rooted (l ++ s ∷ []) kept ≡ push rooted s (push_all rooted l kept)
push_all-append rooted [] s kept = refl
push_all-append rooted (t ∷ ts) s kept = push_all-append rooted ts s (push rooted t kept)

elements-Element : (p : Bytes) → All Element (elements p)
unfolding elements
elements-Element p = push_all-Element (is_rooted p) (split p) [] (split-NoSlash p) tt

pub is_rooted-append : (p q : Bytes) → p ≢ [] → is_rooted (p ++ q) ≡ is_rooted p
is_rooted-append [] q h = absurd (h refl)
is_rooted-append (x ∷ xs) q h = refl

-- A name below a path is one more element.
pub elements-append : (p s : Bytes) → p ≢ [] → Name s → elements (p ++ slash ∷ s) ≡ s ∷ elements p
unfolding elements
elements-append p s h n =
    rw (is_rooted-append p (slash ∷ s) h, split-append p s, split_element s n.0.0, push_all-append)
      (push-Name_kept (is_rooted p) s (push_all (is_rooted p) (split p) []) n)

pub elements-Name : (s : Bytes) → Name s → elements s ≡ s ∷ []
unfolding elements
elements-Name s n = rw (split_element s n.0.0) (push-Name_kept (is_rooted s) s [] n)

-- A slash at the end adds nothing.
pub elements_trailing : (p : Bytes) → p ≢ [] → elements (p ++ slash ∷ []) ≡ elements p
unfolding elements split str_eq
elements_trailing p h =
    rw (is_rooted-append p (slash ∷ []) h, split-append p [], push_all-append)
      (nothing (push_all (is_rooted p) (split p) []))
  where
    nothing : (kept : List Bytes) → push (is_rooted p) [] kept ≡ kept
    nothing [] = refl
    nothing (t ∷ ts) = refl

base-print :
    (rooted : Bool) (s : Bytes) (ss : List Bytes)
    → All Element (s ∷ ss)
    → base (print rooted (s ∷ ss)) ≡ s
unfolding join_rev
base-print true s ss (h, hs) = base-append (join_rev ss) s h
base-print false s [] (h, hs) = base-Element s h
base-print false s (t ∷ ts) (h, hs) = under (join_rev ts) t
  where
    under : (q t : Bytes) → base (drop_first ((q ++ slash ∷ t) ++ slash ∷ s)) ≡ s
    under [] t = base-append t s h
    under (x ∷ q) t = base-append (q ++ slash ∷ t) s h

-- The base of a cleaned path is its last element.
pub base-clean : (p s : Bytes) (ss : List Bytes) → elements p ≡ s ∷ ss → base (clean p) ≡ s
unfolding clean
base-clean p s ss e =
    rw e (base-print (is_rooted p) s ss (subst (All Element) e (elements-Element p)))
