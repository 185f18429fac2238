-- ===== src/Ownerfs/Cache/Keys.antt =====
-- The keys that claudy-p2p/internal/ownerfs/statcache.go computes.
use some_go_foolery.Base.{
  ◌≡◌, ◌≢◌, ◌⊎◌, refl, ap, sym, ◌∙◌, List, [], ◌∷◌, ◌++◌, All, true, ◌==◌, ==_iff, Bool-cases, inl,
  inr,
}
use some_go_foolery.Base.Bytes.{Bytes}
use some_go_foolery.Base.Paths.{slash, elements, print, dir, join}
use some_go_foolery.Base.Elements.{Name, elements-append, elements_trailing}
use some_go_foolery.Base.Rooted.{
  clean_rooted, elements_rooted-Name, elements_of_print, dir-join, print-some, elements-print,
}
use some_go_foolery.Ownerfs.Cache.{normalize, trim_slash, or_root}

trim_cases : (p : Bytes) → (trim_slash p ≡ p) ⊎ (p ≡ trim_slash p ++ slash ∷ [])
trim_cases [] = inl refl
trim_cases (x ∷ []) = elim (Bool-cases (x == slash)) [
  | inl e ↦ rw e (inr (ap (λ y. y ∷ []) ((==_iff x slash).0 e)))
  | inr e ↦ rw e (inl refl)
]
trim_cases (x ∷ y ∷ ys) = elim (trim_cases (y ∷ ys)) [
  | inl e ↦ inl (ap (◌∷◌ x) e)
  | inr e ↦ inr (ap (◌∷◌ x) e)
]

elements-trim_slash : (p : Bytes) → elements (slash ∷ trim_slash p) ≡ elements (slash ∷ p)
elements-trim_slash p = elim (trim_cases p) [
  | inl e ↦ ap (λ q. elements (slash ∷ q)) e
  | inr e ↦
      sym (elements_trailing (slash ∷ trim_slash p) some_bytes)
      ∙ sym (ap (λ q. elements (slash ∷ q)) e)
]
  where
    some_bytes : slash ∷ trim_slash p ≢ []
    some_bytes h = cc

or_root_some : (q : Bytes) → q ≢ [] → or_root q ≡ q
or_root_some [] h = absurd (h refl)
or_root_some (x ∷ xs) h = refl

-- A key is a rooted path of the elements that the path has below the root.
normalize-elements : (p : Bytes) → normalize p ≡ print true (elements (slash ∷ p))
unfolding normalize
normalize-elements [] = ap (print true) (sym (elements-print [] tt))
normalize-elements (x ∷ xs) =
    ap or_root (
      clean_rooted (slash ∷ trim_slash (x ∷ xs)) (elements (slash ∷ x ∷ xs)) refl
        (elements-trim_slash (x ∷ xs)))
    ∙ or_root_some (print true (elements (slash ∷ x ∷ xs))) (print-some (elements (slash ∷ x ∷ xs)))

-- A key is its own key; a slash behind a path does not change its key; and the key of a name in a
-- directory is the one that a listing of that directory seeds, and has the key of the directory as its
-- parent, which a change of the name makes the cache forget.
normalize_lem :
    (p s : Bytes)
    → Name s
    → (normalize (normalize p) ≡ normalize p)
      × (normalize (p ++ slash ∷ []) ≡ normalize p)
      × (normalize (p ++ slash ∷ s) ≡ join (normalize p) s)
      × (dir (normalize (p ++ slash ∷ s)) ≡ normalize p)
normalize_lem p s n = (
  normalize-elements (normalize p)
      ∙ ap (λ q. print true (elements (slash ∷ q))) (normalize-elements p)
      ∙ ap (print true) (elements_of_print ss names)
      ∙ sym (normalize-elements p),
  normalize-elements (p ++ slash ∷ [])
      ∙ ap (print true) (elements_trailing (slash ∷ p) some_bytes)
      ∙ sym (normalize-elements p),
  child ∙ sym (dir-join ss s names n).0 ∙ ap (λ d. join d s) (sym (normalize-elements p)),
  ap dir child ∙ (dir-join ss s names n).1 ∙ sym (normalize-elements p),
)
  where
    ss : List Bytes
    ss = elements (slash ∷ p)

    names : All Name ss
    names = elements_rooted-Name p

    some_bytes : slash ∷ p ≢ []
    some_bytes h = cc

    child : normalize (p ++ slash ∷ s) ≡ print true (s ∷ ss)
    child =
        normalize-elements (p ++ slash ∷ s)
        ∙ ap (print true) (elements-append (slash ∷ p) s some_bytes n)
