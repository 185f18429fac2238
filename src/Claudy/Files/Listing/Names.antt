-- ===== src/Claudy/Files/Listing/Names.antt =====
-- Which names `listFiles` of claudy-p2p/cmd/claudy/files.go shows.
use mathlib.Core.Path.{ap₂}
use some_go_foolery.Base.{
  ℕ, ◌≡◌, ◌≢◌, ◌⊎◌, inl, inr, refl, sym, ap, subst, ◌∙◌, Bool, true, false, Option, List, [], ◌∷◌,
  ◌++◌, map, length, ◌==◌, ==_iff, arith, All, Bool-cases,
}
use some_go_foolery.Base.Bytes.{Bytes, str_eq, str_eq_iff}
use some_go_foolery.Base.Paths.{slash, print, elements, base}
use some_go_foolery.Base.Elements.{Name, elements_trailing, base-clean}
use some_go_foolery.Base.Rooted.{elements_rooted-Name, elements-print, clean_rooted}
use some_go_foolery.Claudy.Files.{path_unescape, rooted}
use some_go_foolery.Claudy.Files.Listing.{
  DavProp, DavResponse, FileEntry, found_prop, trim_prefix, trim_suffix, tidy, decoded, href_clean,
  name_of, entries_of, list_of,
}

trim_suffix-cases : (q : Bytes) → (trim_suffix q ≡ q) ⊎ (q ≡ trim_suffix q ++ slash ∷ [])
unfolding trim_suffix
trim_suffix-cases [] = inl refl
trim_suffix-cases (c ∷ []) = elim (Bool-cases (c == slash)) [
  | inl e ↦ inr (rw e (ap (λ (d : ℕ). d ∷ []) ((==_iff c slash).0 e)))
  | inr e ↦ inl (rw e refl)
]
trim_suffix-cases (c ∷ d ∷ s) = elim (trim_suffix-cases (d ∷ s)) [
  | inl same ↦ inl (ap (◌∷◌ c) same)
  | inr cut ↦ inr (ap (◌∷◌ c) cut)
]

elements-trim_suffix : (q : Bytes) → elements (slash ∷ trim_suffix q) ≡ elements (slash ∷ q)
elements-trim_suffix q = elim (trim_suffix-cases q) [
  | inl same ↦ ap (λ t. elements (slash ∷ t)) same
  | inr cut ↦
      sym (elements_trailing (slash ∷ trim_suffix q) (λ e. cc))
      ∙ ap (λ t. elements (slash ∷ t)) (sym cut)
]

slash-trim_prefix : (q : Bytes) → slash ∷ trim_prefix q ≡ rooted q
unfolding trim_prefix rooted
slash-trim_prefix [] = refl
slash-trim_prefix (c ∷ s) = elim (Bool-cases (c == slash)) [
  | inl e ↦ rw e (ap (λ (d : ℕ). d ∷ s) (sym ((==_iff c slash).0 e)))
  | inr e ↦ rw e refl
]

-- The canonical form has the elements of the path, behind a slash.
elements-tidied : (q : Bytes) → elements (slash ∷ trim_suffix (trim_prefix q)) ≡ elements (rooted q)
elements-tidied q = elements-trim_suffix (trim_prefix q) ∙ ap elements (slash-trim_prefix q)

tidy_lem : (q : Bytes) → tidy q ≡ print true (elements (rooted q))
unfolding tidy
tidy_lem q =
    clean_rooted (slash ∷ trim_suffix (trim_prefix q)) (elements (rooted q)) refl
      (elements-tidied q)

pub rooted-Name : (q : Bytes) → All Name (elements (rooted q))
rooted-Name q =
    subst (λ t. All Name (elements t)) (slash-trim_prefix q) (elements_rooted-Name (trim_prefix q))

base-tidy : (q n : Bytes) (ss : List Bytes) → elements (rooted q) ≡ n ∷ ss → base (tidy q) ≡ n
unfolding tidy
base-tidy q n ss e = base-clean (slash ∷ trim_suffix (trim_prefix q)) n ss (elements-tidied q ∙ e)

print_injective :
    (ss ts : List Bytes) → All Name ss → All Name ts → print true ss ≡ print true ts → ss ≡ ts
print_injective ss ts hs ht e = sym (elements-print ss hs) ∙ ap elements e ∙ elements-print ts ht

-- A response for the directory itself, or for a child of that name.
pub data Row : Type 0 where
  itself : Row
  child : Bytes → Row

abbrev unescaped : DavResponse → Bytes
unescaped r = decoded r.href (path_unescape r.href)

-- The response is for the row, in the directory with these elements, the last one first: its path has the
-- elements, and its display name is that of the child or missing.
abbrev RowOf : List Bytes → Row → DavResponse → Type 0
RowOf ss itself r = elements (rooted (unescaped r)) ≡ ss
RowOf ss (child n) r =
    (elements (rooted (unescaped r)) ≡ n ∷ ss)
    × (((found_prop r.propstat).display_name ≡ []) ⊎ ((found_prop r.propstat).display_name ≡ n))

abbrev pub RowsOf : List Bytes → List Row → List DavResponse → Type 0
RowsOf ss [] [] = Unit
RowsOf ss (row ∷ rows) (r ∷ rs) = RowOf ss row r × RowsOf ss rows rs
RowsOf ss [] (r ∷ rs) = ⊥
RowsOf ss (row ∷ rows) [] = ⊥

abbrev pub children : List Row → List Bytes
children [] = []
children (itself ∷ rows) = children rows
children (child n ∷ rows) = n ∷ children rows

longer : (n : Bytes) (ss : List Bytes) → n ∷ ss ≢ ss
longer n ss e = absurd (omega (arith, ap length e))

shown_name :
    (pr : DavProp) (q n : Bytes) (ss : List Bytes)
    → elements (rooted q) ≡ n ∷ ss
    → (pr.display_name ≡ []) ⊎ (pr.display_name ≡ n)
    → name_of pr (tidy q) ≡ n
unfolding str_eq
shown_name pr q n ss e (inl missing) = rw missing (base-tidy q n ss e)
shown_name pr q n ss e (inr given) = by_text n refl given
  where
    by_text : (m : Bytes) → m ≡ n → pr.display_name ≡ m → name_of pr (tidy q) ≡ n
    by_text [] same g = rw g (base-tidy q n ss e)
    by_text (c ∷ m) same g = rw g same

module _ (parse_rfc1123 parse_rfc1123z : Bytes → Option Bytes) where
  shown :
      (canon : Bytes) (ss : List Bytes) (rows : List Row) (rs : List DavResponse)
      → canon ≡ print true ss
      → All Name ss
      → RowsOf ss rows rs
      → map (λ (e : FileEntry). e.name) (entries_of parse_rfc1123 parse_rfc1123z canon rs)
        ≡ children rows
  unfolding entries_of
  shown canon ss [] [] c h k = refl
  shown canon ss [] (r ∷ rs) c h k = absurd k
  shown canon ss (row ∷ rows) [] c h k = absurd k
  shown canon ss (itself ∷ rows) (r ∷ rs) c h (k, ks) = rw same (shown canon ss rows rs c h ks)
    where
      same : str_eq (href_clean r) canon ≡ true
      same =
          (str_eq_iff (href_clean r) canon).1 (tidy_lem (unescaped r) ∙ ap (print true) k ∙ sym c)
  shown canon ss (child n ∷ rows) (r ∷ rs) c h ((k, d), ks) =
      rw (apart (str_eq (href_clean r) canon) refl) (
        ap₂ ◌∷◌ (shown_name (found_prop r.propstat) (unescaped r) n ss k d)
          (shown canon ss rows rs c h ks))
    where
      clash : href_clean r ≡ canon → ⊥
      clash e = longer n ss (
          sym k
          ∙ print_injective (elements (rooted (unescaped r))) ss (rooted-Name (unescaped r)) h
              (sym (tidy_lem (unescaped r)) ∙ e ∙ c))

      apart : (b : Bool) → str_eq (href_clean r) canon ≡ b → str_eq (href_clean r) canon ≡ false
      apart true e = absurd (clash ((str_eq_iff (href_clean r) canon).0 e))
      apart false e = e

  -- Where the responses are, in any order, for the directory itself and for children, the list has the path
  -- in canonical form and exactly the names of the children, in the order of the responses.
  pub list_of_lem :
      (p : Bytes) (rows : List Row) (rs : List DavResponse)
      → RowsOf (elements (rooted p)) rows rs
      → let l = list_of parse_rfc1123 parse_rfc1123z p rs in
        (l.path ≡ print true (elements (rooted p)))
        × (map (λ (e : FileEntry). e.name) l.entries ≡ children rows)
  unfolding list_of
  list_of_lem p rows rs k =
      (tidy_lem p, shown (tidy p) (elements (rooted p)) rows rs (tidy_lem p) (rooted-Name p) k)
