-- ===== src/Claudy/Files/Upload/Targets.antt =====
-- Where the upload route of claudy-p2p/cmd/claudy/main.go puts its files.
use mathlib.Core.List.{append_assoc}
use some_go_foolery.Base.{
  ℕ, suc, ◌+◌, ◌≡◌, ◌≢◌, ◌⊎◌, inl, inr, refl, sym, ap, ◌∙◌, Bool, true, false, Option, none, some,
  List, [], ◌∷◌, ◌++◌, length, if◌then◌else◌, ◌==◌, ==_iff, arith, Bool-cases, if_cases,
}
use some_go_foolery.Base.Bytes.{Bytes, str_eq, str_eq_iff}
use some_go_foolery.Base.Paths.{
  slash, dot, dot_dot, elements, base, push, tail_rev, Element, NoSlash,
}
use some_go_foolery.Base.Elements.{Name, push-Name_kept, elements_trailing}
use some_go_foolery.Base.Rooted.{
  elements-push, elements_of_root, push-dot, push-dot_dot, base-Element_or_slash,
}
use some_go_foolery.Claudy.App.{App}
use some_go_foolery.Claudy.Files.{rooted, Failure, upload_file}
use some_go_foolery.Claudy.Files.Listing.Names.{rooted-Name}
use some_go_foolery.Claudy.Files.Upload.{
  Next, part, broken, ends_slash, with_slash, upload_dir, target, Uploaded, uploaded, is_file,
  and_put, after_put, upload_loop, upload,
}

-- A text that ends in a slash, cut before it.
ends_slash-cut : (s : Bytes) → ends_slash s ≡ true → (q : Bytes) × (s ≡ q ++ slash ∷ [])
ends_slash-cut [] h = cc
ends_slash-cut (c ∷ []) h = ([], ap (λ (d : ℕ). d ∷ []) ((==_iff c slash).0 h))
ends_slash-cut (c ∷ d ∷ s) h = let (q, e) = ends_slash-cut (d ∷ s) h in (c ∷ q, ap (◌∷◌ c) e)

-- The directory of an upload is some path and a slash, and that path has the elements of the query's.
Cut : Bytes → Bytes → Type 0
Cut p d = (q : Bytes) × (d ≡ q ++ slash ∷ []) × (elements (rooted q) ≡ elements (rooted p))

rooted_trailing : (q : Bytes) → elements (rooted (q ++ slash ∷ [])) ≡ elements (rooted q)
unfolding rooted
rooted_trailing [] = refl
rooted_trailing (c ∷ q) = elim (Bool-cases (c == slash)) [
  | inl e ↦ rw e (elements_trailing (c ∷ q) (λ x. cc))
  | inr e ↦ rw e (elements_trailing (slash ∷ c ∷ q) (λ x. cc))
]

with_slash-Cut : (p : Bytes) → Cut p (with_slash p)
unfolding Cut
with_slash-Cut p =
    if_cases (Cut p) (ends_slash p) p (p ++ slash ∷ []) (λ e. ending (ends_slash-cut p e))
      (λ e. (p, refl, refl))
  where
    ending : (q : Bytes) × (p ≡ q ++ slash ∷ []) → Cut p p
    ending (q, e) = (q, e, sym (rooted_trailing q) ∙ ap (λ t. elements (rooted t)) (sym e))

upload_dir-Cut : (p : Bytes) → Cut p (upload_dir p)
unfolding upload_dir str_eq Cut rooted
upload_dir-Cut [] = ([], refl, refl)
upload_dir-Cut (c ∷ s) = with_slash-Cut (c ∷ s)

rooted-push :
    (q s : Bytes)
    → NoSlash s
    → elements (rooted (q ++ slash ∷ s)) ≡ push true s (elements (rooted q))
unfolding rooted str_eq
rooted-push [] s n = elements_of_root s n ∙ ap (push true s) (sym root_empty)
  where
    root_empty : elements (slash ∷ []) ≡ []
    root_empty = elements_of_root [] tt
rooted-push (c ∷ q) s n = elim (Bool-cases (c == slash)) [
  | inl e ↦ rw e (elements-push (c ∷ q) s (λ x. cc) n ∙ rw e refl)
  | inr e ↦ rw e (elements-push (slash ∷ c ∷ q) s (λ x. cc) n)
]

-- The paths that the parts ask for.
abbrev targets : Bytes → List Next → List Bytes
targets p [] = []
targets p (broken ∷ parts) = targets p parts
targets p (part f reply ∷ parts) =
    let later = targets p parts in if is_file f then target p f.file_name ∷ later else later

-- A file goes into the directory of the query under its last name; one that is called .. goes to the
-- directory above; and one that is called . or only slashes names the directory itself.
abbrev pub Lands : Bytes → Bytes → Type 0
Lands p f =
    let there = elements (rooted (target p f)) in
    let dir = elements (rooted p) in
    (Name (base f) × (there ≡ base f ∷ dir))
    ⊎ ((base f ≡ dot_dot) × (there ≡ tail_rev dir))
    ⊎ (((base f ≡ dot) ⊎ (base f ≡ slash ∷ [])) × (there ≡ dir))

target-push :
    (p f : Bytes)
    → NoSlash (base f)
    → elements (rooted (target p f)) ≡ push true (base f) (elements (rooted p))
unfolding target Cut
target-push p f n = by_cut (upload_dir-Cut p)
  where
    by_cut :
        Cut p (upload_dir p)
        → elements (rooted (upload_dir p ++ base f)) ≡ push true (base f) (elements (rooted p))
    by_cut (q, e, same) =
        rw (e, append_assoc q (slash ∷ []) (base f))
          (rooted-push q (base f) n ∙ ap (push true (base f)) same)

target-slash :
    (p f : Bytes) → base f ≡ slash ∷ [] → elements (rooted (target p f)) ≡ elements (rooted p)
unfolding target Cut
target-slash p f h = by_cut (upload_dir-Cut p)
  where
    by_cut : Cut p (upload_dir p) → elements (rooted (upload_dir p ++ base f)) ≡ elements (rooted p)
    by_cut (q, e, same) = rw (e, h) (rooted_trailing (q ++ slash ∷ []) ∙ rooted_trailing q ∙ same)

-- Wherever the browser says that a file lies, its path keeps its last name only: it lands in the directory
-- of the query under that name; but the name .. leads to the directory above, and the name . or a bare
-- slash to the directory itself.
pub target_lem : (p f : Bytes) → f ≢ [] → Lands p f
target_lem p f h = elim (base-Element_or_slash f h) [
  | inl sl ↦ inr (inr (inr sl, target-slash p f sl))
  | inr el ↦ named el (Bool-cases (str_eq (base f) dot)) (Bool-cases (str_eq (base f) dot_dot))
]
  where
    differs : (s : Bytes) → str_eq (base f) s ≡ false → base f ≢ s
    differs s e q = ground (arith, str_eq_iff (base f) s)

    named :
        Element (base f)
        → (str_eq (base f) dot ≡ true) ⊎ (str_eq (base f) dot ≡ false)
        → (str_eq (base f) dot_dot ≡ true) ⊎ (str_eq (base f) dot_dot ≡ false)
        → Lands p f
    named el (inl e) up =
        let same = (str_eq_iff (base f) dot).0 e in
        inr (
          inr (
            inl same,
            target-push p f el.0
                ∙ ap (λ t. push true t (elements (rooted p))) same
                ∙ push-dot (elements (rooted p)),
          ))
    named el (inr e) (inl up) =
        let same = (str_eq_iff (base f) dot_dot).0 up in
        inr (
          inl (
            same,
            target-push p f el.0
                ∙ ap (λ t. push true t (elements (rooted p))) same
                ∙ push-dot_dot (elements (rooted p)) (rooted-Name p),
          ))
    named el (inr e) (inr up) =
        let n : Name (base f) = (el, differs dot e, differs dot_dot up) in
        inl (n, target-push p f el.0 ∙ push-Name_kept true (base f) (elements (rooted p)) n)

-- The loop has put all, and counted them with those before, or it stopped with an error.
abbrev Outcome : ℕ → List Bytes → Uploaded × List Bytes → Type 0
Outcome n ts r =
    ((r.0 ≡ uploaded (n + length r.1)) × (r.1 ≡ ts))
    ⊎ ((left : List Bytes) × (ts ≡ r.1 ++ left) × ((m : ℕ) → r.0 ≢ uploaded m))

put-Outcome :
    (n : ℕ) (t : Bytes) (ts : List Bytes) (o : Option Failure) (r : Uploaded × List Bytes)
    → Outcome (suc n) ts r
    → Outcome n (t ∷ ts) (and_put t (after_put o r))
put-Outcome n t ts none r (inl (e, g)) = inl (e ∙ ap uploaded (omega arith), ap (◌∷◌ t) g)
put-Outcome n t ts none r (inr (left, e, g)) = inr (left, ap (◌∷◌ t) e, g)
put-Outcome n t ts (some x) r h = inr (ts, refl, λ m q. cc)

either-Outcome :
    (b : Bool) (n : ℕ) (ts us : List Bytes) (r q : Uploaded × List Bytes)
    → Outcome n ts r
    → Outcome n us q
    → Outcome n (if b then ts else us) (if b then r else q)
either-Outcome true n ts us r q h k = h
either-Outcome false n ts us r q h k = k

loop-Outcome :
    (a : App) (p : Bytes) (n : ℕ) (parts : List Next)
    → Outcome n (targets p parts) (upload_loop a p n parts)
unfolding upload_loop
loop-Outcome a p n [] = inl (ap uploaded (omega arith), refl)
loop-Outcome a p n (broken ∷ parts) = inr (targets p parts, refl, λ m q. cc)
loop-Outcome a p n (part f reply ∷ parts) =
    either-Outcome (is_file f) n (target p f.file_name ∷ targets p parts) (targets p parts) _ _
      (put-Outcome n (target p f.file_name) (targets p parts)
        (upload_file a (target p f.file_name) reply) (upload_loop a p (suc n) parts)
        (loop-Outcome a p (suc n) parts))
      (loop-Outcome a p n parts)

-- The route reports the number of its uploads only if it has uploaded all files of the form in order, each
-- to its own path; otherwise it reports an error, and the files that it has tried to upload, the one that
-- failed included, are the first of them, in order.
upload_lem :
    (a : App) (p : Bytes) (parts : List Next)
    → let (r, puts) = upload a p parts in
      ((r ≡ uploaded (length puts)) × (puts ≡ targets p parts))
      ⊎ ((left : List Bytes) × (targets p parts ≡ puts ++ left) × ((m : ℕ) → r ≢ uploaded m))
unfolding upload
upload_lem a p parts = whole (loop-Outcome a p 0 parts)
  where
    whole :
        {r : Uploaded × List Bytes}
        → Outcome 0 (targets p parts) r
        → ((r.0 ≡ uploaded (length r.1)) × (r.1 ≡ targets p parts))
          ⊎ ((left : List Bytes) × (targets p parts ≡ r.1 ++ left) × ((m : ℕ) → r.0 ≢ uploaded m))
    whole (inl (e, g)) = inl (e ∙ ap uploaded (omega arith), g)
    whole (inr h) = inr h
