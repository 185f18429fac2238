-- ===== src/Ownerfs/ShareDelete/Escape.antt =====
-- Where claudy-p2p/internal/ownerfs/share_delete_windows.go resolves a name.
use some_go_foolery.Base.{
  ℕ, ◌≡◌, ◌≢◌, refl, sym, ap, subst, ◌∙◌, ◌⊎◌, inl, inr, if_cases, Bool-cases, Bool, true, false,
  ◌||◌, some, List, [], ◌∷◌, ◌++◌, ==_iff, All, length, length-append, arith,
}
use some_go_foolery.Base.Bytes.{Bytes, str_eq}
use some_go_foolery.Base.Paths.{
  slash, dot, dot_dot, split, push, push_all, is_rooted, print, elements, join, clean, join_rev,
  split-append, split_element,
}
use some_go_foolery.Base.Elements.{Name, push-Name_kept, unequal, is_rooted-append}
use some_go_foolery.Base.Rooted.{push-dot_dot, elements_rooted-Name}
use some_go_foolery.Ownerfs.ShareDelete.{backslash, has_byte, slash_clean, root_or_dot, resolve}

push_all-join :
    (rooted : Bool) (l m kept : List Bytes)
    → push_all rooted (l ++ m) kept ≡ push_all rooted m (push_all rooted l kept)
push_all-join rooted [] m kept = refl
push_all-join rooted (s ∷ l) m kept = push_all-join rooted l m (push rooted s kept)

root_or_dot-some : (root : Bytes) → root_or_dot root ≢ []
root_or_dot-some [] = λ q. cc
root_or_dot-some (c ∷ s) = λ q. cc

-- The elements of a name are steps from the root, those that lead up included.
join_steps :
    (root name : Bytes)
    → root ≢ []
    → join root name
      ≡ print (is_rooted root) (push_all (is_rooted root) (split name) (elements root))
unfolding join clean elements
join_steps root name h =
    rw
      (
        is_rooted-append root (slash ∷ name) h,
        split-append root name,
        push_all-join (is_rooted root) (split root) (split name) [],
      )
      refl

resolved :
    (root name : Bytes)
    → has_byte backslash name ≡ false
    → has_byte 0 name ≡ false
    → let r = root_or_dot root in
      resolve root name
      ≡ some (print (is_rooted r) (push_all (is_rooted r) (split (slash_clean name)) (elements r)))
unfolding resolve
resolved root name b z =
    rw (b, z) (ap some (join_steps (root_or_dot root) (slash_clean name) (root_or_dot-some root)))

resolved_rooted :
    (root name : Bytes)
    → is_rooted root ≡ true
    → has_byte backslash name ≡ false
    → has_byte 0 name ≡ false
    → resolve root name
      ≡ some (print true (push_all true (split (slash_clean name)) (elements root)))
resolved_rooted [] name h b z = cc
resolved_rooted (c ∷ s) name h b z =
    subst
      (λ r.
        resolve (c ∷ s) name
        ≡ some (print r (push_all r (split (slash_clean name)) (elements (c ∷ s)))))
      h (resolved (c ∷ s) name b z)

push-nil : (kept : List Bytes) → push true [] kept ≡ kept
unfolding str_eq
push-nil [] = refl
push-nil (t ∷ ts) = refl

rooted-names : (root : Bytes) → is_rooted root ≡ true → All Name (elements root)
rooted-names [] h = cc
rooted-names (c ∷ s) h =
    subst (λ (d : ℕ). All Name (elements (d ∷ s))) (sym ((==_iff c slash).0 h))
      (elements_rooted-Name s)

-- A path with these elements lies in the directory with those, or is it; the last element is first.
abbrev pub Below : List Bytes → List Bytes → Type 0
Below above l = (more : List Bytes) × (l ≡ more ++ above)

push-steps :
    (rooted : Bool) (s : Bytes) (kept : List Bytes)
    → s ≢ dot_dot
    → (push rooted s kept ≡ kept) ⊎ (push rooted s kept ≡ s ∷ kept)
push-steps rooted s kept h = elim (Bool-cases (str_eq s [] || str_eq s dot)) [
  | inl skip ↦ inl (skipped kept skip)
  | inr keep ↦ inr (added kept keep (unequal s dot_dot h))
]
  where
    skipped : (kept : List Bytes) → (str_eq s [] || str_eq s dot) ≡ true → push rooted s kept ≡ kept
    skipped [] q = rw q refl
    skipped (t ∷ ts) q = rw q refl

    added :
        (kept : List Bytes)
        → (str_eq s [] || str_eq s dot) ≡ false
        → str_eq s dot_dot ≡ false
        → push rooted s kept ≡ s ∷ kept
    added [] q r = rw (q, r) refl
    added (t ∷ ts) q r = rw (q, r) refl

push-Below :
    (rooted : Bool) (s : Bytes) (above kept : List Bytes)
    → s ≢ dot_dot
    → Below above kept
    → Below above (push rooted s kept)
push-Below rooted s above kept h (more, e) = elim (push-steps rooted s kept h) [
  | inl same ↦ (more, same ∙ e)
  | inr longer ↦ (s ∷ more, longer ∙ ap (◌∷◌ s) e)
]

push_all-Below :
    (rooted : Bool) (l above kept : List Bytes)
    → All (λ s. s ≢ dot_dot) l
    → Below above kept
    → Below above (push_all rooted l kept)
push_all-Below rooted [] above kept h k = k
push_all-Below rooted (s ∷ l) above kept (h, hs) k =
    push_all-Below rooted l above (push rooted s kept) hs (push-Below rooted s above kept h k)

rooted_plain :
    (name : Bytes)
    → All (λ s. s ≢ dot_dot) (split name)
    → All (λ s. s ≢ dot_dot) (split (slash ∷ name))
unfolding split
rooted_plain name h = ((λ q. cc), h)

clean_plain :
    (name : Bytes)
    → All (λ s. s ≢ dot_dot) (split name)
    → All (λ s. s ≢ dot_dot) (split (slash_clean name))
unfolding slash_clean
clean_plain name h =
    if_cases (λ (t : Bytes). All (λ s. s ≢ dot_dot) (split t)) (is_rooted name) name (slash ∷ name)
      (λ q. h) (λ q. rooted_plain name h)

-- Whatever the root, the empty one for the working directory included: a name with no backslash, no zero
-- byte and no .. between its slashes resolves to a path in the directory that is served, or to that.
pub resolve_inside :
    (root name : Bytes)
    → has_byte backslash name ≡ false
    → has_byte 0 name ≡ false
    → All (λ s. s ≢ dot_dot) (split name)
    → let r = root_or_dot root in
      (more : List Bytes) × (resolve root name ≡ some (print (is_rooted r) (more ++ elements r)))
resolve_inside root name b z plain =
    let r = root_or_dot root in
    let (more, e) =
      push_all-Below (is_rooted r) (split (slash_clean name)) (elements r) (elements r)
        (clean_plain name plain) ([], refl) in
    (more, resolved root name b z ∙ ap (λ l. some (print (is_rooted r) l)) e)

beside-Below : (n e : Bytes) (es : List Bytes) → n ≢ e → ¬ Below (e ∷ es) (n ∷ es)
beside-Below n e es h ([], q) = h (ap (head_or n) q)
  where
    head_or : Bytes → List Bytes → Bytes
    head_or d [] = d
    head_or d (s ∷ l) = s
beside-Below n e es h (m ∷ more, q) =
    let longer = length-append (m ∷ more) (e ∷ es) in
    let same = ap length q in absurd (omega (arith, longer, same))

beside_dot :
    (n : Bytes)
    → Name n
    → some (print false (push_all false (split (slash ∷ dot_dot ++ slash ∷ n)) (elements dot)))
      ≡ some (dot_dot ++ slash ∷ n)
unfolding elements str_eq join_rev split
beside_dot n plain =
    rw (split_element n plain.0.0)
      (ap (λ l. some (print false l)) (push-Name_kept false n (dot_dot ∷ []) plain))

-- The name /../n, where n is a plain name with no backslash and no zero byte, is not cut off at the root.
-- Where the root is an absolute path with a last element, and that is not n, it resolves to n in the
-- directory above, which does not lie in the directory that is served; where the root is ., the default,
-- it resolves to ../n.
pub resolve_escapes :
    (root n e : Bytes) (es : List Bytes)
    → is_rooted root ≡ true
    → elements root ≡ e ∷ es
    → Name n
    → n ≢ e
    → has_byte backslash n ≡ false
    → has_byte 0 n ≡ false
    → let name = slash ∷ dot_dot ++ slash ∷ n in
      (resolve root name ≡ some (print true (n ∷ es)))
      × (¬ Below (e ∷ es) (n ∷ es))
      × (resolve dot name ≡ some (dot_dot ++ slash ∷ n))
unfolding slash_clean split
resolve_escapes root n e es h last plain apart b z = (
  resolved_rooted root (slash ∷ dot_dot ++ slash ∷ n) h b z ∙ ap (λ l. some (print true l)) above,
  beside-Below n e es apart,
  resolved dot (slash ∷ dot_dot ++ slash ∷ n) b z ∙ beside_dot n plain,
)
  where
    above :
        push_all true (split (slash_clean (slash ∷ dot_dot ++ slash ∷ n))) (elements root) ≡ n ∷ es
    above =
        rw
          (
            split_element n plain.0.0,
            push-nil (elements root),
            push-dot_dot (elements root) (rooted-names root h),
            last,
          )
          (push-Name_kept true n es plain)
