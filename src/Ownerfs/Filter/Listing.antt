-- ===== src/Ownerfs/Filter/Listing.antt =====
-- What a listing through the filter of claudy-p2p/internal/ownerfs/filter.go shows.
use some_go_foolery.Base.{
  ◌≡◌, ◌≢◌, inl, inr, ap, sym, ◌∙◌, false, List, [], ◌∷◌, ◌++◌, All, Bool-cases,
}
use mathlib.Core.List.{Memᴰ}
use some_go_foolery.Base.Bytes.{Bytes}
use some_go_foolery.Base.Paths.{slash}
use some_go_foolery.Base.Elements.{Name}
use some_go_foolery.Ownerfs.{FileInfo}
use some_go_foolery.Ownerfs.Filter.{is_junk, kept, is_junk-append, is_junk-Name}

-- What a viewer may ask for below a directory.
abbrev Visible : Bytes → FileInfo → Type 0
Visible d e = is_junk (d ++ slash ∷ e.name) ≡ false

visible_iff :
    (d : Bytes) (e : FileInfo)
    → d ≢ []
    → Name e.name
    → is_junk e.name ≡ is_junk (d ++ slash ∷ e.name)
visible_iff d e h n = is_junk-Name e.name n ∙ sym (is_junk-append d e.name h n).0

kept-Visible :
    (d : Bytes) (entries : List FileInfo)
    → d ≢ []
    → All (λ e. Name e.name) entries
    → All (Visible d) (kept entries)
unfolding kept
kept-Visible d [] h n = tt
kept-Visible d (e ∷ es) h (n, ns) = elim (Bool-cases (is_junk e.name)) [
  | inl junk ↦ rw junk (kept-Visible d es h ns)
  | inr clear ↦ rw clear (sym (visible_iff d e h n) ∙ clear, kept-Visible d es h ns)
]

kept-Mem :
    (d : Bytes) (i : FileInfo) (entries : List FileInfo)
    → d ≢ []
    → All (λ e. Name e.name) entries
    → Memᴰ i entries
    → Visible d i
    → Memᴰ i (kept entries)
unfolding kept
kept-Mem d i [] h n m v = elim m [ ]
kept-Mem d i (e ∷ es) h (n, ns) (Memᴰ.head same) v =
    let clear : is_junk e.name ≡ false =
      visible_iff d e h n ∙ ap (λ j. is_junk (d ++ slash ∷ j.name)) (sym same) ∙ v in
    rw clear (Memᴰ.head same)
kept-Mem d i (e ∷ es) h (n, ns) (Memᴰ.tail m) v = elim (Bool-cases (is_junk e.name)) [
  | inl junk ↦ rw junk (kept-Mem d i es h ns m v)
  | inr clear ↦ rw clear (Memᴰ.tail (kept-Mem d i es h ns m v))
]

-- Where the entries of a directory have proper names, its listing through the filter shows those that a
-- call on the path below the directory can reach, all of them and no other.
kept_lem :
    (d : Bytes) (entries : List FileInfo)
    → d ≢ []
    → All (λ e. Name e.name) entries
    → All (Visible d) (kept entries)
      × ((i : FileInfo) → Memᴰ i entries → Visible d i → Memᴰ i (kept entries))
kept_lem d entries h n = (kept-Visible d entries h n, λ i. kept-Mem d i entries h n)
