-- ===== src/Claudy/Mounts/Drives.antt =====
-- Which network drives claudy-p2p/cmd/claudy/main.go deletes before it mounts on Windows.
use some_go_foolery.Base.{
  ◌≡◌, ◌⊎◌, ◌↔◌, inl, inr, refl, sym, ap, ◌∙◌, subst, Bool, true, false, Option, none, some, List,
  [], ◌∷◌, if◌then◌else◌,
}
use some_go_foolery.Base.Bytes.{Bytes, bytes, contains}
use some_go_foolery.Claudy.Mounts.{
  fields, split_lines, is_drive, find_drive, cons_drive, stale_in, stale_drives,
}

abbrev pub In : Bytes → List Bytes → Type 0
In a [] = ⊥
In a (x ∷ xs) = (a ≡ x) ⊎ In a xs

find_drive-In :
    (ws : List Bytes) (d : Bytes) → find_drive ws ≡ some d → In d ws × (is_drive d ≡ true)
find_drive-In [] d h = cc
find_drive-In (w ∷ ws) d h = by_test (is_drive w) refl (find_drive-In ws d) h
  where
    same : some w ≡ some d → w ≡ d
    same q = cc

    by_test :
        (b : Bool)
        → is_drive w ≡ b
        → (find_drive ws ≡ some d → In d ws × (is_drive d ≡ true))
        → (if b then some w else find_drive ws) ≡ some d
        → In d (w ∷ ws) × (is_drive d ≡ true)
    by_test true e later q = (inl (sym (same q)), ap is_drive (sym (same q)) ∙ e)
    by_test false e later q = let r = later q in (inr r.0, r.1)

abbrev is_local : Bytes → Bool
is_local line = contains line (bytes "127.0.0.1")

-- The line that makes a drive a stale one.
abbrev pub Names : Bytes → List Bytes → Bytes → Type 0
Names d lines line = In line lines × (is_local line ≡ true) × (find_drive (fields line) ≡ some d)

later_line : (d line l : Bytes) (lines : List Bytes) → Names d lines line → Names d (l ∷ lines) line
later_line d line l lines (i, e, f) = (inr i, e, f)

sound :
    (lines : List Bytes) (d : Bytes) → In d (stale_in lines) → (line : Bytes) × Names d lines line
sound [] d h = absurd h
sound (l ∷ lines) d h =
    by_test (is_local l) (find_drive (fields l)) refl refl (below (sound lines d)) h
  where
    below :
        (In d (stale_in lines) → (line : Bytes) × Names d lines line)
        → In d (stale_in lines)
        → (line : Bytes) × Names d (l ∷ lines) line
    below later i = let r = later i in (r.0, later_line d r.0 l lines r.1)

    by_test :
        (b : Bool) (o : Option Bytes)
        → is_local l ≡ b
        → find_drive (fields l) ≡ o
        → (In d (stale_in lines) → (line : Bytes) × Names d (l ∷ lines) line)
        → In d (if b then cons_drive o (stale_in lines) else stale_in lines)
        → (line : Bytes) × Names d (l ∷ lines) line
    by_test false o e f later i = later i
    by_test true none e f later i = later i
    by_test true (some x) e f later (inl same) = (l, (inl refl, e, f ∙ ap some (sym same)))
    by_test true (some x) e f later (inr i) = later i

complete : (lines : List Bytes) (d line : Bytes) → Names d lines line → In d (stale_in lines)
complete [] d line h = absurd h.0
complete (l ∷ lines) d line (inl same, e, f) =
    rw
      (
        subst (λ (t : Bytes). is_local t ≡ true) same e,
        subst (λ t. find_drive (fields t) ≡ some d) same f,
      )
      (inl refl)
complete (l ∷ lines) d line (inr i, e, f) =
    kept (is_local l) (find_drive (fields l)) (complete lines d line (i, e, f))
  where
    kept :
        (b : Bool) (o : Option Bytes)
        → In d (stale_in lines)
        → In d (if b then cons_drive o (stale_in lines) else stale_in lines)
    kept false o k = k
    kept true none k = k
    kept true (some x) k = inr k

-- A drive is deleted exactly if it is the first drive letter on a line of the output that has 127.0.0.1 in
-- it; and what is deleted is a letter and a colon, a word of that line.
stale_drives_lem :
    (out d : Bytes)
    → (In d (stale_drives out) ↔ ((line : Bytes) × Names d (split_lines out) line))
      × ((line : Bytes) → Names d (split_lines out) line → In d (fields line) × (is_drive d ≡ true))
unfolding stale_drives
stale_drives_lem out d = (
  (sound (split_lines out) d, λ r. complete (split_lines out) d r.0 r.1),
  λ line n. find_drive-In (fields line) d n.2,
)
