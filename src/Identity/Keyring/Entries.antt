-- ===== src/Identity/Keyring/Entries.antt =====
-- The list of entries of claudy-p2p/internal/identity/keyring.go, and the map that is loaded from it.
use some_go_foolery.Base.{
  ◌≡◌, refl, ap, ◌∙◌, Bool, true, false, Option, none, some, List, [], ◌∷◌, arith, if◌then◌else◌,
}
use some_go_foolery.Base.Bytes.{Bytes, str_eq, str_eq_iff}
use some_go_foolery.Base.Dict.{Dict, lookup, insert, remove, lookup-insert, lookup-remove}
use some_go_foolery.Identity.Keyring.{
  KnownPeer, str_lt, insert_sorted, sort, values, list, load, read_back, read_all,
}
use some_go_foolery.Identity.Utf8.{Plain, str_eq-coerce}

-- Each alias is not above the next.
abbrev IsSorted : List KnownPeer → Type 0
IsSorted [] = Unit
IsSorted (e ∷ []) = Unit
IsSorted (e ∷ f ∷ fs) = (str_lt f.alias e.alias ≡ false) × IsSorted (f ∷ fs)

str_lt_asymm : (s t : Bytes) → str_lt s t ≡ true → str_lt t s ≡ false
unfolding str_lt
str_lt_asymm [] [] h = refl
str_lt_asymm [] (y ∷ ys) h = refl
str_lt_asymm (x ∷ xs) [] h = cc
str_lt_asymm (x ∷ xs) (y ∷ ys) h = ground (arith, str_lt_asymm xs ys)

insert_sorted-IsSorted :
    (e : KnownPeer) (es : List KnownPeer) → IsSorted es → IsSorted (insert_sorted e es)
unfolding insert_sorted
insert_sorted-IsSorted e [] h = tt
insert_sorted-IsSorted e (f ∷ []) h = ground (arith, str_lt_asymm e.alias f.alias)
insert_sorted-IsSorted e (f ∷ g ∷ gs) h = ground (
  arith,
  str_lt_asymm e.alias f.alias,
  str_lt_asymm e.alias g.alias,
  insert_sorted-IsSorted e (g ∷ gs) h.1,
)

sort-IsSorted : (es : List KnownPeer) → IsSorted (sort es)
unfolding sort
sort-IsSorted [] = tt
sort-IsSorted (e ∷ es) = insert_sorted-IsSorted e (sort es) (sort-IsSorted es)

-- The last entry for an alias.
abbrev or_else : Option KnownPeer → Option KnownPeer → Option KnownPeer
or_else (some e) o = some e
or_else none o = o

abbrev last_entry : Bytes → List KnownPeer → Option KnownPeer
last_entry a [] = none
last_entry a (e ∷ es) = or_else (last_entry a es) (if str_eq e.alias a then some e else none)

lookup-load :
    (a : Bytes) (m : Dict KnownPeer) (es : List KnownPeer)
    → lookup a (load m es) ≡ or_else (last_entry a es) (lookup a m)
unfolding load
lookup-load a m [] = refl
lookup-load a m (e ∷ es) =
    ground (arith, lookup-load a (insert e.alias e m) es, lookup-insert e.alias a e m)

-- No two entries share an alias.
abbrev Distinct : List KnownPeer → Type 0
Distinct [] = Unit
Distinct (e ∷ es) = (last_entry e.alias es ≡ none) × Distinct es

last_entry-insert_sorted :
    (a : Bytes) (e : KnownPeer) (es : List KnownPeer)
    → last_entry e.alias es ≡ none
    → last_entry a (insert_sorted e es) ≡ (if str_eq e.alias a then some e else last_entry a es)
unfolding insert_sorted
last_entry-insert_sorted a e [] h = refl
last_entry-insert_sorted a e (f ∷ fs) h = ground (
  arith,
  str_eq_iff e.alias a,
  str_eq_iff f.alias a,
  str_eq_iff f.alias e.alias,
  last_entry-insert_sorted a e fs,
)

last_entry-sort :
    (a : Bytes) (es : List KnownPeer) → Distinct es → last_entry a (sort es) ≡ last_entry a es
unfolding sort
last_entry-sort a [] h = refl
last_entry-sort a (e ∷ es) h = ground (
  arith,
  last_entry-insert_sorted a e (sort es),
  last_entry-sort a es h.1,
  last_entry-sort e.alias es h.1,
  str_eq_iff e.alias a,
)

-- Every key of the map is the alias of its entry, and stands once.
abbrev pub Keyed : Dict KnownPeer → Type 0
Keyed [] = Unit
Keyed ((k, e) ∷ m) = (e.alias ≡ k) × (lookup k m ≡ none) × Keyed m

last_entry-values :
    (a : Bytes) (m : Dict KnownPeer) → Keyed m → last_entry a (values m) ≡ lookup a m
unfolding lookup
last_entry-values a [] h = refl
last_entry-values a ((k, e) ∷ m) h =
    ground (arith, last_entry-values a m h.2, str_eq_iff e.alias a, str_eq_iff k a)

Distinct-values : (m : Dict KnownPeer) → Keyed m → Distinct (values m)
unfolding lookup
Distinct-values [] h = tt
Distinct-values ((k, e) ∷ m) h = ground (arith, last_entry-values k m h.2, Distinct-values m h.2)

abbrev pub read_option : Option KnownPeer → Option KnownPeer
read_option none = none
read_option (some e) = some (read_back e)

or_else-read_option :
    (o q : Option KnownPeer) → or_else (read_option o) (read_option q) ≡ read_option (or_else o q)
or_else-read_option none q = refl
or_else-read_option (some e) q = refl

last_entry-read_all :
    (a : Bytes) (es : List KnownPeer)
    → Plain a
    → last_entry a (read_all es) ≡ read_option (last_entry a es)
last_entry-read_all a [] h = refl
last_entry-read_all a (e ∷ es) h =
    rw (last_entry-read_all a es h, str_eq-coerce e.alias a h)
      (go (str_eq e.alias a) ∙ or_else-read_option (last_entry a es) _)
  where
    go :
        (b : Bool)
        → or_else (read_option (last_entry a es)) (if b then some (read_back e) else none)
          ≡ or_else (read_option (last_entry a es)) (read_option (if b then some e else none))
    go true = refl
    go false = refl

-- Opening what a save has written gives a map with the entry as it was read back for every plain alias.
pub lookup-load-list :
    (a : Bytes) (m : Dict KnownPeer)
    → Keyed m
    → Plain a
    → lookup a (load [] (read_all (list m))) ≡ read_option (lookup a m)
unfolding list lookup
lookup-load-list a m h plain =
    lookup-load a [] (read_all (sort (values m)))
    ∙ nothing (last_entry a (read_all (sort (values m))))
    ∙ last_entry-read_all a (sort (values m)) plain
    ∙ ap read_option (last_entry-sort a (values m) (Distinct-values m h) ∙ last_entry-values a m h)
  where
    nothing : (o : Option KnownPeer) → or_else o none ≡ o
    nothing none = refl
    nothing (some e) = refl

pub insert-Keyed :
    (a : Bytes) (e : KnownPeer) (m : Dict KnownPeer) → e.alias ≡ a → Keyed m → Keyed (insert a e m)
unfolding insert
insert-Keyed a e [] n h = (n, unfold lookup in refl, tt)
insert-Keyed a e ((k, f) ∷ m) n h =
    ground (arith, insert-Keyed a e m n h.2, lookup-insert a k e m, str_eq_iff k a, str_eq_iff a k)

pub remove-Keyed : (a : Bytes) (m : Dict KnownPeer) → Keyed m → Keyed (remove a m)
unfolding remove
remove-Keyed a [] h = tt
remove-Keyed a ((k, f) ∷ m) h = ground (arith, remove-Keyed a m h.2, lookup-remove a k m)

pub load-Keyed : (m : Dict KnownPeer) (es : List KnownPeer) → Keyed m → Keyed (load m es)
unfolding load
load-Keyed m [] h = h
load-Keyed m (e ∷ es) h = load-Keyed (insert e.alias e m) es (insert-Keyed e.alias e m refl h)
