-- ===== src/Ownerfs/Cache/Stale.antt =====
-- How old an answer of claudy-p2p/internal/ownerfs/statcache.go can be, whatever runs at the same time.
use mathlib.Core.List.{Memᴰ}
use some_go_foolery.Base.{
  ℕ, ◌+◌, ◌-◌, ◌<◌, ◌≤◌, ◌≡◌, ◌⊎◌, inl, inr, refl, ap, sym, subst, Option, none, some, List, [],
  ◌∷◌, ◌++◌, All-append, if◌then◌else◌, arith, ltb, ltb→lt, Bool-cases, All,
}
use some_go_foolery.Base.Bytes.{Bytes}
use some_go_foolery.Base.Paths.{dir, join}
use some_go_foolery.Base.Dict.{
  Dict, lookup, insert, remove, lookup-insert_origin, lookup-remove_origin,
}
use some_go_foolery.Ownerfs.{Error, FileInfo, FileSystem}
use some_go_foolery.Ownerfs.Cache.{
  normalize, StatEntry, live_stat, CachedFs, CachedFile, invalidate, store_stat, store_listing,
  stat_cache_ttl, seed, is_full, stat_or_ask, cached_stat,
}

-- A new entry of a seeded map is that of a child.
seed_origin :
    (n k : Bytes) (t : ℕ) (cs : List FileInfo) (m : Dict StatEntry) (e : StatEntry)
    → lookup k (seed n t cs m) ≡ some e
    → ((c : FileInfo) × Memᴰ c cs
        × (k ≡ join n c.name)
        × (e ≡ record { answer = inr c; expires = t }))
      ⊎ (lookup k m ≡ some e)
unfolding seed
seed_origin n k t [] m e h = inr h
seed_origin n k t (c ∷ cs) m e h =
    elim (seed_origin n k t cs (insert (join n c.name) (record { answer = inr c; expires = t }) m) e
      h) [
        | inl (d, later, place, what) ↦ inl (d, Memᴰ.tail later, place, what)
        | inr first ↦
            elim (lookup-insert_origin (join n c.name) k (record { answer = inr c; expires = t }) e
              m first) [
                | inl (place, what) ↦ inl (c, Memᴰ.head refl, sym place, sym what)
                | inr old ↦ inr old
              ]
      ]

live_stat-some :
    (t : ℕ) (o : Option StatEntry) (e : StatEntry)
    → live_stat t o ≡ some e
    → (o ≡ some e) × (t < e.expires)
live_stat-some t none e h = cc
live_stat-some t (some d) e h = elim (Bool-cases (ltb t d.expires)) [
  | inl early ↦
      let same : some d ≡ some e = subst (λ b. (if b then some d else none) ≡ some e) early h in
      (same, subst (λ x. t < x.expires) (some_injective same) (ltb→lt t d.expires early))
  | inr late ↦ absurd (nothing (subst (λ b. (if b then some d else none) ≡ some e) late h))
]
  where
    nothing : none ≡ some e → ⊥
    nothing q = cc

    some_injective : some d ≡ some e → d ≡ e
    some_injective q = cc

module _ (fs : FileSystem) where
  open fs use {World, File, now, stat, file_readdir}

  -- The answers that wait for the second critical section of `Stat` or `Readdir`.
  pub data Asked : Type 0 where
    asked_stat : Bytes → ℕ → Error ⊎ FileInfo → Asked
    asked_listing : CachedFile fs → ℕ → List FileInfo × Option Error → Asked

  -- `past` lists the worlds in which the file system below was asked.
  pub record Run : Type 0 where
    pub cache : CachedFs fs
    pub asked : List Asked
    pub past : List World

  -- The steps of concurrent callers. An ask has looked at the clock some time before; the oldest answer
  -- that waits is stored, or goes behind the others; anything else may change the world.
  pub data Step : Type 0 where
    ask_stat : Bytes → ℕ → Step
    ask_listing : CachedFile fs → ℕ → Step
    store rotate : Step
    invalidates : Bytes → Step
    becomes : World → Step

  abbrev pub store_first : Run → List Asked → Run
  store_first r [] = r
  store_first r (asked_stat name t a ∷ rest) = record r {
    cache = (store_stat fs name t (a, r.cache.inner) r.cache).1;
    asked = rest;
  }
  store_first r (asked_listing f t a ∷ rest) = record r {
    cache = (store_listing fs f.name t (a, r.cache.inner) r.cache).1;
    asked = rest;
  }

  abbrev rotated : List Asked → List Asked
  rotated [] = []
  rotated (a ∷ rest) = rest ++ a ∷ []

  unfoldable pub step : Step → Run → Run
  step (ask_stat name ago) r = record r {
    cache = record r.cache { inner = (stat name r.cache.inner).1 };
    asked = asked_stat name (now r.cache.inner - ago) (stat name r.cache.inner).0 ∷ r.asked;
    past = r.cache.inner ∷ r.past;
  }
  step (ask_listing f ago) r = record r {
    cache = record r.cache { inner = (file_readdir 0 f.file r.cache.inner).1 };
    asked =
        asked_listing f (now r.cache.inner - ago) (file_readdir 0 f.file r.cache.inner).0 ∷ r.asked;
    past = r.cache.inner ∷ r.past;
  }
  step store r = store_first r r.asked
  step rotate r = record r { asked = rotated r.asked }
  step (invalidates p) r = record r { cache = invalidate fs p r.cache }
  step (becomes w) r = record r { cache = record r.cache { inner = w } }

  unfoldable pub steps : List Step → Run → Run
  steps [] r = r
  steps (s ∷ ss) r = steps ss (step s r)

  abbrev pub start : World → Run
  start w = record { cache = record { inner = w; stats = []; readdir = [] }; asked = []; past = [] }

  -- The world w gave this answer for the key: to a Stat, or in the listing of the directory.
  abbrev pub Gave : World → Bytes → Error ⊎ FileInfo → Type 0
  Gave w k a =
      ((name : Bytes) × (normalize name ≡ k) × ((stat name w).0 ≡ a))
      ⊎ ((f : CachedFile fs) × (c : FileInfo) × (k ≡ join (normalize f.name) c.name)
          × Memᴰ c (file_readdir 0 f.file w).0.0
          × (a ≡ inr c))

  abbrev Observed : List World → Bytes → StatEntry → Type 0
  Observed past k e =
      (w : World) × Memᴰ w past × (e.expires ≤ now w + stat_cache_ttl) × Gave w k e.answer

  abbrev Noted : List World → Asked → Type 0
  Noted past (asked_stat name t a) = (w : World) × Memᴰ w past × (t ≤ now w) × ((stat name w).0 ≡ a)
  Noted past (asked_listing f t a) =
      (w : World) × Memᴰ w past × (t ≤ now w) × ((file_readdir 0 f.file w).0 ≡ a)

  abbrev pub Inv : Run → Type 0
  Inv r =
      ((k : Bytes) (e : StatEntry) → lookup k r.cache.stats ≡ some e → Observed r.past k e)
      × All (Noted r.past) r.asked

  abbrev Sound : List World → Dict StatEntry → Type 0
  Sound past m = (k : Bytes) (e : StatEntry) → lookup k m ≡ some e → Observed past k e

  store_stat-Sound :
      (past : List World) (c : CachedFs fs) (name : Bytes) (t : ℕ) (a : Error ⊎ FileInfo)
      → Sound past c.stats
      → Noted past (asked_stat name t a)
      → Sound past (store_stat fs name t (a, c.inner) c).1.stats
  store_stat-Sound past c name t a h (w, seen, before, gave) k e found =
      elim (lookup-insert_origin (normalize name) k
        (record { answer = a; expires = t + stat_cache_ttl }) e c.stats found) [
          | inl (same, new) ↦ (
            w,
            seen,
            subst (λ d. d.expires ≤ now w + stat_cache_ttl) new (omega (arith, before)),
            subst (λ d. Gave w k d.answer) new (inl (name, same, gave)),
          )
          | inr old ↦ h k e old
        ]

  seed-Sound :
      (past : List World) (m : Dict StatEntry) (f : CachedFile fs) (t : ℕ) (w : World)
      → Sound past m
      → Memᴰ w past
      → t ≤ now w
      → Sound past (seed (normalize f.name) (t + stat_cache_ttl) (file_readdir 0 f.file w).0.0 m)
  seed-Sound past m f t w h seen before k e found =
      elim (seed_origin (normalize f.name) k (t + stat_cache_ttl) (file_readdir 0 f.file w).0.0 m e
        found) [
          | inl (c, child, place, new) ↦ (
            w,
            seen,
            subst (λ d. d.expires ≤ now w + stat_cache_ttl) (sym new) (omega (arith, before)),
            subst (λ d. Gave w k d.answer) (sym new) (inr (f, c, place, child, refl)),
          )
          | inr old ↦ h k e old
        ]

  store_listing-Sound :
      (past : List World) (c : CachedFs fs) (f : CachedFile fs) (t : ℕ)
      (a : List FileInfo × Option Error)
      → Sound past c.stats
      → Noted past (asked_listing f t a)
      → Sound past (store_listing fs f.name t (a, c.inner) c).1.stats
  store_listing-Sound past c f t (infos, e) h (w, seen, before, gave) =
      elim (Bool-cases (is_full fs e)) [
        | inl full ↦ rw full (
            subst (λ l. Sound past (seed (normalize f.name) (t + stat_cache_ttl) l c.stats))
              (ap (λ r. r.0) gave) (seed-Sound past c.stats f t w h seen before))
        | inr part ↦ rw part h
      ]

  invalidate-Sound :
      (past : List World) (p : Bytes) (c : CachedFs fs)
      → Sound past c.stats
      → Sound past (invalidate fs p c).stats
  unfolding invalidate
  invalidate-Sound past p c h k e found = h k e (
      lookup-remove_origin (normalize p) k e c.stats
        (lookup-remove_origin (dir (normalize p)) k e (remove (normalize p) c.stats) found))

  later-Sound :
      (w : World) (past : List World) (m : Dict StatEntry) → Sound past m → Sound (w ∷ past) m
  later-Sound w past m h k e found =
      let (v, seen, early, gave) = h k e found in (v, Memᴰ.tail seen, early, gave)

  later-Noted :
      (w : World) (past : List World) (l : List Asked)
      → All (Noted past) l
      → All (Noted (w ∷ past)) l
  later-Noted w past [] n = tt
  later-Noted w past (asked_stat name t a ∷ l) ((v, seen, early, gave), ns) =
      ((v, Memᴰ.tail seen, early, gave), later-Noted w past l ns)
  later-Noted w past (asked_listing f t a ∷ l) ((v, seen, early, gave), ns) =
      ((v, Memᴰ.tail seen, early, gave), later-Noted w past l ns)

  store_first-Inv :
      (l : List Asked) (r : Run) → All (Noted r.past) l → Inv r → Inv (store_first r l)
  store_first-Inv [] r n h = h
  store_first-Inv (asked_stat name t a ∷ l) r (n, ns) (h, hs) =
      (store_stat-Sound r.past r.cache name t a h n, ns)
  store_first-Inv (asked_listing f t a ∷ l) r (n, ns) (h, hs) =
      (store_listing-Sound r.past r.cache f t a h n, ns)

  step-Inv : (s : Step) (r : Run) → Inv r → Inv (step s r)
  unfolding step
  step-Inv (ask_stat name ago) r (h, n) = (
    later-Sound _ _ _ h,
    ((r.cache.inner, Memᴰ.head refl, omega arith, refl), later-Noted _ _ r.asked n),
  )
  step-Inv (ask_listing f ago) r (h, n) = (
    later-Sound _ _ _ h,
    ((r.cache.inner, Memᴰ.head refl, omega arith, refl), later-Noted _ _ r.asked n),
  )
  step-Inv store r (h, n) = store_first-Inv r.asked r n (h, n)
  step-Inv rotate r (h, n) = (h, rotate-Noted r.asked n)
    where
      rotate-Noted : (l : List Asked) → All (Noted r.past) l → All (Noted r.past) (rotated l)
      rotate-Noted [] k = k
      rotate-Noted (a ∷ l) (k, ks) = All-append (Noted r.past) l (a ∷ []) ks (k, tt)
  step-Inv (invalidates p) r (h, n) = (invalidate-Sound r.past p r.cache h, n)
  step-Inv (becomes w) r (h, n) = (h, n)

  steps-Inv : (ss : List Step) (r : Run) → Inv r → Inv (steps ss r)
  unfolding steps
  steps-Inv [] r h = h
  steps-Inv (s ∷ ss) r h = steps-Inv ss (step s r) (step-Inv s r h)

  start-Inv : (w : World) → Inv (start w)
  unfolding lookup
  start-Inv w = (λ k e h. absurd (nothing e h), tt)
    where
      nothing : (e : StatEntry) → none ≡ some e → ⊥
      nothing e h = cc

  -- However the callers interleave and the world changes: what the cache answers to a Stat is what the
  -- file system below answers at that time, or what it gave for the key, to a Stat or in the listing of the
  -- directory, less than 250 milliseconds ago.
  pub hits_are_recent :
      (ss : List Step) (w : World) (name : Bytes)
      → let r = steps ss (start w) in
        let a = (cached_stat fs name r.cache).0 in
        (a ≡ (stat name r.cache.inner).0)
        ⊎ ((v : World) × Memᴰ v r.past
            × (now r.cache.inner < now v + stat_cache_ttl)
            × Gave v (normalize name) a)
  unfolding cached_stat
  hits_are_recent ss w name =
      go (live_stat (now r.cache.inner) (lookup (normalize name) r.cache.stats)) refl
    where
      r : Run
      r = steps ss (start w)

      go :
          (o : Option StatEntry)
          → live_stat (now r.cache.inner) (lookup (normalize name) r.cache.stats) ≡ o
          → let a = (stat_or_ask fs name r.cache o).0 in
            (a ≡ (stat name r.cache.inner).0)
            ⊎ ((v : World) × Memᴰ v r.past
                × (now r.cache.inner < now v + stat_cache_ttl)
                × Gave v (normalize name) a)
      go none hit = inl refl
      go (some e) hit =
          let (found, early) =
            live_stat-some (now r.cache.inner) (lookup (normalize name) r.cache.stats) e hit in
          let (v, seen, bound, gave) =
            (steps-Inv ss (start w) (start-Inv w)).0 (normalize name) e found in
          inr (v, seen, omega (arith, early, bound), gave)
