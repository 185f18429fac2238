-- ===== src/Ownerfs/Cache/Fresh.antt =====
-- What a change through the cache of claudy-p2p/internal/ownerfs/statcache.go makes it forget.
use some_go_foolery.Base.{
  ℕ, ◌≡◌, ◌⊎◌, refl, ◌∙◌, true, none, some, if◌then◌else◌, arith, inl, inr, lt→ltb, ◌<◌,
}
use some_go_foolery.Base.Bytes.{Bytes, str_eq, str_eq_iff}
use some_go_foolery.Base.Paths.{dir}
use some_go_foolery.Base.Dict.{lookup, remove, lookup-remove}
use some_go_foolery.Ownerfs.{FileSystem}
use some_go_foolery.Ownerfs.Cache.{
  normalize, StatEntry, live_stat, CachedFs, CachedFile, invalidate, cached_mkdir,
  cached_remove_all, cached_rename, cached_close, cached_stat,
}

module _ (fs : FileSystem) where
  open fs use {World, now, mkdir, remove_all, rename, stat, file_close}

  -- The answer to a `Stat` comes from the file system below as it is at the time.
  abbrev pub Asks : Bytes → CachedFs fs → Type 0
  Asks name c = (cached_stat fs name c).0 ≡ (stat name c.inner).0

  asks : (name : Bytes) (c : CachedFs fs) → lookup (normalize name) c.stats ≡ none → Asks name c
  unfolding cached_stat
  asks name c h = rw h refl

  lookup-invalidate :
      (p k : Bytes) (c : CachedFs fs)
      → lookup k (invalidate fs p c).stats ≡ (
          if str_eq (dir (normalize p)) k
          then none
          else if str_eq (normalize p) k
          then none
          else lookup k c.stats)
  unfolding invalidate
  lookup-invalidate p k c =
      rw
        (
          lookup-remove (dir (normalize p)) k (remove (normalize p) c.stats),
          lookup-remove (normalize p) k c.stats,
        )
        refl

  -- The keys that a change of p makes stale: its own, and that of its directory.
  abbrev pub Touched : Bytes → Bytes → Type 0
  Touched p name = (normalize name ≡ normalize p) ⊎ (normalize name ≡ dir (normalize p))

  touched_none :
      (p k : Bytes) (c : CachedFs fs)
      → (k ≡ normalize p) ⊎ (k ≡ dir (normalize p)) ⊎ (lookup k c.stats ≡ none)
      → lookup k (invalidate fs p c).stats ≡ none
  touched_none p k c t =
      lookup-invalidate p k c
      ∙ ground (arith, str_eq_iff (dir (normalize p)) k, str_eq_iff (normalize p) k)

  -- After a Mkdir, a RemoveAll, a Rename, or the Close of a writable file, a Stat of a name with the
  -- same key as the path, or as its directory, asks the file system below, whatever was cached.
  pub changes_are_seen :
      (p q name : Bytes) (perm : ℕ) (f : CachedFile fs) (c : CachedFs fs)
      → Touched p name
      → Asks name (cached_mkdir fs p perm c).1
        × Asks name (cached_remove_all fs p c).1
        × Asks name (cached_rename fs p q c).1
        × Asks name (cached_rename fs q p c).1
        × (f.name ≡ p → f.writable ≡ true → Asks name (cached_close fs f c).1)
  unfolding cached_mkdir cached_remove_all cached_rename cached_close
  changes_are_seen p q name perm f c t = (
    asks name _ (touched_none p (normalize name) _ (own t)),
    asks name _ (touched_none p (normalize name) _ (own t)),
    asks name _
        (touched_none q (normalize name) _ (inr (inr (touched_none p (normalize name) _ (own t))))),
    asks name _ (touched_none p (normalize name) _ (own t)),
    λ e writable. rw (writable, e) (asks name _ (touched_none p (normalize name) _ (own t))),
  )
    where
      own :
          {P : Type 0}
          → Touched p name
          → (normalize name ≡ normalize p) ⊎ (normalize name ≡ dir (normalize p)) ⊎ P
      own (inl e) = inl e
      own (inr e) = inr (inl e)

  inner-remove_all :
      (p : Bytes) (c : CachedFs fs)
      → now (cached_remove_all fs p c).1.inner ≡ now (remove_all p c.inner).1
  unfolding cached_remove_all invalidate
  inner-remove_all p c = refl

  -- A RemoveAll leaves every other entry alone: a Stat of a name with another key, such as a file in the
  -- directory that is gone, still gets the cached answer while its time lasts.
  others_survive :
      (p name : Bytes) (e : StatEntry) (c : CachedFs fs)
      → ¬ Touched p name
      → lookup (normalize name) c.stats ≡ some e
      → now (remove_all p c.inner).1 < e.expires
      → (cached_stat fs name (cached_remove_all fs p c).1).0 ≡ e.answer
  unfolding cached_remove_all cached_stat
  others_survive p name e c apart h early =
      let found : lookup (normalize name) (cached_remove_all fs p c).1.stats ≡ some e =
        lookup-invalidate p (normalize name) _
        ∙ ground (
          arith,
          str_eq_iff (dir (normalize p)) (normalize name),
          str_eq_iff (normalize p) (normalize name),
        ) in
      rw (found, still (now (cached_remove_all fs p c).1.inner) (inner-remove_all p c)) refl
    where
      still : (t : ℕ) → t ≡ now (remove_all p c.inner).1 → live_stat t (some e) ≡ some e
      still t same = rw (same, lt→ltb _ _ early) refl
