-- ===== src/Ownerfs/Cache/Runs.antt =====
-- Whole runs of a client over the cache of claudy-p2p/internal/ownerfs/statcache.go.
use some_go_foolery.Base.{
  ℕ, zero, suc, ◌≡◌, ◌⊎◌, inl, inr, refl, ap, ◌∙◌, Bool, true, false, Option, none, some, List, [],
  ◌∷◌, if◌then◌else◌, Bool-cases,
}
use some_go_foolery.Base.Bytes.{Bytes}
use some_go_foolery.Base.Dict.{lookup}
use some_go_foolery.Ownerfs.{Error, FileInfo, Flags, FileSystem}
use some_go_foolery.Ownerfs.Client.{
  FileCall, read_call, readdir_call, write_call, seek_call, stat_file_call, Call, mkdir_call,
  remove_call, stat_call, rename_call, session, after_file_call, after_file_calls, after_open,
  after_call, after_calls,
}
use some_go_foolery.Ownerfs.Cache.{
  normalize, StatEntry, ReaddirEntry, live_stat, live_readdir, CachedFs, CachedFile, mutates,
  wrap_file, is_full, store_listing, listing_or_ask, stat_or_ask, invalidate, cached, cached_mkdir,
  cached_remove_all, cached_rename, cached_stat, cached_open_file, cached_close, cached_readdir,
}

-- The calls on an open file without some of its full listings.
pub data ThinnerFile : List FileCall → List FileCall → Type 0 where
  ended : ThinnerFile [] []
  asked : (c : FileCall) {cs ds : List FileCall} → ThinnerFile cs ds → ThinnerFile (c ∷ cs) (c ∷ ds)
  listing_known : {cs ds : List FileCall} → ThinnerFile cs ds → ThinnerFile (readdir_call 0 ∷ cs) ds

-- The calls of a client without some of its stats and full listings.
pub data Thinner : List Call → List Call → Type 0 where
  ended : Thinner [] []
  asked : (c : Call) {cs ds : List Call} → Thinner cs ds → Thinner (c ∷ cs) (c ∷ ds)
  stat_known : (n : Bytes) {cs ds : List Call} → Thinner cs ds → Thinner (stat_call n ∷ cs) ds
  opened :
      (n : Bytes) (flag : Flags) (perm : ℕ) {fs gs : List FileCall} {cs ds : List Call}
      → ThinnerFile fs gs
      → Thinner cs ds
      → Thinner (session n flag perm fs ∷ cs) (session n flag perm gs ∷ ds)

module _ (fs : FileSystem) where
  open fs use {World, File, open_file, file_readdir}

  inner-if :
      (b : Bool) (n : Bytes) (c : CachedFs fs)
      → (if b then invalidate fs n c else c).inner ≡ c.inner
  unfolding invalidate
  inner-if true n c = refl
  inner-if false n c = refl

  inner-store :
      (n : Bytes) (t : ℕ) (r : (List FileInfo × Option Error) × World) (c : CachedFs fs)
      → (store_listing fs n t r c).1.inner ≡ r.1
  inner-store n t ((infos, e), w) c = elim (Bool-cases (is_full fs e)) [
    | inl full ↦ rw full refl
    | inr part ↦ rw part refl
  ]

  -- A listing is known, or asks below and leaves what that leaves.
  listing_cases :
      (f : CachedFile fs) (c : CachedFs fs) (known : Option ReaddirEntry)
      → let after = (listing_or_ask fs f c known).1.inner in
        (after ≡ c.inner) ⊎ (after ≡ (file_readdir 0 f.file c.inner).1)
  listing_cases f c none =
      inr (inner-store f.name (fs.now c.inner) (file_readdir 0 f.file c.inner) c)
  listing_cases f c (some e) = inl refl

  abbrev FilesBelow : List FileCall → CachedFile fs → CachedFs fs → Type 0
  FilesBelow cs f c =
      (ds : List FileCall) × ThinnerFile cs ds
      × ((after_file_calls (cached fs) cs f c).inner ≡ after_file_calls fs ds f.file c.inner)

  -- A call that asks below, and what a run does after it.
  file_asked :
      (k : FileCall) (cs : List FileCall) (f : CachedFile fs) (c : CachedFs fs)
      → (after_file_call (cached fs) k f c).inner ≡ after_file_call fs k f.file c.inner
      → FilesBelow cs f (after_file_call (cached fs) k f c)
      → FilesBelow (k ∷ cs) f c
  file_asked k cs f c e (ds, t, g) = (k ∷ ds, asked k t, g ∙ ap (after_file_calls fs ds f.file) e)

  file_calls-cached : (cs : List FileCall) (f : CachedFile fs) (c : CachedFs fs) → FilesBelow cs f c
  unfolding cached_close cached_readdir
  file_calls-cached [] f c = (
    [],
    ThinnerFile.ended,
    inner-if f.writable f.name (record c { inner = (fs.file_close f.file c.inner).1 }),
  )
  file_calls-cached (read_call n ∷ cs) f c =
      file_asked (read_call n) cs f c refl (file_calls-cached cs f _)
  file_calls-cached (write_call p ∷ cs) f c =
      file_asked (write_call p) cs f c refl (file_calls-cached cs f _)
  file_calls-cached (seek_call o h ∷ cs) f c =
      file_asked (seek_call o h) cs f c refl (file_calls-cached cs f _)
  file_calls-cached (stat_file_call ∷ cs) f c =
      file_asked stat_file_call cs f c refl (file_calls-cached cs f _)
  file_calls-cached (readdir_call (suc n) ∷ cs) f c =
      file_asked (readdir_call (suc n)) cs f c refl (file_calls-cached cs f _)
  file_calls-cached (readdir_call zero ∷ cs) f c =
      listed
        (listing_cases f c (live_readdir (fs.now c.inner) (lookup (normalize f.name) c.readdir)))
        (file_calls-cached cs f (cached_readdir fs 0 f c).1)
    where
      listed :
          let after = (cached_readdir fs 0 f c).1 in
          (after.inner ≡ c.inner) ⊎ (after.inner ≡ (file_readdir 0 f.file c.inner).1)
          → FilesBelow cs f after
          → FilesBelow (readdir_call 0 ∷ cs) f c
      listed (inl same) (ds, t, g) =
          (ds, listing_known t, g ∙ ap (after_file_calls fs ds f.file) same)
      listed (inr asks) below = file_asked (readdir_call 0) cs f c asks below

  abbrev pub Below : List Call → CachedFs fs → Type 0
  Below cs c =
      (ds : List Call) × Thinner cs ds
      × ((after_calls (cached fs) cs c).inner ≡ after_calls fs ds c.inner)

  -- What the cache does to the world below in one call, and then in the rest of a run.
  call_asked :
      (k : Call) (cs : List Call) (c : CachedFs fs)
      → (after_call (cached fs) k c).inner ≡ after_call fs k c.inner
      → Below cs (after_call (cached fs) k c)
      → Below (k ∷ cs) c
  call_asked k cs c e (ds, t, g) = (k ∷ ds, asked k t, g ∙ ap (after_calls fs ds) e)

  stat_cases :
      (n : Bytes) (c : CachedFs fs) (known : Option StatEntry)
      → let after = (stat_or_ask fs n c known).1.inner in
        (after ≡ c.inner) ⊎ (after ≡ (fs.stat n c.inner).1)
  stat_cases n c none = inr refl
  stat_cases n c (some e) = inl refl

  -- What a session does below.
  abbrev SessionBelow : Bytes → Flags → ℕ → List FileCall → CachedFs fs → Type 0
  SessionBelow n flag perm cs c =
      (gs : List FileCall) × ThinnerFile cs gs
      × ((after_call (cached fs) (session n flag perm cs) c).inner
          ≡ after_call fs (session n flag perm gs) c.inner)

  -- An open leaves its error, or a file on which the calls run.
  opens :
      (n : Bytes) (flag : Flags) (cs : List FileCall) (c : CachedFs fs) (r : (Error ⊎ File) × World)
      → (gs : List FileCall) × ThinnerFile cs gs
        × ((after_open (cached fs) cs (wrap_file fs n flag c r)).inner ≡ after_open fs gs r)
  opens n flag cs c (inl e, w) = (cs, all_asked cs, refl)
    where
      all_asked : (cs : List FileCall) → ThinnerFile cs cs
      all_asked [] = ThinnerFile.ended
      all_asked (c ∷ cs) = asked c (all_asked cs)
  opens n flag cs c (inr f, w) = file_calls-cached cs _ (record c { inner = w })

  session-cached :
      (n : Bytes) (flag : Flags) (perm : ℕ) (cs : List FileCall) (c : CachedFs fs)
      → SessionBelow n flag perm cs c
  unfolding cached_open_file
  session-cached n flag perm cs c =
      let before = if mutates fs flag then invalidate fs n c else c in
      let (gs, t, e) = opens n flag cs before (open_file n flag perm before.inner) in
      (
        gs,
        t,
        e ∙ ap (λ w. after_open fs gs (open_file n flag perm w)) (inner-if (mutates fs flag) n c),
      )

  -- Through the cache a client's calls change the file system below as the calls do without it, less some
  -- of the stats and full listings, which the cache answers.
  pub after_calls-cached : (cs : List Call) (c : CachedFs fs) → Below cs c
  unfolding cached_mkdir cached_remove_all cached_rename cached_stat invalidate
  after_calls-cached [] c = ([], Thinner.ended, refl)
  after_calls-cached (mkdir_call n p ∷ cs) c =
      call_asked (mkdir_call n p) cs c refl (after_calls-cached cs _)
  after_calls-cached (remove_call n ∷ cs) c =
      call_asked (remove_call n) cs c refl (after_calls-cached cs _)
  after_calls-cached (rename_call n m ∷ cs) c =
      call_asked (rename_call n m) cs c refl (after_calls-cached cs _)
  after_calls-cached (stat_call n ∷ cs) c =
      answered (stat_cases n c (live_stat (fs.now c.inner) (lookup (normalize n) c.stats)))
        (after_calls-cached cs (cached_stat fs n c).1)
    where
      answered :
          let after = (cached_stat fs n c).1 in
          (after.inner ≡ c.inner) ⊎ (after.inner ≡ (fs.stat n c.inner).1)
          → Below cs after
          → Below (stat_call n ∷ cs) c
      answered (inl same) (ds, t, g) = (ds, stat_known n t, g ∙ ap (after_calls fs ds) same)
      answered (inr asks) below = call_asked (stat_call n) cs c asks below
  after_calls-cached (session n flag perm fcs ∷ cs) c =
      let (gs, u, e) = session-cached n flag perm fcs c in
      let (ds, t, g) = after_calls-cached cs (after_call (cached fs) (session n flag perm fcs) c) in
      (session n flag perm gs ∷ ds, opened n flag perm u t, g ∙ ap (after_calls fs ds) e)
