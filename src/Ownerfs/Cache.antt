-- ===== src/Ownerfs/Cache.antt =====
-- claudy-p2p/internal/ownerfs/statcache.go: a cache of stats and of full listings.
pub mod Keys
pub mod Fresh
pub mod Stale
pub mod Runs
use some_go_foolery.Base.{
  ℕ, zero, suc, ◌+◌, ◌*◌, ◌≡◌, ◌⊎◌, inl, inr, Bool, true, false, ◌||◌, ltb, ◌==◌, Option, none,
  some, List, [], ◌∷◌, ◌++◌, if◌then◌else◌,
}
use some_go_foolery.Base.Bytes.{Bytes, str_eq}
use some_go_foolery.Base.Paths.{clean, dir, join, slash}
use some_go_foolery.Base.Dict.{Dict, lookup, insert, remove}
use some_go_foolery.Ownerfs.{Error, eof, FileInfo, Flags, writes, FileSystem}

-- 250 milliseconds.
abbrev pub stat_cache_ttl : ℕ
stat_cache_ttl = 250 * 1000000

-- `strings.TrimSuffix(p, "/")`.
abbrev pub trim_slash : Bytes → Bytes
trim_slash [] = []
trim_slash (x ∷ []) = if x == slash then [] else x ∷ []
trim_slash (x ∷ y ∷ ys) = x ∷ trim_slash (y ∷ ys)

abbrev pub or_root : Bytes → Bytes
or_root [] = slash ∷ []
or_root (x ∷ xs) = x ∷ xs

unfoldable pub normalize : Bytes → Bytes
normalize [] = slash ∷ []
normalize (x ∷ xs) = or_root (clean (slash ∷ trim_slash (x ∷ xs)))

pub record StatEntry : Type 0 where
  pub answer : Error ⊎ FileInfo
  pub expires : ℕ

pub record ReaddirEntry : Type 0 where
  pub infos : List FileInfo
  pub error : Option Error
  pub expires : ℕ

-- `now.Before(e.expires)` for an entry that is there.
abbrev pub live_stat : ℕ → Option StatEntry → Option StatEntry
live_stat t none = none
live_stat t (some e) = if ltb t e.expires then some e else none

abbrev pub live_readdir : ℕ → Option ReaddirEntry → Option ReaddirEntry
live_readdir t none = none
live_readdir t (some e) = if ltb t e.expires then some e else none

-- An entry for each child of the directory n.
unfoldable pub seed : Bytes → ℕ → List FileInfo → Dict StatEntry → Dict StatEntry
seed n t [] m = m
seed n t (c ∷ cs) m =
    seed n t cs (insert (join n c.name) (record { answer = inr c; expires = t }) m)

module _ (fs : FileSystem) where
  open fs use {
    World, File, now, mkdir, open_file, remove_all, rename, stat, file_read, file_write, file_seek,
    file_stat, file_readdir, file_close,
  }

  -- The maps of CachedFS, over the file system below.
  pub record CachedFs : Type 0 where
    pub inner : World
    pub stats : Dict StatEntry
    pub readdir : Dict ReaddirEntry

  pub record CachedFile : Type 0 where
    pub file : File
    pub name : Bytes
    pub writable : Bool

  unfoldable pub invalidate : Bytes → CachedFs → CachedFs
  invalidate p c =
      let n = normalize p in
      record c { stats = remove (dir n) (remove n c.stats); readdir = remove (dir n) c.readdir }

  abbrev pub changed : Bytes → CachedFs → Option Error × World → Option Error × CachedFs
  changed name c (e, w) = (e, invalidate name (record c { inner = w }))

  unfoldable pub cached_mkdir : Bytes → ℕ → CachedFs → Option Error × CachedFs
  cached_mkdir name perm c = changed name c (mkdir name perm c.inner)

  unfoldable pub cached_remove_all : Bytes → CachedFs → Option Error × CachedFs
  cached_remove_all name c = changed name c (remove_all name c.inner)

  abbrev pub renamed : Bytes → Bytes → CachedFs → Option Error × World → Option Error × CachedFs
  renamed old_name new_name c (e, w) =
      (e, invalidate new_name (invalidate old_name (record c { inner = w })))

  unfoldable pub cached_rename : Bytes → Bytes → CachedFs → Option Error × CachedFs
  cached_rename old_name new_name c = renamed old_name new_name c (rename old_name new_name c.inner)

  -- What the second critical section of `Stat` stores: the answer, and the time of the call plus the
  -- lifetime.
  abbrev pub store_stat :
      Bytes → ℕ → (Error ⊎ FileInfo) × World → CachedFs → (Error ⊎ FileInfo) × CachedFs
  store_stat name t (r, w) c = (
    r,
    record c {
      inner = w;
      stats = insert (normalize name) (record { answer = r; expires = t + stat_cache_ttl }) c.stats;
    },
  )

  abbrev pub stat_or_ask : Bytes → CachedFs → Option StatEntry → (Error ⊎ FileInfo) × CachedFs
  stat_or_ask name c (some e) = (e.answer, c)
  stat_or_ask name c none = store_stat name (now c.inner) (stat name c.inner) c

  unfoldable pub cached_stat : Bytes → CachedFs → (Error ⊎ FileInfo) × CachedFs
  cached_stat name c =
      stat_or_ask name c (live_stat (now c.inner) (lookup (normalize name) c.stats))

  abbrev pub mutates : Flags → Bool
  mutates f = f.wronly || f.rdwr || f.creat || f.trunc || f.append

  abbrev pub wrap_file :
      Bytes → Flags → CachedFs → (Error ⊎ File) × World → (Error ⊎ CachedFile) × CachedFs
  wrap_file name flag c (inl e, w) = (inl e, record c { inner = w })
  wrap_file name flag c (inr f, w) =
      (inr (record { file = f; name = name; writable = writes flag }), record c { inner = w })

  unfoldable pub cached_open_file : Bytes → Flags → ℕ → CachedFs → (Error ⊎ CachedFile) × CachedFs
  cached_open_file name flag perm c =
      let before = if mutates flag then invalidate name c else c in
      wrap_file name flag before (open_file name flag perm before.inner)

  abbrev pub closed : CachedFile → CachedFs → Option Error × World → Option Error × CachedFs
  closed f c (e, w) =
      let after = record c { inner = w } in
      (e, if f.writable then invalidate f.name after else after)

  unfoldable pub cached_close : CachedFile → CachedFs → Option Error × CachedFs
  cached_close f c = closed f c (file_close f.file c.inner)

  abbrev pub is_full : Option Error → Bool
  is_full none = true
  is_full (some eof) = true
  is_full (some e) = false

  -- What the second critical section of `Readdir` stores.
  abbrev pub store_listing :
      Bytes
      → ℕ
      → (List FileInfo × Option Error) × World
      → CachedFs
      → (List FileInfo × Option Error) × CachedFs
  store_listing name t ((infos, e), w) c = (
    (infos, e),
    if is_full e
        then record c {
          inner = w;
          stats = seed (normalize name) (t + stat_cache_ttl) infos c.stats;
          readdir =
              insert (normalize name)
                (record { infos = infos; error = e; expires = t + stat_cache_ttl }) c.readdir;
        }
        else record c { inner = w },
  )

  abbrev pub listing_or_ask :
      CachedFile → CachedFs → Option ReaddirEntry → (List FileInfo × Option Error) × CachedFs
  listing_or_ask f c (some e) = ((e.infos, e.error), c)
  listing_or_ask f c none = store_listing f.name (now c.inner) (file_readdir 0 f.file c.inner) c

  abbrev lift {ℓ} : {R : Type ℓ} → CachedFs → R × World → R × CachedFs
  lift c (r, w) = (r, record c { inner = w })

  unfoldable pub cached_readdir :
      ℕ → CachedFile → CachedFs → (List FileInfo × Option Error) × CachedFs
  cached_readdir zero f c =
      listing_or_ask f c (live_readdir (now c.inner) (lookup (normalize f.name) c.readdir))
  cached_readdir (suc count) f c = lift c (file_readdir (suc count) f.file c.inner)

-- `Cached`.
abbrev pub cached : FileSystem → FileSystem
cached fs = record {
  World = CachedFs fs;
  File = CachedFile fs;
  now = λ c. fs.now c.inner;
  mkdir = cached_mkdir fs;
  open_file = cached_open_file fs;
  remove_all = cached_remove_all fs;
  rename = cached_rename fs;
  stat = cached_stat fs;
  file_read = λ n f c. lift fs c (fs.file_read n f.file c.inner);
  file_write = λ p f c. lift fs c (fs.file_write p f.file c.inner);
  file_seek = λ o h f c. lift fs c (fs.file_seek o h f.file c.inner);
  file_stat = λ f c. lift fs c (fs.file_stat f.file c.inner);
  file_readdir = cached_readdir fs;
  file_close = cached_close fs;
}
