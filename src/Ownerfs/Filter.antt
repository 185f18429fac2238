-- ===== src/Ownerfs/Filter.antt =====
-- claudy-p2p/internal/ownerfs/filter.go: hides the scratch files of Finder and Explorer.
pub mod Listing
pub mod Runs
use some_go_foolery.Base.{
  ℕ, ◌≡◌, ◌≢◌, ◌⊎◌, inl, inr, refl, ap, ◌∙◌, Bool, true, false, ◌||◌, Option, none, some, List, [],
  ◌∷◌, ◌++◌, length, if◌then◌else◌, All, Bool-cases, arith,
}
use some_go_foolery.Base.Bytes.{Bytes, bytes, str_eq, has_prefix}
use some_go_foolery.Base.Paths.{clean, base, slash, elements, append-some}
use some_go_foolery.Base.Elements.{
  elements-append, elements_trailing, elements-Name, base-clean, Name,
}
use some_go_foolery.Ownerfs.{Error, not_exist, eof, FileInfo, Flags, writes, FileSystem}

abbrev pub junk_prefixes : List Bytes
junk_prefixes = bytes "._" ∷ []

abbrev pub junk_exact : List Bytes
junk_exact =
    bytes ".DS_Store"
    ∷ bytes ".Spotlight-V100"
    ∷ bytes ".Trashes"
    ∷ bytes ".TemporaryItems"
    ∷ bytes ".fseventsd"
    ∷ bytes ".apdisk"
    ∷ bytes ".localized"
    ∷ bytes "$RECYCLE.BIN"
    ∷ bytes "desktop.ini"
    ∷ bytes "Thumbs.db"
    ∷ []

unfoldable pub is_key : Bytes → List Bytes → Bool
is_key s [] = false
is_key s (k ∷ ks) = str_eq s k || is_key s ks

unfoldable pub starts_with_any : Bytes → List Bytes → Bool
starts_with_any s [] = false
starts_with_any s (p ∷ ps) = has_prefix s p || starts_with_any s ps

-- The test on the base name.
unfoldable pub junk_base : Bytes → Bool
junk_base s = is_key s junk_exact || starts_with_any s junk_prefixes

unfoldable pub is_junk : Bytes → Bool
is_junk name = junk_base (base (clean name))

-- `e` for each entry that is not junk.
unfoldable pub kept : List FileInfo → List FileInfo
kept [] = []
kept (e ∷ entries) = let rest = kept entries in if is_junk e.name then rest else e ∷ rest

pub data FilteredFile (File : Type 0) : Type 0 where
  discard_file : FilteredFile File
  filter_dir_reads : File → FilteredFile File

abbrev pub junk_stat : FileInfo
junk_stat = record { name = bytes "discarded"; size = 0; mode = 0; mod_time = 0; is_dir = false }

module _ (fs : FileSystem) where
  open fs use {
    World, File, mkdir, open_file, remove_all, rename, stat, file_read, file_write, file_seek,
    file_stat, file_readdir, file_close,
  }

  unfoldable pub filtered_mkdir : Bytes → ℕ → World → Option Error × World
  filtered_mkdir name perm w = if is_junk name then (none, w) else mkdir name perm w

  abbrev pub wrap_opened : (Error ⊎ File) × World → (Error ⊎ FilteredFile File) × World
  wrap_opened (inl e, w) = (inl e, w)
  wrap_opened (inr f, w) = (inr (filter_dir_reads f), w)

  unfoldable pub filtered_open_file :
      Bytes → Flags → ℕ → World → (Error ⊎ FilteredFile File) × World
  filtered_open_file name flag perm w =
      if is_junk name
      then if writes flag then (inr discard_file, w) else (inl not_exist, w)
      else wrap_opened (open_file name flag perm w)

  unfoldable pub filtered_remove_all : Bytes → World → Option Error × World
  filtered_remove_all name w = if is_junk name then (none, w) else remove_all name w

  unfoldable pub filtered_rename : Bytes → Bytes → World → Option Error × World
  filtered_rename old_name new_name w =
      if is_junk old_name || is_junk new_name then (none, w) else rename old_name new_name w

  unfoldable pub filtered_stat : Bytes → World → (Error ⊎ FileInfo) × World
  filtered_stat name w = if is_junk name then (inl not_exist, w) else stat name w

  unfoldable pub filtered_read : ℕ → FilteredFile File → World → (Bytes × Option Error) × World
  filtered_read n discard_file w = (([], some eof), w)
  filtered_read n (filter_dir_reads f) w = file_read n f w

  unfoldable pub filtered_write : Bytes → FilteredFile File → World → (ℕ × Option Error) × World
  filtered_write p discard_file w = ((length p, none), w)
  filtered_write p (filter_dir_reads f) w = file_write p f w

  unfoldable pub filtered_seek : ℕ → ℕ → FilteredFile File → World → (ℕ × Option Error) × World
  filtered_seek offset whence discard_file w = ((0, none), w)
  filtered_seek offset whence (filter_dir_reads f) w = file_seek offset whence f w

  unfoldable pub filtered_file_stat : FilteredFile File → World → (Error ⊎ FileInfo) × World
  filtered_file_stat discard_file w = (inr junk_stat, w)
  filtered_file_stat (filter_dir_reads f) w = file_stat f w

  abbrev pub keep_entries :
      (List FileInfo × Option Error) × World → (List FileInfo × Option Error) × World
  keep_entries ((entries, some e), w) = ((entries, some e), w)
  keep_entries ((entries, none), w) = ((kept entries, none), w)

  unfoldable pub filtered_readdir :
      ℕ → FilteredFile File → World → (List FileInfo × Option Error) × World
  filtered_readdir count discard_file w = (([], none), w)
  filtered_readdir count (filter_dir_reads f) w = keep_entries (file_readdir count f w)

  unfoldable pub filtered_close : FilteredFile File → World → Option Error × World
  filtered_close discard_file w = (none, w)
  filtered_close (filter_dir_reads f) w = file_close f w

-- `FilterJunk`.
abbrev pub filter_junk : FileSystem → FileSystem
filter_junk fs = record {
  World = fs.World;
  File = FilteredFile fs.File;
  now = fs.now;
  mkdir = filtered_mkdir fs;
  open_file = filtered_open_file fs;
  remove_all = filtered_remove_all fs;
  rename = filtered_rename fs;
  stat = filtered_stat fs;
  file_read = filtered_read fs;
  file_write = filtered_write fs;
  file_seek = filtered_seek fs;
  file_stat = filtered_file_stat fs;
  file_readdir = filtered_readdir fs;
  file_close = filtered_close fs;
}

-- Only the last name of a path counts, whatever is above it and with or without a slash behind it.
pub is_junk-append :
    (p s : Bytes)
    → p ≢ []
    → Name s
    → (is_junk (p ++ slash ∷ s) ≡ junk_base s)
      × (is_junk ((p ++ slash ∷ s) ++ slash ∷ []) ≡ junk_base s)
unfolding is_junk
is_junk-append p s h n = (
  ap junk_base (base-clean (p ++ slash ∷ s) s (elements p) (elements-append p s h n)),
  ap junk_base (
      base-clean ((p ++ slash ∷ s) ++ slash ∷ []) s (elements p)
        (elements_trailing (p ++ slash ∷ s) some_bytes ∙ elements-append p s h n)),
)
  where
    some_bytes : p ++ slash ∷ s ≢ []
    some_bytes = append-some p s slash

pub is_junk-Name : (s : Bytes) → Name s → is_junk s ≡ junk_base s
unfolding is_junk
is_junk-Name s n = ap junk_base (base-clean s s [] (elements-Name s n))
