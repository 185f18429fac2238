-- ===== src/Ownerfs/Client.antt =====
-- A client of a webdav.FileSystem and what its calls leave behind.
use some_go_foolery.Base.{ℕ, ◌⊎◌, inl, inr, List, [], ◌∷◌}
use some_go_foolery.Base.Bytes.{Bytes}
use some_go_foolery.Ownerfs.{Error, Flags, FileSystem}

pub data FileCall : Type 0 where
  read_call readdir_call : ℕ → FileCall
  write_call : Bytes → FileCall
  seek_call : ℕ → ℕ → FileCall
  stat_file_call : FileCall

-- A session opens a file, uses it and closes it.
pub data Call : Type 0 where
  mkdir_call : Bytes → ℕ → Call
  remove_call stat_call : Bytes → Call
  rename_call : Bytes → Bytes → Call
  session : Bytes → Flags → ℕ → List FileCall → Call

module _ (fs : FileSystem) where
  open fs use {
    World, File, mkdir, open_file, remove_all, rename, stat, file_read, file_write, file_seek,
    file_stat, file_readdir, file_close,
  }

  abbrev pub after_file_call : FileCall → File → World → World
  after_file_call (read_call n) f w = (file_read n f w).1
  after_file_call (readdir_call n) f w = (file_readdir n f w).1
  after_file_call (write_call p) f w = (file_write p f w).1
  after_file_call (seek_call o h) f w = (file_seek o h f w).1
  after_file_call stat_file_call f w = (file_stat f w).1

  abbrev pub after_file_calls : List FileCall → File → World → World
  after_file_calls [] f w = (file_close f w).1
  after_file_calls (c ∷ cs) f w = after_file_calls cs f (after_file_call c f w)

  abbrev pub after_open : List FileCall → (Error ⊎ File) × World → World
  after_open cs (inl e, w) = w
  after_open cs (inr f, w) = after_file_calls cs f w

  abbrev pub after_call : Call → World → World
  after_call (mkdir_call n p) w = (mkdir n p w).1
  after_call (remove_call n) w = (remove_all n w).1
  after_call (stat_call n) w = (stat n w).1
  after_call (rename_call n m) w = (rename n m w).1
  after_call (session n flag perm cs) w = after_open cs (open_file n flag perm w)

  -- The world after a client's calls.
  abbrev pub after_calls : List Call → World → World
  after_calls [] w = w
  after_calls (c ∷ cs) w = after_calls cs (after_call c w)
