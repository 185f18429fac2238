-- ===== src/Ownerfs/Filter/Runs.antt =====
-- Whole runs of a client over the filter of claudy-p2p/internal/ownerfs/filter.go.
use some_go_foolery.Base.{
  ◌≡◌, ◌⊎◌, inl, inr, refl, Bool, true, false, ◌||◌, Option, none, some, List, [], ◌∷◌,
  if◌then◌else◌, Bool-cases,
}
use some_go_foolery.Ownerfs.{Error, not_exist, FileInfo, writes, FileSystem}
use some_go_foolery.Ownerfs.Client.{
  FileCall, read_call, readdir_call, write_call, seek_call, stat_file_call, Call, mkdir_call,
  remove_call, stat_call, rename_call, session, after_file_calls, after_open, after_call,
  after_calls,
}
use some_go_foolery.Ownerfs.Filter.{
  is_junk, discard_file, filter_dir_reads, wrap_opened, keep_entries, filter_junk, filtered_mkdir,
  filtered_open_file, filtered_remove_all, filtered_rename, filtered_stat, filtered_read,
  filtered_write, filtered_seek, filtered_file_stat, filtered_readdir, filtered_close,
}

abbrev names_junk : Call → Bool
names_junk (mkdir_call n p) = is_junk n
names_junk (remove_call n) = is_junk n
names_junk (stat_call n) = is_junk n
names_junk (rename_call n m) = is_junk n || is_junk m
names_junk (session n flag perm cs) = is_junk n

abbrev pub clear_calls : List Call → List Call
clear_calls [] = []
clear_calls (c ∷ cs) = let rest = clear_calls cs in if names_junk c then rest else c ∷ rest

module _ (fs : FileSystem) where
  open fs use {World, File, open_file}

  keep_entries-world : (r : (List FileInfo × Option Error) × World) → (keep_entries fs r).1 ≡ r.1
  keep_entries-world ((entries, none), w) = refl
  keep_entries-world ((entries, some e), w) = refl

  discarded :
      (cs : List FileCall) (w : World) → after_file_calls (filter_junk fs) cs discard_file w ≡ w
  unfolding filtered_close filtered_read filtered_readdir filtered_write filtered_seek
      filtered_file_stat
  discarded [] w = refl
  discarded (read_call n ∷ cs) w = discarded cs w
  discarded (readdir_call n ∷ cs) w = discarded cs w
  discarded (write_call p ∷ cs) w = discarded cs w
  discarded (seek_call o h ∷ cs) w = discarded cs w
  discarded (stat_file_call ∷ cs) w = discarded cs w

  passed :
      (cs : List FileCall) (f : File) (w : World)
      → after_file_calls (filter_junk fs) cs (filter_dir_reads f) w ≡ after_file_calls fs cs f w
  unfolding filtered_close filtered_read filtered_readdir filtered_write filtered_seek
      filtered_file_stat
  passed [] f w = refl
  passed (read_call n ∷ cs) f w = passed cs f _
  passed (readdir_call n ∷ cs) f w = rw (keep_entries-world (fs.file_readdir n f w)) (passed cs f _)
  passed (write_call p ∷ cs) f w = passed cs f _
  passed (seek_call o h ∷ cs) f w = passed cs f _
  passed (stat_file_call ∷ cs) f w = passed cs f _

  opened :
      (cs : List FileCall) (r : (Error ⊎ File) × World)
      → after_open (filter_junk fs) cs (wrap_opened fs r) ≡ after_open fs cs r
  opened cs (inl e, w) = refl
  opened cs (inr f, w) = passed cs f w

  junk_session :
      (b : Bool) (cs : List FileCall) (w : World)
      → after_open (filter_junk fs) cs (if b then (inr discard_file, w) else (inl not_exist, w)) ≡ w
  junk_session true cs w = discarded cs w
  junk_session false cs w = refl

  call_junk : (c : Call) (w : World) → names_junk c ≡ true → after_call (filter_junk fs) c w ≡ w
  unfolding filtered_mkdir filtered_open_file filtered_remove_all filtered_rename filtered_stat
  call_junk (mkdir_call n p) w h = rw (after_call, h) refl
  call_junk (remove_call n) w h = rw (after_call, h) refl
  call_junk (stat_call n) w h = rw (after_call, h) refl
  call_junk (rename_call n m) w h = rw (after_call, h) refl
  call_junk (session n flag perm cs) w h = rw (after_call, h) (junk_session (writes flag) cs w)

  call_clear :
      (c : Call) (w : World)
      → names_junk c ≡ false
      → after_call (filter_junk fs) c w ≡ after_call fs c w
  unfolding filtered_mkdir filtered_open_file filtered_remove_all filtered_rename filtered_stat
  call_clear (mkdir_call n p) w h = rw (after_call, h) refl
  call_clear (remove_call n) w h = rw (after_call, h) refl
  call_clear (stat_call n) w h = rw (after_call, h) refl
  call_clear (rename_call n m) w h = rw (after_call, h) refl
  call_clear (session n flag perm cs) w h = rw (after_call, h) (opened cs (open_file n flag perm w))

  -- Through the filter a client's calls change the world as its calls without junk names do below: no
  -- call that names junk, not even a save, changes anything, and every other call has its full effect.
  pub after_calls-filter_junk :
      (cs : List Call) (w : World)
      → after_calls (filter_junk fs) cs w ≡ after_calls fs (clear_calls cs) w
  after_calls-filter_junk [] w = refl
  after_calls-filter_junk (c ∷ cs) w = elim (Bool-cases (names_junk c)) [
    | inl junk ↦ rw (junk, call_junk c w junk) (after_calls-filter_junk cs w)
    | inr clear ↦ rw (clear, call_clear c w clear) (after_calls-filter_junk cs (after_call fs c w))
  ]
