-- ===== src/Ownerfs/Normalize.antt =====
-- claudy-p2p/internal/ownerfs/normalize.go. The normal form is a parameter: it is that of
-- golang.org/x/text.
use some_go_foolery.Base.{◌⊎◌, ◌≡◌, refl, ap, ◌∙◌, sym, List, [], ◌∷◌, inl, inr}
use some_go_foolery.Base.Bytes.{Bytes}
use some_go_foolery.Ownerfs.{Error, FileSystem}
use some_go_foolery.Ownerfs.Client.{
  FileCall, read_call, readdir_call, write_call, seek_call, stat_file_call, Call, mkdir_call,
  remove_call, stat_call, rename_call, session, after_calls, after_call, after_file_calls,
  after_open,
}

module _ (nfc : Bytes → Bytes) where
  -- `NormalizeNFC`; files are passed on as they are.
  abbrev pub normalize_nfc : FileSystem → FileSystem
  normalize_nfc fs = record fs {
    mkdir = λ name perm. fs.mkdir (nfc name) perm;
    open_file = λ name flag perm. fs.open_file (nfc name) flag perm;
    remove_all = λ name. fs.remove_all (nfc name);
    rename = λ old_name new_name. fs.rename (nfc old_name) (nfc new_name);
    stat = λ name. fs.stat (nfc name);
  }

  -- The call with its names in normal form.
  abbrev normal_call : Call → Call
  normal_call (mkdir_call n p) = mkdir_call (nfc n) p
  normal_call (remove_call n) = remove_call (nfc n)
  normal_call (stat_call n) = stat_call (nfc n)
  normal_call (rename_call n m) = rename_call (nfc n) (nfc m)
  normal_call (session n flag perm cs) = session (nfc n) flag perm cs

  abbrev pub normal_calls : List Call → List Call
  normal_calls [] = []
  normal_calls (c ∷ cs) = normal_call c ∷ normal_calls cs

  files-normalize_nfc :
      (fs : FileSystem) (cs : List FileCall) (f : fs.File) (w : fs.World)
      → after_file_calls (normalize_nfc fs) cs f w ≡ after_file_calls fs cs f w
  files-normalize_nfc fs [] f w = refl
  files-normalize_nfc fs (read_call n ∷ cs) f w = files-normalize_nfc fs cs f _
  files-normalize_nfc fs (readdir_call n ∷ cs) f w = files-normalize_nfc fs cs f _
  files-normalize_nfc fs (write_call p ∷ cs) f w = files-normalize_nfc fs cs f _
  files-normalize_nfc fs (seek_call o h ∷ cs) f w = files-normalize_nfc fs cs f _
  files-normalize_nfc fs (stat_file_call ∷ cs) f w = files-normalize_nfc fs cs f _

  call-normalize_nfc :
      (fs : FileSystem) (c : Call) (w : fs.World)
      → after_call (normalize_nfc fs) c w ≡ after_call fs (normal_call c) w
  call-normalize_nfc fs (mkdir_call n p) w = refl
  call-normalize_nfc fs (remove_call n) w = refl
  call-normalize_nfc fs (stat_call n) w = refl
  call-normalize_nfc fs (rename_call n m) w = refl
  call-normalize_nfc fs (session n flag perm cs) w = opened (fs.open_file (nfc n) flag perm w)
    where
      opened :
          (r : (Error ⊎ fs.File) × fs.World)
          → after_open (normalize_nfc fs) cs r ≡ after_open fs cs r
      opened (inl e, w) = refl
      opened (inr f, w) = files-normalize_nfc fs cs f w

  pub calls-normalize_nfc :
      (fs : FileSystem) (cs : List Call) (w : fs.World)
      → after_calls (normalize_nfc fs) cs w ≡ after_calls fs (normal_calls cs) w
  calls-normalize_nfc fs [] w = refl
  calls-normalize_nfc fs (c ∷ cs) w =
      rw (call-normalize_nfc fs c w) (calls-normalize_nfc fs cs (after_call fs (normal_call c) w))

  -- Two clients whose calls differ only in how they spell the names, so that these have the same normal
  -- forms, leave the same world behind, the one that the calls with normal names leave below.
  same_forms_same_world :
      (fs : FileSystem) (cs ds : List Call) (w : fs.World)
      → normal_calls cs ≡ normal_calls ds
      → (after_calls (normalize_nfc fs) cs w ≡ after_calls (normalize_nfc fs) ds w)
        × (after_calls (normalize_nfc fs) cs w ≡ after_calls fs (normal_calls ds) w)
  same_forms_same_world fs cs ds w h =
      let down = calls-normalize_nfc fs cs w ∙ ap (λ l. after_calls fs l w) h in
      (down ∙ sym (calls-normalize_nfc fs ds w), down)
