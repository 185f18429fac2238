-- ===== src/Ownerfs/ShareDelete/Modes.antt =====
-- The flags of claudy-p2p/internal/ownerfs/share_delete_windows.go against those of `os.OpenFile`.
use some_go_foolery.Base.{
  ◌≡◌, ◌⊎◌, inl, inr, refl, sym, if_cases, Bool, true, false, ◌&&◌, ◌||◌, Option, none, some,
  if◌then◌else◌, arith,
}
use some_go_foolery.Base.Bytes.{Bytes}
use some_go_foolery.Ownerfs.ShareDelete.{
  Flags, access, Disposition, disposition, create_new, create_always, open_always,
  truncate_existing, open_existing, Calls, CreateFile, Opened, Error, not_exist, bad_path,
  open_failed, nil_file, seek_failed, failed, open_path, resolve, open_file,
}

-- What an opening does to a file.
pub data Effect : Type 0 where
  missing already_exists opened emptied created : Effect

-- What the system documents of CreateFile, for each disposition, where the file exists and where not.
pub record Windows : Type 0 where
  pub effect : Disposition → Bool → Effect
  pub create_new_effect : (b : Bool) → effect create_new b ≡ (if b then already_exists else created)
  pub create_always_effect : (b : Bool) → effect create_always b ≡ (if b then emptied else created)
  pub open_always_effect : (b : Bool) → effect open_always b ≡ (if b then opened else created)
  pub truncate_existing_effect :
      (b : Bool) → effect truncate_existing b ≡ (if b then emptied else missing)
  pub open_existing_effect : (b : Bool) → effect open_existing b ≡ (if b then opened else missing)

-- What the flags mean to `os.OpenFile`: O_CREATE makes a missing file, O_EXCL with it refuses an existing
-- one, O_TRUNC empties what is opened.
abbrev open_effect : Flags → Bool → Effect
open_effect f true =
    if f.create && f.excl then already_exists else if f.trunc then emptied else opened
open_effect f false = if f.create then created else missing

by_flags :
    (w : Windows) (wronly rdwr append create excl trunc there : Bool)
    → let f : Flags = record {
      wronly = wronly;
      rdwr = rdwr;
      append = append;
      create = create;
      excl = excl;
      trunc = trunc;
    } in
      w.effect (disposition f) there ≡ open_effect f there
unfolding disposition
by_flags w o r a true true t true = w.create_new_effect true
by_flags w o r a true true t false = w.create_new_effect false
by_flags w o r a true false true true = w.create_always_effect true
by_flags w o r a true false true false = w.create_always_effect false
by_flags w o r a true false false true = w.open_always_effect true
by_flags w o r a true false false false = w.open_always_effect false
by_flags w o r a false e true true = w.truncate_existing_effect true
by_flags w o r a false e true false = w.truncate_existing_effect false
by_flags w o r a false e false true = w.open_existing_effect true
by_flags w o r a false e false false = w.open_existing_effect false

-- Every combination of flags does to an existing and to a missing file what it does in `os.OpenFile`.
disposition_lem :
    (w : Windows) (f : Flags) (there : Bool) → w.effect (disposition f) there ≡ open_effect f there
disposition_lem w f there = by_flags w f.wronly f.rdwr f.append f.create f.excl f.trunc there

-- The handle is open without an error, or closed with one.
abbrev pub Settled : Flags → Opened → Type 0
Settled f r =
    ((r.error ≡ none) × (r.held ≡ true) × (r.at_end ≡ f.append))
    ⊎ (((e : Error) × (r.error ≡ some e)) × (r.held ≡ false))

created_Settled :
    (f : Flags) (c : Calls) (call : CreateFile) (opens wraps append seeks : Bool)
    → f.append ≡ append
    → Settled f (
        if opens
        then if wraps
          then if append
            then if seeks
              then record { error = none; call = some call; held = true; at_end = true }
              else failed seek_failed (some call)
            else record { error = none; call = some call; held = true; at_end = false }
          else failed nil_file (some call)
        else failed open_failed (some call))
created_Settled f c call false wraps append seeks e = inr ((open_failed, refl), refl)
created_Settled f c call true false append seeks e = inr ((nil_file, refl), refl)
created_Settled f c call true true false seeks e = inl (refl, refl, sym e)
created_Settled f c call true true true false e = inr ((seek_failed, refl), refl)
created_Settled f c call true true true true e = inl (refl, refl, sym e)

open_path-Settled : (f : Flags) (c : Calls) (full : Option Bytes) → Settled f (open_path f c full)
open_path-Settled f c none = inr ((not_exist, refl), refl)
open_path-Settled f c (some full) =
    if_cases (Settled f) c.encodes _ (failed bad_path none)
      (λ q. created_Settled f c _ c.opens c.wraps f.append c.seeks refl)
      (λ q. inr ((bad_path, refl), refl))

writes : (f : Flags) → (access f).write ≡ (f.wronly || (f.rdwr || f.append))
unfolding access
writes f = ground arith

-- The handle is open at the end exactly if there is no error; with O_APPEND, and only then, the file is
-- positioned at its end; and it may be written exactly if a flag for that is set.
open_file_lem :
    (root name : Bytes) (f : Flags) (c : Calls)
    → let r = open_file root name f c in
      (((r.error ≡ none) × (r.held ≡ true) × (r.at_end ≡ f.append))
        ⊎ (((e : Error) × (r.error ≡ some e)) × (r.held ≡ false)))
      × ((access f).write ≡ (f.wronly || (f.rdwr || f.append)))
unfolding open_file
open_file_lem root name f c = (open_path-Settled f c (resolve root name), writes f)
