-- ===== src/Identity/Keyring/Pins.antt =====
-- The pins of claudy-p2p/internal/identity/keyring.go over later contacts, failed saves and restarts.
use some_go_foolery.Base.{
  ℕ, ◌≡◌, ◌≢◌, refl, sym, ap, ◌∙◌, inl, inr, ◌⊎◌, Bool, true, false, Option, none, some, List, [],
  ◌∷◌, length, ◌==◌, All, Bool-cases, Option-cases, arith,
}
use some_go_foolery.Base.Bytes.{Bytes, str_eq, str_eq_iff, str_eq_refl}
use some_go_foolery.Base.Dict.{Dict, lookup, remove, lookup-insert, lookup-remove}
use some_go_foolery.Identity.{public_key_size}
use some_go_foolery.Identity.Base64.{AreBytes, encode, encode_injective}
use some_go_foolery.Identity.Utf8.{Plain}
use some_go_foolery.Identity.Keyring.{
  KnownPeer, Disk, saved, Calls, Error, untrusted, pubkey_size, list, save, load, read_all, Opened,
  open_file, open_keyring, Checked, check_entry, check, forget,
}
use some_go_foolery.Identity.Keyring.Entries.{Keyed, remove-Keyed}
use some_go_foolery.Identity.Keyring.ReadBack.{Survives, encode-Survives, pinned-read_all}
use some_go_foolery.Identity.Keyring.Histories.{
  Operation, Store, check-Keyed, check-pinned, checks, forgets, open_file-Keyed, pinned, restarts,
  run, step,
}

-- The keyring's file is what it was, or it holds the whole new list; it is the new list exactly if
-- the save reports no error. Another failure touches the temporary file alone.
pub save_atomic :
    (c : Calls) (peers : Dict KnownPeer) (d : Disk)
    → (((save c peers d).0 ≡ none) × ((save c peers d).1.file ≡ some (saved (list peers))))
      ⊎ ((e : Error) × ((save c peers d).0 ≡ some e) × ((save c peers d).1.file ≡ d.file))
unfolding save
save_atomic c peers d = ground arith

-- The file, opened, pins this key.
abbrev FilePins : Bytes → Bytes → Disk → Type 0
FilePins a k d = (m : Dict KnownPeer) × (open_file d.file ≡ Opened.ok m) × (pinned a m ≡ some k)

save-FilePins :
    (c : Calls) (m : Dict KnownPeer) (d : Disk) (a k : Bytes)
    → Survives a k
    → Keyed m
    → pinned a m ≡ some k
    → FilePins a k d
    → FilePins a k (save c m d).1
save-FilePins c m d a k v h p f = elim (save_atomic c m d) [
  | inl (done, file) ↦ rw file (load [] (read_all (list m)), refl, pinned-read_all m a k v h p)
  | inr (e, failed, file) ↦ rw file f
]

saved_ok-FilePins :
    (c : Calls) (m : Dict KnownPeer) (d : Disk) (a k : Bytes)
    → Survives a k
    → Keyed m
    → pinned a m ≡ some k
    → (save c m d).0 ≡ none
    → FilePins a k (save c m d).1
saved_ok-FilePins c m d a k v h p fine = elim (save_atomic c m d) [
  | inl (done, file) ↦ rw file (load [] (read_all (list m)), refl, pinned-read_all m a k v h p)
  | inr (e, failed, file) ↦ absurd (unequal e (sym failed ∙ fine))
]
  where
    unequal : (e : Error) → some e ≡ none → ⊥
    unequal e p = cc

pub record Holds (a k : Bytes) (s : Store) : Type 0 where
  pub keyed : Keyed s.peers
  pub memory : pinned a s.peers ≡ some k
  pub file : FilePins a k s.disk

abbrev Refused : Checked → Dict KnownPeer → Disk → Type 0
Refused r m d = (e : Error) × (r.error ≡ some e) × (r.peers ≡ m) × (r.disk ≡ d)

abbrev Saves : Calls → Bytes → Bytes → Checked → Disk → Type 0
Saves c alias key r d =
    (r.error ≡ (save c r.peers d).0)
    × (r.disk ≡ (save c r.peers d).1)
    × (pinned alias r.peers ≡ some (encode key))

-- A check either refuses and changes nothing, or pins the key and saves the whole map.
check_cases :
    (c : Calls) (alias key : Bytes) (now : ℕ) (m : Dict KnownPeer) (d : Disk)
    → Refused (check c alias key now m d) m d ⊎ Saves c alias key (check c alias key now m d) d
unfolding check pinned
check_cases c alias key now m d = elim (Bool-cases (length key == public_key_size)) [
  | inl sized ↦ rw sized (go (lookup alias m))
  | inr wrong ↦ rw wrong (inl (pubkey_size, refl, refl, refl))
]
  where
    go :
        (o : Option KnownPeer)
        → Refused (check_entry c alias (encode key) now m d o) m d
          ⊎ Saves c alias key (check_entry c alias (encode key) now m d o) d
    go none = inr (refl, refl, rw lookup-insert (rw str_eq_refl))
    go (some old) = elim (Bool-cases (str_eq old.pubkey_b64 (encode key))) [
      | inl same ↦
          rw same (
            inr (refl, refl, rw lookup-insert (rw str_eq_refl (ap some ((str_eq_iff _ _).0 same)))))
      | inr differs ↦ rw differs (inl (untrusted, refl, refl, refl))
    ]

check-FilePins :
    (c : Calls) (alias key : Bytes) (now : ℕ) (m : Dict KnownPeer) (d : Disk) (a k : Bytes)
    → Survives a k
    → Keyed m
    → pinned a m ≡ some k
    → FilePins a k d
    → FilePins a k (check c alias key now m d).disk
check-FilePins c alias key now m d a k v h p f = elim (check_cases c alias key now m d) [
  | inl (e, _, _, disk) ↦ rw disk f
  | inr (_, disk, _) ↦ rw disk (
      save-FilePins c _ d a k v (check-Keyed c alias key now m d h)
        (check-pinned c alias key now m d a k p) f)
]

forget-Holds :
    (c : Calls) (alias a k : Bytes) (s : Store)
    → Survives a k
    → str_eq alias a ≡ false
    → Holds a k s
    → Holds a k (step s (forgets c alias))
unfolding step forget
forget-Holds c alias a k s v apart h = elim (Option-cases (lookup alias s.peers)) [
  | inl e ↦ rw e (record { keyed = h.keyed; memory = h.memory; file = h.file })
  | inr (old, e) ↦ rw e (record {
    keyed = remove-Keyed alias s.peers h.keyed;
    memory = kept;
    file =
        save-FilePins c (remove alias s.peers) s.disk a k v (remove-Keyed alias s.peers h.keyed)
          kept h.file;
  })
]
  where
    kept : pinned a (remove alias s.peers) ≡ some k
    kept = unfold pinned in rw (lookup-remove, apart) h.memory

restart-Holds :
    (mkdir_fails read_fails : Bool) (a k : Bytes) (s : Store)
    → Holds a k s
    → Holds a k (step s (restarts mkdir_fails read_fails))
unfolding step open_keyring
restart-Holds true read_fails a k s h = record { keyed = h.keyed; memory = h.memory; file = h.file }
restart-Holds false true a k s h = record { keyed = h.keyed; memory = h.memory; file = h.file }
restart-Holds false false a k s h =
    let (m, opened, pin) = h.file in
    rw opened (record { keyed = open_file-Keyed s.disk.file m opened; memory = pin; file = h.file })

-- Every operation but forgetting the alias itself.
abbrev pub Keeps : Bytes → Operation → Type 0
Keeps a (forgets c alias) = str_eq alias a ≡ false
Keeps a _ = Unit

step-Holds :
    (a k : Bytes) (s : Store) (o : Operation)
    → Survives a k
    → Keeps a o
    → Holds a k s
    → Holds a k (step s o)
step-Holds a k s (checks c alias key now) v o h =
    unfold step in
    record {
      keyed = check-Keyed c alias key now s.peers s.disk h.keyed;
      memory = check-pinned c alias key now s.peers s.disk a k h.memory;
      file = check-FilePins c alias key now s.peers s.disk a k v h.keyed h.memory h.file;
    }
step-Holds a k s (forgets c alias) v o h = forget-Holds c alias a k s v o h
step-Holds a k s (restarts mkdir_fails read_fails) v o h =
    restart-Holds mkdir_fails read_fails a k s h

run-Holds :
    (a k : Bytes) (s : Store) (os : List Operation)
    → Survives a k
    → All (Keeps a) os
    → Holds a k s
    → Holds a k (run s os)
unfolding run
run-Holds a k s [] v n h = h
run-Holds a k s (o ∷ os) v n h = run-Holds a k (step s o) os v n.1 (step-Holds a k s o v n.0 h)

-- A check that reports no error has put the pin into the map and into the file.
check_ok-Holds :
    (c : Calls) (alias key : Bytes) (now : ℕ) (s : Store)
    → Plain alias
    → Keyed s.peers
    → (check c alias key now s.peers s.disk).error ≡ none
    → Holds alias (encode key) (step s (checks c alias key now))
unfolding step
check_ok-Holds c alias key now s plain h fine = elim (check_cases c alias key now s.peers s.disk) [
  | inl (e, error, _, _) ↦ absurd (unequal e (sym error ∙ fine))
  | inr (error, disk, pin) ↦ record {
    keyed = keyed;
    memory = pin;
    file = rw disk (
        saved_ok-FilePins c _ s.disk alias (encode key) (encode-Survives alias key plain) keyed pin
          (sym error ∙ fine));
  }
]
  where
    unequal : (e : Error) → some e ≡ none → ⊥
    unequal e p = cc

    keyed : Keyed (check c alias key now s.peers s.disk).peers
    keyed = check-Keyed c alias key now s.peers s.disk h

check_untrusted :
    (c : Calls) (alias key : Bytes) (now : ℕ) (m : Dict KnownPeer) (d : Disk) (k : Bytes)
    → pinned alias m ≡ some k
    → length key ≡ public_key_size
    → k ≢ encode key
    → check c alias key now m d
      ≡ record { first = false; error = some untrusted; peers = m; disk = d }
unfolding pinned check
check_untrusted c alias key now m d k p n ne = elim (Option-cases (lookup alias m)) [
  | inl e ↦ absurd (unequal (rw e at p))
  | inr (old, e) ↦ rw (e, check) (ground (arith, str_eq_iff old.pubkey_b64 (encode key), rw e at p))
]
  where
    unequal : none ≡ some k → ⊥
    unequal e = cc

-- In a keyring whose entries stand under their aliases, each once: once a check of an alias that is valid
-- UTF-8, without U+FFFD, has reported no error, any other key of 32 bytes for that alias is refused as
-- untrusted, with the map and the disk unchanged: after any checks of any aliases, any other alias
-- forgotten, any failed saves and any restarts.
pub tofu :
    (c c' : Calls) (alias key impostor : Bytes) (now later : ℕ) (s : Store) (os : List Operation)
    → Plain alias
    → Keyed s.peers
    → (check c alias key now s.peers s.disk).error ≡ none
    → All (Keeps alias) os
    → AreBytes key
    → AreBytes impostor
    → length impostor ≡ public_key_size
    → key ≢ impostor
    → let t = run (step s (checks c alias key now)) os in
      check c' alias impostor later t.peers t.disk
      ≡ record { first = false; error = some untrusted; peers = t.peers; disk = t.disk }
tofu c c' alias key impostor now later s os plain keyed fine keeps kb ib n ne =
    let t = run (step s (checks c alias key now)) os in
    let held =
      run-Holds alias (encode key) _ os (encode-Survives alias key plain) keeps
        (check_ok-Holds c alias key now s plain keyed fine) in
    check_untrusted c' alias impostor later t.peers t.disk (encode key) held.memory n
      (λ e. ne (encode_injective key impostor kb ib e))

-- In a keyring whose entries stand under their aliases, each once: after a check, of an alias that is valid
-- UTF-8 without U+FFFD, that reports no error, and any later operations that do not forget the alias, a
-- start that can read the file has the same key pinned for it.
pub pin_survives_restart :
    (c : Calls) (alias key : Bytes) (now : ℕ) (s : Store) (os : List Operation)
    → Plain alias
    → Keyed s.peers
    → (check c alias key now s.peers s.disk).error ≡ none
    → All (Keeps alias) os
    → (m : Dict KnownPeer) × (open_keyring false false
          (run (step s (checks c alias key now)) os).disk
        ≡ Opened.ok m)
      × (pinned alias m ≡ some (encode key))
unfolding open_keyring
pin_survives_restart c alias key now s os plain keyed fine keeps =
    (run-Holds alias (encode key) _ os (encode-Survives alias key plain) keeps
      (check_ok-Holds c alias key now s plain keyed fine)).file
