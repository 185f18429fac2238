-- ===== src/Identity/Keyring/Histories.antt =====
-- Runs of the keyring of claudy-p2p/internal/identity/keyring.go, and what every check keeps.
use some_go_foolery.Base.{
  ℕ, ◌≡◌, refl, subst, inl, inr, Bool, Option, none, some, List, [], ◌∷◌, Option-cases, arith,
}
use some_go_foolery.Base.Bytes.{Bytes, str_eq_iff}
use some_go_foolery.Base.Dict.{Dict, lookup, lookup-insert}
use some_go_foolery.Identity.Base64.{encode}
use some_go_foolery.Identity.Keyring.{
  KnownPeer, Disk, Content, saved, Calls, other, load, read_all, Opened, open_file, open_keyring,
  first_contact, check, forget,
}
use some_go_foolery.Identity.Keyring.Entries.{Keyed, insert-Keyed, load-Keyed}

abbrev pub key_of : Option KnownPeer → Option Bytes
key_of none = none
key_of (some e) = some e.pubkey_b64

-- The key that is pinned for an alias.
unfoldable pub pinned : Bytes → Dict KnownPeer → Option Bytes
pinned a m = key_of (lookup a m)

pub record Store : Type 0 where
  pub peers : Dict KnownPeer
  pub disk : Disk

pub data Operation : Type 0 where
  checks : Calls → Bytes → Bytes → ℕ → Operation
  forgets : Calls → Bytes → Operation
  restarts : Bool → Bool → Operation

abbrev reopened : Store → Opened → Store
reopened s (Opened.ok peers) = record s { peers = peers }
reopened s (Opened.err e) = s

-- A process that cannot open the keyring ends, and the next start reads the same disk.
unfoldable pub step : Store → Operation → Store
step s (checks c alias key now) =
    let r = check c alias key now s.peers s.disk in record { peers = r.peers; disk = r.disk }
step s (forgets c alias) =
    let r = forget c alias s.peers s.disk in record { peers = r.1; disk = r.2 }
step s (restarts mkdir_fails read_fails) = reopened s (open_keyring mkdir_fails read_fails s.disk)

unfoldable pub run : Store → List Operation → Store
run s [] = s
run s (o ∷ os) = run (step s o) os

pub check-pinned :
    (c : Calls) (alias key : Bytes) (now : ℕ) (m : Dict KnownPeer) (d : Disk) (a k : Bytes)
    → pinned a m ≡ some k
    → pinned a (check c alias key now m d).peers ≡ some k
unfolding pinned check
check-pinned c alias key now m d a k h = elim (Option-cases (lookup alias m)) [
  | inl e ↦
      rw (e, check)
        (ground (
          arith,
          lookup-insert alias a (first_contact alias (encode key) now) m,
          str_eq_iff alias a,
        ))
  | inr (old, e) ↦
      rw (e, check)
        (ground
          (arith, lookup-insert alias a (record old { last_seen = now }) m, str_eq_iff alias a))
]

-- Every entry of a keyed map has the alias that it is found under.
alias-lookup :
    (a : Bytes) (m : Dict KnownPeer) (e : KnownPeer) → Keyed m → lookup a m ≡ some e → e.alias ≡ a
unfolding lookup
alias-lookup a [] e h f = cc
alias-lookup a ((k, v) ∷ m) e h f = ground (arith, alias-lookup a m e h.2, str_eq_iff k a)

pub check-Keyed :
    (c : Calls) (alias key : Bytes) (now : ℕ) (m : Dict KnownPeer) (d : Disk)
    → Keyed m
    → Keyed (check c alias key now m d).peers
unfolding check
check-Keyed c alias key now m d h = elim (Option-cases (lookup alias m)) [
  | inl e ↦
      rw (e, check)
        (ground (arith, insert-Keyed alias (first_contact alias (encode key) now) m refl h))
  | inr (old, e) ↦
      rw (e, check)
        (ground (
          arith,
          insert-Keyed alias (record old { last_seen = now }) m (alias-lookup alias m old h e) h,
        ))
]

pub open_file-Keyed :
    (file : Option Content) (m : Dict KnownPeer) → open_file file ≡ Opened.ok m → Keyed m
open_file-Keyed none m e = ground (arith, e)
open_file-Keyed (some (saved es)) m e = subst Keyed (loaded e) (load-Keyed [] (read_all es) tt)
  where
    loaded : Opened.ok (load [] (read_all es)) ≡ Opened.ok m → load [] (read_all es) ≡ m
    loaded e = cc
open_file-Keyed (some (other (some es))) m e = subst Keyed (loaded e) (load-Keyed [] es tt)
  where
    loaded : Opened.ok (load [] es) ≡ Opened.ok m → load [] es ≡ m
    loaded e = cc
open_file-Keyed (some (other none)) m e = cc
