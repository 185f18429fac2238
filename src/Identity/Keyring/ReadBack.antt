-- ===== src/Identity/Keyring/ReadBack.antt =====
-- The pins that the file of claudy-p2p/internal/identity/keyring.go keeps.
use some_go_foolery.Base.{◌≡◌, ap, ◌∙◌, Option, none, some, []}
use some_go_foolery.Base.Bytes.{Bytes}
use some_go_foolery.Base.Dict.{Dict, lookup}
use some_go_foolery.Identity.Base64.{encode, encode-small}
use some_go_foolery.Identity.Utf8.{coerce, Plain, coerce_ascii}
use some_go_foolery.Identity.Keyring.{KnownPeer, list, load, read_all}
use some_go_foolery.Identity.Keyring.Entries.{Keyed, read_option, lookup-load-list}
use some_go_foolery.Identity.Keyring.Histories.{key_of, pinned}

-- The alias and the key that are written to the file are read back.
abbrev pub Survives : Bytes → Bytes → Type 0
Survives a k = Plain a × (coerce k ≡ k)

pub encode-Survives : (a key : Bytes) → Plain a → Survives a (encode key)
encode-Survives a key plain = (plain, coerce_ascii (encode key) (encode-small key))

read_pin :
    (o : Option KnownPeer) (k : Bytes)
    → coerce k ≡ k
    → key_of o ≡ some k
    → key_of (read_option o) ≡ some k
read_pin none k e h = cc
read_pin (some p) k e h = ap some (ap coerce (same h) ∙ e)
  where
    same : some p.pubkey_b64 ≡ some k → p.pubkey_b64 ≡ k
    same q = cc

pub pinned-read_all :
    (m : Dict KnownPeer) (a k : Bytes)
    → Survives a k
    → Keyed m
    → pinned a m ≡ some k
    → pinned a (load [] (read_all (list m))) ≡ some k
unfolding pinned
pinned-read_all m a k v h p = rw (lookup-load-list a m h v.0) (read_pin (lookup a m) k v.1 p)
