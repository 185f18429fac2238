-- ===== src/Identity/KeyFile.antt =====
-- LoadOrCreate of claudy-p2p/internal/identity/identity.go, over what the file system answers.
use some_go_foolery.Base.{
  ◌≡◌, Bool, false, Option, none, some, ◌++◌, length, ◌==◌, arith, Option-cases, inl, inr,
  if◌then◌else◌,
}
use some_go_foolery.Base.Bytes.{Bytes}
use some_go_foolery.Identity.{Identity, seed_size}

-- How the system calls of one run turn out. `random` is the fresh seed, if the generator works; a
-- failed write leaves `torn` in the file's place.
pub record Calls : Type 0 where
  pub mkdir_fails : Bool
  pub read_fails : Bool
  pub random : Option Bytes
  pub write_fails : Bool
  pub torn : Option Bytes

pub data LoadError : Type 0 where
  mkdir_identity read_seed generate_seed write_seed seed_length : LoadError

pub data Loaded : Type 0 where
  ok : Identity → Loaded
  err : LoadError → Loaded

-- The Ed25519 keys of a seed: the standard library's, whose private key is the seed followed by the
-- public key.
module _ (public_of_seed : Bytes → Bytes) where
  abbrev pub identity_of_seed : Bytes → Identity
  identity_of_seed seed = record {
    private = seed ++ public_of_seed seed;
    public = public_of_seed seed;
  }

  abbrev pub create : Calls → Option Bytes → Option Bytes → Loaded × Option Bytes
  create c none file = (Loaded.err generate_seed, file)
  create c (some seed) file =
      if c.write_fails
      then (Loaded.err write_seed, c.torn)
      else (Loaded.ok (identity_of_seed seed), some seed)

  abbrev pub read_or_create : Calls → Option Bytes → Loaded × Option Bytes
  read_or_create c none = create c c.random none
  read_or_create c (some seed) =
      if length seed == seed_size
      then (Loaded.ok (identity_of_seed seed), some seed)
      else (Loaded.err seed_length, some seed)

  -- The result, and the content of identity.key afterwards.
  unfoldable pub load_or_create : Calls → Option Bytes → Loaded × Option Bytes
  load_or_create c file =
      if c.mkdir_fails
      then (Loaded.err mkdir_identity, file)
      else if c.read_fails
      then (Loaded.err read_seed, file)
      else read_or_create c file

  -- Once a run has returned an identity, every later run that can reach the file returns the same
  -- one and leaves the file alone, whatever its random source would give.
  pub load_or_create_stable :
      (c later : Calls) (file : Option Bytes) (id : Identity)
      → ((seed : Bytes) → c.random ≡ some seed → length seed ≡ seed_size)
      → (load_or_create c file).0 ≡ Loaded.ok id
      → later.mkdir_fails ≡ false
      → later.read_fails ≡ false
      → load_or_create later (load_or_create c file).1 ≡ (Loaded.ok id, (load_or_create c file).1)
  unfolding load_or_create
  load_or_create_stable c later none id sized h m r = elim (Option-cases c.random) [
    | inl e ↦ ground (arith, e)
    | inr (seed, e) ↦ ground (arith, e, sized seed)
  ]
  load_or_create_stable c later (some old) id sized h m r = ground arith

  -- A seed file that exists is never overwritten.
  load_or_create_keeps : (c : Calls) (seed : Bytes) → (load_or_create c (some seed)).1 ≡ some seed
  unfolding load_or_create
  load_or_create_keeps c seed = ground arith
