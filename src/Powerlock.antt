-- ===== src/Powerlock.antt =====
-- The lock of claudy-p2p/internal/powerlock that keeps the host awake. The helper process or the pinned
-- thread of a platform is one flag: whether it holds the host awake.
use some_go_foolery.Base.{
  ℕ, zero, suc, ◌≡◌, refl, Bool, true, false, Option, none, some, if◌then◌else◌,
}

-- Which back end a platform has: a child process that is killed, or a thread that is told to stop.
pub data Backend : Type 0 where
  process thread : Backend

pub record Lock : Type 0 where
  pub cancelled : Bool
  pub impl : Option Backend

-- The host: `awake` while the back end holds; `stop_closed` is the channel of the thread.
pub record Host : Type 0 where
  pub awake : Bool
  pub stop_closed : Bool

abbrev pub idle : Host
idle = record { awake = false; stop_closed = false }

-- `Acquire`, given what acquirePlatform yields.
unfoldable pub acquire : Option Backend → Lock × Host
acquire none = (record { cancelled = true; impl = none }, idle)
acquire (some b) = (record { cancelled = false; impl = some b }, record idle { awake = true })

-- `release` of a back end: to kill a process again, or to wait for it again, is an error that is ignored;
-- the channel is closed if it is not.
unfoldable pub release_impl : Backend → Host → Host
release_impl process h = record h { awake = false }
release_impl thread h =
    if h.stop_closed
    then record h { awake = false }
    else record h { stop_closed = true; awake = false }

abbrev pub release_held : Option Backend → Host → Host
release_held none h = h
release_held (some b) h = release_impl b h

-- `Release`, also of a nil lock.
unfoldable pub release : Option Lock → Host → Option Lock × Host
release none h = (none, h)
release (some l) h = (some (record l { cancelled = true }), release_held l.impl h)

abbrev pub release_times : ℕ → Option Lock × Host → Option Lock × Host
release_times zero s = s
release_times (suc n) s = release_times n (release s.0 s.1)

abbrev pub held : Option Backend → Bool
held none = false
held (some b) = true

-- After the first release more of them change nothing.
released :
    (n : ℕ) (b : Option Backend)
    → let once = release (some (acquire b).0) (acquire b).1 in release_times n once ≡ once
unfolding release acquire release_impl
released zero b = refl
released (suc n) none = released n none
released (suc n) (some process) = released n (some process)
released (suc n) (some thread) = released n (some thread)

-- The host is kept awake from an acquire that finds a back end until the first release, and never without
-- one; and any number of releases does what one does.
release_lem :
    (n : ℕ) (b : Option Backend)
    → let (lock, host) = acquire b in
      let once = release (some lock) host in
      (host.awake ≡ held b) × (once.1.awake ≡ false) × (release_times n once ≡ once)
unfolding acquire release release_impl
release_lem n none = (refl, refl, released n none)
release_lem n (some process) = (refl, refl, released n (some process))
release_lem n (some thread) = (refl, refl, released n (some thread))
