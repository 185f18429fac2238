-- ===== src/Ownerfs/Stack.antt =====
-- The file system that claudy-p2p/cmd/dav-owner/main.go gives to its WebDAV handler: the wrappers of
-- claudy-p2p/internal/ownerfs on top of each other.
use some_go_foolery.Base.{◌≡◌, ◌∙◌, List}
use some_go_foolery.Base.Bytes.{Bytes}
use some_go_foolery.Ownerfs.{FileSystem}
use some_go_foolery.Ownerfs.Client.{Call, after_calls}
use some_go_foolery.Ownerfs.Filter.{filter_junk}
use some_go_foolery.Ownerfs.Filter.Runs.{clear_calls, after_calls-filter_junk}
use some_go_foolery.Ownerfs.Normalize.{normalize_nfc, normal_calls, calls-normalize_nfc}
use some_go_foolery.Ownerfs.Cache.{cached}
use some_go_foolery.Ownerfs.Cache.Runs.{Thinner, after_calls-cached}

module _ (nfc : Bytes → Bytes) (fs : FileSystem) where
  -- The cache, over the junk filter, over the normal forms of names, over the directory.
  abbrev pub served : FileSystem
  served = cached (filter_junk (normalize_nfc nfc fs))

  -- What a client's calls change in the shared directory is what the same calls change there, less those
  -- that name junk, with every other name in its normal form, and less some stats and full listings, which
  -- the cache answers.
  pub served_lem :
      (cs : List Call) (w : served.World)
      → (ds : List Call) × Thinner cs ds
        × ((after_calls served cs w).inner
            ≡ after_calls fs (normal_calls nfc (clear_calls ds)) w.inner)
  served_lem cs w =
      let (ds, t, e) = after_calls-cached (filter_junk (normalize_nfc nfc fs)) cs w in
      (
        ds,
        t,
        e
            ∙ (after_calls-filter_junk (normalize_nfc nfc fs) ds w.inner
                ∙ calls-normalize_nfc nfc fs (clear_calls ds) w.inner),
      )
