-- ===== src/Claudy/Mounts/Unmount.antt =====
-- On Linux claudy-p2p/cmd/claudy/main.go unmounts what it has mounted.
use mathlib.Core.List.{append_assoc}
use some_go_foolery.Base.{
  ℕ, ◌≡◌, ◌≢◌, refl, ap, ◌∙◌, false, some, [], ◌∷◌, ◌++◌, ==_iff, All, All-append, drop-append,
  arith,
}
use some_go_foolery.Base.Bytes.{Bytes, bytes, has_prefix, has_prefix-append}
use some_go_foolery.Claudy.Mounts.{linux, cut, cons_cut, mount_path, mount_url, unmount_args}

no_prefix : (c x : ℕ) (s sep : Bytes) → c ≢ x → has_prefix (c ∷ s) (x ∷ sep) ≡ false
unfolding has_prefix
no_prefix c x s sep h = ground (arith, ==_iff c x)

-- A text is cut at the first separator, if nothing before it starts like one.
cut-append :
    (x : ℕ) (sep before after : Bytes)
    → All (λ c. c ≢ x) before
    → cut (x ∷ sep) (before ++ (x ∷ sep ++ after)) ≡ some (before, after)
unfolding cut
cut-append x sep [] after h =
    rw (has_prefix-append (x ∷ sep) after)
      (ap (λ (t : Bytes). some ([], t)) (drop-append (x ∷ sep) after))
cut-append x sep (c ∷ before) after (h, hs) =
    rw (no_prefix c x (before ++ (x ∷ sep ++ after)) sep h)
      (ap (cons_cut c) (cut-append x sep before after hs))

-- On Linux the path that is recorded for a local address leads back to the URL that was mounted, whatever
-- the user's number, which has no letter: where the host has no colon and no comma, the unmount names it.
pub unmount_args_lem :
    (host port uid room out : Bytes)
    → All (λ c. c ≢ b':') host
    → All (λ c. c ≢ b',') host
    → All (λ c. c ≢ b'd') uid
    → let addr = host ++ (bytes ":" ++ port) in
      (path : Bytes) × (mount_path linux room addr uid out ≡ some path)
      × (unmount_args linux path ≡ bytes "mount" ∷ bytes "-u" ∷ mount_url linux addr ∷ [])
unfolding mount_path unmount_args mount_url
unmount_args_lem host port uid room out colon comma user = (
  bytes "/run/user/" ++ (uid ++ (bytes "/gvfs/dav:host=" ++ (host ++ (bytes ",port=" ++ port)))),
  rw (cut-append b':' [] host port colon) refl,
  rw (found, cut-append b',' (bytes "port=") host port comma) (simp append_assoc),
)
  where
    rest : Bytes
    rest = host ++ (bytes ",port=" ++ port)

    before : Bytes
    before = bytes "/run/user/" ++ (uid ++ bytes "/gvfs/")

    no_d : All (λ c. c ≢ b'd') before
    no_d =
        All-append _ (bytes "/run/user/") (uid ++ bytes "/gvfs/") (omega arith)
          (All-append _ uid (bytes "/gvfs/") user (omega arith))

    regrouped :
        bytes "/run/user/" ++ (uid ++ (bytes "/gvfs/dav:host=" ++ rest))
        ≡ before ++ (bytes "dav:host=" ++ rest)
    regrouped = simp append_assoc

    found :
        cut (bytes "dav:host=") (bytes "/run/user/" ++ (uid ++ (bytes "/gvfs/dav:host=" ++ rest)))
        ≡ some (before, rest)
    found =
        ap (cut (bytes "dav:host=")) regrouped ∙ cut-append b'd' (bytes "av:host=") before rest no_d
