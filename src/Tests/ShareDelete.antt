-- ===== src/Tests/ShareDelete.antt =====
-- Names and flags on Windows.
use some_go_foolery.Base.{
  ◌≡◌, ◌≢◌, refl, Bool, true, false, some, List, [], ◌∷◌, ◌++◌, All, arith, if◌then◌else◌,
}
use some_go_foolery.Base.Bytes.{Bytes, bytes, str_eq}
use some_go_foolery.Base.Paths.{slash, dot, dot_dot, split, elements, is_rooted, print, join_rev}
use some_go_foolery.Base.Elements.{Name}
use some_go_foolery.Ownerfs.ShareDelete.{
  resolve, Flags, Disposition, create_new, create_always, open_always, truncate_existing,
  open_existing,
}
use some_go_foolery.Ownerfs.ShareDelete.Escape.{Below, resolve_escapes, resolve_inside}
use some_go_foolery.Ownerfs.ShareDelete.Modes.{
  Windows, Effect, missing, already_exists, opened, emptied, created,
}

abbrev root : Bytes
root = bytes "/home/share"

secret : Name (bytes "secret")
secret = ((omega arith, λ e. cc), λ e. cc, λ e. cc)

abbrev share_last : Bytes
share_last = bytes "share"

abbrev share_above : List Bytes
share_above = bytes "home" ∷ []

share_elements : elements root ≡ share_last ∷ share_above
unfolding elements split str_eq
share_elements = refl

resolve_escapes_example :
    let name = slash ∷ dot_dot ++ slash ∷ bytes "secret" in
    (resolve root name ≡ some (print true (bytes "secret" ∷ share_above)))
    × (¬ Below (share_last ∷ share_above) (bytes "secret" ∷ share_above))
    × (resolve dot name ≡ some (dot_dot ++ slash ∷ bytes "secret"))
resolve_escapes_example =
    resolve_escapes root (bytes "secret") share_last share_above refl share_elements secret
      (λ e. cc) refl refl

beside_the_share : print true (bytes "secret" ∷ share_above) ≡ bytes "/home/secret"
unfolding join_rev
beside_the_share = refl

plain : All (λ s. s ≢ dot_dot) (split (bytes "/a/b"))
unfolding split
plain = (λ e. cc, (λ e. cc, (λ e. cc, tt)))

-- The default root, which is not absolute.
resolve_inside_example :
    (more : List Bytes) × (resolve dot (bytes "/a/b")
      ≡ some (print (is_rooted dot) (more ++ elements dot)))
resolve_inside_example = resolve_inside dot (bytes "/a/b") refl refl plain

-- The documented table.
abbrev table : Disposition → Bool → Effect
table create_new b = if b then already_exists else created
table create_always b = if b then emptied else created
table open_always b = if b then opened else created
table truncate_existing b = if b then emptied else missing
table open_existing b = if b then opened else missing

abbrev documented : Windows
documented = record {
  effect = table;
  create_new_effect = λ b. refl;
  create_always_effect = λ b. refl;
  open_always_effect = λ b. refl;
  truncate_existing_effect = λ b. refl;
  open_existing_effect = λ b. refl;
}

abbrev put : Flags
put = record {
  wronly = false;
  rdwr = true;
  append = false;
  create = true;
  excl = false;
  trunc = true;
}
