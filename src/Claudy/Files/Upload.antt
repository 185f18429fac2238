-- ===== src/Claudy/Files/Upload.antt =====
-- The upload route of claudy-p2p/cmd/claudy/main.go over `uploadFile` of claudy-p2p/cmd/claudy/files.go.
-- The multipart reader and the HTTP client are sequences of what they return; paths are those of a system
-- with slashes.
pub mod Targets
use some_go_foolery.Base.{
  ℕ, zero, suc, ◌≡◌, Bool, true, false, Option, none, some, List, [], ◌∷◌, ◌++◌, ◌==◌,
  if◌then◌else◌,
}
use some_go_foolery.Base.Bytes.{Bytes, bytes, str_eq}
use some_go_foolery.Base.Paths.{slash, base}
use some_go_foolery.Claudy.App.{App, is_empty}
use some_go_foolery.Claudy.Files.{Reply, Failure, upload_file}

pub record Part : Type 0 where
  pub form_name : Bytes
  pub file_name : Bytes

-- What NextPart returns before the end of the form: a part, with the reply to its PUT if one is sent, or
-- an error.
pub data Next : Type 0 where
  part : Part → Reply → Next
  broken : Next

-- The text ends in a slash.
abbrev pub ends_slash : Bytes → Bool
ends_slash [] = false
ends_slash (c ∷ []) = c == slash
ends_slash (c ∷ d ∷ s) = ends_slash (d ∷ s)

abbrev pub with_slash : Bytes → Bytes
with_slash dir = if ends_slash dir then dir else dir ++ slash ∷ []

unfoldable pub upload_dir : Bytes → Bytes
upload_dir p = with_slash (if is_empty p then slash ∷ [] else p)

unfoldable pub target : Bytes → Bytes → Bytes
target p filename = upload_dir p ++ base filename

pub data Uploaded : Type 0 where
  uploaded : ℕ → Uploaded
  bad_form : Uploaded
  failed : Failure → Uploaded

-- A part that is taken: a file with a name.
abbrev pub is_file : Part → Bool
is_file p =
    if str_eq p.form_name (bytes "file")
    then if is_empty p.file_name then false else true
    else false

-- The answer of the route, and the paths of the PUTs, in order.
abbrev pub and_put : Bytes → Uploaded × List Bytes → Uploaded × List Bytes
and_put t (r, puts) = (r, t ∷ puts)

-- What follows an upload: the rest of the loop, or its error.
abbrev pub after_put : Option Failure → Uploaded × List Bytes → Uploaded × List Bytes
after_put none rest = rest
after_put (some e) rest = (failed e, [])

unfoldable pub upload_loop : App → Bytes → ℕ → List Next → Uploaded × List Bytes
upload_loop a p n [] = (uploaded n, [])
upload_loop a p n (broken ∷ parts) = (bad_form, [])
upload_loop a p n (part f reply ∷ parts) =
    let sent =
      and_put (target p f.file_name)
        (after_put (upload_file a (target p f.file_name) reply) (upload_loop a p (suc n) parts)) in
    let skipped = upload_loop a p n parts in if is_file f then sent else skipped

-- The route, for the path of the query.
unfoldable pub upload : App → Bytes → List Next → Uploaded × List Bytes
upload a p parts = upload_loop a p 0 parts
