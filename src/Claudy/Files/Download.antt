-- ===== src/Claudy/Files/Download.antt =====
-- `downloadFile` of claudy-p2p/cmd/claudy/files.go, and the routes of claudy-p2p/cmd/claudy/main.go over the
-- file browser. The table of MIME types is a parameter; a body is not looked into.
use some_go_foolery.Base.{◌≡◌, refl, ℕ, Option, none, some, [], ◌∷◌, ◌++◌, ◌==◌, if◌then◌else◌}
use some_go_foolery.Base.Bytes.{Bytes, bytes}
use some_go_foolery.Base.Paths.{slash, base}
use some_go_foolery.Claudy.App.{App, is_empty}
use some_go_foolery.Claudy.Files.{
  Url, not_connected, no_proxy, url, connect_url, path_escape, Failure, no_url, transport,
  bad_status, Reply, mkdir, rm,
}
use some_go_foolery.Claudy.Files.Listing.{Answer, Listed, listed, list_files}

-- The last dot of a text and what follows, before any slash from the end; empty if there is none:
-- `path.Ext`. Given the extension found so far.
unfoldable pub ext_from : Bytes → Bytes → Bytes
ext_from found [] = found
ext_from found (c ∷ s) = ext_from (if c == slash then [] else if c == b'.' then c ∷ s else found) s

-- The answer of the proxy to a GET: its status, and its two headers, empty if missing.
pub record Got : Type 0 where
  pub status : ℕ
  pub content_type : Bytes
  pub content_length : Bytes

-- What the browser gets: the error, or the headers in front of the body.
pub record Headers : Type 0 where
  pub content_type : Bytes
  pub content_disposition : Bytes
  pub content_length : Option Bytes

pub data Download : Type 0 where
  failed : Failure → Download
  sends : Headers → Download

module _ (type_by_extension : Bytes → Bytes) where
  abbrev pub or_octets : Bytes → Bytes
  or_octets t = if is_empty t then bytes "application/octet-stream" else t

  abbrev pub type_of : Got → Bytes → Bytes
  type_of g filename =
      if is_empty g.content_type
      then or_octets (type_by_extension (ext_from [] filename))
      else g.content_type

  abbrev pub headers : Got → Bytes → Headers
  headers g filename = record {
    content_type = type_of g filename;
    content_disposition = bytes "attachment; filename*=UTF-8''" ++ path_escape filename;
    content_length = if is_empty g.content_length then none else some g.content_length;
  }

  abbrev pub got : Bytes → Option Got → Download
  got p none = failed transport
  got p (some g) =
      if g.status == 200 then sends (headers g (base p)) else failed (bad_status g.status)

  abbrev pub download_at : Url → Bytes → Option Got → Download
  download_at not_connected p g = failed no_url
  download_at no_proxy p g = failed no_url
  download_at (url u) p g = got p g

  -- `downloadFile`.
  unfoldable pub download_file : App → Bytes → Option Got → Download
  download_file a p g = download_at (connect_url a p) p g

-- The method of a request to the browser's service.
pub data Verb : Type 0 where
  get post delete other : Verb

-- What a route answers: a status, or a list of files.
pub data Response : Type 0 where
  code : ℕ → Response
  files : Listed → Response

abbrev no_content_or_500 : Option Failure → Response
no_content_or_500 none = code 204
no_content_or_500 (some e) = code 500

abbrev listing_or_500 : Listed → Response
listing_or_500 (listed l) = files (listed l)
listing_or_500 e = code 500

-- The route /api/files, given what the proxy would answer to each of its requests.
unfoldable pub files_route :
    (Bytes → Option Bytes) → (Bytes → Option Bytes) → App → Verb → Bytes → Answer → Reply → Response
files_route z1 z2 a get p found reply = listing_or_500 (list_files z1 z2 a p found)
files_route z1 z2 a delete p found reply = no_content_or_500 (rm a p reply)
files_route z1 z2 a post p found reply = code 405
files_route z1 z2 a other p found reply = code 405

-- The route /api/files/mkdir.
unfoldable pub mkdir_route : App → Verb → Bytes → Reply → Response
mkdir_route a post p reply = no_content_or_500 (mkdir a p reply)
mkdir_route a get p reply = code 405
mkdir_route a delete p reply = code 405
mkdir_route a other p reply = code 405

-- The status and headers of the route /api/files/get. An error is only logged, and nothing is written: the
-- HTTP package then answers 200 with no body.
abbrev pub sent : Download → ℕ × Option Headers
sent (failed e) = (200, none)
sent (sends h) = (200, some h)

unfoldable pub download_route :
    (Bytes → Bytes) → App → Verb → Bytes → Option Got → ℕ × Option Headers
download_route types a get p g = sent (download_file types a p g)
download_route types a post p g = (405, none)
download_route types a delete p g = (405, none)
download_route types a other p g = (405, none)

-- Whatever goes wrong with a download, the browser is told that it went well.
download_route_status :
    (types : Bytes → Bytes) (a : App) (p : Bytes) (g : Option Got)
    → (download_route types a get p g).0 ≡ 200
unfolding download_route
download_route_status types a p g = always (download_file types a p g)
  where
    always : (d : Download) → (sent d).0 ≡ 200
    always (failed e) = refl
    always (sends h) = refl
