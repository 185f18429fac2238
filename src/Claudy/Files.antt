-- ===== src/Claudy/Files.antt =====
-- The file browser of claudy-p2p/cmd/claudy/files.go: the URL of a path on the local proxy, and the
-- requests to it. What the HTTP package answers is an argument.
pub mod Escaping
pub mod Listing
pub mod Upload
pub mod Download
use some_go_foolery.Base.{
  ℕ, ◌+◌, ◌-◌, ◌*◌, ◌/◌, ◌%◌, ◌≡◌, Bool, true, false, ◌&&◌, ◌||◌, Option, none, some, List, [], ◌∷◌,
  ◌++◌, map, leb, ltb, ◌==◌, if◌then◌else◌,
}
use some_go_foolery.Base.Bytes.{Bytes, bytes, str_eq}
use some_go_foolery.Base.Paths.{slash, split, is_rooted}
use some_go_foolery.Claudy.Subprocess.{Subprocess}
use some_go_foolery.Claudy.App.{App, is_empty}

abbrev pub percent : ℕ
percent = b'%'

abbrev pub in_range : ℕ → ℕ → ℕ → Bool
in_range lo hi c = leb lo c && leb c hi

-- The bytes that `url.PathEscape` leaves alone: letters, digits, -_.~ and $&+:=@.
unfoldable pub is_plain : ℕ → Bool
is_plain c =
    in_range b'a' b'z' c
    || in_range b'A' b'Z' c
    || in_range b'0' b'9' c
    || c == b'-'
    || c == b'_'
    || c == b'.'
    || c == b'~'
    || c == b'$'
    || c == b'&'
    || c == b'+'
    || c == b':'
    || c == b'='
    || c == b'@'

-- A hexadecimal digit in upper case.
abbrev pub hex : ℕ → ℕ
hex d = if ltb d 10 then b'0' + d else b'A' + (d - 10)

unfoldable pub escape_byte : ℕ → Bytes
escape_byte c = if is_plain c then c ∷ [] else percent ∷ hex (c / 16) ∷ hex (c % 16) ∷ []

-- `url.PathEscape`.
unfoldable pub path_escape : Bytes → Bytes
path_escape [] = []
path_escape (c ∷ s) = escape_byte c ++ path_escape s

-- The value of a hexadecimal digit of either case.
abbrev pub hex_value : ℕ → Option ℕ
hex_value c =
    if in_range b'0' b'9' c
    then some (c - b'0')
    else if in_range b'a' b'f' c
    then some (c - b'a' + 10)
    else if in_range b'A' b'F' c
    then some (c - b'A' + 10)
    else none

abbrev pub cons_byte : Option ℕ → Option Bytes → Option Bytes
cons_byte (some c) (some s) = some (c ∷ s)
cons_byte (some c) none = none
cons_byte none s = none

abbrev pub hex_byte : Option ℕ → Option ℕ → Option ℕ
hex_byte (some a) (some b) = some (a * 16 + b)
hex_byte (some a) none = none
hex_byte none b = none

-- `url.PathUnescape`, where a percent sign takes two digits.
unfoldable pub path_unescape : Bytes → Option Bytes
path_unescape [] = some []
path_unescape (c ∷ []) = if c == percent then none else some (c ∷ [])
path_unescape (c ∷ a ∷ []) =
    let rest = path_unescape (a ∷ []) in if c == percent then none else cons_byte (some c) rest
path_unescape (c ∷ a ∷ b ∷ s) =
    let coded = cons_byte (hex_byte (hex_value a) (hex_value b)) (path_unescape s) in
    let plain = cons_byte (some c) (path_unescape (a ∷ b ∷ s)) in
    if c == percent then coded else plain

-- `strings.Join` with slashes.
abbrev pub join_slash : List Bytes → Bytes
join_slash [] = []
join_slash (s ∷ []) = s
join_slash (s ∷ t ∷ ts) = s ++ slash ∷ join_slash (t ∷ ts)

-- The path from which the URL is made; an empty one is the root.
unfoldable pub rooted : Bytes → Bytes
rooted p = if is_rooted p then p else slash ∷ p

abbrev pub escape_all : List Bytes → List Bytes
escape_all [] = []
escape_all (s ∷ ss) = path_escape s ∷ escape_all ss

unfoldable pub url_path : Bytes → Bytes
url_path p = join_slash (escape_all (split (rooted p)))

pub data Url : Type 0 where
  not_connected no_proxy : Url
  url : Bytes → Url

abbrev pub url_of : Option Subprocess → Bytes → Url
url_of none p = not_connected
url_of (some sp) p =
    if is_empty sp.local_addr
    then no_proxy
    else url (bytes "http://" ++ (sp.local_addr ++ url_path p))

-- `connectURL`.
unfoldable pub connect_url : App → Bytes → Url
connect_url a p = url_of a.connect p

pub data Method : Type 0 where
  propfind get put mkcol delete : Method

-- The request that a function sends, if it sends one.
abbrev pub request : Method → Url → Option (Method × Bytes)
request m not_connected = none
request m no_proxy = none
request m (url u) = some (m, u)

-- What the HTTP client gives: an error, or a status.
pub data Reply : Type 0 where
  no_reply : Reply
  status : ℕ → Reply

-- The result of a function without a value: none is no error.
pub data Failure : Type 0 where
  no_url transport : Failure
  bad_status : ℕ → Failure

abbrev pub below_400 : Reply → Option Failure
below_400 no_reply = some transport
below_400 (status n) = if leb 400 n then some (bad_status n) else none

abbrev pub when_connected : Url → Option Failure → Option Failure
when_connected not_connected r = some no_url
when_connected no_proxy r = some no_url
when_connected (url u) r = r

unfoldable pub upload_file : App → Bytes → Reply → Option Failure
upload_file a p r = when_connected (connect_url a p) (below_400 r)

abbrev pub made_or_there : Reply → Option Failure
made_or_there no_reply = some transport
made_or_there (status n) =
    if n == 405 then none else if leb 400 n then some (bad_status n) else none

unfoldable pub mkdir : App → Bytes → Reply → Option Failure
mkdir a p r = when_connected (connect_url a p) (made_or_there r)

unfoldable pub rm : App → Bytes → Reply → Option Failure
rm a p r = when_connected (connect_url a p) (below_400 r)
