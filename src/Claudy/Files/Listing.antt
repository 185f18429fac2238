-- ===== src/Claudy/Files/Listing.antt =====
-- `listFiles` of claudy-p2p/cmd/claudy/files.go: the entries that the file browser shows of a directory.
-- The XML decoder and the two time formats are parameters.
pub mod Names
use some_go_foolery.Base.{
  ℕ, suc, ◌+◌, ◌-◌, ◌*◌, ◌^◌, ◌<◌, ◌≡◌, Bool, true, false, Option, none, some, List, [], ◌∷◌, ◌++◌,
  leb, ltb, ◌==◌, if◌then◌else◌,
}
use some_go_foolery.Base.Int.{ℤ, pos, neg}
use some_go_foolery.Base.Bytes.{Bytes, bytes, str_eq, contains}
use some_go_foolery.Base.Paths.{slash, clean, base}
use some_go_foolery.Claudy.App.{App, is_empty}
use some_go_foolery.Claudy.Files.{
  in_range, path_unescape, Url, not_connected, no_proxy, url, connect_url,
}

pub record DavProp : Type 0 where
  pub display_name : Bytes
  pub collection : Bool
  pub content_length : Bytes
  pub last_modified : Bytes

pub record DavPropstat : Type 0 where
  pub prop : DavProp
  pub status : Bytes

pub record DavResponse : Type 0 where
  pub href : Bytes
  pub propstat : List DavPropstat

pub record FileEntry : Type 0 where
  pub name : Bytes
  pub size : ℤ
  pub modified : Bytes
  pub is_dir : Bool

pub record FilesList : Type 0 where
  pub path : Bytes
  pub entries : List FileEntry

abbrev pub no_prop : DavProp
no_prop = record { display_name = []; collection = false; content_length = []; last_modified = [] }

-- The first block whose status has 200 in it.
unfoldable pub found_prop : List DavPropstat → DavProp
found_prop [] = no_prop
found_prop (ps ∷ rest) = if contains ps.status (bytes "200") then ps.prop else found_prop rest

abbrev max_uint64 : ℕ
max_uint64 = 2 ^ 64 - 1

-- The loop of `strconv.ParseUint` in base 10: none for a byte that is no digit, and the largest value as
-- soon as the number is too large.
unfoldable pub parse_uint : ℕ → Bytes → Option ℕ
parse_uint n [] = some n
parse_uint n (c ∷ s) =
    let m = n * 10 + (c - b'0') in
    let rest = parse_uint m s in
    if in_range b'0' b'9' c then if ltb max_uint64 m then some max_uint64 else rest else none

abbrev pub positive : Option ℕ → ℤ
positive none = pos 0
positive (some n) = if leb (2 ^ 63) n then pos (2 ^ 63 - 1) else pos n

abbrev pub negative : Option ℕ → ℤ
negative none = pos 0
negative (some n) = if ltb (2 ^ 63) n then neg (2 ^ 63) else neg n

abbrev pub digits : Bytes → Option ℕ
digits [] = none
digits (c ∷ s) = parse_uint 0 (c ∷ s)

-- The first result of `strconv.ParseInt(s, 10, 64)`.
unfoldable pub parse_int : Bytes → ℤ
parse_int [] = pos 0
parse_int (c ∷ s) =
    if c == b'+'
    then positive (digits s)
    else if c == b'-'
    then negative (digits s)
    else positive (digits (c ∷ s))

-- `strings.TrimPrefix(s, "/")` and `strings.TrimSuffix(s, "/")`.
unfoldable pub trim_prefix : Bytes → Bytes
trim_prefix [] = []
trim_prefix (c ∷ s) = if c == slash then s else c ∷ s

unfoldable pub trim_suffix : Bytes → Bytes
trim_suffix [] = []
trim_suffix (c ∷ []) = if c == slash then [] else c ∷ []
trim_suffix (c ∷ d ∷ s) = c ∷ trim_suffix (d ∷ s)

-- The path in its canonical form. `Clean` of a rooted path is never empty.
unfoldable pub tidy : Bytes → Bytes
tidy p = clean (slash ∷ trim_suffix (trim_prefix p))

abbrev pub decoded : Bytes → Option Bytes → Bytes
decoded href none = href
decoded href (some s) = s

abbrev pub href_clean : DavResponse → Bytes
href_clean r = tidy (decoded r.href (path_unescape r.href))

abbrev pub name_of : DavProp → Bytes → Bytes
name_of pr clean_href = if is_empty pr.display_name then base clean_href else pr.display_name

-- What comes of the PROPFIND: an error of the client, a status, and what the decoder makes of the body.
pub data Answer : Type 0 where
  no_answer : Answer
  answer : ℕ → Option (List DavResponse) → Answer

pub data Listed : Type 0 where
  no_url propfind_failed not_multistatus bad_xml : Listed
  listed : FilesList → Listed

-- The time in RFC3339, if the text parses in one of the two formats.
module _ (parse_rfc1123 parse_rfc1123z : Bytes → Option Bytes) where
  abbrev pub reformat : Option Bytes → Option Bytes → Bytes → Bytes
  reformat (some t) z s = t
  reformat none (some t) s = t
  reformat none none s = s

  abbrev pub modified_of : Bytes → Bytes
  modified_of s = if is_empty s then [] else reformat (parse_rfc1123 s) (parse_rfc1123z s) s

  abbrev pub entry : Bytes → DavProp → FileEntry
  entry clean_href pr = record {
    name = name_of pr clean_href;
    size = parse_int pr.content_length;
    modified = modified_of pr.last_modified;
    is_dir = pr.collection;
  }

  -- The loop over the responses, for the canonical path of the request.
  unfoldable pub entries_of : Bytes → List DavResponse → List FileEntry
  entries_of canon [] = []
  entries_of canon (r ∷ rs) =
      let rest = entries_of canon rs in
      if str_eq (href_clean r) canon
      then rest
      else entry (href_clean r) (found_prop r.propstat) ∷ rest

  unfoldable pub list_of : Bytes → List DavResponse → FilesList
  list_of p rs = record { path = tidy p; entries = entries_of (tidy p) rs }

  abbrev pub listed_from : Bytes → Answer → Listed
  listed_from p no_answer = propfind_failed
  listed_from p (answer code none) = if code == 207 then bad_xml else not_multistatus
  listed_from p (answer code (some rs)) =
      if code == 207 then listed (list_of p rs) else not_multistatus

  abbrev pub list_at : Url → Bytes → Answer → Listed
  list_at not_connected p a = no_url
  list_at no_proxy p a = no_url
  list_at (url u) p a = listed_from p a

  -- `listFiles`.
  unfoldable pub list_files : App → Bytes → Answer → Listed
  list_files a p r = list_at (connect_url a p) p r
