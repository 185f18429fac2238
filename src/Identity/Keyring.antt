-- ===== src/Identity/Keyring.antt =====
-- The trust-on-first-use store of claudy-p2p/internal/identity/keyring.go.
pub mod Entries
pub mod Histories
pub mod ReadBack
pub mod Pins
use some_go_foolery.Base.{
  ℕ, ◌≡◌, Bool, true, false, not, ◌&&◌, ◌||◌, Option, none, some, List, [], ◌∷◌, length, ◌==◌, ltb,
  if◌then◌else◌,
}
use some_go_foolery.Base.Bytes.{Bytes, str_eq}
use some_go_foolery.Base.Dict.{Dict, lookup, insert, remove}
use some_go_foolery.Identity.{public_key_size}
use some_go_foolery.Identity.Base64.{encode}
use some_go_foolery.Identity.Utf8.{coerce}

pub record KnownPeer : Type 0 where
  pub alias : Bytes
  pub pubkey_b64 : Bytes
  pub first_seen : ℕ
  pub last_seen : ℕ

-- What a file holds: the JSON that is made of these entries, or other bytes, with the entries that
-- `json.Unmarshal` makes of them, if any.
pub data Content : Type 0 where
  saved : List KnownPeer → Content
  other : Option (List KnownPeer) → Content

-- known_peers.json and its .tmp neighbour.
pub record Disk : Type 0 where
  pub file : Option Content
  pub tmp : Option Content

-- How the calls of one save turn out. A failed write leaves `torn` behind.
pub record Calls : Type 0 where
  pub marshal_fails : Bool
  pub write_fails : Bool
  pub torn : Option Content
  pub rename_fails : Bool

pub data Error : Type 0 where
  mkdir_keyring read_keyring parse_keyring pubkey_size untrusted : Error
  marshal_keyring write_tmp rename_keyring : Error

-- `a < b` of two strings.
unfoldable pub str_lt : Bytes → Bytes → Bool
str_lt [] [] = false
str_lt [] (y ∷ ys) = true
str_lt (x ∷ xs) [] = false
str_lt (x ∷ xs) (y ∷ ys) = ltb x y || (x == y && str_lt xs ys)

unfoldable pub insert_sorted : KnownPeer → List KnownPeer → List KnownPeer
insert_sorted e [] = e ∷ []
insert_sorted e (f ∷ fs) =
    let rest = insert_sorted e fs in if str_lt e.alias f.alias then e ∷ f ∷ fs else f ∷ rest

-- `sort.Slice` by alias. The aliases of a keyring differ, so the order is fixed.
unfoldable pub sort : List KnownPeer → List KnownPeer
sort [] = []
sort (e ∷ es) = insert_sorted e (sort es)

abbrev pub values : Dict KnownPeer → List KnownPeer
values [] = []
values ((k, e) ∷ m) = e ∷ values m

-- `List`, the snapshot that is also what a save writes.
unfoldable pub list : Dict KnownPeer → List KnownPeer
list peers = sort (values peers)

unfoldable pub save : Calls → Dict KnownPeer → Disk → Option Error × Disk
save c peers d =
    if c.marshal_fails
    then (some marshal_keyring, d)
    else if c.write_fails
    then (some write_tmp, record d { tmp = c.torn })
    else if c.rename_fails
    then (some rename_keyring, record d { tmp = some (saved (list peers)) })
    else (none, record { file = some (saved (list peers)); tmp = none })

-- The loop of `OpenKeyring` over the entries that it has parsed.
unfoldable pub load : Dict KnownPeer → List KnownPeer → Dict KnownPeer
load peers [] = peers
load peers (e ∷ es) = load (insert e.alias e peers) es

pub data Opened : Type 0 where
  ok : Dict KnownPeer → Opened
  err : Error → Opened

-- The entry that `json.Unmarshal` makes of the JSON of an entry.
abbrev pub read_back : KnownPeer → KnownPeer
read_back e = record e { alias = coerce e.alias; pubkey_b64 = coerce e.pubkey_b64 }

abbrev pub read_all : List KnownPeer → List KnownPeer
read_all [] = []
read_all (e ∷ es) = read_back e ∷ read_all es

abbrev pub parse : Content → Opened
parse (saved entries) = Opened.ok (load [] (read_all entries))
parse (other none) = Opened.err parse_keyring
parse (other (some entries)) = Opened.ok (load [] entries)

abbrev pub open_file : Option Content → Opened
open_file none = Opened.ok []
open_file (some content) = parse content

unfoldable pub open_keyring : Bool → Bool → Disk → Opened
open_keyring mkdir_fails read_fails d =
    if mkdir_fails
    then Opened.err mkdir_keyring
    else if read_fails
    then Opened.err read_keyring
    else open_file d.file

-- The two results of `Check`, with the map and the disk that it leaves.
pub record Checked : Type 0 where
  pub first : Bool
  pub error : Option Error
  pub peers : Dict KnownPeer
  pub disk : Disk

abbrev pub first_contact : Bytes → Bytes → ℕ → KnownPeer
first_contact alias pub_b64 now = record {
  alias = alias;
  pubkey_b64 = pub_b64;
  first_seen = now;
  last_seen = now;
}

abbrev pub saving : Bool → Calls → Dict KnownPeer → Disk → Checked
saving first c peers d = record {
  first = first;
  error = (save c peers d).0;
  peers = peers;
  disk = (save c peers d).1;
}

-- The entry is a pointer in Go, so its new time is written back to the map.
abbrev pub check_entry :
    Calls → Bytes → Bytes → ℕ → Dict KnownPeer → Disk → Option KnownPeer → Checked
check_entry c alias pub_b64 now peers d none =
    saving true c (insert alias (first_contact alias pub_b64 now) peers) d
check_entry c alias pub_b64 now peers d (some entry) =
    if str_eq entry.pubkey_b64 pub_b64
    then saving false c (insert alias (record entry { last_seen = now }) peers) d
    else record { first = false; error = some untrusted; peers = peers; disk = d }

unfoldable pub check : Calls → Bytes → Bytes → ℕ → Dict KnownPeer → Disk → Checked
check c alias key now peers d =
    if length key == public_key_size
    then check_entry c alias (encode key) now peers d (lookup alias peers)
    else record { first = false; error = some pubkey_size; peers = peers; disk = d }

abbrev pub forget_entry :
    Calls → Bytes → Dict KnownPeer → Disk → Option KnownPeer → Option Error × Dict KnownPeer × Disk
forget_entry c alias peers d none = (none, peers, d)
forget_entry c alias peers d (some entry) =
    let left = remove alias peers in ((save c left d).0, left, (save c left d).1)

unfoldable pub forget : Calls → Bytes → Dict KnownPeer → Disk → Option Error × Dict KnownPeer × Disk
forget c alias peers d = forget_entry c alias peers d (lookup alias peers)
