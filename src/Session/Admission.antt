-- ===== src/Session/Admission.antt =====
-- Who may open a session: `verifyPeer` and the part of `main` around it, which claudy-p2p/cmd/dav-owner
-- and claudy-p2p/cmd/dav-client share but for their messages, over the keyring of Identity.Keyring.
use some_go_foolery.Base.{
  ℕ, ◌≡◌, ◌≢◌, refl, sym, ap, ◌∙◌, subst, Bool, true, false, Option, none, some, List, [], length,
  if◌then◌else◌, All, ◌==◌,
}
use some_go_foolery.Base.Bytes.{Bytes, str_eq, str_eq_iff}
use some_go_foolery.Identity.{
  ParseError, Parsed, parse_public, sized, public_key_size, parse_public_size,
}
use some_go_foolery.Identity.Base64.{AreBytes, decode_string}
use some_go_foolery.Identity.Base64.Decoded.{decode_string-AreBytes}
use some_go_foolery.Identity.Keyring.{Calls, Error, Checked, untrusted, check}
use some_go_foolery.Identity.Utf8.{Plain}
use some_go_foolery.Identity.Keyring.Entries.{Keyed}
use some_go_foolery.Identity.Keyring.Pins.{Keeps, tofu}
use some_go_foolery.Identity.Keyring.Histories.{Store, Operation, checks, step, run}

pub data Refusal : Type 0 where
  no_pubkey : Refusal
  bad_pubkey : ParseError → Refusal
  keyring : Error → Refusal

abbrev pub refusal : Option Error → Option Refusal
refusal none = none
refusal (some e) = some (keyring e)

abbrev pub is_empty : Bytes → Bool
is_empty s = str_eq s []

abbrev pub check_parsed : Calls → Bytes → ℕ → Store → Parsed → Option Refusal × Store
check_parsed c alias now s (Parsed.err e) = (some (bad_pubkey e), s)
check_parsed c alias now s (Parsed.ok pub_key) =
    (refusal (check c alias pub_key now s.peers s.disk).error, step s (checks c alias pub_key now))

-- `verifyPeer`, with the keyring that it leaves.
unfoldable pub verify_peer : Calls → Bytes → Bytes → ℕ → Store → Option Refusal × Store
verify_peer c alias text now s =
    if is_empty alias
    then (none, s)
    else if is_empty text
    then (some no_pubkey, s)
    else check_parsed c alias now s (parse_public text)

-- How the start of a program ends, given the key that the envelope "ready" announces.
pub data Start : Type 0 where
  refused : Refusal → Start
  unannounced : Start
  unparsed : ParseError → Start
  paired : Bytes → Start

abbrev pub parsed_start : Parsed → Start
parsed_start (Parsed.err e) = unparsed e
parsed_start (Parsed.ok pub_key) = paired pub_key

abbrev pub after_verify : Bytes → Option Refusal → Start
after_verify text (some r) = refused r
after_verify text none = if is_empty text then unannounced else parsed_start (parse_public text)

unfoldable pub admit : Calls → Bytes → Bytes → ℕ → Store → Start × Store
admit c alias text now s = let r = verify_peer c alias text now s in (after_verify text r.0, r.1)

-- A start that pairs, under an alias: the text is that of the key, and the check of it reports no error.
pub record Pairs (c : Calls) (alias text : Bytes) (now : ℕ) (s : Store) (key : Bytes) : Type 0 where
  pub parsed : parse_public text ≡ Parsed.ok key
  pub checked : (check c alias key now s.peers s.disk).error ≡ none
  pub left : (admit c alias text now s).1 ≡ step s (checks c alias key now)

paired_from :
    (c : Calls) (alias text : Bytes) (now : ℕ) (s : Store) (key : Bytes)
    → is_empty alias ≡ false
    → (admit c alias text now s).0 ≡ paired key
    → Pairs c alias text now s key
unfolding admit verify_peer
paired_from c alias text now s key named h = by_text (is_empty text) (parse_public text) refl refl
  where
    key_of : {k : Bytes} → paired k ≡ paired key → k ≡ key
    key_of q = cc

    accepted :
        (k : Bytes) (e : Option Error)
        → is_empty text ≡ false
        → parse_public text ≡ Parsed.ok k
        → (check c alias k now s.peers s.disk).error ≡ e
        → after_verify text (refusal e) ≡ paired key
        → Pairs c alias text now s key
    accepted k (some e) b o r q = cc
    accepted k none b o r q =
        let same = key_of (rw (b, o) at q) in
        record {
          parsed = o ∙ ap Parsed.ok same;
          checked = ap (λ i. (check c alias i now s.peers s.disk).error) (sym same) ∙ r;
          left = rw (named, b, o) (ap (λ i. step s (checks c alias i now)) same);
        }

    by_text :
        (b : Bool) (o : Parsed)
        → is_empty text ≡ b
        → parse_public text ≡ o
        → Pairs c alias text now s key
    by_text true o e p = cc (rw (named, e) at h)
    by_text false (Parsed.err x) e p = cc (rw (named, e, p) at h)
    by_text false (Parsed.ok k) e p =
        accepted k (check c alias k now s.peers s.disk).error e p refl (rw (named, e, p) at h)

parsed-AreBytes : (text key : Bytes) → parse_public text ≡ Parsed.ok key → AreBytes key
unfolding parse_public
parsed-AreBytes text key h = by_decoded (decode_string text) refl h
  where
    same : {a b : Bytes} → Parsed.ok a ≡ Parsed.ok b → a ≡ b
    same q = cc

    by_decoded :
        (o : Option Bytes) → decode_string text ≡ o → sized o ≡ Parsed.ok key → AreBytes key
    by_decoded none e q = cc
    by_decoded (some raw) e q = by_size (length raw == public_key_size) q
      where
        by_size :
            (b : Bool)
            → (if b then Parsed.ok raw else Parsed.err ParseError.pubkey_size) ≡ Parsed.ok key
            → AreBytes key
        by_size true q = subst AreBytes (same q) (decode_string-AreBytes text raw e)
        by_size false q = cc

-- In a keyring whose entries stand under their aliases, each once: where a start ends paired under an
-- alias that is not empty and is valid UTF-8 without U+FFFD, and after it the keyring is used in any way
-- but not told to forget the alias, a later start under the alias that ends paired has the same key.
pub same_peer :
    (c c' : Calls) (alias text text' : Bytes) (now later : ℕ) (s : Store) (os : List Operation)
    (key key' : Bytes)
    → Plain alias
    → Keyed s.peers
    → is_empty alias ≡ false
    → (admit c alias text now s).0 ≡ paired key
    → All (Keeps alias) os
    → (admit c' alias text' later (run (admit c alias text now s).1 os)).0 ≡ paired key'
    → key ≡ key'
same_peer c c' alias text text' now later s os key key' plain keyed named start keeps again =
    by_test (str_eq key key') refl
  where
    first : Pairs c alias text now s key
    first = paired_from c alias text now s key named start

    t : Store
    t = run (step s (checks c alias key now)) os

    second : Pairs c' alias text' later t key'
    second =
        paired_from c' alias text' later t key' named
          (subst (λ u. (admit c' alias text' later (run u os)).0 ≡ paired key') first.left again)

    clash : key ≢ key' → ⊥
    clash ne =
        let refused_again =
          tofu c c' alias key key' now later s os plain keyed first.checked keeps
            (parsed-AreBytes text key first.parsed) (parsed-AreBytes text' key' second.parsed)
            (parse_public_size text' key' second.parsed) ne in
        none_is_no_error (sym second.checked ∙ ap (λ (r : Checked). r.error) refused_again)
      where
        none_is_no_error : none ≡ some untrusted → ⊥
        none_is_no_error q = cc

    by_test : (b : Bool) → str_eq key key' ≡ b → key ≡ key'
    by_test true e = (str_eq_iff key key').0 e
    by_test false e = absurd (clash (λ q. cc (e, (str_eq_iff key key').1 q)))
