-- ===== src/Tests/Admission.antt =====
-- Runs of the start, the tunnel, the streams and the proxy.
use mathlib.Core.List.{Perm, Sublist}
use some_go_foolery.Base.{
  ℕ, ◌≡◌, ◌⊎◌, ◌≤◌, ◌<◌, refl, false, none, some, List, [], ◌∷◌, ◌++◌, replicate, length,
}
use some_go_foolery.Base.Bytes.{Bytes, bytes, str_eq, contains}
use some_go_foolery.Base.Dict.{lookup, insert}
use some_go_foolery.Identity.{parse_public}
use some_go_foolery.Identity.Base64.{
  encode, encode_sextet, decode, decode_sextet, strip_breaks, decode_string,
}
use some_go_foolery.Identity.Keyring.{
  Calls, save, check, open_keyring, load, list, sort, insert_sorted,
}
use some_go_foolery.Identity.Utf8.{Plain, coerce, coerce_from, rune_tail}
use some_go_foolery.Identity.Keyring.Histories.{Store, Operation, restarts, run, step}
use some_go_foolery.Session.Admission.{paired, verify_peer, admit, same_peer}
use some_go_foolery.Session.Streams.{
  Streams, Event, stream, accepts, closes, on_incoming, offer, accept, backlog, offered,
  new_streams,
}
use some_go_foolery.Session.Streams as Streams
use some_go_foolery.Session.Streams.Delivery.{streams_lem}
use some_go_foolery.Session.Tunnel.{serve, Settled, serve_lem}
use some_go_foolery.Secure.Handshake.{Noise, Proves, ed25519_pub_to_x25519}
use some_go_foolery.Session.Proxy.{Pipe, shuttle, up, down, up_ends, down_ends}
use some_go_foolery.Session.Proxy

abbrev key : Bytes
key = replicate 32 1

abbrev text : Bytes
text = encode key

abbrev home : Bytes
home = bytes "home"

abbrev fine : Calls
fine = record { marshal_fails = false; write_fails = false; torn = none; rename_fails = false }

abbrev fresh : Store
fresh = record { peers = []; disk = record { file = none; tmp = none } }

starts : (admit fine home text 1 fresh).0 ≡ paired key
unfolding admit verify_peer parse_public decode_string decode strip_breaks decode_sextet encode
    encode_sextet check save lookup str_eq
starts = refl

abbrev restarted : List Operation
restarted = restarts false false ∷ []

starts_again :
    (admit fine home text 5 (run (admit fine home text 1 fresh).1 restarted)).0 ≡ paired key
unfolding admit verify_peer parse_public decode_string decode strip_breaks decode_sextet encode
    encode_sextet check save lookup str_eq run step open_keyring load list sort insert_sorted insert
    coerce coerce_from rune_tail
starts_again = refl

named : str_eq home [] ≡ false
unfolding str_eq
named = refl

home-Plain : Plain home
unfolding coerce coerce_from rune_tail contains
home-Plain = (refl, refl)

same_peer_example : key ≡ key
same_peer_example =
    same_peer fine fine home text text 1 5 fresh restarted key key home-Plain tt named starts
      (tt, tt) starts_again

abbrev traffic : List (Event ℕ)
traffic = stream 1 ∷ stream 2 ∷ accepts on_incoming ∷ closes ∷ []

delivered : (Streams.run traffic new_streams).0 ≡ 1 ∷ []
unfolding Streams.run offer accept Streams.close
delivered = refl

streams_lem_example :
    let (out, s) = Streams.run traffic new_streams in
    Perm (offered traffic) (out ++ (s.incoming ++ s.refused))
    × Sublist (out ++ s.incoming) (offered traffic)
    × (length s.incoming ≤ backlog)
    × ((s.refused ≡ []) ⊎ (backlog < length (offered traffic)))
streams_lem_example = streams_lem traffic

abbrev toy : Noise
toy = record {
  State = Bytes;
  CipherState = ℕ;
  sha512 = λ s. s ++ s;
  montgomery = λ p. some p;
  new_state = λ i x_priv x_pub peer. some x_pub;
  write_message = λ s. some (s, s, some (0, 1));
  read_message = λ s m. some (m, none);
  peer_static = λ s. s;
}

abbrev my_priv : Bytes
my_priv = replicate 64 5

abbrev pinned : Bytes
pinned = replicate 32 7

abbrev hello : Bytes
hello = 0 ∷ 32 ∷ pinned

converts : ed25519_pub_to_x25519 toy pinned ≡ some pinned
unfolding ed25519_pub_to_x25519
converts = refl

serve_lem_example :
    let t = serve toy false false my_priv pinned hello in
    Settled toy t × (((t.session ≡ none) × (t.written ≡ [])) ⊎ Proves toy my_priv hello pinned)
serve_lem_example = serve_lem toy false false my_priv pinned pinned hello converts

-- The answer that comes after the end of the request is lost.
cut_short :
    (shuttle
      (up (bytes "get") ∷ up_ends ∷ down (bytes "page") ∷ down_ends ∷ [])
      Proxy.opened).to_client
    ≡ []
unfolding shuttle
cut_short = refl
