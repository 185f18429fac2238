-- ===== src/Tests/Identity.antt =====
-- claudy-p2p/internal/identity on small inputs.
use some_go_foolery.Base.{
  ◌≡◌, ◌≢◌, ◌⊎◌, refl, true, false, none, some, List, [], ◌∷◌, replicate, All, arith,
}
use some_go_foolery.Base.Bytes.{Bytes, bytes, str_eq, contains}
use some_go_foolery.Base.Dict.{Dict, lookup, insert}
use some_go_foolery.Identity.Base64.{
  encode_sextet, decode_sextet, encode, decode, strip_breaks, decode_string,
}
use some_go_foolery.Identity.KeyFile
use some_go_foolery.Identity.KeyFile.{
  Loaded, load_or_create, load_or_create_stable, identity_of_seed,
}
use some_go_foolery.Identity.Keyring.{
  KnownPeer, Error, Calls, saved, untrusted, Opened, str_lt, insert_sorted, sort, list, save,
  open_keyring, load, check, first_contact,
}
use some_go_foolery.Identity.Utf8.{Plain, coerce, coerce_from, rune_tail}
use some_go_foolery.Identity.Keyring.Pins.{Keeps, save_atomic, tofu, pin_survives_restart}
use some_go_foolery.Identity.Keyring.Histories.{
  Store, Operation, checks, restarts, forgets, step, run, pinned,
}

encoded : encode (bytes "claudy") ≡ bytes "Y2xhdWR5"
unfolding encode encode_sextet
encoded = refl

decoded_with_break : decode_string (bytes "Y2x") ≡ some (bytes "cl")
unfolding decode_string decode strip_breaks decode_sextet
decoded_with_break = refl

abbrev key_a : Bytes
key_a = replicate 32 1

abbrev key_b : Bytes
key_b = replicate 32 2

key_a_ne_key_b : key_a ≢ key_b
key_a_ne_key_b e = ground (arith, e)

abbrev key_calls : KeyFile.Calls
key_calls = record {
  mkdir_fails = false;
  read_fails = false;
  random = some key_a;
  write_fails = false;
  torn = none;
}

abbrev other_calls : KeyFile.Calls
other_calls = record key_calls { random = some key_b; write_fails = true }

abbrev public_of_seed : Bytes → Bytes
public_of_seed seed = seed

abbrev fine_calls : Calls
fine_calls = record {
  marshal_fails = false;
  write_fails = false;
  torn = none;
  rename_fails = false;
}

abbrev failing_calls : Calls
failing_calls = record fine_calls { write_fails = true; torn = some (saved []) }

abbrev empty_store : Store
empty_store = record { peers = []; disk = record { file = none; tmp = none } }

save_atomic_example :
    (((save failing_calls [] empty_store.disk).0 ≡ none)
      × ((save failing_calls [] empty_store.disk).1.file ≡ some (saved (list []))))
    ⊎ ((e : Error) × ((save failing_calls [] empty_store.disk).0 ≡ some e)
        × ((save failing_calls [] empty_store.disk).1.file ≡ none))
save_atomic_example = save_atomic failing_calls [] empty_store.disk

abbrev home : Bytes
home = bytes "home-pc"

abbrev peer_named : Bytes → KnownPeer
peer_named alias = first_contact alias [] 0

sorted_by_alias :
    list ((bytes "b", peer_named (bytes "b")) ∷ (bytes "a", peer_named (bytes "a")) ∷ [])
    ≡ peer_named (bytes "a") ∷ peer_named (bytes "b") ∷ []
unfolding list sort insert_sorted str_lt
sorted_by_alias = refl

abbrev later_operations : List Operation
later_operations =
    checks failing_calls home key_b 5
    ∷ restarts false false
    ∷ forgets failing_calls (bytes "x")
    ∷ []

first_check_fine : (check fine_calls home key_a 1 empty_store.peers empty_store.disk).error ≡ none
unfolding check save lookup
first_check_fine = refl

later_keep : All (Keeps home) later_operations
unfolding str_eq
later_keep = (tt, (tt, (refl, tt)))

home-Plain : Plain home
unfolding coerce coerce_from rune_tail contains
home-Plain = (refl, refl)

-- An alias that is not valid UTF-8 loses its pin at a restart: another key is taken for a first contact.
abbrev latin : Bytes
latin = 255 ∷ []

pin_is_lost :
    let s = step empty_store (checks fine_calls latin key_a 1) in
    let t = step s (restarts false false) in
    ((check fine_calls latin key_b 5 s.peers s.disk).error ≡ some untrusted)
    × ((check fine_calls latin key_b 5 t.peers t.disk).error ≡ none)
unfolding step check save lookup open_keyring load list sort insert_sorted insert coerce coerce_from
    rune_tail str_eq encode encode_sextet
pin_is_lost = (refl, refl)

coerced :
    (coerce (195 ∷ 169 ∷ []) ≡ 195 ∷ 169 ∷ [])
    × (coerce (195 ∷ 65 ∷ []) ≡ 239 ∷ 191 ∷ 189 ∷ 65 ∷ [])
    × (coerce (224 ∷ 128 ∷ []) ≡ 239 ∷ 191 ∷ 189 ∷ 239 ∷ 191 ∷ 189 ∷ [])
    × (coerce (240 ∷ 159 ∷ 152 ∷ 128 ∷ []) ≡ 240 ∷ 159 ∷ 152 ∷ 128 ∷ [])
unfolding coerce coerce_from rune_tail
coerced = (refl, refl, refl, refl)

tofu_example :
    let t = run (step empty_store (checks fine_calls home key_a 1)) later_operations in
    check fine_calls home key_b 9 t.peers t.disk
    ≡ record { first = false; error = some untrusted; peers = t.peers; disk = t.disk }
tofu_example =
    tofu fine_calls fine_calls home key_a key_b 1 9 empty_store later_operations home-Plain tt
      first_check_fine later_keep (omega arith) (omega arith) refl key_a_ne_key_b

pin_survives_restart_example :
    (m : Dict KnownPeer) × (open_keyring false false
        (run (step empty_store (checks fine_calls home key_a 1)) later_operations).disk
      ≡ Opened.ok m)
    × (pinned home m ≡ some (encode key_a))
pin_survives_restart_example =
    pin_survives_restart fine_calls home key_a 1 empty_store later_operations home-Plain tt
      first_check_fine later_keep
