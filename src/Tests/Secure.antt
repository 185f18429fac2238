-- ===== src/Tests/Secure.antt =====
-- claudy-p2p/internal/secure with a cipher and a handshake that only copy.
use some_go_foolery.Base.{
  ℕ, suc, ◌+◌, ◌≡◌, ◌⊎◌, refl, true, false, Option, none, some, [], ◌∷◌, ◌++◌, length, take, drop,
  concat, replicate, List, length-append, arith,
}
use some_go_foolery.Base.Bytes.{Bytes, bytes, str_eq}
use some_go_foolery.Peer.Conn
use some_go_foolery.Peer.Conn.{frame, on_message, read}
use some_go_foolery.Peer.Conn.Bytestream.{pending}
use some_go_foolery.Peer.Link.{Event, writes, arrives, reads, new_link, step, steps}
use some_go_foolery.Session.Delivery.{delivered}
use some_go_foolery.Secure.Frame.{ok, read_full, read_frame, write_frame}
use some_go_foolery.Secure.Channel.{Cipher, write, write_loop}
use some_go_foolery.Secure.Channel.Stream.{read_many, read_many-write}
use some_go_foolery.Secure.Channel.Sizes.{Sized, write-Sized}
use some_go_foolery.Secure.Handshake.{
  Noise, Silent, Proves, do_handshake, ed25519_priv_to_x25519, ed25519_pub_to_x25519,
  responder_pinned,
}

two_bytes_then_payload : write_frame (bytes "ab") ≡ ok (0 ∷ 2 ∷ bytes "ab")
unfolding write_frame
two_bytes_then_payload = refl

tag_encrypt : ℕ → Bytes → Option (Bytes × ℕ)
tag_encrypt e p = some (replicate 16 e ++ p, suc e)

untag : ℕ → Bytes → Option (Bytes × ℕ)
untag d ct = some (drop 16 ct, suc d)

tag_encrypt-untag :
    (e d e' : ℕ) (p ct : Bytes)
    → e ≡ d
    → tag_encrypt e p ≡ some (ct, e')
    → (d' : ℕ) × (untag d ct ≡ some (p, d')) × (e' ≡ d')
unfolding tag_encrypt untag
tag_encrypt-untag e d e' p ct s h = (suc d, ground arith, ground arith)

length-tag_encrypt :
    (e e' : ℕ) (p ct : Bytes) → tag_encrypt e p ≡ some (ct, e') → length ct ≡ length p + 16
unfolding tag_encrypt
length-tag_encrypt e e' p ct h = ground (arith, length-append (replicate 16 e) p)

abbrev copying : Cipher
copying = record {
  State = ℕ;
  encrypt = tag_encrypt;
  decrypt = untag;
  Synced = λ e d. e ≡ d;
  encrypt-decrypt = tag_encrypt-untag;
  length-encrypt = length-tag_encrypt;
}

read_many-write_example :
    let w = write copying [] 0 (bytes "hello") in
    read_many copying
      (2 ∷ 9 ∷ 1 ∷ 1 ∷ 1 ∷ [])
      (record { dec = 0; read_buf = []; stream = concat w.frames })
    ≡ take w.total (bytes "hello")
read_many-write_example =
    read_many-write copying [] 0 0 (bytes "hello") (2 ∷ 9 ∷ 1 ∷ 1 ∷ 1 ∷ []) refl (omega arith)
      (omega arith)

write-Sized_example :
    Sized copying (bytes "hello") (write copying (false ∷ true ∷ []) 0 (bytes "hello"))
write-Sized_example = write-Sized copying (false ∷ true ∷ []) 0 (bytes "hello")

abbrev toy : Noise
toy = record {
  State = Bytes;
  CipherState = ℕ;
  sha512 = λ s. s ++ s;
  montgomery = λ p. some p;
  new_state = λ i x_priv x_pub peer. some x_pub;
  write_message = λ s. some (s, s, some (0, 1));
  read_message = λ s m. some (m, none);
  peer_static = λ s. s;
}

abbrev seed_and_key : Bytes
seed_and_key = replicate 64 5

abbrev pinned_key : Bytes
pinned_key = replicate 32 7

responder_pinned_example :
    Silent toy (do_handshake toy false false seed_and_key pinned_key (0 ∷ 32 ∷ pinned_key))
    ⊎ Proves toy seed_and_key (0 ∷ 32 ∷ pinned_key) pinned_key
unfolding ed25519_pub_to_x25519
responder_pinned_example =
    responder_pinned toy false seed_and_key pinned_key pinned_key (0 ∷ 32 ∷ pinned_key) refl

answers :
    (do_handshake toy false false seed_and_key pinned_key (0 ∷ 32 ∷ pinned_key)).written
    ≡ (0 ∷ 32 ∷ pinned_key) ∷ []
unfolding do_handshake ed25519_priv_to_x25519 ed25519_pub_to_x25519 read_frame read_full write_frame
    str_eq
answers = refl

abbrev greeting : Bytes
greeting = concat (write copying [] 0 (bytes "hi")).frames

-- One write of the frame, its arrival, and two reads.
abbrev crossing : List Event
crossing = writes [] greeting ∷ arrives frame ∷ reads 7 frame ∷ reads 64 frame ∷ []

crossed : (steps crossing new_link).conn.done ≡ false
unfolding steps step on_message read Conn.write Conn.write_loop write write_loop tag_encrypt
    write_frame
crossed = refl

crossing_counted : (steps crossing new_link).counted ≡ greeting
unfolding steps step on_message read Conn.write Conn.write_loop write write_loop tag_encrypt
    write_frame
crossing_counted = refl

crossing_drained : let l = steps crossing new_link in pending l.conn ++ concat l.under_way ≡ []
unfolding steps step on_message read Conn.write Conn.write_loop write write_loop tag_encrypt
    write_frame
crossing_drained = refl

delivered_example :
    let w = write copying [] 0 (bytes "hi") in
    read_many copying
      (1 ∷ 5 ∷ [])
      (record { dec = 0; read_buf = []; stream = (steps crossing new_link).got })
    ≡ take w.total (bytes "hi")
delivered_example =
    delivered copying [] 0 0 (bytes "hi") (1 ∷ 5 ∷ []) crossing refl (omega arith) (omega arith)
      crossed crossing_counted crossing_drained
