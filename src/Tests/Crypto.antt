-- ===== src/Tests/Crypto.antt =====
-- Base64 texts and hashes (src/crypto/base64.cpp, src/crypto/sha256.cpp).
use chess_engine.Base.Lists.{replicate}
use chess_engine.Crypto.Sha256.{hash, update, reset}
use chess_engine.Crypto.Streaming.{update-append}
use chess_engine.Base.{◌++◌}
use chess_engine.Base.{◌≡◌, refl, true, false, [], ◌∷◌, some, none, arith, inl}
use chess_engine.Crypto.Base64.{alphabet, url_alphabet, encode, decode_base64, decode_base64url}
use chess_engine.Crypto.RoundTrip.{decode-encode}

-- "Ma" as "TWE=".
encode_test : encode alphabet true (77 ∷ 97 ∷ []) ≡ 84 ∷ 87 ∷ 69 ∷ 61 ∷ []
unfolding encode
encode_test = refl

-- "TWF=" has bits left over.
decode_test : decode_base64 (84 ∷ 87 ∷ 70 ∷ 61 ∷ []) 0 ≡ none
unfolding decode_base64
decode_test = refl

decode-encode_example :
    (decode_base64 (encode alphabet true (77 ∷ 97 ∷ 110 ∷ 255 ∷ [])) 0
      ≡ some (77 ∷ 97 ∷ 110 ∷ 255 ∷ []))
    × (decode_base64url (encode url_alphabet false (77 ∷ 97 ∷ 110 ∷ 255 ∷ [])) 0
        ≡ some (77 ∷ 97 ∷ 110 ∷ 255 ∷ []))
decode-encode_example =
    decode-encode (77 ∷ 97 ∷ 110 ∷ 255 ∷ []) 0
      (omega arith, (omega arith, (omega arith, (omega arith, tt)))) (inl refl)

-- "abc", whose hash begins with ba7816bf and ends with f20015ad.
hash_test :
    hash (97 ∷ 98 ∷ 99 ∷ [])
    ≡ 0xba ∷ 0x78 ∷ 0x16 ∷ 0xbf ∷ 0x8f ∷ 0x01 ∷ 0xcf ∷ 0xea ∷ 0x41 ∷ 0x41 ∷ 0x40 ∷ 0xde ∷ 0x5d
      ∷ 0xae ∷ 0x22 ∷ 0x23 ∷ 0xb0 ∷ 0x03 ∷ 0x61 ∷ 0xa3 ∷ 0x96 ∷ 0x17 ∷ 0x7a ∷ 0x9c ∷ 0xb4 ∷ 0x10
      ∷ 0xff ∷ 0x61 ∷ 0xf2 ∷ 0x00 ∷ 0x15 ∷ 0xad ∷ []
unfolding hash
hash_test = refl

update-append_example :
    update (replicate 70 7) (update (1 ∷ 2 ∷ 3 ∷ []) reset)
    ≡ update ((1 ∷ 2 ∷ 3 ∷ []) ++ replicate 70 7) reset
update-append_example = update-append (1 ∷ 2 ∷ 3 ∷ []) (replicate 70 7) reset (omega arith)
