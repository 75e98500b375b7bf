-- ===== src/Crypto/RoundTrip.antt =====
-- The round trips of base64 and base64url (src/crypto/base64.cpp), padding and lengths included.
use chess_engine.Base.{ℕ, ◌+◌, ◌*◌, ◌/◌, ◌%◌, ◌^◌, ◌<◌, ◌≡◌, Bool, true, false, refl, arith, not}
use chess_engine.Base.{Option, none, some, List, [], ◌∷◌, ◌==◌, ◌&&◌, ap, ◌∙◌, inl, inr}
use chess_engine.Base.{Option-cases, ◌⊎◌}
use chess_engine.Base.Lists.{length, get_or, All}
use chess_engine.Base.Range.{passes, passes_each}
use chess_engine.Crypto.Base64.{alphabet, url_alphabet, reverse_from, letter, encode, decode_from}
use chess_engine.Crypto.Base64.{
  without_padding, equals_sign, of_length, decode_base64, decode_base64url,
}
use chess_engine.Crypto.Base64Laws.{decode_from-encode}

abbrev same_digit : Option ℕ → ℕ → Bool
same_digit none i = false
same_digit (some d) i = d == i

-- A digit's letter is read back as the digit, and is no equals sign.
abbrev reads_back : List ℕ → ℕ → Bool
reads_back letters i =
    same_digit (reverse_from letters 0 (get_or letters i 0)) i
    && not (get_or letters i 0 == equals_sign)

alphabet_checked : passes 64 0 (reads_back alphabet) ≡ true
unfolding passes reverse_from
alphabet_checked = refl

url_alphabet_checked : passes 64 0 (reads_back url_alphabet) ≡ true
unfolding passes reverse_from
url_alphabet_checked = refl

module _ (letters : List ℕ) (checked : passes 64 0 (reads_back letters) ≡ true) where
  reverses : (i : ℕ) → i < 64 → reverse_from letters 0 (get_or letters i 0) ≡ some i
  reverses i h =
      let back = passes_each 64 0 i (reads_back letters) checked (omega arith) (omega arith) in
      elim (Option-cases (reverse_from letters 0 (get_or letters i 0))) [
        | inl e ↦ ground (arith, back, e)
        | inr (d, e) ↦ ground (arith, back, e)
      ]

  no_equals_sign : (i : ℕ) → (letter letters i == equals_sign) ≡ false
  no_equals_sign i =
      let back =
        passes_each 64 0 (i % 64) (reads_back letters) checked (omega arith) (omega arith) in
      ground (arith, back)

  padding_behind :
      (x i : ℕ) (rest : List ℕ)
      → without_padding (x ∷ letter letters i ∷ encode letters true rest)
        ≡ x ∷ letter letters i ∷ without_padding (encode letters true rest)
  unfolding encode without_padding
  padding_behind x i [] = rw (no_equals_sign i) refl
  padding_behind x i (a ∷ []) = refl
  padding_behind x i (a ∷ b ∷ []) = refl
  padding_behind x i (a ∷ b ∷ c ∷ rest) = refl

  -- The text without its padding is the text that is written without any.
  without_padding-encode :
      (bytes : List ℕ) → without_padding (encode letters true bytes) ≡ encode letters false bytes
  unfolding encode without_padding
  without_padding-encode [] = refl
  without_padding-encode (a ∷ []) = let e = no_equals_sign (a * 2 ^ 16 / 2 ^ 12) in refl
  without_padding-encode (a ∷ b ∷ []) =
      let e = no_equals_sign ((a * 2 ^ 16 + b * 2 ^ 8) / 2 ^ 6) in ground (arith, e)
  without_padding-encode (a ∷ b ∷ c ∷ rest) =
      let v = a * 2 ^ 16 + b * 2 ^ 8 + c in
      ap (λ t. letter letters (v / 2 ^ 18) ∷ letter letters (v / 2 ^ 12) ∷ t)
        (padding_behind (letter letters (v / 2 ^ 6)) v rest
          ∙ ap (λ t. letter letters (v / 2 ^ 6) ∷ letter letters v ∷ t)
              (without_padding-encode rest))

  encode-some :
      (padded : Bool) (a : ℕ) (rest : List ℕ) → 0 < length (encode letters padded (a ∷ rest))
  unfolding encode
  encode-some true a [] = omega arith
  encode-some false a [] = omega arith
  encode-some true a (b ∷ []) = omega arith
  encode-some false a (b ∷ []) = omega arith
  encode-some padded a (b ∷ c ∷ rest) = omega arith

  length-padded : (bytes : List ℕ) → length (encode letters true bytes) % 4 ≡ 0
  unfolding encode
  length-padded [] = refl
  length-padded (a ∷ []) = refl
  length-padded (a ∷ b ∷ []) = refl
  length-padded (a ∷ b ∷ c ∷ rest) = ground (arith, length-padded rest)

  length-unpadded : (bytes : List ℕ) → (length (encode letters false bytes) % 4 == 1) ≡ false
  unfolding encode
  length-unpadded [] = refl
  length-unpadded (a ∷ []) = refl
  length-unpadded (a ∷ b ∷ []) = refl
  length-unpadded (a ∷ b ∷ c ∷ rest) = ground (arith, length-unpadded rest)

of_length-some :
    (expected : ℕ) (bytes : List ℕ)
    → (expected ≡ 0) ⊎ (expected ≡ length bytes)
    → of_length expected (some bytes) ≡ some bytes
of_length-some expected bytes (inl h) = ground (arith, h)
of_length-some expected bytes (inr h) = ground (arith, h)

decoded :
    (text bytes : List ℕ) (expected : ℕ)
    → 0 < length text
    → length text % 4 ≡ 0
    → decode_from alphabet 0 0 (without_padding text) ≡ some bytes
    → (expected ≡ 0) ⊎ (expected ≡ length bytes)
    → decode_base64 text expected ≡ some bytes
unfolding decode_base64
decoded [] bytes expected some_text fours h length_fits = absurd (omega arith)
decoded (c ∷ cs) bytes expected some_text fours h length_fits =
    let whole : (length (c ∷ cs) % 4 == 0) ≡ true = ground (arith, fours) in
    rw (whole, decode_base64)
      (ap (λ o. of_length expected o) h ∙ of_length-some expected bytes length_fits)

decoded_url :
    (text bytes : List ℕ) (expected : ℕ)
    → 0 < length text
    → (length text % 4 == 1) ≡ false
    → decode_from url_alphabet 0 0 text ≡ some bytes
    → (expected ≡ 0) ⊎ (expected ≡ length bytes)
    → decode_base64url text expected ≡ some bytes
unfolding decode_base64url
decoded_url [] bytes expected some_text possible h length_fits = absurd (omega arith)
decoded_url (c ∷ cs) bytes expected some_text possible h length_fits =
    rw (possible, decode_base64url)
      (ap (λ o. of_length expected o) h ∙ of_length-some expected bytes length_fits)

-- The text of either alphabet is decoded to its bytes again, where no length is asked for or the
-- length of the bytes is.
pub decode-encode :
    (bytes : List ℕ) (expected : ℕ)
    → All (λ x. x < 256) bytes
    → (expected ≡ 0) ⊎ (expected ≡ length bytes)
    → (decode_base64 (encode alphabet true bytes) expected ≡ some bytes)
      × (decode_base64url (encode url_alphabet false bytes) expected ≡ some bytes)
unfolding decode_base64 decode_base64url encode
decode-encode [] expected small (inl none_asked) =
    (ground (arith, none_asked), ground (arith, none_asked))
decode-encode [] expected small (inr nothing) = (ground (arith, nothing), ground (arith, nothing))
decode-encode (a ∷ rest) expected small fits =
    let bytes = a ∷ rest in
    let back = decode_from-encode alphabet (reverses alphabet alphabet_checked) 0 bytes small in
    let bare = without_padding-encode alphabet alphabet_checked bytes in
    let back_url =
      decode_from-encode url_alphabet (reverses url_alphabet url_alphabet_checked) 0 bytes small in
    (
      decoded (encode alphabet true bytes) bytes expected
          (encode-some alphabet alphabet_checked true a rest)
          (length-padded alphabet alphabet_checked bytes)
          (ap (decode_from alphabet 0 0) bare ∙ back) fits,
      decoded_url (encode url_alphabet false bytes) bytes expected
          (encode-some url_alphabet url_alphabet_checked false a rest)
          (length-unpadded url_alphabet url_alphabet_checked bytes) back_url fits,
    )
