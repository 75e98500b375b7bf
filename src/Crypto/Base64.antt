-- ===== src/Crypto/Base64.antt =====
-- Base64 and base64url (src/crypto/base64.h, src/crypto/base64.cpp).
-- Data is a list of bytes, numbers below 256; a text is the list of its codes.
use chess_engine.Base.{ℕ, zero, suc, ◌+◌, ◌-◌, ◌*◌, ◌/◌, ◌%◌, ◌^◌, Bool, true, false, not, ◌&&◌}
use chess_engine.Base.{if◌then◌else◌, Option, none, some, List, [], ◌∷◌, ◌++◌, ◌==◌, ltb}
use chess_engine.Base.Lists.{length, get_or}

-- The codes from `first` on.
abbrev codes : ℕ → ℕ → List ℕ
codes first zero = []
codes first (suc n) = first ∷ codes (first + 1) n

-- "A-Za-z0-9" and the last two: "+/" or "-_".
abbrev pub alphabet : List ℕ
alphabet = codes 65 26 ++ (codes 97 26 ++ (codes 48 10 ++ (43 ∷ 47 ∷ [])))

abbrev pub url_alphabet : List ℕ
url_alphabet = codes 65 26 ++ (codes 97 26 ++ (codes 48 10 ++ (45 ∷ 95 ∷ [])))

abbrev pub equals_sign : ℕ
equals_sign = 61

-- The reverse table: `none` is its -1.
unfoldable pub reverse_from : List ℕ → ℕ → ℕ → Option ℕ
reverse_from [] i c = none
reverse_from (x ∷ xs) i c = let rest = reverse_from xs (i + 1) c in if x == c then some i else rest

module _ (letters : List ℕ) where
  abbrev pub letter : ℕ → ℕ
  letter i = get_or letters (i % 64) 0

  -- What is written of the tail, for base64 and for base64url.
  abbrev pub tail_text : Bool → ℕ → ℕ → Bool → List ℕ
  tail_text true v third two =
      letter (v / 2 ^ 18)
      ∷ letter (v / 2 ^ 12)
      ∷ (if two then letter third else equals_sign)
      ∷ equals_sign
      ∷ []
  tail_text false v third two =
      letter (v / 2 ^ 18) ∷ letter (v / 2 ^ 12) ∷ (if two then letter third ∷ [] else [])

  -- `encode_base64`, and `encode_base64url` where `padded` is false.
  unfoldable pub encode : Bool → List ℕ → List ℕ
  encode padded [] = []
  encode padded (a ∷ []) = let v = a * 2 ^ 16 in tail_text padded v 0 false
  encode padded (a ∷ b ∷ []) = let v = a * 2 ^ 16 + b * 2 ^ 8 in tail_text padded v (v / 2 ^ 6) true
  encode padded (a ∷ b ∷ c ∷ rest) =
      let v = a * 2 ^ 16 + b * 2 ^ 8 + c in
      letter (v / 2 ^ 18) ∷ letter (v / 2 ^ 12) ∷ letter (v / 2 ^ 6) ∷ letter v ∷ encode padded rest

  -- The loop of the decoders; the leftover bits must be zero. `acc` is a uint32_t.
  unfoldable pub decode_from : ℕ → ℕ → List ℕ → Option (List ℕ)
  unfolding reverse_from
  decode_from acc bits [] = if ltb 0 bits && not (acc % 2 ^ bits == 0) then none else some []
  decode_from acc bits (c ∷ cs) = elim (reverse_from letters 0 c) [
    | none ↦ none
    | some d ↦
        let next = (acc * 64 + d) % 2 ^ 32 in
        if ltb (bits + 6) 8
        then decode_from next (bits + 6) cs
        else elim (decode_from next (bits + 6 - 8) cs) [
          | none ↦ none
          | some out ↦ some (next / 2 ^ (bits + 6 - 8) % 256 ∷ out)
        ]
  ]

-- One or two characters of padding at the end.
unfoldable pub without_padding : List ℕ → List ℕ
without_padding [] = []
without_padding (x ∷ y ∷ []) =
    if y == equals_sign then if x == equals_sign then [] else x ∷ [] else x ∷ y ∷ []
without_padding (x ∷ y ∷ z ∷ rest) = x ∷ without_padding (y ∷ z ∷ rest)
without_padding (x ∷ []) = if x == equals_sign then [] else x ∷ []

-- The result where it has the length asked for; 0 asks for none.
abbrev pub of_length : ℕ → Option (List ℕ) → Option (List ℕ)
of_length expected none = none
of_length expected (some out) =
    if not (expected == 0) && not (length out == expected) then none else some out

abbrev pub empty_text : ℕ → Option (List ℕ)
empty_text expected = if expected == 0 then some [] else none

unfoldable pub decode_base64 : List ℕ → ℕ → Option (List ℕ)
unfolding decode_from without_padding
decode_base64 [] expected = empty_text expected
decode_base64 (c ∷ cs) expected =
    if length (c ∷ cs) % 4 == 0
    then of_length expected (decode_from alphabet 0 0 (without_padding (c ∷ cs)))
    else none

unfoldable pub decode_base64url : List ℕ → ℕ → Option (List ℕ)
unfolding decode_from
decode_base64url [] expected = empty_text expected
decode_base64url (c ∷ cs) expected =
    if length (c ∷ cs) % 4 == 1
    then none
    else of_length expected (decode_from url_alphabet 0 0 (c ∷ cs))
