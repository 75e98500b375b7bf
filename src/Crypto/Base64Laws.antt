-- ===== src/Crypto/Base64Laws.antt =====
-- What is encoded is decoded again (src/crypto/base64.cpp).
use chess_engine.Base.{ℕ, ◌+◌, ◌*◌, ◌/◌, ◌%◌, ◌^◌, ◌<◌, ◌≡◌, true, false, refl, arith}
use chess_engine.Base.{ltb, ap, ap₂, ◌∙◌, Bool-cases, inl, inr}
use chess_engine.Base.{some, List, [], ◌∷◌, ◌==◌}
use chess_engine.Base.Lists.{get_or, All}
use chess_engine.Crypto.Base64.{reverse_from, letter, encode, decode_from}

-- Two and three digits of 6 bits after anything, on 32 bits.
two_digits :
    (acc d e : ℕ)
    → d < 64
    → e < 64
    → ((acc * 64 + d) % 2 ^ 32 * 64 + e) % 2 ^ 32 / 2 ^ 4 % 256 ≡ (d * 64 + e) / 16
two_digits acc d e hd he = omega arith

three_digits :
    (acc d e f : ℕ)
    → d < 64
    → e < 64
    → f < 64
    → (((acc * 64 + d) % 2 ^ 32 * 64 + e) % 2 ^ 32 * 64 + f) % 2 ^ 32 / 2 ^ 2 % 256
      ≡ (e % 16 * 64 + f) / 4
three_digits acc d e f hd he hf = omega arith

four_digits :
    (acc f g : ℕ)
    → f < 64
    → g < 64
    → ((acc * 64 + f) % 2 ^ 32 * 64 + g) % 2 ^ 32 / 2 ^ 0 % 256 ≡ f % 4 * 64 + g
four_digits acc f g hf hg = omega arith

abbrev next_acc : ℕ → ℕ → ℕ
next_acc acc d = (acc * 64 + d) % 2 ^ 32

module _ (letters : List ℕ)
    (reverses : (i : ℕ) → i < 64 → reverse_from letters 0 (get_or letters i 0) ≡ some i) where
  -- A letter at each place of a group of four.
  first_letter :
      (acc d : ℕ) (cs : List ℕ)
      → decode_from letters acc 0 (letter letters d ∷ cs)
        ≡ decode_from letters (next_acc acc (d % 64)) 6 cs
  unfolding decode_from
  first_letter acc d cs =
      let found = reverses (d % 64) (omega arith) in rw (found, decode_from) refl

  second_letter :
      (acc d : ℕ) (cs out : List ℕ)
      → decode_from letters (next_acc acc (d % 64)) 4 cs ≡ some out
      → decode_from letters acc 6 (letter letters d ∷ cs)
        ≡ some (next_acc acc (d % 64) / 2 ^ 4 % 256 ∷ out)
  unfolding decode_from
  second_letter acc d cs out h =
      let found = reverses (d % 64) (omega arith) in rw (found, h, decode_from) refl

  third_letter :
      (acc d : ℕ) (cs out : List ℕ)
      → decode_from letters (next_acc acc (d % 64)) 2 cs ≡ some out
      → decode_from letters acc 4 (letter letters d ∷ cs)
        ≡ some (next_acc acc (d % 64) / 2 ^ 2 % 256 ∷ out)
  unfolding decode_from
  third_letter acc d cs out h =
      let found = reverses (d % 64) (omega arith) in rw (found, h, decode_from) refl

  fourth_letter :
      (acc d : ℕ) (cs out : List ℕ)
      → decode_from letters (next_acc acc (d % 64)) 0 cs ≡ some out
      → decode_from letters acc 2 (letter letters d ∷ cs)
        ≡ some (next_acc acc (d % 64) / 2 ^ 0 % 256 ∷ out)
  unfolding decode_from
  fourth_letter acc d cs out h =
      let found = reverses (d % 64) (omega arith) in rw (found, h, decode_from) refl

  decode_from-end : (acc bits : ℕ) → acc % 2 ^ bits ≡ 0 → decode_from letters acc bits [] ≡ some []
  unfolding decode_from
  decode_from-end acc bits h =
      let zero_left : (acc % 2 ^ bits == 0) ≡ true = ground (arith, h) in
      elim (Bool-cases (ltb 0 bits)) [
        | inl some_bits ↦ rw (zero_left, some_bits, decode_from) refl
        | inr no_bits ↦ rw (no_bits, decode_from) refl
      ]

  -- What is encoded is decoded again, after any earlier digits.
  pub decode_from-encode :
      (acc : ℕ) (bytes : List ℕ)
      → All (λ x. x < 256) bytes
      → decode_from letters acc 0 (encode letters false bytes) ≡ some bytes
  unfolding encode
  decode_from-encode acc [] small = decode_from-end acc 0 (omega arith)
  decode_from-encode acc (a ∷ []) small =
      let v = a * 2 ^ 16 in
      let d = v / 2 ^ 18 in
      let e = v / 2 ^ 12 in
      let one = next_acc acc (d % 64) in
      let two = next_acc one (e % 64) in
      let byte : two / 2 ^ 4 % 256 ≡ a =
        two_digits acc (d % 64) (e % 64) (omega arith) (omega arith) ∙ omega arith in
      first_letter acc d (letter letters e ∷ [])
      ∙ second_letter one e [] [] (decode_from-end two 4 (omega arith))
      ∙ ap (λ x. some (x ∷ [])) byte
  decode_from-encode acc (a ∷ b ∷ []) small =
      let v = a * 2 ^ 16 + b * 2 ^ 8 in
      let d = v / 2 ^ 18 in
      let e = v / 2 ^ 12 in
      let f = v / 2 ^ 6 in
      let one = next_acc acc (d % 64) in
      let two = next_acc one (e % 64) in
      let three = next_acc two (f % 64) in
      let byte : two / 2 ^ 4 % 256 ≡ a =
        two_digits acc (d % 64) (e % 64) (omega arith) (omega arith) ∙ omega arith in
      let byte_two : three / 2 ^ 2 % 256 ≡ b =
        three_digits acc (d % 64) (e % 64) (f % 64) (omega arith) (omega arith) (omega arith)
        ∙ omega arith in
      first_letter acc d (letter letters e ∷ letter letters f ∷ [])
      ∙ second_letter one e (letter letters f ∷ []) (three / 2 ^ 2 % 256 ∷ [])
          (third_letter two f [] [] (decode_from-end three 2 (omega arith)))
      ∙ ap₂ (λ x y. some (x ∷ y ∷ [])) byte byte_two
  decode_from-encode acc (a ∷ b ∷ c ∷ rest) small =
      let v = a * 2 ^ 16 + b * 2 ^ 8 + c in
      let d = v / 2 ^ 18 in
      let e = v / 2 ^ 12 in
      let f = v / 2 ^ 6 in
      let one = next_acc acc (d % 64) in
      let two = next_acc one (e % 64) in
      let three = next_acc two (f % 64) in
      let four = next_acc three (v % 64) in
      let texts = encode letters false rest in
      let later = decode_from-encode four rest small.1.1.1 in
      let byte : two / 2 ^ 4 % 256 ≡ a =
        two_digits acc (d % 64) (e % 64) (omega arith) (omega arith) ∙ omega arith in
      let byte_two : three / 2 ^ 2 % 256 ≡ b =
        three_digits acc (d % 64) (e % 64) (f % 64) (omega arith) (omega arith) (omega arith)
        ∙ omega arith in
      let byte_three : four / 2 ^ 0 % 256 ≡ c =
        four_digits two (f % 64) (v % 64) (omega arith) (omega arith) ∙ omega arith in
      first_letter acc d (letter letters e ∷ letter letters f ∷ letter letters v ∷ texts)
      ∙ second_letter one e (letter letters f ∷ letter letters v ∷ texts)
          (three / 2 ^ 2 % 256 ∷ four / 2 ^ 0 % 256 ∷ rest)
          (third_letter two f (letter letters v ∷ texts) (four / 2 ^ 0 % 256 ∷ rest)
            (fourth_letter three v texts rest later))
      ∙ ap₂ (λ x y. some (x ∷ y ∷ four / 2 ^ 0 % 256 ∷ rest)) byte byte_two
      ∙ ap (λ z. some (a ∷ b ∷ z ∷ rest)) byte_three
