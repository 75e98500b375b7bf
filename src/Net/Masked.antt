-- ===== src/Net/Masked.antt =====
-- Masked frames, as clients send them (src/net/websocket.cpp).
use chess_engine.Base.{
  ℕ, suc, ◌+◌, ◌%◌, ◌<◌, ◌≤◌, ◌≡◌, refl, ap, subst, ap₂, ◌∙◌, arith, true, false,
}
use chess_engine.Base.{leb, ltb, some, List, [], ◌∷◌, ◌++◌, bit_xor}
use chess_engine.Base.Bits.{bit_xor_assoc, bit_xor_self, bit_xor-zero}
use chess_engine.Base.Lists.{length, get_or}
use mathlib.Core.List.{append_assoc}
use chess_engine.Net.Frame.{
  frame, max_frame_payload, split_bytes, read_length, is_masked, read_payload, try_read_frame,
  read_next_frame, length_field, unmask,
}
use chess_engine.Net.RoundTrip.{IsField, field, split_bytes-append}

-- Masking as RFC 6455 gives it, with the four bytes of the key in turn: the key goes round.
unfoldable pub masked : ℕ → ℕ → ℕ → ℕ → List ℕ → List ℕ
masked a b c d [] = []
masked a b c d (x ∷ xs) = bit_xor x a ∷ masked b c d a xs

-- The reader's `mask_key[i % 4]`.
abbrev key_at : List ℕ → ℕ → ℕ
key_at key i = get_or key (i % 4) 0

masked_from : List ℕ → ℕ → List ℕ → List ℕ
masked_from key i bytes =
    masked (key_at key i) (key_at key (i + 1)) (key_at key (i + 2)) (key_at key (i + 3)) bytes

bit_xor-twice : (x a : ℕ) → bit_xor (bit_xor x a) a ≡ x
bit_xor-twice x a = bit_xor_assoc x a a ∙ ap (bit_xor x) (bit_xor_self a) ∙ bit_xor-zero x

-- The key goes round once in four bytes.
masked_from-step :
    (key : List ℕ) (i x : ℕ) (xs : List ℕ)
    → masked_from key i (x ∷ xs) ≡ bit_xor x (key_at key i) ∷ masked_from key (i + 1) xs
unfolding masked_from masked
masked_from-step key i x xs =
    let second : i + 1 + 1 ≡ i + 2 = omega arith in
    let third : i + 1 + 2 ≡ i + 3 = omega arith in
    let round : (i + 1 + 3) % 4 ≡ i % 4 = omega arith in rw (second, third, round) refl

unmask-masked_from :
    (key : List ℕ) (i : ℕ) (bytes : List ℕ) → unmask key i (masked_from key i bytes) ≡ bytes
unfolding unmask masked masked_from
unmask-masked_from key i [] = refl
unmask-masked_from key i (x ∷ xs) =
    ap (unmask key i) (masked_from-step key i x xs)
    ∙ ap₂ (◌∷◌) (bit_xor-twice x (key_at key i)) (unmask-masked_from key (i + 1) xs)

unmask-masked :
    (a b c d : ℕ) (bytes : List ℕ) → unmask (a ∷ b ∷ c ∷ d ∷ []) 0 (masked a b c d bytes) ≡ bytes
unfolding masked_from
unmask-masked a b c d bytes = unmask-masked_from (a ∷ b ∷ c ∷ d ∷ []) 0 bytes

length-masked : (a b c d : ℕ) (bytes : List ℕ) → length (masked a b c d bytes) ≡ length bytes
unfolding masked
length-masked a b c d [] = refl
length-masked a b c d (x ∷ xs) = ap suc (length-masked b c d a xs)

mask_bit :
    (second : ℕ) (rest : List ℕ)
    → second < 128
    → read_length (128 + second) rest ≡ read_length second rest
unfolding read_length
mask_bit second rest h =
    let same : (128 + second) % 128 ≡ second % 128 = omega arith in rw same refl

read_masked :
    (a b c d : ℕ) (payload rest : List ℕ)
    → read_payload true (length payload) (a ∷ b ∷ c ∷ d ∷ (masked a b c d payload ++ rest))
      ≡ some (payload, rest)
unfolding read_payload split_bytes
read_masked a b c d payload rest =
    let sent = masked a b c d payload in
    let body : split_bytes (length payload) (sent ++ rest) ≡ some (sent, rest) =
      subst (λ (n : ℕ). split_bytes n (sent ++ rest) ≡ some (sent, rest))
        (length-masked a b c d payload) (split_bytes-append sent rest) in
    rw (body, unmask-masked a b c d payload) refl

-- A frame with a mask bit, a key of four bytes and the payload under the key, as the protocol asks
-- of clients.
abbrev pub with_mask_bit : List ℕ → List ℕ
with_mask_bit [] = []
with_mask_bit (x ∷ xs) = (128 + x) ∷ xs

abbrev pub under_key : ℕ → ℕ → ℕ → ℕ → List ℕ → List ℕ
under_key a b c d payload = a ∷ b ∷ c ∷ d ∷ masked a b c d payload

abbrev pub masked_frame : ℕ → ℕ → ℕ → ℕ → ℕ → List ℕ → List ℕ
masked_frame opcode a b c d payload =
    (128 + opcode) ∷ (with_mask_bit (length_field (length payload)) ++ under_key a b c d payload)

module _ (opcode a b c d : ℕ) (payload rest : List ℕ) where
  whole_frame :
      (second : ℕ) (more : List ℕ)
      → opcode < 16
      → second < 128
      → read_length (128 + second) (more ++ (under_key a b c d payload ++ rest))
        ≡ some (length payload, under_key a b c d payload ++ rest)
      → try_read_frame
          ((128 + opcode) ∷ (128 + second) ∷ (more ++ (under_key a b c d payload ++ rest)))
        ≡ some (record { fin = true; opcode = opcode; payload = payload }, rest)
  unfolding try_read_frame
  whole_frame second more small plain read =
      let marked : is_masked (128 + second) ≡ true = ground arith in
      let final : leb 128 ((128 + opcode) % 256) ≡ true = ground arith in
      let low : (128 + opcode) % 16 ≡ opcode = omega arith in
      rw (read, marked, read_masked a b c d payload rest, final, low, try_read_frame) refl

  frame_text :
      (second : ℕ) (more : List ℕ)
      → length_field (length payload) ≡ second ∷ more
      → masked_frame opcode a b c d payload ++ rest
        ≡ (128 + opcode) ∷ (128 + second) ∷ (more ++ (under_key a b c d payload ++ rest))
  frame_text second more e = rw e (
      ap (λ (t : List ℕ). (128 + opcode) ∷ (128 + second) ∷ t)
        (append_assoc more (under_key a b c d payload) rest))

-- A client's frame, with its payload under the four bytes of a key in turn, is read back without
-- its mask, whatever follows it, if its payload is within the limit.
pub read_next_frame-masked_frame :
    (opcode a b c d : ℕ) (payload rest : List ℕ)
    → opcode < 16
    → length payload ≤ max_frame_payload
    → read_next_frame (masked_frame opcode a b c d payload ++ rest)
      ≡ (frame (record { fin = true; opcode = opcode; payload = payload }), rest)
unfolding read_next_frame IsField
read_next_frame-masked_frame opcode a b c d payload rest small fits =
    let after_length = under_key a b c d payload ++ rest in
    let (second, more, found) = field (length payload) after_length (omega arith) in
    let read = mask_bit second (more ++ after_length) found.1 ∙ found.2 in
    let whole = whole_frame opcode a b c d payload rest second more small found.1 read in
    let within : ltb max_frame_payload (length payload) ≡ false = ground arith in
    ap read_next_frame (frame_text opcode a b c d payload rest second more found.0)
    ∙ rw (read, within, whole, read_next_frame) refl
