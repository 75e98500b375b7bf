-- ===== src/Net/RoundTrip.antt =====
-- What is written is read back (src/net/websocket.cpp).
use chess_engine.Base.{ℕ, ◌+◌, ◌%◌, ◌^◌, ◌<◌, ◌≤◌, ◌≡◌, refl, ap, arith, Bool-cases}
use chess_engine.Base.{true, false, leb, ltb, some, List, [], ◌∷◌, ◌++◌, inl, inr}
use mathlib.Core.List.{append_assoc}
use chess_engine.Base.Lists.{length}
use chess_engine.Net.Frame.{
  too_large, frame, max_frame_payload, split_bytes, big_endian, read_length, is_masked,
  read_payload, try_read_frame, read_next_frame, length_bytes, length_field, write_frame,
}

pub split_bytes-append : (xs ys : List ℕ) → split_bytes (length xs) (xs ++ ys) ≡ some (xs, ys)
unfolding split_bytes
split_bytes-append [] ys = refl
split_bytes-append (x ∷ xs) ys = rw (split_bytes-append xs ys, split_bytes) refl

-- A length's two bytes and eight bytes are read back.
two_bytes : (size : ℕ) → size < 2 ^ 16 → big_endian 0 (length_bytes 2 size) ≡ size
unfolding big_endian length_bytes
two_bytes size h = omega arith

eight_bytes : (size : ℕ) → size < 2 ^ 64 → big_endian 0 (length_bytes 8 size) ≡ size
unfolding big_endian length_bytes
eight_bytes size h = omega arith

-- A length's field: its first byte has no mask bit, and the field is read back.
unfoldable pub IsField : ℕ → List ℕ → ℕ → List ℕ → Type 0
IsField size tail second more =
    (length_field size ≡ second ∷ more)
    × (second < 128)
    × (read_length second (more ++ tail) ≡ some (size, tail))

short-IsField : (size : ℕ) (tail : List ℕ) → size ≤ 125 → IsField size tail size []
unfolding IsField length_field read_length
short-IsField size tail h = (ground arith, omega arith, ground arith)

middle-IsField :
    (size : ℕ) (tail : List ℕ)
    → 125 < size
    → size < 2 ^ 16
    → IsField size tail 126 (length_bytes 2 size)
unfolding IsField length_field read_length split_bytes
middle-IsField size tail low high =
    let long : leb size 125 ≡ false = ground arith in
    let fits : leb size 65535 ≡ true = ground arith in
    (rw (long, fits) refl, omega arith, ap (λ (n : ℕ). some (n, tail)) (two_bytes size high))

eight_byte_length :
    (second size : ℕ) (rest : List ℕ)
    → second % 128 ≡ 127
    → size < 2 ^ 64
    → read_length second (length_bytes 8 size ++ rest) ≡ some (size, rest)
unfolding read_length split_bytes length_bytes
eight_byte_length second size rest form fits =
    rw form (ap (λ (n : ℕ). some (n, rest)) (eight_bytes size fits))

long-IsField :
    (size : ℕ) (tail : List ℕ)
    → 2 ^ 16 ≤ size
    → size < 2 ^ 64
    → IsField size tail 127 (length_bytes 8 size)
unfolding IsField length_field read_length split_bytes
long-IsField size tail low high =
    let long : leb size 125 ≡ false = ground arith in
    let wide : leb size 65535 ≡ false = ground arith in
    (rw (long, wide) refl, omega arith, ap (λ (n : ℕ). some (n, tail)) (eight_bytes size high))

pub field :
    (size : ℕ) (tail : List ℕ)
    → size < 2 ^ 64
    → (second : ℕ) × (more : List ℕ) × IsField size tail second more
field size tail h = elim (Bool-cases (leb size 125)) [
  | inl e ↦ (size, [], short-IsField size tail (ground arith))
  | inr e ↦ elim (Bool-cases (leb size 65535)) [
    | inl e' ↦ (126, length_bytes 2 size, middle-IsField size tail (ground arith) (ground arith))
    | inr e' ↦ (127, length_bytes 8 size, long-IsField size tail (ground arith) h)
  ]
]

-- A whole frame without a mask.
plain_frame :
    (opcode second : ℕ) (more payload rest : List ℕ)
    → opcode < 16
    → second < 128
    → read_length second (more ++ (payload ++ rest)) ≡ some (length payload, payload ++ rest)
    → try_read_frame ((128 + opcode) ∷ second ∷ (more ++ (payload ++ rest)))
      ≡ some (record { fin = true; opcode = opcode; payload = payload }, rest)
unfolding try_read_frame read_payload
plain_frame opcode second more payload rest small plain read =
    let unmasked : is_masked second ≡ false = ground arith in
    let final : leb 128 ((128 + opcode) % 256) ≡ true = ground arith in
    let low : (128 + opcode) % 16 ≡ opcode = omega arith in
    rw (read, unmasked, split_bytes-append payload rest, final, low, try_read_frame) refl

frame_text :
    (opcode : ℕ) (payload rest : List ℕ) (second : ℕ) (more : List ℕ)
    → length_field (length payload) ≡ second ∷ more
    → write_frame opcode payload ++ rest ≡ (128 + opcode) ∷ second ∷ (more ++ (payload ++ rest))
unfolding write_frame
frame_text opcode payload rest second more e =
    rw e (ap (λ (t : List ℕ). (128 + opcode) ∷ second ∷ t) (append_assoc more payload rest))

-- A frame that the server writes is read back from the front of a buffer, whatever follows it, if
-- its payload is within the limit; then just its bytes are taken.
pub read_next_frame-write_frame :
    (opcode : ℕ) (payload rest : List ℕ)
    → opcode < 16
    → length payload ≤ max_frame_payload
    → read_next_frame (write_frame opcode payload ++ rest)
      ≡ (frame (record { fin = true; opcode = opcode; payload = payload }), rest)
unfolding read_next_frame IsField
read_next_frame-write_frame opcode payload rest small fits =
    let (second, more, found) = field (length payload) (payload ++ rest) (omega arith) in
    let plain = plain_frame opcode second more payload rest small found.1 found.2 in
    let within : ltb max_frame_payload (length payload) ≡ false = ground arith in
    rw (frame_text opcode payload rest second more found.0, found.2, within, plain, read_next_frame)
      refl

-- A frame whose length is written in eight bytes and exceeds the limit is turned down as soon as that
-- length is there, whatever its flags, with a mask or without one, and the buffer stays.
pub read_next_frame-too_large :
    (first second size : ℕ) (rest : List ℕ)
    → second % 128 ≡ 127
    → max_frame_payload < size
    → size < 2 ^ 64
    → read_next_frame (first ∷ second ∷ (length_bytes 8 size ++ rest))
      ≡ (too_large, first ∷ second ∷ (length_bytes 8 size ++ rest))
unfolding read_next_frame
read_next_frame-too_large first second size rest form large fits =
    let over : ltb max_frame_payload size ≡ true = ground arith in
    rw (eight_byte_length second size rest form fits, over, read_next_frame) refl
