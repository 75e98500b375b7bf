-- ===== src/Net/Frame.antt =====
-- Reading and writing frames (src/net/websocket.h, src/net/websocket.cpp).
-- A buffer is the list of its bytes, numbers below 256; a connection is its two buffers.
use chess_engine.Base.{ℕ, zero, suc, ◌+◌, ◌*◌, ◌/◌, ◌%◌, ◌^◌, Bool, ltb, leb, ◌==◌}
use chess_engine.Base.{if◌then◌else◌, Option, none, some, List, [], ◌∷◌, ◌++◌, bit_xor}
use chess_engine.Base.Lists.{length, get_or}

-- `WsOpcode`: a uint8_t with six names. The reader casts four bits of a byte to it.
abbrev pub text_opcode : ℕ
text_opcode = 1

abbrev pub close_opcode : ℕ
close_opcode = 8

abbrev pub pong_opcode : ℕ
pong_opcode = 10

pub record WsFrame : Type 0 where
  pub fin : Bool
  pub opcode : ℕ
  pub payload : List ℕ

pub data ReadFrameResult : Type 0 where
  need_more too_large : ReadFrameResult
  frame : WsFrame → ReadFrameResult

abbrev pub max_frame_payload : ℕ
max_frame_payload = 64 * 1024

-- `n` bytes from the front and what follows, where there are as many.
unfoldable pub split_bytes : ℕ → List ℕ → Option (List ℕ × List ℕ)
split_bytes zero bytes = some ([], bytes)
split_bytes (suc n) [] = none
split_bytes (suc n) (x ∷ xs) = elim (split_bytes n xs) [
  | none ↦ none
  | some (front, back) ↦ some (x ∷ front, back)
]

-- The loop over a length's bytes, the most significant one first, on 64 bits.
unfoldable pub big_endian : ℕ → List ℕ → ℕ
big_endian acc [] = acc
big_endian acc (x ∷ xs) = big_endian (acc * 256 % 2 ^ 64 + x) xs

-- The payload's length from the second byte and what follows it, and the bytes after it.
unfoldable pub read_length : ℕ → List ℕ → Option (ℕ × List ℕ)
unfolding split_bytes big_endian
read_length second rest =
    let short = second % 128 in
    if short == 126
    then elim (split_bytes 2 rest) [
      | none ↦ none
      | some (front, back) ↦ some (big_endian 0 front, back)
    ]
    else if short == 127
    then elim (split_bytes 8 rest) [
      | none ↦ none
      | some (front, back) ↦ some (big_endian 0 front, back)
    ]
    else some (short, rest)

-- `mask_key[i % 4]`.
unfoldable pub unmask : List ℕ → ℕ → List ℕ → List ℕ
unmask key i [] = []
unmask key i (x ∷ xs) = bit_xor x (get_or key (i % 4) 0) ∷ unmask key (i + 1) xs

abbrev pub is_masked : ℕ → Bool
is_masked second = leb 128 (second % 256)

-- The rest of `try_read_frame` after the length: the key, the payload, and what is left.
unfoldable pub read_payload : Bool → ℕ → List ℕ → Option (List ℕ × List ℕ)
unfolding split_bytes unmask
read_payload masked size rest =
    if masked
    then elim (split_bytes 4 rest) [
      | none ↦ none
      | some (key, after_key) ↦ elim (split_bytes size after_key) [
        | none ↦ none
        | some (payload, left) ↦ some (unmask key 0 payload, left)
      ]
    ]
    else split_bytes size rest

-- A frame and the read buffer after it, where a whole frame is there. The source adds the payload's
-- length to the position on 64 bits, which a length near 2 ^ 64 would wrap around; its only caller,
-- `read_next_frame`, has turned down every such length before.
unfoldable pub try_read_frame : List ℕ → Option (WsFrame × List ℕ)
unfolding read_length read_payload
try_read_frame (first ∷ second ∷ rest) = elim (read_length second rest) [
  | none ↦ none
  | some (size, after_length) ↦ elim (read_payload (is_masked second) size after_length) [
    | none ↦ none
    | some (payload, left) ↦
        some (record { fin = leb 128 (first % 256); opcode = first % 16; payload = payload }, left)
  ]
]
try_read_frame _ = none

-- The result and the read buffer after the call.
unfoldable pub read_next_frame : List ℕ → ReadFrameResult × List ℕ
unfolding read_length try_read_frame
read_next_frame (first ∷ second ∷ rest) = elim (read_length second rest) [
  | none ↦ (need_more, first ∷ second ∷ rest)
  | some (size, after_length) ↦
      if ltb max_frame_payload size
      then (too_large, first ∷ second ∷ rest)
      else elim (try_read_frame (first ∷ second ∷ rest)) [
        | none ↦ (need_more, first ∷ second ∷ rest)
        | some (f, left) ↦ (frame f, left)
      ]
]
read_next_frame buffer = (need_more, buffer)

-- `(length >> (8 * i)) & 0xFF` for `i` from `n - 1` down to 0.
unfoldable pub length_bytes : ℕ → ℕ → List ℕ
length_bytes zero size = []
length_bytes (suc n) size = size / 2 ^ (8 * n) % 256 ∷ length_bytes n size

unfoldable pub length_field : ℕ → List ℕ
unfolding length_bytes
length_field size =
    if leb size 125
    then size ∷ []
    else if leb size 65535
    then 126 ∷ length_bytes 2 size
    else 127 ∷ length_bytes 8 size

-- What `write_frame` appends to the write buffer. An opcode is below 16.
unfoldable pub write_frame : ℕ → List ℕ → List ℕ
unfolding length_field
write_frame opcode payload = (128 + opcode) ∷ (length_field (length payload) ++ payload)

unfoldable pub send_close : ℕ → List ℕ
unfolding write_frame
send_close status = write_frame close_opcode (status / 256 % 256 ∷ status % 256 ∷ [])

unfoldable pub send_pong : List ℕ → List ℕ
unfolding write_frame
send_pong payload = write_frame pong_opcode payload
