-- ===== src/Crypto/Sha256.antt =====
-- SHA-256 (src/crypto/sha256.h, src/crypto/sha256.cpp).
-- A word is a number below 2 ^ 32. The buffer is the list of the bytes that wait in it.
use chess_engine.Base.{ℕ, zero, suc, ◌+◌, ◌-◌, ◌*◌, ◌/◌, ◌%◌, ◌^◌, min, true, false, leb, ◌==◌}
use chess_engine.Base.{if◌then◌else◌, List, [], ◌∷◌, ◌++◌, bit_and, bit_or, bit_xor}
use chess_engine.Base.Lists.{length, get_or, replicate}

abbrev pub round_constants : List ℕ
round_constants =
    0x428a2f98 ∷ 0x71374491 ∷ 0xb5c0fbcf ∷ 0xe9b5dba5 ∷ 0x3956c25b ∷ 0x59f111f1 ∷ 0x923f82a4
    ∷ 0xab1c5ed5 ∷ 0xd807aa98 ∷ 0x12835b01 ∷ 0x243185be ∷ 0x550c7dc3 ∷ 0x72be5d74 ∷ 0x80deb1fe
    ∷ 0x9bdc06a7 ∷ 0xc19bf174 ∷ 0xe49b69c1 ∷ 0xefbe4786 ∷ 0x0fc19dc6 ∷ 0x240ca1cc ∷ 0x2de92c6f
    ∷ 0x4a7484aa ∷ 0x5cb0a9dc ∷ 0x76f988da ∷ 0x983e5152 ∷ 0xa831c66d ∷ 0xb00327c8 ∷ 0xbf597fc7
    ∷ 0xc6e00bf3 ∷ 0xd5a79147 ∷ 0x06ca6351 ∷ 0x14292967 ∷ 0x27b70a85 ∷ 0x2e1b2138 ∷ 0x4d2c6dfc
    ∷ 0x53380d13 ∷ 0x650a7354 ∷ 0x766a0abb ∷ 0x81c2c92e ∷ 0x92722c85 ∷ 0xa2bfe8a1 ∷ 0xa81a664b
    ∷ 0xc24b8b70 ∷ 0xc76c51a3 ∷ 0xd192e819 ∷ 0xd6990624 ∷ 0xf40e3585 ∷ 0x106aa070 ∷ 0x19a4c116
    ∷ 0x1e376c08 ∷ 0x2748774c ∷ 0x34b0bcb5 ∷ 0x391c0cb3 ∷ 0x4ed8aa4a ∷ 0x5b9cca4f ∷ 0x682e6ff3
    ∷ 0x748f82ee ∷ 0x78a5636f ∷ 0x84c87814 ∷ 0x8cc70208 ∷ 0x90befffa ∷ 0xa4506ceb ∷ 0xbef9a3f7
    ∷ 0xc67178f2 ∷ []

abbrev pub u32_word : ℕ → ℕ
u32_word x = x % 2 ^ 32

-- `~x` on 32 bits.
abbrev pub complement : ℕ → ℕ
complement x = 2 ^ 32 - 1 - x

abbrev pub rotr : ℕ → ℕ → ℕ
rotr x n = bit_or (x / 2 ^ n) (u32_word (x * 2 ^ (32 - n)))

abbrev pub ch : ℕ → ℕ → ℕ → ℕ
ch x y z = bit_xor (bit_and x y) (bit_and (complement x) z)

abbrev pub maj : ℕ → ℕ → ℕ → ℕ
maj x y z = bit_xor (bit_xor (bit_and x y) (bit_and x z)) (bit_and y z)

abbrev pub big_sigma0 : ℕ → ℕ
big_sigma0 x = bit_xor (bit_xor (rotr x 2) (rotr x 13)) (rotr x 22)

abbrev pub big_sigma1 : ℕ → ℕ
big_sigma1 x = bit_xor (bit_xor (rotr x 6) (rotr x 11)) (rotr x 25)

abbrev pub small_sigma0 : ℕ → ℕ
small_sigma0 x = bit_xor (bit_xor (rotr x 7) (rotr x 18)) (x / 2 ^ 3)

abbrev pub small_sigma1 : ℕ → ℕ
small_sigma1 x = bit_xor (bit_xor (rotr x 17) (rotr x 19)) (x / 2 ^ 10)

-- `load_be32` of each four bytes of a block.
abbrev pub load_words : List ℕ → List ℕ
load_words (a ∷ b ∷ c ∷ d ∷ rest) = (a * 2 ^ 24 + b * 2 ^ 16 + c * 2 ^ 8 + d) ∷ load_words rest
load_words _ = []

abbrev pub store_be32 : ℕ → List ℕ
store_be32 v = v / 2 ^ 24 % 256 ∷ v / 2 ^ 16 % 256 ∷ v / 2 ^ 8 % 256 ∷ v % 256 ∷ []

pub record Words : Type 0 where
  pub a : ℕ
  pub b : ℕ
  pub c : ℕ
  pub d : ℕ
  pub e : ℕ
  pub f : ℕ
  pub g : ℕ
  pub h : ℕ

-- The state of `reset`.
abbrev pub initial_words : Words
initial_words = record {
  a = 0x6a09e667;
  b = 0xbb67ae85;
  c = 0x3c6ef372;
  d = 0xa54ff53a;
  e = 0x510e527f;
  f = 0x9b05688c;
  g = 0x1f83d9ab;
  h = 0x5be0cd19;
}

-- The message schedule, from word `i` on, for `n` words.
unfoldable pub schedule_from : ℕ → ℕ → List ℕ → List ℕ
schedule_from i zero w = w
schedule_from i (suc n) w = schedule_from (i + 1) n (
    w
    ++ (u32_word (
          small_sigma1 (get_or w (i - 2) 0)
          + get_or w (i - 7) 0
          + small_sigma0 (get_or w (i - 15) 0)
          + get_or w (i - 16) 0)
        ∷ []))

abbrev pub one_round : ℕ → ℕ → Words → Words
one_round k w s =
    let t1 = s.h + big_sigma1 s.e + ch s.e s.f s.g + k + w in
    let t2 = big_sigma0 s.a + maj s.a s.b s.c in
    record {
      a = u32_word (t1 + t2);
      b = s.a;
      c = s.b;
      d = s.c;
      e = u32_word (s.d + t1);
      f = s.e;
      g = s.f;
      h = s.g;
    }

unfoldable pub rounds : List ℕ → List ℕ → Words → Words
rounds (k ∷ ks) (w ∷ ws) s = rounds ks ws (one_round k w s)
rounds _ _ s = s

unfoldable pub process_block : Words → List ℕ → Words
unfolding schedule_from rounds
process_block s block =
    let t = rounds round_constants (schedule_from 16 48 (load_words block)) s in
    record {
      a = u32_word (s.a + t.a);
      b = u32_word (s.b + t.b);
      c = u32_word (s.c + t.c);
      d = u32_word (s.d + t.d);
      e = u32_word (s.e + t.e);
      f = u32_word (s.f + t.f);
      g = u32_word (s.g + t.g);
      h = u32_word (s.h + t.h);
    }

pub record Sha256 : Type 0 where
  pub state : Words
  pub buffer : List ℕ
  pub total_bytes : ℕ

abbrev pub reset : Sha256
reset = record { state = initial_words; buffer = []; total_bytes = 0 }

abbrev pub block_size : ℕ
block_size = 64

abbrev pub take : ℕ → List ℕ → List ℕ
take zero xs = []
take (suc n) [] = []
take (suc n) (x ∷ xs) = x ∷ take n xs

abbrev pub drop : ℕ → List ℕ → List ℕ
drop zero xs = xs
drop (suc n) [] = []
drop (suc n) (x ∷ xs) = drop n xs

-- The buffer where it is full.
unfoldable pub settled : Words → List ℕ → Words × List ℕ
unfolding process_block
settled s buffer = if length buffer == block_size then (process_block s buffer, []) else (s, buffer)

-- The first part of `update`: what is in the buffer is topped up. What is left comes last.
unfoldable pub top_up : Words → List ℕ → List ℕ → Words × (List ℕ × List ℕ)
unfolding settled
top_up s [] bytes = (s, ([], bytes))
top_up s (x ∷ xs) bytes =
    let some_of = min (length bytes) (block_size - length (x ∷ xs)) in
    let (after, left) = settled s (x ∷ xs ++ take some_of bytes) in
    (after, (left, drop some_of bytes))

-- The loop over whole blocks; each round takes some of the bytes.
unfoldable pub whole_blocks : ℕ → Words → List ℕ → Words × List ℕ
unfolding process_block
whole_blocks zero s bytes = (s, bytes)
whole_blocks (suc fuel) s bytes = elim (leb block_size (length bytes)) [
  | true ↦ whole_blocks fuel (process_block s (take block_size bytes)) (drop block_size bytes)
  | false ↦ (s, bytes)
]

-- What is left is stashed.
abbrev pub stash : List ℕ → List ℕ → List ℕ
stash buffer [] = buffer
stash buffer (x ∷ xs) = x ∷ xs

unfoldable pub update : List ℕ → Sha256 → Sha256
unfolding top_up whole_blocks
update bytes sha =
    let (topped, (buffer, more)) = top_up sha.state sha.buffer bytes in
    let (done, rest) = whole_blocks (length more) topped more in
    record {
      state = done;
      buffer = stash buffer rest;
      total_bytes = (sha.total_bytes + length bytes) % 2 ^ 64;
    }

-- `store_be64`.
abbrev pub store_be64 : ℕ → ℕ → List ℕ
store_be64 zero v = []
store_be64 (suc n) v = v / 2 ^ (8 * n) % 256 ∷ store_be64 n v

abbrev pub zeros_of : ℕ → ℕ
zeros_of rem = if leb rem 56 then 56 - rem else 56 + block_size - rem

abbrev pub padding : Sha256 → List ℕ
padding sha =
    0x80
    ∷ (replicate (zeros_of ((length sha.buffer + 1) % block_size)) 0
        ++ store_be64 8 (sha.total_bytes * 8 % 2 ^ 64))

-- The loop of `finish` over the padding, a piece at a time.
unfoldable pub absorb : ℕ → Words → List ℕ → List ℕ → Words
unfolding settled
absorb zero s buffer bytes = s
absorb (suc fuel) s buffer [] = s
absorb (suc fuel) s buffer (x ∷ xs) =
    let some_of = min (length (x ∷ xs)) (block_size - length buffer) in
    let (after, left) = settled s (buffer ++ take some_of (x ∷ xs)) in
    absorb fuel after left (drop some_of (x ∷ xs))

unfoldable pub finish : Sha256 → List ℕ
unfolding absorb
finish sha =
    let s = absorb (length (padding sha) + 1) sha.state sha.buffer (padding sha) in
    store_be32 s.a
    ++ (store_be32 s.b
        ++ (store_be32 s.c
            ++ (store_be32 s.d
                ++ (store_be32 s.e ++ (store_be32 s.f ++ (store_be32 s.g ++ store_be32 s.h))))))

unfoldable pub hash : List ℕ → List ℕ
unfolding update finish
hash bytes = finish (update bytes reset)
