-- ===== src/Crypto/Feed.antt =====
-- SHA-256 (src/crypto/sha256.cpp) one byte after the other, and in whole blocks.
use chess_engine.Base.{ℕ, zero, suc, ◌+◌, ◌-◌, ◌≤◌, ◌<◌, ◌≡◌, refl, arith, true, false}
use chess_engine.Base.{List, [], ◌∷◌, ◌++◌, ap, ◌∙◌, sym, leb, ◌==◌, Bool-cases, inl, inr}
use chess_engine.Base.Lists.{length}
use chess_engine.Crypto.Sha256.{Words, process_block, settled, whole_blocks}
use chess_engine.Crypto.Sha256.{take, drop}

-- One byte after the other.
unfoldable pub feed : Words × List ℕ → List ℕ → Words × List ℕ
unfolding settled
feed s [] = s
feed s (x ∷ xs) = feed (settled s.0 (s.1 ++ (x ∷ []))) xs

pub append_assoc : (xs ys zs : List ℕ) → (xs ++ ys) ++ zs ≡ xs ++ (ys ++ zs)
append_assoc [] ys zs = refl
append_assoc (x ∷ xs) ys zs = ap (λ t. x ∷ t) (append_assoc xs ys zs)

pub append_nil : (xs : List ℕ) → xs ++ [] ≡ xs
append_nil [] = refl
append_nil (x ∷ xs) = ap (λ t. x ∷ t) (append_nil xs)

pub length-append : (xs ys : List ℕ) → length (xs ++ ys) ≡ length xs + length ys
length-append [] ys = omega arith
length-append (x ∷ xs) ys = ground (arith, length-append xs ys)

pub take-drop : (n : ℕ) (xs : List ℕ) → take n xs ++ drop n xs ≡ xs
take-drop zero xs = refl
take-drop (suc n) [] = refl
take-drop (suc n) (x ∷ xs) = ap (λ t. x ∷ t) (take-drop n xs)

pub length-take : (n : ℕ) (xs : List ℕ) → n ≤ length xs → length (take n xs) ≡ n
length-take zero xs h = refl
length-take (suc n) [] h = absurd (omega arith)
length-take (suc n) (x ∷ xs) h = ground (arith, length-take n xs (omega arith))

pub length-drop : (n : ℕ) (xs : List ℕ) → length (drop n xs) ≡ length xs - n
length-drop zero xs = omega arith
length-drop (suc n) [] = omega arith
length-drop (suc n) (x ∷ xs) = ground (arith, length-drop n xs)

pub feed-append : (s : Words × List ℕ) (xs ys : List ℕ) → feed s (xs ++ ys) ≡ feed (feed s xs) ys
unfolding feed
feed-append s [] ys = refl
feed-append s (x ∷ xs) ys = feed-append (settled s.0 (s.1 ++ (x ∷ []))) xs ys

pub settled-small :
    (w : Words) (buffer : List ℕ) → length buffer < 64 → settled w buffer ≡ (w, buffer)
unfolding settled
settled-small w buffer h =
    let small : (length buffer == 64) ≡ false = ground (arith, h) in rw (small, settled) refl

pub settled-full :
    (w : Words) (buffer : List ℕ)
    → length buffer ≡ 64
    → settled w buffer ≡ (process_block w buffer, [])
unfolding settled
settled-full w buffer h =
    let full : (length buffer == 64) ≡ true = ground (arith, h) in rw (full, settled) refl

-- Bytes that fit into the buffer, or fill it.
pub feed-fits :
    (w : Words) (buffer xs : List ℕ)
    → length buffer < 64
    → length buffer + length xs ≤ 64
    → feed (w, buffer) xs ≡ settled w (buffer ++ xs)
unfolding feed
feed-fits w buffer [] room fits =
    sym (ap (settled w) (append_nil buffer) ∙ settled-small w buffer room)
feed-fits w buffer (x ∷ []) room fits = refl
feed-fits w buffer (x ∷ y ∷ ys) room fits =
    let longer = length-append buffer (x ∷ []) in
    let more : length (buffer ++ (x ∷ [])) < 64 = ground (arith, longer, fits) in
    ap (λ s. feed s (y ∷ ys)) (settled-small w (buffer ++ (x ∷ [])) more)
    ∙ feed-fits w (buffer ++ (x ∷ [])) (y ∷ ys) more (ground (arith, longer, fits))
    ∙ ap (settled w) (append_assoc buffer (x ∷ []) (y ∷ ys))

pub feed-whole_blocks :
    (fuel : ℕ) (w : Words) (bytes : List ℕ)
    → length bytes ≤ fuel
    → feed (w, []) bytes ≡ whole_blocks fuel w bytes
unfolding whole_blocks feed
feed-whole_blocks zero w [] h = refl
feed-whole_blocks zero w (x ∷ xs) h = absurd (omega arith)
feed-whole_blocks (suc fuel) w bytes h = elim (Bool-cases (leb 64 (length bytes))) [
  | inl whole ↦
      let block = take 64 bytes in
      let rest = drop 64 bytes in
      let full : length block ≡ 64 = length-take 64 bytes (ground (arith, whole)) in
      let fewer : length rest ≤ fuel = ground (arith, whole, h, length-drop 64 bytes) in
      rw (whole, whole_blocks)
        (ap (feed (w, [])) (sym (take-drop 64 bytes))
          ∙ feed-append (w, []) block rest
          ∙ ap (λ s. feed s rest)
              (feed-fits w [] block (omega arith) (omega arith) ∙ settled-full w block full)
          ∙ feed-whole_blocks fuel (process_block w block) rest fewer)
  | inr short ↦
      let few : length bytes < 64 = ground (arith, short) in
      rw (short, whole_blocks)
        (feed-fits w [] bytes (omega arith) (omega arith) ∙ settled-small w bytes few)
]
