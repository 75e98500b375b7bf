-- ===== src/Crypto/Streaming.antt =====
-- A message may be fed to SHA-256 in pieces (src/crypto/sha256.cpp): `update` is as good as taking one
-- byte after the other.
use chess_engine.Base.{ℕ, ◌-◌, ◌≤◌, ◌<◌, min, ◌≡◌, refl, arith}
use chess_engine.Base.{
  List, [], ◌∷◌, ◌++◌, ap, ap₂, ◌∙◌, sym, leb, ◌==◌, Bool-cases, inl, inr, ◌⊎◌, subst,
}
use chess_engine.Base.Lists.{length}
use chess_engine.Crypto.Sha256.{Sha256, Words, settled, top_up, whole_blocks, update}
use chess_engine.Crypto.Sha256.{take, drop, stash}
use chess_engine.Crypto.Feed.{length-append, take-drop}
use chess_engine.Crypto.Feed.{length-take, length-drop, feed-append, settled-small}
use chess_engine.Crypto.Feed.{settled-full, feed-fits, feed-whole_blocks, feed}

-- Topping up the buffer.
feed-top_up :
    (w : Words) (buffer bytes : List ℕ)
    → length buffer < 64
    → feed (w, buffer) bytes
      ≡ feed ((top_up w buffer bytes).0, (top_up w buffer bytes).1.0) (top_up w buffer bytes).1.1
unfolding top_up
feed-top_up w [] bytes room = refl
feed-top_up w (x ∷ xs) bytes room =
    let some_of = min (length bytes) (64 - length (x ∷ xs)) in
    let front = take some_of bytes in
    let count : length front ≡ some_of = length-take some_of bytes (omega arith) in
    ap (feed (w, x ∷ xs)) (sym (take-drop some_of bytes))
    ∙ feed-append (w, x ∷ xs) front (drop some_of bytes)
    ∙ ap (λ s. feed s (drop some_of bytes)) (feed-fits w (x ∷ xs) front room (omega arith))

no_length : (xs : List ℕ) → length xs ≡ 0 → xs ≡ []
no_length [] h = refl
no_length (x ∷ xs) h = absurd (omega arith)

-- Where the buffer is not empty after that, no byte is left.
top_up-all :
    (w : Words) (buffer bytes : List ℕ)
    → length buffer < 64
    → ((top_up w buffer bytes).1.0 ≡ []) ⊎ ((top_up w buffer bytes).1.1 ≡ [])
unfolding top_up
top_up-all w [] bytes room = inl refl
top_up-all w (x ∷ xs) bytes room =
    let buffer = x ∷ xs in
    let some_of = min (length bytes) (64 - length buffer) in
    let front = take some_of bytes in
    let count : length front ≡ some_of = length-take some_of bytes (omega arith) in
    let sum = length-append buffer front in
    elim (Bool-cases (leb (64 - length buffer) (length bytes))) [
      | inl enough ↦
          let full : length (buffer ++ front) ≡ 64 = ground (arith, enough, count, sum, room) in
          inl (ap (λ s. s.1) (settled-full w (buffer ++ front) full))
      | inr few ↦
          inr (no_length (drop some_of bytes) (ground (arith, few, length-drop some_of bytes)))
    ]

abbrev rest_of_update : Words → List ℕ → List ℕ → Words × List ℕ
rest_of_update w left more =
    ((whole_blocks (length more) w more).0, stash left (whole_blocks (length more) w more).1)

stash-nothing : (xs : List ℕ) → stash [] xs ≡ xs
stash-nothing [] = refl
stash-nothing (x ∷ xs) = refl

rest_of_update-feed :
    (w : Words) (left more : List ℕ)
    → (left ≡ []) ⊎ (more ≡ [])
    → rest_of_update w left more ≡ feed (w, left) more
unfolding whole_blocks feed
rest_of_update-feed w left more (inl h) =
    ap (λ l. rest_of_update w l more) h
    ∙ ap (λ r. ((whole_blocks (length more) w more).0, r))
        (stash-nothing (whole_blocks (length more) w more).1)
    ∙ sym (feed-whole_blocks (length more) w more (omega arith))
    ∙ ap (λ l. feed (w, l) more) (sym h)
rest_of_update-feed w left more (inr h) = ap (rest_of_update w left) h ∙ ap (feed (w, left)) (sym h)

abbrev make_sha : Words × List ℕ → ℕ → Sha256
make_sha s n = record { state = s.0; buffer = s.1; total_bytes = n }

abbrev pub digest_of : Sha256 → Words × List ℕ
digest_of sha = (sha.state, sha.buffer)

-- `update` takes the bytes as one after the other would be taken.
pub update-feed :
    (bytes : List ℕ) (sha : Sha256)
    → length sha.buffer < 64
    → digest_of (update bytes sha) ≡ feed (digest_of sha) bytes
unfolding update
update-feed bytes sha room =
    let (w, (left, more)) = top_up sha.state sha.buffer bytes in
    rest_of_update-feed w left more (top_up-all sha.state sha.buffer bytes room)
    ∙ sym (feed-top_up sha.state sha.buffer bytes room)

settled-room : (w : Words) (buffer : List ℕ) → length buffer ≤ 64 → length (settled w buffer).1 < 64
settled-room w buffer h = elim (Bool-cases (length buffer == 64)) [
  | inl e ↦ rw (settled-full w buffer (ground (arith, e))) (omega arith)
  | inr e ↦ rw (settled-small w buffer (ground (arith, e, h))) (ground (arith, e, h))
]

feed-room : (s : Words × List ℕ) (bytes : List ℕ) → length s.1 < 64 → length (feed s bytes).1 < 64
unfolding feed
feed-room s [] room = room
feed-room s (x ∷ xs) room =
    feed-room (settled s.0 (s.1 ++ (x ∷ []))) xs
      (settled-room s.0 (s.1 ++ (x ∷ [])) (ground (arith, length-append s.1 (x ∷ []), room)))

total-update :
    (xs ys : List ℕ) (sha : Sha256)
    → (update ys (update xs sha)).total_bytes ≡ (update (xs ++ ys) sha).total_bytes
unfolding update
total-update xs ys sha = ground (arith, length-append xs ys)

-- A message that is fed in two pieces leaves the hash where the whole message leaves it, if less than
-- a block waits in the buffer before.
pub update-append :
    (xs ys : List ℕ) (sha : Sha256)
    → length sha.buffer < 64
    → update ys (update xs sha) ≡ update (xs ++ ys) sha
update-append xs ys sha room =
    let first = update-feed xs sha room in
    let still : length (update xs sha).buffer < 64 =
      subst (λ s. length s.1 < 64) (sym first) (feed-room (digest_of sha) xs room) in
    let both =
      update-feed ys (update xs sha) still
      ∙ ap (λ s. feed s ys) first
      ∙ sym (feed-append (digest_of sha) xs ys)
      ∙ sym (update-feed (xs ++ ys) sha room) in
    ap₂ (λ s n. make_sha s n) both (total-update xs ys sha)
