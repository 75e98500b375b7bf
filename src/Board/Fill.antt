-- ===== src/Board/Fill.antt =====
-- The squares that the first field of a FEN leaves (src/chess/board.cpp).
use chess_engine.Base.{ℕ, zero, suc, ◌+◌, ◌*◌, ◌<◌, ◌≤◌, ◌≡◌, ◌≢◌, refl, sym, ◌∙◌, ◌⊎◌}
use chess_engine.Base.{inl, inr, true, false, if◌then◌else◌, arith}
use chess_engine.Base.{ltb, ◌==◌, Bool-cases}
use chess_engine.Base.Arrays.{update, update_at, update_other}
use chess_engine.Types.{Piece, no_piece, is_none, make_square}
use chess_engine.Board.Hash.{IsReal}
use chess_engine.Board.Fen.{}

-- The squares that a rank's text leaves, with `n` files to go from `f`.
unfoldable pub fill : (ℕ → Piece) → (ℕ → Piece) → ℕ → ℕ → ℕ → (ℕ → Piece)
fill s q r f zero = q
fill s q r f (suc n) = elim (is_none (s (make_square r f))) [
  | true ↦ fill s q r (f + 1) n
  | false ↦ fill s (update q (make_square r f) (s (make_square r f))) r (f + 1) n
]

unfoldable pub IsClean : (ℕ → Piece) → Type 0
IsClean s = (sq : ℕ) → sq < 64 → (s sq ≡ no_piece) ⊎ IsReal (s sq)

module _ (s q : ℕ → Piece) (r f n : ℕ) where
  pub fill_empty :
      is_none (s (make_square r f)) ≡ true → fill s q r f (suc n) ≡ fill s q r (f + 1) n
  unfolding fill
  fill_empty e = rw (e, fill) refl

  pub fill_piece :
      is_none (s (make_square r f)) ≡ false
      → fill s q r f (suc n) ≡ fill s (update q (make_square r f) (s (make_square r f))) r (f + 1) n
  unfolding fill
  fill_piece e = rw (e, fill) refl

-- Squares before `f` on the rank `r`, and of the other ranks, stay.
fill_outside :
    (s : ℕ → Piece) (n r f : ℕ) (q : ℕ → Piece) (sq : ℕ)
    → r < 8
    → f + n ≡ 8
    → (sq < r * 8 + f) ⊎ (r * 8 + 8 ≤ sq)
    → fill s q r f n sq ≡ q sq
unfolding fill
fill_outside s zero r f q sq hr hn out = refl
fill_outside s (suc n) r f q sq hr hn out = elim (Bool-cases (is_none (s (make_square r f)))) [
  | inl e ↦
      rw (fill_empty s q r f n e) (fill_outside s n r (f + 1) q sq hr (omega arith) (omega arith))
  | inr e ↦
      let q' = update q (make_square r f) (s (make_square r f)) in
      rw (fill_piece s q r f n e) (
        fill_outside s n r (f + 1) q' sq hr (omega arith) (omega arith)
        ∙ update_other q (make_square r f) sq (s (make_square r f)) (omega arith))
]

-- What the text of a rank leaves at a square that it reaches.
abbrev Given : (ℕ → Piece) → (ℕ → Piece) → ℕ → Piece → Type 0
Given s q sq p = p ≡ (if is_none (s sq) then q sq else s sq)

fill_first :
    (s : ℕ → Piece) (n r f : ℕ) (q : ℕ → Piece) (sq : ℕ)
    → r < 8
    → f + suc n ≡ 8
    → make_square r f ≡ sq
    → Given s q sq (fill s q r f (suc n) sq)
fill_first s n r f q sq hr hn same = elim (Bool-cases (is_none (s (make_square r f)))) [
  | inl e ↦
      rw
        (
          fill_empty s q r f n e,
          fill_outside s n r (f + 1) q sq hr (omega arith) (omega arith),
          sym same,
          e,
        )
        refl
  | inr e ↦
      let q' = update q (make_square r f) (s (make_square r f)) in
      rw
        (
          fill_piece s q r f n e,
          fill_outside s n r (f + 1) q' sq hr (omega arith) (omega arith),
          sym same,
          e,
          update_at q (make_square r f) (s (make_square r f)),
        )
        refl
]

fill_later :
    (s : ℕ → Piece) (n r f : ℕ) (q : ℕ → Piece) (sq : ℕ)
    → make_square r f ≢ sq
    → ((q' : ℕ → Piece) → Given s q' sq (fill s q' r (f + 1) n sq))
    → Given s q sq (fill s q r f (suc n) sq)
fill_later s n r f q sq apart others = elim (Bool-cases (is_none (s (make_square r f)))) [
  | inl e ↦ rw (fill_empty s q r f n e) (others q)
  | inr e ↦
      rw
        (
          fill_piece s q r f n e,
          others (update q (make_square r f) (s (make_square r f))),
          update_other q (make_square r f) sq (s (make_square r f)) apart,
        )
        refl
]

-- The other squares of the rank hold the piece that the text names, if any.
fill_inside :
    (s : ℕ → Piece) (n r f : ℕ) (q : ℕ → Piece) (sq : ℕ)
    → r < 8
    → f + n ≡ 8
    → r * 8 + f ≤ sq
    → sq < r * 8 + 8
    → Given s q sq (fill s q r f n sq)
unfolding fill
fill_inside s zero r f q sq hr hn low high = absurd (omega arith)
fill_inside s (suc n) r f q sq hr hn low high = elim (Bool-cases (make_square r f == sq)) [
  | inl e ↦ fill_first s n r f q sq hr hn (ground arith)
  | inr e ↦
      let apart : make_square r f ≢ sq = ground arith in
      fill_later s n r f q sq apart
        λ q'. fill_inside s n r (f + 1) q' sq hr (omega arith) (omega arith) high
]

-- The squares that the text of the ranks from `r` down leaves.
unfoldable pub fills : (ℕ → Piece) → (ℕ → Piece) → ℕ → (ℕ → Piece)
fills s q zero = fill s q 0 0 8
fills s q (suc r) = fills s (fill s q (suc r) 0 8) r

fills_outside :
    (s : ℕ → Piece) (r : ℕ) (q : ℕ → Piece) (sq : ℕ)
    → r < 8
    → r * 8 + 8 ≤ sq
    → fills s q r sq ≡ q sq
unfolding fills
fills_outside s zero q sq hr out = fill_outside s 8 0 0 q sq hr refl (inr (omega arith))
fills_outside s (suc r) q sq hr out =
    fills_outside s r (fill s q (suc r) 0 8) sq (omega arith) (omega arith)
    ∙ fill_outside s 8 (suc r) 0 q sq hr refl (inr (omega arith))

fills_inside :
    (s : ℕ → Piece) (r : ℕ) (q : ℕ → Piece) (sq : ℕ)
    → r < 8
    → sq < r * 8 + 8
    → Given s q sq (fills s q r sq)
unfolding fills
fills_inside s zero q sq hr low = fill_inside s 8 0 0 q sq hr refl (omega arith) (omega arith)
fills_inside s (suc r) q sq hr low = elim (Bool-cases (ltb sq (r * 8 + 8))) [
  | inl e ↦
      rw
        (
          fills_inside s r (fill s q (suc r) 0 8) sq (omega arith) (ground arith),
          fill_outside s 8 (suc r) 0 q sq hr refl (ground arith),
        )
        refl
  | inr e ↦
      rw (fills_outside s r (fill s q (suc r) 0 8) sq (omega arith) (ground arith))
        (fill_inside s 8 (suc r) 0 q sq hr refl (ground arith) (omega arith))
]

pub fills_all :
    (s : ℕ → Piece) → IsClean s → (sq : ℕ) → sq < 64 → fills s (λ t. no_piece) 7 sq ≡ s sq
unfolding IsClean
fills_all s clean sq h = fills_inside s 7 (λ t. no_piece) sq (omega arith) h ∙ given (clean sq h)
  where
    given : (s sq ≡ no_piece) ⊎ IsReal (s sq) → (if is_none (s sq) then no_piece else s sq) ≡ s sq
    given (inl e) = rw e refl
    given (inr (real, c)) = rw real refl
