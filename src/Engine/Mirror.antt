-- ===== src/Engine/Mirror.antt =====
-- The evaluation (src/chess/evaluator.cpp) of a position with its colours exchanged and its ranks in
-- the opposite order.
use chess_engine.Base.{ℕ, ◌<◌, ◌≡◌, refl, arith, bit_xor, Bool, true, false}
use chess_engine.Base.{◌&&◌, not, ap, ap₂, ◌∙◌, sym, if◌then◌else◌, ◌≢◌, Bool-cases, inl, inr}
use chess_engine.Base.Range.{passes_each}
use chess_engine.Base.Int.{ℤ, pos, ◌-ℤ◌}
use chess_engine.Types.{Color, Piece, PieceType, is_none, white, black}
use chess_engine.Board.State.{Board}
use chess_engine.Board.Zobrist.{ZobristKeys}
use chess_engine.Engine.Tables.{pst_bonus}
use chess_engine.Engine.Evaluate.{evaluate_detailed, side_sum, counts_for, material_of, pst_of}
use chess_engine.Engine.Tilt.{pst_bonus-mirror}
use chess_engine.Engine.Reversed.{lies_opposite, opposite_checked, sum_from-board, sum_from-mirror}
use chess_engine.Engine.Reversed.{swapped_difference}

abbrev pub exchanged : Piece → Piece
exchanged p = record p {
  color = elim p.color [ white ↦ black | black ↦ white | Color.none ↦ Color.none ];
}

-- Each square has the piece of the square that lies opposite, in the other colour.
abbrev pub mirrored : (ℕ → Piece) → ℕ → Piece
mirrored squares sq = exchanged (squares (bit_xor sq 56))

-- Every piece is White's or Black's.
abbrev pub IsColored : (ℕ → Piece) → Type 0
IsColored squares = (sq : ℕ) → is_none (squares sq) ≡ false → (squares sq).color ≢ Color.none

-- What a piece adds on a square, the other colour's piece adds on the square that lies opposite.
abbrev IsFair : (Piece → ℕ → ℤ) → Type 0
IsFair value =
    (p : Piece) (sq : ℕ)
    → sq < 64
    → p.color ≢ Color.none
    → value (exchanged p) sq ≡ value p (bit_xor sq 56)

side_term : Bool → (Piece → ℕ → ℤ) → Piece → ℕ → ℤ
side_term for_white value p sq =
    if not (is_none p) && counts_for for_white p then value p sq else pos 0

counts_for-exchanged :
    (w : Bool) (t : PieceType) (c : Color)
    → c ≢ Color.none
    → counts_for w (exchanged (record { type = t; color = c }))
      ≡ counts_for (not w) (record { type = t; color = c })
counts_for-exchanged true t white h = refl
counts_for-exchanged true t black h = refl
counts_for-exchanged false t white h = refl
counts_for-exchanged false t black h = refl
counts_for-exchanged w t Color.none h = absurd (h refl)

colored_term :
    (w : Bool) (value : Piece → ℕ → ℤ) (p : Piece) (sq : ℕ)
    → p.color ≢ Color.none
    → value (exchanged p) sq ≡ value p (bit_xor sq 56)
    → (if counts_for w (exchanged p) then value (exchanged p) sq else pos 0)
      ≡ (if counts_for (not w) p then value p (bit_xor sq 56) else pos 0)
colored_term w value p sq colored e = rw e (
    ap (λ c. if c then value p (bit_xor sq 56) else pos 0)
      (counts_for-exchanged w p.type p.color colored))

side_term-exchanged :
    (w : Bool) (value : Piece → ℕ → ℤ) (p : Piece) (sq : ℕ)
    → IsFair value
    → sq < 64
    → (is_none p ≡ false → p.color ≢ Color.none)
    → side_term w value (exchanged p) sq ≡ side_term (not w) value p (bit_xor sq 56)
unfolding side_term
side_term-exchanged w value p sq fair h colored = elim (Bool-cases (is_none p)) [
  | inl e ↦ rw e refl
  | inr e ↦ rw e (colored_term w value p sq (colored e) (fair p sq h (colored e)))
]

pub side_sum-mirrored :
    (w : Bool) (value : Piece → ℕ → ℤ) (squares : ℕ → Piece)
    → IsFair value
    → IsColored squares
    → side_sum w value (mirrored squares) ≡ side_sum (not w) value squares
unfolding side_sum side_term
side_sum-mirrored w value squares fair colored =
    sum_from-board (λ sq. side_term w value (mirrored squares sq) sq)
      (λ sq. side_term (not w) value (squares (bit_xor sq 56)) (bit_xor sq 56))
      (λ i p.
        side_term-exchanged w value (squares (bit_xor i 56)) i fair p (colored (bit_xor i 56)))
    ∙ sum_from-mirror (λ sq. side_term (not w) value (squares sq) sq)

material_of-IsFair : IsFair material_of
material_of-IsFair p sq h colored = refl

turned :
    (t : PieceType) (c : Color) (sq : ℕ)
    → sq < 64
    → c ≢ Color.none
    → pst_of (exchanged (record { type = t; color = c })) sq ≡ pst_bonus t c (bit_xor sq 56)
turned t white sq h colored =
    let checked = passes_each 64 0 sq lies_opposite opposite_checked (omega arith) (omega arith) in
    let back : bit_xor (bit_xor sq 56) 56 ≡ sq = ground (arith, checked) in
    let small : bit_xor sq 56 < 64 = ground (arith, checked) in
    ap (λ s. pst_bonus t black s) (sym back) ∙ pst_bonus-mirror t (bit_xor sq 56) small
turned t black sq h colored = sym (pst_bonus-mirror t sq h)
turned t Color.none sq h colored = absurd (colored refl)

pst_of-IsFair : IsFair pst_of
pst_of-IsFair p sq h colored = turned p.type p.color sq h colored

difference-mirrored :
    (value : Piece → ℕ → ℤ) (squares : ℕ → Piece)
    → IsFair value
    → IsColored squares
    → side_sum true value (mirrored squares) -ℤ side_sum false value (mirrored squares)
      ≡ pos 0 -ℤ (side_sum true value squares -ℤ side_sum false value squares)
difference-mirrored value squares fair colored =
    ap₂ (λ v w. v -ℤ w) (side_sum-mirrored true value squares fair colored)
      (side_sum-mirrored false value squares fair colored)
    ∙ swapped_difference (side_sum true value squares) (side_sum false value squares)

-- With the colours exchanged and the ranks in the opposite order, the score of the material and the
-- score of the pieces' squares change their signs, on every board whose pieces have a colour.
pub evaluate_detailed-mirrored :
    (k : ZobristKeys) (b : Board)
    → IsColored b.squares
    → ((evaluate_detailed k (record b { squares = mirrored b.squares })).material
        ≡ pos 0 -ℤ (evaluate_detailed k b).material)
      × ((evaluate_detailed k (record b { squares = mirrored b.squares })).pst
          ≡ pos 0 -ℤ (evaluate_detailed k b).pst)
unfolding evaluate_detailed
evaluate_detailed-mirrored k b colored = (
  difference-mirrored material_of b.squares material_of-IsFair colored,
  difference-mirrored pst_of b.squares pst_of-IsFair colored,
)
