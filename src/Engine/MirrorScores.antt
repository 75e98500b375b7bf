-- ===== src/Engine/MirrorScores.antt =====
-- The pawn structure, the bishops and the king's shelter in the evaluation (src/chess/evaluator.cpp)
-- of a position with its colours exchanged and its ranks in the opposite order.
use chess_engine.Base.{ℕ, ◌+◌, ◌-◌, ◌<◌, ◌≡◌, ◌≢◌, refl, arith, bit_xor, Bool}
use chess_engine.Base.{◌&&◌, leb, ltb, ap, ap₂, ◌∙◌, sym, if◌then◌else◌}
use chess_engine.Base.Int.{ℤ, pos, negsuc, ◌+ℤ◌, ◌-ℤ◌}
use chess_engine.Types.{Color, Piece, bishop, white, black, type_eq, color_eq}
use chess_engine.Types.{rank_of, file_of, opposite_color}
use chess_engine.Board.State.{Board}
use chess_engine.Board.Zobrist.{ZobristKeys}
use chess_engine.Engine.Evaluate.{is_pawn_of, is_isolated, pawn_score, evaluate_pawn_structure}
use chess_engine.Engine.Evaluate.{
  own_pawns_on_file, is_passed, effective_rank, passed_pawn_bonus, count_bishops,
}
use chess_engine.Engine.Evaluate.{evaluate_detailed, bishop_pair_of}
use chess_engine.Engine.Reversed.{sum_from-board, sum_from-mirror, swapped_difference}
use chess_engine.Engine.ReversedLoops.{count_from-shift, count_from-mirror}
use chess_engine.Engine.Mirror.{mirrored}
use chess_engine.Engine.MirrorPawns.{
  color_eq-exchanged, is_pawn_of-exchanged, file_of-opposite, rank_of-opposite,
}
use chess_engine.Engine.MirrorPawns.{is_passed-mirrored, own_pawns_on_file-mirrored}
use chess_engine.Engine.MirrorKings.{IsOnlyKing, king_safety_of-mirrored}
use chess_engine.Base.Lists.{get_or}

effective_rank-opposite :
    (c : Color) (rank : ℕ)
    → c ≢ Color.none
    → rank < 8
    → effective_rank c rank ≡ effective_rank (opposite_color c) (7 - rank)
effective_rank-opposite white rank h p = omega arith
effective_rank-opposite black rank h p = refl
effective_rank-opposite Color.none rank h p = absurd (h refl)

is_bishop_of : Color → Piece → Bool
is_bishop_of c p = type_eq p.type bishop && color_eq p.color c

-- What a pawn adds, by the pawns of its file, whether it is isolated and passed, and how far it is.
score_of : ℕ → Bool → Bool → ℕ → ℤ
score_of count isolated passed far =
    (if ltb 1 count then negsuc 14 else pos 0)
    +ℤ (if isolated then negsuc 19 else pos 0)
    +ℤ (if passed then pos (get_or passed_pawn_bonus far 0) else pos 0)

equal_scores :
    {m n far gone : ℕ} {i j p q : Bool}
    → m ≡ n
    → i ≡ j
    → p ≡ q
    → far ≡ gone
    → score_of m i p far ≡ score_of n j q gone
equal_scores {n = n} {far = far} {j = j} {p = p} {q = q} em ei ep ef =
    ap₂ (λ k t. score_of k t p far) em ei ∙ ap₂ (λ t f. score_of n j t f) ep ef

module _ (squares : ℕ → Piece) (c : Color) (h : c ≢ Color.none) where
  is_isolated-mirrored :
      (file : ℕ)
      → is_isolated (mirrored squares) c file ≡ is_isolated squares (opposite_color c) file
  is_isolated-mirrored file =
      rw
        (
          own_pawns_on_file-mirrored squares c (file - 1) h,
          own_pawns_on_file-mirrored squares c (file + 1) h,
        )
        refl

  pawn_score-mirrored :
      (sq : ℕ)
      → sq < 64
      → pawn_score (mirrored squares) c sq ≡ pawn_score squares (opposite_color c) (bit_xor sq 56)
  unfolding pawn_score score_of
  pawn_score-mirrored sq p =
      let file = file_of sq in
      let rank = rank_of sq in
      let other = opposite_color c in
      let there : ℕ → ℕ → ℤ = λ r f.
        score_of (own_pawns_on_file squares other f) (is_isolated squares other f)
          (is_passed squares other r f) (effective_rank other r) in
      equal_scores (own_pawns_on_file-mirrored squares c file h) (is_isolated-mirrored file)
        (is_passed-mirrored squares c rank file h (omega arith) (omega arith))
        (effective_rank-opposite c rank h (omega arith))
      ∙ ap₂ there (sym (rank_of-opposite sq p)) (sym (file_of-opposite sq p))

  evaluate_pawn_structure-mirrored :
      evaluate_pawn_structure (mirrored squares) c
      ≡ evaluate_pawn_structure squares (opposite_color c)
  unfolding evaluate_pawn_structure
  evaluate_pawn_structure-mirrored =
      let other = opposite_color c in
      let term : ℕ → ℤ =
        λ sq. if is_pawn_of other (squares sq) then pawn_score squares other sq else pos 0 in
      sum_from-board
        (λ sq.
          if is_pawn_of c (mirrored squares sq) then pawn_score (mirrored squares) c sq else pos 0)
        (λ sq. term (bit_xor sq 56))
        (λ i p.
          ap₂ (λ (t : Bool) (v : ℤ). if t then v else pos 0)
            (is_pawn_of-exchanged c (squares (bit_xor i 56)) h) (pawn_score-mirrored i p))
      ∙ sum_from-mirror term

  count_bishops-mirrored :
      count_bishops (mirrored squares) c ≡ count_bishops squares (opposite_color c)
  unfolding count_bishops is_bishop_of
  count_bishops-mirrored =
      count_from-shift 64 0 0 (λ sq. is_bishop_of c (mirrored squares sq))
        (λ sq. is_bishop_of (opposite_color c) (squares (bit_xor sq 56)))
        (λ i p.
          let there = squares (bit_xor (0 + i) 56) in
          ap (λ b. type_eq there.type bishop && b) (color_eq-exchanged c there.color there.type h))
      ∙ count_from-mirror (λ sq. is_bishop_of (opposite_color c) (squares sq))

  bishop_pair_of-mirrored :
      (b : Board)
      → b.squares ≡ squares
      → bishop_pair_of (record b { squares = mirrored squares }) c
        ≡ bishop_pair_of b (opposite_color c)
  bishop_pair_of-mirrored b e =
      ap (λ n. if leb 2 n then pos 30 else pos 0)
        (count_bishops-mirrored ∙ ap (λ s. count_bishops s (opposite_color c)) (sym e))

-- White's part and Black's part change places.
difference : {v w x y : ℤ} → v ≡ y → w ≡ x → v -ℤ w ≡ pos 0 -ℤ (x -ℤ y)
difference {x = x} {y = y} ev ew = ap₂ (λ s t. s -ℤ t) ev ew ∙ swapped_difference x y

-- With the colours exchanged and the ranks in the opposite order, the scores of the kings' safety,
-- of the pawn structure and of the pair of bishops change their signs, on every board with one king
-- of each colour.
pub evaluate_detailed-structure :
    (k : ZobristKeys) (b : Board) (home away : ℕ)
    → IsOnlyKing b.squares white home
    → IsOnlyKing b.squares black away
    → ((evaluate_detailed k (record b { squares = mirrored b.squares })).king_safety
        ≡ pos 0 -ℤ (evaluate_detailed k b).king_safety)
      × (((evaluate_detailed k (record b { squares = mirrored b.squares })).pawn_structure
            ≡ pos 0 -ℤ (evaluate_detailed k b).pawn_structure)
          × ((evaluate_detailed k (record b { squares = mirrored b.squares })).bishop_pair
              ≡ pos 0 -ℤ (evaluate_detailed k b).bishop_pair))
unfolding evaluate_detailed
evaluate_detailed-structure k b home away only_white only_black = (
  difference (king_safety_of-mirrored b white away (ground arith) only_black)
      (king_safety_of-mirrored b black home (ground arith) only_white),
  (
    difference (evaluate_pawn_structure-mirrored b.squares white (ground arith))
        (evaluate_pawn_structure-mirrored b.squares black (ground arith)),
    difference (bishop_pair_of-mirrored b.squares white (ground arith) b refl)
        (bishop_pair_of-mirrored b.squares black (ground arith) b refl),
  ),
)
