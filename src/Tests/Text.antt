-- ===== src/Tests/Text.antt =====
-- Positions and moves as text (src/chess/board.cpp).
use chess_engine.Base.{ℕ, ◌≡◌, ◌≢◌, ◌<◌, refl, inl, inr, arith, [], ◌∷◌, ◌++◌}
use chess_engine.Types.{Piece, Move, promotion_flag, queen}
use chess_engine.Board.Text.{
  from_char, square_to_algebraic, algebraic_to_square, to_uci, from_uci, placement_text,
}
use chess_engine.Board.Fen.{read_placement, ok, out_of_bounds}
use chess_engine.Board.Fill.{IsClean}
use chess_engine.Board.RoundTrip.{
  uci_part, square_to_algebraic-algebraic_to_square, from_uci-to_uci,
}
use chess_engine.Board.Placement.{read_placement-placement_text}
use chess_engine.Board.Overrun.{read_placement-ninth_rank, read_placement-Safe}
use chess_engine.Tests.Boards.{start, start-IsValid}

start-IsClean : IsClean start.squares
unfolding IsClean
start-IsClean sq h = start-IsValid.clean sq

read_placement-placement_text_example :
    (out : ℕ → Piece) × (read_placement (placement_text start.squares 7) ≡ ok out)
    × ((sq : ℕ) → sq < 64 → out sq ≡ start.squares sq)
read_placement-placement_text_example = read_placement-placement_text start.squares start-IsClean

-- A black pawn on a ninth rank.
read_placement-ninth_rank_example :
    read_placement (placement_text start.squares 7 ++ (47 ∷ 112 ∷ [])) ≡ out_of_bounds
unfolding from_char
read_placement-ninth_rank_example =
    read_placement-ninth_rank start.squares start-IsClean 112 [] refl refl refl

-- "8/8".
read_placement-Safe_example : read_placement (56 ∷ 47 ∷ 56 ∷ []) ≢ out_of_bounds
read_placement-Safe_example = read_placement-Safe (56 ∷ 47 ∷ 56 ∷ []) (omega arith)

square_to_algebraic-algebraic_to_square_example :
    square_to_algebraic (algebraic_to_square (101 ∷ 52 ∷ [])) ≡ 101 ∷ 52 ∷ []
unfolding algebraic_to_square
square_to_algebraic-algebraic_to_square_example =
    square_to_algebraic-algebraic_to_square (101 ∷ 52 ∷ []) (omega arith)

abbrev promotion : Move
promotion = record { from = 52; to = 60; flags = promotion_flag; promo_type = queen }

from_uci-to_uci_example : from_uci (to_uci promotion) ≡ uci_part promotion
from_uci-to_uci_example = from_uci-to_uci promotion (omega arith) (omega arith) (inr (inl refl))
