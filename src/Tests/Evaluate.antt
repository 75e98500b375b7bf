-- ===== src/Tests/Evaluate.antt =====
-- The evaluation of small positions (src/chess/evaluator.cpp).
use chess_engine.Base.Int.{◌+ℤ◌}
use chess_engine.Base.{◌==◌, ◌||◌, ◌≡◌, refl, arith, true, if◌then◌else◌}
use chess_engine.Base.Int.{pos, ltb_ℤ, ◌-ℤ◌}
use chess_engine.Types.{no_piece, pawn, bishop, king, queen, white, black}
use chess_engine.Board.State.{Board}
use chess_engine.Engine.Tables.{pst_bonus}
use chess_engine.Engine.Evaluate.{evaluate_detailed, side_sum, material_of}
use chess_engine.Engine.MirrorKings.{IsOnlyKing}
use chess_engine.Engine.MirrorScores.{evaluate_detailed-structure}
use chess_engine.Engine.Tilt.{pst_bonus-ranks}
use chess_engine.Engine.Mirror.{mirrored, IsColored, evaluate_detailed-mirrored}
use chess_engine.MoveGen.Valid.{piece}
use chess_engine.Tests.Boards.{start, plain_keys}

-- A white queen on d1 and a black pawn on e7.
abbrev two_pieces : Board
two_pieces = record start {
  squares =
      λ sq. if sq == 3 then piece queen white else if sq == 52 then piece pawn black else no_piece;
}

two_pieces-IsColored : IsColored two_pieces.squares
two_pieces-IsColored sq h = ground (arith, h)

material_test : side_sum true material_of two_pieces.squares ≡ pos 900
unfolding side_sum ◌+ℤ◌
material_test = refl

evaluate_detailed-mirrored_example :
    ((evaluate_detailed plain_keys
        (record two_pieces { squares = mirrored two_pieces.squares })).material
      ≡ pos 0 -ℤ (evaluate_detailed plain_keys two_pieces).material)
    × ((evaluate_detailed plain_keys
          (record two_pieces { squares = mirrored two_pieces.squares })).pst
        ≡ pos 0 -ℤ (evaluate_detailed plain_keys two_pieces).pst)
evaluate_detailed-mirrored_example =
    evaluate_detailed-mirrored plain_keys two_pieces two_pieces-IsColored

-- Castled kings, White's behind one pawn, with a doubled pawn for Black and two white bishops.
abbrev two_kings : Board
two_kings = record start {
  squares = λ sq.
      if sq == 6
      then piece king white
      else if sq == 62
      then piece king black
      else if sq == 14
      then piece pawn white
      else if sq == 33 || sq == 41
      then piece pawn black
      else if sq == 2 || sq == 5
      then piece bishop white
      else no_piece;
}

two_kings-white : IsOnlyKing two_kings.squares white 6
two_kings-white = (omega arith, (refl, λ i p apart. ground (arith, apart)))

two_kings-black : IsOnlyKing two_kings.squares black 62
two_kings-black = (omega arith, (refl, λ i p apart. ground (arith, apart)))

-- The other way up.
abbrev turned_kings : Board
turned_kings = record two_kings { squares = mirrored two_kings.squares }

evaluate_detailed-structure_example :
    ((evaluate_detailed plain_keys turned_kings).king_safety
      ≡ pos 0 -ℤ (evaluate_detailed plain_keys two_kings).king_safety)
    × (((evaluate_detailed plain_keys turned_kings).pawn_structure
          ≡ pos 0 -ℤ (evaluate_detailed plain_keys two_kings).pawn_structure)
        × ((evaluate_detailed plain_keys turned_kings).bishop_pair
            ≡ pos 0 -ℤ (evaluate_detailed plain_keys two_kings).bishop_pair))
evaluate_detailed-structure_example =
    evaluate_detailed-structure plain_keys two_kings 6 62 two_kings-white two_kings-black

pst_bonus-ranks_example :
    (ltb_ℤ (pst_bonus pawn white 52) (pst_bonus pawn white 12) ≡ true)
    × (ltb_ℤ (pst_bonus king white 4) (pst_bonus king white 60) ≡ true)
pst_bonus-ranks_example = pst_bonus-ranks 4 (omega arith)
