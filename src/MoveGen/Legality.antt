-- ===== src/MoveGen/Legality.antt =====
-- `generate_legal_moves`, `get_game_status` and `perft` against their specifications
-- (src/chess/move_gen.cpp).
use chess_engine.Base.{◌≡◌, refl, List, [], ◌∷◌, not}
use chess_engine.Base.{Bool}
use chess_engine.Base.Lists.{All, select}
use chess_engine.Types.{Move}
use chess_engine.Board.State.{Board}
use chess_engine.Board.Zobrist.{ZobristKeys}
use chess_engine.Board.Moves.{make_move, undo_move}
use chess_engine.Board.Undo.{undo_move-make_move}
use chess_engine.MoveGen.Attack.{is_in_check}
use chess_engine.MoveGen.Generate.{generate_pseudo_legal_moves}
use chess_engine.MoveGen.Legal.{legal_loop, generate_legal_moves}
use chess_engine.MoveGen.Valid.{IsValid, IsSound}
use chess_engine.MoveGen.Sound.{generate_pseudo_legal_moves-IsSound}

module _ (k : ZobristKeys) where
  -- Legal: after the move the mover's king is not in check.
  abbrev pub is_safe : Board → Move → Bool
  is_safe b m = not (is_in_check (make_move k b m).0 b.side_to_move)

  module _ (b : Board) (v : IsValid b) where
    undone : (m : Move) → IsSound b m → undo_move (make_move k b m).0 m (make_move k b m).1 ≡ b
    undone m ok = undo_move-make_move k b m v.side ok.0

    legal_loop-select :
        (ms : List Move)
        → All (IsSound b) ms
        → legal_loop k b.side_to_move b ms ≡ select (is_safe b) ms
    unfolding legal_loop select
    legal_loop-select [] h = refl
    legal_loop-select (m ∷ ms) h = rw (undone m h.0, legal_loop-select ms h.1)

    -- On a valid board the loop that makes and undoes each move on one shared board keeps exactly
    -- the pseudo-legal moves, in order, that leave the mover's king safe when made on the board itself.
    pub generate_legal_moves-select :
        generate_legal_moves k b ≡ select (is_safe b) (generate_pseudo_legal_moves b)
    unfolding generate_legal_moves
    generate_legal_moves-select =
        legal_loop-select (generate_pseudo_legal_moves b) (generate_pseudo_legal_moves-IsSound b v)
