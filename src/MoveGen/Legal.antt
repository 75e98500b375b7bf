-- ===== src/MoveGen/Legal.antt =====
-- Legal moves, the game status and perft (src/chess/move_gen.cpp).
use chess_engine.Base.{ℕ, zero, suc, ◌+◌, List, [], ◌∷◌, not, leb}
use chess_engine.Base.{if◌then◌else◌}
use chess_engine.Base.Lists.{length}
use chess_engine.Types.{Color, Move, GameStatus, ongoing, checkmate, stalemate, draw_fifty_move}
use chess_engine.Board.State.{Board}
use chess_engine.Board.Zobrist.{ZobristKeys, u64}
use chess_engine.Board.Moves.{make_move, undo_move}
use chess_engine.MoveGen.Attack.{is_in_check}
use chess_engine.MoveGen.Generate.{generate_pseudo_legal_moves}

module _ (k : ZobristKeys) where
  -- The loop of `generate_legal_moves` over one mutable board, on which each move is made and undone.
  unfoldable pub legal_loop : Color → Board → List Move → List Move
  legal_loop color b [] = []
  legal_loop color b (m ∷ ms) =
      let (made, undo) = make_move k b m in
      let rest = legal_loop color (undo_move made m undo) ms in
      if not (is_in_check made color) then m ∷ rest else rest

  unfoldable pub generate_legal_moves : Board → List Move
  unfolding legal_loop
  generate_legal_moves b = legal_loop b.side_to_move b (generate_pseudo_legal_moves b)

  unfoldable pub get_game_status : Board → GameStatus
  get_game_status b =
      if leb 100 b.halfmove_clock then draw_fifty_move else elim (generate_legal_moves b) [
        | [] ↦ if is_in_check b b.side_to_move then checkmate else stalemate
        | m ∷ ms ↦ ongoing
      ]

  -- The count of `perft`, and the board that it leaves behind. The loop takes the recursive call.
  unfoldable pub perft_loop : (Board → ℕ × Board) → List Move → ℕ → Board → ℕ × Board
  perft_loop deeper [] nodes b = (nodes, b)
  perft_loop deeper (m ∷ ms) nodes b =
      let (made, undo) = make_move k b m in
      let (count, after) = deeper made in
      perft_loop deeper ms (u64 (nodes + count)) (undo_move after m undo)

  unfoldable pub perft : ℕ → Board → ℕ × Board
  unfolding perft_loop
  perft zero b = (1, b)
  perft (suc zero) b = (length (generate_legal_moves b), b)
  perft (suc (suc n)) b = perft_loop (perft (suc n)) (generate_legal_moves b) 0 b
