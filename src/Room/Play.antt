-- ===== src/Room/Play.antt =====
-- The moves of a game: `submit_move` and `submit_move_ai` (src/game/game_room.cpp).
use chess_engine.Base.{ℕ, Bool, true, false, ◌&&◌, not, ◌==◌, if◌then◌else◌, Option, none, some}
use chess_engine.Base.{List, [], ◌∷◌, ◌++◌, map}
use chess_engine.Base.Int.{ℤ}
use chess_engine.Types.{
  Color, PieceType, Move, GameStatus, color_eq, type_eq, is_promotion, ongoing, checkmate, timeout,
  stalemate, draw_fifty_move, draw_insufficient_material, draw_threefold_repetition, queen,
}
use chess_engine.Board.State.{Board}
use chess_engine.Board.Zobrist.{ZobristKeys}
use chess_engine.Board.Moves.{make_move}
use chess_engine.Board.Text.{to_uci, to_fen}
use chess_engine.MoveGen.Legal.{generate_legal_moves, get_game_status}
use chess_engine.Room.State.{
  GameRoom, MoveRecord, RoomError, Score, color_of, bump, finish_game, seat, set_seat, state_eq,
  in_progress, white_wins, black_wins, drawn, unfinished, not_in_progress, not_a_player,
  not_your_turn, out_of_time, illegal_move, not_an_ai_game, not_the_ai_turn, ai_clock_expired,
  ai_illegal_move,
}
use chess_engine.Room.Clock.{switch_clock, check_flag, elapsed}

-- `MoveResult` of an accepted move. A refused one sets the error and the status only.
pub record Accepted : Type 0 where
  pub san : List ℕ
  pub game_status : GameStatus
  pub white_time_ms : ℕ
  pub black_time_ms : ℕ
  pub fen : List ℕ
  pub legal_moves : List (List ℕ)
  pub draw_offer_declined : Bool

pub data MoveResult : Type 0 where
  refused : RoomError → GameStatus → MoveResult
  accepted : Accepted → MoveResult

abbrev pub is_ongoing : GameStatus → Bool
is_ongoing ongoing = true
is_ongoing _ = false

-- The test of the loop over the legal moves. Without a promotion piece a queen is meant.
unfoldable pub fits : ℕ → ℕ → PieceType → Move → Bool
fits from to promo m =
    let wanted = if type_eq promo PieceType.none then queen else promo in
    m.from == from && m.to == to && (if is_promotion m then type_eq m.promo_type wanted else true)

unfoldable pub find_move : (Move → Bool) → List Move → Option Move
find_move test [] = none
find_move test (m ∷ ms) = let rest = find_move test ms in if test m then some m else rest

-- Who has won when `color` has lost.
abbrev pub loss : Color → Score
loss c = if color_eq c Color.white then black_wins else white_wins

abbrev pub score_of : GameStatus → Color → Score
score_of checkmate side = loss side
score_of stalemate side = drawn
score_of draw_fifty_move side = drawn
score_of draw_insufficient_material side = drawn
score_of draw_threefold_repetition side = drawn
score_of _ side = unfinished

-- An offer of the mover's opponent is declined by the move.
abbrev pub is_declined : Option Color → Color → Bool
is_declined none mover = false
is_declined (some offerer) mover = not (color_eq offerer mover)

unfoldable pub decline_draw : Color → GameRoom → GameRoom
decline_draw mover room =
    if is_declined room.draw_offer_from mover
    then record room { draw_offer_from = none; draw_offer_created_at = 0 }
    else room

module _ (k : ZobristKeys) (move_to_san : Board → Move → List ℕ) where
  abbrev pub recorded : ℕ → Color → Move → GameRoom → MoveRecord
  recorded now mover m room = record {
    move = m;
    san = move_to_san room.board m;
    think_time_ms = elapsed now (seat mover room);
  }

  -- The move on the board, in the history and on the clock.
  unfoldable pub execute : ℕ → Color → Move → GameRoom → GameRoom
  unfolding switch_clock
  execute now mover m room = switch_clock now (record room {
    board = (make_move k room.board m).0;
    move_history = room.move_history ++ (recorded now mover m room ∷ []);
  })

  -- The end of the game that a move may bring.
  unfoldable pub conclude : GameRoom → GameRoom
  unfolding finish_game
  conclude room =
      let status = get_game_status k room.board in
      if is_ongoing status
      then room
      else finish_game status (score_of status room.board.side_to_move) room

  abbrev pub accepted_result : List ℕ → Bool → GameRoom → MoveResult
  accepted_result san declined room =
      let status = get_game_status k room.board in
      accepted (record {
        san = san;
        game_status = status;
        white_time_ms = room.white.remaining_ms;
        black_time_ms = room.black.remaining_ms;
        fen = to_fen room.board;
        legal_moves =
            if is_ongoing status then map to_uci (generate_legal_moves k room.board) else [];
        draw_offer_declined = declined;
      })

  -- `submit_move` once the game, the player, the turn and the clock are good.
  unfoldable pub play_move : ℕ → Color → ℕ → ℕ → PieceType → GameRoom → GameRoom × MoveResult
  unfolding find_move execute conclude decline_draw
  play_move now mover from to promo room =
      elim (find_move (fits from to promo) (generate_legal_moves k room.board)) [
        | none ↦ (room, refused illegal_move room.game_status)
        | some m ↦
            let after = conclude (decline_draw mover (execute now mover m room)) in
            (
              after,
              accepted_result (move_to_san room.board m) (is_declined room.draw_offer_from mover)
                  after,
            )
      ]

  unfoldable pub submit_move : ℕ → ℤ → ℕ → ℕ → PieceType → GameRoom → GameRoom × MoveResult
  unfolding play_move
  submit_move now fd from to promo before =
      let room = bump before in
      let mover = color_of room fd in
      if not (state_eq room.state in_progress)
      then (room, refused not_in_progress room.game_status)
      else if color_eq mover Color.none
      then (room, refused not_a_player room.game_status)
      else if not (color_eq mover room.board.side_to_move)
      then (room, refused not_your_turn room.game_status)
      else if check_flag now room
      then (finish_game timeout (loss mover) room, refused out_of_time timeout)
      else play_move now mover from to promo room

  -- `submit_move_ai` once the game, the turn and the clock are good.
  unfoldable pub play_ai_move : ℕ → ℕ → ℕ → PieceType → GameRoom → GameRoom × MoveResult
  unfolding find_move execute conclude
  play_ai_move now from to promo room =
      elim (find_move (fits from to promo) (generate_legal_moves k room.board)) [
        | none ↦ (room, refused ai_illegal_move room.game_status)
        | some m ↦
            let after = conclude (execute now room.ai_color m room) in
            (after, accepted_result (move_to_san room.board m) false after)
      ]

  unfoldable pub submit_move_ai : ℕ → ℕ → ℕ → PieceType → GameRoom → GameRoom × MoveResult
  unfolding play_ai_move
  submit_move_ai now from to promo before =
      let room = bump before in
      let slot = seat room.ai_color room in
      if not (state_eq room.state in_progress)
      then (room, refused not_in_progress room.game_status)
      else if not room.is_ai
      then (room, refused not_an_ai_game room.game_status)
      else if not (color_eq room.board.side_to_move room.ai_color)
      then (room, refused not_the_ai_turn room.game_status)
      else if check_flag now room
      then (
        finish_game timeout (loss room.ai_color)
            (set_seat room.ai_color (record slot { remaining_ms = 0 }) room),
        refused ai_clock_expired timeout,
      )
      else play_ai_move now from to promo room
