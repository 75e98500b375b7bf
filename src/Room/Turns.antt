-- ===== src/Room/Turns.antt =====
-- Whose call a room takes (src/game/game_room.cpp).
use chess_engine.Base.{◌==◌, ℕ, ◌≡◌, Bool, true, false, none, arith}
use chess_engine.Base.{List, ◌&&◌, not, if◌then◌else◌}
use chess_engine.Base.Int.{ℤ}
use chess_engine.Types.{Color, PieceType, Move, color_eq}
use chess_engine.Board.State.{Board}
use chess_engine.Board.Zobrist.{ZobristKeys}
use chess_engine.Room.State.{GameRoom, color_of, state_eq, in_progress, finished, finish_game}
use chess_engine.Room.Kept.{position}
use chess_engine.Room.Clock.{check_flag, get_remaining_times}
use chess_engine.Room.Connections.{expire_on_time}
use chess_engine.Room.Play.{MoveResult, refused, accepted, submit_move}

abbrev pub is_accepted : MoveResult → Bool
is_accepted (accepted a) = true
is_accepted (refused e s) = false

-- The game runs, the caller plays the side to move, and the time is not over.
abbrev pub may_move : ℕ → ℤ → GameRoom → Bool
may_move now fd room =
    state_eq room.state in_progress
    && (color_eq (color_of room fd) room.board.side_to_move
        && (not (color_eq (color_of room fd) Color.none) && not (check_flag now room)))

module _ (k : ZobristKeys) (san : Board → Move → List ℕ) where
  -- Where the game does not run, the caller does not play the side to move or the time is over, a
  -- move is refused, and the board and the history stay.
  pub submit_move-refused :
      (now : ℕ) (fd : ℤ) (f t : ℕ) (p : PieceType) (room : GameRoom)
      → may_move now fd room ≡ false
      → (is_accepted (submit_move k san now fd f t p room).1 ≡ false)
        × (position (submit_move k san now fd f t p room).0 ≡ position room)
  unfolding submit_move color_of check_flag finish_game
  submit_move-refused now fd f t p room h = ground (arith, h)

-- The time that is shown for the side to move.
abbrev pub shown_time : ℕ → GameRoom → ℕ
shown_time now room =
    if color_eq room.board.side_to_move Color.white
    then (get_remaining_times now room).0
    else (get_remaining_times now room).1

-- The side to move is out of time when the game runs and the time shown for it is 0, and then
-- `expire_on_time` ends the game; otherwise that call leaves the state.
pub expire_on_time-shown_time :
    (now : ℕ) (room : GameRoom)
    → ((expire_on_time now room).1
        ≡ (state_eq room.state in_progress && (shown_time now room == 0)))
      × ((expire_on_time now room).0.state ≡ (
          if state_eq room.state in_progress && (shown_time now room == 0)
          then finished
          else room.state))
unfolding expire_on_time check_flag get_remaining_times finish_game
expire_on_time-shown_time now room = ground arith
