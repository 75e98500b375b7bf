-- ===== src/Tests/Rooms.antt =====
-- Games between two seats (src/game/game_room.cpp).
use chess_engine.Base.{◌==◌, ◌&&◌, ℕ, ◌≡◌, refl, false, List, [], ◌∷◌, some, none, if◌then◌else◌}
use chess_engine.Base.Int.{ℤ, pos, pos_part}
use chess_engine.Types.{Move, PieceType, Color, resignation}
use chess_engine.Board.State.{Board}
use chess_engine.Room.State.{
  GameRoom, TimeControl, finish_game, color_of, in_progress, finished, state_eq, black_wins,
}
use chess_engine.Room.Setup.{Newcomer, human_room, start_game}
use chess_engine.Room.Clock.{check_flag}
use chess_engine.Room.Kept.{position}
use chess_engine.Room.Play.{submit_move}
use chess_engine.Room.Actions.{Action, act_all, joining, moving, resigning}
use chess_engine.Room.Final.{outcome, act_all-outcome}
use chess_engine.Room.History.{IsGame}
use chess_engine.Room.Played.{act_all-IsGame}
use chess_engine.Room.Told.{IsTold, completions}
use chess_engine.Room.Once.{act_all-IsTold}
use chess_engine.Room.Connections.{expire_on_time}
use chess_engine.Room.Turns.{
  shown_time, expire_on_time-shown_time, submit_move-refused, is_accepted,
}
use chess_engine.Tests.Boards.{start_hashed, plain_keys}

abbrev pub blitz : TimeControl
blitz = record { base_time_ms = 180000; increment_ms = 2000 }

abbrev pub player : ℕ → Newcomer
player n = record {
  player_id = n;
  username = [];
  connection_fd = pos n;
  db_player_id = pos n;
  elo = pos 1200;
}

abbrev pub waiting_room : GameRoom
waiting_room = human_room start_hashed 1 blitz (player 7)

-- A game with its first move, as calls.
abbrev opening_calls : List Action
opening_calls =
    joining 100 (player 8) ∷ moving 200 (pos 7) 12 28 PieceType.none ∷ resigning (pos 8) ∷ []

abbrev no_san : Board → Move → List ℕ
no_san b m = []

abbrev local_player : ℤ → ℕ
local_player db = pos_part db

act_all-IsGame_example :
    IsGame plain_keys start_hashed
      (act_all plain_keys no_san local_player opening_calls waiting_room).move_history
      (act_all plain_keys no_san local_player opening_calls waiting_room).board
unfolding human_room IsGame
act_all-IsGame_example =
    act_all-IsGame plain_keys no_san local_player start_hashed opening_calls waiting_room refl

act_all-IsTold_example : IsTold (act_all plain_keys no_san local_player opening_calls waiting_room)
unfolding human_room IsTold completions
act_all-IsTold_example =
    act_all-IsTold plain_keys no_san local_player opening_calls waiting_room refl

abbrev over : GameRoom
over = finish_game resignation black_wins waiting_room

act_all-outcome_example :
    outcome (act_all plain_keys no_san local_player opening_calls over) ≡ outcome over
unfolding finish_game
act_all-outcome_example = act_all-outcome plain_keys no_san local_player opening_calls over refl

-- White has offered a draw, which Black takes.
abbrev offered : GameRoom
offered =
    record (start_game 0
      (record waiting_room { black = record waiting_room.black { connection_fd = pos 8 } })) {
        draw_offer_from = some Color.white;
      }

-- It is White's turn, so Black's move is refused.
abbrev running : GameRoom
running =
    start_game 100
      (record waiting_room { black = record waiting_room.black { connection_fd = pos 8 } })

submit_move-refused_example :
    (is_accepted (submit_move plain_keys no_san 200 (pos 8) 52 36 PieceType.none running).1 ≡ false)
    × (position (submit_move plain_keys no_san 200 (pos 8) 52 36 PieceType.none running).0
        ≡ position running)
unfolding human_room color_of check_flag
submit_move-refused_example =
    submit_move-refused plain_keys no_san 200 (pos 8) 52 36 PieceType.none running refl

-- White has three minutes, which are over after 180100 milliseconds.
expire_on_time-shown_time_example :
    ((expire_on_time 180100 running).1
      ≡ (state_eq running.state in_progress && (shown_time 180100 running == 0)))
    × ((expire_on_time 180100 running).0.state ≡ (
        if state_eq running.state in_progress && (shown_time 180100 running == 0)
        then finished
        else running.state))
expire_on_time-shown_time_example = expire_on_time-shown_time 180100 running
