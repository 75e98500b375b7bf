-- ===== src/Room/State.antt =====
-- The state of a room, its seats and its results (src/game/game_room.h).
-- A time point is a number of milliseconds of the steady clock, a descriptor a signed integer.
use chess_engine.Base.{ℕ, ◌+◌, Bool, false, if◌then◌else◌, Option, List, []}
use chess_engine.Base.{◌==◌, ◌++◌, ◌∷◌}
use chess_engine.Base.Int.{ℤ, pos, negsuc, eqb_ℤ}
use chess_engine.Types.{Color, color_eq, Move, GameStatus}
use chess_engine.Board.State.{Board}
use chess_engine.Board.Zobrist.{u64}

pub data RoomState : Type 0 where
  waiting in_progress finished : RoomState

abbrev pub state_index : RoomState → ℕ
state_index waiting = 0
state_index in_progress = 1
state_index finished = 2

abbrev pub state_eq : RoomState → RoomState → Bool
state_eq s t = state_index s == state_index t

-- In milliseconds, which the clients' requests give as numbers from 0 up.
pub record TimeControl : Type 0 where
  pub base_time_ms : ℕ
  pub increment_ms : ℕ

pub record PlayerSlot : Type 0 where
  pub connection_fd : ℤ
  pub connection_generation : ℕ
  pub player_id : ℕ
  pub db_player_id : ℤ
  pub username : List ℕ
  pub elo : ℤ
  pub remaining_ms : ℕ
  pub connected : Bool
  pub tournament_checked_in : Bool
  pub disconnected_at : ℕ
  pub clock_start : ℕ

-- The descriptor of an empty seat, and that of an engine's seat.
abbrev pub no_fd : ℤ
no_fd = negsuc 0

abbrev pub ai_fd : ℤ
ai_fd = negsuc 1

abbrev pub empty_slot : PlayerSlot
empty_slot = record {
  connection_fd = no_fd;
  connection_generation = 0;
  player_id = 0;
  db_player_id = pos 0;
  username = [];
  elo = pos 1200;
  remaining_ms = 0;
  connected = false;
  tournament_checked_in = false;
  disconnected_at = 0;
  clock_start = 0;
}

abbrev pub is_empty : PlayerSlot → Bool
is_empty slot = eqb_ℤ slot.connection_fd no_fd

pub record MoveRecord : Type 0 where
  pub move : Move
  pub san : List ℕ
  pub think_time_ms : ℕ

-- "1-0", "0-1", "1/2-1/2" and "*".
pub data Score : Type 0 where
  white_wins black_wins drawn unfinished : Score

-- What the listeners are told: `GameStarted`, and the terminal state of a `GameCompleted`.
pub data GameEvent : Type 0 where
  started : GameEvent
  completed : GameStatus → Score → List MoveRecord → GameEvent

-- `events` are those that the listeners have been told, in order.
pub record GameRoom : Type 0 where
  pub id : ℕ
  pub state : RoomState
  pub board : Board
  pub time_control : TimeControl
  pub result : Score
  pub game_status : GameStatus
  pub is_ai : Bool
  pub is_tournament_reserved : Bool
  pub reserved_open : Bool
  pub ai_color : Color
  pub white : PlayerSlot
  pub black : PlayerSlot
  pub move_history : List MoveRecord
  pub draw_offer_from : Option Color
  pub draw_offer_created_at : ℕ
  pub rematch_offer_from : Option Color
  pub rematch_offer_created_at : ℕ
  pub spectator_fds : List ℤ
  pub game_start_time : ℕ
  pub revision : ℕ
  pub events : List GameEvent

-- The messages of `MoveResult::error` and of the `error` arguments.
pub data RoomError : Type 0 where
  not_in_progress not_a_player not_your_turn out_of_time illegal_move not_an_ai_game : RoomError
  not_the_ai_turn ai_clock_expired ai_illegal_move only_human_games opponent_disconnected :
      RoomError
  already_offered respond_first no_pending_offer only_opponent_responds not_finished : RoomError
  ai_rematch_immediate no_tournament_rematch not_tournament_room game_finished : RoomError
  not_reserved_player check_in_required connection_replaced seat_already_connected : RoomError

-- `(color == Color::WHITE) ? white_ : black_`, read and written.
abbrev pub seat : Color → GameRoom → PlayerSlot
seat c room = if color_eq c Color.white then room.white else room.black

abbrev pub set_seat : Color → PlayerSlot → GameRoom → GameRoom
set_seat c slot room =
    if color_eq c Color.white then record room { white = slot } else record room { black = slot }

unfoldable pub color_of : GameRoom → ℤ → Color
color_of room fd =
    if eqb_ℤ room.white.connection_fd fd
    then Color.white
    else if eqb_ℤ room.black.connection_fd fd
    then Color.black
    else Color.none

-- `revision_.fetch_add(1)`.
abbrev pub bump : GameRoom → GameRoom
bump room = record room { revision = u64 (room.revision + 1) }

-- `finish_game`, with the event that is fired when the lock is released.
unfoldable pub finish_game : GameStatus → Score → GameRoom → GameRoom
finish_game status result room = record room {
  state = RoomState.finished;
  game_status = status;
  result = result;
  events = room.events ++ (completed status result room.move_history ∷ []);
}
