-- ===== src/Room/Setup.antt =====
-- The making of rooms and the seating of players (src/game/game_room.cpp).
use chess_engine.Base.{
  ℕ, Bool, true, false, ◌&&◌, ◌||◌, not, ltb, if◌then◌else◌, Option, none, some,
}
use chess_engine.Base.{List, [], ◌∷◌, ◌++◌}
use chess_engine.Base.Int.{ℤ, eqb_ℤ}
use chess_engine.Types.{Color, ongoing}
use chess_engine.Board.State.{Board}
use chess_engine.Room.State.{
  GameRoom, PlayerSlot, RoomError, TimeControl, RoomState, empty_slot, ai_fd, is_empty, state_eq,
  finished, unfinished, seat, set_seat, bump, started, not_tournament_room, game_finished,
  not_reserved_player, check_in_required, connection_replaced, seat_already_connected,
}

-- The player who takes a seat, as the calls give it.
pub record Newcomer : Type 0 where
  pub player_id : ℕ
  pub username : List ℕ
  pub connection_fd : ℤ
  pub db_player_id : ℤ
  pub elo : ℤ

abbrev pub seated : Newcomer → ℕ → PlayerSlot → PlayerSlot
seated p base_time_ms slot = record slot {
  connection_fd = p.connection_fd;
  player_id = p.player_id;
  db_player_id = p.db_player_id;
  username = p.username;
  elo = p.elo;
  remaining_ms = base_time_ms;
  connected = true;
}

-- The fields' initial values, on the board of the starting position.
abbrev pub new_room : Board → ℕ → TimeControl → GameRoom
new_room starting_position id tc = record {
  id = id;
  state = RoomState.waiting;
  board = starting_position;
  time_control = tc;
  result = unfinished;
  game_status = ongoing;
  is_ai = false;
  is_tournament_reserved = false;
  reserved_open = false;
  ai_color = Color.black;
  white = empty_slot;
  black = empty_slot;
  move_history = [];
  draw_offer_from = none;
  draw_offer_created_at = 0;
  rematch_offer_from = none;
  rematch_offer_created_at = 0;
  spectator_fds = [];
  game_start_time = 0;
  revision = 0;
  events = [];
}

-- The three constructors: a human game, a game against the engine, a tournament game.
unfoldable pub human_room : Board → ℕ → TimeControl → Newcomer → GameRoom
human_room board id tc creator = record (new_room board id tc) {
  white = seated creator tc.base_time_ms empty_slot;
}

unfoldable pub ai_room : Board → ℕ → ℕ → TimeControl → Newcomer → List ℕ → GameRoom
ai_room board now id tc creator name = record (new_room board id tc) {
  state = RoomState.in_progress;
  is_ai = true;
  white = record (seated creator tc.base_time_ms empty_slot) { clock_start = now };
  black = record empty_slot {
    connection_fd = ai_fd;
    username = name;
    remaining_ms = tc.base_time_ms;
    connected = true;
  };
  game_start_time = now;
}

abbrev pub reserved_slot : Newcomer → ℕ → PlayerSlot
reserved_slot p base_time_ms = record empty_slot {
  db_player_id = p.db_player_id;
  username = p.username;
  elo = p.elo;
  remaining_ms = base_time_ms;
}

unfoldable pub tournament_room : Board → ℕ → TimeControl → Newcomer → Newcomer → GameRoom
tournament_room board id tc white black = record (new_room board id tc) {
  is_tournament_reserved = true;
  white = reserved_slot white tc.base_time_ms;
  black = reserved_slot black tc.base_time_ms;
}

-- The start of the game: White's clock begins to tick, and the listeners are told.
abbrev pub start_game : ℕ → GameRoom → GameRoom
start_game now room = record room {
  state = RoomState.in_progress;
  game_start_time = now;
  white = record room.white { clock_start = now };
  events = room.events ++ (started ∷ []);
}

unfoldable pub join : ℕ → Newcomer → GameRoom → GameRoom × Bool
join now p room =
    if not (state_eq room.state RoomState.waiting) || room.is_tournament_reserved
    then (room, false)
    else if not (is_empty room.black)
    then (room, false)
    else let joined = record (bump room) {
      black = seated p room.time_control.base_time_ms room.black;
    } in
      (start_game now joined, true)

-- The reserved seat of a durable player.
abbrev pub seat_of_db : ℤ → GameRoom → Option Color
seat_of_db db room =
    if eqb_ℤ room.white.db_player_id db
    then some Color.white
    else if eqb_ℤ room.black.db_player_id db
    then some Color.black
    else none

abbrev pub both_connected : GameRoom → Bool
both_connected room = room.white.connected && room.black.connected

-- The seat of `c` bound to a connection: unchanged where it is bound to it already.
unfoldable pub bind_seat : Color → ℕ → ℤ → ℕ → GameRoom → GameRoom
bind_seat c player fd generation room =
    let slot = seat c room in
    if not slot.connected || not (eqb_ℤ slot.connection_fd fd)
    then set_seat c
        (record slot {
          player_id = player;
          connection_fd = fd;
          connected = true;
          disconnected_at = 0;
          connection_generation = generation;
        })
        (bump room)
    else set_seat c (record slot { connection_generation = generation }) room

abbrev pub start_if : Bool → ℕ → GameRoom → GameRoom
start_if ready now room = if ready then start_game now room else room

unfoldable pub bind_to : ℕ → Color → ℕ → ℤ → Bool → ℕ → GameRoom → GameRoom × Option RoomError
unfolding bind_seat
bind_to now c player fd replace generation room =
    let slot = seat c room in
    if not slot.tournament_checked_in
    then (room, some check_in_required)
    else if ltb generation slot.connection_generation
    then (room, some connection_replaced)
    else if slot.connected && (not (eqb_ℤ slot.connection_fd fd) && not replace)
    then (room, some seat_already_connected)
    else let bound = bind_seat c player fd generation room in
      (
        start_if
            (bound.reserved_open
              && (state_eq bound.state RoomState.waiting && both_connected bound))
            now bound,
        none,
      )

unfoldable pub bind_reserved_player :
    ℕ → ℤ → ℕ → ℤ → Bool → ℕ → GameRoom → GameRoom × Option RoomError
unfolding bind_to
bind_reserved_player now db player fd replace generation room =
    if not room.is_tournament_reserved
    then (room, some not_tournament_room)
    else if state_eq room.state finished
    then (room, some game_finished)
    else elim (seat_of_db db room) [
      | none ↦ (room, some not_reserved_player)
      | some c ↦ bind_to now c player fd replace generation room
    ]

unfoldable pub allow_reserved_player : ℤ → GameRoom → GameRoom × Bool
allow_reserved_player db room =
    if not room.is_tournament_reserved || state_eq room.state finished
    then (room, false)
    else elim (seat_of_db db room) [
      | none ↦ (room, false)
      | some c ↦ (set_seat c (record (seat c room) { tournament_checked_in = true }) room, true)
    ]

unfoldable pub open_reserved : ℕ → GameRoom → GameRoom × Bool
open_reserved now room =
    if not room.is_tournament_reserved || state_eq room.state finished
    then (room, false)
    else let opened = record room { reserved_open = true } in
      if state_eq room.state RoomState.waiting && both_connected room
      then (start_game now (bump opened), true)
      else (opened, true)
