-- ===== src/Lobby/Rooms.antt =====
-- The registry of rooms (src/game/room_manager.h, src/game/room_manager.cpp).
-- A room is held once, under its number; a method of a room is a change at that number. The order
-- of an unordered map is the order of its list.
use chess_engine.Base.{◌++◌, ℕ, ◌+◌, ◌%◌, ◌^◌, Bool, true, false, ◌&&◌, ◌||◌, not, ltb, ◌==◌}
use chess_engine.Base.{◌/◌, if◌then◌else◌, Option, none, some, List, [], ◌∷◌, map}
use chess_engine.Base.Lists.{length, select}
use chess_engine.Base.Dict.{find, put, erase}
use chess_engine.Base.Int.{ℤ, pos, eqb_ℤ, ltb_ℤ}
use chess_engine.Board.State.{Board}
use chess_engine.Board.Text.{decimal}
use chess_engine.Room.State.{GameRoom, RoomState, TimeControl, state_eq, finished, in_progress}
use chess_engine.Room.Setup.{Newcomer, human_room, ai_room, tournament_room}
use chess_engine.Room.Queries.{has_player, has_player_id, has_db_player_id}
use chess_engine.Room.Connections.{remove_spectator}

-- A pairing's number comes from the database and is positive.
pub record RoomManager : Type 0 where
  pub rooms : List (ℕ × GameRoom)
  pub tournament_pairing_rooms : List (ℕ × ℕ)
  pub reserved_tournament_players : List ℤ
  pub next_id : ℕ

abbrev pub empty_manager : RoomManager
empty_manager = record {
  rooms = [];
  tournament_pairing_rooms = [];
  reserved_tournament_players = [];
  next_id = 1;
}

-- `GameId` is a uint32_t.
abbrev pub u32 : ℕ → ℕ
u32 n = n % 2 ^ 32

abbrev pub with_room : GameRoom → RoomManager → RoomManager
with_room room m = record m {
  rooms = put ◌==◌ m.next_id room m.rooms;
  next_id = u32 (m.next_id + 1);
}

module _ (start : Board) where
  unfoldable pub create_room : TimeControl → Newcomer → RoomManager → GameRoom × RoomManager
  create_room tc creator m =
      let room = human_room start m.next_id tc creator in (room, with_room room m)

  unfoldable pub create_ai_room :
      ℕ → TimeControl → Newcomer → List ℕ → RoomManager → GameRoom × RoomManager
  create_ai_room now tc creator name m =
      let room = ai_room start now m.next_id tc creator name in (room, with_room room m)

  -- A new room of a pairing. The number of a room that is gone is forgotten.
  unfoldable pub new_pairing_room :
      ℕ → TimeControl → Newcomer → Newcomer → RoomManager → GameRoom × RoomManager
  new_pairing_room pairing tc white black m =
      let room = tournament_room start m.next_id tc white black in
      (
        room,
        record (with_room room m) {
          tournament_pairing_rooms =
              put ◌==◌ pairing m.next_id (erase ◌==◌ pairing m.tournament_pairing_rooms);
        },
      )

  unfoldable pub create_reserved_tournament_room :
      ℕ → TimeControl → Newcomer → Newcomer → RoomManager → GameRoom × RoomManager
  unfolding new_pairing_room
  create_reserved_tournament_room pairing tc white black m =
      elim (find ◌==◌ pairing m.tournament_pairing_rooms) [
        | none ↦ new_pairing_room pairing tc white black m
        | some id ↦ elim (find ◌==◌ id m.rooms) [
          | none ↦ new_pairing_room pairing tc white black m
          | some room ↦ (room, m)
        ]
      ]

unfoldable pub find_room : ℕ → RoomManager → Option GameRoom
find_room id m = find ◌==◌ id m.rooms

unfoldable pub find_room_by_pairing : ℕ → RoomManager → Option GameRoom
find_room_by_pairing pairing m = elim (find ◌==◌ pairing m.tournament_pairing_rooms) [
  | none ↦ none
  | some id ↦ find ◌==◌ id m.rooms
]

-- The compare-and-exchange loop: the number never goes back. `existing_id + 1` wraps.
unfoldable pub ensure_next_id_above : ℕ → RoomManager → RoomManager
ensure_next_id_above existing m =
    if ltb m.next_id (u32 (existing + 1)) then record m { next_id = u32 (existing + 1) } else m

abbrev pub has_id : ℤ → List ℤ → Bool
has_id id [] = false
has_id id (x ∷ xs) = eqb_ℤ x id || has_id id xs

unfoldable pub is_tournament_player_reserved : ℤ → RoomManager → Bool
is_tournament_player_reserved id m = has_id id m.reserved_tournament_players

unfoldable pub reserve_tournament_player : ℤ → RoomManager → RoomManager
reserve_tournament_player id m =
    if ltb_ℤ (pos 0) id && not (has_id id m.reserved_tournament_players)
    then record m { reserved_tournament_players = id ∷ m.reserved_tournament_players }
    else m

unfoldable pub release_tournament_player : ℤ → RoomManager → RoomManager
release_tournament_player id m = record m {
  reserved_tournament_players = select (λ x. not (eqb_ℤ x id)) m.reserved_tournament_players;
}

-- The first room that is not finished, or else the last one.
unfoldable pub find_by_fd : ℤ → List (ℕ × GameRoom) → Option GameRoom → Option GameRoom
find_by_fd fd [] over = over
find_by_fd fd ((id, room) ∷ rooms) over = elim (has_player fd room) [
  | true ↦ elim (state_eq room.state finished) [
    | true ↦ find_by_fd fd rooms (some room)
    | false ↦ some room
  ]
  | false ↦ find_by_fd fd rooms over
]

unfoldable pub find_room_by_fd : ℤ → RoomManager → Option GameRoom
unfolding find_by_fd
find_room_by_fd fd m = find_by_fd fd m.rooms none

unfoldable pub first_room : (GameRoom → Bool) → List (ℕ × GameRoom) → Option GameRoom
first_room test [] = none
first_room test ((id, room) ∷ rooms) =
    let rest = first_room test rooms in if test room then some room else rest

unfoldable pub find_room_by_player : ℕ → RoomManager → Option GameRoom
unfolding first_room
find_room_by_player id m = first_room (has_player_id id) m.rooms

unfoldable pub find_room_by_db_player : ℤ → RoomManager → Option GameRoom
unfolding first_room
find_room_by_db_player id m =
    first_room (λ room. not (state_eq room.state finished) && has_db_player_id id room) m.rooms

abbrev pub rooms_snapshot : RoomManager → List GameRoom
rooms_snapshot m = map (λ e. e.1) m.rooms

-- The pairings of a room's number are forgotten.
abbrev pub without_pairings : ℕ → List (ℕ × ℕ) → List (ℕ × ℕ)
without_pairings id pairings = select (λ e. not (e.1 == id)) pairings

unfoldable pub remove_room : ℕ → RoomManager → RoomManager
remove_room id m = record m {
  rooms = erase ◌==◌ id m.rooms;
  tournament_pairing_rooms = without_pairings id m.tournament_pairing_rooms;
}

-- An entry of the listings.
pub record RoomInfo : Type 0 where
  pub id : ℕ
  pub state : RoomState
  pub white_name : List ℕ
  pub black_name : List ℕ
  pub time_control : List ℕ
  pub move_count : ℕ
  pub spectator_count : ℕ

-- `TimeControl::to_string`, in seconds.
unfoldable pub seconds_text : TimeControl → List ℕ
unfolding decimal
seconds_text tc = decimal (tc.base_time_ms / 1000) ++ (43 ∷ decimal (tc.increment_ms / 1000))

unfoldable pub info_of : ℕ × GameRoom → RoomInfo
unfolding seconds_text
info_of (id, room) = record {
  id = id;
  state = room.state;
  white_name = room.white.username;
  black_name = if state_eq room.state RoomState.waiting then [] else room.black.username;
  time_control = seconds_text room.time_control;
  move_count = length room.move_history;
  spectator_count = length room.spectator_fds;
}

unfoldable pub list_open_rooms : RoomManager → List RoomInfo
unfolding info_of
list_open_rooms m = map info_of (select (λ e. state_eq e.1.state RoomState.waiting) m.rooms)

unfoldable pub list_active_rooms : RoomManager → List RoomInfo
unfolding info_of
list_active_rooms m = map info_of (select (λ e. state_eq e.1.state in_progress) m.rooms)

abbrev pub room_count : RoomManager → ℕ
room_count m = length m.rooms

-- The rooms and pairings that the loop over the rooms keeps, and how many rooms it removes.
unfoldable pub sweep_rooms :
    List (ℕ × GameRoom) → List (ℕ × ℕ) → List (ℕ × GameRoom) × (List (ℕ × ℕ) × ℕ)
sweep_rooms [] pairings = ([], (pairings, 0))
sweep_rooms ((id, room) ∷ rooms) pairings = elim (state_eq room.state finished) [
  | true ↦
      let (kept, (left, removed)) = sweep_rooms rooms (without_pairings id pairings) in
      (kept, (left, removed + 1))
  | false ↦
      let (kept, (left, removed)) = sweep_rooms rooms pairings in
      ((id, room) ∷ kept, (left, removed))
]

unfoldable pub cleanup_finished_rooms : RoomManager → ℕ × RoomManager
unfolding sweep_rooms
cleanup_finished_rooms m =
    let (kept, (left, removed)) = sweep_rooms m.rooms m.tournament_pairing_rooms in
    (removed, record m { rooms = kept; tournament_pairing_rooms = left })

-- The change of each room, and the number of rooms that had the spectator.
unfoldable pub sweep_spectator : ℤ → List (ℕ × GameRoom) → List (ℕ × GameRoom) × ℕ
sweep_spectator fd [] = ([], 0)
sweep_spectator fd ((id, room) ∷ rooms) =
    let (rest, count) = sweep_spectator fd rooms in
    let (after, present) = remove_spectator fd room in
    ((id, after) ∷ rest, if present then count + 1 else count)

unfoldable pub remove_spectator_everywhere : ℤ → RoomManager → ℕ × RoomManager
unfolding sweep_spectator
remove_spectator_everywhere fd m =
    let (rooms, count) = sweep_spectator fd m.rooms in (count, record m { rooms = rooms })
