-- ===== src/Tests/Lobby.antt =====
-- Players in the queue and rooms in the registry (src/game/matchmaker.cpp, src/game/room_manager.cpp).
use chess_engine.Room.Setup.{human_room}
use chess_engine.Base.Int.{◌-ℤ◌}
use chess_engine.Base.Dict.{put}
use chess_engine.Lobby.Queue.{enqueue}
use chess_engine.Lobby.Queue.{dequeue}
use chess_engine.Lobby.Queue.{try_match}
use chess_engine.Base.{ℕ, ◌+◌, ◌≡◌, refl, not, List, [], ◌∷◌, some}
use chess_engine.Base.Lists.{All, length, select}
use chess_engine.Base.Dict.{find}
use chess_engine.Base.Int.{pos}
use chess_engine.Room.State.{TimeControl, GameRoom, state_eq, finished}
use chess_engine.Room.Setup.{Newcomer}
use chess_engine.Lobby.Rooms.{RoomManager, empty_manager, find_room, cleanup_finished_rooms}
use chess_engine.Lobby.Rooms.{create_reserved_tournament_room}
use chess_engine.Lobby.Queue.{QueueEntry, empty_matchmaker, sweep_buckets, start_match}
use chess_engine.Lobby.Queue.{match_bucket}
use chess_engine.Lobby.Consistent.{IsConsistent}
use chess_engine.Lobby.Matched.{BothAccept, sweep_buckets-BothAccept}
use chess_engine.Lobby.Calls.{QueueCall, joining_queue, leaving_queue, matching, call_queue_all}
use chess_engine.Lobby.Calls.{call_queue_all-IsConsistent, empty_matchmaker-IsConsistent}
use chess_engine.Lobby.Calls.{start_match-find_room, IsSeatedGame}
use chess_engine.Lobby.Registry.{create_reserved_tournament_room-again, finished_ids, is_in}
use chess_engine.Lobby.Registry.{cleanup_finished_rooms-select}
use chess_engine.Tests.Boards.{start_hashed}
use chess_engine.Tests.Rooms.{blitz, player, waiting_room}

abbrev rapid : TimeControl
rapid = record { base_time_ms = 600000; increment_ms = 0 }

abbrev rated : ℕ → ℕ → Newcomer
rated n rating = record (player n) { elo = pos rating }

abbrev entry : ℕ → ℕ → QueueEntry
entry n rating = record { player = rated n rating; time_control = blitz; enqueue_time = 0 }

-- Three blitz players, of whom two are near, one rapid player, and one who leaves.
abbrev queue_calls : List QueueCall
queue_calls =
    joining_queue 0 (rated 1 1200) blitz
    ∷ joining_queue 10 (rated 2 1900) blitz
    ∷ joining_queue 20 (rated 3 1250) blitz
    ∷ joining_queue 30 (rated 4 1250) rapid
    ∷ leaving_queue (pos 2)
    ∷ matching 1000
    ∷ []

queue_test :
    (call_queue_all start_hashed queue_calls (empty_matchmaker, empty_manager)).0.total_size ≡ 1
unfolding call_queue_all try_match dequeue find enqueue put ◌-ℤ◌
queue_test = refl

rooms_test :
    length (call_queue_all start_hashed queue_calls (empty_matchmaker, empty_manager)).1.rooms ≡ 1
unfolding call_queue_all try_match dequeue find enqueue put ◌-ℤ◌ human_room
rooms_test = refl

call_queue_all-IsConsistent_example :
    IsConsistent (call_queue_all start_hashed queue_calls (empty_matchmaker, empty_manager)).0
call_queue_all-IsConsistent_example =
    call_queue_all-IsConsistent start_hashed queue_calls (empty_matchmaker, empty_manager)
      empty_matchmaker-IsConsistent

abbrev two_buckets : List (TimeControl × List QueueEntry)
two_buckets =
    (blitz, entry 1 1200 ∷ entry 2 1300 ∷ entry 3 2000 ∷ [])
    ∷ (rapid, entry 4 1000 ∷ entry 5 1100 ∷ [])
    ∷ []

sweep_test : length (sweep_buckets 1000 two_buckets).1 ≡ 2
unfolding sweep_buckets match_bucket ◌-ℤ◌
sweep_test = refl

sweep_buckets-BothAccept_example : All (BothAccept 1000) (sweep_buckets 1000 two_buckets).1
sweep_buckets-BothAccept_example = sweep_buckets-BothAccept 1000 two_buckets

abbrev one_room : RoomManager
one_room = record empty_manager { rooms = (1, waiting_room) ∷ []; next_id = 2 }

start_match-find_room_example :
    ((room : GameRoom) × (find_room
          (start_match start_hashed 50 (entry 1 1200) (entry 2 1300) one_room).0.game_id
          (start_match start_hashed 50 (entry 1 1200) (entry 2 1300) one_room).1
        ≡ some room)
      × IsSeatedGame (entry 1 1200) (entry 2 1300) room)
    × (find_room 1 (start_match start_hashed 50 (entry 1 1200) (entry 2 1300) one_room).1
        ≡ find_room 1 one_room)
start_match-find_room_example =
    start_match-find_room start_hashed 50 (entry 1 1200) (entry 2 1300) one_room 1 refl

create_reserved_tournament_room-again_example :
    create_reserved_tournament_room start_hashed 9 rapid
      (player 3)
      (player 4)
      (create_reserved_tournament_room start_hashed 9 blitz (player 1) (player 2) one_room).1
    ≡ create_reserved_tournament_room start_hashed 9 blitz (player 1) (player 2) one_room
create_reserved_tournament_room-again_example =
    create_reserved_tournament_room-again start_hashed 9 blitz rapid (player 1) (player 2)
      (player 3) (player 4) one_room

-- A finished room of a pairing beside a waiting one.
abbrev swept_rooms : RoomManager
swept_rooms = record one_room {
  rooms = (1, waiting_room) ∷ (2, record waiting_room { state = finished }) ∷ [];
  tournament_pairing_rooms = (5, 2) ∷ (6, 1) ∷ [];
}

cleanup_test : (cleanup_finished_rooms swept_rooms).1.tournament_pairing_rooms ≡ (6, 1) ∷ []
unfolding cleanup_finished_rooms human_room select
cleanup_test = refl

cleanup_finished_rooms-select_example :
    ((cleanup_finished_rooms swept_rooms).1.rooms
      ≡ select (λ e. not (state_eq e.1.state finished)) swept_rooms.rooms)
    × ((cleanup_finished_rooms swept_rooms).1.tournament_pairing_rooms
        ≡ select
            (λ e. not (is_in e.1 (finished_ids swept_rooms.rooms)))
            swept_rooms.tournament_pairing_rooms)
    × ((cleanup_finished_rooms swept_rooms).0 + length (cleanup_finished_rooms swept_rooms).1.rooms
        ≡ length swept_rooms.rooms)
cleanup_finished_rooms-select_example = cleanup_finished_rooms-select swept_rooms
