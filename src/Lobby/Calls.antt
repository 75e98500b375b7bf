-- ===== src/Lobby/Calls.antt =====
-- The matchmaker under sequences of calls (src/game/matchmaker.cpp), and the rooms that it opens in
-- the registry (src/game/room_manager.cpp).
use chess_engine.Base.{ℕ, true, false, ◌≡◌, refl, ◌∙◌, arith, ◌==◌}
use chess_engine.Base.{some, List, [], ◌∷◌}
use chess_engine.Base.Dict.{find, put, find-put_self, find-put_other}
use chess_engine.Base.Int.{ℤ}
use chess_engine.Board.State.{Board}
use chess_engine.Room.State.{GameRoom, TimeControl, in_progress}
use chess_engine.Room.Setup.{Newcomer, join, human_room}
use chess_engine.Lobby.Rooms.{RoomManager, find_room, create_room}
use chess_engine.Lobby.Queue.{QueueEntry, Matchmaker, empty_matchmaker, enqueue, dequeue, try_match}
use chess_engine.Lobby.Queue.{start_match}
use chess_engine.Lobby.Entries.{total_all, size_all}
use chess_engine.Lobby.Consistent.{IsConsistent, enqueue-IsConsistent}
use chess_engine.Lobby.Left.{dequeue-IsConsistent}
use chess_engine.Lobby.Matched.{try_match-IsConsistent}

pub data QueueCall : Type 0 where
  joining_queue : ℕ → Newcomer → TimeControl → QueueCall
  leaving_queue : ℤ → QueueCall
  matching : ℕ → QueueCall

unfoldable pub call_queue : Board → QueueCall → Matchmaker × RoomManager → Matchmaker × RoomManager
call_queue start (joining_queue now player tc) (q, m) = ((enqueue now player tc q).0, m)
call_queue start (leaving_queue fd) (q, m) = ((dequeue fd q).0, m)
call_queue start (matching now) (q, m) = (try_match start now q m).1

unfoldable pub call_queue_all :
    Board → List QueueCall → Matchmaker × RoomManager → Matchmaker × RoomManager
unfolding call_queue
call_queue_all start [] s = s
call_queue_all start (c ∷ calls) s = call_queue_all start calls (call_queue start c s)

call_queue-IsConsistent :
    (start : Board) (c : QueueCall) (s : Matchmaker × RoomManager)
    → IsConsistent s.0
    → IsConsistent (call_queue start c s).0
unfolding call_queue
call_queue-IsConsistent start (joining_queue now player tc) (q, m) h =
    enqueue-IsConsistent now player tc q h
call_queue-IsConsistent start (leaving_queue fd) (q, m) h = dequeue-IsConsistent fd q h
call_queue-IsConsistent start (matching now) (q, m) h = try_match-IsConsistent start now q m h

-- Through every sequence of the matchmaker's calls, a connection of the index has one entry, in the
-- bucket that the index names for it, a connection out of the index has none, and the size counts
-- the entries.
pub call_queue_all-IsConsistent :
    (start : Board) (calls : List QueueCall) (s : Matchmaker × RoomManager)
    → IsConsistent s.0
    → IsConsistent (call_queue_all start calls s).0
unfolding call_queue_all
call_queue_all-IsConsistent start [] s h = h
call_queue_all-IsConsistent start (c ∷ calls) s h =
    call_queue_all-IsConsistent start calls (call_queue start c s)
      (call_queue-IsConsistent start c s h)

pub empty_matchmaker-IsConsistent : IsConsistent empty_matchmaker
unfolding total_all find size_all
empty_matchmaker-IsConsistent = record {
  once = λ fd. refl;
  found = λ fd tc h. ground (arith, h);
  sized = refl;
}

-- A room in progress between the two players of a pair, under the number of the result.
abbrev pub IsSeatedGame : QueueEntry → QueueEntry → GameRoom → Type 0
IsSeatedGame a b room =
    (room.state ≡ in_progress)
    × (room.white.connection_fd ≡ a.player.connection_fd)
    × (room.black.connection_fd ≡ b.player.connection_fd)
    × (room.white.remaining_ms ≡ a.time_control.base_time_ms)
    × (room.black.remaining_ms ≡ a.time_control.base_time_ms)

-- The room of a matched pair is found under the number of the result, in progress, with the first
-- player on White's seat and the second on Black's and the whole time on both clocks; every room
-- of another number is found as before.
pub start_match-find_room :
    (start : Board) (now : ℕ) (a b : QueueEntry) (m : RoomManager) (other : ℕ)
    → (other == m.next_id) ≡ false
    → ((room : GameRoom) × (find_room
            (start_match start now a b m).0.game_id
            (start_match start now a b m).1
          ≡ some room)
        × IsSeatedGame a b room)
      × (find_room other (start_match start now a b m).1 ≡ find_room other m)
unfolding start_match create_room find_room join human_room
start_match-find_room start now a b m other ne =
    let id = m.next_id in
    let room = human_room start id a.time_control a.player in
    let seated_room = (join now b.player room).0 in
    let same : (id == id) ≡ true = ground arith in
    let apart : (id == other) ≡ false = ground (arith, ne) in
    let created = put ◌==◌ id room m.rooms in
    let before = find-put_other ◌==◌ id other room m.rooms apart (λ j e. ground (arith, e, ne)) in
    let after =
      find-put_other ◌==◌ id other seated_room created apart (λ j e. ground (arith, e, ne)) in
    let found = find-put_self ◌==◌ id seated_room created same in
    ((seated_room, found, (refl, refl, refl, refl, refl)), after ∙ before)
