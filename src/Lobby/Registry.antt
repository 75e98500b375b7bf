-- ===== src/Lobby/Registry.antt =====
-- The registry's promises (src/game/room_manager.cpp): one room for a pairing, and what the sweep
-- over the finished rooms leaves.
use chess_engine.Base.{ℕ, ◌+◌, Bool, true, false, not, ◌||◌, if◌then◌else◌, ◌≡◌, refl, ap, ◌∙◌}
use chess_engine.Base.{none, some, List, [], ◌∷◌, ◌==◌, arith, Option-cases, Bool-cases, inl, inr}
use chess_engine.Base.Lists.{length, select}
use chess_engine.Base.Dict.{find, erase, find-put_self}
use chess_engine.Board.State.{Board}
use chess_engine.Room.State.{GameRoom, TimeControl, state_eq, finished}
use chess_engine.Room.Setup.{Newcomer, tournament_room}
use chess_engine.Lobby.Rooms.{RoomManager, create_reserved_tournament_room, new_pairing_room}
use chess_engine.Lobby.Rooms.{find_room_by_pairing, cleanup_finished_rooms, sweep_rooms}
use chess_engine.Lobby.Rooms.{without_pairings}

==_refl : (n : ℕ) → (n == n) ≡ true
==_refl n = ground arith

module _ (start : Board) (pairing : ℕ) where
  -- The room of a pairing is found again under the pairing.
  find_room_by_pairing-new_pairing_room :
      (tc : TimeControl) (white black : Newcomer) (m : RoomManager)
      → find_room_by_pairing pairing (new_pairing_room start pairing tc white black m).1
        ≡ some (new_pairing_room start pairing tc white black m).0
  unfolding find_room_by_pairing new_pairing_room
  find_room_by_pairing-new_pairing_room tc white black m =
      let room = tournament_room start m.next_id tc white black in
      let pairings = erase ◌==◌ pairing m.tournament_pairing_rooms in
      rw (find-put_self ◌==◌ pairing m.next_id pairings (==_refl pairing), find_room_by_pairing)
        (find-put_self ◌==◌ m.next_id room m.rooms (==_refl m.next_id))

  -- The room that the pairing has, or else a new one.
  create-some :
      (tc : TimeControl) (white black : Newcomer) (m : RoomManager) (room : GameRoom)
      → find_room_by_pairing pairing m ≡ some room
      → create_reserved_tournament_room start pairing tc white black m ≡ (room, m)
  unfolding create_reserved_tournament_room find_room_by_pairing
  create-some tc white black m room h =
      elim (Option-cases (find ◌==◌ pairing m.tournament_pairing_rooms)) [
        | inl e ↦ ground (arith, h, e)
        | inr (id, e) ↦ ground (arith, h, e)
      ]

  create-none :
      (tc : TimeControl) (white black : Newcomer) (m : RoomManager)
      → find_room_by_pairing pairing m ≡ none
      → create_reserved_tournament_room start pairing tc white black m
        ≡ new_pairing_room start pairing tc white black m
  unfolding create_reserved_tournament_room find_room_by_pairing
  create-none tc white black m h =
      elim (Option-cases (find ◌==◌ pairing m.tournament_pairing_rooms)) [
        | inl e ↦ rw (e, create_reserved_tournament_room) refl
        | inr (id, e) ↦ elim (Option-cases (find ◌==◌ id m.rooms)) [
          | inl gone ↦ rw (e, gone, create_reserved_tournament_room) refl
          | inr (room, there) ↦ ground (arith, h, e, there)
        ]
      ]

  create-again_none :
      (tc i : TimeControl) (white black one two : Newcomer) (m : RoomManager)
      → find_room_by_pairing pairing m ≡ none
      → create_reserved_tournament_room start pairing i one two
          (create_reserved_tournament_room start pairing tc white black m).1
        ≡ create_reserved_tournament_room start pairing tc white black m
  create-again_none tc i white black one two m h =
      let created = new_pairing_room start pairing tc white black m in
      rw (create-none tc white black m h) (
        create-some i one two created.1 created.0
          (find_room_by_pairing-new_pairing_room tc white black m))

-- After the room of a pairing was asked for, asking again, with whatever players and time control,
-- gives the same room and leaves the registry as it is.
pub create_reserved_tournament_room-again :
    (start : Board) (pairing : ℕ) (tc i : TimeControl) (white black one two : Newcomer)
    (m : RoomManager)
    → create_reserved_tournament_room start pairing i one two
        (create_reserved_tournament_room start pairing tc white black m).1
      ≡ create_reserved_tournament_room start pairing tc white black m
create_reserved_tournament_room-again start pairing tc i white black one two m =
    elim (Option-cases (find_room_by_pairing pairing m)) [
      | inl h ↦ create-again_none start pairing tc i white black one two m h
      | inr (room, h) ↦
          rw (create-some start pairing tc white black m room h)
            (create-some start pairing i one two m room h)
    ]

-- The finished rooms' numbers.
unfoldable pub finished_ids : List (ℕ × GameRoom) → List ℕ
finished_ids [] = []
finished_ids ((id, room) ∷ rooms) =
    let rest = finished_ids rooms in if state_eq room.state finished then id ∷ rest else rest

unfoldable pub is_in : ℕ → List ℕ → Bool
is_in n [] = false
is_in n (x ∷ xs) = x == n || is_in n xs

abbrev unfinished_rooms : List (ℕ × GameRoom) → List (ℕ × GameRoom)
unfinished_rooms rooms = select (λ e. not (state_eq e.1.state finished)) rooms

abbrev pairings_outside : List ℕ → List (ℕ × ℕ) → List (ℕ × ℕ)
pairings_outside ids pairings = select (λ e. not (is_in e.1 ids)) pairings

pairings_outside-cons :
    (id : ℕ) (ids : List ℕ) (pairings : List (ℕ × ℕ))
    → pairings_outside ids (without_pairings id pairings) ≡ pairings_outside (id ∷ ids) pairings
unfolding select is_in
pairings_outside-cons id ids [] = refl
pairings_outside-cons id ids ((p, r) ∷ pairings) =
    ground (arith, pairings_outside-cons id ids pairings)

pairings_outside-none : (pairings : List (ℕ × ℕ)) → pairings ≡ pairings_outside [] pairings
unfolding select is_in
pairings_outside-none [] = refl
pairings_outside-none (e ∷ pairings) = ap (λ rest. e ∷ rest) (pairings_outside-none pairings)

sweep_rooms-rooms :
    (rooms : List (ℕ × GameRoom)) (pairings : List (ℕ × ℕ))
    → (sweep_rooms rooms pairings).0 ≡ unfinished_rooms rooms
unfolding sweep_rooms select
sweep_rooms-rooms [] pairings = refl
sweep_rooms-rooms ((id, room) ∷ rooms) pairings = elim (Bool-cases (state_eq room.state finished)) [
  | inl h ↦ rw (h, sweep_rooms) (sweep_rooms-rooms rooms (without_pairings id pairings))
  | inr h ↦ rw (h, sweep_rooms) (ap (λ rest. (id, room) ∷ rest) (sweep_rooms-rooms rooms pairings))
]

sweep_rooms-pairings :
    (rooms : List (ℕ × GameRoom)) (pairings : List (ℕ × ℕ))
    → (sweep_rooms rooms pairings).1.0 ≡ pairings_outside (finished_ids rooms) pairings
unfolding sweep_rooms finished_ids
sweep_rooms-pairings [] pairings = pairings_outside-none pairings
sweep_rooms-pairings ((id, room) ∷ rooms) pairings =
    elim (Bool-cases (state_eq room.state finished)) [
      | inl h ↦
          rw (h, sweep_rooms)
            (sweep_rooms-pairings rooms (without_pairings id pairings)
              ∙ pairings_outside-cons id (finished_ids rooms) pairings)
      | inr h ↦ rw (h, sweep_rooms) (sweep_rooms-pairings rooms pairings)
    ]

sweep_rooms-count :
    (rooms : List (ℕ × GameRoom)) (pairings : List (ℕ × ℕ))
    → (sweep_rooms rooms pairings).1.1 + length (sweep_rooms rooms pairings).0 ≡ length rooms
unfolding sweep_rooms
sweep_rooms-count [] pairings = refl
sweep_rooms-count ((id, room) ∷ rooms) pairings = ground (
  arith,
  sweep_rooms-count rooms (without_pairings id pairings),
  sweep_rooms-count rooms pairings,
)

-- The sweep removes all finished rooms and no other, in one pass; it removes the pairings of their
-- numbers and no other; and it counts the rooms that it removes.
pub cleanup_finished_rooms-select :
    (m : RoomManager)
    → (((cleanup_finished_rooms m).1.rooms
          ≡ select (λ e. not (state_eq e.1.state finished)) m.rooms)
        × ((cleanup_finished_rooms m).1.tournament_pairing_rooms
            ≡ select (λ e. not (is_in e.1 (finished_ids m.rooms))) m.tournament_pairing_rooms)
        × ((cleanup_finished_rooms m).0 + length (cleanup_finished_rooms m).1.rooms
            ≡ length m.rooms))
unfolding cleanup_finished_rooms
cleanup_finished_rooms-select m =
    let rooms = m.rooms in
    let pairings = m.tournament_pairing_rooms in
    (
      sweep_rooms-rooms rooms pairings,
      sweep_rooms-pairings rooms pairings,
      sweep_rooms-count rooms pairings,
    )
