-- ===== src/Room/Connections.antt =====
-- Lost and regained connections, the two timeouts, and spectators (src/game/game_room.cpp).
use chess_engine.Base.{ℕ, ◌-◌, Bool, true, false, not, ◌&&◌, ◌||◌, ltb, leb, ◌==◌, none, some}
use chess_engine.Base.{if◌then◌else◌, List, [], ◌∷◌, ◌++◌}
use chess_engine.Base.Int.{ℤ, pos, eqb_ℤ, ltb_ℤ}
use chess_engine.Types.{Color, color_eq, resignation, timeout, abandonment}
use chess_engine.Room.State.{
  GameRoom, PlayerSlot, Score, RoomState, color_of, bump, finish_game, seat, set_seat, state_eq,
  no_fd, in_progress, finished, white_wins, black_wins, drawn, unfinished,
}
use chess_engine.Room.Clock.{check_flag}
use chess_engine.Room.Play.{loss}
use chess_engine.Room.Setup.{seat_of_db, bind_reserved_player}

unfoldable pub expire_on_time : ℕ → GameRoom → GameRoom × Bool
unfolding check_flag
expire_on_time now room =
    let flagged = room.board.side_to_move in
    if not (state_eq room.state in_progress) || not (check_flag now room) then (room, false) else (
      finish_game timeout (loss flagged)
          (bump (set_seat flagged (record (seat flagged room) { remaining_ms = 0 }) room)),
      true,
    )

abbrev pub detached : ℕ → PlayerSlot → PlayerSlot
detached now slot = record slot { connected = false; disconnected_at = now; connection_fd = no_fd }

-- A room whose creator leaves before the game is over.
abbrev pub abandoned : GameRoom → GameRoom
abandoned room =
    if state_eq room.state RoomState.waiting && not room.is_tournament_reserved
    then finish_game resignation unfinished room
    else room

unfoldable pub on_disconnect : ℕ → ℤ → GameRoom → GameRoom
unfolding color_of
on_disconnect now fd room =
    let c = color_of room fd in
    if color_eq c Color.none || not (seat c room).connected
    then room
    else abandoned (set_seat c (detached now (seat c room)) (bump room))

abbrev pub attached : ℤ → PlayerSlot → PlayerSlot
attached fd slot = record slot { connection_fd = fd; connected = true; disconnected_at = 0 }

unfoldable pub on_reconnect : ℕ → ℤ → GameRoom → GameRoom × Bool
on_reconnect player fd before =
    let room = bump before in
    if state_eq room.state finished
    then (room, false)
    else if room.white.player_id == player
    then (record room { white = attached fd room.white }, true)
    else if room.black.player_id == player
    then (record room { black = attached fd room.black }, true)
    else (room, false)

-- The seat of `c` handed to the connection `fd`.
unfoldable pub rebind : Color → ℤ → ℕ → GameRoom → GameRoom × Bool
rebind c fd generation room =
    let slot = record (seat c room) { connection_generation = generation } in
    if ltb generation (seat c room).connection_generation
    then (room, false)
    else if slot.connected && eqb_ℤ slot.connection_fd fd
    then (set_seat c slot room, true)
    else (set_seat c (attached fd slot) (bump room), true)

-- The local number that a tournament's seat gets: the cast of the durable one.
module _ (player_of : ℤ → ℕ) where
  unfoldable pub on_reconnect_db_player : ℕ → ℤ → ℤ → ℕ → GameRoom → GameRoom × Bool
  unfolding rebind bind_reserved_player
  on_reconnect_db_player now db fd generation room =
      if room.is_tournament_reserved
      then (let (bound, error) =
            bind_reserved_player now db (player_of db) fd true generation room in
          (bound, elim error [ none ↦ true | some e ↦ false ]))
      else if not (ltb_ℤ (pos 0) db)
      then (room, false)
      else elim (seat_of_db db room) [ none ↦ (room, false) | some c ↦ rebind c fd generation room ]

abbrev pub grace_over : ℕ → ℕ → PlayerSlot → Bool
grace_over now grace slot = not slot.connected && leb grace (now - slot.disconnected_at)

-- The seat whose time ran out first loses.
unfoldable pub abandonment_score : Bool → Bool → ℕ → ℕ → Score
abandonment_score white_expired black_expired white_at black_at =
    if white_expired && (black_expired && white_at == black_at)
    then drawn
    else if white_expired && (not black_expired || ltb white_at black_at)
    then black_wins
    else white_wins

unfoldable pub expire_disconnected : ℕ → ℕ → GameRoom → GameRoom × Bool
unfolding abandonment_score
expire_disconnected now grace room =
    let white_expired = grace_over now grace room.white in
    let black_expired = grace_over now grace room.black in
    if not (state_eq room.state in_progress)
    then (room, false)
    else if not white_expired && not black_expired
    then (room, false)
    else (
      finish_game abandonment
          (abandonment_score white_expired black_expired room.white.disconnected_at
            room.black.disconnected_at)
          (bump room),
      true,
    )

abbrev pub has_fd : ℤ → List ℤ → Bool
has_fd fd [] = false
has_fd fd (x ∷ xs) = eqb_ℤ x fd || has_fd fd xs

unfoldable pub add_spectator : ℤ → GameRoom → GameRoom × Bool
add_spectator fd before =
    let room = bump before in
    if not (state_eq room.state in_progress)
    then (room, false)
    else if eqb_ℤ fd room.white.connection_fd || eqb_ℤ fd room.black.connection_fd
    then (room, false)
    else if has_fd fd room.spectator_fds
    then (room, true)
    else (record room { spectator_fds = room.spectator_fds ++ (fd ∷ []) }, true)

abbrev pub without_fd : ℤ → List ℤ → List ℤ
without_fd fd [] = []
without_fd fd (x ∷ xs) = let rest = without_fd fd xs in if eqb_ℤ x fd then xs else x ∷ rest

unfoldable pub remove_spectator : ℤ → GameRoom → GameRoom × Bool
remove_spectator fd before =
    let room = bump before in
    (record room { spectator_fds = without_fd fd room.spectator_fds }, has_fd fd room.spectator_fds)
