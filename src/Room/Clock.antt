-- ===== src/Room/Clock.antt =====
-- The Fischer clock of a room (src/game/game_room.cpp). The steady clock never goes back, so the
-- time that has elapsed is a difference of numbers.
use chess_engine.Base.{ℕ, ◌+◌, ◌-◌, Bool, ◌&&◌, leb, if◌then◌else◌}
use chess_engine.Types.{Color, color_eq, opposite_color}
use chess_engine.Room.State.{GameRoom, PlayerSlot, state_eq, in_progress, seat, set_seat}

abbrev pub elapsed : ℕ → PlayerSlot → ℕ
elapsed now slot = now - slot.clock_start

-- `remaining - elapsed + increment`, at least 0.
unfoldable pub charged : ℕ → ℕ → PlayerSlot → PlayerSlot
charged increment now slot = record slot {
  remaining_ms = slot.remaining_ms + increment - elapsed now slot;
}

-- After `make_move`: the mover is the opponent of the side to move.
unfoldable pub switch_clock : ℕ → GameRoom → GameRoom
unfolding charged
switch_clock now room =
    let just_moved = opposite_color room.board.side_to_move in
    let next = if color_eq just_moved Color.white then Color.black else Color.white in
    let mover = charged room.time_control.increment_ms now (seat just_moved room) in
    let waiting = record (seat next room) { clock_start = now } in
    set_seat next waiting (set_seat just_moved mover room)

unfoldable pub check_flag : ℕ → GameRoom → Bool
check_flag now room =
    let active = seat room.board.side_to_move room in
    state_eq room.state in_progress && leb active.remaining_ms (elapsed now active)

-- `get_remaining_times`, White's and Black's.
unfoldable pub get_remaining_times : ℕ → GameRoom → ℕ × ℕ
get_remaining_times now room =
    let white = room.white.remaining_ms in
    let black = room.black.remaining_ms in
    if state_eq room.state in_progress
    then (if color_eq room.board.side_to_move Color.white
        then (white - elapsed now room.white, black)
        else (white, black - elapsed now room.black))
    else (white, black)
