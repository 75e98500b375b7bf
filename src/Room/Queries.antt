-- ===== src/Room/Queries.antt =====
-- What can be asked of a room (src/game/game_room.cpp).
use chess_engine.Base.{ℕ, Bool, false, ◌&&◌, ◌||◌, not, ◌==◌, if◌then◌else◌, List, [], map}
use chess_engine.Base.Int.{ℤ, pos, eqb_ℤ, ltb_ℤ}
use chess_engine.Types.{Color}
use chess_engine.Board.Zobrist.{ZobristKeys}
use chess_engine.Board.Text.{to_uci}
use chess_engine.MoveGen.Legal.{generate_legal_moves}
use chess_engine.Room.State.{GameRoom, no_fd, state_eq, in_progress, seat}

unfoldable pub get_player_fd : Color → GameRoom → ℤ
get_player_fd Color.white room = room.white.connection_fd
get_player_fd Color.black room = room.black.connection_fd
get_player_fd Color.none room = no_fd

unfoldable pub get_opponent_fd : ℤ → GameRoom → ℤ
get_opponent_fd fd room =
    if eqb_ℤ room.white.connection_fd fd
    then room.black.connection_fd
    else if eqb_ℤ room.black.connection_fd fd
    then room.white.connection_fd
    else no_fd

unfoldable pub has_player : ℤ → GameRoom → Bool
has_player fd room = eqb_ℤ room.white.connection_fd fd || eqb_ℤ room.black.connection_fd fd

unfoldable pub has_player_id : ℕ → GameRoom → Bool
has_player_id id room = room.white.player_id == id || room.black.player_id == id

unfoldable pub has_db_player_id : ℤ → GameRoom → Bool
has_db_player_id id room =
    ltb_ℤ (pos 0) id && (eqb_ℤ room.white.db_player_id id || eqb_ℤ room.black.db_player_id id)

unfoldable pub is_connected : Color → GameRoom → Bool
is_connected Color.white room = room.white.connected
is_connected Color.black room = room.black.connected
is_connected Color.none room = false

unfoldable pub current_turn_fd : GameRoom → ℤ
current_turn_fd room =
    if not (state_eq room.state in_progress)
    then no_fd
    else (seat room.board.side_to_move room).connection_fd

unfoldable pub get_legal_moves_uci : ZobristKeys → GameRoom → List (List ℕ)
get_legal_moves_uci k room =
    if not (state_eq room.state in_progress)
    then []
    else map to_uci (generate_legal_moves k room.board)
