-- ===== src/Room/Kept.antt =====
-- Calls that are not moves leave the board and the history alone (src/game/game_room.cpp).
use chess_engine.Base.{ℕ, ◌≡◌, arith, Bool, List}
use chess_engine.Base.Int.{ℤ}
use chess_engine.Board.State.{Board}
use chess_engine.Room.State.{GameRoom, MoveRecord, finish_game}
use chess_engine.Room.Setup.{
  Newcomer, join, bind_reserved_player, allow_reserved_player, open_reserved,
}
use chess_engine.Room.Offers.{
  resign, offer_draw, respond_to_draw, expire_draw_offer, offer_rematch, respond_to_rematch,
  expire_rematch_offer,
}
use chess_engine.Room.Connections.{
  expire_on_time, on_disconnect, on_reconnect, on_reconnect_db_player, expire_disconnected,
  add_spectator, remove_spectator,
}

-- The board and the moves that led to it.
pub record Position : Type 0 where
  pub board : Board
  pub move_history : List MoveRecord

abbrev pub position : GameRoom → Position
position room = record { board = room.board; move_history = room.move_history }

module _ (room : GameRoom) where
  pub joining_kept : (now : ℕ) (p : Newcomer) → position (join now p room).0 ≡ position room
  unfolding join
  joining_kept now p = ground arith

  pub allowing_kept : (db : ℤ) → position (allow_reserved_player db room).0 ≡ position room
  unfolding allow_reserved_player
  allowing_kept db = ground arith

  pub opening_kept : (now : ℕ) → position (open_reserved now room).0 ≡ position room
  unfolding open_reserved
  opening_kept now = ground arith

  pub resigning_kept : (fd : ℤ) → position (resign fd room).0 ≡ position room
  unfolding resign finish_game
  resigning_kept fd = ground arith

  pub offering_draw_kept : (now : ℕ) (fd : ℤ) → position (offer_draw now fd room).0 ≡ position room
  unfolding offer_draw
  offering_draw_kept now fd = ground arith

  pub answering_draw_kept :
      (fd : ℤ) (accept : Bool) → position (respond_to_draw fd accept room).0 ≡ position room
  unfolding respond_to_draw finish_game
  answering_draw_kept fd accept = ground arith

  pub expiring_draw_kept :
      (now ttl : ℕ) → position (expire_draw_offer now ttl room).0 ≡ position room
  unfolding expire_draw_offer
  expiring_draw_kept now ttl = ground arith

  pub offering_rematch_kept :
      (now : ℕ) (fd : ℤ) → position (offer_rematch now fd room).0 ≡ position room
  unfolding offer_rematch
  offering_rematch_kept now fd = ground arith

  pub answering_rematch_kept : (fd : ℤ) → position (respond_to_rematch fd room).0 ≡ position room
  unfolding respond_to_rematch
  answering_rematch_kept fd = ground arith

  pub expiring_rematch_kept :
      (now ttl : ℕ) → position (expire_rematch_offer now ttl room).0 ≡ position room
  unfolding expire_rematch_offer
  expiring_rematch_kept now ttl = ground arith

  pub expiring_time_kept : (now : ℕ) → position (expire_on_time now room).0 ≡ position room
  unfolding expire_on_time finish_game
  expiring_time_kept now = ground arith

  pub disconnecting_kept : (now : ℕ) (fd : ℤ) → position (on_disconnect now fd room) ≡ position room
  unfolding on_disconnect finish_game
  disconnecting_kept now fd = ground arith

  pub reconnecting_kept : (p : ℕ) (fd : ℤ) → position (on_reconnect p fd room).0 ≡ position room
  unfolding on_reconnect
  reconnecting_kept p fd = ground arith

  pub expiring_grace_kept :
      (now grace : ℕ) → position (expire_disconnected now grace room).0 ≡ position room
  unfolding expire_disconnected finish_game
  expiring_grace_kept now grace = ground arith

  pub watching_kept : (fd : ℤ) → position (add_spectator fd room).0 ≡ position room
  unfolding add_spectator
  watching_kept fd = ground arith

  pub unwatching_kept : (fd : ℤ) → position (remove_spectator fd room).0 ≡ position room
  unfolding remove_spectator
  unwatching_kept fd = ground arith

  pub binding_kept :
      (now : ℕ) (db : ℤ) (p : ℕ) (fd : ℤ) (replace : Bool) (generation : ℕ)
      → position (bind_reserved_player now db p fd replace generation room).0 ≡ position room
  unfolding bind_reserved_player
  binding_kept now db p fd replace generation = ground arith

  pub rebinding_kept :
      (player_of : ℤ → ℕ) (now : ℕ) (db fd : ℤ) (generation : ℕ)
      → position (on_reconnect_db_player player_of now db fd generation room).0 ≡ position room
  unfolding on_reconnect_db_player
  rebinding_kept player_of now db fd generation = ground arith
