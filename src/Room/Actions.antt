-- ===== src/Room/Actions.antt =====
-- The calls that change a room, as the steps of its life (src/game/game_room.h).
use chess_engine.Base.{ℕ, Bool, List, [], ◌∷◌}
use chess_engine.Base.Int.{ℤ}
use chess_engine.Types.{PieceType, Move}
use chess_engine.Board.State.{Board}
use chess_engine.Board.Zobrist.{ZobristKeys}
use chess_engine.Room.State.{GameRoom}
use chess_engine.Room.Setup.{
  Newcomer, join, bind_reserved_player, allow_reserved_player, open_reserved,
}
use chess_engine.Room.Play.{submit_move, submit_move_ai}
use chess_engine.Room.Offers.{
  resign, offer_draw, respond_to_draw, expire_draw_offer, offer_rematch, respond_to_rematch,
  expire_rematch_offer,
}
use chess_engine.Room.Connections.{
  expire_on_time, on_disconnect, on_reconnect, on_reconnect_db_player, expire_disconnected,
  add_spectator, remove_spectator,
}

-- A call with its arguments, and the reading of the clock where the call reads it.
pub data Action : Type 0 where
  joining : (now : ℕ) (player : Newcomer) → Action
  binding : (now : ℕ) (db : ℤ) (player : ℕ) (fd : ℤ) (replace : Bool) (generation : ℕ) → Action
  allowing : (db : ℤ) → Action
  opening : (now : ℕ) → Action
  moving : (now : ℕ) (fd : ℤ) (from to : ℕ) (promo : PieceType) → Action
  ai_moving : (now : ℕ) (from to : ℕ) (promo : PieceType) → Action
  resigning : (fd : ℤ) → Action
  offering_draw : (now : ℕ) (fd : ℤ) → Action
  answering_draw : (fd : ℤ) (accept : Bool) → Action
  expiring_draw : (now ttl : ℕ) → Action
  offering_rematch : (now : ℕ) (fd : ℤ) → Action
  answering_rematch : (fd : ℤ) → Action
  expiring_rematch : (now ttl : ℕ) → Action
  expiring_time : (now : ℕ) → Action
  disconnecting : (now : ℕ) (fd : ℤ) → Action
  reconnecting : (player : ℕ) (fd : ℤ) → Action
  reconnecting_db : (now : ℕ) (db fd : ℤ) (generation : ℕ) → Action
  expiring_grace : (now grace : ℕ) → Action
  watching : (fd : ℤ) → Action
  unwatching : (fd : ℤ) → Action

module _ (k : ZobristKeys) (move_to_san : Board → Move → List ℕ) (player_of : ℤ → ℕ) where
  unfoldable pub act : Action → GameRoom → GameRoom
  act (joining now p) room = (join now p room).0
  act (binding now db p fd replace generation) room =
      (bind_reserved_player now db p fd replace generation room).0
  act (allowing db) room = (allow_reserved_player db room).0
  act (opening now) room = (open_reserved now room).0
  act (moving now fd f t promo) room = (submit_move k move_to_san now fd f t promo room).0
  act (ai_moving now f t promo) room = (submit_move_ai k move_to_san now f t promo room).0
  act (resigning fd) room = (resign fd room).0
  act (offering_draw now fd) room = (offer_draw now fd room).0
  act (answering_draw fd accept) room = (respond_to_draw fd accept room).0
  act (expiring_draw now ttl) room = (expire_draw_offer now ttl room).0
  act (offering_rematch now fd) room = (offer_rematch now fd room).0
  act (answering_rematch fd) room = (respond_to_rematch fd room).0
  act (expiring_rematch now ttl) room = (expire_rematch_offer now ttl room).0
  act (expiring_time now) room = (expire_on_time now room).0
  act (disconnecting now fd) room = on_disconnect now fd room
  act (reconnecting p fd) room = (on_reconnect p fd room).0
  act (reconnecting_db now db fd generation) room =
      (on_reconnect_db_player player_of now db fd generation room).0
  act (expiring_grace now grace) room = (expire_disconnected now grace room).0
  act (watching fd) room = (add_spectator fd room).0
  act (unwatching fd) room = (remove_spectator fd room).0

  unfoldable pub act_all : List Action → GameRoom → GameRoom
  unfolding act
  act_all [] room = room
  act_all (a ∷ actions) room = act_all actions (act a room)
