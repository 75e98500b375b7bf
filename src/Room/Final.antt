-- ===== src/Room/Final.antt =====
-- A finished game stays as it ended, whatever is called later (src/game/game_room.cpp).
use chess_engine.Base.{ℕ, ◌≡◌, refl, ap, ◌∙◌, Bool, List, [], ◌∷◌}
use chess_engine.Base.{arith}
use chess_engine.Base.Int.{ℤ}
use chess_engine.Types.{PieceType, Move}
use chess_engine.Board.State.{Board}
use chess_engine.Board.Zobrist.{ZobristKeys}
use chess_engine.Types.{GameStatus}
use chess_engine.Room.State.{RoomState, Score, MoveRecord, GameEvent, GameRoom, finished}
use chess_engine.Room.Setup.{
  Newcomer, join, bind_reserved_player, allow_reserved_player, open_reserved,
}
use chess_engine.Room.Play.{submit_move, submit_move_ai}
use chess_engine.Room.Offers.{
  resign, offer_draw, respond_to_draw, expire_draw_offer, offer_rematch, respond_to_rematch,
  expire_rematch_offer,
}
use chess_engine.Room.Connections.{
  expire_on_time, on_disconnect, on_reconnect, on_reconnect_db_player, expire_disconnected,
  add_spectator, remove_spectator,
}
use chess_engine.Room.Actions.{
  Action, act, act_all, joining, binding, allowing, opening, moving, ai_moving, resigning,
  offering_draw, answering_draw, expiring_draw, offering_rematch, answering_rematch,
  expiring_rematch, expiring_time, disconnecting, reconnecting, reconnecting_db, expiring_grace,
  watching, unwatching,
}

-- What a game has come to: all but its connections, its rematch and its revision.
pub record Outcome : Type 0 where
  pub state : RoomState
  pub board : Board
  pub result : Score
  pub game_status : GameStatus
  pub white_ms : ℕ
  pub black_ms : ℕ
  pub move_history : List MoveRecord
  pub events : List GameEvent

abbrev pub outcome : GameRoom → Outcome
outcome room = record {
  state = room.state;
  board = room.board;
  result = room.result;
  game_status = room.game_status;
  white_ms = room.white.remaining_ms;
  black_ms = room.black.remaining_ms;
  move_history = room.move_history;
  events = room.events;
}

module _ (room : GameRoom) (over : room.state ≡ finished) where
  joining_over : (now : ℕ) (p : Newcomer) → outcome (join now p room).0 ≡ outcome room
  unfolding join
  joining_over now p = ground (arith, over)

  allowing_over : (db : ℤ) → outcome (allow_reserved_player db room).0 ≡ outcome room
  unfolding allow_reserved_player
  allowing_over db = ground (arith, over)

  opening_over : (now : ℕ) → outcome (open_reserved now room).0 ≡ outcome room
  unfolding open_reserved
  opening_over now = ground (arith, over)

  resigning_over : (fd : ℤ) → outcome (resign fd room).0 ≡ outcome room
  unfolding resign
  resigning_over fd = ground (arith, over)

  offering_draw_over : (now : ℕ) (fd : ℤ) → outcome (offer_draw now fd room).0 ≡ outcome room
  unfolding offer_draw
  offering_draw_over now fd = ground (arith, over)

  answering_draw_over :
      (fd : ℤ) (accept : Bool) → outcome (respond_to_draw fd accept room).0 ≡ outcome room
  unfolding respond_to_draw
  answering_draw_over fd accept = ground (arith, over)

  expiring_draw_over : (now ttl : ℕ) → outcome (expire_draw_offer now ttl room).0 ≡ outcome room
  unfolding expire_draw_offer
  expiring_draw_over now ttl = ground (arith, over)

  offering_rematch_over : (now : ℕ) (fd : ℤ) → outcome (offer_rematch now fd room).0 ≡ outcome room
  unfolding offer_rematch
  offering_rematch_over now fd = ground (arith, over)

  answering_rematch_over : (fd : ℤ) → outcome (respond_to_rematch fd room).0 ≡ outcome room
  unfolding respond_to_rematch
  answering_rematch_over fd = ground (arith, over)

  expiring_rematch_over :
      (now ttl : ℕ) → outcome (expire_rematch_offer now ttl room).0 ≡ outcome room
  unfolding expire_rematch_offer
  expiring_rematch_over now ttl = ground (arith, over)

  expiring_time_over : (now : ℕ) → outcome (expire_on_time now room).0 ≡ outcome room
  unfolding expire_on_time
  expiring_time_over now = ground (arith, over)

  disconnecting_over : (now : ℕ) (fd : ℤ) → outcome (on_disconnect now fd room) ≡ outcome room
  unfolding on_disconnect
  disconnecting_over now fd = ground (arith, over)

  reconnecting_over : (p : ℕ) (fd : ℤ) → outcome (on_reconnect p fd room).0 ≡ outcome room
  unfolding on_reconnect
  reconnecting_over p fd = ground (arith, over)

  expiring_grace_over :
      (now grace : ℕ) → outcome (expire_disconnected now grace room).0 ≡ outcome room
  unfolding expire_disconnected
  expiring_grace_over now grace = ground (arith, over)

  watching_over : (fd : ℤ) → outcome (add_spectator fd room).0 ≡ outcome room
  unfolding add_spectator
  watching_over fd = ground (arith, over)

  unwatching_over : (fd : ℤ) → outcome (remove_spectator fd room).0 ≡ outcome room
  unfolding remove_spectator
  unwatching_over fd = ground (arith, over)

  binding_over :
      (now : ℕ) (db : ℤ) (p : ℕ) (fd : ℤ) (replace : Bool) (generation : ℕ)
      → outcome (bind_reserved_player now db p fd replace generation room).0 ≡ outcome room
  unfolding bind_reserved_player
  binding_over now db p fd replace generation = ground (arith, over)

  rebinding_over :
      (player_of : ℤ → ℕ) (now : ℕ) (db fd : ℤ) (generation : ℕ)
      → outcome (on_reconnect_db_player player_of now db fd generation room).0 ≡ outcome room
  unfolding on_reconnect_db_player
  rebinding_over player_of now db fd generation = ground (arith, over)

  moving_over :
      (k : ZobristKeys) (san : Board → Move → List ℕ) (now : ℕ) (fd : ℤ) (f t : ℕ) (p : PieceType)
      → outcome (submit_move k san now fd f t p room).0 ≡ outcome room
  unfolding submit_move
  moving_over k san now fd f t p = ground (arith, over)

  ai_moving_over :
      (k : ZobristKeys) (san : Board → Move → List ℕ) (now : ℕ) (f t : ℕ) (p : PieceType)
      → outcome (submit_move_ai k san now f t p room).0 ≡ outcome room
  unfolding submit_move_ai
  ai_moving_over k san now f t p = ground (arith, over)

module _ (k : ZobristKeys) (san : Board → Move → List ℕ) (player_of : ℤ → ℕ) where
  act-outcome :
      (a : Action) (room : GameRoom)
      → room.state ≡ finished
      → outcome (act k san player_of a room) ≡ outcome room
  unfolding act
  act-outcome (joining now p) room over = joining_over room over now p
  act-outcome (binding now db p fd replace generation) room over =
      binding_over room over now db p fd replace generation
  act-outcome (allowing db) room over = allowing_over room over db
  act-outcome (opening now) room over = opening_over room over now
  act-outcome (moving now fd f t p) room over = moving_over room over k san now fd f t p
  act-outcome (ai_moving now f t p) room over = ai_moving_over room over k san now f t p
  act-outcome (resigning fd) room over = resigning_over room over fd
  act-outcome (offering_draw now fd) room over = offering_draw_over room over now fd
  act-outcome (answering_draw fd accept) room over = answering_draw_over room over fd accept
  act-outcome (expiring_draw now ttl) room over = expiring_draw_over room over now ttl
  act-outcome (offering_rematch now fd) room over = offering_rematch_over room over now fd
  act-outcome (answering_rematch fd) room over = answering_rematch_over room over fd
  act-outcome (expiring_rematch now ttl) room over = expiring_rematch_over room over now ttl
  act-outcome (expiring_time now) room over = expiring_time_over room over now
  act-outcome (disconnecting now fd) room over = disconnecting_over room over now fd
  act-outcome (reconnecting p fd) room over = reconnecting_over room over p fd
  act-outcome (reconnecting_db now db fd generation) room over =
      rebinding_over room over player_of now db fd generation
  act-outcome (expiring_grace now grace) room over = expiring_grace_over room over now grace
  act-outcome (watching fd) room over = watching_over room over fd
  act-outcome (unwatching fd) room over = unwatching_over room over fd

  -- Once a game is finished, its board, history, result, status, clocks and the events told stay
  -- the same under every sequence of calls.
  pub act_all-outcome :
      (actions : List Action) (room : GameRoom)
      → room.state ≡ finished
      → outcome (act_all k san player_of actions room) ≡ outcome room
  unfolding act_all
  act_all-outcome [] room over = refl
  act_all-outcome (a ∷ actions) room over =
      let one = act-outcome a room over in
      let still : (act k san player_of a room).state ≡ finished =
        ap (λ (o : Outcome). o.state) one ∙ over in
      act_all-outcome actions (act k san player_of a room) still ∙ one
