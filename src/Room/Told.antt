-- ===== src/Room/Told.antt =====
-- The end of a game is told to the listeners once (src/game/game_room.cpp).
use chess_engine.Base.{◌++◌, suc, ℕ, ◌≡◌, refl, ap, Bool, true, List, [], ◌∷◌}
use chess_engine.Base.{◌&&◌, arith, if◌then◌else◌}
use chess_engine.Base.Int.{ℤ}
use chess_engine.Types.{Color}
use chess_engine.Types.{GameStatus}
use chess_engine.Room.State.{
  started, completed, finish_game, state_eq, RoomState, Score, MoveRecord, GameEvent, GameRoom,
  finished,
}
use chess_engine.Room.Setup.{
  bind_seat, bind_to, start_if, both_connected, Newcomer, join, bind_reserved_player,
  allow_reserved_player, open_reserved,
}
use chess_engine.Room.Offers.{
  resign, offer_draw, respond_to_draw, expire_draw_offer, offer_rematch, respond_to_rematch,
  expire_rematch_offer,
}
use chess_engine.Room.Connections.{
  rebind, expire_on_time, on_disconnect, on_reconnect, on_reconnect_db_player, expire_disconnected,
  add_spectator, remove_spectator,
}
use chess_engine.Room.Actions.{}

-- The ends of games among the events.
unfoldable pub completions : List GameEvent → ℕ
completions [] = 0
completions (started ∷ events) = completions events
completions (completed s r h ∷ events) = suc (completions events)

pub completions_told :
    (events : List GameEvent) (s : GameStatus) (r : Score) (h : List MoveRecord)
    → completions (events ++ (completed s r h ∷ [])) ≡ suc (completions events)
unfolding completions
completions_told [] s r h = refl
completions_told (started ∷ events) s r h = completions_told events s r h
completions_told (completed s' r' h' ∷ events) s r h = ap suc (completions_told events s r h)

pub completions_started :
    (events : List GameEvent) → completions (events ++ (started ∷ [])) ≡ completions events
unfolding completions
completions_started [] = refl
completions_started (started ∷ events) = completions_started events
completions_started (completed s r h ∷ events) = ap suc (completions_started events)

-- One end in a finished game, none in another.
unfoldable pub IsTold : GameRoom → Type 0
IsTold room = completions room.events ≡ (if state_eq room.state finished then 1 else 0)

module _ (room : GameRoom) (told : IsTold room) where
  pub joining-IsTold : (now : ℕ) (p : Newcomer) → IsTold (join now p room).0
  unfolding IsTold join
  joining-IsTold now p = grind (arith, told, completions_told, completions_started)

  pub allowing-IsTold : (db : ℤ) → IsTold (allow_reserved_player db room).0
  unfolding IsTold allow_reserved_player
  allowing-IsTold db = grind (arith, told, completions_told, completions_started)

  pub opening-IsTold : (now : ℕ) → IsTold (open_reserved now room).0
  unfolding IsTold open_reserved
  opening-IsTold now = grind (arith, told, completions_told, completions_started)

  pub resigning-IsTold : (fd : ℤ) → IsTold (resign fd room).0
  unfolding IsTold resign finish_game
  resigning-IsTold fd = grind (arith, told, completions_told, completions_started)

  pub offering_draw-IsTold : (now : ℕ) (fd : ℤ) → IsTold (offer_draw now fd room).0
  unfolding IsTold offer_draw
  offering_draw-IsTold now fd = grind (arith, told, completions_told, completions_started)

  pub answering_draw-IsTold : (fd : ℤ) (accept : Bool) → IsTold (respond_to_draw fd accept room).0
  unfolding IsTold respond_to_draw finish_game
  answering_draw-IsTold fd accept = grind (arith, told, completions_told, completions_started)

  pub expiring_draw-IsTold : (now ttl : ℕ) → IsTold (expire_draw_offer now ttl room).0
  unfolding IsTold expire_draw_offer
  expiring_draw-IsTold now ttl = grind (arith, told, completions_told, completions_started)

  pub offering_rematch-IsTold : (now : ℕ) (fd : ℤ) → IsTold (offer_rematch now fd room).0
  unfolding IsTold offer_rematch
  offering_rematch-IsTold now fd = grind (arith, told, completions_told, completions_started)

  pub answering_rematch-IsTold : (fd : ℤ) → IsTold (respond_to_rematch fd room).0
  unfolding IsTold respond_to_rematch
  answering_rematch-IsTold fd = grind (arith, told, completions_told, completions_started)

  pub expiring_rematch-IsTold : (now ttl : ℕ) → IsTold (expire_rematch_offer now ttl room).0
  unfolding IsTold expire_rematch_offer
  expiring_rematch-IsTold now ttl = grind (arith, told, completions_told, completions_started)

  pub expiring_time-IsTold : (now : ℕ) → IsTold (expire_on_time now room).0
  unfolding IsTold expire_on_time finish_game
  expiring_time-IsTold now = grind (arith, told, completions_told, completions_started)

  pub disconnecting-IsTold : (now : ℕ) (fd : ℤ) → IsTold (on_disconnect now fd room)
  unfolding IsTold on_disconnect finish_game
  disconnecting-IsTold now fd = grind (arith, told, completions_told, completions_started)

  pub reconnecting-IsTold : (p : ℕ) (fd : ℤ) → IsTold (on_reconnect p fd room).0
  unfolding IsTold on_reconnect
  reconnecting-IsTold p fd = grind (arith, told, completions_told, completions_started)

  pub expiring_grace-IsTold : (now grace : ℕ) → IsTold (expire_disconnected now grace room).0
  unfolding IsTold expire_disconnected finish_game
  expiring_grace-IsTold now grace = grind (arith, told, completions_told, completions_started)

  pub watching-IsTold : (fd : ℤ) → IsTold (add_spectator fd room).0
  unfolding IsTold add_spectator
  watching-IsTold fd = grind (arith, told, completions_told, completions_started)

  pub unwatching-IsTold : (fd : ℤ) → IsTold (remove_spectator fd room).0
  unfolding IsTold remove_spectator
  unwatching-IsTold fd = grind (arith, told, completions_told, completions_started)

  pub bind_seat-IsTold :
      (c : Color) (p : ℕ) (fd : ℤ) (generation : ℕ) → IsTold (bind_seat c p fd generation room)
  unfolding IsTold bind_seat
  bind_seat-IsTold c p fd generation = ground (arith, told)

  pub start-IsTold :
      (now : ℕ)
      → IsTold (
          start_if
            (room.reserved_open && (state_eq room.state RoomState.waiting && both_connected room))
            now
            room)
  unfolding IsTold
  start-IsTold now = grind (arith, told, completions_started)

  pub rebind-IsTold : (c : Color) (fd : ℤ) (generation : ℕ) → IsTold (rebind c fd generation room).0
  unfolding IsTold rebind
  rebind-IsTold c fd generation = ground (arith, told)

module _ (room : GameRoom) (told : IsTold room) where
  pub bind_to-IsTold :
      (now : ℕ) (c : Color) (p : ℕ) (fd : ℤ) (replace : Bool) (generation : ℕ)
      → IsTold (bind_to now c p fd replace generation room).0
  unfolding IsTold bind_to
  bind_to-IsTold now c p fd replace generation =
      let bound = bind_seat c p fd generation room in
      ground (arith, told, start-IsTold bound (bind_seat-IsTold room told c p fd generation) now)

  pub binding-IsTold :
      (now : ℕ) (db : ℤ) (p : ℕ) (fd : ℤ) (replace : Bool) (generation : ℕ)
      → IsTold (bind_reserved_player now db p fd replace generation room).0
  unfolding IsTold bind_reserved_player
  binding-IsTold now db p fd replace generation = ground (
    arith,
    told,
    bind_to-IsTold now Color.white p fd replace generation,
    bind_to-IsTold now Color.black p fd replace generation,
  )

  pub rebinding-IsTold :
      (player_of : ℤ → ℕ) (now : ℕ) (db fd : ℤ) (generation : ℕ)
      → IsTold (on_reconnect_db_player player_of now db fd generation room).0
  unfolding IsTold on_reconnect_db_player
  rebinding-IsTold player_of now db fd generation = ground (
    arith,
    told,
    binding-IsTold now db (player_of db) fd true generation,
    rebind-IsTold room told Color.white fd generation,
    rebind-IsTold room told Color.black fd generation,
  )
