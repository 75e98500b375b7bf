-- ===== src/Room/Once.antt =====
-- Moves, and every sequence of calls: the end of a game is told to the listeners once (src/game/game_room.cpp).
use chess_engine.Base.{ℕ, ◌≡◌, false, List, [], ◌∷◌, inl, inr}
use chess_engine.Base.{Option-cases, arith}
use chess_engine.Base.Int.{ℤ}
use chess_engine.Types.{Color, PieceType, Move}
use chess_engine.Board.State.{Board}
use chess_engine.Board.Zobrist.{ZobristKeys}
use chess_engine.Room.State.{finish_game, state_eq, GameRoom, bump, finished, color_of}
use chess_engine.MoveGen.Legal.{generate_legal_moves}
use chess_engine.Room.Setup.{}
use chess_engine.Room.Clock.{switch_clock}
use chess_engine.Room.Play.{
  play_move, play_ai_move, execute, conclude, decline_draw, fits, find_move, submit_move,
  submit_move_ai,
}
use chess_engine.Room.Offers.{}
use chess_engine.Room.Connections.{}
use chess_engine.Room.Actions.{
  Action, act, act_all, joining, binding, allowing, opening, moving, ai_moving, resigning,
  offering_draw, answering_draw, expiring_draw, offering_rematch, answering_rematch,
  expiring_rematch, expiring_time, disconnecting, reconnecting, reconnecting_db, expiring_grace,
  watching, unwatching,
}
use chess_engine.Room.Told.{
  IsTold, completions_told, joining-IsTold, allowing-IsTold, opening-IsTold, resigning-IsTold,
  offering_draw-IsTold, answering_draw-IsTold, expiring_draw-IsTold, offering_rematch-IsTold,
  answering_rematch-IsTold, expiring_rematch-IsTold, expiring_time-IsTold, disconnecting-IsTold,
  reconnecting-IsTold, expiring_grace-IsTold, watching-IsTold, unwatching-IsTold, binding-IsTold,
  rebinding-IsTold,
}

module _ (k : ZobristKeys) (san : Board → Move → List ℕ) where
  conclude-IsTold :
      (room : GameRoom)
      → state_eq room.state finished ≡ false
      → IsTold room
      → IsTold (conclude k san room)
  unfolding IsTold conclude finish_game
  conclude-IsTold room going told = grind (arith, going, told, completions_told)

  execute_told :
      (now : ℕ) (c : Color) (m : Move) (room : GameRoom)
      → ((execute k san now c m room).state ≡ room.state)
        × ((execute k san now c m room).events ≡ room.events)
  unfolding execute switch_clock
  execute_told now c m room = ground arith

  decline_told :
      (c : Color) (room : GameRoom)
      → ((decline_draw c room).state ≡ room.state) × ((decline_draw c room).events ≡ room.events)
  unfolding decline_draw
  decline_told c room = ground arith

  play_move-IsTold :
      (now : ℕ) (c : Color) (f t : ℕ) (p : PieceType) (room : GameRoom)
      → state_eq room.state finished ≡ false
      → IsTold room
      → IsTold (play_move k san now c f t p room).0
  unfolding IsTold play_move
  play_move-IsTold now c f t p room going told =
      elim (Option-cases (find_move (fits f t p) (generate_legal_moves k room.board))) [
        | inl e ↦ rw (e, play_move) told
        | inr (m, e) ↦
            let made = execute k san now c m room in
            let same = execute_told now c m room in
            let kept = decline_told c made in
            rw (e, play_move)
              (conclude-IsTold (decline_draw c made) (rw (kept.0, same.0) going)
                (rw (kept.0, kept.1, same.0, same.1) told))
      ]

  play_ai_move-IsTold :
      (now : ℕ) (f t : ℕ) (p : PieceType) (room : GameRoom)
      → state_eq room.state finished ≡ false
      → IsTold room
      → IsTold (play_ai_move k san now f t p room).0
  unfolding IsTold play_ai_move
  play_ai_move-IsTold now f t p room going told =
      elim (Option-cases (find_move (fits f t p) (generate_legal_moves k room.board))) [
        | inl e ↦ rw (e, play_ai_move) told
        | inr (m, e) ↦
            let made = execute k san now room.ai_color m room in
            let same = execute_told now room.ai_color m room in
            rw (e, play_ai_move) (conclude-IsTold made (rw same.0 going) (rw (same.0, same.1) told))
      ]

  moving-IsTold :
      (room : GameRoom)
      → IsTold room
      → (now : ℕ) (fd : ℤ) (f t : ℕ) (p : PieceType)
      → IsTold (submit_move k san now fd f t p room).0
  unfolding IsTold submit_move finish_game
  moving-IsTold room told now fd f t p =
      let play = play_move-IsTold now (color_of (bump room) fd) f t p (bump room) in
      grind (arith, told, play, completions_told)

  ai_moving-IsTold :
      (room : GameRoom)
      → IsTold room
      → (now : ℕ) (f t : ℕ) (p : PieceType) → IsTold (submit_move_ai k san now f t p room).0
  unfolding IsTold submit_move_ai finish_game
  ai_moving-IsTold room told now f t p =
      let play = play_ai_move-IsTold now f t p (bump room) in
      grind (arith, told, play, completions_told)

module _ (k : ZobristKeys) (san : Board → Move → List ℕ) (player_of : ℤ → ℕ) where
  act-IsTold : (a : Action) (room : GameRoom) → IsTold room → IsTold (act k san player_of a room)
  unfolding act
  act-IsTold (joining now p) room told = joining-IsTold room told now p
  act-IsTold (binding now db p fd replace generation) room told =
      binding-IsTold room told now db p fd replace generation
  act-IsTold (allowing db) room told = allowing-IsTold room told db
  act-IsTold (opening now) room told = opening-IsTold room told now
  act-IsTold (moving now fd f t p) room told = moving-IsTold k san room told now fd f t p
  act-IsTold (ai_moving now f t p) room told = ai_moving-IsTold k san room told now f t p
  act-IsTold (resigning fd) room told = resigning-IsTold room told fd
  act-IsTold (offering_draw now fd) room told = offering_draw-IsTold room told now fd
  act-IsTold (answering_draw fd accept) room told = answering_draw-IsTold room told fd accept
  act-IsTold (expiring_draw now ttl) room told = expiring_draw-IsTold room told now ttl
  act-IsTold (offering_rematch now fd) room told = offering_rematch-IsTold room told now fd
  act-IsTold (answering_rematch fd) room told = answering_rematch-IsTold room told fd
  act-IsTold (expiring_rematch now ttl) room told = expiring_rematch-IsTold room told now ttl
  act-IsTold (expiring_time now) room told = expiring_time-IsTold room told now
  act-IsTold (disconnecting now fd) room told = disconnecting-IsTold room told now fd
  act-IsTold (reconnecting p fd) room told = reconnecting-IsTold room told p fd
  act-IsTold (reconnecting_db now db fd generation) room told =
      rebinding-IsTold room told player_of now db fd generation
  act-IsTold (expiring_grace now grace) room told = expiring_grace-IsTold room told now grace
  act-IsTold (watching fd) room told = watching-IsTold room told fd
  act-IsTold (unwatching fd) room told = unwatching-IsTold room told fd

  -- If the listeners have been told one end of a finished game or none of another, then so it is
  -- after every sequence of calls.
  pub act_all-IsTold :
      (actions : List Action) (room : GameRoom)
      → IsTold room
      → IsTold (act_all k san player_of actions room)
  unfolding act_all
  act_all-IsTold [] room told = told
  act_all-IsTold (a ∷ actions) room told =
      act_all-IsTold actions (act k san player_of a room) (act-IsTold a room told)
