-- ===== src/Room/Played.antt =====
-- Every room's board is the one that its recorded moves lead to (src/game/game_room.cpp).
use chess_engine.Base.{ℕ, sym, subst, List, [], ◌∷◌, inl, inr}
use chess_engine.Base.Int.{ℤ}
use chess_engine.Types.{Move}
use chess_engine.Board.State.{Board}
use chess_engine.Board.Zobrist.{ZobristKeys}
use chess_engine.Room.State.{GameRoom}
use chess_engine.Room.Actions.{
  Action, act, act_all, joining, binding, allowing, opening, moving, ai_moving, resigning,
  offering_draw, answering_draw, expiring_draw, offering_rematch, answering_rematch,
  expiring_rematch, expiring_time, disconnecting, reconnecting, reconnecting_db, expiring_grace,
  watching, unwatching,
}
use chess_engine.Room.History.{IsGame, IsGame-append}
use chess_engine.Room.Moved.{IsStep, IsMoved, submit_move-IsStep, submit_move_ai-IsStep}
use chess_engine.Room.Kept.{Position}
use chess_engine.Room.Kept.{
  joining_kept, allowing_kept, opening_kept, resigning_kept, offering_draw_kept,
  answering_draw_kept, expiring_draw_kept, offering_rematch_kept, answering_rematch_kept,
  expiring_rematch_kept, expiring_time_kept, disconnecting_kept, reconnecting_kept,
  expiring_grace_kept, watching_kept, unwatching_kept, binding_kept, rebinding_kept,
}

module _ (k : ZobristKeys) (san : Board → Move → List ℕ) (player_of : ℤ → ℕ) where
  act-IsStep : (a : Action) (room : GameRoom) → IsStep k san room (act k san player_of a room)
  unfolding act IsStep
  act-IsStep (joining now p) room = inl (joining_kept room now p)
  act-IsStep (binding now db p fd replace generation) room =
      inl (binding_kept room now db p fd replace generation)
  act-IsStep (allowing db) room = inl (allowing_kept room db)
  act-IsStep (opening now) room = inl (opening_kept room now)
  act-IsStep (moving now fd f t p) room = submit_move-IsStep k san now fd f t p room
  act-IsStep (ai_moving now f t p) room = submit_move_ai-IsStep k san now f t p room
  act-IsStep (resigning fd) room = inl (resigning_kept room fd)
  act-IsStep (offering_draw now fd) room = inl (offering_draw_kept room now fd)
  act-IsStep (answering_draw fd accept) room = inl (answering_draw_kept room fd accept)
  act-IsStep (expiring_draw now ttl) room = inl (expiring_draw_kept room now ttl)
  act-IsStep (offering_rematch now fd) room = inl (offering_rematch_kept room now fd)
  act-IsStep (answering_rematch fd) room = inl (answering_rematch_kept room fd)
  act-IsStep (expiring_rematch now ttl) room = inl (expiring_rematch_kept room now ttl)
  act-IsStep (expiring_time now) room = inl (expiring_time_kept room now)
  act-IsStep (disconnecting now fd) room = inl (disconnecting_kept room now fd)
  act-IsStep (reconnecting p fd) room = inl (reconnecting_kept room p fd)
  act-IsStep (reconnecting_db now db fd generation) room =
      inl (rebinding_kept room player_of now db fd generation)
  act-IsStep (expiring_grace now grace) room = inl (expiring_grace_kept room now grace)
  act-IsStep (watching fd) room = inl (watching_kept room fd)
  act-IsStep (unwatching fd) room = inl (unwatching_kept room fd)

  step-IsGame :
      (b : Board) (room after : GameRoom)
      → IsGame k b room.move_history room.board
      → IsStep k san room after
      → IsGame k b after.move_history after.board
  unfolding IsStep IsMoved
  step-IsGame b room after game (inl e) =
      subst (λ (p : Position). IsGame k b p.move_history p.board) (sym e) game
  step-IsGame b room after game (inr (r, legal, e)) =
      subst (λ (p : Position). IsGame k b p.move_history p.board) (sym e)
        (IsGame-append k b room.board room.move_history r game legal)

  -- If a room's board is the one that its recorded moves lead to from a first board, each legal
  -- where it is made, then so it is after every sequence of calls.
  pub act_all-IsGame :
      (b : Board) (actions : List Action) (room : GameRoom)
      → IsGame k b room.move_history room.board
      → IsGame k b
          (act_all k san player_of actions room).move_history
          (act_all k san player_of actions room).board
  unfolding act_all
  act_all-IsGame b [] room game = game
  act_all-IsGame b (a ∷ actions) room game =
      act_all-IsGame b actions (act k san player_of a room)
        (step-IsGame b room (act k san player_of a room) game (act-IsStep a room))
