-- ===== src/Room/Moved.antt =====
-- The two calls that make a move (src/game/game_room.cpp).
use chess_engine.Base.{ℕ, ◌≡◌, refl, ◌∙◌, List, [], ◌∷◌, ◌++◌}
use chess_engine.Base.{Bool-cases, Option-cases, inl, inr, ◌⊎◌, arith}
use mathlib.Core.List.{Memᴰ}
use chess_engine.Base.Int.{ℤ}
use chess_engine.Types.{Color, PieceType, Move, color_eq}
use chess_engine.Board.State.{Board}
use chess_engine.Board.Zobrist.{ZobristKeys}
use chess_engine.Board.Moves.{make_move}
use chess_engine.MoveGen.Legal.{generate_legal_moves}
use chess_engine.Room.State.{
  GameRoom, MoveRecord, bump, color_of, state_eq, in_progress, finish_game,
}
use chess_engine.Room.Clock.{check_flag, switch_clock}
use chess_engine.Room.Play.{
  submit_move, submit_move_ai, play_move, play_ai_move, find_move, fits, execute, conclude,
  decline_draw, recorded,
}
use chess_engine.Room.History.{find_move-Member}
use chess_engine.Room.Kept.{position}

module _ (k : ZobristKeys) (san : Board → Move → List ℕ) where
  execute-position :
      (now : ℕ) (c : Color) (m : Move) (room : GameRoom)
      → position (execute k san now c m room) ≡ record {
        board = (make_move k room.board m).0;
        move_history = room.move_history ++ (recorded k san now c m room ∷ []);
      }
  unfolding execute switch_clock
  execute-position now c m room = ground arith

  conclude-position : (room : GameRoom) → position (conclude k san room) ≡ position room
  unfolding conclude finish_game
  conclude-position room = ground arith

  decline-position : (c : Color) (room : GameRoom) → position (decline_draw c room) ≡ position room
  unfolding decline_draw
  decline-position c room = ground arith

  -- The room after one legal move that it has recorded.
  unfoldable pub IsMoved : GameRoom → GameRoom → Type 0
  IsMoved room after =
      (r : MoveRecord) × Memᴰ r.move (generate_legal_moves k room.board)
      × (position after ≡ record {
        board = (make_move k room.board r.move).0;
        move_history = room.move_history ++ (r ∷ []);
      })

  unfoldable pub IsStep : GameRoom → GameRoom → Type 0
  IsStep room after = (position after ≡ position room) ⊎ IsMoved room after

  play_move-IsStep :
      (now : ℕ) (c : Color) (f t : ℕ) (p : PieceType) (room : GameRoom)
      → IsStep room (play_move k san now c f t p room).0
  unfolding IsStep IsMoved play_move
  play_move-IsStep now c f t p room =
      elim (Option-cases (find_move (fits f t p) (generate_legal_moves k room.board))) [
        | inl e ↦ inl (rw (e, play_move) refl)
        | inr (m, e) ↦ inr (
          recorded k san now c m room,
          (find_move-Member (fits f t p) (generate_legal_moves k room.board) m e).0,
          rw (e, play_move)
              (conclude-position (decline_draw c (execute k san now c m room))
                ∙ decline-position c (execute k san now c m room)
                ∙ execute-position now c m room),
        )
      ]

  play_ai_move-IsStep :
      (now : ℕ) (f t : ℕ) (p : PieceType) (room : GameRoom)
      → IsStep room (play_ai_move k san now f t p room).0
  unfolding IsStep IsMoved play_ai_move
  play_ai_move-IsStep now f t p room =
      elim (Option-cases (find_move (fits f t p) (generate_legal_moves k room.board))) [
        | inl e ↦ inl (rw (e, play_ai_move) refl)
        | inr (m, e) ↦ inr (
          recorded k san now room.ai_color m room,
          (find_move-Member (fits f t p) (generate_legal_moves k room.board) m e).0,
          rw (e, play_ai_move)
              (conclude-position (execute k san now room.ai_color m room)
                ∙ execute-position now room.ai_color m room),
        )
      ]

  -- A call is turned down or ends the game by the clock, or it comes to `play_move`.
  pub submit_move-cases :
      (now : ℕ) (fd : ℤ) (f t : ℕ) (p : PieceType) (room : GameRoom)
      → (position (submit_move k san now fd f t p room).0 ≡ position room)
        ⊎ ((submit_move k san now fd f t p room).0
            ≡ (play_move k san now (color_of (bump room) fd) f t p (bump room)).0)
  unfolding submit_move finish_game
  submit_move-cases now fd f t p room = elim (Bool-cases (state_eq room.state in_progress)) [
    | inr e ↦ inl (rw (e, submit_move) refl)
    | inl e ↦ elim (Bool-cases (color_eq (color_of (bump room) fd) Color.none)) [
      | inl e' ↦ inl (rw (e, e', submit_move) refl)
      | inr e' ↦ elim (Bool-cases (color_eq (color_of (bump room) fd) room.board.side_to_move)) [
        | inr turn ↦ inl (rw (e, e', turn, submit_move) refl)
        | inl turn ↦ elim (Bool-cases (check_flag now (bump room))) [
          | inl late ↦ inl (rw (e, e', turn, late, submit_move) refl)
          | inr late ↦ inr (rw (e, e', turn, late, submit_move) refl)
        ]
      ]
    ]
  ]

  pub submit_move-IsStep :
      (now : ℕ) (fd : ℤ) (f t : ℕ) (p : PieceType) (room : GameRoom)
      → IsStep room (submit_move k san now fd f t p room).0
  unfolding IsStep IsMoved
  submit_move-IsStep now fd f t p room = elim (submit_move-cases now fd f t p room) [
    | inl e ↦ inl e
    | inr e ↦ rw e (play_move-IsStep now (color_of (bump room) fd) f t p (bump room))
  ]

  submit_move_ai-cases :
      (now : ℕ) (f t : ℕ) (p : PieceType) (room : GameRoom)
      → (position (submit_move_ai k san now f t p room).0 ≡ position room)
        ⊎ ((submit_move_ai k san now f t p room).0 ≡ (play_ai_move k san now f t p (bump room)).0)
  unfolding submit_move_ai finish_game
  submit_move_ai-cases now f t p room = elim (Bool-cases (state_eq room.state in_progress)) [
    | inr e ↦ inl (rw (e, submit_move_ai) refl)
    | inl e ↦ elim (Bool-cases room.is_ai) [
      | inr e' ↦ inl (rw (e, e', submit_move_ai) refl)
      | inl e' ↦ elim (Bool-cases (color_eq room.board.side_to_move room.ai_color)) [
        | inr turn ↦ inl (rw (turn, e, e', submit_move_ai) refl)
        | inl turn ↦ elim (Bool-cases (check_flag now (bump room))) [
          | inl late ↦ inl (rw (turn, late, e, e', submit_move_ai) (ground arith))
          | inr late ↦ inr (rw (turn, late, e, e', submit_move_ai) refl)
        ]
      ]
    ]
  ]

  pub submit_move_ai-IsStep :
      (now : ℕ) (f t : ℕ) (p : PieceType) (room : GameRoom)
      → IsStep room (submit_move_ai k san now f t p room).0
  unfolding IsStep IsMoved
  submit_move_ai-IsStep now f t p room = elim (submit_move_ai-cases now f t p room) [
    | inl e ↦ inl e
    | inr e ↦ rw e (play_ai_move-IsStep now f t p (bump room))
  ]
