-- ===== src/Engine/Quiesce.antt =====
-- The state of the engine, and the quiescence search (src/chess/engine.h, src/chess/engine.cpp).
use chess_engine.Base.{ℕ, zero, suc, ◌+◌, Bool, true, false, ◌&&◌, not, leb}
use chess_engine.Base.{if◌then◌else◌, Option, none, some, List, [], ◌∷◌}
use chess_engine.Base.Int.{ℤ, pos, ◌-ℤ◌, ltb_ℤ}
use chess_engine.Types.{Move, no_move, is_none, is_en_passant, is_promotion}
use chess_engine.Board.State.{Board}
use chess_engine.Board.Zobrist.{ZobristKeys}
use chess_engine.Board.Access.{piece_at}
use chess_engine.Board.Moves.{make_move, undo_move}
use chess_engine.MoveGen.Attack.{is_in_check}
use chess_engine.MoveGen.Legal.{generate_legal_moves}
use chess_engine.Engine.Table.{TranspositionTable, NodeType, exact, lower_bound, upper_bound}
use chess_engine.Engine.Table.{at_least}
use chess_engine.Engine.Evaluate.{evaluate}
use chess_engine.Engine.Order.{order_moves}

abbrev pub score_infinity : ℤ
score_infinity = pos 1000000

abbrev pub score_mate : ℤ
score_mate = pos 900000

abbrev pub score_draw : ℤ
score_draw = pos 0

abbrev pub neg : ℤ → ℤ
neg a = pos 0 -ℤ a

abbrev pub max_ℤ : ℤ → ℤ → ℤ
max_ℤ a b = if ltb_ℤ a b then b else a

-- `ticks` counts the readings of the clock and the stop flag.
pub record Engine : Type 0 where
  pub board : Board
  pub tt : TranspositionTable
  pub nodes_searched : ℕ
  pub ticks : ℕ

pub record SearchResult : Type 0 where
  pub best_move : Move
  pub score : ℤ
  pub depth : ℕ
  pub nodes : ℕ

-- What the loop over the moves has found so far.
pub record Progress : Type 0 where
  pub alpha : ℤ
  pub best_score : ℤ
  pub best_move : Move

-- What `alpha_beta` knows before it looks at the moves: a score, or the table's move.
pub data Entered : Type 0 where
  scored : ℤ → Entered
  open_node : Move → Entered

-- A search of a node, given its window and the engine.
abbrev pub Deeper : Type 0
Deeper = ℤ → ℤ → Engine → ℤ × Engine

abbrev pub first_of : List Move → Move
first_of [] = no_move
first_of (m ∷ ms) = m

abbrev pub counted : Engine → Engine
counted e = record e { nodes_searched = e.nodes_searched + 1 }

abbrev pub move_or : Option Move → Move → Move
move_or none m = m
move_or (some n) m = n

abbrev pub mated : ℕ → ℤ
mated ply = neg (score_mate -ℤ pos ply)

abbrev pub node_type : ℤ → ℤ → ℤ → NodeType
node_type best beta orig_alpha =
    if at_least best beta then lower_bound else if ltb_ℤ orig_alpha best then exact else upper_bound

module _ (k : ZobristKeys) (sort : List (ℤ × ℕ) → List (ℤ × ℕ)) (clock : ℕ → Bool) where
  abbrev pub time_up : Engine → Bool × Engine
  time_up e = (clock e.ticks, record e { ticks = e.ticks + 1 })

  -- `-search(board, ..., -beta, -alpha)` after the move, which is undone then.
  unfoldable pub search_move : Deeper → Move → ℤ → ℤ → Engine → ℤ × Engine
  search_move deeper m alpha beta e =
      let (made, undo) = make_move k e.board m in
      let (score, after) = deeper (neg beta) (neg alpha) (record e { board = made }) in
      (neg score, record after { board = undo_move after.board m undo })

  abbrev pub is_quiet : Board → Move → Bool
  is_quiet b m = is_none (piece_at b m.to) && not (is_en_passant m) && not (is_promotion m)

  unfoldable pub quiescence_loop : Deeper → Bool → List Move → ℤ → ℤ → Engine → ℤ × Engine
  unfolding search_move is_en_passant is_promotion
  quiescence_loop deeper checked [] alpha beta e = (alpha, e)
  quiescence_loop deeper checked (m ∷ ms) alpha beta e = elim (not checked && is_quiet e.board m) [
    | true ↦ quiescence_loop deeper checked ms alpha beta e
    | false ↦
        let (score, after) = search_move deeper m alpha beta e in
        let (late, timed) = time_up after in
        elim late [
          | true ↦ (pos 0, timed)
          | false ↦ elim (at_least score beta) [
            | true ↦ (score, timed)
            | false ↦ quiescence_loop deeper checked ms (max_ℤ alpha score) beta timed
          ]
        ]
  ]

  -- The end of `quiescence`: the moves in order, after the position itself was an option.
  unfoldable pub quiescence_moves : Deeper → Bool → List Move → ℤ → ℤ → Engine → ℤ × Engine
  unfolding quiescence_loop evaluate order_moves
  quiescence_moves deeper checked moves alpha beta e =
      let ordered = order_moves sort moves e.board no_move in
      let stand_pat = evaluate k e.board in
      elim checked [
        | true ↦ quiescence_loop deeper true ordered alpha beta e
        | false ↦ elim (at_least stand_pat beta) [
          | true ↦ (stand_pat, e)
          | false ↦ quiescence_loop deeper false ordered (max_ℤ alpha stand_pat) beta e
        ]
      ]

  -- The legal moves are known.
  unfoldable pub quiescence_legal : Deeper → ℕ → List Move → Bool → ℤ → ℤ → Engine → ℤ × Engine
  unfolding quiescence_moves evaluate
  quiescence_legal deeper ply [] checked alpha beta e =
      (if checked then mated ply else score_draw, e)
  quiescence_legal deeper ply (m ∷ ms) checked alpha beta e =
      elim (leb 100 e.board.halfmove_clock) [
        | true ↦ (score_draw, e)
        | false ↦ elim (leb 64 ply) [
          | true ↦ (evaluate k e.board, e)
          | false ↦ quiescence_moves deeper checked (m ∷ ms) alpha beta e
        ]
      ]

  unfoldable pub quiescence_node : Deeper → ℕ → Deeper
  unfolding quiescence_legal is_in_check
  quiescence_node deeper ply alpha beta e =
      let (late, timed) = time_up (counted e) in
      elim late [
        | true ↦ (pos 0, timed)
        | false ↦
            quiescence_legal deeper ply (generate_legal_moves k timed.board)
              (is_in_check timed.board timed.board.side_to_move) alpha beta timed
      ]

  -- The ply grows in every call and ends the search at 64.
  unfoldable pub quiescence : ℕ → ℕ → Deeper
  unfolding quiescence_node
  quiescence zero ply alpha beta e = (pos 0, e)
  quiescence (suc fuel) ply alpha beta e =
      quiescence_node (quiescence fuel (ply + 1)) ply alpha beta e
