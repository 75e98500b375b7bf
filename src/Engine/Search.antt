-- ===== src/Engine/Search.antt =====
-- The search (src/chess/engine.cpp): negamax with alpha and beta, the table, and the deepening loop.
use chess_engine.Base.{ℕ, zero, suc, ◌+◌, ◌-◌, Bool, true, false, leb, ◌==◌}
use chess_engine.Base.{if◌then◌else◌, none, some, List, [], ◌∷◌}
use chess_engine.Base.Int.{ℤ, pos, pos_part, neg_part, ltb_ℤ}
use chess_engine.Types.{Move, no_move}
use chess_engine.Board.Zobrist.{ZobristKeys}
use chess_engine.MoveGen.Attack.{is_in_check}
use chess_engine.MoveGen.Legal.{generate_legal_moves}
use chess_engine.Engine.Table.{exact}
use chess_engine.Engine.Table.{store, probe, probe_move, new_search, at_least}
use chess_engine.Engine.Order.{order_moves}
use chess_engine.Engine.Quiesce.{Deeper, Engine, Entered, Progress, SearchResult, counted}
use chess_engine.Engine.Quiesce.{first_of, mated, max_ℤ, move_or, neg, node_type}
use chess_engine.Engine.Quiesce.{
  quiescence, score_draw, score_infinity, search_move, time_up, scored,
}
use chess_engine.Engine.Quiesce.{open_node}

module _ (k : ZobristKeys) (sort : List (ℤ × ℕ) → List (ℤ × ℕ)) (clock : ℕ → Bool) where
  -- The clock, the fifty moves and the table.
  unfoldable pub enter : ℕ → ℕ → ℤ → ℤ → Engine → Entered × Engine
  unfolding probe probe_move
  enter depth ply alpha beta e =
      let (late, timed) = time_up k sort clock (counted e) in
      if late
      then (scored (pos 0), timed)
      else if leb 100 timed.board.halfmove_clock
      then (scored score_draw, timed)
      else if ply == 0
      then (open_node (move_or (probe_move timed.tt timed.board.zobrist_key) no_move), timed)
      else let (hit, move) = probe timed.tt timed.board.zobrist_key (pos depth) ply alpha beta in
        elim hit [
          | some score ↦ (scored score, timed)
          | none ↦ (open_node (move_or move no_move), timed)
        ]

  abbrev pub improved : ℤ → Move → Progress → Progress
  improved score m p = record {
    alpha = max_ℤ p.alpha score;
    best_score = if ltb_ℤ p.best_score score then score else p.best_score;
    best_move = if ltb_ℤ p.best_score score then m else p.best_move;
  }

  -- The loop of `alpha_beta`: whether it was broken off for the time, and what was found.
  unfoldable pub search_moves :
      Deeper → List Move → ℤ → Progress → Engine → Bool × (Progress × Engine)
  unfolding search_move
  search_moves deeper [] beta p e = (false, (p, e))
  search_moves deeper (m ∷ ms) beta p e =
      let (score, after) = search_move k sort clock deeper m p.alpha beta e in
      let (late, timed) = time_up k sort clock after in
      elim late [
        | true ↦ (true, (p, timed))
        | false ↦ elim (at_least (improved score m p).alpha beta) [
          | true ↦ (false, (improved score m p, timed))
          | false ↦ search_moves deeper ms beta (improved score m p) timed
        ]
      ]

  -- The result is kept in the table where the time is not over.
  unfoldable pub stored : ℕ → ℕ → ℤ → ℤ → Progress → Engine → Engine
  unfolding store
  stored depth ply orig_alpha beta p e =
      let (late, timed) = time_up k sort clock e in
      if late then timed else (record timed {
        tt =
            store timed.tt timed.board.zobrist_key (pos depth) ply p.best_score
              (node_type p.best_score beta orig_alpha) p.best_move;
      })

  abbrev pub fresh : ℤ → Move → Progress
  fresh alpha m = record { alpha = alpha; best_score = neg score_infinity; best_move = m }

  -- A node that is not a leaf.
  unfoldable pub search_node : Deeper → ℕ → ℕ → ℤ → ℤ → Move → Engine → ℤ × Engine
  unfolding search_moves stored is_in_check order_moves
  search_node deeper depth ply alpha beta tt_move e = elim (generate_legal_moves k e.board) [
    | [] ↦ (if is_in_check e.board e.board.side_to_move then mated ply else score_draw, e)
    | m ∷ ms ↦
        let ordered = order_moves sort (m ∷ ms) e.board tt_move in
        let (late, (p, after)) =
          search_moves deeper ordered beta (fresh alpha (first_of ordered)) e in
        elim late [
          | true ↦ (p.best_score, after)
          | false ↦ (p.best_score, stored depth ply alpha beta p after)
        ]
  ]

  unfoldable pub alpha_beta : ℕ → ℕ → Deeper
  unfolding enter search_node quiescence
  alpha_beta zero ply alpha beta e =
      let (entered, timed) = enter 0 ply alpha beta e in
      elim entered [
        | scored score ↦ (score, timed)
        | open_node m ↦ quiescence k sort clock 65 ply alpha beta timed
      ]
  alpha_beta (suc depth) ply alpha beta e =
      let (entered, timed) = enter (suc depth) ply alpha beta e in
      elim entered [
        | scored score ↦ (score, timed)
        | open_node m ↦ search_node (alpha_beta depth (ply + 1)) (suc depth) ply alpha beta m timed
      ]

  -- The loop over the moves at the root, which is broken off for the time alone.
  unfoldable pub root_loop : Deeper → List Move → Progress → Engine → Progress × Engine
  unfolding search_move
  root_loop deeper [] p e = (p, e)
  root_loop deeper (m ∷ ms) p e =
      let (late, timed) = time_up k sort clock e in
      elim late [
        | true ↦ (p, timed)
        | false ↦
            let (score, after) = search_move k sort clock deeper m p.alpha score_infinity timed in
            root_loop deeper ms (improved score m p) after
      ]

  -- The result of a depth, which counts where the time is not over.
  unfoldable pub finish_depth : ℕ → Progress → SearchResult → Engine → SearchResult × Engine
  unfolding store
  finish_depth depth p result e =
      let (late, timed) = time_up k sort clock e in
      if late then (result, timed) else (
        record result { best_move = p.best_move; score = p.best_score; depth = depth },
        record timed {
          tt = store timed.tt timed.board.zobrist_key (pos depth) 0 p.best_score exact p.best_move;
        },
      )

  -- `std::abs(score) >= SCORE_MATE - 100`.
  abbrev pub is_mate_score : ℤ → Bool
  is_mate_score score = leb 899900 (pos_part score + neg_part score)

  -- The depths from `depth` on, for `n` rounds.
  unfoldable pub deepen : ℕ → ℕ → List Move → SearchResult → Engine → SearchResult × Engine
  unfolding root_loop finish_depth alpha_beta order_moves probe_move
  deepen zero depth roots result e = (result, e)
  deepen (suc n) depth roots result e =
      let (late, timed) = time_up k sort clock e in
      elim late [
        | true ↦ (result, timed)
        | false ↦
            let known = move_or (probe_move timed.tt timed.board.zobrist_key) result.best_move in
            let ordered = order_moves sort roots timed.board known in
            let deeper = alpha_beta (depth - 1) 1 in
            let start = fresh (neg score_infinity) (first_of roots) in
            let (p, searched) = root_loop deeper ordered start timed in
            let (better, after) = finish_depth depth p result searched in
            elim (is_mate_score better.score) [
              | true ↦ (better, after)
              | false ↦ deepen n (depth + 1) ordered better after
            ]
      ]

  abbrev pub no_result : SearchResult
  no_result = record { best_move = no_move; score = pos 0; depth = 0; nodes = 0 }

  -- The first legal move stands in for a result until a depth is searched.
  unfoldable pub search_from : ℕ → List Move → Engine → SearchResult × Engine
  unfolding deepen
  search_from max_depth [] e = (no_result, e)
  search_from max_depth (m ∷ ms) e =
      let (result, after) = deepen max_depth 1 (m ∷ ms) (record no_result { best_move = m }) e in
      (record result { nodes = after.nodes_searched }, after)

  unfoldable pub search : ℕ → Engine → SearchResult × Engine
  unfolding search_from new_search
  search max_depth e =
      let started = record e { nodes_searched = 0; tt = new_search e.tt } in
      search_from max_depth (generate_legal_moves k started.board) started
