-- ===== src/Engine/Deepen.antt =====
-- The deepening loop of the search (src/chess/engine.cpp): what holds of its result at every depth.
use chess_engine.Base.{
  ℕ, zero, suc, ◌+◌, ◌-◌, ◌≤◌, ◌<◌, ◌≡◌, ◌⊎◌, refl, arith, Bool, true, false, inl, inr,
}
use chess_engine.Base.{if◌then◌else◌, List, [], ◌∷◌, Bool-cases, sym}
use chess_engine.Base.Lists.{length, All}
use chess_engine.Base.Int.{ℤ, ltb_ℤ}
use chess_engine.Types.{Move}
use chess_engine.Board.Zobrist.{ZobristKeys}
use chess_engine.Engine.Order.{Rearranges, order_moves, order_moves-All, length-order_moves}
use chess_engine.Engine.Quiesce.{Engine, SearchResult, Progress, Deeper}
use chess_engine.Engine.Search.{deepen, root_loop}
use chess_engine.Engine.Quiesce.{search_move, first_of, time_up}
use chess_engine.Engine.Search.{finish_depth, improved, alpha_beta}
use chess_engine.Engine.Quiesce.{neg, score_infinity, move_or}
use chess_engine.Engine.Search.{fresh, is_mate_score}
use chess_engine.Engine.Table.{probe_move}

if-both : (P : Move → Type 0) (b : Bool) (m n : Move) → P m → P n → P (if b then m else n)
if-both P true m n hm hn = hm
if-both P false m n hm hn = hn

first_of-All : (P : Move → Type 0) (ms : List Move) → All P ms → 0 < length ms → P (first_of ms)
first_of-All P [] h lt = absurd (omega arith)
first_of-All P (m ∷ ms) h lt = h.0

module _ (k : ZobristKeys) (sort : List (ℤ × ℕ) → List (ℤ × ℕ)) (clock : ℕ → Bool) where
  root_loop-best :
      (P : Move → Type 0) (deeper : Deeper) (ms : List Move) (p : Progress) (e : Engine)
      → All P ms
      → P p.best_move
      → P (root_loop k sort clock deeper ms p e).0.best_move
  unfolding root_loop
  root_loop-best P deeper [] p e h hp = hp
  root_loop-best P deeper (m ∷ ms) p e h hp = elim (Bool-cases (clock e.ticks)) [
    | inl late ↦ rw (late, root_loop) hp
    | inr early ↦
        let timed = (time_up k sort clock e).1 in
        let (score, after) = search_move k sort clock deeper m p.alpha score_infinity timed in
        rw (early, root_loop)
          (root_loop-best P deeper ms (improved k sort clock score m p) after h.1
            (if-both P (ltb_ℤ p.best_score score) m p.best_move h.0 hp))
  ]

  finish_depth-best :
      (P : Move → Type 0) (depth : ℕ) (p : Progress) (r : SearchResult) (e : Engine)
      → P p.best_move
      → P r.best_move
      → P (finish_depth k sort clock depth p r e).0.best_move
  unfolding finish_depth
  finish_depth-best P depth p r e hp hr = elim (Bool-cases (clock e.ticks)) [
    | inl late ↦ rw (late, finish_depth) hr
    | inr early ↦ rw (early, finish_depth) hp
  ]

  module _ (sorts : Rearranges sort) where
    -- A property of all root moves holds of the result's move.
    pub deepen-best :
        (P : Move → Type 0) (n depth : ℕ) (roots : List Move) (r : SearchResult) (e : Engine)
        → All P roots
        → 0 < length roots
        → P r.best_move
        → P (deepen k sort clock n depth roots r e).0.best_move
    unfolding deepen
    deepen-best P zero depth roots r e h some_root hr = hr
    deepen-best P (suc n) depth roots r e h some_root hr = elim (Bool-cases (clock e.ticks)) [
      | inl late ↦ rw (late, deepen) hr
      | inr early ↦
          let timed = (time_up k sort clock e).1 in
          let known = move_or (probe_move timed.tt timed.board.zobrist_key) r.best_move in
          let ordered = order_moves sort roots timed.board known in
          let all_ordered = order_moves-All sort sorts P roots timed.board known h in
          let same_count = length-order_moves sort sorts roots timed.board known in
          let first = first_of-All P roots h some_root in
          let begun = fresh k sort clock (neg score_infinity) (first_of roots) in
          let deeper = alpha_beta k sort clock (depth - 1) 1 in
          let (p, searched) = root_loop k sort clock deeper ordered begun timed in
          let best = root_loop-best P deeper ordered begun timed all_ordered first in
          let (better, after) = finish_depth k sort clock depth p r searched in
          let still = finish_depth-best P depth p r searched best hr in
          elim (Bool-cases (is_mate_score k sort clock better.score)) [
            | inl mate ↦ rw (early, mate, deepen) still
            | inr open_score ↦
                rw (early, open_score, deepen)
                  (deepen-best P n (depth + 1) ordered better after all_ordered (omega arith) still)
          ]
    ]

  -- No depth beyond the last is claimed.
  finish_depth-bound :
      (depth limit : ℕ) (p : Progress) (r : SearchResult) (e : Engine)
      → depth ≤ limit
      → r.depth ≤ limit
      → (finish_depth k sort clock depth p r e).0.depth ≤ limit
  unfolding finish_depth
  finish_depth-bound depth limit p r e hd hr = elim (Bool-cases (clock e.ticks)) [
    | inl late ↦ rw (late, finish_depth) hr
    | inr early ↦ rw (early, finish_depth) hd
  ]

  pub deepen-bound :
      (n depth limit : ℕ) (roots : List Move) (r : SearchResult) (e : Engine)
      → depth + n ≤ limit + 1
      → r.depth ≤ limit
      → (deepen k sort clock n depth roots r e).0.depth ≤ limit
  unfolding deepen
  deepen-bound zero depth limit roots r e h hr = hr
  deepen-bound (suc n) depth limit roots r e h hr = elim (Bool-cases (clock e.ticks)) [
    | inl late ↦ rw (late, deepen) hr
    | inr early ↦
        let timed = (time_up k sort clock e).1 in
        let known = move_or (probe_move timed.tt timed.board.zobrist_key) r.best_move in
        let ordered = order_moves sort roots timed.board known in
        let begun = fresh k sort clock (neg score_infinity) (first_of roots) in
        let deeper = alpha_beta k sort clock (depth - 1) 1 in
        let (p, searched) = root_loop k sort clock deeper ordered begun timed in
        let (better, after) = finish_depth k sort clock depth p r searched in
        let still = finish_depth-bound depth limit p r searched (omega arith) hr in
        elim (Bool-cases (is_mate_score k sort clock better.score)) [
          | inl mate ↦ rw (early, mate, deepen) still
          | inr open_score ↦
              rw (early, open_score, deepen)
                (deepen-bound n (depth + 1) limit ordered better after (omega arith) still)
        ]
  ]

  -- With a clock that never says that the time is over.
  module _ (patient : (i : ℕ) → clock i ≡ false) where
    finish_depth-patient :
        (depth : ℕ) (p : Progress) (r : SearchResult) (e : Engine)
        → (finish_depth k sort clock depth p r e).0.depth ≡ depth
    unfolding finish_depth
    finish_depth-patient depth p r e = rw (patient e.ticks, finish_depth) refl

    pub deepen-reaches :
        (n depth : ℕ) (roots : List Move) (r : SearchResult) (e : Engine)
        → (r.depth + 1 ≡ depth)
        → ((deepen k sort clock n depth roots r e).0.depth ≡ r.depth + n)
          ⊎ (is_mate_score k sort clock (deepen k sort clock n depth roots r e).0.score ≡ true)
    unfolding deepen
    deepen-reaches zero depth roots r e h = inl (omega arith)
    deepen-reaches (suc n) depth roots r e h =
        let early = patient e.ticks in
        let timed = (time_up k sort clock e).1 in
        let known = move_or (probe_move timed.tt timed.board.zobrist_key) r.best_move in
        let ordered = order_moves sort roots timed.board known in
        let begun = fresh k sort clock (neg score_infinity) (first_of roots) in
        let deeper = alpha_beta k sort clock (depth - 1) 1 in
        let (p, searched) = root_loop k sort clock deeper ordered begun timed in
        let (better, after) = finish_depth k sort clock depth p r searched in
        let reached = finish_depth-patient depth p r searched in
        elim (Bool-cases (is_mate_score k sort clock better.score)) [
          | inl mate ↦ rw (early, mate, deepen) (inr mate)
          | inr open_score ↦
              let sum : better.depth + n ≡ r.depth + suc n = omega arith in
              rw (early, open_score, sym sum, deepen)
                (deepen-reaches n (depth + 1) ordered better after (omega arith))
        ]
