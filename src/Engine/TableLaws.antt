-- ===== src/Engine/TableLaws.antt =====
-- What the table gives back (src/chess/transposition_table.cpp).
use chess_engine.Base.{ℕ, ◌≡◌, ◌≢◌, ◌<◌, refl, ap, ◌∙◌, true, some, arith, ◌==◌}
use chess_engine.Base.Arrays.{update, update_at}
use chess_engine.Base.Int.{ℤ, pos, negsuc, ◌+ℤ◌, ◌-ℤ◌}
use chess_engine.Types.{Move}
use chess_engine.Engine.Table.{
  TranspositionTable, TtEntry, NodeType, exact, score_to_tt, score_from_tt, int8, index, replaces,
  store, probe, at_least, kept_move,
}

-- At one distance from the root a score is read back as it was stored.
pub score_from_tt-score_to_tt :
    (score : ℤ) (ply : ℕ) → score_from_tt (score_to_tt score ply) ply ≡ score
unfolding score_from_tt score_to_tt ◌+ℤ◌ ◌-ℤ◌
score_from_tt-score_to_tt (pos n) ply = ground arith
score_from_tt-score_to_tt (negsuc n) ply = ground arith

pub int8_small : (depth : ℕ) → depth < 128 → int8 (pos depth) ≡ pos depth
unfolding int8
int8_small depth h = ground arith

module _ (table : TranspositionTable) (key : ℕ) where
  probe-exact :
      (ply : ℕ) (alpha beta asked : ℤ) (e : TtEntry)
      → table.entries (index table key) ≡ e
      → (e.key == key) ≡ true
      → e.node_type ≡ exact
      → at_least e.depth asked ≡ true
      → (probe table key asked ply alpha beta).0 ≡ some (score_from_tt e.score ply)
  unfolding probe
  probe-exact ply alpha beta asked e there same kind deep = rw (there, same, kind, deep, probe) refl

-- The entry of a result.
abbrev pub result_entry : TranspositionTable → ℕ → ℤ → ℕ → ℤ → NodeType → Move → TtEntry
result_entry table key depth ply score type best = record {
  key = key;
  best_move = kept_move (table.entries (index table key)) key best;
  score = score_to_tt score ply;
  depth = int8 depth;
  node_type = type;
  age = table.age;
}

pub store-replaced :
    (table : TranspositionTable) (key : ℕ) (depth : ℤ) (ply : ℕ) (score : ℤ) (type : NodeType)
    (best : Move)
    → replaces (table.entries (index table key)) table.age key depth type ≡ true
    → store table key depth ply score type best ≡ record table {
      entries =
          update table.entries (index table key) (result_entry table key depth ply score type best);
    }
unfolding store
store-replaced table key depth ply score type best replaced = rw (replaced, store) refl

-- An exact result of a depth below 128 that replaces the entry of its key gives its score back to
-- every probe of that key at the same distance from the root that asks for no greater depth.
pub probe-store :
    (table : TranspositionTable) (key depth ply : ℕ) (score alpha beta asked : ℤ) (best : Move)
    → depth < 128
    → replaces (table.entries (index table key)) table.age key (pos depth) exact ≡ true
    → at_least (pos depth) asked ≡ true
    → (probe (store table key (pos depth) ply score exact best) key asked ply alpha beta).0
      ≡ some score
probe-store table key depth ply score alpha beta asked best small replaced deep =
    let e = result_entry table key (pos depth) ply score exact best in
    let there = update_at table.entries (index table key) e in
    let near : at_least (int8 (pos depth)) asked ≡ true = rw (int8_small depth small) deep in
    rw (store-replaced table key (pos depth) ply score exact best replaced) (
      probe-exact (record table { entries = update table.entries (index table key) e }) key ply
        alpha beta asked e there (ground arith) refl near
      ∙ ap some (score_from_tt-score_to_tt score ply))

-- A result leaves the entries of the other indices alone.
pub store-other :
    (table : TranspositionTable) (key : ℕ) (depth : ℤ) (ply : ℕ) (score : ℤ) (type : NodeType)
    (best : Move) (i : ℕ)
    → index table key ≢ i
    → (store table key depth ply score type best).entries i ≡ table.entries i
unfolding store
store-other table key depth ply score type best i apart = ground (arith, apart)
