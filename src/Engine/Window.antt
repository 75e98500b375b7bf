-- ===== src/Engine/Window.antt =====
-- What a result of one window says in another one, through the table
-- (src/chess/transposition_table.cpp, and the kind of bound that src/chess/engine.cpp stores).
use chess_engine.Base.{ℕ, ◌≡◌, ◌<◌, ap, ◌∙◌, sym, true, some, arith, Bool-cases, inl, inr}
use chess_engine.Base.Arrays.{update, update_at}
use chess_engine.Base.Int.{ℤ, pos, ltb_ℤ, ◌≤ℤ◌}
use chess_engine.Types.{Move}
use chess_engine.Engine.Table.{TranspositionTable, TtEntry, NodeType, exact, lower_bound}
use chess_engine.Engine.Table.{upper_bound, index, replaces, store, probe, at_least, cuts_off}
use chess_engine.Engine.Table.{score_from_tt}
use chess_engine.Engine.TableLaws.{
  score_from_tt-score_to_tt, result_entry, store-replaced, int8_small,
}
use chess_engine.Engine.Quiesce.{node_type}

-- A score answers for a value in a window: at alpha or under it the value is no greater, at beta or
-- over it the value is no smaller, and between them the score is the value.
pub record IsAnswer (alpha beta score value : ℤ) : Type 0 where
  pub low : score ≤ℤ alpha → value ≤ℤ score
  pub high : beta ≤ℤ score → score ≤ℤ value
  pub inside : ltb_ℤ alpha score ≡ true → ltb_ℤ score beta ≡ true → score ≡ value

-- What each kind of bound says of the value.
Bounds : NodeType → ℤ → ℤ → Type 0
Bounds NodeType.none score value = Unit
Bounds exact score value = score ≡ value
Bounds lower_bound score value = score ≤ℤ value
Bounds upper_bound score value = value ≤ℤ score

node_type-Bounds :
    (alpha beta score value : ℤ)
    → IsAnswer alpha beta score value
    → Bounds (node_type score beta alpha) score value
unfolding Bounds
node_type-Bounds alpha beta score value a = elim (Bool-cases (at_least score beta)) [
  | inl h ↦ rw h (a.high (ground (arith, h)))
  | inr h ↦ elim (Bool-cases (ltb_ℤ alpha score)) [
    | inl over ↦ rw (h, over) (a.inside over (ground (arith, h)))
    | inr under ↦ rw (h, under) (a.low (ground (arith, under)))
  ]
]

cuts_off-IsAnswer :
    (type : NodeType) (alpha beta score value : ℤ)
    → ltb_ℤ alpha beta ≡ true
    → Bounds type score value
    → cuts_off type score alpha beta ≡ true
    → IsAnswer alpha beta score value
unfolding Bounds
cuts_off-IsAnswer NodeType.none alpha beta score value window b h = ground (arith, h)
cuts_off-IsAnswer exact alpha beta score value window b h = record {
  low = λ under. rw b (omega arith);
  high = λ over. rw b (omega arith);
  inside = λ above below. b;
}
cuts_off-IsAnswer lower_bound alpha beta score value window b h = record {
  low = λ under. ground (arith, window, h);
  high = λ over. b;
  inside = λ above below. ground (arith, below, h);
}
cuts_off-IsAnswer upper_bound alpha beta score value window b h = record {
  low = λ under. b;
  high = λ over. ground (arith, window, h);
  inside = λ above below. ground (arith, above, h);
}

-- What a probe gives of the entry that it meets.
probe-found :
    (table : TranspositionTable) (key ply : ℕ) (asked alpha beta found : ℤ) (e : TtEntry)
    → table.entries (index table key) ≡ e
    → (probe table key asked ply alpha beta).0 ≡ some found
    → (e.key ≡ key)
      × ((found ≡ score_from_tt e.score ply)
          × ((at_least e.depth asked ≡ true)
              × (cuts_off e.node_type (score_from_tt e.score ply) alpha beta ≡ true)))
unfolding probe
probe-found table key ply asked alpha beta found e there h = ground (arith, there, h)

-- If a search in one window ends with an answer for a value, and its result takes the entry of its
-- key, then a score that a probe gives at the same distance from the root, for a key with the same
-- entry and in any other window, is the score that was stored, for that very key, and an answer for
-- the value there; the depth asked for is no greater than the depth stored, which is below 128.
pub probe-IsAnswer :
    (table : TranspositionTable) (key depth ply : ℕ) (best : Move) (alpha beta score value : ℤ)
    (other : ℕ) (asked alpha' beta' found : ℤ)
    → depth < 128
    → IsAnswer alpha beta score value
    → replaces
        (table.entries (index table key))
        table.age
        key
        (pos depth)
        (node_type score beta alpha)
      ≡ true
    → index table key ≡ index table other
    → ltb_ℤ alpha' beta' ≡ true
    → (probe
        (store table key (pos depth) ply score (node_type score beta alpha) best)
        other
        asked
        ply
        alpha'
        beta').0
      ≡ some found
    → (key ≡ other) × ((found ≡ score) × ((asked ≤ℤ pos depth) × IsAnswer alpha' beta' found value))
probe-IsAnswer table key depth ply best alpha beta score value other asked alpha' beta' found small
      answer replaced slot window h =
    let type = node_type score beta alpha in
    let e = result_entry table key (pos depth) ply score type best in
    let kept = record table { entries = update table.entries (index table key) e } in
    let probed : (probe kept other asked ply alpha' beta').0 ≡ some found =
      ap (λ (t : TranspositionTable). (probe t other asked ply alpha' beta').0)
        (sym (store-replaced table key (pos depth) ply score type best replaced))
      ∙ h in
    let there : kept.entries (index table other) ≡ e =
      ap kept.entries (sym slot) ∙ update_at table.entries (index table key) e in
    let (own, (read, (deep, cut))) =
      probe-found kept other ply asked alpha' beta' found e there probed in
    let back = score_from_tt-score_to_tt score ply in
    let same : found ≡ score = read ∙ back in
    let cuts : cuts_off type score alpha' beta' ≡ true =
      ap (λ (s : ℤ). cuts_off type s alpha' beta') (sym back) ∙ cut in
    let near : at_least (pos depth) asked ≡ true =
      ap (λ (d : ℤ). at_least d asked) (sym (int8_small depth small)) ∙ deep in
    let bounds = node_type-Bounds alpha beta score value answer in
    let answers = cuts_off-IsAnswer type alpha' beta' score value window bounds cuts in
    (own, (same, (ground (arith, near), rw same answers)))
