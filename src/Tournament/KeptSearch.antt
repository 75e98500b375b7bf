-- ===== src/Tournament/KeptSearch.antt =====
-- Every round that the search finds keeps the players and obeys what is forbidden
-- (src/tournament/swiss.cpp).
use chess_engine.Base.{ℕ, zero, suc, ◌≡◌, arith, true}
use chess_engine.Base.{List, [], ◌∷◌, ◌++◌, Bool-cases}
use chess_engine.Base.{Option-cases, inl, inr}
use chess_engine.Base.Lists.{All, All-append}
use chess_engine.Tournament.Swiss.{
  PlayerStanding, PlayerPair, Entry, Cost, cost_less, add_cost, Choice,
}
use chess_engine.Tournament.Swiss.{paired, alone, Found}
use chess_engine.Tournament.Matching.{edge, has_forbidden, candidates, Deeper, noted, bye_cost}
use chess_engine.Tournament.Matching.{try_candidates, try_bye, search, better, is_pruned}
use chess_engine.Tournament.Kept.{left, made, made-append, IsAllowed, IsCandidate, Kept, BestKept}
use chess_engine.Tournament.Kept.{Keeps, candidates-IsCandidate}

module _ (weight : PlayerStanding → ℕ) (played forbidden : List PlayerPair) (sum : ℕ) where
  better-BestKept :
      (cost : Cost) (chosen : List Choice) (s : Found)
      → Kept weight played forbidden sum [] chosen
      → BestKept weight played forbidden sum s
      → BestKept weight played forbidden sum (better played forbidden cost chosen s)
  unfolding better
  better-BestKept cost chosen s kept h = elim (Option-cases s.best) [
    | inl e ↦ rw (e, better) kept
    | inr (b, e) ↦ elim (Bool-cases (cost_less cost b.0)) [
      | inl less ↦ rw (e, less, better) kept
      | inr more ↦ rw (e, more, better) h
    ]
  ]

  Kept-paired :
      (i : Entry) (rest : List Entry) (chosen : List Choice) (s : Entry × List Entry)
      → Kept weight played forbidden sum (i ∷ rest) chosen
      → IsCandidate weight played forbidden sum i rest s
      → Kept weight played forbidden sum s.1 (chosen ++ (paired i s.0 ∷ []))
  unfolding left made
  Kept-paired i rest chosen s kept fits = (
    ground (arith, kept.0, fits.0, made-append weight chosen (paired i s.0)),
    All-append (IsAllowed weight played forbidden sum) chosen (paired i s.0 ∷ []) kept.1
        (fits.1, tt),
  )

  Kept-alone :
      (i : Entry) (rest : List Entry) (chosen : List Choice)
      → Kept weight played forbidden sum (i ∷ rest) chosen
      → has_forbidden played forbidden ≡ true
      → Kept weight played forbidden sum rest (chosen ++ (alone i ∷ []))
  unfolding left made
  Kept-alone i rest chosen kept some_forbidden = (
    ground (arith, kept.0, made-append weight chosen (alone i)),
    All-append (IsAllowed weight played forbidden sum) chosen (alone i ∷ []) kept.1
        (some_forbidden, tt),
  )

  try_candidates-BestKept :
      (deeper : Deeper played forbidden) (i : Entry) (rest : List Entry) (chosen : List Choice)
      (cost : Cost) (ss : List (Entry × List Entry)) (s : Found)
      → Keeps weight played forbidden sum deeper
      → Kept weight played forbidden sum (i ∷ rest) chosen
      → All (IsCandidate weight played forbidden sum i rest) ss
      → BestKept weight played forbidden sum s
      → BestKept weight played forbidden sum
          (try_candidates played forbidden deeper i chosen cost ss s)
  unfolding try_candidates
  try_candidates-BestKept deeper i rest chosen cost [] s keeps kept fits h = h
  try_candidates-BestKept deeper i rest chosen cost ((j, others) ∷ more) s keeps kept fits h =
      let spent = add_cost cost (edge played forbidden i j) in
      let now_chosen = chosen ++ (paired i j ∷ []) in
      try_candidates-BestKept deeper i rest chosen cost more (deeper others now_chosen spent s)
        keeps kept fits.1
        (keeps others now_chosen spent s (Kept-paired i rest chosen (j, others) kept fits.0) h)

  try_bye-BestKept :
      (n : ℕ) (deeper : Deeper played forbidden) (i : Entry) (rest : List Entry)
      (chosen : List Choice) (cost : Cost) (s : Found)
      → Keeps weight played forbidden sum deeper
      → Kept weight played forbidden sum (i ∷ rest) chosen
      → BestKept weight played forbidden sum s
      → BestKept weight played forbidden sum
          (try_bye played forbidden n deeper i rest chosen cost s)
  unfolding try_bye
  try_bye-BestKept n deeper i rest chosen cost s keeps kept h =
      elim (Bool-cases (has_forbidden played forbidden)) [
        | inl e ↦
            rw (e, try_bye)
              (keeps rest (chosen ++ (alone i ∷ [])) (add_cost cost (bye_cost played forbidden n i))
                s (Kept-alone i rest chosen kept e) h)
        | inr e ↦ rw (e, try_bye) h
      ]

  pub search-Keeps :
      (n fuel : ℕ) → Keeps weight played forbidden sum (search played forbidden n fuel)
  unfolding search
  search-Keeps n zero free chosen cost s kept h = h
  search-Keeps n (suc fuel) [] chosen cost s kept h = better-BestKept cost chosen s kept h
  search-Keeps n (suc fuel) (i ∷ rest) chosen cost s kept h =
      let deeper = search played forbidden n fuel in
      let keeps = search-Keeps n fuel in
      let known = noted played forbidden (i ∷ rest) cost s in
      let choices = candidates played forbidden i rest in
      elim (Bool-cases (is_pruned played forbidden (i ∷ rest) cost s)) [
        | inl pruned ↦ rw (pruned, search) h
        | inr searched ↦
            rw (searched, search)
              (try_bye-BestKept n deeper i rest chosen cost
                (try_candidates played forbidden deeper i chosen cost choices known) keeps kept
                (try_candidates-BestKept deeper i rest chosen cost choices known keeps kept
                  (candidates-IsCandidate weight played forbidden sum i rest) h))
      ]
