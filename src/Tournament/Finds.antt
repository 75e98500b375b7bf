-- ===== src/Tournament/Finds.antt =====
-- The search for a round always comes to a complete one (src/tournament/swiss.cpp): the first descent
-- is never pruned.
use chess_engine.Base.{ℕ, zero, suc, ◌<◌, ◌≡◌, refl, arith, true}
use chess_engine.Base.{none, some, List, [], ◌∷◌, ◌++◌, Bool-cases}
use chess_engine.Base.{Option-cases, inl, inr}
use chess_engine.Base.Lists.{length, All}
use chess_engine.Base.Dict.{find, put}
use chess_engine.Tournament.Swiss.{PlayerPair, Entry, Cost, cost_less, add_cost, Choice, same_key}
use chess_engine.Tournament.Swiss.{paired, alone, Found, key_of}
use chess_engine.Tournament.Matching.{edge, has_forbidden, candidates, Deeper, noted, bye_cost}
use chess_engine.Tournament.Matching.{try_candidates, try_bye, search, better, is_pruned}

-- Every noted key is longer than `n`.
abbrev pub AreLonger : ℕ → List (List ℕ × Cost) → Type 0
AreLonger n = All (λ e. n < length e.0)

length-same_key : (j k : List ℕ) → same_key j k ≡ true → length j ≡ length k
length-same_key [] [] h = refl
length-same_key [] (y ∷ ys) h = ground (arith, h)
length-same_key (x ∷ xs) [] h = ground (arith, h)
length-same_key (x ∷ xs) (y ∷ ys) h = ground (arith, h, length-same_key xs ys)

pub find-AreLonger :
    (k : List ℕ) (dict : List (List ℕ × Cost))
    → AreLonger (length k) dict
    → find same_key k dict ≡ none
unfolding find
find-AreLonger k [] h = refl
find-AreLonger k ((j, c) ∷ dict) h =
    let same = length-same_key j k in ground (arith, h.0, same, find-AreLonger k dict h.1)

pub put-AreLonger :
    (n : ℕ) (k : List ℕ) (c : Cost) (dict : List (List ℕ × Cost))
    → n < length k
    → AreLonger n dict
    → AreLonger n (put same_key k c dict)
unfolding put
put-AreLonger n k c [] small h = (small, tt)
put-AreLonger n k c ((j, d) ∷ dict) small h = elim (Bool-cases (same_key j k)) [
  | inl e ↦ rw (e, All) (h.0, h.1)
  | inr e ↦ rw (e, All) (h.0, put-AreLonger n k c dict small h.1)
]

pub AreLonger-less :
    (n m : ℕ) (dict : List (List ℕ × Cost)) → m < n → AreLonger n dict → AreLonger m dict
AreLonger-less n m [] less h = tt
AreLonger-less n m (e ∷ dict) less h = (omega arith, AreLonger-less n m dict less h.1)

pub length-key_of : (es : List Entry) → length (key_of es) ≡ length es
length-key_of [] = refl
length-key_of (e ∷ es) = ground (arith, length-key_of es)

abbrev pub HasBest : Found → Type 0
HasBest s = (best : Cost × List Choice) × (s.best ≡ some best)

module _ (played forbidden : List PlayerPair) where
  -- A search that keeps a round that was found, and finds one where none is.
  abbrev pub Remembers : Deeper played forbidden → Type 0
  Remembers deeper =
      (free : List Entry) (chosen : List Choice) (cost : Cost) (s : Found)
      → HasBest s
      → HasBest (deeper free chosen cost s)

  pub better-HasBest :
      (cost : Cost) (chosen : List Choice) (s : Found)
      → HasBest (better played forbidden cost chosen s)
  unfolding better
  better-HasBest cost chosen s = elim (Option-cases s.best) [
    | inl e ↦ rw (e, better) ((cost, chosen), refl)
    | inr (b, e) ↦ elim (Bool-cases (cost_less cost b.0)) [
      | inl less ↦ rw (e, less, better) ((cost, chosen), refl)
      | inr more ↦ rw (e, more, better) (b, e)
    ]
  ]

  pub try_candidates-HasBest :
      (deeper : Deeper played forbidden) (i : Entry) (chosen : List Choice) (cost : Cost)
      (ss : List (Entry × List Entry)) (s : Found)
      → Remembers deeper
      → HasBest s
      → HasBest (try_candidates played forbidden deeper i chosen cost ss s)
  unfolding try_candidates
  try_candidates-HasBest deeper i chosen cost [] s remembers h = h
  try_candidates-HasBest deeper i chosen cost ((j, others) ∷ more) s remembers h =
      let spent = add_cost cost (edge played forbidden i j) in
      let now_chosen = chosen ++ (paired i j ∷ []) in
      try_candidates-HasBest deeper i chosen cost more (deeper others now_chosen spent s) remembers
        (remembers others now_chosen spent s h)

  pub try_bye-HasBest :
      (n : ℕ) (deeper : Deeper played forbidden) (i : Entry) (rest : List Entry)
      (chosen : List Choice) (cost : Cost) (s : Found)
      → Remembers deeper
      → HasBest s
      → HasBest (try_bye played forbidden n deeper i rest chosen cost s)
  unfolding try_bye
  try_bye-HasBest n deeper i rest chosen cost s remembers h =
      elim (Bool-cases (has_forbidden played forbidden)) [
        | inl e ↦
            rw (e, try_bye)
              (remembers rest (chosen ++ (alone i ∷ []))
                (add_cost cost (bye_cost played forbidden n i)) s h)
        | inr e ↦ rw (e, try_bye) h
      ]

  pub search-Remembers : (n fuel : ℕ) → Remembers (search played forbidden n fuel)
  unfolding search
  search-Remembers n zero free chosen cost s h = h
  search-Remembers n (suc fuel) [] chosen cost s h = better-HasBest cost chosen s
  search-Remembers n (suc fuel) (i ∷ rest) chosen cost s h =
      let deeper = search played forbidden n fuel in
      let known = noted played forbidden (i ∷ rest) cost s in
      let choices = candidates played forbidden i rest in
      elim (Bool-cases (is_pruned played forbidden (i ∷ rest) cost s)) [
        | inl pruned ↦ rw (pruned, search) h
        | inr searched ↦
            rw (searched, search)
              (try_bye-HasBest n deeper i rest chosen cost
                (try_candidates played forbidden deeper i chosen cost choices known)
                (search-Remembers n fuel)
                (try_candidates-HasBest deeper i chosen cost choices known (search-Remembers n fuel)
                  h))
      ]
