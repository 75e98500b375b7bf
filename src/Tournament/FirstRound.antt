-- ===== src/Tournament/FirstRound.antt =====
-- The first descent of the search for a round (src/tournament/swiss.cpp) ends with a complete round.
use chess_engine.Base.{ℕ, zero, suc, ◌+◌, ◌%◌, ◌<◌, ◌≡◌, ◌⊎◌, refl, arith, true, false, ◌∙◌, sym}
use chess_engine.Base.{none, List, [], ◌∷◌, ◌++◌, Bool-cases, ◌==◌}
use chess_engine.Base.{inl, inr, not, subst}
use chess_engine.Base.Lists.{length, length-map, All, select}
use chess_engine.Base.Sort.{length-sort_by}
use chess_engine.Tournament.Swiss.{PlayerPair, Entry, Cost, cost_less, add_cost, Choice}
use chess_engine.Tournament.Swiss.{paired, alone, Found, key_of, splits, has_pair, player_pair}
use chess_engine.Tournament.Matching.{edge, has_forbidden, is_forbidden, candidates, Deeper, noted}
use chess_engine.Tournament.Matching.{bye_cost, try_candidates, try_bye, search, is_pruned}
use chess_engine.Tournament.Kept.{left, IsCandidate, candidates-IsCandidate}
use chess_engine.Tournament.Finds.{
  AreLonger, HasBest, find-AreLonger, put-AreLonger, AreLonger-less,
}
use chess_engine.Tournament.Finds.{length-key_of, better-HasBest, try_candidates-HasBest}
use chess_engine.Tournament.Finds.{try_bye-HasBest, search-Remembers}

left-length : (es : List Entry) → left (λ _. 1) es ≡ length es
unfolding left
left-length [] = refl
left-length (e ∷ es) = ground (arith, left-length es)

length-splits : (es : List Entry) → length (splits es) ≡ length es
unfolding splits
length-splits [] = refl
length-splits (e ∷ es) =
    let aside : Entry × List Entry → Entry × List Entry = λ s. (s.0, e ∷ s.1) in
    ground (arith, length-map aside (splits es), length-splits es)

module _ (played forbidden : List PlayerPair) where
  allowed_all :
      (i : Entry) (s : Entry × List Entry)
      → has_forbidden played forbidden ≡ false
      → is_forbidden played forbidden i s.0 ≡ false
  allowed_all i s h = nothing_in forbidden h
    where
      nothing_in :
          (ps : List PlayerPair)
          → not (length ps == 0) ≡ false
          → has_pair (player_pair i.1.player_id s.0.1.player_id) ps ≡ false
      nothing_in [] e = refl
      nothing_in (p ∷ ps) e = ground (arith, e)

  -- Where nothing is forbidden, every other player is a candidate.
  length-allowed :
      (i : Entry) (ss : List (Entry × List Entry))
      → has_forbidden played forbidden ≡ false
      → length (select (λ s. not (is_forbidden played forbidden i s.0)) ss) ≡ length ss
  unfolding select
  length-allowed i [] h = refl
  length-allowed i (s ∷ ss) h =
      let allowed = allowed_all i s h in ground (arith, allowed, length-allowed i ss h)

  length-candidates :
      (i : Entry) (rest : List Entry)
      → has_forbidden played forbidden ≡ false
      → length (candidates played forbidden i rest) ≡ length rest
  unfolding candidates
  length-candidates i rest h =
      let ss = select (λ s. not (is_forbidden played forbidden i s.0)) (splits rest) in
      length-sort_by
        (λ (s t : Entry × List Entry).
          cost_less (edge played forbidden i s.0) (edge played forbidden i t.0))
        ss
      ∙ length-allowed i (splits rest) h
      ∙ length-splits rest

  abbrev pub CanFinish : List Entry → Type 0
  CanFinish free = (has_forbidden played forbidden ≡ true) ⊎ (length free % 2 ≡ 0)

  not_pruned :
      (free : List Entry) (cost : Cost) (s : Found)
      → s.best ≡ none
      → AreLonger (length free) s.prefixes
      → is_pruned played forbidden free cost s ≡ false
  unfolding is_pruned
  not_pruned free cost s h longer =
      let unseen =
        find-AreLonger (key_of free) s.prefixes
          (subst (λ n. AreLonger n s.prefixes) (sym (length-key_of free)) longer) in
      rw (h, unseen, is_pruned) refl

  -- The first candidate's descent, or else the bye's.
  abbrev pub Finds : Deeper played forbidden → ℕ → Type 0
  Finds deeper fuel =
      (free : List Entry) (chosen : List Choice) (cost : Cost) (s : Found)
      → length free < fuel
      → CanFinish free
      → s.best ≡ none
      → AreLonger (length free) s.prefixes
      → HasBest (deeper free chosen cost s)

  still_can :
      (i : Entry) (rest others : List Entry)
      → length others + 1 ≡ length rest
      → CanFinish (i ∷ rest)
      → CanFinish others
  still_can i rest others fewer (inl e) = inl e
  still_can i rest others fewer (inr even) = inr (omega arith)

  first_candidate :
      (n fuel : ℕ) (i : Entry) (rest : List Entry) (chosen : List Choice) (cost : Cost)
      (ss : List (Entry × List Entry)) (s : Found)
      → Finds (search played forbidden n fuel) fuel
      → length rest < fuel
      → CanFinish (i ∷ rest)
      → s.best ≡ none
      → AreLonger (length rest) s.prefixes
      → All (IsCandidate (λ _. 1) played forbidden (length rest) i rest) ss
      → (has_forbidden played forbidden ≡ false → length ss ≡ length rest)
      → HasBest (
          try_bye played forbidden n
            (search played forbidden n fuel)
            i
            rest
            chosen
            cost
            (try_candidates played forbidden (search played forbidden n fuel) i chosen cost ss s))
  unfolding try_candidates try_bye
  first_candidate n fuel i rest chosen cost [] s finds small can h longer fits all =
      elim (Bool-cases (has_forbidden played forbidden)) [
        | inl e ↦
            rw (e, try_bye)
              (finds rest (chosen ++ (alone i ∷ [])) (add_cost cost (bye_cost played forbidden n i))
                s small (inl e) h longer)
        | inr e ↦ absurd (ground (arith, e, all e, can))
      ]
  first_candidate n fuel i rest chosen cost ((j, others) ∷ more) s finds small can h longer fits
        all =
      let deeper = search played forbidden n fuel in
      let spent = add_cost cost (edge played forbidden i j) in
      let now_chosen = chosen ++ (paired i j ∷ []) in
      let fewer : length others + 1 ≡ length rest =
        ground (arith, fits.0.0, left-length others, left-length rest) in
      let less : length others < length rest = omega arith in
      let first =
        finds others now_chosen spent s (omega arith) (still_can i rest others fewer can) h
          (AreLonger-less (length rest) (length others) s.prefixes less longer) in
      let remembers = search-Remembers played forbidden n fuel in
      let tried = deeper others now_chosen spent s in
      try_bye-HasBest played forbidden n deeper i rest chosen cost
        (try_candidates played forbidden deeper i chosen cost more tried) remembers
        (try_candidates-HasBest played forbidden deeper i chosen cost more tried remembers first)

  noted_longer :
      (free : List Entry) (cost : Cost) (s : Found) (n : ℕ)
      → n < length free
      → AreLonger (length free) s.prefixes
      → AreLonger n (noted played forbidden free cost s).prefixes
  noted_longer free cost s n less longer =
      put-AreLonger n (key_of free) cost s.prefixes (ground (arith, less, length-key_of free))
        (AreLonger-less (length free) n s.prefixes less longer)

  pub search-Finds : (n fuel : ℕ) → Finds (search played forbidden n fuel) fuel
  unfolding search
  search-Finds n zero free chosen cost s small can h longer = absurd (omega arith)
  search-Finds n (suc fuel) [] chosen cost s small can h longer =
      better-HasBest played forbidden cost chosen s
  search-Finds n (suc fuel) (i ∷ rest) chosen cost s small can h longer =
      let known = noted played forbidden (i ∷ rest) cost s in
      let choices = candidates played forbidden i rest in
      rw (not_pruned (i ∷ rest) cost s h longer, search)
        (first_candidate n fuel i rest chosen cost choices known (search-Finds n fuel) (omega arith)
          can h (noted_longer (i ∷ rest) cost s (length rest) (omega arith) longer)
          (candidates-IsCandidate (λ _. 1) played forbidden (length rest) i rest)
          (length-candidates i rest))
