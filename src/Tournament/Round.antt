-- ===== src/Tournament/Round.antt =====
-- What a Swiss round promises (`pair_swiss_round` of src/tournament/swiss.cpp): every player in it once,
-- and no game that is forbidden.
use chess_engine.Base.{ℕ, ◌+◌, ◌≡◌, refl, arith}
use chess_engine.Base.{if◌then◌else◌, List, [], ◌∷◌, ◌++◌, ◌==◌}
use chess_engine.Base.{subst}
use chess_engine.Base.Lists.{length}
use chess_engine.Base.Sort.{weigh}
use chess_engine.Tournament.Swiss.{PlayerStanding, PlayerPair, Pairing, Choice, paired}
use chess_engine.Tournament.Swiss.{alone, nothing_found, assign_colors}
use chess_engine.Tournament.Swiss.{no_cost}
use chess_engine.Tournament.Matching.{match_pool, numbered, games, byes, round_of}
use chess_engine.Tournament.Matching.{game_of}
use chess_engine.Tournament.Kept.{left, made, Kept, IsKept}
use chess_engine.Tournament.KeptSearch.{search-Keeps}
use chess_engine.Tournament.FirstRound.{CanFinish, search-Finds}

left-numbered :
    (weight : PlayerStanding → ℕ) (i : ℕ) (pool : List PlayerStanding)
    → left weight (numbered i pool) ≡ weigh weight pool
unfolding left numbered weigh
left-numbered weight i [] = refl
left-numbered weight i (p ∷ ps) = ground (arith, left-numbered weight (i + 1) ps)

pub length-numbered : (i : ℕ) (pool : List PlayerStanding) → length (numbered i pool) ≡ length pool
unfolding numbered
length-numbered i [] = refl
length-numbered i (p ∷ ps) = ground (arith, length-numbered (i + 1) ps)

module _ (played forbidden : List PlayerPair) where
  -- The choices for a pool that can be paired off keep its players, and none is forbidden.
  pub match_pool-Kept :
      (weight : PlayerStanding → ℕ) (pool : List PlayerStanding)
      → CanFinish played forbidden (numbered 0 pool)
      → Kept weight played forbidden (weigh weight pool) [] (match_pool played forbidden pool)
  unfolding match_pool left made
  match_pool-Kept weight pool can =
      let n = length pool in
      let free = numbered 0 pool in
      let sum = weigh weight pool in
      let start : Kept weight played forbidden sum free [] =
        (ground (arith, left-numbered weight 0 pool), tt) in
      let kept =
        search-Keeps weight played forbidden sum n (n + 1) free [] no_cost nothing_found start tt in
      let (best, found) =
        search-Finds played forbidden n (n + 1) free [] no_cost nothing_found
          (ground (arith, length-numbered 0 pool)) can refl tt in
      rw found (subst (IsKept weight played forbidden sum) found kept)

-- The seats that a player has in a pairing.
abbrev pub is_player : ℕ → PlayerStanding → ℕ
is_player x p = if p.player_id == x then 1 else 0

unfoldable pub seats : ℕ → Pairing → ℕ
seats x p =
    (if p.white_id == x then 1 else 0) + (if p.is_bye then 0 else if p.black_id == x then 1 else 0)

seats-game_of :
    (x : ℕ) (a b : PlayerStanding) → seats x (game_of a b) ≡ is_player x a + is_player x b
unfolding seats assign_colors
seats-game_of x a b = ground arith

weigh-append :
    (weight : Pairing → ℕ) (front back : List Pairing)
    → weigh weight (front ++ back) ≡ weigh weight front + weigh weight back
unfolding weigh
weigh-append weight [] back = omega arith
weigh-append weight (p ∷ front) back = ground (arith, weigh-append weight front back)

weigh-games :
    (x : ℕ) (cs : List Choice)
    → weigh (seats x) (games cs) + weigh (seats x) (byes cs) ≡ made (is_player x) cs
unfolding weigh games byes made seats
weigh-games x [] = refl
weigh-games x (paired a b ∷ cs) = ground (arith, seats-game_of x a.1 b.1, weigh-games x cs)
weigh-games x (alone a ∷ cs) = ground (arith, weigh-games x cs)

pub weigh-round_of :
    (x : ℕ) (tail : List Pairing) (cs : List Choice)
    → weigh (seats x) (round_of tail cs) ≡ weigh (seats x) tail + made (is_player x) cs
weigh-round_of x tail cs = ground (
  arith,
  weigh-append (seats x) (games cs) (tail ++ byes cs),
  weigh-append (seats x) tail (byes cs),
  weigh-games x cs,
)
