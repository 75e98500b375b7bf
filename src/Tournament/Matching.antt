-- ===== src/Tournament/Matching.antt =====
-- The search for the cheapest round, and the round itself (`pair_swiss_round` of
-- src/tournament/swiss.cpp).
use chess_engine.Base.{ℕ, zero, suc, ◌+◌, ◌-◌, ◌/◌, ◌%◌, Bool, true, false, ◌&&◌, ◌||◌, not, ltb}
use chess_engine.Base.{if◌then◌else◌, Option, none, some, List, [], ◌∷◌, ◌++◌, map, ◌==◌}
use chess_engine.Base.Lists.{length, select}
use chess_engine.Base.Dict.{find, put}
use chess_engine.Base.Sort.{sort_by}
use chess_engine.Tournament.Swiss.{
  PlayerStanding, Pairing, PlayerPair, player_pair, has_pair, have_played,
}
use chess_engine.Tournament.Swiss.{
  higher_seed, assign_colors, Entry, Cost, no_cost, cost_less, add_cost,
}
use chess_engine.Tournament.Swiss.{gap, Choice, paired, alone, Found, nothing_found, splits, key_of}
use chess_engine.Tournament.Swiss.{same_key, neighbour_gaps}

module _ (played forbidden : List PlayerPair) where
  unfoldable pub edge : Entry → Entry → Cost
  edge a b = record no_cost {
    rematches = if have_played played a.1.player_id b.1.player_id then 1 else 0;
    rating_gap = gap a.1.elo b.1.elo;
    score_gap = gap a.1.score b.1.score;
  }

  abbrev pub has_forbidden : Bool
  has_forbidden = not (length forbidden == 0)

  abbrev pub is_forbidden : Entry → Entry → Bool
  is_forbidden a b = has_pair (player_pair a.1.player_id b.1.player_id) forbidden

  -- Whether some other free player is a new opponent.
  unfoldable pub has_fresh : Entry → List Entry → Bool
  has_fresh a [] = false
  has_fresh a (b ∷ others) =
      not (have_played played a.1.player_id b.1.player_id) || has_fresh a others

  unfoldable pub forced : List Entry → ℕ
  unfolding splits has_fresh
  forced free = length (select (λ s. not (has_fresh s.0 s.1)) (splits free))

  unfoldable pub lower_bound : List Entry → Cost
  unfolding forced sort_by
  lower_bound free = if has_forbidden then no_cost else record no_cost {
    rematches = (forced free + 1) / 2;
    rating_gap = neighbour_gaps (sort_by ltb (map (λ e. e.1.elo) free));
    score_gap = neighbour_gaps (sort_by ltb (map (λ e. e.1.score) free));
  }

  -- A round is complete.
  unfoldable pub better : Cost → List Choice → Found → Found
  unfolding cost_less
  better cost chosen s = elim s.best [
    | none ↦ record s { best = some (cost, chosen) }
    | some best ↦ if cost_less cost best.0 then record s { best = some (cost, chosen) } else s
  ]

  abbrev pub beaten : Option (Cost × List Choice) → Cost → Bool
  beaten none bound = false
  beaten (some best) bound = not (cost_less bound best.0)

  abbrev pub reached : Option Cost → Cost → Bool
  reached none cost = false
  reached (some prior) cost = not (cost_less cost prior)

  unfoldable pub is_pruned : List Entry → Cost → Found → Bool
  unfolding lower_bound add_cost cost_less
  is_pruned free cost s =
      beaten s.best (add_cost cost (lower_bound free))
      || reached (find same_key (key_of free) s.prefixes) cost

  -- The opponents of `i` that are allowed, the cheapest first, with the players left.
  unfoldable pub candidates : Entry → List Entry → List (Entry × List Entry)
  unfolding splits sort_by edge cost_less
  candidates i rest =
      sort_by (λ s t. cost_less (edge i s.0) (edge i t.0))
        (select (λ s. not (is_forbidden i s.0)) (splits rest))

  abbrev pub Deeper : Type 0
  Deeper = List Entry → List Choice → Cost → Found → Found

  unfoldable pub try_candidates :
      Deeper → Entry → List Choice → Cost → List (Entry × List Entry) → Found → Found
  unfolding edge add_cost
  try_candidates deeper i chosen cost [] s = s
  try_candidates deeper i chosen cost ((j, others) ∷ more) s =
      try_candidates deeper i chosen cost more
        (deeper others (chosen ++ (paired i j ∷ [])) (add_cost cost (edge i j)) s)

  abbrev pub bye_cost : ℕ → Entry → Cost
  bye_cost n i = record no_cost {
    byes = 1;
    repeated_byes = if i.1.received_bye then 1 else 0;
    bye_rank = n - i.0;
  }

  -- A bye for `i`; `n` is the size of the pool.
  unfoldable pub try_bye : ℕ → Deeper → Entry → List Entry → List Choice → Cost → Found → Found
  unfolding add_cost
  try_bye n deeper i rest chosen cost s =
      if has_forbidden
      then deeper rest (chosen ++ (alone i ∷ [])) (add_cost cost (bye_cost n i)) s
      else s

  abbrev pub noted : List Entry → Cost → Found → Found
  noted free cost s = record s { prefixes = put same_key (key_of free) cost s.prefixes }

  -- Each call has fewer players left.
  unfoldable pub search : ℕ → ℕ → Deeper
  unfolding better is_pruned candidates try_candidates try_bye
  search n zero free chosen cost s = s
  search n (suc fuel) [] chosen cost s = better cost chosen s
  search n (suc fuel) (i ∷ rest) chosen cost s = elim (is_pruned (i ∷ rest) cost s) [
    | true ↦ s
    | false ↦
        try_bye n (search n fuel) i rest chosen cost (
          try_candidates (search n fuel) i chosen cost (candidates i rest)
            (noted (i ∷ rest) cost s))
  ]

-- The bye of an odd pool: the last player without one, or else the last one.
unfoldable pub last_without_bye :
    List PlayerStanding → Option (PlayerStanding × List PlayerStanding)
last_without_bye [] = none
last_without_bye (p ∷ ps) = elim (last_without_bye ps) [
  | some (q, others) ↦ some (q, p ∷ others)
  | none ↦ if p.received_bye then none else some (p, ps)
]

unfoldable pub last_of : PlayerStanding → List PlayerStanding → PlayerStanding × List PlayerStanding
last_of p [] = (p, [])
last_of p (q ∷ qs) = let (l, others) = last_of q qs in (l, p ∷ others)

unfoldable pub carve_bye : List PlayerStanding → Option (PlayerStanding × List PlayerStanding)
unfolding last_without_bye last_of
carve_bye [] = none
carve_bye (p ∷ ps) = elim (last_without_bye (p ∷ ps)) [
  | some found ↦ some found
  | none ↦ some (last_of p ps)
]

unfoldable pub numbered : ℕ → List PlayerStanding → List Entry
numbered i [] = []
numbered i (p ∷ ps) = (i, p) ∷ numbered (i + 1) ps

abbrev pub bye_of : PlayerStanding → Pairing
bye_of p = record { white_id = p.player_id; black_id = 0; is_bye = true }

abbrev pub game_of : PlayerStanding → PlayerStanding → Pairing
game_of a b =
    let (white, black) = assign_colors a b in
    record { white_id = white; black_id = black; is_bye = false }

-- The games, and the byes, which go to the tail.
unfoldable pub games : List Choice → List Pairing
unfolding assign_colors
games [] = []
games (paired a b ∷ cs) = game_of a.1 b.1 ∷ games cs
games (alone a ∷ cs) = games cs

unfoldable pub byes : List Choice → List Pairing
byes [] = []
byes (paired a b ∷ cs) = byes cs
byes (alone a ∷ cs) = bye_of a.1 ∷ byes cs

abbrev pub chosen_of : Option (Cost × List Choice) → List Choice
chosen_of none = []
chosen_of (some best) = best.1

-- The choices for a pool.
unfoldable pub match_pool : List PlayerPair → List PlayerPair → List PlayerStanding → List Choice
unfolding search numbered
match_pool played forbidden pool =
    let n = length pool in
    chosen_of (search played forbidden n (n + 1) (numbered 0 pool) [] no_cost nothing_found).best

abbrev pub round_of : List Pairing → List Choice → List Pairing
round_of tail chosen = games chosen ++ (tail ++ byes chosen)

-- The pool in the order of the seeds.
unfoldable pub pool_of : List PlayerStanding → List PlayerStanding
unfolding sort_by higher_seed
pool_of standings = sort_by higher_seed (select (λ p. not p.withdrawn) standings)

unfoldable pub pair_swiss_round :
    List PlayerStanding → List PlayerPair → List PlayerPair → List Pairing
unfolding carve_bye match_pool pool_of games byes
pair_swiss_round standings played forbidden =
    let pool = pool_of standings in
    elim (length pool % 2 == 1 && length forbidden == 0) [
      | false ↦ round_of [] (match_pool played forbidden pool)
      | true ↦ elim (carve_bye pool) [
        | none ↦ []
        | some (p, others) ↦ round_of (bye_of p ∷ []) (match_pool played forbidden others)
      ]
    ]
