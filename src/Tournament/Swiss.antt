-- ===== src/Tournament/Swiss.antt =====
-- The pairing of a Swiss round (src/tournament/swiss.h, src/tournament/swiss.cpp).
-- A score is counted in half points, and ratings are numbers: no rating is negative.
use chess_engine.Base.{ℕ, ◌+◌, ◌-◌, Bool, true, false, ◌&&◌, ◌||◌, not, ltb, leb}
use chess_engine.Base.{if◌then◌else◌, Option, none, List, [], ◌∷◌, map, ◌==◌}

pub record PlayerStanding : Type 0 where
  pub player_id : ℕ
  pub elo : ℕ
  pub score : ℕ
  pub whites_played : ℕ
  pub received_bye : Bool
  pub withdrawn : Bool

pub record Pairing : Type 0 where
  pub white_id : ℕ
  pub black_id : ℕ
  pub is_bye : Bool

pub record PlayerPair : Type 0 where
  pub lo : ℕ
  pub hi : ℕ

abbrev pub player_pair : ℕ → ℕ → PlayerPair
player_pair a b = if leb a b then record { lo = a; hi = b } else record { lo = b; hi = a }

-- `set::count` of a pair.
abbrev pub has_pair : PlayerPair → List PlayerPair → Bool
has_pair p [] = false
has_pair p (q ∷ qs) = q.lo == p.lo && q.hi == p.hi || has_pair p qs

abbrev pub have_played : List PlayerPair → ℕ → ℕ → Bool
have_played played a b = has_pair (player_pair a b) played

unfoldable pub higher_seed : PlayerStanding → PlayerStanding → Bool
higher_seed a b =
    if not (a.score == b.score)
    then ltb b.score a.score
    else if not (a.elo == b.elo)
    then ltb b.elo a.elo
    else ltb a.player_id b.player_id

unfoldable pub assign_colors : PlayerStanding → PlayerStanding → ℕ × ℕ
unfolding higher_seed
assign_colors a b =
    if ltb a.whites_played b.whites_played
    then (a.player_id, b.player_id)
    else if ltb b.whites_played a.whites_played
    then (b.player_id, a.player_id)
    else if higher_seed a b
    then (a.player_id, b.player_id)
    else (b.player_id, a.player_id)

-- A player of the sorted pool, with the index there.
abbrev pub Entry : Type 0
Entry = ℕ × PlayerStanding

pub record Cost : Type 0 where
  pub rematches : ℕ
  pub rating_gap : ℕ
  pub score_gap : ℕ
  pub byes : ℕ
  pub repeated_byes : ℕ
  pub bye_rank : ℕ

abbrev pub no_cost : Cost
no_cost = record {
  rematches = 0;
  rating_gap = 0;
  score_gap = 0;
  byes = 0;
  repeated_byes = 0;
  bye_rank = 0;
}

-- The order of `std::tie`.
abbrev lex_less : List (ℕ × ℕ) → Bool
lex_less [] = false
lex_less ((x, y) ∷ rest) = ltb x y || x == y && lex_less rest

unfoldable pub cost_less : Cost → Cost → Bool
cost_less c d = lex_less (
    (c.byes, d.byes)
    ∷ (c.repeated_byes, d.repeated_byes)
    ∷ (c.bye_rank, d.bye_rank)
    ∷ (c.rematches, d.rematches)
    ∷ (c.rating_gap, d.rating_gap)
    ∷ (c.score_gap, d.score_gap)
    ∷ [])

unfoldable pub add_cost : Cost → Cost → Cost
add_cost c d = record {
  rematches = c.rematches + d.rematches;
  rating_gap = c.rating_gap + d.rating_gap;
  score_gap = c.score_gap + d.score_gap;
  byes = c.byes + d.byes;
  repeated_byes = c.repeated_byes + d.repeated_byes;
  bye_rank = c.bye_rank + d.bye_rank;
}

abbrev pub gap : ℕ → ℕ → ℕ
gap a b = a - b + (b - a)

-- `chosen`: two players, or one that is paired with itself, for a bye.
pub data Choice : Type 0 where
  paired : Entry → Entry → Choice
  alone : Entry → Choice

-- The best round so far, and the cheapest way to each set of players left.
pub record Found : Type 0 where
  pub best : Option (Cost × List Choice)
  pub prefixes : List (List ℕ × Cost)

abbrev pub nothing_found : Found
nothing_found = record { best = none; prefixes = [] }

-- Each element with the others, in order.
unfoldable pub splits : List Entry → List (Entry × List Entry)
splits [] = []
splits (e ∷ es) = (e, es) ∷ map (λ s. (s.0, e ∷ s.1)) (splits es)

-- `key`: the players that are not taken.
abbrev pub key_of : List Entry → List ℕ
key_of [] = []
key_of (e ∷ es) = e.0 ∷ key_of es

abbrev pub same_key : List ℕ → List ℕ → Bool
same_key [] [] = true
same_key (x ∷ xs) (y ∷ ys) = x == y && same_key xs ys
same_key _ _ = false

-- The gaps between neighbours that are paired off in a sorted list.
abbrev pub neighbour_gaps : List ℕ → ℕ
neighbour_gaps (x ∷ y ∷ rest) = y - x + neighbour_gaps rest
neighbour_gaps _ = 0
