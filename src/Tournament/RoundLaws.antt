-- ===== src/Tournament/RoundLaws.antt =====
-- The promises of a Swiss round, for the whole of `pair_swiss_round` (src/tournament/swiss.cpp).
use chess_engine.Base.{ℕ, ◌+◌, ◌%◌, ◌≡◌, refl, arith, false, ◌∙◌}
use chess_engine.Base.{Option, none, some, List, [], ◌∷◌, ◌++◌, Bool-cases, ◌&&◌, ◌==◌}
use chess_engine.Base.{Option-cases, inl, inr, not, subst, ltb, ap}
use chess_engine.Base.Lists.{length, All, All-append, select}
use chess_engine.Base.Sort.{weigh, weigh-sort_by}
use chess_engine.Tournament.Swiss.{PlayerStanding, PlayerPair, Pairing, Choice, paired}
use chess_engine.Tournament.Swiss.{alone, has_pair, player_pair, assign_colors, higher_seed}
use chess_engine.Tournament.Matching.{match_pool, numbered, games, byes, round_of}
use chess_engine.Tournament.Matching.{
  bye_of, game_of, carve_bye, last_without_bye, last_of, pool_of,
}
use chess_engine.Tournament.Matching.{pair_swiss_round}
use chess_engine.Tournament.Kept.{left, IsAllowed}
use chess_engine.Tournament.FirstRound.{CanFinish}
use chess_engine.Tournament.Round.{
  is_player, seats, match_pool-Kept, weigh-round_of, length-numbered,
}

-- A player and the others make up the pool.
abbrev IsCarved :
    (PlayerStanding → ℕ)
    → List PlayerStanding
    → Option (PlayerStanding × List PlayerStanding)
    → Type 0
IsCarved weight pool none = Unit
IsCarved weight pool (some (p, others)) = weight p + weigh weight others ≡ weigh weight pool

last_without_bye-IsCarved :
    (weight : PlayerStanding → ℕ) (ps : List PlayerStanding)
    → IsCarved weight ps (last_without_bye ps)
unfolding last_without_bye weigh
last_without_bye-IsCarved weight [] = tt
last_without_bye-IsCarved weight (p ∷ ps) =
    let rest = last_without_bye-IsCarved weight ps in
    elim (Option-cases (last_without_bye ps)) [
      | inl e ↦ elim (Bool-cases p.received_bye) [
        | inl had ↦ rw (e, had, last_without_bye) tt
        | inr fresh ↦ rw (e, fresh, last_without_bye) refl
      ]
      | inr ((q, others), e) ↦
          let known : weight q + weigh weight others ≡ weigh weight ps =
            subst (IsCarved weight ps) e rest in
          rw (e, last_without_bye) (ground (arith, known))
    ]

last_of-weigh :
    (weight : PlayerStanding → ℕ) (p : PlayerStanding) (ps : List PlayerStanding)
    → weight (last_of p ps).0 + weigh weight (last_of p ps).1 ≡ weight p + weigh weight ps
unfolding last_of weigh
last_of-weigh weight p [] = refl
last_of-weigh weight p (q ∷ qs) = ground (arith, last_of-weigh weight q qs)

carve_bye-IsCarved :
    (weight : PlayerStanding → ℕ) (pool : List PlayerStanding)
    → IsCarved weight pool (carve_bye pool)
unfolding carve_bye weigh
carve_bye-IsCarved weight [] = tt
carve_bye-IsCarved weight (p ∷ ps) = elim (Option-cases (last_without_bye (p ∷ ps))) [
  | inl e ↦ rw (e, carve_bye) (last_of-weigh weight p ps)
  | inr (found, e) ↦
      rw (e, carve_bye)
        (subst (IsCarved weight (p ∷ ps)) e (last_without_bye-IsCarved weight (p ∷ ps)))
]

carve_bye-found :
    (pool : List PlayerStanding)
    → length pool % 2 ≡ 1
    → (found : PlayerStanding × List PlayerStanding) × (carve_bye pool ≡ some found)
unfolding carve_bye
carve_bye-found [] h = absurd (omega arith)
carve_bye-found (p ∷ ps) h = elim (Option-cases (last_without_bye (p ∷ ps))) [
  | inl e ↦ rw (e, carve_bye) (last_of p ps, refl)
  | inr (found, e) ↦ rw (e, carve_bye) (found, refl)
]

weigh-length : (ps : List PlayerStanding) → weigh (λ _. 1) ps ≡ length ps
unfolding weigh
weigh-length [] = refl
weigh-length (p ∷ ps) = ground (arith, weigh-length ps)

-- What a round is: the choices for the pool, or for the others beside the bye.
pub data IsRound (played forbidden : List PlayerPair) (pool : List PlayerStanding)
    : List Pairing → Type 0 where
  without_bye :
      CanFinish played forbidden (numbered 0 pool)
      → IsRound played forbidden pool (round_of [] (match_pool played forbidden pool))
  with_bye :
      (p : PlayerStanding) (others : List PlayerStanding)
      → CanFinish played forbidden (numbered 0 others)
      → carve_bye pool ≡ some (p, others)
      → IsRound played forbidden pool
          (round_of (bye_of p ∷ []) (match_pool played forbidden others))

pair_swiss_round-IsRound :
    (standings : List PlayerStanding) (played forbidden : List PlayerPair)
    → IsRound played forbidden (pool_of standings) (pair_swiss_round standings played forbidden)
unfolding pair_swiss_round
pair_swiss_round-IsRound standings played forbidden =
    let pool = pool_of standings in
    let same = length-numbered 0 pool in
    elim (Bool-cases (length pool % 2 == 1 && length forbidden == 0)) [
      | inl odd ↦
          let ((p, others), e) = carve_bye-found pool (ground (arith, odd)) in
          let parts : 1 + weigh (λ _. 1) others ≡ weigh (λ _. 1) pool =
            subst (IsCarved (λ _. 1) pool) e (carve_bye-IsCarved (λ _. 1) pool) in
          let even : length (numbered 0 others) % 2 ≡ 0 =
            ground (
              arith,
              odd,
              parts,
              weigh-length others,
              weigh-length pool,
              length-numbered 0 others,
            ) in
          rw (odd, e, pair_swiss_round) (with_bye p others (inr even) e)
      | inr other ↦
          let can : CanFinish played forbidden (numbered 0 pool) =
            elim (Bool-cases (length forbidden == 0)) [
              | inl none_forbidden ↦ inr (ground (arith, other, none_forbidden, same))
              | inr some_forbidden ↦ inl (ground (arith, some_forbidden))
            ] in
          rw (other, pair_swiss_round) (without_bye can)
    ]

round-once :
    (x : ℕ) (played forbidden : List PlayerPair) (pool : List PlayerStanding) (r : List Pairing)
    → IsRound played forbidden pool r
    → weigh (seats x) r ≡ weigh (is_player x) pool
unfolding weigh left seats
round-once x played forbidden pool r (without_bye can) =
    let chosen = match_pool played forbidden pool in
    let kept = match_pool-Kept played forbidden (is_player x) pool can in
    ground (arith, weigh-round_of x [] chosen, kept.0)
round-once x played forbidden pool r (with_bye p others can e) =
    let chosen = match_pool played forbidden others in
    let kept = match_pool-Kept played forbidden (is_player x) others can in
    let parts : is_player x p + weigh (is_player x) others ≡ weigh (is_player x) pool =
      subst (IsCarved (is_player x) pool) e (carve_bye-IsCarved (is_player x) pool) in
    ground (arith, weigh-round_of x (bye_of p ∷ []) chosen, kept.0, parts)

-- In a round a player who has not withdrawn has one seat for each time that they stand in the
-- standings, in a game or with a bye; and no one else has a seat.
pub pair_swiss_round-once :
    (standings : List PlayerStanding) (played forbidden : List PlayerPair) (player_id : ℕ)
    → weigh (seats player_id) (pair_swiss_round standings played forbidden)
      ≡ weigh (is_player player_id) (select (λ p. not p.withdrawn) standings)
unfolding pool_of
pair_swiss_round-once standings played forbidden player_id =
    round-once player_id played forbidden (pool_of standings)
      (pair_swiss_round standings played forbidden)
      (pair_swiss_round-IsRound standings played forbidden)
    ∙ weigh-sort_by higher_seed (is_player player_id) (select (λ p. not p.withdrawn) standings)

-- A game of two players who may meet.
abbrev pub IsPermitted : List PlayerPair → Pairing → Type 0
IsPermitted forbidden p =
    p.is_bye ≡ false → has_pair (player_pair p.white_id p.black_id) forbidden ≡ false

player_pair_comm : (a b : ℕ) → player_pair a b ≡ player_pair b a
player_pair_comm a b = ground arith

player_pair-assign_colors :
    (a b : PlayerStanding)
    → player_pair (assign_colors a b).0 (assign_colors a b).1 ≡ player_pair a.player_id b.player_id
unfolding assign_colors
player_pair-assign_colors a b =
    let swapped = player_pair_comm b.player_id a.player_id in
    elim (Bool-cases (ltb a.whites_played b.whites_played)) [
      | inl fewer ↦ rw (fewer, assign_colors) refl
      | inr enough ↦ elim (Bool-cases (ltb b.whites_played a.whites_played)) [
        | inl more ↦ rw (enough, more, assign_colors) swapped
        | inr same ↦ elim (Bool-cases (higher_seed a b)) [
          | inl higher ↦ rw (enough, same, higher, assign_colors) refl
          | inr lower ↦ rw (enough, same, lower, assign_colors) swapped
        ]
      ]
    ]

game_of-IsPermitted :
    (forbidden : List PlayerPair) (a b : PlayerStanding)
    → has_pair (player_pair a.player_id b.player_id) forbidden ≡ false
    → IsPermitted forbidden (game_of a b)
game_of-IsPermitted forbidden a b h =
    λ _. ap (λ p. has_pair p forbidden) (player_pair-assign_colors a b) ∙ h

games-IsPermitted :
    (weight : PlayerStanding → ℕ) (played forbidden : List PlayerPair) (cs : List Choice)
    → All (IsAllowed weight played forbidden 0) cs
    → All (IsPermitted forbidden) (games cs)
unfolding games
games-IsPermitted weight played forbidden [] h = tt
games-IsPermitted weight played forbidden (paired a b ∷ cs) h =
    (game_of-IsPermitted forbidden a.1 b.1 h.0, games-IsPermitted weight played forbidden cs h.1)
games-IsPermitted weight played forbidden (alone a ∷ cs) h =
    games-IsPermitted weight played forbidden cs h.1

byes-IsPermitted :
    (forbidden : List PlayerPair) (cs : List Choice) → All (IsPermitted forbidden) (byes cs)
unfolding byes
byes-IsPermitted forbidden [] = tt
byes-IsPermitted forbidden (paired a b ∷ cs) = byes-IsPermitted forbidden cs
byes-IsPermitted forbidden (alone a ∷ cs) =
    ((λ e. ground (arith, e)), byes-IsPermitted forbidden cs)

round_of-IsPermitted :
    (weight : PlayerStanding → ℕ) (played forbidden : List PlayerPair) (tail : List Pairing)
    (cs : List Choice)
    → All (IsPermitted forbidden) tail
    → All (IsAllowed weight played forbidden 0) cs
    → All (IsPermitted forbidden) (round_of tail cs)
round_of-IsPermitted weight played forbidden tail cs ht hc =
    All-append (IsPermitted forbidden) (games cs) (tail ++ byes cs)
      (games-IsPermitted weight played forbidden cs hc)
      (All-append (IsPermitted forbidden) tail (byes cs) ht (byes-IsPermitted forbidden cs))

round-IsPermitted :
    (played forbidden : List PlayerPair) (pool : List PlayerStanding) (r : List Pairing)
    → IsRound played forbidden pool r
    → All (IsPermitted forbidden) r
round-IsPermitted played forbidden pool r (without_bye can) =
    round_of-IsPermitted (λ _. 0) played forbidden [] (match_pool played forbidden pool) tt
      (match_pool-Kept played forbidden (λ _. 0) pool can).1
round-IsPermitted played forbidden pool r (with_bye p others can e) =
    round_of-IsPermitted (λ _. 0) played forbidden (bye_of p ∷ [])
      (match_pool played forbidden others) ((λ e. ground (arith, e)), tt)
      (match_pool-Kept played forbidden (λ _. 0) others can).1

-- No game of a round is between two players who must not meet.
pub pair_swiss_round-IsPermitted :
    (standings : List PlayerStanding) (played forbidden : List PlayerPair)
    → All (IsPermitted forbidden) (pair_swiss_round standings played forbidden)
pair_swiss_round-IsPermitted standings played forbidden =
    round-IsPermitted played forbidden (pool_of standings)
      (pair_swiss_round standings played forbidden)
      (pair_swiss_round-IsRound standings played forbidden)
