-- ===== src/Tests/Tournament.antt =====
-- A Swiss round of five players (src/tournament/swiss.cpp).
use chess_engine.Base.Dict.{put}
use chess_engine.Base.Dict.{find}
use chess_engine.Base.{ℕ, ◌≡◌, refl, true, false, not, List, [], ◌∷◌}
use chess_engine.Base.Lists.{All, select}
use chess_engine.Base.Sort.{weigh}
use chess_engine.Tournament.Swiss.{PlayerStanding, PlayerPair, player_pair}
use chess_engine.Tournament.Matching.{pair_swiss_round}
use chess_engine.Tournament.Round.{seats, is_player}
use chess_engine.Tournament.RoundLaws.{
  pair_swiss_round-once, pair_swiss_round-IsPermitted, IsPermitted,
}

abbrev standing : ℕ → ℕ → ℕ → PlayerStanding
standing id elo score = record {
  player_id = id;
  elo = elo;
  score = score;
  whites_played = 0;
  received_bye = false;
  withdrawn = false;
}

-- The fifth has withdrawn, the fourth is the last.
abbrev five : List PlayerStanding
five =
    standing 1 1500 2
    ∷ standing 2 1450 2
    ∷ standing 3 1400 1
    ∷ standing 4 1350 0
    ∷ record (standing 5 1300 2) { withdrawn = true }
    ∷ []

abbrev met : List PlayerPair
met = player_pair 1 2 ∷ []

abbrev barred : List PlayerPair
barred = player_pair 3 4 ∷ []

abbrev three : List PlayerStanding
three = standing 1 1500 2 ∷ standing 2 1450 2 ∷ standing 3 1400 1 ∷ []

round_test :
    pair_swiss_round three [] []
    ≡ record { white_id = 1; black_id = 2; is_bye = false }
      ∷ record { white_id = 3; black_id = 0; is_bye = true }
      ∷ []
unfolding pair_swiss_round select find
round_test = refl

rematch_test :
    pair_swiss_round five met []
    ≡ record { white_id = 1; black_id = 3; is_bye = false }
      ∷ record { white_id = 2; black_id = 4; is_bye = false }
      ∷ []
unfolding pair_swiss_round select find put
rematch_test = refl

pair_swiss_round-once_example :
    weigh (seats 3) (pair_swiss_round five met barred)
    ≡ weigh (is_player 3) (select (λ p. not p.withdrawn) five)
pair_swiss_round-once_example = pair_swiss_round-once five met barred 3

pair_swiss_round-IsPermitted_example : All (IsPermitted barred) (pair_swiss_round five met barred)
pair_swiss_round-IsPermitted_example = pair_swiss_round-IsPermitted five met barred
