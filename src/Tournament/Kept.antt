-- ===== src/Tournament/Kept.antt =====
-- What the search for a round keeps (src/tournament/swiss.cpp): the sum of any weight over the players
-- left and the choices made, and that no choice is forbidden.
use chess_engine.Base.{ℕ, ◌+◌, ◌≡◌, refl, arith, Bool, true, false, not}
use chess_engine.Base.{Option, none, some, List, [], ◌∷◌, ◌++◌, map, Bool-cases}
use chess_engine.Base.{inl, inr}
use chess_engine.Base.Lists.{select, All}
use chess_engine.Base.Sort.{sort_by-All}
use chess_engine.Tournament.Swiss.{PlayerStanding, PlayerPair, Entry, Cost, cost_less, Choice}
use chess_engine.Tournament.Swiss.{paired, alone, Found, splits}
use chess_engine.Tournament.Matching.{edge, is_forbidden, has_forbidden, candidates, Deeper}

module _ {A : Type 0} where
  pub select-All : (P : A → Type 0) (q : A → Bool) (xs : List A) → All P xs → All P (select q xs)
  unfolding select
  select-All P q [] h = tt
  select-All P q (x ∷ xs) h = elim (Bool-cases (q x)) [
    | inl e ↦ rw (e, All) (h.0, select-All P q xs h.1)
    | inr e ↦ rw (e, All) (select-All P q xs h.1)
  ]

  pub select-IsSelected : (q : A → Bool) (xs : List A) → All (λ x. q x ≡ true) (select q xs)
  unfolding select
  select-IsSelected q [] = tt
  select-IsSelected q (x ∷ xs) = elim (Bool-cases (q x)) [
    | inl e ↦ rw (e, All) (e, select-IsSelected q xs)
    | inr e ↦ rw (e, All) (select-IsSelected q xs)
  ]

  pub All-both : (P Q : A → Type 0) (xs : List A) → All P xs → All Q xs → All (λ x. P x × Q x) xs
  All-both P Q [] p q = tt
  All-both P Q (x ∷ xs) p q = ((p.0, q.0), All-both P Q xs p.1 q.1)

module _ (weight : PlayerStanding → ℕ) where
  unfoldable pub left : List Entry → ℕ
  left [] = 0
  left (e ∷ es) = weight e.1 + left es

  unfoldable pub made : List Choice → ℕ
  made [] = 0
  made (paired a b ∷ cs) = weight a.1 + weight b.1 + made cs
  made (alone a ∷ cs) = weight a.1 + made cs

  pub made-append :
      (cs : List Choice) (c : Choice) → made (cs ++ (c ∷ [])) ≡ made cs + made (c ∷ [])
  unfolding made
  made-append [] (paired a b) = omega arith
  made-append [] (alone a) = omega arith
  made-append (paired a b ∷ cs) c = ground (arith, made-append cs c)
  made-append (alone a ∷ cs) c = ground (arith, made-append cs c)

  abbrev pub IsSplit : List Entry → Entry × List Entry → Type 0
  IsSplit es s = weight s.0.1 + left s.1 ≡ left es

  put_back :
      (e : Entry) (es : List Entry) (ss : List (Entry × List Entry))
      → All (IsSplit es) ss
      → All (IsSplit (e ∷ es)) (map (λ s. (s.0, e ∷ s.1)) ss)
  unfolding left
  put_back e es [] h = tt
  put_back e es (s ∷ ss) h = (ground (arith, h.0), put_back e es ss h.1)

  pub splits-IsSplit : (es : List Entry) → All (IsSplit es) (splits es)
  unfolding splits left
  splits-IsSplit [] = tt
  splits-IsSplit (e ∷ es) = (refl, put_back e es (splits es) (splits-IsSplit es))

  module _ (played forbidden : List PlayerPair) (sum : ℕ) where
    abbrev pub IsAllowed : Choice → Type 0
    IsAllowed (paired a b) = is_forbidden played forbidden a b ≡ false
    IsAllowed (alone a) = has_forbidden played forbidden ≡ true

    abbrev pub IsCandidate : Entry → List Entry → Entry × List Entry → Type 0
    IsCandidate i rest s = IsSplit rest s × (is_forbidden played forbidden i s.0 ≡ false)

    pub candidates-IsCandidate :
        (i : Entry) (rest : List Entry)
        → All (IsCandidate i rest) (candidates played forbidden i rest)
    unfolding candidates
    candidates-IsCandidate i rest =
        let allowed : Entry × List Entry → Bool = λ s. not (is_forbidden played forbidden i s.0) in
        let less : Entry × List Entry → Entry × List Entry → Bool =
          λ s t. cost_less (edge played forbidden i s.0) (edge played forbidden i t.0) in
        sort_by-All less (IsCandidate i rest) (select allowed (splits rest)) (
          All-both (IsSplit rest) (λ s. is_forbidden played forbidden i s.0 ≡ false)
            (select allowed (splits rest))
            (select-All (IsSplit rest) allowed (splits rest) (splits-IsSplit rest))
            (not_forbidden i (select allowed (splits rest))
              (select-IsSelected allowed (splits rest))))
      where
        not_forbidden :
            (i : Entry) (ss : List (Entry × List Entry))
            → All (λ s. not (is_forbidden played forbidden i s.0) ≡ true) ss
            → All (λ s. is_forbidden played forbidden i s.0 ≡ false) ss
        not_forbidden i [] h = tt
        not_forbidden i (s ∷ ss) h = (ground (arith, h.0), not_forbidden i ss h.1)

    -- The sum over the players left and the choices, and the choices' legality.
    abbrev pub Kept : List Entry → List Choice → Type 0
    Kept free chosen = (left free + made chosen ≡ sum) × All IsAllowed chosen

    abbrev pub IsKept : Option (Cost × List Choice) → Type 0
    IsKept none = Unit
    IsKept (some best) = Kept [] best.1

    abbrev pub BestKept : Found → Type 0
    BestKept s = IsKept s.best

    abbrev pub Keeps : Deeper played forbidden → Type 0
    Keeps deeper =
        (free : List Entry) (chosen : List Choice) (cost : Cost) (s : Found)
        → Kept free chosen
        → BestKept s
        → BestKept (deeper free chosen cost s)
