-- ===== src/Base/Dict.antt =====
-- Maps and sets as association lists, over any test of equality of the keys.
use mathlib.Core.Path.{◌≡◌, refl}
use mathlib.Core.Bool.{Bool, true, false, ◌||◌}
use mathlib.Core.Option.{Option, none, some}
use mathlib.Core.List.{List, [], ◌∷◌}
use native.Mathlib.Omega.{arith}
use chess_engine.Base.Tests.{if◌then◌else◌}

module _ {K : Type 0} (same : K → K → Bool) where
  -- Two keys that no third one equals both.
  abbrev pub Apart : K → K → Type 0
  Apart k i = (j : K) → same j k ≡ true → same j i ≡ false

module _ {K V : Type 0} (same : K → K → Bool) where
  unfoldable pub find : K → List (K × V) → Option V
  find k [] = none
  find k ((j, v) ∷ dict) = if same j k then some v else find k dict

  -- `dict[k] = v`.
  unfoldable pub put : K → V → List (K × V) → List (K × V)
  put k v [] = (k, v) ∷ []
  put k v ((j, w) ∷ dict) =
      let rest = put k v dict in if same j k then (j, v) ∷ dict else (j, w) ∷ rest

  -- All entries of the key: a map has one at most.
  unfoldable pub erase : K → List (K × V) → List (K × V)
  erase k [] = []
  erase k ((j, w) ∷ dict) = let rest = erase k dict in if same j k then rest else (j, w) ∷ rest

  -- The entry that `find` meets.
  unfoldable pub erase_found : K → List (K × V) → List (K × V)
  erase_found k [] = []
  erase_found k ((j, w) ∷ dict) =
      let rest = erase_found k dict in if same j k then dict else (j, w) ∷ rest

  abbrev pub has_key : K → List (K × V) → Bool
  has_key k [] = false
  has_key k ((j, v) ∷ dict) = same j k || has_key k dict

  pub find-none : (k : K) (dict : List (K × V)) → has_key k dict ≡ false → find k dict ≡ none
  unfolding find
  find-none k [] h = refl
  find-none k ((j, v) ∷ dict) h = ground (arith, h, find-none k dict)

  pub erase-absent : (k : K) (dict : List (K × V)) → has_key k dict ≡ false → erase k dict ≡ dict
  unfolding erase
  erase-absent k [] h = refl
  erase-absent k ((j, v) ∷ dict) h = ground (arith, h, erase-absent k dict)

  pub erase-put :
      (k : K) (v : V) (dict : List (K × V))
      → same k k ≡ true
      → has_key k dict ≡ false
      → erase k (put k v dict) ≡ dict
  unfolding erase put
  erase-put k v [] r h = ground (arith, r)
  erase-put k v ((j, w) ∷ dict) r h = ground (arith, r, h, erase-put k v dict)

  pub find-put_self :
      (k : K) (v : V) (dict : List (K × V)) → same k k ≡ true → find k (put k v dict) ≡ some v
  unfolding find put
  find-put_self k v [] r = ground (arith, r)
  find-put_self k v ((j, w) ∷ dict) r = ground (arith, r, find-put_self k v dict)

  pub find-put_other :
      (k i : K) (v : V) (dict : List (K × V))
      → same k i ≡ false
      → Apart same k i
      → find i (put k v dict) ≡ find i dict
  unfolding find put
  find-put_other k i v [] ne apart = ground (arith, ne)
  find-put_other k i v ((j, w) ∷ dict) ne apart =
      ground (arith, ne, apart j, find-put_other k i v dict ne apart)

  pub find-erase_other :
      (k i : K) (dict : List (K × V)) → Apart same k i → find i (erase k dict) ≡ find i dict
  unfolding find erase
  find-erase_other k i [] apart = refl
  find-erase_other k i ((j, w) ∷ dict) apart =
      ground (arith, apart j, find-erase_other k i dict apart)

  pub find-erase_self : (k : K) (dict : List (K × V)) → find k (erase k dict) ≡ none
  unfolding find erase
  find-erase_self k [] = refl
  find-erase_self k ((j, w) ∷ dict) = ground (arith, find-erase_self k dict)

  pub find-erase_found :
      (k i : K) (dict : List (K × V)) → Apart same k i → find i (erase_found k dict) ≡ find i dict
  unfolding find erase_found
  find-erase_found k i [] apart = refl
  find-erase_found k i ((j, w) ∷ dict) apart =
      ground (arith, apart j, find-erase_found k i dict apart)
