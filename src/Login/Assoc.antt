-- ===== src/Login/Assoc.antt =====
-- A dict whose keys are texts, as an association list.
use rawrz.Prelude.{
  ◌≡◌, refl, false, Option, none, some, List, [], ◌∷◌, String, arith, if◌then◌else◌, ◌==◌,
  string_eq,
}

abbrev pub Table {ℓ} : Type ℓ → Type ℓ
Table A = List (String × A)

module _ {ℓ} {A : Type ℓ} where
  -- `table.get(key)`
  unfoldable pub find : String → Table A → Option A
  find k [] = none
  find k ((j, a) ∷ rest) = if k == j then some a else find k rest

  -- `table[key] = value`
  unfoldable pub assign : String → A → Table A → Table A
  assign k a [] = (k, a) ∷ []
  assign k a ((j, b) ∷ rest) =
      let others = assign k a rest in if k == j then (j, a) ∷ rest else (j, b) ∷ others

  -- `del table[key]`, of a dict, which has a key once at most.
  unfoldable pub remove : String → Table A → Table A
  remove k [] = []
  remove k ((j, b) ∷ rest) =
      let others = remove k rest in if k == j then others else (j, b) ∷ others

  pub find-assign : (k : String) (a : A) (t : Table A) → find k (assign k a t) ≡ some a
  unfolding find assign
  find-assign k a [] = ground arith
  find-assign k a ((j, b) ∷ rest) = ground (arith, find-assign k a rest)

  -- Another key keeps what it has.
  pub find-assign_other :
      (i k : String) (a : A) (t : Table A) → (i == k) ≡ false → find i (assign k a t) ≡ find i t
  unfolding find assign
  find-assign_other i k a [] h = ground (arith, h)
  find-assign_other i k a ((j, b) ∷ rest) h = ground (arith, h, find-assign_other i k a rest h)

  pub find-remove_other :
      (i k : String) (t : Table A) → (i == k) ≡ false → find i (remove k t) ≡ find i t
  unfolding find remove
  find-remove_other i k [] h = ground arith
  find-remove_other i k ((j, b) ∷ rest) h = ground (arith, h, find-remove_other i k rest h)

  pub find-remove : (k : String) (t : Table A) → find k (remove k t) ≡ none
  unfolding find remove
  find-remove k [] = refl
  find-remove k ((j, b) ∷ rest) = ground (arith, find-remove k rest)
