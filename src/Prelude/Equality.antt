-- ===== src/Prelude/Equality.antt =====
-- Python's `==` and `in`, for every type whose equality can be decided.
use Prim.Native.Nat.{ℕ}
use Prim.Native.String.{String}
use native.Mathlib.Decide.{ℕ_discrete}
use mathlib.Core.Path.{◌≡◌, sym}
use mathlib.Core.Logic.{ite, dite, ◌⊎◌, inl, inr}
use mathlib.Core.Bool.{Bool, true, false, ◌||◌, Bool-discrete, false≢true}
use mathlib.Core.List.{List, [], ◌∷◌}
use text.Mathlib.Text
use text.Mathlib.TextEquality.{eq_iff}

pub record Eq {ℓ} (A : Type ℓ) : Type ℓ where
  pub dec : Discrete A

module _ {ℓ} {A : Type ℓ} ⦃e : Eq A⦄ where
  infix 50 ◌==◌
  abbrev pub ◌==◌ : A → A → Bool
  a == b = ite (e.dec a b) true false

  abbrev pub contains : List A → A → Bool
  contains [] a = false
  contains (x ∷ xs) a = a == x || contains xs a

module _ {A : Type 0} where
  abbrev pub IsIn : List A → A → Type 0
  IsIn [] a = ⊥
  IsIn (x ∷ xs) a = (a ≡ x) ⊎ IsIn xs a

  here_or :
      (x a : A) (xs : List A) (d : Dec (a ≡ x)) (b : Bool)
      → (b ≡ true → IsIn xs a)
      → (ite d true false || b) ≡ true
      → IsIn (x ∷ xs) a
  here_or x a xs (yes k) b rest h = inl k
  here_or x a xs (no n) b rest h = inr (rest h)

  neither :
      (x a : A) (xs : List A) (d : Dec (a ≡ x)) (b : Bool)
      → (b ≡ false → ¬ IsIn xs a)
      → (ite d true false || b) ≡ false
      → ¬ IsIn (x ∷ xs) a
  neither x a xs (yes k) b rest h m = false≢true (sym h)
  neither x a xs (no n) b rest h (inl m) = n m
  neither x a xs (no n) b rest h (inr m) = rest h m

module _ {A : Type 0} ⦃e : Eq A⦄ where
  pub contains-IsIn : (xs : List A) (a : A) → contains xs a ≡ true → IsIn xs a
  contains-IsIn [] a h = absurd (false≢true h)
  contains-IsIn (x ∷ xs) a h = here_or x a xs (e.dec a x) (contains xs a) (contains-IsIn xs a) h

  pub contains-other : (xs : List A) (a : A) → contains xs a ≡ false → ¬ IsIn xs a
  contains-other [] a h = λ k. elim k [ ]
  contains-other (x ∷ xs) a h = neither x a xs (e.dec a x) (contains xs a) (contains-other xs a) h

-- Shut in proofs, where a split on `s == t` yields the equation or its negation.
instance unfoldable pub string_eq : Eq String
string_eq = record {
  dec = λ s t.
      dite (Bool-discrete (Text.◌==◌ s t) true) (λ h. yes ((eq_iff s t).0 h))
        (λ h. no (λ e. h ((eq_iff s t).1 e)));
}

instance unfoldable pub nat_eq : Eq ℕ
unfolding ℕ_discrete
nat_eq = record { dec = ℕ_discrete }
