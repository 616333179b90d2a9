-- ===== src/Prelude/Reflects.antt =====
-- A Boolean test and the proposition that it decides.
use mathlib.Core.Path.{◌≡◌, refl, sym}
use mathlib.Core.Logic.{◌⊎◌, inl, inr, ite}
use mathlib.Core.Bool.{Bool, true, false, not, ◌&&◌, ◌||◌, false≢true}
use mathlib.Core.List.{List, [], ◌∷◌}
use rawrz.Prelude.Tests.{if◌then◌else◌}
use rawrz.Prelude.Lists.{keep, any}
use rawrz.Prelude.Equality.{Eq, ◌==◌, contains, IsIn, contains-IsIn, contains-other}

-- The test says whether `P` holds.
pub data Reflects (P : Type 0) : Bool → Type 0 where
  holds : P → Reflects P true
  fails : ¬ P → Reflects P false

module _ {P Q : Type 0} where
  pub and-Reflects : {a b : Bool} → Reflects P a → Reflects Q b → Reflects (P × Q) (a && b)
  and-Reflects (holds p) (holds q) = holds (p, q)
  and-Reflects (holds p) (fails q) = fails (λ k. q k.1)
  and-Reflects (fails p) q = fails (λ k. p k.0)

  pub or-Reflects : {a b : Bool} → Reflects P a → Reflects Q b → Reflects (P ⊎ Q) (a || b)
  or-Reflects (holds p) q = holds (inl p)
  or-Reflects (fails p) (holds q) = holds (inr q)
  or-Reflects (fails p) (fails q) = fails (elim [ inl k ↦ p k | inr k ↦ q k ])

  -- The two ways of a test.
  pub if-Reflects :
      (c : Bool) {a b : Bool}
      → Reflects P a
      → Reflects Q b
      → Reflects (((c ≡ true) × P) ⊎ ((c ≡ false) × Q)) (if c then a else b)
  if-Reflects true (holds p) q = holds (inl (refl, p))
  if-Reflects true (fails p) q = fails (elim [ inl k ↦ p k.1 | inr k ↦ false≢true (sym k.0) ])
  if-Reflects false p (holds q) = holds (inr (refl, q))
  if-Reflects false p (fails q) = fails (elim [ inl k ↦ false≢true k.0 | inr k ↦ q k.1 ])

  pub same-Reflects : {b : Bool} → (P → Q) → (Q → P) → Reflects P b → Reflects Q b
  same-Reflects f g (holds p) = holds (f p)
  same-Reflects f g (fails p) = fails (λ q. p (g q))

module _ {P : Type 0} where
  pub not-Reflects : {a : Bool} → Reflects P a → Reflects (¬ P) (not a)
  not-Reflects (holds p) = fails (λ n. n p)
  not-Reflects (fails p) = holds p

  of_cases : (b : Bool) → (b ≡ true → P) → (b ≡ false → ¬ P) → Reflects P b
  of_cases true f g = holds (f refl)
  of_cases false f g = fails (g refl)

eq_dec : {A : Type 0} {a b : A} (d : Dec (a ≡ b)) → Reflects (a ≡ b) (ite d true false)
eq_dec (yes e) = holds e
eq_dec (no n) = fails n

pub eq-Reflects : {A : Type 0} ⦃e : Eq A⦄ (a b : A) → Reflects (a ≡ b) (a == b)
eq-Reflects ⦃e⦄ a b = eq_dec (e.dec a b)

pub contains-Reflects :
    {A : Type 0} ⦃e : Eq A⦄ (xs : List A) (a : A) → Reflects (IsIn xs a) (contains xs a)
contains-Reflects xs a = of_cases (contains xs a) (contains-IsIn xs a) (contains-other xs a)

-- An element of the list for which `P` holds.
abbrev pub Some : {A : Type 0} → (A → Type 0) → List A → Type 0
Some P [] = ⊥
Some P (x ∷ xs) = P x ⊎ Some P xs

-- The elements for which `P` holds, in order.
abbrev pub Picks : {A : Type 0} → (A → Type 0) → List A → List A → Type 0
Picks P [] ys = ys ≡ []
Picks P (x ∷ xs) ys =
    (P x × (rest : List _) × (ys ≡ x ∷ rest) × Picks P xs rest) ⊎ (¬ P x × Picks P xs ys)

module _ {A : Type 0} (p : A → Bool) (P : A → Type 0) (h : (a : A) → Reflects (P a) (p a)) where
  pub any-Reflects : (xs : List A) → Reflects (Some P xs) (any p xs)
  any-Reflects [] = fails (λ k. elim k [ ])
  any-Reflects (x ∷ xs) = or-Reflects (h x) (any-Reflects xs)

  keep_step :
      (b : Bool) (x : A) (xs : List A)
      → Reflects (P x) b
      → Picks P xs (keep p xs)
      → Picks P (x ∷ xs) (if b then x ∷ keep p xs else keep p xs)
  keep_step true x xs (holds r) k = inl (r, _, refl, k)
  keep_step false x xs (fails r) k = inr (r, k)

  pub keep-Picks : (xs : List A) → Picks P xs (keep p xs)
  keep-Picks [] = refl
  keep-Picks (x ∷ xs) = keep_step (p x) x xs (h x) (keep-Picks xs)
