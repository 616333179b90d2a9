-- ===== src/Prelude/Lists.antt =====
-- Python lists, measured by the native numbers, and predicates over them.
use Prim.Native.Nat.{ℕ, zero, suc, ◌+◌, ◌≤◌, ◌<◌}
use mathlib.Core.Path.{◌≡◌, refl, sym, ap}
use mathlib.Core.Bool.{Bool, true, false, ◌&&◌, ◌||◌}
use mathlib.Core.List.{List, [], ◌∷◌, ◌++◌}
use native.Mathlib.Omega.{arith}
use native.Mathlib.Numerals.{unary_clauses}
use native.Mathlib.Nat.{add-zero}
use rawrz.Prelude.Tests.{if◌then◌else◌}

module _ {ℓ} {A : Type ℓ} where
  abbrev pub length : List A → ℕ
  length [] = 0
  length (x ∷ xs) = suc (length xs)

  abbrev pub take : ℕ → List A → List A
  take zero xs = []
  take (suc n) [] = []
  take (suc n) (x ∷ xs) = x ∷ take n xs

  abbrev pub drop : ℕ → List A → List A
  drop zero xs = xs
  drop (suc n) [] = []
  drop (suc n) (x ∷ xs) = drop n xs

  -- `any(p(x) for x in xs)`
  abbrev pub any : (A → Bool) → List A → Bool
  any p [] = false
  any p (x ∷ xs) = p x || any p xs

  -- `all(p(x) for x in xs)`
  abbrev pub all : (A → Bool) → List A → Bool
  all p [] = true
  all p (x ∷ xs) = p x && all p xs

  -- `[x for x in xs if p(x)]`
  abbrev pub keep : (A → Bool) → List A → List A
  keep p [] = []
  keep p (x ∷ xs) = if p x then x ∷ keep p xs else keep p xs

  -- `sum(1 for x in xs if p(x))`
  abbrev pub count_if : (A → Bool) → List A → ℕ
  count_if p [] = 0
  count_if p (x ∷ xs) = if p x then suc (count_if p xs) else count_if p xs

  -- `sum(f(x) for x in xs)`
  abbrev pub sum_of : (A → ℕ) → List A → ℕ
  sum_of f [] = 0
  sum_of f (x ∷ xs) = f x + sum_of f xs

  abbrev pub All {κ} : (A → Type κ) → List A → Type κ
  All P [] = Unit
  All P (x ∷ xs) = P x × All P xs

module _ {ℓ} {A : Type ℓ} where
  pub length-append : (xs ys : List A) → length (xs ++ ys) ≡ length xs + length ys
  length-append [] ys = omega arith
  length-append (x ∷ xs) ys = omega (arith, length-append xs ys)

  pub take-drop : (n : ℕ) (xs : List A) → take n xs ++ drop n xs ≡ xs
  take-drop zero xs = refl
  take-drop (suc n) [] = refl
  take-drop (suc n) (x ∷ xs) = rw (take-drop n xs)

  take-nil : (n : ℕ) → ◌≡◌ {A = List A} (take n []) []
  take-nil zero = refl
  take-nil (suc n) = refl

  pub take-add : (m n : ℕ) (xs : List A) → take (n + m) xs ≡ take m xs ++ take n (drop m xs)
  take-add zero n xs = simp (add-zero n) refl
  take-add (suc m) n [] = simp unary_clauses (sym (take-nil n))
  take-add (suc m) n (x ∷ xs) = simp unary_clauses (ap (λ l. x ∷ l) (take-add m n xs))

  pub short_take : (n : ℕ) (xs : List A) → length (take n xs) < n → drop n xs ≡ []
  short_take zero xs h = absurd (omega (arith, h))
  short_take (suc n) [] h = refl
  short_take (suc n) (x ∷ xs) h = short_take n xs (omega (arith, h))

  pub drop-drop : (m n : ℕ) (xs : List A) → drop m (drop n xs) ≡ drop (m + n) xs
  drop-drop m zero xs = simp (add-zero m) refl
  drop-drop zero (suc n) [] = simp unary_clauses refl
  drop-drop (suc m) (suc n) [] = simp unary_clauses refl
  drop-drop m (suc n) (x ∷ xs) = simp unary_clauses (drop-drop m n xs)

  pub drop-all : (n : ℕ) (xs : List A) → length xs ≤ n → drop n xs ≡ []
  drop-all zero [] h = refl
  drop-all zero (x ∷ xs) h = absurd (omega (arith, h))
  drop-all (suc n) [] h = refl
  drop-all (suc n) (x ∷ xs) h = drop-all n xs (omega (arith, h))

  -- What is left after some elements is shorter, unless there was nothing.
  pub length-drop : (n : ℕ) (xs : List A) → length xs ≡ length (take n xs) + length (drop n xs)
  length-drop zero xs = omega arith
  length-drop (suc n) [] = omega arith
  length-drop (suc n) (x ∷ xs) = omega (arith, length-drop n xs)

  pub sum_of-append : (f : A → ℕ) (xs ys : List A) → sum_of f (xs ++ ys) ≡ sum_of f xs + sum_of f ys
  sum_of-append f [] ys = omega arith
  sum_of-append f (x ∷ xs) ys = omega (arith, sum_of-append f xs ys)

  pub count_if-append :
      (p : A → Bool) (xs ys : List A) → count_if p (xs ++ ys) ≡ count_if p xs + count_if p ys
  count_if-append p [] ys = omega arith
  count_if-append p (x ∷ xs) ys = ground (arith, count_if-append p xs ys)

  pub length-keep : (p : A → Bool) (xs : List A) → length (keep p xs) ≡ count_if p xs
  length-keep p [] = refl
  length-keep p (x ∷ xs) = ground (arith, length-keep p xs)

  pub keep-append : (p : A → Bool) (xs ys : List A) → keep p (xs ++ ys) ≡ keep p xs ++ keep p ys
  keep-append p [] ys = refl
  keep-append p (x ∷ xs) ys =
      elim (p x)
        as (λ b.
          (if b then x ∷ keep p (xs ++ ys) else keep p (xs ++ ys))
          ≡ (if b then x ∷ keep p xs else keep p xs) ++ keep p ys) [
            | true ↦ ap (λ l. x ∷ l) (keep-append p xs ys)
            | false ↦ keep-append p xs ys
          ]

  pub count_if_mono :
      (p q : A → Bool) (xs : List A)
      → ((x : A) → p x ≡ true → q x ≡ true)
      → count_if p xs ≤ count_if q xs
  count_if_mono p q [] h = omega arith
  count_if_mono p q (x ∷ xs) h = ground (arith, h x, count_if_mono p q xs h)

  pub count_if-keep :
      (p q : A → Bool) (xs : List A)
      → ((x : A) → q x ≡ true → p x ≡ true)
      → count_if q (keep p xs) ≡ count_if q xs
  count_if-keep p q [] h = refl
  count_if-keep p q (x ∷ xs) h = ground (arith, h x, count_if-keep p q xs h)

  pub All-append {κ} : (P : A → Type κ) (xs ys : List A) → All P xs → All P ys → All P (xs ++ ys)
  All-append P [] ys hx hy = hy
  All-append P (x ∷ xs) ys hx hy = (hx.0, All-append P xs ys hx.1 hy)

module _ {ℓ κ} {A : Type ℓ} {B : Type κ} where
  -- `[y for x in xs for y in f(x)]`
  abbrev pub gather : (A → List B) → List A → List B
  gather f [] = []
  gather f (x ∷ xs) = f x ++ gather f xs

module _ {ℓ κ} {A : Type ℓ} where
  -- The relation holds of every pair, the earlier element first.
  abbrev pub Pairs : (A → A → Type κ) → List A → Type κ
  Pairs R [] = Unit
  Pairs R (x ∷ xs) = All (R x) xs × Pairs R xs

  pub All-left : (P : A → Type κ) (xs ys : List A) → All P (xs ++ ys) → All P xs
  All-left P [] ys h = tt
  All-left P (x ∷ xs) ys h = (h.0, All-left P xs ys h.1)

  pub All-right : (P : A → Type κ) (xs ys : List A) → All P (xs ++ ys) → All P ys
  All-right P [] ys h = h
  All-right P (x ∷ xs) ys h = All-right P xs ys h.1

  pub All-map : (P Q : A → Type κ) (xs : List A) → ((x : A) → P x → Q x) → All P xs → All Q xs
  All-map P Q [] f h = tt
  All-map P Q (x ∷ xs) f h = (f x h.0, All-map P Q xs f h.1)

  pub All-both : (P Q : A → Type κ) (xs : List A) → All P xs → All Q xs → All (λ x. P x × Q x) xs
  All-both P Q [] h k = tt
  All-both P Q (x ∷ xs) h k = ((h.0, k.0), All-both P Q xs h.1 k.1)

  -- Two lists of pairs, and the pairs across them.
  pub Pairs-join :
      (R : A → A → Type κ) (xs ys : List A)
      → Pairs R xs
      → Pairs R ys
      → All (λ x. All (R x) ys) xs
      → Pairs R (xs ++ ys)
  Pairs-join R [] ys hx hy c = hy
  Pairs-join R (x ∷ xs) ys hx hy c =
      (All-append (R x) xs ys hx.0 c.0, Pairs-join R xs ys hx.1 hy c.1)

  pub Pairs-left : (R : A → A → Type κ) (xs ys : List A) → Pairs R (xs ++ ys) → Pairs R xs
  Pairs-left R [] ys h = tt
  Pairs-left R (x ∷ xs) ys h = (All-left (R x) xs ys h.0, Pairs-left R xs ys h.1)

  pub Pairs-right : (R : A → A → Type κ) (xs ys : List A) → Pairs R (xs ++ ys) → Pairs R ys
  Pairs-right R [] ys h = h
  Pairs-right R (x ∷ xs) ys h = Pairs-right R xs ys h.1

  pub Pairs-cross :
      (R : A → A → Type κ) (xs ys : List A) → Pairs R (xs ++ ys) → All (λ x. All (R x) ys) xs
  Pairs-cross R [] ys h = tt
  Pairs-cross R (x ∷ xs) ys h = (All-right (R x) xs ys h.0, Pairs-cross R xs ys h.1)
