-- ===== src/Prelude/Sorting.antt =====
-- Python's stable `sorted(xs, key=k)`, over a Boolean order.
use Prim.Native.Nat.{suc}
use mathlib.Core.Path.{refl, ◌≡◌}
use mathlib.Core.Logic.{◌≢◌, inl, inr}
use mathlib.Core.Bool.{◌||◌, Bool, true, false}
use mathlib.Core.List.{List, [], ◌∷◌, ◌++◌, Perm, append_assoc, perm_append_comm}
use mathlib.Core.List.Perm
use native.Mathlib.Omega.{arith}
use rawrz.Prelude.Tests.{if◌then◌else◌, Bool-cases}
use rawrz.Prelude.Lists.{any, All, Pairs, gather, length}

pub record TotalOrder {ℓ} {A : Type ℓ} (le : A → A → Bool) : Type ℓ where
  pub total : (x y : A) → le x y ≡ false → le y x ≡ true
  pub trans : (x y z : A) → le x y ≡ true → le y z ≡ true → le x z ≡ true

module _ {ℓ} {A : Type ℓ} (le : A → A → Bool) where
  unfoldable pub insert : A → List A → List A
  insert x [] = x ∷ []
  insert x (y ∷ ys) = if le x y then x ∷ y ∷ ys else y ∷ insert x ys

  -- An element goes before those that are no smaller, so equal ones keep their order.
  unfoldable pub sort : List A → List A
  unfolding insert
  sort [] = []
  sort (x ∷ xs) = insert x (sort xs)

  abbrev pub IsSorted : List A → Type 0
  IsSorted [] = Unit
  IsSorted (x ∷ xs) = All (λ y. le x y ≡ true) xs × IsSorted xs

  insert-perm : (x : A) (ys : List A) → Perm (insert x ys) (x ∷ ys)
  unfolding insert
  insert-perm x [] = Perm.refl (x ∷ [])
  insert-perm x (y ∷ ys) = elim (Bool-cases (le x y)) [
    | inl h ↦ rw h (Perm.refl (x ∷ y ∷ ys))
    | inr h ↦ rw h (Perm.trans (Perm.cons y (insert-perm x ys)) (Perm.swap x y ys))
  ]

  pub sort-perm : (xs : List A) → Perm (sort xs) xs
  unfolding sort
  sort-perm [] = Perm.refl []
  sort-perm (x ∷ xs) = Perm.trans (insert-perm x (sort xs)) (Perm.cons x (sort-perm xs))

  pub All-insert {κ} : (P : A → Type κ) (x : A) (ys : List A) → P x → All P ys → All P (insert x ys)
  unfolding insert
  All-insert P x [] hx hy = (hx, tt)
  All-insert P x (y ∷ ys) hx hy = elim (Bool-cases (le x y)) [
    | inl h ↦ rw h (hx, hy)
    | inr h ↦ rw h (hy.0, All-insert P x ys hx hy.1)
  ]

  pub All-sort {κ} : (P : A → Type κ) (xs : List A) → All P xs → All P (sort xs)
  unfolding sort
  All-sort P [] h = tt
  All-sort P (x ∷ xs) h = All-insert P x (sort xs) h.0 (All-sort P xs h.1)

module _ {ℓ} {A : Type ℓ} {le : A → A → Bool} (o : TotalOrder le) where
  above_trans :
      (x y : A) (zs : List A)
      → le x y ≡ true
      → All (λ z. le y z ≡ true) zs
      → All (λ z. le x z ≡ true) zs
  above_trans x y [] h a = tt
  above_trans x y (z ∷ zs) h a = (o.trans x y z h a.0, above_trans x y zs h a.1)

  insert-IsSorted : (x : A) (ys : List A) → IsSorted le ys → IsSorted le (insert le x ys)
  unfolding insert
  insert-IsSorted x [] s = (tt, tt)
  insert-IsSorted x (y ∷ ys) s = elim (Bool-cases (le x y)) [
    | inl h ↦ rw h ((h, above_trans x y ys h s.0), s)
    | inr h ↦
        rw h (All-insert le (λ z. le y z ≡ true) x ys (o.total x y h) s.0, insert-IsSorted x ys s.1)
  ]

  pub sort-IsSorted : (xs : List A) → IsSorted le (sort le xs)
  unfolding sort
  sort-IsSorted [] = tt
  sort-IsSorted (x ∷ xs) = insert-IsSorted x (sort le xs) (sort-IsSorted xs)

module _ {ℓ κ} {A : Type ℓ} (le : A → A → Bool) (R : A → A → Type κ) where
  insert-Pairs :
      (flip : (x y : A) → R x y → R y x) (x : A) (ys : List A)
      → All (R x) ys
      → Pairs R ys
      → Pairs R (insert le x ys)
  unfolding insert
  insert-Pairs flip x [] hx hy = (tt, tt)
  insert-Pairs flip x (y ∷ ys) hx hy = elim (Bool-cases (le x y)) [
    | inl h ↦ rw h (hx, hy)
    | inr h ↦ rw h (All-insert le (R y) x ys (flip x y hx.0) hy.0, insert-Pairs flip x ys hx.1 hy.1)
  ]

  -- A symmetric relation between the elements of a list survives the sort.
  pub sort-Pairs :
      (flip : (x y : A) → R x y → R y x) (xs : List A) → Pairs R xs → Pairs R (sort le xs)
  unfolding sort
  sort-Pairs flip [] h = tt
  sort-Pairs flip (x ∷ xs) h =
      insert-Pairs flip x (sort le xs) (All-sort le (R x) xs h.0) (sort-Pairs flip xs h.1)

module _ {ℓ κ} {A : Type ℓ} {B : Type κ} (le : A → A → Bool) (f : A → List B) where
  gather-insert : (x : A) (ys : List A) → Perm (gather f (insert le x ys)) (f x ++ gather f ys)
  unfolding insert
  gather-insert x [] = Perm.refl (f x ++ [])
  gather-insert x (y ∷ ys) = elim (Bool-cases (le x y)) [
    | inl h ↦ rw h (Perm.refl (f x ++ (f y ++ gather f ys)))
    | inr h ↦ rw h (
        Perm.trans (Perm.append_left (f y) (gather-insert x ys)) (
          rw (← append_assoc (f y) (f x) (gather f ys), ← append_assoc (f x) (f y) (gather f ys))
            (Perm.append_right (gather f ys) (perm_append_comm (f y) (f x)))))
  ]

  -- What the elements hold, together, is not changed by the sort.
  pub gather-sort : (xs : List A) → Perm (gather f (sort le xs)) (gather f xs)
  unfolding sort
  gather-sort [] = Perm.refl []
  gather-sort (x ∷ xs) =
      Perm.trans (gather-insert x (sort le xs)) (Perm.append_left (f x) (gather-sort xs))

module _ {ℓ} {A : Type ℓ} (le : A → A → Bool) where
  insert-ne-nil : (x : A) (ys : List A) → insert le x ys ≢ []
  unfolding insert
  insert-ne-nil x [] e = cc
  insert-ne-nil x (y ∷ ys) e = ground arith

  pub sort-ne-nil : (xs : List A) → xs ≢ [] → sort le xs ≢ []
  unfolding sort
  sort-ne-nil [] h = h
  sort-ne-nil (x ∷ xs) h = insert-ne-nil x (sort le xs)

  length-insert : (x : A) (ys : List A) → length (insert le x ys) ≡ suc (length ys)
  unfolding insert
  length-insert x [] = refl
  length-insert x (y ∷ ys) = ground (arith, length-insert x ys)

  pub length-sort : (xs : List A) → length (sort le xs) ≡ length xs
  unfolding sort
  length-sort [] = refl
  length-sort (x ∷ xs) = omega (arith, length-insert x (sort le xs), length-sort xs)

  any-insert : (p : A → Bool) (x : A) (ys : List A) → any p (insert le x ys) ≡ (p x || any p ys)
  unfolding insert
  any-insert p x [] = refl
  any-insert p x (y ∷ ys) = ground (arith, any-insert p x ys)

  pub any-sort : (p : A → Bool) (xs : List A) → any p (sort le xs) ≡ any p xs
  unfolding sort
  any-sort p [] = refl
  any-sort p (x ∷ xs) = rw (any-insert p x (sort le xs), any-sort p xs)
