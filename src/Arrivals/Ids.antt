-- ===== src/Arrivals/Ids.antt =====
-- The ids in the lists and in the state file of scripts/arrival_notifier.py.
use rawrz.Prelude.{
  ℕ, ◌≤◌, ◌≡◌, refl, false, ◌&&◌, ◌||◌, not, none, some, List, [], ◌∷◌, arith, count_if, contains,
  ◌==◌, nat_eq,
}
use rawrz.Arrivals.{Request, Notice, Arrival, keys, assign, pop}
use rawrz.Arrivals.Notifier.{with_id, pop_all}

abbrev pub ids : List Request → List ℕ
ids [] = []
ids (r ∷ rs) = with_id r.id (ids rs)

abbrev pub arrival_ids : List Arrival → List ℕ
arrival_ids [] = []
arrival_ids (a ∷ rest) = with_id a.request.id (arrival_ids rest)

abbrev pub Distinct : List ℕ → Type 0
Distinct [] = Unit
Distinct (k ∷ ks) = (contains ks k ≡ false) × Distinct ks

absent-count : (k : ℕ) (ks : List ℕ) → contains ks k ≡ false → count_if (λ j. j == k) ks ≡ 0
unfolding nat_eq
absent-count k [] h = refl
absent-count k (j ∷ ks) h = ground (arith, absent-count k ks)

pub Distinct-count : (k : ℕ) (ks : List ℕ) → Distinct ks → count_if (λ j. j == k) ks ≤ 1
unfolding nat_eq
Distinct-count k [] h = omega arith
Distinct-count k (j ∷ ks) h = ground (arith, Distinct-count k ks h.1, absent-count k ks)

pub keys-assign :
    (k j : ℕ) (e : Notice) (file : List (ℕ × Notice))
    → contains (keys (assign j e file)) k ≡ (k == j || contains (keys file) k)
unfolding assign nat_eq
keys-assign k j e [] = ground arith
keys-assign k j e ((i, d) ∷ rest) = ground (arith, keys-assign k j e rest)

keys-pop :
    (k j : ℕ) (file : List (ℕ × Notice))
    → contains (keys (pop j file)) k ≡ (contains (keys file) k && not (k == j))
unfolding pop nat_eq
keys-pop k j [] = ground arith
keys-pop k j ((i, d) ∷ rest) = ground (arith, keys-pop k j rest)

pub keys-pop_all :
    (k : ℕ) (drops : List Request) (file : List (ℕ × Notice))
    → contains (keys (pop_all drops file)) k
      ≡ (contains (keys file) k && not (contains (ids drops) k))
unfolding pop_all
keys-pop_all k [] file = ground arith
keys-pop_all k (r ∷ rest) file =
    elim r.id
      as (λ o.
        contains (keys (elim o [ none ↦ pop_all rest file | some id ↦ pop_all rest (pop id file) ]))
          k
        ≡ (contains (keys file) k && not (contains (with_id o (ids rest)) k))) [
          | none ↦ keys-pop_all k rest file
          | some j ↦ ground (arith, keys-pop_all k rest (pop j file), keys-pop k j file)
        ]
