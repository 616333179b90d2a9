-- ===== src/Search/Plan/Batches.antt =====
-- `split_batches` of scripts/search_missing_scoped_core.py, batch by batch.
use rawrz.Prelude.{
  ℕ, ◌+◌, ◌≤◌, ◌<◌, ◌≡◌, inl, inr, sym, not, ◌∙◌, ◌&&◌, some, List, [], ◌∷◌, ◌++◌, length, arith,
  sum_of-append, All, All-append, gather, if◌then◌else◌, Bool-cases, ltb,
}
use mathlib.Core.List.{append-nil, append_assoc}
use rawrz.Search.Plan.{
  Group, Split, start, is_empty, flush, push, split_loop, finish, split_batches, size,
}

abbrev all_groups : List (List Group) → List Group
all_groups = gather (λ b. b)

all_groups-append :
    (xs : List (List Group)) (b : List Group) → all_groups (xs ++ (b ∷ [])) ≡ all_groups xs ++ b
all_groups-append [] b = append-nil b
all_groups-append (x ∷ xs) b = rw (all_groups-append xs b, append_assoc)

-- What the loop has taken, in order.
abbrev taken : Split → List Group
taken s = all_groups s.batches ++ s.current

taken-flush : (n : ℕ) (g : Group) (s : Split) → taken (flush n g s) ≡ taken s
unfolding flush
taken-flush n g s =
    elim (Bool-cases (not (is_empty s.current) && ltb n (s.count + length g.episodes))) [
      | inl cut ↦ rw cut (append-nil _ ∙ all_groups-append s.batches s.current)
      | inr fits ↦ rw fits
    ]

taken-split_loop : (n : ℕ) (s : Split) (gs : List Group) → taken (split_loop n s gs) ≡ taken s ++ gs
unfolding split_loop
taken-split_loop n s [] = sym (append-nil (taken s))
taken-split_loop n s (g ∷ gs) =
    taken-split_loop n (push g (flush n g s)) gs
    ∙ (rw
        (
          ← append_assoc (all_groups (flush n g s).batches) (flush n g s).current (g ∷ []),
          taken-flush n g s,
        )
        (append_assoc (taken s) (g ∷ []) gs))

all_groups_of :
    (bs : List (List Group)) (c : List Group)
    → all_groups (if is_empty c then bs else bs ++ (c ∷ [])) ≡ all_groups bs ++ c
all_groups_of bs [] = sym (append-nil (all_groups bs))
all_groups_of bs (g ∷ c) = all_groups-append bs (g ∷ c)

all_groups-finish : (s : Split) → all_groups (finish s) ≡ taken s
unfolding finish
all_groups-finish s = all_groups_of s.batches s.current

split_batches_result :
    (groups : List Group) (n : ℕ) {batches : List (List Group)}
    → split_batches groups n ≡ some batches
    → (finish (split_loop n start groups) ≡ batches) × (0 < n)
unfolding split_batches
split_batches_result groups n h = ground arith

-- If the batch size is accepted, the batches, put together again, are the groups in their order.
pub all_groups-split_batches :
    (groups : List Group) (n : ℕ) {batches : List (List Group)}
    → split_batches groups n ≡ some batches
    → gather (λ b. b) batches ≡ groups
all_groups-split_batches groups n {batches} h =
    rw (← (split_batches_result groups n h).0)
      (all_groups-finish (split_loop n start groups) ∙ taken-split_loop n start groups)

-- A batch has a group, and is within the batch size unless it is a single group.
abbrev pub Fits : ℕ → List Group → Type 0
Fits n [] = ⊥
Fits n (g ∷ []) = Unit
Fits n (g ∷ h ∷ rest) = size (g ∷ h ∷ rest) ≤ n

-- The first group of the second batch would have passed the batch size of the first.
abbrev pub Overflows : ℕ → List Group → List Group → Type 0
Overflows n b [] = ⊥
Overflows n b (g ∷ rest) = n < size b + length g.episodes

-- Each batch was closed because the next group did not fit.
abbrev pub IsTight : ℕ → List (List Group) → Type 0
IsTight n [] = Unit
IsTight n (b ∷ []) = Unit
IsTight n (b ∷ c ∷ rest) = Overflows n b c × IsTight n (c ∷ rest)

IsTight-snoc :
    (n : ℕ) (bs : List (List Group)) (c d : List Group)
    → IsTight n (bs ++ (c ∷ []))
    → Overflows n c d
    → IsTight n ((bs ++ (c ∷ [])) ++ (d ∷ []))
IsTight-snoc n [] c d t o = (o, tt)
IsTight-snoc n (b ∷ []) c d t o = (t.0, (o, tt))
IsTight-snoc n (b ∷ b' ∷ bs) c d t o = (t.0, IsTight-snoc n (b' ∷ bs) c d t.1 o)

IsTight-grow :
    (n : ℕ) (bs : List (List Group)) (g : Group) (c d : List Group)
    → IsTight n (bs ++ ((g ∷ c) ∷ []))
    → IsTight n (bs ++ ((g ∷ d) ∷ []))
IsTight-grow n [] g c d t = tt
IsTight-grow n (b ∷ []) g c d t = t
IsTight-grow n (b ∷ b' ∷ bs) g c d t = (t.0, IsTight-grow n (b' ∷ bs) g c d t.1)

-- The state of the loop once it holds a group.
record IsGood (n : ℕ) (s : Split) : Type 0 where
  counted : s.count ≡ size s.current
  fits : Fits n s.current
  closed : All (Fits n) s.batches
  tight : IsTight n (s.batches ++ (s.current ∷ []))

Fits-grow :
    (n : ℕ) (c : List Group) (g : Group)
    → Fits n c
    → size c + length g.episodes ≤ n
    → Fits n (c ++ (g ∷ []))
Fits-grow n [] g f h = tt
Fits-grow n (a ∷ []) g f h = omega arith
Fits-grow n (a ∷ b ∷ c) g f h =
    omega (arith, sum_of-append {0} (λ (x : Group). length x.episodes) c (g ∷ []))

push-flush-IsGood :
    (n : ℕ) (g : Group) (bs : List (List Group)) (c : List Group) (k : ℕ)
    → let s : Split = record { batches = bs; current = c; count = k } in
      IsGood n s → IsGood n (push g (flush n g s))
unfolding flush push
push-flush-IsGood n g bs [] k h = absurd h.fits
push-flush-IsGood n g bs (a ∷ c) k h = elim (Bool-cases (ltb n (k + length g.episodes))) [
  | inl cut ↦ rw cut (record {
    counted = omega arith;
    fits = tt;
    closed = All-append (Fits n) bs ((a ∷ c) ∷ []) h.closed (h.fits, tt);
    tight = IsTight-snoc n bs (a ∷ c) (g ∷ []) h.tight (ground (arith, h.counted));
  })
  | inr room ↦ rw room (record {
    counted =
        omega (arith, h.counted, sum_of-append {0} (λ (x : Group). length x.episodes) c (g ∷ []));
    fits = Fits-grow n (a ∷ c) g h.fits (ground (arith, h.counted));
    closed = h.closed;
    tight = IsTight-grow n bs a c (c ++ (g ∷ [])) h.tight;
  })
]

split_loop-IsGood :
    (n : ℕ) (s : Split) (gs : List Group) → IsGood n s → IsGood n (split_loop n s gs)
unfolding split_loop
split_loop-IsGood n s [] h = h
split_loop-IsGood n s (g ∷ gs) h =
    split_loop-IsGood n (push g (flush n g s)) gs
      (push-flush-IsGood n g s.batches s.current s.count h)

start-IsGood : (n : ℕ) (g : Group) → IsGood n (push g (flush n g start))
unfolding flush push
start-IsGood n g = record { counted = omega arith; fits = tt; closed = tt; tight = tt }

finish-IsTight_of :
    (n : ℕ) (bs : List (List Group)) (c : List Group)
    → Fits n c
    → All (Fits n) bs
    → IsTight n (bs ++ (c ∷ []))
    → let out = if is_empty c then bs else bs ++ (c ∷ []) in All (Fits n) out × IsTight n out
finish-IsTight_of n bs [] f a t = absurd f
finish-IsTight_of n bs (g ∷ c) f a t = (All-append (Fits n) bs ((g ∷ c) ∷ []) a (f, tt), t)

finish-IsTight : (n : ℕ) (s : Split) → IsGood n s → All (Fits n) (finish s) × IsTight n (finish s)
unfolding finish
finish-IsTight n s h = finish-IsTight_of n s.batches s.current h.fits h.closed h.tight

-- If the batch size is accepted, every batch has a group and is within the batch size unless it is a
-- single group, and each was closed only because the next group would have passed the batch size.
pub split_batches-IsTight :
    (groups : List Group) (n : ℕ) {batches : List (List Group)}
    → split_batches groups n ≡ some batches
    → All (Fits n) batches × IsTight n batches
split_batches-IsTight [] n h =
    rw (← (split_batches_result [] n h).0) (unfold finish split_loop in (tt, tt))
split_batches-IsTight (g ∷ groups) n h =
    rw (← (split_batches_result (g ∷ groups) n h).0)
      (finish-IsTight n _ (unfold split_loop in split_loop-IsGood n _ groups (start-IsGood n g)))
