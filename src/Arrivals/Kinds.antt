-- ===== src/Arrivals/Kinds.antt =====
-- `arrival_kind` of scripts/arrival_notifier.py.
use mathlib.Core.Path.{subst}
use rawrz.Prelude.{
  ◌≤◌, ◌≡◌, refl, inl, inr, ◌⊎◌, Bool, true, false, ◌&&◌, Option, none, some, List, [], ◌∷◌, keep,
  All, arith, ltb, if◌then◌else◌, Bool-cases,
}
use rawrz.Arrivals.{
  Request, Import, Arrived, imported, was_available, is_newer, time, newest, is_done, arrival_kind,
  by_imports, by_status,
}

-- The element is one of the list.
abbrev pub Among : Import → List Import → Type 0
Among h [] = ⊥
Among h (x ∷ xs) = (h ≡ x) ⊎ Among h xs

abbrev NoLater : Import → Import → Type 0
NoLater h x = time x ≤ time h

weaken_all :
    (a b : Import) (xs : List Import) → time a ≤ time b → All (NoLater a) xs → All (NoLater b) xs
weaken_all a b [] l h = tt
weaken_all a b (x ∷ xs) l h = (omega (arith, l, h.0), weaken_all a b xs l h.1)

-- One of the first and the others, and none of them is later.
abbrev IsNewest : Import → Import → List Import → Type 0
IsNewest h best hs = Among h (best ∷ hs) × (time best ≤ time h) × All (NoLater h) hs

replace :
    (best h n : Import) (hs : List Import) (b : Bool)
    → ltb (time best) (time h) ≡ b
    → IsNewest n (if b then h else best) hs
    → IsNewest n best (h ∷ hs)
replace best h n hs true e (inl m, l, a) = (inr (inl m), ground (arith, e, l), (l, a))
replace best h n hs true e (inr m, l, a) = (inr (inr m), ground (arith, e, l), (l, a))
replace best h n hs false e (inl m, l, a) = (inl m, l, (ground (arith, e, l), a))
replace best h n hs false e (inr m, l, a) = (inr (inr m), l, (ground (arith, e, l), a))

newest-IsNewest : (hs : List Import) (best : Import) → IsNewest (newest best hs) best hs
unfolding newest
newest-IsNewest [] best = (inl refl, omega arith, tt)
newest-IsNewest (h ∷ hs) best =
    replace best h _ hs (ltb (time best) (time h)) refl
      (newest-IsNewest hs (if ltb (time best) (time h) then h else best))

Among-head :
    (p : Import → Bool) (h x : Import) (xs : List Import)
    → (Among h (keep p xs) → Among h xs × (p h ≡ true))
    → p x ≡ true
    → Among h (x ∷ keep p xs)
    → Among h (x ∷ xs) × (p h ≡ true)
Among-head p h x xs rest e (inl q) = (inl q, rw q e)
Among-head p h x xs rest e (inr q) = let r = rest q in (inr r.0, r.1)

Among-keep :
    (p : Import → Bool) (h : Import) (xs : List Import)
    → Among h (keep p xs)
    → Among h xs × (p h ≡ true)
Among-keep p h [] m = absurd m
Among-keep p h (x ∷ xs) m = elim (Bool-cases (p x)) [
  | inl e ↦ Among-head p h x xs (Among-keep p h xs) e (rw e at m)
  | inr e ↦ let r = Among-keep p h xs (rw e at m) in (inr r.0, r.1)
]

All-keep :
    (P : Import → Type 0) (p : Import → Bool) (xs : List Import)
    → All P (keep p xs)
    → All (λ x. p x ≡ true → P x) xs
All-keep P p [] h = tt
All-keep P p (x ∷ xs) h = elim (Bool-cases (p x)) [
  | inl e ↦ let k : P x × All P (keep p xs) = rw e at h in ((λ q. k.0), All-keep P p xs k.1)
  | inr e ↦ (λ q. cc, All-keep P p xs (rw e at h))
]

-- What `arrival_kind` found for a request: an import of the history that is newer than the request,
-- and none that is newer than the request is later; or no such import, and media that is available for
-- a request that is approved or completed.
pub data Justified (r : Request) (history : List Import) (available : Bool) : Arrived → Type 0 where
  by_import :
      (h : Import)
      → Among h history
      → is_newer r.created h ≡ true
      → All (λ x. is_newer r.created x ≡ true → time x ≤ time h) history
      → Justified r history available (imported h)
  by_verdict :
      keep (is_newer r.created) history ≡ []
      → is_done r.status ≡ true
      → available ≡ true
      → Justified r history available was_available

verdict :
    (b : Bool) (how : Arrived)
    → (if b then some was_available else none) ≡ some how
    → (b ≡ true) × (was_available ≡ how)
verdict true how h = (refl, ground (arith, h))
verdict false how h = absurd (ground (arith, h))

split_and : (a b : Bool) → (a && b) ≡ true → (a ≡ true) × (b ≡ true)
split_and a b h = ground (arith, h)

by_imports-Justified :
    (r : Request) (history : List Import) (available : Bool) (how : Arrived) (newer : List Import)
    → keep (is_newer r.created) history ≡ newer
    → by_imports newer (by_status r.status available) ≡ some how
    → Justified r history available how
by_imports-Justified r history available how [] e h =
    let v = verdict (is_done r.status && available) how h in
    let b = split_and (is_done r.status) available v.0 in
    subst (Justified r history available) v.1 (by_verdict e b.0 b.1)
by_imports-Justified r history available how (x ∷ xs) e h =
    let n = newest-IsNewest xs x in
    let m = Among-keep (is_newer r.created) (newest x xs) history (rw e n.0) in
    subst (Justified r history available) (option_value h) (
      by_import (newest x xs) m.0 m.1
        (All-keep (NoLater (newest x xs)) (is_newer r.created) history (rw e (n.1, n.2))))
  where
    option_value : some (imported (newest x xs)) ≡ some how → imported (newest x xs) ≡ how
    option_value q = ground (arith, q)

-- Whatever `arrival_kind` finds for a request is justified, and the request can be resolved: an import is
-- the newest one of the history and newer than the request, and the verdict that the media was
-- available is given only without such an import, for a request that is approved or completed.
pub arrival_kind-Justified :
    (r : Request) (history : List Import) (available : Bool) (how : Arrived)
    → arrival_kind r history available ≡ some how
    → (r.resolvable ≡ true) × Justified r history available how
unfolding arrival_kind
arrival_kind-Justified r history available how h = elim (Bool-cases r.resolvable) [
  | inl e ↦ (
    e,
    by_imports-Justified r history available how (keep (is_newer r.created) history) refl
        (resolved r.resolvable _ how e h),
  )
  | inr e ↦ absurd (unresolved r.resolvable _ how e h)
]
  where
    resolved :
        (b : Bool) (o : Option Arrived) (how : Arrived)
        → b ≡ true
        → (if b then o else none) ≡ some how
        → o ≡ some how
    resolved b o how e h = ground (arith, e, h)

    unresolved :
        (b : Bool) (o : Option Arrived) (how : Arrived)
        → b ≡ false
        → (if b then o else none) ≡ some how
        → ⊥
    unresolved b o how e h = ground (arith, e, h)
