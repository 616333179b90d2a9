-- ===== src/Search/Verifier/Merge.antt =====
-- `merge_offenders` of scripts/search_missing_scoped_core.py.
use rawrz.Prelude.{
  ◌≡◌, refl, sym, ap, ◌∙◌, inl, inr, Bool, true, false, ◌&&◌, ◌||◌, Option, none, some, List, [],
  ◌∷◌, any, All, Pairs, Bool-cases, arith, string_eq, nat_eq,
}
use rawrz.Json.Int.{ℤ}
use rawrz.Search.Config.{same_int}
use rawrz.Search.Engine.{Offender}
use rawrz.Search.Client.{is_empty}
use rawrz.Search.Verifier.{
  Key, by_download, by_content, offender_key, same_offender_key, same_option, put, put_all,
  merge_offenders,
}

same_int→eq : (a b : ℤ) → same_int a b ≡ true → a ≡ b
unfolding nat_eq
same_int→eq a b h = ground arith

same_option→eq : (a b : Option ℤ) → same_option a b ≡ true → a ≡ b
same_option→eq none none h = refl
same_option→eq none (some b) h = ground arith
same_option→eq (some a) none h = ground arith
same_option→eq (some a) (some b) h = ap some (same_int→eq a b h)

same_offender_key→eq : (a b : Key) → same_offender_key a b ≡ true → a ≡ b
unfolding string_eq
same_offender_key→eq (by_download a) (by_download b) h = ground arith
same_offender_key→eq (by_download a) (by_content t j q) h = ground arith
same_offender_key→eq (by_content s i p) (by_download b) h = ground arith
same_offender_key→eq (by_content s i p) (by_content t j q) h = ground (arith, same_option→eq i j)

-- The offender has the key.
abbrev pub has_key : Key → Offender → Bool
has_key k o = same_offender_key (offender_key o) k

-- No two of the offenders have one key.
abbrev pub Apart : Offender → Offender → Type 0
Apart p q = same_offender_key (offender_key p) (offender_key q) ≡ false

same_key-has_key :
    (p o : Offender) (k : Key)
    → same_offender_key (offender_key p) (offender_key o) ≡ true
    → has_key k p ≡ has_key k o
same_key-has_key p o k h =
    ap (λ a. same_offender_key a k) (same_offender_key→eq (offender_key p) (offender_key o) h)

any-put :
    (k : Key) (ps : List Offender) (o : Offender)
    → any (has_key k) (put ps o) ≡ (any (has_key k) ps || has_key k o)
unfolding put
any-put k [] o = ground arith
any-put k (p ∷ ps) o = elim (Bool-cases (same_offender_key (offender_key p) (offender_key o))) [
  | inl h ↦ rw h (ground (arith, same_key-has_key p o k h))
  | inr h ↦ rw h (ground (arith, any-put k ps o))
]

pub any-put_all :
    (k : Key) (ps os : List Offender)
    → any (has_key k) (put_all ps os) ≡ (any (has_key k) ps || any (has_key k) os)
unfolding put_all
any-put_all k ps [] = ground arith
any-put_all k ps (o ∷ os) = ground (arith, any-put_all k (put ps o) os, any-put k ps o)

All-put {κ} :
    (P : Offender → Type κ) (ps : List Offender) (o : Offender) → All P ps → P o → All P (put ps o)
unfolding put
All-put P [] o h ho = (ho, tt)
All-put P (p ∷ ps) o h ho =
    elim (Bool-cases (same_offender_key (offender_key p) (offender_key o))) [
      | inl e ↦ rw e (ho, h.1)
      | inr e ↦ rw e (h.0, All-put P ps o h.1 ho)
    ]

All-Apart :
    (p o : Offender) (ps : List Offender)
    → same_offender_key (offender_key p) (offender_key o) ≡ true
    → All (Apart p) ps
    → All (Apart o) ps
All-Apart p o [] e h = tt
All-Apart p o (q ∷ ps) e h =
    (sym (same_key-has_key p o (offender_key q) e) ∙ h.0, All-Apart p o ps e h.1)

put-Apart : (ps : List Offender) (o : Offender) → Pairs Apart ps → Pairs Apart (put ps o)
unfolding put
put-Apart [] o h = (tt, tt)
put-Apart (p ∷ ps) o h = elim (Bool-cases (same_offender_key (offender_key p) (offender_key o))) [
  | inl e ↦ rw e (All-Apart p o ps e h.0, h.1)
  | inr e ↦ rw e (All-put (Apart p) ps o h.0 e, put-Apart ps o h.1)
]

put_all-Apart : (ps os : List Offender) → Pairs Apart ps → Pairs Apart (put_all ps os)
unfolding put_all
put_all-Apart ps [] h = h
put_all-Apart ps (o ∷ os) h = put_all-Apart (put ps o) os (put-Apart ps o h)

put-ne-nil : (ps : List Offender) (o : Offender) → is_empty (put ps o) ≡ false
unfolding put
put-ne-nil [] o = refl
put-ne-nil (p ∷ ps) o = ground arith

is_empty-put_all : (ps os : List Offender) → is_empty (put_all ps os) ≡ (is_empty ps && is_empty os)
unfolding put_all
is_empty-put_all ps [] = ground arith
is_empty-put_all ps (o ∷ os) = ground (arith, is_empty-put_all (put ps o) os, put-ne-nil ps o)

-- Two groups of offenders as one: an offender for each key that either has, no key twice, and none
-- only if both groups have none.
pub record IsMerge (first second merged : List Offender) : Type 0 where
  pub keys : (k : Key) → any (has_key k) merged ≡ (any (has_key k) first || any (has_key k) second)
  pub apart : Pairs Apart merged
  pub nothing : is_empty merged ≡ (is_empty first && is_empty second)

-- The merge is one group with the keys of both, each once, and it is empty only if both are.
pub merge_offenders-IsMerge :
    (first second : List Offender) → IsMerge first second (merge_offenders first second)
unfolding merge_offenders
merge_offenders-IsMerge first second = record {
  keys = λ k.
      any-put_all k (put_all [] first) second
      ∙ ap (λ b. b || any (has_key k) second) (any-put_all k [] first);
  apart = put_all-Apart (put_all [] first) second (put_all-Apart [] first tt);
  nothing =
      is_empty-put_all (put_all [] first) second
      ∙ ap (λ b. b && is_empty second) (is_empty-put_all [] first);
}
