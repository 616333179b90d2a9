-- ===== src/Search/Plan/Oldest.antt =====
-- The oldest search time of a group in `build_groups`, `min(searches) if searches else None`.
use rawrz.Prelude.{
  ◌≡◌, ◌≢◌, refl, Bool, true, false, ◌&&◌, Option, none, some, List, [], ◌∷◌, String, arith, All,
  any, Bool-cases, inl, inr, ◌⊎◌, not, ◌==◌, string_eq, nat_eq,
}
use rawrz.Prelude.Text.{str_leb, str_leb_total, str_leb_trans}
use rawrz.Search.Plan.{Episode, older, min_search}

str_leb_refl : (s : String) → str_leb s s ≡ true
str_leb_refl s = elim (Bool-cases (str_leb s s)) [ inl h ↦ h | inr h ↦ str_leb_total s s h ]

-- The option holds a time no later than the given one.
abbrev pub NotAfter : String → Option String → Type 0
NotAfter t none = ⊥
NotAfter t (some b) = str_leb b t ≡ true

-- `NotAfter` for a search time that is set and not empty; the code skips the others.
abbrev pub NotAfterSet : Option String → Option String → Type 0
NotAfterSet none r = Unit
NotAfterSet (some t) r = (t ≡ "") ⊎ NotAfter t r

abbrev pub is_time : String → Episode → Bool
is_time b e = elim e.last_search_time [ none ↦ false | some t ↦ (t == b) && not (t == "") ]

NotAfter-older_left : (t : String) (r o : Option String) → NotAfter t r → NotAfter t (older r o)
unfolding older
NotAfter-older_left t none o h = absurd h
NotAfter-older_left t (some b) none h = h
NotAfter-older_left t (some b) (some u) h = elim (Bool-cases (u == "")) [
  | inl e ↦ rw e h
  | inr e ↦ rw e (elim (Bool-cases (str_leb b u)) [
    | inl k ↦ rw k h
    | inr k ↦ rw k (str_leb_trans u b t (str_leb_total b u k) h)
  ])
]

NotAfter-older_right : (t : String) (r : Option String) → t ≢ "" → NotAfter t (older r (some t))
unfolding older
NotAfter-older_right t none h = elim (Bool-cases (t == "")) [
  | inl e ↦ ground arith
  | inr e ↦ rw e (str_leb_refl t)
]
NotAfter-older_right t (some b) h = elim (Bool-cases (t == "")) [
  | inl e ↦ ground arith
  | inr e ↦
      rw e (elim (Bool-cases (str_leb b t)) [ inl k ↦ rw k k | inr k ↦ rw k (str_leb_refl t) ])
]

NotAfter-min_search :
    (t : String) (r : Option String) (es : List Episode)
    → NotAfter t r
    → NotAfter t (min_search r es)
unfolding min_search
NotAfter-min_search t r [] h = h
NotAfter-min_search t r (e ∷ es) h =
    NotAfter-min_search t (older r e.last_search_time) es
      (NotAfter-older_left t r e.last_search_time h)

empty_or : (t : String) → (t ≡ "") ⊎ (t ≢ "")
empty_or String.[] = inl refl
empty_or (String.◌∷◌ c s) = inr (λ e. cc)

NotAfterSet-min_search :
    (o r : Option String) (es : List Episode) → NotAfterSet o (min_search (older r o) es)
NotAfterSet-min_search none r es = tt
NotAfterSet-min_search (some t) r es = elim (empty_or t) [
  | inl empty ↦ inl empty
  | inr filled ↦ inr (NotAfter-min_search t (older r (some t)) es (NotAfter-older_right t r filled))
]

pub min_search-All :
    (r : Option String) (es : List Episode)
    → All (λ (e : Episode). NotAfterSet e.last_search_time (min_search r es)) es
unfolding min_search
min_search-All r [] = tt
min_search-All r (e ∷ es) =
    (NotAfterSet-min_search e.last_search_time r es, min_search-All (older r e.last_search_time) es)

older_cases :
    (r o : Option String) (b : String)
    → older r o ≡ some b
    → (r ≡ some b) ⊎ ((o ≡ some b) × (b ≢ ""))
unfolding older
older_cases r none b h = inl h
older_cases none (some t) b h = ground arith
older_cases (some r) (some t) b h = ground arith

pub min_search-attains :
    (r : Option String) (es : List Episode) (b : String)
    → min_search r es ≡ some b
    → (r ≡ some b) ⊎ (any (is_time b) es ≡ true)
unfolding min_search
min_search-attains r [] b h = inl h
min_search-attains r (e ∷ es) b h = elim (min_search-attains (older r e.last_search_time) es b h) [
  | inr found ↦ inr (ground arith)
  | inl here ↦ elim (older_cases r e.last_search_time b here) [
    | inl old ↦ inl old
    | inr new ↦ inr (ground arith)
  ]
]
