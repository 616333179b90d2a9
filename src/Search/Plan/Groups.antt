-- ===== src/Search/Plan/Groups.antt =====
-- `build_groups` of scripts/search_missing_scoped_core.py: the dict of seasons and the sorted groups.
use rawrz.Prelude.{
  ℕ, ◌≡◌, ◌≢◌, refl, sym, ap, ◌∙◌, true, false, Option, none, some, List, [], ◌∷◌, ◌++◌, map,
  String, arith, All, All-append, Pairs, gather, any, Bool-cases, inl, inr, ◌⊎◌, string_eq, nat_eq,
}
use rawrz.Prelude.Text.{str_leb_total, str_leb_trans}
use rawrz.Prelude.Sorting.{
  TotalOrder, sort, sort-perm, IsSorted, sort-IsSorted, All-sort, sort-ne-nil, any-sort, sort-Pairs,
  gather-sort,
}
use mathlib.Core.List.{append-nil, append_assoc, Perm, perm_middle}
use mathlib.Core.List.Perm
use rawrz.Search.Plan.Oldest.{NotAfterSet, is_time, min_search-All, min_search-attains}
use rawrz.Search.Plan.{
  Episode, Group, Seasons, same_key, episode_key, add_record, collect, min_search, episode_leb,
  group_of, search_key, group_leb, build_groups,
}

-- The episodes of the dict, key after key.
abbrev held : Seasons → List Episode
held = gather (λ (k, es). es)

held-add_record : (d : Seasons) (e : Episode) → Perm (held (add_record d e)) (e ∷ held d)
unfolding add_record
held-add_record [] e = Perm.refl (e ∷ [])
held-add_record ((k, es) ∷ rest) e = elim (Bool-cases (same_key k (episode_key e))) [
  | inl here ↦ rw (here, append_assoc es (e ∷ []) (held rest)) (perm_middle es (held rest))
  | inr on ↦
      rw on (Perm.trans (Perm.append_left es (held-add_record rest e)) (perm_middle es (held rest)))
]

held-collect : (d : Seasons) (es : List Episode) → Perm (held (collect d es)) (es ++ held d)
unfolding collect
held-collect d [] = Perm.refl (held d)
held-collect d (e ∷ es) =
    Perm.trans (held-collect (add_record d e) es)
      (Perm.trans (Perm.append_left es (held-add_record d e)) (perm_middle es (held d)))

gather-group_of :
    (d : Seasons) → Perm (gather (λ (g : Group). g.episodes) (map group_of d)) (held d)
unfolding group_of
gather-group_of [] = Perm.refl []
gather-group_of ((k, es) ∷ d) = Perm.append (sort-perm episode_leb es) (gather-group_of d)

same_key_eq : (k l : ℕ × ℕ) → same_key k l ≡ true → (k.0 ≡ l.0) × (k.1 ≡ l.1)
same_key_eq (a, b) (c, d) h = ground arith

same_key_of : (k l : ℕ × ℕ) → k.0 ≡ l.0 → k.1 ≡ l.1 → same_key k l ≡ true
same_key_of (a, b) (c, d) p q = ground arith

same_key_refl : (k : ℕ × ℕ) → same_key k k ≡ true
same_key_refl (a, b) = ground arith

group_leb-TotalOrder : TotalOrder group_leb
unfolding group_leb
group_leb-TotalOrder = record {
  total = λ a b h. ground (arith, str_leb_total (search_key a) (search_key b));
  trans = λ a b c h k.
      let s = search_key a in
      let t = search_key b in
      let u = search_key c in
      ground (
        arith,
        str_leb_trans s t u,
        str_leb_trans u s t,
        str_leb_trans t u s,
        str_leb_trans u t s,
        str_leb_trans t s u,
        str_leb_trans s u t,
        str_leb_total s t,
        str_leb_total t u,
        str_leb_total s u,
      );
}

episode_leb-TotalOrder : TotalOrder episode_leb
episode_leb-TotalOrder = record { total = λ a b h. ground arith; trans = λ a b c h k. ground arith }

-- All episodes have the key.
abbrev HaveKey : ℕ × ℕ → List Episode → Type 0
HaveKey k = All (λ e. same_key k (episode_key e) ≡ true)

-- An entry of the dict: its episodes have its key, and there is one.
record IsEntry (p : (ℕ × ℕ) × List Episode) : Type 0 where
  filled : p.1 ≢ []
  keyed : HaveKey p.0 p.1

snoc-ne-nil {ℓ} : {A : Type ℓ} (xs : List A) (x : A) → xs ++ (x ∷ []) ≢ []
snoc-ne-nil [] x e = cc
snoc-ne-nil (y ∷ xs) x e = cc

add_record-IsEntry : (d : Seasons) (e : Episode) → All IsEntry d → All IsEntry (add_record d e)
unfolding add_record
add_record-IsEntry [] e h =
    (record { filled = λ p. cc; keyed = (same_key_refl (episode_key e), tt) }, tt)
add_record-IsEntry ((k, es) ∷ rest) e h = elim (Bool-cases (same_key k (episode_key e))) [
  | inl here ↦ rw here (
    record {
      filled = snoc-ne-nil es e;
      keyed = All-append (λ x. same_key k (episode_key x) ≡ true) es (e ∷ []) h.0.keyed (here, tt);
    },
    h.1,
  )
  | inr on ↦ rw on (h.0, add_record-IsEntry rest e h.1)
]

collect-IsEntry : (d : Seasons) (es : List Episode) → All IsEntry d → All IsEntry (collect d es)
unfolding collect
collect-IsEntry d [] h = h
collect-IsEntry d (e ∷ es) h = collect-IsEntry (add_record d e) es (add_record-IsEntry d e h)

abbrev Apart : (ℕ × ℕ) × List Episode → (ℕ × ℕ) × List Episode → Type 0
Apart p q = same_key p.0 q.0 ≡ false

add_record-Apart :
    (p : (ℕ × ℕ) × List Episode) (d : Seasons) (e : Episode)
    → same_key p.0 (episode_key e) ≡ false
    → All (Apart p) d
    → All (Apart p) (add_record d e)
unfolding add_record
add_record-Apart p [] e h a = (h, tt)
add_record-Apart p ((k, es) ∷ rest) e h a = elim (Bool-cases (same_key k (episode_key e))) [
  | inl here ↦ rw here a
  | inr on ↦ rw on (a.0, add_record-Apart p rest e h a.1)
]

add_record-Pairs : (d : Seasons) (e : Episode) → Pairs Apart d → Pairs Apart (add_record d e)
unfolding add_record
add_record-Pairs [] e h = (tt, tt)
add_record-Pairs ((k, es) ∷ rest) e h = elim (Bool-cases (same_key k (episode_key e))) [
  | inl here ↦ rw here h
  | inr on ↦ rw on (add_record-Apart (k, es) rest e on h.0, add_record-Pairs rest e h.1)
]

collect-Pairs : (d : Seasons) (es : List Episode) → Pairs Apart d → Pairs Apart (collect d es)
unfolding collect
collect-Pairs d [] h = h
collect-Pairs d (e ∷ es) h = collect-Pairs (add_record d e) es (add_record-Pairs d e h)

abbrev pub OfGroup : Group → Episode → Type 0
OfGroup g e = (e.series_id ≡ g.series_id) × (e.season_number ≡ g.season_number)

-- A recorded time is the time of one of the episodes.
abbrev pub Attained : Option String → List Episode → Type 0
Attained none es = Unit
Attained (some b) es = any (is_time b) es ≡ true

-- What the engine relies on in a group.
pub record IsSeason (g : Group) : Type 0 where
  pub filled : g.episodes ≢ []
  pub of_group : All (OfGroup g) g.episodes
  pub in_order : IsSorted episode_leb g.episodes
  pub oldest : All (λ (e : Episode). NotAfterSet e.last_search_time g.last_search) g.episodes
  pub attained : Attained g.last_search g.episodes

abbrev pub SameSeason : Group → Group → Type 0
SameSeason g h = (g.series_id ≡ h.series_id) × (g.season_number ≡ h.season_number)

pub record IsPlan (missing : List Episode) (groups : List Group) : Type 0 where
  pub kept : Perm (gather (λ (g : Group). g.episodes) groups) missing
  pub seasons : All IsSeason groups
  pub apart : Pairs (λ g h. ¬ SameSeason g h) groups
  pub in_order : IsSorted group_leb groups

episode_key-OfGroup :
    (k : ℕ × ℕ) (g : Group) (e : Episode)
    → k ≡ (g.series_id, g.season_number)
    → same_key k (episode_key e) ≡ true
    → OfGroup g e
episode_key-OfGroup k g e p h =
    let (a, b) = same_key_eq k (episode_key e) h in
    (sym a ∙ ap (λ (q : ℕ × ℕ). q.0) p, sym b ∙ ap (λ (q : ℕ × ℕ). q.1) p)

HaveKey-OfGroup :
    (k : ℕ × ℕ) (g : Group) (es : List Episode)
    → k ≡ (g.series_id, g.season_number)
    → HaveKey k es
    → All (OfGroup g) es
HaveKey-OfGroup k g [] p h = tt
HaveKey-OfGroup k g (e ∷ es) p h = (episode_key-OfGroup k g e p h.0, HaveKey-OfGroup k g es p h.1)

attained_of :
    (es : List Episode) (b : String)
    → ◌≡◌ {A = Option String} none (some b) ⊎ (any (is_time b) es ≡ true)
    → any (is_time b) es ≡ true
attained_of es b (inl e) = cc
attained_of es b (inr h) = h

min_search-Attained :
    (es : List Episode) (m : Option String)
    → min_search none es ≡ m
    → Attained m (sort episode_leb es)
min_search-Attained es none e = tt
min_search-Attained es (some b) e =
    any-sort episode_leb (is_time b) es ∙ attained_of es b (min_search-attains none es b e)

group_of-IsSeason : (p : (ℕ × ℕ) × List Episode) → IsEntry p → IsSeason (group_of p)
unfolding group_of
group_of-IsSeason (k, es) h = record {
  filled = sort-ne-nil episode_leb es h.filled;
  of_group =
      All-sort episode_leb (OfGroup (group_of (k, es))) es
        (HaveKey-OfGroup k (group_of (k, es)) es refl h.keyed);
  in_order = sort-IsSorted episode_leb-TotalOrder es;
  oldest = All-sort episode_leb _ es (min_search-All none es);
  attained = min_search-Attained es (min_search none es) refl;
}

map-IsSeason : (d : Seasons) → All IsEntry d → All IsSeason (map group_of d)
map-IsSeason [] h = tt
map-IsSeason (p ∷ d) h = (group_of-IsSeason p h.0, map-IsSeason d h.1)

map-Apart :
    (p : (ℕ × ℕ) × List Episode) (d : Seasons)
    → All (Apart p) d
    → All (λ h. ¬ SameSeason (group_of p) h) (map group_of d)
map-Apart p [] h = tt
map-Apart (k, es) ((l, fs) ∷ d) h =
    (λ same. unfold group_of in cc (same_key_of k l same.0 same.1, h.0), map-Apart (k, es) d h.1)

map-Pairs : (d : Seasons) → Pairs Apart d → Pairs (λ g h. ¬ SameSeason g h) (map group_of d)
map-Pairs [] h = tt
map-Pairs (p ∷ d) h = (map-Apart p d h.0, map-Pairs d h.1)

-- The groups hold the missing episodes, each as often as it was given. A group has an episode, all
-- of its episodes are of its season, in the order of their numbers, and it records the oldest of
-- their search times. No two groups are of one season, and they stand in the order of the search.
pub build_groups-IsPlan : (missing : List Episode) → IsPlan missing (build_groups missing)
unfolding build_groups
build_groups-IsPlan missing = record {
  kept =
      Perm.trans (gather-sort group_leb _ (map group_of d))
        (Perm.trans (gather-group_of d) held_all);
  seasons =
      All-sort group_leb IsSeason (map group_of d) (map-IsSeason d (collect-IsEntry [] missing tt));
  apart =
      sort-Pairs group_leb (λ g h. ¬ SameSeason g h)
        (λ g h apart same. apart (sym same.0, sym same.1)) (map group_of d)
        (map-Pairs d (collect-Pairs [] missing tt));
  in_order = sort-IsSorted group_leb-TotalOrder (map group_of d);
}
  where
    d : Seasons
    d = collect [] missing

    held_all : Perm (held (collect [] missing)) missing
    held_all = rw append-nil at (held-collect [] missing)
