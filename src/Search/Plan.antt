-- ===== src/Search/Plan.antt =====
-- scripts/search_missing_scoped_core.py: which episodes are searched for, how they are grouped by
-- season, and how the groups are cut into batches. A record of the API is a record of the fields
-- that the code reads, with `none` for a key that is absent or null.
pub mod Batches
pub mod Groups
pub mod Oldest
use rawrz.Prelude.{
  ℕ, ◌+◌, ◌<>◌, Bool, true, false, ◌&&◌, Option, none, some, List, [], ◌∷◌, ◌++◌, map, length,
  String, ltb, leb, if◌then◌else◌, ◌==◌, nat_eq, string_eq, sum_of, keep, not,
}
use rawrz.Prelude.Sorting.{sort}
use rawrz.Prelude.Text.{str_leb}

pub record Episode : Type 0 where
  pub id : ℕ
  pub series_id : ℕ
  pub season_number : ℕ
  pub episode_number : ℕ
  pub last_search_time : Option String

pub record Group : Type 0 where
  pub series_id : ℕ
  pub season_number : ℕ
  pub episodes : List Episode
  pub last_search : Option String

-- The dict of `build_groups`, in insertion order, from (series, season) to the episodes.
abbrev pub Seasons : Type 0
Seasons = List ((ℕ × ℕ) × List Episode)

abbrev pub same_key : ℕ × ℕ → ℕ × ℕ → Bool
same_key (a, b) (c, d) = (a == c) && (b == d)

abbrev pub episode_key : Episode → ℕ × ℕ
episode_key e = (e.series_id, e.season_number)

-- `groups.setdefault(key, []).append(record)`
unfoldable pub add_record : Seasons → Episode → Seasons
add_record [] e = (episode_key e, e ∷ []) ∷ []
add_record ((k, es) ∷ rest) e =
    if same_key k (episode_key e) then (k, es ++ (e ∷ [])) ∷ rest else (k, es) ∷ add_record rest e

unfoldable pub collect : Seasons → List Episode → Seasons
unfolding add_record
collect seasons [] = seasons
collect seasons (e ∷ rest) = collect (add_record seasons e) rest

unfoldable pub older : Option String → Option String → Option String
older b none = b
older none (some t) = if t == "" then none else some t
older (some b) (some t) = if t == "" then some b else some (if str_leb b t then b else t)

-- `min(searches) if searches else None` over the last search times that are set and not empty.
unfoldable pub min_search : Option String → List Episode → Option String
unfolding older
min_search best [] = best
min_search best (e ∷ rest) = min_search (older best e.last_search_time) rest

abbrev pub episode_leb : Episode → Episode → Bool
episode_leb a b = leb a.episode_number b.episode_number

unfoldable pub group_of : (ℕ × ℕ) × List Episode → Group
unfolding sort min_search
group_of ((series_id, season_number), es) = record {
  series_id = series_id;
  season_number = season_number;
  episodes = sort episode_leb es;
  last_search = min_search none es;
}

-- `group["last_search"] or "0000-01-01T00:00:00Z"`
unfoldable pub search_key : Group → String
search_key g = elim g.last_search [
  | none ↦ "0000-01-01T00:00:00Z"
  | some t ↦ if t == "" then "0000-01-01T00:00:00Z" else t
]

-- The order of the tuples (last search, series, season).
unfoldable pub group_leb : Group → Group → Bool
group_leb a b =
    if not (str_leb (search_key b) (search_key a))
    then true
    else if not (str_leb (search_key a) (search_key b))
    then false
    else if ltb a.series_id b.series_id
    then true
    else if ltb b.series_id a.series_id
    then false
    else leb a.season_number b.season_number

unfoldable pub build_groups : List Episode → List Group
unfolding collect group_of group_leb search_key sort
build_groups missing = sort group_leb (map group_of (collect [] missing))

abbrev pub size : List Group → ℕ
size = sum_of (λ (g : Group). length g.episodes)

-- The loop variables `batches`, `current` and `count`.
pub record Split : Type 0 where
  pub batches : List (List Group)
  pub current : List Group
  pub count : ℕ

abbrev pub is_empty {ℓ} : {A : Type ℓ} → List A → Bool
is_empty [] = true
is_empty (x ∷ xs) = false

-- `if current and count + len(group["episodes"]) > batch_size: ...`
unfoldable pub flush : ℕ → Group → Split → Split
flush batch_size group s =
    if not (is_empty s.current) && ltb batch_size (s.count + length group.episodes)
    then record { batches = s.batches ++ (s.current ∷ []); current = []; count = 0 }
    else s

unfoldable pub push : Group → Split → Split
push group s = record s {
  current = s.current ++ (group ∷ []);
  count = s.count + length group.episodes;
}

unfoldable pub split_loop : ℕ → Split → List Group → Split
unfolding flush push
split_loop batch_size s [] = s
split_loop batch_size s (group ∷ rest) =
    split_loop batch_size (push group (flush batch_size group s)) rest

unfoldable pub finish : Split → List (List Group)
finish s = if is_empty s.current then s.batches else s.batches ++ (s.current ∷ [])

abbrev pub start : Split
start = record { batches = []; current = []; count = 0 }

-- `none` is the ValueError.
unfoldable pub split_batches : List Group → ℕ → Option (List (List Group))
unfolding split_loop finish
split_batches groups batch_size =
    if ltb batch_size 1 then none else some (finish (split_loop batch_size start groups))

pub data SearchCommand : Type 0 where
  season_search : ℕ → ℕ → SearchCommand
  episode_search : List ℕ → SearchCommand

-- `none` is the IndexError of a group with no episode.
unfoldable pub search_command : Group → Option SearchCommand
search_command g = elim g.episodes [
  | [] ↦ none
  | e ∷ [] ↦ some (episode_search (e.id ∷ []))
  | e ∷ f ∷ rest ↦ some (season_search g.series_id g.season_number)
]

unfoldable pub search_commands_for : List Group → Option (List SearchCommand)
unfolding search_command
search_commands_for [] = some []
search_commands_for (g ∷ batch) = elim (search_command g) [
  | none ↦ none
  | some c ↦ elim (search_commands_for batch) [ none ↦ none | some cs ↦ some (c ∷ cs) ]
]

pub record Identity : Type 0 where
  pub series_id : ℕ
  pub season_number : ℕ
  pub episode_ids : List ℕ

unfoldable pub group_identity : Group → Identity
group_identity g = record {
  series_id = g.series_id;
  season_number = g.season_number;
  episode_ids = map (λ (e : Episode). e.id) g.episodes;
}
