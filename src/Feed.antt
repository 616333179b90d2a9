-- ===== src/Feed.antt =====
-- scripts/activity_feed.py: a feed of what Radarr and Sonarr imported and deleted. Times are whole
-- seconds; a date that `parse_iso` cannot read is `none`.
pub mod Poll
pub mod Fresh
pub mod Once
pub mod Runs
pub mod Pages
mod Tests
use rawrz.Prelude.{
  ℕ, zero, suc, ◌+◌, ◌-◌, Bool, true, false, ◌&&◌, ◌||◌, not, Option, none, some, List, [], ◌∷◌,
  ◌++◌, map, String, length, take, keep, any, ltb, leb, max, if◌then◌else◌, contains, ◌==◌, nat_eq,
}
use rawrz.Prelude.Sorting.{sort}

pub data App : Type 0 where
  radarr sonarr : App

-- The event types of the history that are told apart.
pub data Event : Type 0 where
  imported deleted skipped : Event

-- A record of the history, the fields that are read: `item` is the movie or the episode that is sent
-- along, `item_id` the id beside it, and likewise for the series.
pub record Raw : Type 0 where
  pub id : Option ℕ
  pub event : Event
  pub ts : Option ℕ
  pub title : Option String
  pub source_title : Option String
  pub year : Option ℕ
  pub item : Option ℕ
  pub item_id : Option ℕ
  pub series : Option ℕ
  pub series_id : Option ℕ
  pub season : Option ℕ
  pub episode : Option ℕ
  pub quality : Option String
  pub source : Option String

pub record Record : Type 0 where
  pub id : Option ℕ
  pub event : Event
  pub ts : Option ℕ
  pub title : String
  pub year : Option ℕ
  pub movie_id : Option ℕ
  pub season : Option ℕ
  pub episode : Option ℕ
  pub episode_id : Option ℕ
  pub series_id : Option ℕ
  pub quality : Option String
  pub source : Option String

pub data FeedKind : Type 0 where
  import upgrade delete : FeedKind

-- `item_key`: the three forms of text that it builds.
pub data Key : Type 0 where
  of_movie of_episode of_series : ℕ → Key

abbrev pub same_key : Key → Key → Bool
same_key (of_movie a) (of_movie b) = a == b
same_key (of_episode a) (of_episode b) = a == b
same_key (of_series a) (of_series b) = a == b
same_key _ _ = false

-- `state["last_import"]`
abbrev pub Imports : Type 0
Imports = List (Key × Option ℕ)

-- The state file: the cursor of each app, and the imports on record.
pub record State : Type 0 where
  pub radarr_cursor : Option ℕ
  pub sonarr_cursor : Option ℕ
  pub last_import : Imports

pub record Entry : Type 0 where
  pub app : App
  pub kind : FeedKind
  pub record_of : Record

abbrev pub backfill_seconds : ℕ
backfill_seconds = 86400

abbrev pub render_limit : ℕ
render_limit = 50

abbrev pub is_set : Option ℕ → Bool
is_set none = false
is_set (some zero) = false
is_set (some (suc n)) = true

-- `a or b`
abbrev pub or_else : Option ℕ → Option ℕ → Option ℕ
or_else a b = if is_set a then a else b

abbrev text_or : Option String → String → String
text_or none rest = rest
text_or (some String.[]) rest = rest
text_or (some (String.◌∷◌ c s)) rest = String.◌∷◌ c s

-- `normalize_record`
unfoldable pub normalize_record : App → Raw → Record
normalize_record app r = record {
  id = r.id;
  event = r.event;
  ts = r.ts;
  title = text_or r.title (text_or r.source_title "?");
  year = r.year;
  movie_id = elim app [ radarr ↦ or_else r.item r.item_id | sonarr ↦ none ];
  season = elim app [ radarr ↦ none | sonarr ↦ r.season ];
  episode = elim app [ radarr ↦ none | sonarr ↦ r.episode ];
  episode_id = elim app [ radarr ↦ none | sonarr ↦ or_else r.item r.item_id ];
  series_id = elim app [ radarr ↦ none | sonarr ↦ or_else r.series r.series_id ];
  quality = r.quality;
  source = r.source;
}

abbrev keyed : (ℕ → Key) → Option ℕ → Option Key → Option Key
keyed f none rest = rest
keyed f (some zero) rest = rest
keyed f (some (suc n)) rest = some (f (suc n))

unfoldable pub item_key : App → Record → Option Key
item_key radarr r = keyed of_movie r.movie_id none
item_key sonarr r = keyed of_episode r.episode_id (keyed of_series r.series_id none)

-- `key in last_import`
unfoldable pub on_record : Imports → Key → Bool
unfolding nat_eq
on_record [] k = false
on_record ((j, id) ∷ rest) k = same_key j k || on_record rest k

-- `last_import[key] = val` and `last_import.pop(key, None)`.
unfoldable pub assign : Key → Option ℕ → Imports → Imports
unfolding nat_eq
assign k v [] = (k, v) ∷ []
assign k v ((j, w) ∷ rest) =
    let others = assign k v rest in if same_key j k then (j, v) ∷ rest else (j, w) ∷ others

unfoldable pub pop : Key → Imports → Imports
unfolding nat_eq
pop k [] = []
pop k ((j, w) ∷ rest) = let others = pop k rest in if same_key j k then others else (j, w) ∷ others

abbrev of_import : Imports → Option Key → FeedKind
of_import imports none = import
of_import imports (some k) = if on_record imports k then upgrade else import

-- `kind_for`: the kind, if the record is one of the feed.
unfoldable pub kind_for : Event → Option Key → Imports → Option FeedKind
unfolding on_record
kind_for imported k imports = some (of_import imports k)
kind_for deleted k imports = some delete
kind_for skipped k imports = none

-- A value that is `None` is popped, also the id of an import that has none.
abbrev put : Key → Option ℕ → Imports → Imports
put k none imports = pop k imports
put k (some id) imports = assign k (some id) imports

-- The updates of `kind_for`, as `run` makes them.
unfoldable pub update : Event → Option Key → Option ℕ → Imports → Imports
unfolding assign pop
update imported (some k) id imports = put k id imports
update deleted (some k) id imports = pop k imports
update _ _ id imports = imports

abbrev pub later : Option ℕ → ℕ → Bool
later none id = true
later (some last) id = ltb last id

abbrev pub is_new : Option ℕ → List ℕ → Option ℕ → Bool
is_new cursor seen none = false
is_new cursor seen (some id) = not (contains seen id) && later cursor id

abbrev pub with_id : Option ℕ → List ℕ → List ℕ
with_id none seen = seen
with_id (some id) seen = id ∷ seen

-- `new_records`: ids that are later than the cursor, each once.
unfoldable pub new_records : Option ℕ → List ℕ → List Record → List Record
unfolding nat_eq
new_records cursor seen [] = []
new_records cursor seen (r ∷ rs) =
    let rest = new_records cursor (with_id r.id seen) rs in
    if is_new cursor seen r.id then r ∷ rest else rest

abbrev pub in_window : ℕ → Option ℕ → Bool
in_window now none = false
in_window now (some t) = leb now (t + backfill_seconds)

-- `backfill_cutoff`, with `ts >= now - window`.
unfoldable pub backfill_cutoff : ℕ → List Record → List Record
backfill_cutoff now rs = keep (λ r. in_window now r.ts) rs

abbrev pub higher : ℕ → Option ℕ → ℕ
higher best none = best
higher best (some id) = max best id

-- `max(ids)` and the number before it, over the ids that are there.
unfoldable pub highest : ℕ → List Record → ℕ
highest best [] = best
highest best (r ∷ rs) = highest (higher best r.id) rs

abbrev pub value : Option ℕ → ℕ
value none = 0
value (some n) = n

abbrev pub is_there : Option ℕ → Bool
is_there none = false
is_there (some n) = true

abbrev pub has_id : Record → Bool
has_id r = is_there r.id

-- `advance_cursor`
unfoldable pub advance_cursor : Option ℕ → List Record → Option ℕ
unfolding highest
advance_cursor cursor rs = if any has_id rs then some (highest (value cursor) rs) else cursor

-- `(ts or 0, id or 0) <= (ts or 0, id or 0)`
abbrev pub no_later : Record → Record → Bool
no_later a b =
    if value a.ts == value b.ts
    then leb (value a.id) (value b.id)
    else leb (value a.ts) (value b.ts)

unfoldable pub oldest_first : List Record → List Record
unfolding sort nat_eq
oldest_first rs = sort no_later rs

-- The cursor of an app that has none: the first record's.
abbrev pub seeded : Option ℕ → List Record → Option ℕ
seeded cursor [] = cursor
seeded cursor (r ∷ rs) = r.id

-- `entries.append(build_entry(...))`, unless the kind is none.
abbrev pub entered : App → Record → Option FeedKind → List Entry → List Entry
entered app r none es = es
entered app r (some kind) es = record { app = app; kind = kind; record_of = r } ∷ es

-- The loop over the fresh records of an app.
unfoldable pub process : App → Imports → List Record → Imports × List Entry
unfolding kind_for update item_key
process app imports [] = (imports, [])
process app imports (r ∷ rs) =
    let key = item_key app r in
    let rest = process app (update r.event key r.id imports) rs in
    (rest.0, entered app r (kind_for r.event key imports) rest.1)

-- `entries.sort(key=..., reverse=True)`, which keeps the order of equal ones.
unfoldable pub newest_first : List Entry → List Entry
unfolding sort
newest_first es = sort (λ a b. leb (value b.record_of.ts) (value a.record_of.ts)) es
