-- ===== src/Arrivals.antt =====
-- scripts/arrival_notifier.py: one Discord message for each Seerr request whose media has arrived.
-- Times are whole numbers in one unit; a time that `parse_iso` cannot read is `none`. A request id is
-- the number whose text is the key of the state file.
pub mod Message
pub mod Notifier
pub mod Ids
pub mod Classified
pub mod Delivered
mod Tests
pub mod Once
pub mod Kinds
pub mod Refresh
pub mod Pending
pub mod Requests
use rawrz.Prelude.{
  ℕ, zero, suc, ◌+◌, ◌-◌, ◌<>◌, Bool, true, false, ◌&&◌, ◌||◌, not, Option, none, some, List, [],
  ◌∷◌, ◌++◌, map, String, length, keep, count_if, any, ltb, leb, if◌then◌else◌, contains, ◌==◌,
  nat_eq, string_eq,
}
use rawrz.Prelude.Result.{Result}
use rawrz.Exec
use rawrz.Exec.{Outcome, done, raised, stuck, ◌>>=◌, ◌>>◌, pure, raise}
use rawrz.Json.Int.{ℤ, pos, negsuc}

-- Seerr's request statuses.
pub data Status : Type 0 where
  pending approved declined failed completed unknown : Status

pub data Kind : Type 0 where
  movie tv other_kind : Kind

-- A record of Seerr's answer, the fields that are read. `available` is `media.status == 5`.
pub record Raw : Type 0 where
  pub id : Option ℕ
  pub status : Status
  pub kind : Kind
  pub created : Option ℕ
  pub tmdb_id : Option ℕ
  pub tvdb_id : Option ℕ
  pub title : Option String
  pub plex_username : Option String
  pub display_name : Option String
  pub available : Bool

pub record Request : Type 0 where
  pub id : Option ℕ
  pub status : Status
  pub kind : Kind
  pub tmdb_id : Option ℕ
  pub tvdb_id : Option ℕ
  pub title : Option String
  pub who : String
  pub created : Option ℕ
  pub available : Bool
  pub resolvable : Bool

-- An import of an *arr.
pub record Import : Type 0 where
  pub ts : Option ℕ
  pub season : Option ℕ
  pub episode : Option ℕ

-- `("import", newest)` and `("available", None)`.
pub data Arrived : Type 0 where
  imported : Import → Arrived
  was_available : Arrived

pub data Posted : Type 0 where
  posted not_posted : Posted
  broke : String → Posted

pub data App : Type 0 where
  radarr sonarr : App

pub record Section : Type 0 where
  pub type : String
  pub key : String

-- The network, the clock and the state file. An `err` is an exception of those that the code catches.
-- `requests` gives a page from `skip` on, `items` the ids that an *arr has for a movie or a show,
-- `imports` the import history of one of them, and `get` the sections that Plex answers at a URL.
pub record Host : Type 1 where
  pub Net : Type 0
  pub requests : ℕ → Net → Result (List Raw) × Net
  pub items : App → Option ℕ → Net → Result (List (Option ℕ)) × Net
  pub imports : App → ℕ → Net → Result (List Import) × Net
  pub get : String → Net → Result (List Section) × Net
  pub post : String → Net → Posted × Net
  pub now : Net → ℕ × Net
  pub save : Net → Bool × Net

-- An entry of `state["requests"]`.
pub record Notice : Type 0 where
  pub ts : ℕ
  pub how : Arrived

-- The state file, which reads as empty where it is absent or no JSON. `sent` has the id of each message
-- that went through, the last one first; no code reads it.
pub record World (H : Host) : Type 0 where
  pub net : H.Net
  pub file : List (ℕ × Notice)
  pub sent : List ℕ

abbrev pub Run : Host → Type 0 → Type 0
Run H = Exec.Run (World H)

-- The environment and the arguments.
pub record Config : Type 0 where
  pub has_keys : Bool
  pub has_webhook : Bool
  pub plex_base : String
  pub plex_token : String
  pub dry_run : Bool
  pub no_refresh : Bool

abbrev pub page : ℕ
page = 100

-- The truth of a number that may be absent.
abbrev pub is_set : Option ℕ → Bool
is_set none = false
is_set (some zero) = false
is_set (some (suc n)) = true

abbrev pub is_movie : Kind → Bool
is_movie movie = true
is_movie _ = false

abbrev filled : Option String → String → String
filled none rest = rest
filled (some s) rest = if s == "" then rest else s

-- `normalize_requests`, for one record.
unfoldable pub normalize : Raw → Request
normalize r = record {
  id = r.id;
  status = r.status;
  kind = r.kind;
  tmdb_id = r.tmdb_id;
  tvdb_id = r.tvdb_id;
  title = r.title;
  who = filled r.plex_username (filled r.display_name "unknown");
  created = r.created;
  available = r.available;
  resolvable = is_set (if is_movie r.kind then r.tmdb_id else r.tvdb_id);
}

-- `h["ts"] is not None and (created is None or h["ts"] > created)`
abbrev pub is_newer : Option ℕ → Import → Bool
is_newer created h = elim h.ts [
  | none ↦ false
  | some t ↦ elim created [ none ↦ true | some c ↦ ltb c t ]
]

abbrev pub time : Import → ℕ
time h = elim h.ts [ none ↦ 0 | some t ↦ t ]

-- `max(newer, key=...)`, the first of those that are the newest.
unfoldable pub newest : Import → List Import → Import
newest best [] = best
newest best (h ∷ hs) = newest (if ltb (time best) (time h) then h else best) hs

abbrev pub is_done : Status → Bool
is_done approved = true
is_done completed = true
is_done _ = false

abbrev pub by_status : Status → Bool → Option Arrived
by_status s available = if is_done s && available then some was_available else none

abbrev pub by_imports : List Import → Option Arrived → Option Arrived
by_imports [] rest = rest
by_imports (h ∷ hs) rest = some (imported (newest h hs))

unfoldable pub arrival_kind : Request → List Import → Bool → Option Arrived
unfolding newest
arrival_kind r history available =
    if r.resolvable
    then by_imports (keep (is_newer r.created) history) (by_status r.status available)
    else none

abbrev pub is_closed : Status → Bool
is_closed declined = true
is_closed failed = true
is_closed _ = false

-- `status in WATCH_STATUSES`
abbrev pub is_watched_status : Status → Bool
is_watched_status pending = true
is_watched_status approved = true
is_watched_status completed = true
is_watched_status _ = false

abbrev pub keys : List (ℕ × Notice) → List ℕ
keys = map (λ e. e.0)

-- A request that can be resolved and was not notified.
abbrev pub is_open : List (ℕ × Notice) → Request → Bool
is_open file r = elim r.id [
  | none ↦ false
  | some id ↦ r.resolvable && not (contains (keys file) id)
]

-- `watch_set`
abbrev pub is_watched : List (ℕ × Notice) → Request → Bool
is_watched file r = is_open file r && is_watched_status r.status

-- `requests_map[key] = entry` and `requests_map.pop(key, None)`.
unfoldable pub assign : ℕ → Notice → List (ℕ × Notice) → List (ℕ × Notice)
unfolding nat_eq
assign k e [] = (k, e) ∷ []
assign k e ((j, d) ∷ rest) =
    let others = assign k e rest in if j == k then (j, e) ∷ rest else (j, d) ∷ others

unfoldable pub pop : ℕ → List (ℕ × Notice) → List (ℕ × Notice)
unfolding nat_eq
pop k [] = []
pop k ((j, d) ∷ rest) = let others = pop k rest in if j == k then others else (j, d) ∷ others

pub record Arrival : Type 0 where
  pub request : Request
  pub how : Arrived

pub record Split : Type 0 where
  pub arrivals : List Arrival
  pub drops : List Request

-- The report: what was delivered, what failed, and the counts.
pub record Report : Type 0 where
  pub watched : ℤ
  pub delivered : List Arrival
  pub failures : List Arrival
  pub pending : ℤ

-- The code that a run ends with, and the report that it prints in JSON.
pub record Ended : Type 0 where
  pub exit_code : ℕ
  pub report : Option Report

abbrev pub minus : ℕ → ℕ → ℤ
minus m n = if leb n m then pos (m - n) else negsuc (n - m - 1)

-- `watching - n`
abbrev pub less : ℤ → ℕ → ℤ
less (pos m) n = minus m n
less (negsuc m) n = negsuc (m + n)
