-- ===== src/Search/Client.antt =====
-- scripts/search_missing_scoped_core.py: `SonarrClient`, which shapes the answers of the API. A record
-- is a record of the fields that are read, with `null` or `none` for a key that is absent. A text of
-- the API that is printed with `str` is a text; what is read by `_as_int` is any JSON value.
pub mod Pages
pub mod History
use rawrz.Prelude.{
  ℕ, zero, suc, ◌+◌, ◌*◌, ◌^◌, ◌<>◌, Bool, true, false, ◌&&◌, ◌||◌, not, Option, none, some, List,
  [], ◌∷◌, ◌++◌, map, String, length, all, keep, ltb, leb, if◌then◌else◌, ◌==◌, string_eq, nat_eq,
}
use rawrz.Prelude.Result.{Result}
use rawrz.Prelude.Text.{str_leb}
use rawrz.Exec
use rawrz.Exec.{Outcome, done, raised, stuck, outcome_of, ◌>>=◌, pure, raise}
use rawrz.Json.{Json, Fields}
use rawrz.Json.Int.{ℤ, pos, negsuc}
use rawrz.Json.Words.{as_int, reads}
use rawrz.Json.Dump.{decimal, dump}
use rawrz.Search.Plan.{Episode}

-- `monitored` is `record.get("monitored", True) is False` turned around, `has_file` the truth of
-- `hasFile`, and `aired` the time that `_parse_air_date` reads from `airDateUtc`.
pub record EpisodeRecord : Type 0 where
  pub episode : Episode
  pub monitored : Bool
  pub has_file : Bool
  pub aired : Option ℕ

pub record Series : Type 0 where
  pub id : ℕ
  pub episode_count : Json
  pub episode_file_count : Json

pub record QueueRecord : Type 0 where
  pub download_id : Option String
  pub row_id : Option ℤ
  pub series_id : Json
  pub episode_id : Json
  pub episode_ids : Option (List Json)
  pub title : Option String
  pub name : Option String
  pub added : Json
  pub command_id : Json

pub record HistoryRecord : Type 0 where
  pub id : Json
  pub date : String
  pub event_type : Json
  pub download_id : Option String
  pub episode_id : Json
  pub series_id : Json
  pub command_id : Json
  pub source_title : String

-- A page of an answer: the dict's `records` and `totalRecords`.
pub record Page (R : Type 0) : Type 0 where
  pub records : List R
  pub total : Json

-- What `/parse` answers: the id and the title of its series, and whether it has episodes.
pub record Parsed : Type 0 where
  pub series_id : Json
  pub series_title : Option String
  pub has_episodes : Bool

-- Sonarr behind `_request`, and the two clocks. An answer of another shape than the code asks for is
-- `none`. Pages have a number and a size.
pub record Sonarr : Type 1 where
  pub Net : Type 0
  pub series : Net → Result (Option (List Series)) × Net
  pub episodes : ℕ → Net → Result (Option (List EpisodeRecord)) × Net
  pub queue : ℕ → ℕ → Net → Result (Option (Page QueueRecord)) × Net
  pub history : ℕ → ℕ → Net → Result (Option (Page HistoryRecord)) × Net
  pub parse : String → Net → Result Parsed × Net
  pub today : Net → ℕ
  pub now : Net → ℕ
  pub sleep : ℕ → Net → Net

abbrev pub page_size : ℕ
page_size = 100

-- `_total_records`
unfoldable pub total_records : Json → Option ℕ
unfolding as_int
total_records v = elim (as_int v) [ some (pos n) ↦ some n | _ ↦ none ]

-- `parsed is not None and seen >= parsed`
abbrev pub reached : Option ℕ → ℕ → Bool
reached none seen = false
reached (some total) seen = leb total seen

unfoldable pub is_planned_missing : ℕ → EpisodeRecord → Bool
is_planned_missing now r =
    if not r.monitored || r.has_file
    then false
    else elim r.aired [ none ↦ false | some t ↦ leb t now ]

-- `_as_int(value) or 0`
abbrev or_zero : Option ℤ → ℤ
or_zero none = pos 0
or_zero (some z) = z

abbrev pub int_leb : ℤ → ℤ → Bool
int_leb (pos m) (pos n) = leb m n
int_leb (pos m) (negsuc n) = false
int_leb (negsuc m) (pos n) = true
int_leb (negsuc m) (negsuc n) = leb n m

-- Whether the statistics of a series leave an episode without a file.
unfoldable pub lacks_files : Series → Bool
unfolding as_int
lacks_files s =
    not (int_leb (or_zero (as_int s.episode_count)) (or_zero (as_int s.episode_file_count)))

abbrev text_json : Option String → Json
text_json none = Json.null
text_json (some s) = Json.str s

abbrev fallback : QueueRecord → Json
fallback r = Json.obj (
    Fields.field "added" r.added (
      Fields.field "episodeId" r.episode_id (
        Fields.field "seriesId" r.series_id (Fields.field "title" (text_json r.title) Fields.end))))

abbrev row_key : Option ℤ → QueueRecord → String
row_key (some id) r = "queue:" <> decimal id
row_key none r = "content:" <> dump (fallback r)

abbrev key_of : Option String → QueueRecord → String
key_of none r = row_key r.row_id r
key_of (some d) r = if d == "" then row_key r.row_id r else "download:" <> d

unfoldable pub queue_key : QueueRecord → String
unfolding decimal dump
queue_key r = key_of r.download_id r

unfoldable pub grab_key : HistoryRecord → String × ℤ
unfolding as_int
grab_key r = (r.date, or_zero (as_int r.id))

-- Python's order of pairs.
unfoldable pub key_leb : String × ℤ → String × ℤ → Bool
unfolding str_leb
key_leb (s, m) (t, n) = if s == t then int_leb m n else str_leb s t

abbrev is_one : Json → Bool
is_one (Json.int (pos n)) = n == 1
is_one (Json.bool b) = b
is_one (Json.real (pos n) places) = n == 10 ^ places
is_one _ = false

unfoldable pub is_grabbed : HistoryRecord → Bool
unfolding reads
is_grabbed r = is_one r.event_type || reads "grabbed" r.event_type

-- The truth of `_as_int(record.get("id"))`
abbrev pub nonzero : Option ℤ → Bool
nonzero none = false
nonzero (some (pos n)) = ltb 0 n
nonzero (some (negsuc n)) = true

abbrev pub is_record : HistoryRecord → Bool
is_record r = nonzero (as_int r.id) && is_grabbed r

-- `stop_at is not None and page_records and all(grab_key(record) <= stop_at ...)`
unfoldable pub is_met : Option (String × ℤ) → List HistoryRecord → Bool
is_met none rs = false
is_met (some key) [] = false
is_met (some key) (r ∷ rs) = all (λ r. key_leb (grab_key r) key) (r ∷ rs)

abbrev pub is_empty {ℓ} : {A : Type ℓ} → List A → Bool
is_empty [] = true
is_empty (x ∷ xs) = false

abbrev later : String × ℤ → String × ℤ → String × ℤ
later a b = if key_leb b a then a else b

-- `max(keys)` of a first key and the others, the first of them where they are equal.
unfoldable pub newest : String × ℤ → List HistoryRecord → String × ℤ
newest best [] = best
newest best (r ∷ rs) = newest (later best (grab_key r)) rs

-- `max(..., default=("", 0))`
unfoldable pub watermark_of : List HistoryRecord → String × ℤ
unfolding newest
watermark_of [] = ("", pos 0)
watermark_of (r ∷ rs) = newest (grab_key r) rs

-- The page loops have no bound in the code; `fuel` is the number of pages that they may read.
module _ (S : Sonarr) where
  abbrev pub Run : Type 0 → Type 0
  Run = Exec.Run S.Net

  abbrev pub call : {A : Type 0} → (S.Net → Result A × S.Net) → Run A
  call f t = let (r, t') = f t in (outcome_of r, t')

  -- An answer that must have the shape asked for.
  abbrev pub shaped : {A : Type 0} → Option A → Run A
  shaped none = raise "unexpected shape"
  shaped (some a) = pure a

  abbrev pub today : Run ℕ
  today t = (done (S.today t), t)

  unfoldable pub fetch_episodes : ℕ → Run (List EpisodeRecord)
  fetch_episodes id = call (S.episodes id) >>= shaped

  -- The episodes of a series that are missing at `now`.
  abbrev pub missing_at : List EpisodeRecord → ℕ → List Episode
  missing_at rs now = map (λ r. r.episode) (keep (is_planned_missing now) rs)

  unfoldable pub fetch_scoped : List ℕ → Run (List Episode)
  fetch_scoped [] = pure []
  fetch_scoped (id ∷ ids) =
      let rest = fetch_scoped ids in
      fetch_episodes id >>= λ rs. today >>= λ now. rest >>= λ more. pure (missing_at rs now ++ more)

  unfoldable pub fetch_series : ℕ → List Series → Run (List Episode)
  fetch_series now [] = pure []
  fetch_series now (s ∷ rest) =
      let others = fetch_series now rest in
      if lacks_files s
      then (fetch_episodes s.id >>= λ rs. others >>= λ more. pure (missing_at rs now ++ more))
      else others

  unfoldable pub fetch_missing : Option (List ℕ) → Run (List Episode)
  fetch_missing (some (id ∷ ids)) = fetch_scoped (id ∷ ids)
  fetch_missing _ = call S.series >>= shaped >>= λ all. today >>= λ now. fetch_series now all

  -- `return records`, or the next page.
  unfoldable pub after_page : {R : Type 0} → Bool → List R → Run (List R) → Run (List R)
  after_page true seen rest = pure seen
  after_page false seen rest = rest

  module _ {R : Type 0} (get : ℕ → ℕ → S.Net → Result (Option (Page R)) × S.Net) (size : ℕ) where
    -- `_fetch_pages`, from a page on, with the records of the pages before.
    unfoldable pub pages_from : ℕ → ℕ → List R → Run (List R)
    pages_from zero page records t = (stuck, t)
    pages_from (suc fuel) page records t =
        (call (get page size) >>= shaped >>= λ p.
        let seen = records ++ p.records in
        after_page (is_empty p.records || reached (total_records p.total) (length seen)) seen
          (pages_from fuel (page + 1) seen))
          t

  unfoldable pub fetch_queue_records : ℕ → Run (List QueueRecord)
  fetch_queue_records fuel = pages_from S.queue page_size fuel 1 []

  unfoldable pub fetch_queue_keys : ℕ → Run (List String)
  fetch_queue_keys fuel = fetch_queue_records fuel >>= λ rs. pure (map queue_key rs)

  -- The loop of `fetch_grab_history`.
  unfoldable pub history_from :
      Option (String × ℤ) → Bool → ℕ → ℕ → List HistoryRecord → Run (List HistoryRecord)
  history_from stop_at first_only zero page records t = (stuck, t)
  history_from stop_at first_only (suc fuel) page records t =
      (call (S.history page page_size) >>= shaped >>= λ p.
      let grabs = keep is_record p.records in
      let seen = records ++ grabs in
      after_page
        (first_only
          || is_met stop_at grabs
          || is_empty p.records
          || reached (total_records p.total) (page * page_size))
        seen (history_from stop_at first_only fuel (page + 1) seen))
        t

  unfoldable pub fetch_grab_history : ℕ → Option (String × ℤ) → Bool → Run (List HistoryRecord)
  fetch_grab_history fuel stop_at first_only = history_from stop_at first_only fuel 1 []

  unfoldable pub fetch_grab_watermark : ℕ → Run (String × ℤ)
  fetch_grab_watermark fuel = fetch_grab_history fuel none true >>= λ rs. pure (watermark_of rs)
