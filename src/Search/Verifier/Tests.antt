-- ===== src/Search/Verifier/Tests.antt =====
-- A Sonarr with two downloads in its queue and one grab in its history, which a search for the series
-- 7 has left behind.
use rawrz.Prelude.{
  ℕ, ◌+◌, ◌-◌, ◌*◌, ◌≡◌, refl, ap, inl, Bool, true, false, none, some, List, [], ◌∷◌, String, take,
  drop, keep, count_if, arith, string_eq, nat_eq,
}
use rawrz.Prelude.Result.{Result}
use rawrz.Exec.{done}
use rawrz.Exec.Works.{Gives}
use rawrz.Json.{Json}
use rawrz.Json.Int.{ℤ, pos}
use rawrz.Json.Words.{as_int, reads, casefold}
use rawrz.Search.State.{Snapshot}
use rawrz.Exec.Halts.{IsEnded}
use rawrz.Search.Plan.{SearchCommand}
use rawrz.Search.Config.{SearchConfig}
use rawrz.Search.Engine.{Offender, Service, World, Reply, dict, absent}
use rawrz.Search.Engine.{IsTimely as IsMonotonic}
use rawrz.Search.Engine.Loop.{run}
use rawrz.Search.Reads.{sonarr, search-ends}
use rawrz.Search.Client.{
  Sonarr, EpisodeRecord, Page, Parsed, QueueRecord, HistoryRecord, is_record, is_grabbed, page_size,
  total_records, queue_key, fetch_queue_records, fetch_grab_history,
}
use rawrz.Search.Client.Pages.{Serves, fetch_queue_records-all}
use rawrz.Search.Client.History.{is_newer, NewestFirst, fetch_grab_history_complete}
use rawrz.Search.Verifier.{
  Expected, merge_offenders, verify_until_quiet, queue_observations, is_observed, queue_current,
  episode_ids,
}
use rawrz.Search.Verifier.Queue.{AreObserved, queue_observations-exact}
use rawrz.Search.Verifier.Merge.{IsMerge, merge_offenders-IsMerge}
use rawrz.Search.Verifier.Quiet.{IsTimely, Quiet, verify_until_quiet-Quiet}

abbrev row : ℤ → String → QueueRecord
row id title = record {
  download_id = none;
  row_id = some id;
  series_id = Json.int (pos 7);
  episode_id = Json.int (pos 71);
  episode_ids = none;
  title = some title;
  name = none;
  added = Json.null;
  command_id = Json.null;
}

abbrev rows : List QueueRecord
rows = row (pos 104) "Show.S01E01" ∷ row (pos 105) "Show.S01E02" ∷ []

abbrev grab : HistoryRecord
grab = record {
  id = Json.int (pos 12);
  date = "2026-01-02T00:00:00Z";
  event_type = Json.str "grabbed";
  download_id = none;
  episode_id = Json.int (pos 71);
  series_id = Json.int (pos 7);
  command_id = Json.null;
  source_title = "Show.S01E01";
}

abbrev grabs : List HistoryRecord
grabs = grab ∷ []

-- Page `n` of a list, without a total.
abbrev page_of : {R : Type 0} → List R → ℕ → ℕ → Page R
page_of xs n size = record { records = take size (drop ((n - 1) * size) xs); total = Json.null }

abbrev show : Parsed
show = record { series_id = Json.int (pos 7); series_title = some "Show"; has_episodes = true }

-- An episode that was aired and has no file.
abbrev missing : EpisodeRecord
missing = record {
  episode = record {
    id = 71;
    series_id = 7;
    season_number = 1;
    episode_number = 1;
    last_search_time = none;
  };
  monitored = true;
  has_file = false;
  aired = some 0;
}

-- The state of the network is the clock.
abbrev paged_sonarr : Sonarr
paged_sonarr = record {
  Net = ℕ;
  series = λ t. (Result.err "not asked", t);
  episodes = λ id t. (Result.ok (some (missing ∷ [])), t);
  queue = λ n size t. (Result.ok (some (page_of rows n size)), t + 1);
  history = λ n size t. (Result.ok (some (page_of grabs n size)), t + 1);
  parse = λ title t. (Result.ok show, t);
  today = λ t. t;
  now = λ t. t;
  sleep = λ d t. t + d;
}

page_before : (n : ℕ) → n + 1 - 1 ≡ n
page_before n = omega arith

no_total : total_records Json.null ≡ none
unfolding total_records
no_total = refl

rows-Serves : Serves paged_sonarr paged_sonarr.queue page_size rows
rows-Serves = record {
  page = λ n t. page_of rows (n + 1) page_size;
  answers = λ n t. refl;
  part = λ n t. ap (λ k. take 100 (drop (k * 100) rows)) (page_before n);
  counted = λ n t. inl no_total;
}

abbrev key_104 : String
key_104 = "queue:104"

row-key : queue_key (row (pos 104) "Show.S01E01") ≡ key_104
unfolding queue_key
row-key = refl

grabs-Serves : Serves paged_sonarr paged_sonarr.history page_size grabs
grabs-Serves = record {
  page = λ n t. page_of grabs (n + 1) page_size;
  answers = λ n t. refl;
  part = λ n t. ap (λ k. take 100 (drop (k * 100) grabs)) (page_before n);
  counted = λ n t. inl no_total;
}

one_grab : keep is_record grabs ≡ grabs
unfolding is_grabbed reads casefold as_int nat_eq
one_grab = refl

grabs-NewestFirst : (mark : String × ℤ) → NewestFirst mark (keep is_record grabs)
grabs-NewestFirst mark = rw one_grab (tt, tt)

abbrev mark : String × ℤ
mark = ("2026-01-01T00:00:00Z", pos 11)

fetch_queue_records-all_example :
    (t' : ℕ) × (fetch_queue_records paged_sonarr 3 5 ≡ (done rows, t'))
fetch_queue_records-all_example =
    fetch_queue_records-all paged_sonarr rows rows-Serves 3 5 (omega arith)

fetch_grab_history_complete_example :
    (rs : List HistoryRecord) × (t' : ℕ) × (fetch_grab_history paged_sonarr 2 (some mark) false 5
      ≡ (done rs, t'))
    × (keep (is_newer mark) rs ≡ keep (is_newer mark) (keep is_record grabs))
fetch_grab_history_complete_example =
    fetch_grab_history_complete paged_sonarr grabs mark grabs-Serves (grabs-NewestFirst mark) 2 5
      (omega arith)

abbrev stranger : String → Offender
stranger download = record {
  download_id = some download;
  title = "Other.S01E01";
  series_id = some (pos 7);
  parsed = "Other";
}

merge_offenders-IsMerge_example :
    IsMerge
      (stranger "a" ∷ [])
      (stranger "a" ∷ stranger "" ∷ [])
      (merge_offenders (stranger "a" ∷ []) (stranger "a" ∷ stranger "" ∷ []))
merge_offenders-IsMerge_example =
    merge_offenders-IsMerge (stranger "a" ∷ []) (stranger "a" ∷ stranger "" ∷ [])

abbrev season : Expected
season = record { series = 7 ∷ []; episodes = 71 ∷ 72 ∷ [] }

abbrev before : Snapshot
before = record { watermark = some mark; before_ids = key_104 ∷ [] }

paged_sonarr-IsTimely : IsTimely paged_sonarr
paged_sonarr-IsTimely = record {
  now-queue = λ p n t. omega arith;
  now-history = λ p n t. omega arith;
  now-parse = λ title t. omega arith;
  now-sleep = λ d t. omega arith;
}

verify_until_quiet-Quiet_example :
    Gives
      (Quiet paged_sonarr (0 + 3 * 1000))
      (verify_until_quiet paged_sonarr season 5 before 3 (some 9) 0)
verify_until_quiet-Quiet_example =
    verify_until_quiet-Quiet paged_sonarr season paged_sonarr-IsTimely 5 rows rows-Serves
      (omega arith) grabs grabs-Serves (omega arith) grabs-NewestFirst before 3 (some 9) 0

queue_observations-exact_example :
    Gives
      (λ seen t'. AreObserved season before [] (some 9) (λ title. Result.ok show) rows seen)
      (queue_observations paged_sonarr season 3 before [] (some 9) 0)
queue_observations-exact_example =
    queue_observations-exact paged_sonarr season rows rows-Serves (λ title. Result.ok show)
      (λ title t. refl) 3 before [] (some 9) 0 (omega arith)

-- The first row was there before, and the second one belongs to the series.
one_observed : count_if (is_observed season before [] (some 9)) rows ≡ 1
unfolding is_observed queue_key queue_current episode_ids as_int string_eq nat_eq
one_observed = refl

abbrev post : SearchCommand → ℕ → Result Reply × ℕ
post command t = (Result.ok (dict (Json.int (pos 9)) (Json.str "queued") Json.null), t)

abbrev status : ℕ → ℕ → Result Reply × ℕ
status id t =
    (Result.ok (dict (Json.int (pos id)) (Json.str "completed") (Json.str "successful")), t)

abbrev replaced : ℕ → Bool × ℕ
replaced t = (true, t)

abbrev served : Service
served = sonarr paged_sonarr 5 post status replaced

served-IsMonotonic : IsMonotonic served
served-IsMonotonic = record {
  now-sleep = λ d t. omega arith;
  now-status = λ id t. omega arith;
  now-replace = λ t. omega arith;
}

-- The seventh series is searched, and what the search brings is verified.
abbrev verified : SearchConfig
verified = record {
  series_ids = some (7 ∷ []);
  all_series = false;
  batch_size = pos 2;
  gap = pos 5;
  quiet_window = pos 3;
  checkpoint = true;
  verify = true;
  apply = true;
  timeout = pos 30;
  checkpoint_path = "search.json";
  base_url = "http://sonarr:8989/";
}

abbrev new_world : World served
new_world = record { net = 5; disk = absent; sent = [] }

search-ends_example : IsEnded (run served verified false new_world).0
search-ends_example =
    search-ends paged_sonarr paged_sonarr-IsTimely 5 rows rows-Serves (omega arith) grabs
      grabs-Serves (omega arith) grabs-NewestFirst post status replaced served-IsMonotonic verified
      false new_world
