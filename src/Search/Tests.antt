-- ===== src/Search/Tests.antt =====
-- Runs of the scoped search against a small Sonarr: two seasons of one series, and a command that is
-- completed at the first poll.
use rawrz.Prelude.{
  ℕ, ◌+◌, ◌≤◌, ◌≡◌, refl, Bool, true, false, Option, none, some, List, [], ◌∷◌, map, String, All,
  Pairs, gather, nat_eq, string_eq,
}
use rawrz.Prelude.Text.{str_leb}
use rawrz.Prelude.Result.{Result}
use rawrz.Json.{Json}
use rawrz.Json.Int.{pos}
use rawrz.Search.Plan.{Episode, Group, build_groups, split_batches}
use rawrz.Search.Plan.Batches.{Fits, IsTight, all_groups-split_batches, split_batches-IsTight}
use rawrz.Search.Plan.Groups.{IsPlan, build_groups-IsPlan}
use rawrz.Search.State.{GroupState, Checkpoint, checkpoint_group, checkpoint_plan}
use rawrz.Prelude.{arith}
use rawrz.Search.State.{Command}
use rawrz.Search.Engine.Loop.{run}
use rawrz.Search.Engine.{done, IsTimely, Reply, Run, pure}
use rawrz.Search.Engine.Command.{wait_for_command}
use rawrz.Exec.Halts.{IsEnded}
use rawrz.Search.Engine.Command.Waiting.{Passes, wait_for_command-ends}
use rawrz.Search.Engine.Loop.{run}
use rawrz.Search.Config.{SearchConfig, checkpoint_config}
use rawrz.Search.Engine.{Service, World, dict, stored}
use rawrz.Search.Engine.Apply.AtMostOnce.{Untouched}
use rawrz.Search.Engine.Loop.Covered.{times, states_of, group_key, Apart}
use rawrz.Search.Engine.Loop.Planned.{checkpoint_plan-Apart}
use rawrz.Search.Engine.Loop.Once.{run_dry-Untouched}
use rawrz.Search.Engine.Loop.Runs.{runs, no_files, runs-at_most_once}

abbrev episode : ℕ → ℕ → ℕ → Option String → Episode
episode id season number searched = record {
  id = id;
  series_id = 1;
  season_number = season;
  episode_number = number;
  last_search_time = searched;
}

abbrev missing_episodes : List Episode
missing_episodes =
    episode 12 1 2 (some "2024-03-01T00:00:00Z")
    ∷ episode 21 2 1 none
    ∷ episode 11 1 1 (some "2024-02-01T00:00:00Z")
    ∷ []

-- The state is the clock.
abbrev small_sonarr : Service
small_sonarr = record {
  State = ℕ;
  fetch_missing = λ ids t. (done missing_episodes, t);
  post_command =
      λ command t. (Result.ok (dict (Json.int (pos 7)) (Json.str "queued") Json.null), t);
  command_status = λ id t.
      (Result.ok (dict (Json.int (pos id)) (Json.str "completed") (Json.str "successful")), t);
  capture = λ series episodes t. (done (record { watermark = none; before_ids = [] }), t);
  verify_until_quiet = λ series episodes snapshot window id t. (
    done (record {
      history_available = true;
      history_count = 1;
      queue_count = 0;
      observations = 2;
      offenders = [];
    }),
    t,
  );
  now = λ t. t;
  sleep = λ d t. t + d;
  replace = λ t. (true, t);
}

abbrev applied : SearchConfig
applied = record {
  series_ids = some (1 ∷ []);
  all_series = false;
  batch_size = pos 2;
  gap = pos 5;
  quiet_window = pos 60;
  checkpoint = true;
  verify = false;
  apply = true;
  timeout = pos 30;
  checkpoint_path = "search.json";
  base_url = "http://sonarr:8989/";
}

abbrev dry_run : SearchConfig
dry_run = record applied { apply = false }

-- A first run, a second one that is told to resume, a third one, and one with
-- another checkpoint file.
abbrev starts : List (SearchConfig × Bool × ℕ)
starts =
    (applied, false, 0)
    ∷ (applied, true, 60000)
    ∷ (applied, true, 90000)
    ∷ (record applied { checkpoint_path = "other.json" }, false, 120000)
    ∷ []

abbrev second_season : Group
second_season = record {
  series_id = 1;
  season_number = 2;
  episodes = episode 21 2 1 none ∷ [];
  last_search = none;
}

abbrev first_season : Group
first_season = record {
  series_id = 1;
  season_number = 1;
  episodes =
      episode 11 1 1 (some "2024-02-01T00:00:00Z")
      ∷ episode 12 1 2 (some "2024-03-01T00:00:00Z")
      ∷ [];
  last_search = some "2024-02-01T00:00:00Z";
}

build_groups_run : build_groups missing_episodes ≡ second_season ∷ first_season ∷ []
unfolding build_groups nat_eq str_leb string_eq
build_groups_run = refl

abbrev one_group : GroupState → Checkpoint
one_group g = record {
  config = checkpoint_config applied;
  batches = record { number = 1; groups = g ∷ [] } ∷ [];
}

runs-at_most_once_example : times (1, 1) (runs small_sonarr starts no_files "search.json").sent ≤ 1
runs-at_most_once_example =
    runs-at_most_once small_sonarr starts 0 "search.json" (1, 1) (refl, (refl, (refl, (refl, tt))))

abbrev planned_world : World small_sonarr
planned_world = record {
  net = 0;
  disk = stored (one_group (checkpoint_group second_season));
  sent = [];
}

build_groups-IsPlan_example : IsPlan missing_episodes (build_groups missing_episodes)
build_groups-IsPlan_example = build_groups-IsPlan missing_episodes

abbrev seasons : List Group
seasons = second_season ∷ first_season ∷ []

abbrev seasons_in_batches : List (List Group)
seasons_in_batches = (second_season ∷ []) ∷ (first_season ∷ []) ∷ []

seasons_split : split_batches seasons 2 ≡ some seasons_in_batches
unfolding split_batches
seasons_split = refl

split_batches-IsTight_example : All (Fits 2) seasons_in_batches × IsTight 2 seasons_in_batches
split_batches-IsTight_example =
    split_batches-IsTight seasons 2 {batches = seasons_in_batches} seasons_split

all_groups-split_batches_example : gather (λ b. b) seasons_in_batches ≡ seasons
all_groups-split_batches_example =
    all_groups-split_batches seasons 2 {batches = seasons_in_batches} seasons_split

planned_split : split_batches (build_groups missing_episodes) 2 ≡ some seasons_in_batches
unfolding build_groups split_batches nat_eq str_leb string_eq
planned_split = refl

checkpoint_plan-Apart_example :
    Pairs Apart
      (map group_key (states_of (checkpoint_plan (checkpoint_config applied) seasons_in_batches)))
checkpoint_plan-Apart_example =
    checkpoint_plan-Apart (checkpoint_config applied) missing_episodes 2 seasons_in_batches
      planned_split

run_dry-Untouched_example :
    Untouched small_sonarr planned_world (run small_sonarr dry_run false planned_world).1
run_dry-Untouched_example = run_dry-Untouched small_sonarr dry_run refl false planned_world

small_sonarr-IsTimely : IsTimely small_sonarr
small_sonarr-IsTimely = record {
  now-sleep = λ d t. omega arith;
  now-status = λ id t. omega arith;
  now-replace = λ t. omega arith;
}

abbrev no_update : Command → Run small_sonarr (Unit {0})
no_update c = pure tt

no_update-Passes : (t : ℕ) (c : Command) → Passes t (no_update c)
unfolding pure
no_update-Passes t c w h = (tt, h)

abbrev posted_reply : Reply
posted_reply = dict (Json.int (pos 7)) (Json.str "queued") Json.null

wait_for_command-ends_example :
    IsEnded (wait_for_command small_sonarr no_update posted_reply planned_world).0
wait_for_command-ends_example =
    wait_for_command-ends small_sonarr small_sonarr-IsTimely no_update no_update-Passes posted_reply
      planned_world
