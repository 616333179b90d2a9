-- ===== src/Drain/Tests.antt =====
-- A Sonarr queue with a provable item, a download that is another show, and one with no preview.
use rawrz.Prelude.{
  ℕ, ◌≡◌, ◌≢◌, refl, true, false, none, some, List, [], ◌∷◌, String, ◌==◌, string_eq, if◌then◌else◌,
}
use rawrz.Prelude.Result.{Result}
use rawrz.Json.{Json}
use rawrz.Json.Int.{pos}
use rawrz.Exec.{done}
use rawrz.Exec.Works.{Gives}
use rawrz.Drain.{
  sonarr, Item, Candidate, Parsed, completed, Api, World, skip, no_tally, entry, build_import_files,
  import_one, preview_safe, drain_item, drain,
}
use rawrz.Drain.Resolve.{Entries, build_import_files-Entries}
use rawrz.Drain.Outcomes.{Sent, ImportsSafely, import_one-ImportsSafely}
use rawrz.Drain.Counts.{drain_dry, drain_item-preview_failed, IsDrained, drain-IsDrained}

abbrev item : ℕ → String → Item
item id download = record { id = id; download_id = some download; parent_id = some 7 }

abbrev queue : List Item
queue = item 1 "good" ∷ item 2 "lost" ∷ []

abbrev candidate : Candidate
candidate = record {
  parent = some 7;
  episodes = 71 ∷ 72 ∷ [];
  path = some "/tv/Show.S01E01E02.mkv";
  relative_path = none;
  quality = Json.null;
  languages = Json.null;
}

abbrev show : Parsed
show = record { series_id = some 7; episodes = 72 ∷ 71 ∷ []; movie = none; movies = [] }

-- The network has no state: each answer depends on the question alone.
abbrev small_arr : Api
small_arr = record {
  Net = Unit {0};
  preview =
      λ id t. (if id == "good" then Result.ok (candidate ∷ []) else Result.err "timed out", t);
  parse = λ name t. (Result.ok show, t);
  post_import = λ files t. (Result.ok (some 5), t);
  command_status = λ id t. (Result.ok completed, t);
  delete = λ id t. (Result.ok tt, t);
  queue = λ t. (Result.ok queue, t);
  sleep = λ t. t;
}

abbrev start : World small_arr
start = record { net = tt; imports = []; deleted = [] }

build_import_files-Entries_example :
    (candidate ∷ [] ≢ [])
    × Entries sonarr (some "good") (candidate ∷ []) (entry sonarr (some "good") candidate 7 ∷ [])
build_import_files-Entries_example =
    build_import_files-Entries sonarr (candidate ∷ []) (some "good")
      (entry sonarr (some "good") candidate 7 ∷ []) (unfold build_import_files in refl)

import_one-ImportsSafely_example :
    ImportsSafely small_arr sonarr
      (item 1 "good")
      start
      (import_one small_arr sonarr true (item 1 "good") start).1
import_one-ImportsSafely_example = import_one-ImportsSafely small_arr sonarr (item 1 "good") start

drain_dry_example : Sent small_arr [] [] (drain small_arr sonarr false true (pos 5) start).1
drain_dry_example = drain_dry small_arr sonarr true (pos 5) start

drain_item-preview_failed_example :
    ((drain_item small_arr sonarr true true (item 2 "lost") no_tally start).1.deleted ≡ 2 ∷ [])
    × ((preview_safe small_arr sonarr (item 2 "lost") start).0 ≡ done skip)
unfolding string_eq
drain_item-preview_failed_example =
    drain_item-preview_failed small_arr sonarr (item 2 "lost") no_tally start "lost" "timed out"
      refl refl

drain-IsDrained_example :
    Gives
      (IsDrained small_arr sonarr (λ id t. (completed, refl)) (pos 5) queue start)
      (drain small_arr sonarr true true (pos 5) start)
drain-IsDrained_example =
    drain-IsDrained small_arr sonarr (λ id t. (completed, refl)) true true (pos 5) queue start refl
