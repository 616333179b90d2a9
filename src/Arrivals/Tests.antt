-- ===== src/Arrivals/Tests.antt =====
-- A Seerr with a film that an *arr has imported and a show that has not come.
use mathlib.Core.Path.{subst}
use rawrz.Prelude.{
  ℕ, zero, suc, ◌+◌, ◌≤◌, ◌≡◌, refl, true, false, if◌then◌else◌, String, none, some, List, [], ◌∷◌,
  map, take, drop, count_if, arith, ◌==◌, nat_eq, string_eq,
}
use mathlib.Core.Logic.{ite}
use rawrz.Prelude.Result.{Result}
use rawrz.Exec.{Outcome, done, ◌>>=◌, pure}
use rawrz.Exec.Ends.{Ends}
use rawrz.Arrivals.{
  approved, pending, movie, tv, Raw, Import, imported, posted, radarr, sonarr, Host, World, Config,
  Section, normalize, arrival_kind, is_watched,
}
use rawrz.Arrivals.Notifier.{
  seerr_requests, plex_section_refresh, run_on, fetch_from, ask, after_batch,
}
use rawrz.Arrivals.Message.{ends_with_slash}
use rawrz.Arrivals.Ids.{ids, Distinct}
use rawrz.Arrivals.Once.{ListsOnce, runs, runs-sent_once}
use rawrz.Arrivals.Delivered.{Posts}
use rawrz.Arrivals.Kinds.{Justified, arrival_kind-Justified}
use rawrz.Arrivals.Refresh.{Carries, plex_section_refresh_fails}
use rawrz.Arrivals.Pending.{Counts, run_on-Counts}
use rawrz.Arrivals.Requests.{HasRequests, seerr_requests-all}

abbrev film : Raw
film = record {
  id = some 4;
  status = approved;
  kind = movie;
  created = some 1000;
  tmdb_id = some 603;
  tvdb_id = none;
  title = some "A film";
  plex_username = some "neo";
  display_name = none;
  available = false;
}

abbrev show : Raw
show = record film { id = some 5; status = pending; kind = tv; tvdb_id = some 81189 }

abbrev listed : List Raw
listed = film ∷ show ∷ []

abbrev import_at : ℕ → Import
import_at t = record { ts = some t; season = none; episode = none }

abbrev sections_url : String
sections_url = "http://localhost:32400/library/sections?X-Plex-Token=secret"

abbrev movies : Section
movies = record { type = "movie"; key = "1" }

-- The state of the network is the clock; only the film has an item, and Plex answers where
-- its token is passed as it is.
abbrev small_host : Host
small_host = record {
  Net = ℕ;
  requests = λ skip t. (Result.ok (take 100 (drop skip listed)), t);
  items =
      λ app id t. elim app [ radarr ↦ (Result.ok (some 11 ∷ []), t) | sonarr ↦ (Result.ok [], t) ];
  imports = λ app id t. (Result.ok (import_at 900 ∷ import_at 2000 ∷ []), t);
  get = λ url t. ((if url == sections_url then Result.ok (movies ∷ []) else Result.err "401"), t);
  post = λ message t. (posted, t);
  now = λ t. (t, t + 1);
  save = λ t. (true, t);
}

abbrev settings : Config
settings = record {
  has_keys = true;
  has_webhook = true;
  plex_base = "http://localhost:32400";
  plex_token = "secret";
  dry_run = false;
  no_refresh = false;
}

small_host-Posts : Posts small_host
small_host-Posts m t e h = cc

listed_distinct : Distinct (ids (map normalize listed))
unfolding normalize nat_eq
listed_distinct = (refl, (refl, tt))

small_host-ListsOnce : ListsOnce small_host
unfolding seerr_requests fetch_from ask after_batch pure ◌>>=◌
small_host-ListsOnce zero w raws h = absurd (ground (arith, h))
small_host-ListsOnce (suc fuel) w raws h =
    subst (λ l. Distinct (ids (map normalize l))) (same raws h) listed_distinct
  where
    same :
        (raws : List Raw)
        → ◌≡◌ {A = Outcome (Result (List Raw))} (done (Result.ok listed)) (done (Result.ok raws))
        → listed ≡ raws
    same raws h = cc h

runs-sent_once_example :
    count_if
      (λ j. j == 4)
      (runs small_host
        ((settings, (3, 5000)) ∷ (settings, (3, 6000)) ∷ [])
        (record { net = 5000; file = []; sent = [] })).sent
    ≤ 1
runs-sent_once_example =
    runs-sent_once small_host small_host-Posts (λ t. refl) small_host-ListsOnce
      ((settings, (3, 5000)) ∷ (settings, (3, 6000)) ∷ []) 5000 4

film_arrived :
    arrival_kind (normalize film) (import_at 900 ∷ import_at 2000 ∷ []) false
    ≡ some (imported (import_at 2000))
unfolding normalize arrival_kind
film_arrived = refl

arrival_kind-Justified_example :
    ((normalize film).resolvable ≡ true)
    × Justified
        (normalize film)
        (import_at 900 ∷ import_at 2000 ∷ [])
        false
        (imported (import_at 2000))
arrival_kind-Justified_example =
    arrival_kind-Justified (normalize film) (import_at 900 ∷ import_at 2000 ∷ []) false
      (imported (import_at 2000)) film_arrived

-- The only URL that the Plex of `small_host` takes.
small_host-rejects :
    (url : String) (t : ℕ)
    → ¬ Carries "secret" url
    → (e : String) × ((small_host.get url t).0 ≡ Result.err e)
small_host-rejects url t other =
    elim ((string_eq).dec url sections_url)
      as (λ d.
        (e : String) × (◌≡◌ {A = Result (List Section)}
          (if ite d true false then Result.ok (movies ∷ []) else Result.err "401")
          (Result.err e))) [
            | yes same ↦ absurd (other ("http://localhost:32400/library/sections?", same))
            | no n ↦ ("401", refl)
          ]

secret_plain : ends_with_slash "secret" ≡ false
unfolding ends_with_slash nat_eq
secret_plain = refl

plex_section_refresh_fails_example :
    (plex_section_refresh small_host "http://localhost:32400" "secret" "movie"
      (record { net = 5000; file = []; sent = [] })).0
    ≡ done false
plex_section_refresh_fails_example =
    plex_section_refresh_fails small_host "http://localhost:32400" "secret" "movie"
      small_host-rejects secret_plain (record { net = 5000; file = []; sent = [] })

run_on-Counts_example :
    Ends
      (λ e w. Counts (count_if (is_watched []) (map normalize listed)) e.report)
      (run_on small_host settings [] (map normalize listed))
run_on-Counts_example = run_on-Counts small_host settings [] (map normalize listed)

small_host-HasRequests : HasRequests small_host listed
small_host-HasRequests skip t = refl

seerr_requests-all_example :
    (v : World small_host) × (seerr_requests small_host 3
        (record { net = 5000; file = []; sent = [] })
      ≡ (done (Result.ok listed), v))
seerr_requests-all_example =
    seerr_requests-all small_host listed small_host-HasRequests 3
      (record { net = 5000; file = []; sent = [] }) (omega arith)
