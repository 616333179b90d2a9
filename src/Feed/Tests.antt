-- ===== src/Feed/Tests.antt =====
-- A Radarr that has imported two films, and a Sonarr that cannot be reached.
use rawrz.Prelude.{
  ℕ, ◌+◌, ◌-◌, ◌*◌, ◌≡◌, refl, ap, true, none, some, List, [], ◌∷◌, map, take, drop, Pairs, arith,
  nat_eq,
}
use rawrz.Prelude.Result.{Result}
use rawrz.Exec.{done, ◌>>=◌, pure}
use rawrz.Feed.{radarr, sonarr, imported, Raw, normalize_record}
use rawrz.Feed.Fresh.{Different}
use rawrz.Feed.Once.{IsHistory}
use rawrz.Feed.Runs.{Histories, runs, runs-Different, fresh_world}
use rawrz.Feed.Pages.{HasHistory, history_pages-Gets}
use rawrz.Feed.Poll.{
  Host, World, Config, Polled, no_state, history_pages, pages_from, ask, fetched, keep_page,
  after_page,
}

abbrev film : ℕ → Raw
film id = record {
  id = some id;
  event = imported;
  ts = some (id * 60);
  title = some "A film";
  source_title = none;
  year = none;
  item = some 3;
  item_id = none;
  series = none;
  series_id = none;
  season = none;
  episode = none;
  quality = none;
  source = none;
}

abbrev films : List Raw
films = film 8 ∷ film 7 ∷ []

-- The state of the network is the clock.
abbrev small_host : Host
small_host = record {
  Net = ℕ;
  history = λ app page t. elim app [
    | radarr ↦ (Result.ok (take 100 (drop ((page - 1) * 100) films)), t)
    | sonarr ↦ (Result.err "refused", t)
  ];
  cached = λ app page c t. (none, t);
  remember = λ app page c raws t. t;
  now = λ t. (t, t + 1);
  write = λ file t. (true, t);
}

films_apart : IsHistory (map (normalize_record radarr) films)
unfolding normalize_record
films_apart = record {
  apart = ((λ k e f. cc, tt), (tt, tt));
  positive = (λ k e. ground (arith, e), (λ k e. ground (arith, e), tt));
}

small_host-Histories : Histories small_host
unfolding history_pages pages_from ask fetched keep_page after_page ◌>>=◌ pure
small_host-Histories radarr cursor = record { at = λ w. films_apart }
small_host-Histories sonarr cursor = record { at = λ w. tt }

abbrev both : Config
both = record { has_key = λ app. true }

runs-Different_example :
    Pairs Different
      (runs small_host ((both, 600) ∷ (both, 1500) ∷ []) (fresh_world small_host 600)).log
runs-Different_example =
    runs-Different small_host (λ file t. refl) small_host-Histories
      ((both, 600) ∷ (both, 1500) ∷ []) 600

abbrev nothing_new : Polled
nothing_new = record { state = no_state; entries = []; reachable = 1 }

films-HasHistory : HasHistory small_host radarr films
films-HasHistory = record {
  answers = λ n t. ap (λ k. ok_films (take 100 (drop (k * 100) films))) (page_before n);
  uncached = λ page c t. refl;
}
  where
    ok_films : List Raw → Result (List Raw)
    ok_films l = Result.ok l

    page_before : (n : ℕ) → n + 1 - 1 ≡ n
    page_before n = omega arith

history_pages-Gets_example :
    (v : World small_host) × (history_pages small_host radarr none (fresh_world small_host 600)
      ≡ (done (Result.ok (map (normalize_record radarr) (take 500 films))), v))
history_pages-Gets_example =
    history_pages-Gets small_host radarr films films-HasHistory none (fresh_world small_host 600)
