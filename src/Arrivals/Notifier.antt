-- ===== src/Arrivals/Notifier.antt =====
-- scripts/arrival_notifier.py: `classify_run`, `run` and the requests that they send.
use rawrz.Prelude.{
  ℕ, zero, suc, ◌+◌, ◌<>◌, Bool, true, false, not, Option, none, some, List, [], ◌∷◌, ◌++◌, map,
  String, length, count_if, ltb, if◌then◌else◌, ◌==◌, nat_eq, string_eq,
}
use rawrz.Prelude.Result.{Result}
use rawrz.Exec.{done, raised, stuck, ◌>>=◌, ◌>>◌, pure}
use rawrz.Json.Int.{ℤ}
use rawrz.Arrivals.{
  movie, tv, other_kind, Raw, Request, Import, Arrived, imported, was_available, Posted, posted,
  not_posted, broke, App, radarr, sonarr, Section, Host, Notice, World, Run, Config, page, is_set,
  is_movie, filled, normalize, arrival_kind, is_closed, is_watched_status, is_open, is_watched,
  assign, pop, Arrival, Split, Ended, minus, less,
}
use rawrz.Arrivals.Message.{place, url_of}

abbrev titled : Option String → String
titled t = filled t "Unknown title"

-- `build_message`
unfoldable pub build_message : Arrived → Request → String
unfolding place string_eq
build_message (imported h) r = elim r.kind [
  | tv ↦
      "📺 "
      <> titled r.title
      <> place h.season h.episode
      <> " has arrived on Plex — requested by "
      <> r.who
  | movie ↦ "🎬 " <> titled r.title <> " is now on Plex — requested by " <> r.who
  | other_kind ↦ "🎬 " <> titled r.title <> " is now on Plex — requested by " <> r.who
]
build_message was_available r =
    "🎬 " <> titled r.title <> " was already available — requested by " <> r.who

unfoldable pub pop_all : List Request → List (ℕ × Notice) → List (ℕ × Notice)
unfolding pop
pop_all [] file = file
pop_all (r ∷ rest) file = elim r.id [
  | none ↦ pop_all rest file
  | some id ↦ pop_all rest (pop id file)
]

-- The ids that are set, of the items that an *arr answers.
abbrev pub first_id : List (Option ℕ) → Option ℕ
first_id [] = none
first_id (i ∷ is) = if is_set i then i else first_id is

abbrev pub app_of : Request → App
app_of r = if is_movie r.kind then radarr else sonarr

abbrev pub item_of : Request → Option ℕ
item_of r = if is_movie r.kind then r.tmdb_id else r.tvdb_id

abbrev pub went_through : Result (List Section) → Bool
went_through (Result.ok x) = true
went_through (Result.err e) = false

abbrev pub arrived : Request → Option Arrived → Split
arrived r none = record { arrivals = []; drops = [] }
arrived r (some how) = record { arrivals = record { request = r; how = how } ∷ []; drops = [] }

abbrev pub join : Split → Split → Split
join a b = record { arrivals = a.arrivals ++ b.arrivals; drops = a.drops ++ b.drops }

abbrev or_nothing : Result (List Import) → List Import
or_nothing (Result.err e) = []
or_nothing (Result.ok hs) = hs

abbrev pub with_id : Option ℕ → List ℕ → List ℕ
with_id none ids = ids
with_id (some id) ids = id ∷ ids

abbrev pub sorted_out : Arrival → Bool → List Arrival × List Arrival → List Arrival × List Arrival
sorted_out a true (ds, fs) = (a ∷ ds, fs)
sorted_out a false (ds, fs) = (ds, a ∷ fs)

abbrev pub code_of : List Arrival → ℕ
code_of [] = 0
code_of (a ∷ rest) = 1

module _ (H : Host) where
  unfoldable pub ask : {A : Type 0} → (H.Net → A × H.Net) → Run H A
  ask f w = let (a, t) = f w.net in (done a, record w { net = t })

  unfoldable pub read : Run H (World H)
  read w = (done w, w)

  -- The next page of `seerr_requests`, or the end: a page that is not full is the last one.
  unfoldable pub after_batch :
      List Raw
      → (List Raw → Run H (Result (List Raw)))
      → Result (List Raw)
      → Run H (Result (List Raw))
  after_batch out more (Result.err e) = pure (Result.err e)
  after_batch out more (Result.ok batch) =
      if ltb (length batch) page then pure (Result.ok (out ++ batch)) else more (out ++ batch)

  -- `seerr_requests`, from `skip` on. The code has no bound on the pages; `fuel` is one.
  unfoldable pub fetch_from : ℕ → ℕ → List Raw → Run H (Result (List Raw))
  fetch_from zero skip out w = (stuck, w)
  fetch_from (suc fuel) skip out w =
      (ask (H.requests skip) >>= after_batch out (fetch_from fuel (skip + page))) w

  unfoldable pub seerr_requests : ℕ → Run H (Result (List Raw))
  seerr_requests fuel = fetch_from fuel 0 []

  unfoldable pub history_imports : App → Option ℕ → Run H (List Import)
  history_imports app none = pure []
  history_imports app (some id) = ask (H.imports app id) >>= λ r. pure (or_nothing r)

  unfoldable pub after_items : App → Result (List (Option ℕ)) → Run H (List Import)
  after_items app (Result.err e) = pure []
  after_items app (Result.ok ids) = history_imports app (first_id ids)

  unfoldable pub history_lookup : Request → Run H (List Import)
  history_lookup r = ask (H.items (app_of r) (item_of r)) >>= after_items (app_of r)

  -- One round of `classify_run`.
  unfoldable pub judge : List (ℕ × Notice) → Request → Run H Split
  judge file r =
      if not (is_open file r)
      then pure (record { arrivals = []; drops = [] })
      else if is_closed r.status
      then pure (record { arrivals = []; drops = r ∷ [] })
      else if not (is_watched_status r.status)
      then pure (record { arrivals = []; drops = [] })
      else history_lookup r >>= λ hs. pure (arrived r (arrival_kind r hs r.available))

  unfoldable pub classify_run : List (ℕ × Notice) → List Request → Run H Split
  classify_run file [] = pure (record { arrivals = []; drops = [] })
  classify_run file (r ∷ rs) =
      let others = classify_run file rs in
      judge file r >>= λ s. others >>= λ rest. pure (join s rest)

  -- The refresh of the first section of the wanted type.
  unfoldable pub refresh_first : String → String → String → List Section → Run H Bool
  refresh_first base token wanted [] = pure false
  refresh_first base token wanted (s ∷ ss) =
      let others = refresh_first base token wanted ss in
      if s.type == wanted
      then (ask (
            H.get (
              url_of (base <> "/library/sections/" <> s.key <> "/refresh?X-Plex-Token=" <> token)
                ""))
          >>= λ r. pure (went_through r))
      else others

  unfoldable pub after_sections : String → String → String → Result (List Section) → Run H Bool
  after_sections base token wanted (Result.err e) = pure false
  after_sections base token wanted (Result.ok ss) = refresh_first base token wanted ss

  -- `plex_section_refresh`
  unfoldable pub plex_section_refresh : String → String → String → Run H Bool
  plex_section_refresh base token wanted =
      if token == ""
      then pure false
      else ask (H.get (url_of (base <> "/library/sections?X-Plex-Token=" <> token) ""))
        >>= after_sections base token wanted

  unfoldable pub after_post : Request → Posted → Run H Bool
  after_post r posted w = (done true, record w { sent = with_id r.id w.sent })
  after_post r not_posted w = (done false, w)
  after_post r (broke e) w = (raised e, w)

  -- The message of an arrival: whether it went through.
  unfoldable pub send : Arrival → Run H Bool
  send a = ask (H.post (build_message a.how a.request)) >>= after_post a.request

  module _ (c : Config) where
    unfoldable pub refresh : Arrival → Run H Bool
    refresh a =
        if c.no_refresh
        then pure false
        else plex_section_refresh c.plex_base c.plex_token
            (if is_movie a.request.kind then "movie" else "show")

    -- The arrivals that were delivered, and those that failed.
    unfoldable pub deliver : List Arrival → Run H (List Arrival × List Arrival)
    deliver [] = pure ([], [])
    deliver (a ∷ rest) =
        let others = deliver rest in
        refresh a >> send a >>= λ b. others >>= λ r. pure (sorted_out a b r)

  -- `requests_map[...] = ...`
  unfoldable pub note_one : Arrival → Option ℕ → List (ℕ × Notice) → Run H (List (ℕ × Notice))
  note_one a none file = pure file
  note_one a (some id) file =
      ask H.now >>= λ now. pure (assign id (record { ts = now; how = a.how }) file)

  unfoldable pub note_all : List Arrival → List (ℕ × Notice) → Run H (List (ℕ × Notice))
  note_all [] file = pure file
  note_all (a ∷ rest) file = note_one a a.request.id file >>= λ noted. note_all rest noted

  unfoldable pub save_state : List (ℕ × Notice) → Run H (Unit {0})
  save_state file w =
      let (saved, t) = H.save w.net in
      if saved
      then (done tt, record w { net = t; file = file })
      else (raised "OSError", record w { net = t })

  module _ (c : Config) where
    -- What is left of `run` after the messages: the state and the report. `watching` is `pending_count`.
    unfoldable pub conclude :
        List (ℕ × Notice) → List Request → ℤ → List Arrival × List Arrival → Run H Ended
    conclude file drops watching (ds, fs) = note_all ds file >>= λ noted.
        save_state (pop_all drops noted)
        >> pure (record {
          exit_code = code_of fs;
          report = some (record {
            watched = watching;
            delivered = ds;
            failures = fs;
            pending = less watching (length ds + length fs);
          });
        })

    unfoldable pub act : List (ℕ × Notice) → ℤ → Split → Run H Ended
    act file watching s =
        if c.dry_run
        then pure (record { exit_code = 0; report = none })
        else if not c.has_webhook
        then save_state (pop_all s.drops file) >> pure (record { exit_code = 0; report = none })
        else deliver c s.arrivals >>= conclude file s.drops watching

    -- The run over the normalized requests.
    unfoldable pub run_on : List (ℕ × Notice) → List Request → Run H Ended
    run_on file rs = classify_run file rs >>= λ s.
        act file (minus (count_if (is_watched file) rs) (length s.arrivals)) s

    unfoldable pub after_fetch : List (ℕ × Notice) → Result (List Raw) → Run H Ended
    after_fetch file (Result.err e) = pure (record { exit_code = 2; report = none })
    after_fetch file (Result.ok raws) = run_on file (map normalize raws)

    -- `run`, with a bound on the pages that it may fetch.
    unfoldable pub run : ℕ → Run H Ended
    run fuel =
        if c.has_keys
        then (read >>= λ w. seerr_requests fuel >>= after_fetch w.file)
        else pure (record { exit_code = 2; report = none })
