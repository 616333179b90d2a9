-- ===== src/Feed/Poll.antt =====
-- scripts/activity_feed.py: `history_pages` and `run`.
use rawrz.Prelude.{
  ℕ, zero, suc, ◌+◌, Bool, true, false, ◌&&◌, not, Option, none, some, List, [], ◌∷◌, ◌++◌, map,
  length, take, ltb, if◌then◌else◌,
}
use rawrz.Prelude.Result.{Result}
use rawrz.Exec
use rawrz.Exec.{Outcome, done, raised, stuck, ◌>>=◌, ◌>>◌, pure}
use rawrz.Feed.{
  App, radarr, sonarr, Raw, Record, State, Entry, render_limit, is_set, normalize_record,
  new_records, backfill_cutoff, advance_cursor, oldest_first, seeded, process, newest_first,
}

-- The files that a run writes, in order.
pub data Artifact : Type 0 where
  feed_log feed_json feed_rss state_file : Artifact

-- The history of each app behind `fetch_json`, where an `err` is an exception that the code catches;
-- the cache, for a page of an app and a cursor; the clock; and whether a file can be written.
pub record Host : Type 1 where
  pub Net : Type 0
  pub history : App → ℕ → Net → Result (List Raw) × Net
  pub cached : App → ℕ → Option ℕ → Net → Option (List Raw) × Net
  pub remember : App → ℕ → Option ℕ → List Raw → Net → Net
  pub now : Net → ℕ × Net
  pub write : Artifact → Net → Bool × Net

-- The files: the log of all entries, what the JSON and the RSS hold, and the state, which reads as empty
-- where it is absent or no JSON.
pub record World (H : Host) : Type 0 where
  pub net : H.Net
  pub log : List Entry
  pub json : List Entry
  pub rss : List Entry
  pub state : State

pub record Config : Type 0 where
  pub has_key : App → Bool

abbrev pub Run : Host → Type 0 → Type 0
Run H = Exec.Run (World H)

-- What the loop over the apps carries.
pub record Polled : Type 0 where
  pub state : State
  pub entries : List Entry
  pub reachable : ℕ

abbrev pub cursor_of : App → State → Option ℕ
cursor_of radarr s = s.radarr_cursor
cursor_of sonarr s = s.sonarr_cursor

abbrev pub with_cursor : App → Option ℕ → State → State
with_cursor radarr c s = record s { radarr_cursor = c }
with_cursor sonarr c s = record s { sonarr_cursor = c }

abbrev pub no_state : State
no_state = record { radarr_cursor = none; sonarr_cursor = none; last_import = [] }

-- The records that are fresh, the cursor before they are counted, and the two branches of `run`.
abbrev pub fresh_of : Bool → ℕ → Option ℕ → List Record → List Record
fresh_of true now cursor rs = new_records cursor [] rs
fresh_of false now cursor rs = backfill_cutoff now rs

abbrev pub base_of : Bool → Option ℕ → List Record → Option ℕ
base_of true cursor rs = cursor
base_of false cursor rs = seeded cursor rs

-- What `run` does with the history of one app.
unfoldable pub take_in : App → ℕ → List Record → Polled → Polled
unfolding oldest_first process advance_cursor
take_in app now rs p =
    let cursor = cursor_of app p.state in
    let fresh = oldest_first (fresh_of (is_set cursor) now cursor rs) in
    let handled = process app p.state.last_import fresh in
    record {
      state =
          record (with_cursor app (advance_cursor (base_of (is_set cursor) cursor rs) fresh)
            p.state) { last_import = handled.0 };
      entries = p.entries ++ handled.1;
      reachable = suc p.reachable;
    }

abbrev pub max_pages : ℕ
max_pages = 5

abbrev pub exit_of : Bool → ℕ
exit_of true = 0
exit_of false = 1

abbrev pub is_none : {A : Type 0} → List A → Bool
is_none [] = true
is_none (x ∷ xs) = false

abbrev pub and_more : List Record → Result (List Record) → Result (List Record)
and_more rs (Result.err e) = Result.err e
and_more rs (Result.ok more) = Result.ok (rs ++ more)

module _ (H : Host) where
  unfoldable pub ask : {A : Type 0} → (H.Net → A × H.Net) → Run H A
  ask f w = let (a, t) = f w.net in (done a, record w { net = t })

  unfoldable pub keep_page : App → ℕ → Option ℕ → Result (List Raw) → Run H (Result (List Raw))
  keep_page app page cursor (Result.err e) w = (done (Result.err e), w)
  keep_page app page cursor (Result.ok raws) w =
      (done (Result.ok raws), record w { net = H.remember app page cursor raws w.net })

  unfoldable pub fetched : App → ℕ → Option ℕ → Option (List Raw) → Run H (Result (List Raw))
  fetched app page cursor (some raws) = pure (Result.ok raws)
  fetched app page cursor none = ask (H.history app page) >>= keep_page app page cursor

  unfoldable pub after_page :
      App → Run H (Result (List Record)) → Result (List Raw) → Run H (Result (List Record))
  after_page app rest (Result.err e) = pure (Result.err e)
  after_page app rest (Result.ok raws) =
      let rs = map (normalize_record app) raws in
      if ltb (length raws) 100
      then pure (Result.ok rs)
      else rest >>= λ more. pure (and_more rs more)

  -- `history_pages`, with `left` pages to go.
  unfoldable pub pages_from : App → Option ℕ → ℕ → ℕ → Run H (Result (List Record))
  pages_from app cursor zero page = pure (Result.ok [])
  pages_from app cursor (suc left) page =
      let rest = pages_from app cursor left (page + 1) in
      ask (H.cached app page cursor) >>= fetched app page cursor >>= after_page app rest

  unfoldable pub history_pages : App → Option ℕ → Run H (Result (List Record))
  history_pages app cursor = pages_from app cursor max_pages 1

  -- The clock is read in the first run of an app only; elsewhere its answer goes unused.
  unfoldable pub read_clock : Bool → Run H ℕ
  read_clock true = pure 0
  read_clock false = ask H.now

  unfoldable pub after_history : App → Polled → Result (List Record) → Run H Polled
  after_history app p (Result.err e) = pure p
  after_history app p (Result.ok rs) =
      read_clock (is_set (cursor_of app p.state)) >>= λ now. pure (take_in app now rs p)

  unfoldable pub poll : Config → App → Polled → Run H Polled
  poll c app p =
      if c.has_key app
      then history_pages app (cursor_of app p.state) >>= after_history app p
      else pure p

  -- A write that fails ends the writes: `except OSError`.
  unfoldable pub write : Artifact → (World H → World H) → Run H Bool → Run H Bool
  write file change rest w =
      let (written, t) = H.write file w.net in
      if written then rest (change (record w { net = t })) else (done false, record w { net = t })

  unfoldable pub persist : State → List Entry → Run H Bool
  persist s es =
      write feed_log (λ w. record w { log = w.log ++ es })
        (write feed_json (λ w. record w { json = take render_limit es })
          (write feed_rss (λ w. record w { rss = take render_limit es })
            (write state_file (λ w. record w { state = s }) (pure true))))

  unfoldable pub conclude : Polled → Run H ℕ
  conclude p =
      if not (ltb 0 p.reachable) && is_none p.entries
      then pure 2
      else persist p.state (newest_first p.entries) >>= λ b. pure (exit_of b)

  -- `run`: its exit code.
  unfoldable pub run : Config → Run H ℕ
  run c w =
      (poll c radarr (record { state = w.state; entries = []; reachable = 0 }) >>= λ p.
      poll c sonarr p >>= conclude)
        w
