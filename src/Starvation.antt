-- ===== src/Starvation.antt =====
-- archive/control-panel/control-panel/django/core/import_starvation.py: whether searches keep Radarr or
-- Sonarr from importing, and the removal of queued searches. Times are whole milliseconds; a time that
-- `_parse_ts` cannot read is `none`.
pub mod Threshold
pub mod Removals
pub mod Remedied
mod Tests
use rawrz.Prelude.{
  ℕ, suc, ◌+◌, ◌-◌, ◌*◌, ◌/◌, ◌%◌, Bool, true, false, ◌&&◌, ◌||◌, not, Option, none, some, List, [],
  ◌∷◌, ◌++◌, String, length, keep, count_if, ltb, leb, if◌then◌else◌, contains, ◌==◌, nat_eq,
  string_eq,
}
use rawrz.Prelude.Result.{Result}
use rawrz.Prelude.Sorting.{sort}
use rawrz.Prelude.Text.{str_leb}
use rawrz.Exec
use rawrz.Exec.{Outcome, done, raised, outcome_of, ◌>>=◌, ◌>>◌, pure}
use rawrz.Json.Int.{ℤ, pos, negsuc}

pub data Status : Type 0 where
  queued started ended : Status

-- A command of the queue of an app; `queued_at` is its time of queueing.
pub record Command : Type 0 where
  pub id : ℕ
  pub name : String
  pub status : Status
  pub queued_at : Option ℕ

pub data Event : Type 0 where
  grabbed imported : Event

-- The apps behind their API, and the clock. `newest` answers whether the history of an app has a record
-- of the event, with the time of the newest one. `cancel` says whether a command was removed.
pub record Host : Type 1 where
  pub Net : Type 0
  pub commands : String → Net → Result (List Command) × Net
  pub newest : String → Event → Net → Result (Option (Option ℕ)) × Net
  pub cancel : String → ℕ → Net → Bool × Net

-- `removals` records the app and the id of each removal that was sent, the last one first; no code
-- reads it.
pub record World (H : Host) : Type 0 where
  pub net : H.Net
  pub removals : List (String × ℕ)

abbrev pub Run : Host → Type 0 → Type 0
Run H = Exec.Run (World H)

-- STARVATION_THRESHOLD_SECONDS
abbrev pub threshold : ℕ
threshold = 300

abbrev pub refresh_command : String
refresh_command = "RefreshMonitoredDownloads"

abbrev pub search_commands : List String
search_commands =
    "MoviesSearch" ∷ "MovieSearch" ∷ "MissingMoviesSearch" ∷ "CutoffUnmetMoviesSearch"
    ∷ "MissingEpisodeSearch" ∷ "EpisodeSearch" ∷ "SeasonSearch" ∷ "SeriesSearch"
    ∷ "CutoffUnmetEpisodeSearch" ∷ []

abbrev pub is_active : Command → Bool
is_active c = elim c.status [ ended ↦ false | _ ↦ true ]

abbrev pub is_queued : Status → Bool
is_queued queued = true
is_queued _ = false

-- A refresh that waits, and a search that is queued.
abbrev pub is_waiting : Command → Bool
is_waiting c = (c.name == refresh_command) && is_queued c.status

abbrev pub is_search : Command → Bool
is_search c = is_queued c.status && contains search_commands c.name

-- `round` of a number of seconds: to the nearest one, and to the even one of two.
unfoldable pub round_half_even : ℕ → ℕ
unfolding nat_eq
round_half_even n =
    let q = n / 1000 in
    let r = n % 1000 in
    if ltb r 500 then q else if ltb 500 r then q + 1 else if q % 2 == 0 then q else q + 1

abbrev pub negated : ℕ → ℤ
negated n = if leb 1 n then negsuc (n - 1) else pos 0

-- `round((now - ts).total_seconds())`
unfoldable pub seconds : ℕ → ℕ → ℤ
unfolding round_half_even
seconds now ts =
    if leb ts now then pos (round_half_even (now - ts)) else negated (round_half_even (ts - now))

-- `max(ages)`, as the earliest time of queueing, and nothing if no time can be read.
abbrev pub earlier : Option ℕ → Option ℕ → Option ℕ
earlier none b = b
earlier (some a) none = some a
earlier (some a) (some b) = some (if ltb b a then b else a)

unfoldable pub earliest : List Command → Option ℕ
earliest [] = none
earliest (c ∷ cs) = earlier c.queued_at (earliest cs)

abbrev pub waited : ℕ → Option ℕ → ℤ
waited now none = pos 0
waited now (some t) = seconds now t

abbrev pub exceeds : ℤ → Bool
exceeds (pos n) = ltb threshold n
exceeds (negsuc n) = false

pub record Starvation : Type 0 where
  pub starved_seconds : ℤ
  pub refresh_queued : ℕ
  pub queued_searches : ℕ
  pub active_commands : ℕ

-- `refresh_starvation`, over the commands that the app answers.
unfoldable pub assess : ℕ → List Command → Starvation
unfolding earliest seconds string_eq
assess now commands =
    let active = keep is_active commands in
    let waiting = keep is_waiting active in
    record {
      starved_seconds = waited now (earliest waiting);
      refresh_queued = length waiting;
      queued_searches = count_if is_search active;
      active_commands = length active;
    }

pub record Lag : Type 0 where
  pub last_grab : Option ℕ
  pub last_import : Option ℕ
  pub lag_seconds : Option ℤ
  pub import_age_seconds : Option ℤ

abbrev pub lag_between : Option ℕ → Option ℕ → Option ℤ
lag_between (some g) (some i) = some (seconds g i)
lag_between _ _ = none

abbrev pub age_at : ℕ → Option ℕ → Option ℤ
age_at now none = none
age_at now (some t) = some (seconds now t)

-- `(lag or 0) > threshold`
abbrev pub is_lagging : Option ℤ → Bool
is_lagging none = false
is_lagging (some z) = exceeds z

abbrev dated : Option (Option ℕ) → Option ℕ
dated none = none
dated (some t) = t

pub record Verdict : Type 0 where
  pub app : String
  pub starved : Bool
  pub lagging : Bool
  pub starvation : Starvation
  pub lag : Lag

pub record Cleared : Type 0 where
  pub targeted : ℕ
  pub cancelled : ℕ
  pub failures : ℕ

abbrev pub tally : Bool → Cleared → Cleared
tally true c = record c { cancelled = suc c.cancelled }
tally false c = record c { failures = suc c.failures }

-- The result of `check_all`.
pub record Checked : Type 0 where
  pub apps : List Verdict
  pub remediated : List (String × Cleared)
  pub starved : List String
  pub lagging : List String

abbrev pub apps_with : (Verdict → Bool) → List Verdict → List String
apps_with p [] = []
apps_with p (v ∷ vs) = if p v then v.app ∷ apps_with p vs else apps_with p vs

abbrev pub only_lagging : Verdict → Bool
only_lagging v = v.lagging && not v.starved

module _ (H : Host) where
  unfoldable pub call : {A : Type 0} → (H.Net → Result A × H.Net) → Run H A
  call f w = let (r, t) = f w.net in (outcome_of r, record w { net = t })

  unfoldable pub refresh_starvation : ℕ → String → Run H Starvation
  refresh_starvation now app = call (H.commands app) >>= λ cs. pure (assess now cs)

  unfoldable pub grab_import_lag : ℕ → String → Run H Lag
  grab_import_lag now app = call (H.newest app grabbed) >>= λ g.
      call (H.newest app imported) >>= λ i. pure (record {
        last_grab = dated g;
        last_import = dated i;
        lag_seconds = lag_between (dated g) (dated i);
        import_age_seconds = age_at now (dated i);
      })

  unfoldable pub detect : ℕ → String → Run H Verdict
  detect now app = refresh_starvation now app >>= λ s. grab_import_lag now app >>= λ l.
      pure (record {
        app = app;
        starved = exceeds s.starved_seconds;
        lagging = is_lagging l.lag_seconds;
        starvation = s;
        lag = l;
      })

  unfoldable pub cancel : String → ℕ → Run H Bool
  cancel app id w =
      let (ok, t) = H.cancel app id w.net in
      (done ok, record w { net = t; removals = (app, id) ∷ w.removals })

  unfoldable pub cancel_all : String → List Command → Run H Cleared
  cancel_all app [] = pure (record { targeted = 0; cancelled = 0; failures = 0 })
  cancel_all app (c ∷ cs) =
      let others = cancel_all app cs in cancel app c.id >>= λ ok. others >>= λ r. pure (tally ok r)

  unfoldable pub clear_search_backlog : String → Run H Cleared
  clear_search_backlog app = call (H.commands app) >>= λ cs.
      let targets = keep is_search cs in
      cancel_all app targets >>= λ r. pure (record r { targeted = length targets })

  unfoldable pub remedy : Bool → Verdict → Run H (List (String × Cleared))
  remedy remediate v =
      if remediate && v.starved
      then (clear_search_backlog v.app >>= λ r. pure ((v.app, r) ∷ []))
      else pure []

  unfoldable pub check_each :
      Bool → ℕ → List String → Run H (List Verdict × List (String × Cleared))
  check_each remediate now [] = pure ([], [])
  check_each remediate now (app ∷ apps) =
      let others = check_each remediate now apps in
      detect now app >>= λ v.
      remedy remediate v >>= λ r. others >>= λ rest. pure (v ∷ rest.0, r ++ rest.1)

  -- `check_all`, over the apps that have a queue.
  unfoldable pub check_all : Bool → ℕ → List String → Run H Checked
  check_all remediate now apps = check_each remediate now apps >>= λ r. pure (record {
    apps = r.0;
    remediated = r.1;
    starved = sort str_leb (apps_with (λ v. v.starved) r.0);
    lagging = sort str_leb (apps_with only_lagging r.0);
  })
