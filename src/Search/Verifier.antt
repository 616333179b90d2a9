-- ===== src/Search/Verifier.antt =====
-- scripts/search_missing_scoped_core.py: `Verifier`, which decides what a search has grabbed, and
-- whether each title belongs to what was searched for. Times are milliseconds.
mod Tests
pub mod Merge
pub mod Quiet
pub mod Queue
use rawrz.Prelude.{
  ℕ, zero, suc, ◌+◌, ◌-◌, ◌*◌, ◌<>◌, Bool, true, false, ◌&&◌, ◌||◌, not, Option, none, some, List,
  [], ◌∷◌, ◌++◌, map, String, length, any, keep, ltb, leb, min, if◌then◌else◌, contains, ◌==◌,
  string_eq, nat_eq,
}
use rawrz.Prelude.Result.{Result}
use rawrz.Exec.{Outcome, done, raised, stuck, ◌>>=◌, ◌>>◌, pure}
use rawrz.Json.{Json}
use rawrz.Json.Int.{ℤ, pos, negsuc}
use rawrz.Json.Words.{as_int}
use rawrz.Search.Config.{same_int}
use rawrz.Search.State.{Snapshot}
use rawrz.Search.Engine.{Offender, VerificationReport}
use rawrz.Search.Client.{
  Sonarr, Run, Parsed, QueueRecord, HistoryRecord, call, queue_key, grab_key, key_leb, is_grabbed,
  nonzero, is_empty, fetch_queue_records, fetch_queue_keys, fetch_grab_history,
  fetch_grab_watermark,
}

-- VERIFY_POLL_INTERVAL
abbrev pub verify_poll_interval : ℕ
verify_poll_interval = 1000

abbrev pub same_option : Option ℤ → Option ℤ → Bool
same_option none none = true
same_option (some a) (some b) = same_int a b
same_option _ _ = false

-- `value in expected`, for numbers that Sonarr gave to the planner.
abbrev pub expects : List ℕ → Option ℤ → Bool
expects ids (some (pos n)) = contains ids n
expects ids _ = false

abbrev ints : List Json → List (Option ℤ)
ints [] = []
ints (v ∷ vs) = as_int v ∷ ints vs

abbrev pub is_int : Option ℤ → Bool
is_int none = false
is_int (some z) = true

abbrev pub is_null : Json → Bool
is_null Json.null = true
is_null _ = false

-- The set `episode_ids` of a queue record.
unfoldable pub episode_ids : QueueRecord → List (Option ℤ)
unfolding as_int
episode_ids r = elim r.episode_ids [
  | none ↦ keep is_int (as_int r.episode_id ∷ [])
  | some vs ↦ keep is_int (ints vs)
]

abbrev pub is_download : List String → Option String → Bool
is_download keys none = false
is_download keys (some d) = contains keys d

-- Whether a download was in the queue before.
abbrev is_before : Snapshot → Option String → Bool
is_before s none = false
is_before s (some d) = contains s.before_ids ("download:" <> d)

-- `command_ids`: the id of the command, unless it is absent or 0.
abbrev pub command_in : Option ℕ → Option ℤ → Bool
command_in none z = false
command_in (some zero) z = false
command_in (some (suc n)) z = same_option z (some (pos (suc n)))

-- `_as_int(command_id)`
abbrev pub command_int : Option ℕ → Option ℤ
command_int none = none
command_int (some n) = some (pos n)

-- The key of `merge_offenders`: the download id unless it is empty, else three of the fields.
pub data Key : Type 0 where
  by_download : String → Key
  by_content : String → Option ℤ → String → Key

abbrev content_key : Offender → Key
content_key o = by_content o.title o.series_id o.parsed

abbrev download_key : Option String → Offender → Key
download_key none o = content_key o
download_key (some d) o = if d == "" then content_key o else by_download d

unfoldable pub offender_key : Offender → Key
offender_key o = download_key o.download_id o

abbrev pub same_offender_key : Key → Key → Bool
same_offender_key (by_download a) (by_download b) = a == b
same_offender_key (by_content s i p) (by_content t j q) = s == t && same_option i j && p == q
same_offender_key _ _ = false

-- `merged[key] = offender`, a dict in insertion order as the list of its values.
unfoldable pub put : List Offender → Offender → List Offender
unfolding offender_key
put [] o = o ∷ []
put (p ∷ ps) o =
    let rest = put ps o in
    if same_offender_key (offender_key p) (offender_key o) then o ∷ ps else p ∷ rest

unfoldable pub put_all : List Offender → List Offender → List Offender
unfolding put
put_all merged [] = merged
put_all merged (o ∷ os) = put_all (put merged o) os

-- `merge_offenders`
unfoldable pub merge_offenders : List Offender → List Offender → List Offender
unfolding put_all
merge_offenders first second = put_all (put_all [] first) second

abbrev pub titled : Option String → String
titled none = "NO_MATCH"
titled (some t) = if t == "" then "NO_MATCH" else t

-- Who verifies: the ids of the searched series and episodes.
pub record Expected : Type 0 where
  pub series : List ℕ
  pub episodes : List ℕ

-- What the queue and the history have seen: a count, the offenders, and the downloads.
pub record Seen : Type 0 where
  pub available : Bool
  pub offenders : List Offender
  pub count : ℕ
  pub downloads : List String

module _ (E : Expected) where
  -- The series that is reported agrees with the parsed one, or may be missing.
  abbrev pub agrees : Option ℤ → Option ℤ → Bool → Bool
  agrees (some z) parsed may_miss = same_option (some z) parsed
  agrees none parsed may_miss = may_miss

  unfoldable pub is_expected : Parsed → Option ℤ → Bool → Bool
  unfolding as_int
  is_expected p reported may_miss =
      p.has_episodes
      && expects E.series (as_int p.series_id)
      && agrees reported (as_int p.series_id) may_miss

  abbrev pub offender : Option String → String → Option ℤ → String → Offender
  offender download title reported parsed = record {
    download_id = download;
    title = title;
    series_id = reported;
    parsed = parsed;
  }

  -- `_parse_and_classify`, over what the parse gave or raised.
  unfoldable pub classify :
      String → Option ℤ → Option String → Bool → Result Parsed → Option Offender
  unfolding is_expected
  classify title reported download may_miss (Result.err e) =
      some (offender download title reported ("parse error: " <> e))
  classify title reported download may_miss (Result.ok p) =
      if is_expected p reported may_miss
      then none
      else some (offender download title reported (titled p.series_title))

  -- `_history_current`
  unfoldable pub history_current : Snapshot → Option ℕ → HistoryRecord → Bool
  unfolding as_int string_eq nat_eq
  history_current s command r =
      if is_before s r.download_id
      then false
      else if is_null r.command_id
      then expects E.episodes (as_int r.episode_id)
      else command_in command (as_int r.command_id)

  -- The grabs of the history that are new since the watermark and belong to the command.
  unfoldable pub is_new_grab : Snapshot → Option ℕ → String × ℤ → HistoryRecord → Bool
  unfolding grab_key key_leb is_grabbed history_current
  is_new_grab s command mark r =
      not (key_leb (grab_key r) mark) && is_grabbed r && history_current s command r

  -- Whether a queue record belongs to the command, by its own id or by what it downloads.
  unfoldable pub queue_current : List String → Option ℕ → QueueRecord → Bool
  unfolding as_int episode_ids
  queue_current downloads command r =
      if is_null r.command_id
      then is_download downloads r.download_id
        || any (expects E.episodes) (episode_ids r)
        || (is_empty (episode_ids r) && expects E.series (as_int r.series_id))
        || not (is_int (as_int r.series_id))
      else same_option (as_int r.command_id) (command_int command)

  -- The queue records that are observed: not there before, and current.
  unfoldable pub is_observed : Snapshot → List String → Option ℕ → QueueRecord → Bool
  unfolding queue_key queue_current
  is_observed s downloads command r =
      not (contains s.before_ids (queue_key r)) && queue_current downloads command r

-- `str(value or "?")`
abbrev shown : String → String
shown s = if s == "" then "?" else s

abbrev text_or : Option String → String → String
text_or none rest = rest
text_or (some s) rest = if s == "" then rest else s

abbrev pub queue_title : QueueRecord → String
queue_title r = text_or r.title (text_or r.name "?")

abbrev pub with_offender : Option Offender → List Offender → List Offender
with_offender none os = os
with_offender (some o) os = o ∷ os

abbrev pub history_downloads : List HistoryRecord → List String
history_downloads [] = []
history_downloads (r ∷ rs) = elim r.download_id [
  | none ↦ history_downloads rs
  | some d ↦ d ∷ history_downloads rs
]

abbrev pub nothing_seen : Seen
nothing_seen = record { available = false; offenders = []; count = 0; downloads = [] }

module _ (S : Sonarr) where
  -- `try: ... except Exception:` with a value in place of what was raised.
  abbrev caught : {A : Type 0} → A → Outcome A × S.Net → Outcome A × S.Net
  caught a (raised e, t) = (done a, t)
  caught a (done b, t) = (done b, t)
  caught a (stuck, t) = (stuck, t)

  unfoldable pub recover : {A : Type 0} → A → Run S A → Run S A
  recover a m t = caught a (m t)

  -- `capture`: the watermark before the queue.
  unfoldable pub capture : ℕ → Run S Snapshot
  capture fuel = recover none (fetch_grab_watermark S fuel >>= λ m. pure (some m)) >>= λ mark.
      fetch_queue_keys S fuel >>= λ keys. pure (record { watermark = mark; before_ids = keys })

  unfoldable pub sleep : ℕ → Run S (Unit {0})
  sleep deadline t = (done tt, S.sleep (min verify_poll_interval (deadline - S.now t)) t)

  -- The report of a round is the last one if it has offenders, or no time remains.
  unfoldable pub after_round :
      ℕ → VerificationReport → Run S VerificationReport → Run S VerificationReport
  after_round deadline r rest t =
      if not (is_empty r.offenders) || leb deadline (S.now t)
      then (done r, t)
      else (sleep deadline >> rest) t

  -- The loop of `verify_until_quiet`, over one round.
  unfoldable pub quiet_loop : Run S VerificationReport → ℕ → ℕ → Run S VerificationReport
  quiet_loop once zero deadline t = (stuck, t)
  quiet_loop once (suc rounds) deadline t =
      (once >>= λ r. after_round deadline r (quiet_loop once rounds deadline)) t

  module _ (E : Expected) where
    -- `_parse_and_classify`
    unfoldable pub parse_and_classify :
        String → Option ℤ → Option String → Bool → Run S (Option Offender)
    parse_and_classify title reported download may_miss t =
        let (r, t') = S.parse title t in (done (classify E title reported download may_miss r), t')

    unfoldable pub check_grab : HistoryRecord → Run S (Option Offender)
    check_grab r = parse_and_classify (shown r.source_title) (as_int r.series_id) r.download_id true

    unfoldable pub check_row : QueueRecord → Run S (Option Offender)
    check_row r = parse_and_classify (queue_title r) (as_int r.series_id) r.download_id false

    -- The offenders among records, in order.
    unfoldable pub check_each :
        {R : Type 0} → (R → Run S (Option Offender)) → List R → Run S (List Offender)
    check_each check [] = pure []
    check_each check (r ∷ rs) =
        let rest = check_each check rs in check r >>= λ o. rest >>= λ os. pure (with_offender o os)

    unfoldable pub grabs_seen : List HistoryRecord → Run S Seen
    grabs_seen rs = check_each check_grab rs >>= λ os. pure (record {
      available = true;
      offenders = os;
      count = length rs;
      downloads = history_downloads rs;
    })

    -- `history_offenders`
    unfoldable pub history_since : ℕ → Snapshot → Option ℕ → Option (String × ℤ) → Run S Seen
    history_since fuel s command none = pure nothing_seen
    history_since fuel s command (some mark) = fetch_grab_history S fuel (some mark) false >>= λ rs.
        grabs_seen (keep (is_new_grab E s command mark) rs)

    unfoldable pub history_offenders : ℕ → Snapshot → Option ℕ → Run S Seen
    history_offenders fuel s command = history_since fuel s command s.watermark

    -- `queue_observations`
    unfoldable pub queue_observations :
        ℕ → Snapshot → List String → Option ℕ → Run S (ℕ × List Offender)
    queue_observations fuel s downloads command = fetch_queue_records S fuel >>= λ rs.
        let observed = keep (is_observed E s downloads command) rs in
        check_each check_row observed >>= λ os. pure (length observed, os)

    abbrev pub report : Seen → ℕ × List Offender → VerificationReport
    report h (count, os) = record {
      history_available = h.available;
      history_count = h.count;
      queue_count = count;
      observations = h.count + count;
      offenders = merge_offenders h.offenders os;
    }

    unfoldable pub verify_once : ℕ → Snapshot → Option ℕ → Run S VerificationReport
    verify_once fuel s command = recover nothing_seen (history_offenders fuel s command) >>= λ h.
        queue_observations fuel s h.downloads command >>= λ q. pure (report h q)

    -- Each round but the last sleeps a second, so one more than the seconds of the window are enough.
    unfoldable pub verify_until_quiet : ℕ → Snapshot → ℕ → Option ℕ → Run S VerificationReport
    verify_until_quiet fuel s quiet_window command t =
        quiet_loop (verify_once fuel s command) (quiet_window + 1) (S.now t + quiet_window * 1000) t
