-- ===== src/Search/Engine.antt =====
-- scripts/search_missing_scoped_core.py: what the engine works with. `Service` is Sonarr behind its
-- client, the clock and the file system; `Run` is code that may raise.
pub mod Keeps
pub mod Command
pub mod Apply
pub mod Loop
use rawrz.Prelude.{ℕ, ◌+◌, ◌≤◌, Bool, Option, List, String, if◌then◌else◌}
use rawrz.Prelude.Result.{Result}
use rawrz.Exec
use rawrz.Exec.Halts.{IsEnded}
pub use rawrz.Exec.{Outcome, done, raised, stuck}
unfoldable pub use rawrz.Exec.{outcome_of, continue, ◌>>=◌, ◌>>◌, pure, raise}
use rawrz.Json.{Json}
use rawrz.Json.Int.{ℤ}
use rawrz.Search.Plan.{Episode, SearchCommand}
use rawrz.Search.Checkpoint.{SeasonKey, validate}
use rawrz.Search.State.{Snapshot, Checkpoint, encode}

-- A decoded answer to a command request: a dict with the three fields that are read, or no dict.
pub data Reply : Type 0 where
  no_dict : Reply
  dict : Json → Json → Json → Reply

pub record Offender : Type 0 where
  pub download_id : Option String
  pub title : String
  pub series_id : Option ℤ
  pub parsed : String

pub record VerificationReport : Type 0 where
  pub history_available : Bool
  pub history_count : ℕ
  pub queue_count : ℕ
  pub observations : ℕ
  pub offenders : List Offender

-- What a run meets outside of the engine. Times are milliseconds. The three reads of `SonarrClient` and
-- `Verifier` go through pages until the last one, so they may be `stuck`. `replace` says whether the
-- checkpoint file could be replaced; a kill of the process shows as a step that fails.
pub record Service : Type 1 where
  pub State : Type 0
  pub fetch_missing : Option (List ℕ) → State → Outcome (List Episode) × State
  pub post_command : SearchCommand → State → Result Reply × State
  pub command_status : ℕ → State → Result Reply × State
  pub capture : List ℕ → List ℕ → State → Outcome Snapshot × State
  pub verify_until_quiet :
      List ℕ → List ℕ → Snapshot → ℤ → Option ℕ → State → Outcome VerificationReport × State
  pub now : State → ℕ
  pub sleep : ℕ → State → State
  pub replace : State → Bool × State

-- The clock is monotonic, and a sleep lasts as long as it was asked for.
pub record IsTimely (S : Service) : Type 0 where
  pub now-sleep : (d : ℕ) (s : S.State) → S.now s + d ≤ S.now (S.sleep d s)
  pub now-status : (id : ℕ) (s : S.State) → S.now s ≤ S.now (S.command_status id s).1
  pub now-replace : (s : S.State) → S.now s ≤ S.now (S.replace s).1

-- The reads come to an end: no list of Sonarr has more and more pages.
pub record ReadsEnd (S : Service) : Type 0 where
  pub fetch_ends : (ids : Option (List ℕ)) (s : S.State) → IsEnded (S.fetch_missing ids s).0
  pub capture_ends :
      (series episodes : List ℕ) (s : S.State) → IsEnded (S.capture series episodes s).0
  pub verify_ends :
      (series episodes : List ℕ) (b : Snapshot) (q : ℤ) (id : Option ℕ) (s : S.State)
      → IsEnded (S.verify_until_quiet series episodes b q id s).0

-- A checkpoint file.
pub data Disk : Type 0 where
  absent unreadable : Disk
  stored : Checkpoint → Disk

-- `disk` is the file at the checkpoint path of the engine's configuration, the only one that its store
-- names. `sent` records the seasons whose search command was posted, the last one first; no code reads it.
pub record World (S : Service) : Type 0 where
  pub net : S.State
  pub disk : Disk
  pub sent : List SeasonKey

abbrev pub Run : Service → Type 0 → Type 0
Run S = Exec.Run (World S)

module _ {S : Service} {A : Type 0} where
  -- A call of the service.
  unfoldable pub call : (S.State → Result A × S.State) → Run S A
  call f w = let (r, s) = f w.net in (outcome_of r, record w { net = s })

  -- A read through the client.
  unfoldable pub reach : (S.State → Outcome A × S.State) → Run S A
  reach f w = let (r, s) = f w.net in (r, record w { net = s })

module _ (S : Service) where
  -- `CheckpointStore.write`: the file is replaced as a whole, or not at all.
  unfoldable pub write : Checkpoint → Run S (Unit {0})
  write c w = elim (validate (encode c)) [
    | Result.err e ↦ (raised e, w)
    | Result.ok u ↦
        let (replaced, s) = S.replace w.net in
        if replaced
        then (done tt, record w { net = s; disk = stored c })
        else (raised "checkpoint could not be written", record w { net = s })
  ]
