-- ===== src/Search/Engine/Apply.antt =====
-- `SearchEngine._apply_group`: one group of the plan, from the state that its checkpoint has.
pub mod Marks
pub mod AtMostOnce
pub mod Synced
pub mod Halts
use rawrz.Prelude.{
  ℕ, Bool, true, false, ◌&&◌, not, Option, none, some, List, [], ◌∷◌, map, String, if◌then◌else◌,
}
use rawrz.Prelude.Result.{Result}
use rawrz.Json.{Json}
use rawrz.Json.Int.{ℤ, pos}
use rawrz.Search.Plan.{Episode, Group, Identity, SearchCommand, search_command}
use rawrz.Search.Checkpoint.{SeasonKey}
use rawrz.Search.State.{
  Status, VerificationStatus, Command, Snapshot, Verification, GroupState, Checkpoint, no_command,
  no_verification,
}
use rawrz.Search.Config.{SearchConfig}
use rawrz.Search.Engine.{
  Service, World, Run, Outcome, Reply, no_dict, dict, done, raised, stuck, VerificationReport,
  ◌>>=◌, ◌>>◌, pure, raise, call, reach, outcome_of, write,
}
use rawrz.Search.Engine.Command.{command_id, state, wait_for_command}

-- What a group adds to its batch's report, with the problem that ends the run.
pub record Applied : Type 0 where
  pub problem : Option String
  pub state : GroupState
  pub skipped : Bool
  pub command_failed : Bool
  pub verification : Option VerificationReport

abbrev pub identity_key : Identity → SeasonKey
identity_key i = (i.series_id, i.season_number)

abbrev pub is_safe : VerificationStatus → Bool
is_safe VerificationStatus.ok = true
is_safe VerificationStatus.not_requested = true
is_safe VerificationStatus.unavailable = true
is_safe _ = false

abbrev pub is_empty {ℓ} : {A : Type ℓ} → List A → Bool
is_empty [] = true
is_empty (x ∷ xs) = false

-- `_verification_checkpoint`
unfoldable pub verification_checkpoint : VerificationReport → Verification
verification_checkpoint r = record {
  status =
      if not (is_empty r.offenders)
      then VerificationStatus.aborted
      else if r.history_available
      then VerificationStatus.ok
      else VerificationStatus.unavailable;
  history_available = some r.history_available;
  history_count = r.history_count;
  queue_count = r.queue_count;
}

-- `_failed_verification_checkpoint`
unfoldable pub failed_verification_checkpoint : Option VerificationReport → Verification
failed_verification_checkpoint none = no_verification VerificationStatus.failed
failed_verification_checkpoint (some r) = record {
  status = VerificationStatus.failed;
  history_available = some r.history_available;
  history_count = r.history_count;
  queue_count = r.queue_count;
}

abbrev pub ended : Option String → GroupState → Bool → Option VerificationReport → Applied
ended problem g failed report = record {
  problem = problem;
  state = g;
  skipped = false;
  command_failed = failed;
  verification = report;
}

-- What a problem met before the wait for the command leaves.
abbrev stopped : String → GroupState → Applied
stopped problem g = ended (some problem) g false none

abbrev pub answer_of : Result Reply → Option Reply
answer_of (Result.ok reply) = some reply
answer_of (Result.err e) = none

-- `command["id"]` as the JSON that it is.
abbrev pub command_json : Command → Json
command_json command = elim command.id [ none ↦ Json.null | some n ↦ Json.int (pos n) ]

-- The group with its snapshot, before its command is posted.
abbrev pub marked : GroupState → Snapshot → GroupState
marked g snapshot = record g {
  snapshot = some snapshot;
  status = Status.running;
  command = no_command;
}

-- `fill` is the checkpoint with the state of this group put in: the group is an object inside of the
-- document that `_checkpoint_write` writes.
module _ (S : Service) (c : SearchConfig) (fill : GroupState → Checkpoint) (group : Group) where
  abbrev episode_ids : List ℕ
  episode_ids = map (λ (e : Episode). e.id) group.episodes

  abbrev series_ids : List ℕ
  series_ids = group.series_id ∷ []

  -- `_checkpoint_write`
  unfoldable pub save : GroupState → Run S (Unit {0})
  save g = if c.checkpoint then write S (fill g) else pure tt

  -- The command ended with `outcome`, and `report` is what verification found, if it was asked for.
  unfoldable pub conclude : Bool → GroupState → Option VerificationReport → Run S Applied
  conclude false g report = do
    let failed = record g {
      status = Status.failed;
      verification = failed_verification_checkpoint report;
    }
    save failed
    pure (ended (some "search command did not complete successfully") failed true report)
  conclude true g report = do
    let completed = record g {
      status = Status.completed;
      verification =
          if c.verify then g.verification else no_verification VerificationStatus.not_requested;
    }
    save completed
    pure (ended none completed false report)

  -- What the report means for the group, which has its counts already.
  unfoldable pub judge : Bool → GroupState → VerificationReport → Run S Applied
  judge outcome g report =
      if is_empty report.offenders then conclude outcome g (some report) else (do
        let failed = record g { status = Status.failed }
        save failed
        pure (ended (some "verification found suspect grab(s)") failed false (some report)))

  unfoldable pub verify_group : Bool → GroupState → Snapshot → Run S Applied
  verify_group outcome g snapshot = do
    report ←
        reach (S.verify_until_quiet series_ids episode_ids snapshot c.quiet_window g.command.id)
    judge outcome (record g { verification = verification_checkpoint report }) report

  -- The group after its command has been waited for.
  unfoldable pub settle : GroupState → Snapshot → Option Bool → Run S Applied
  settle g snapshot none = do
    let running = record g {
      status = Status.running;
      verification = no_verification VerificationStatus.pending;
    }
    save running
    pure (stopped "search command is still running; re-run with --resume" running)
  settle g snapshot (some outcome) =
      if c.verify then verify_group outcome g snapshot else conclude outcome g none

  unfoldable pub follow : GroupState → Snapshot → Reply → Run S Applied
  follow g snapshot response = do
    (outcome, final) ← wait_for_command S (λ now. save (record g { command = now })) response
    let waited = record g { command = final }
    save waited
    settle waited snapshot outcome

  -- `client.post_command(search_commands_for([group])[0])`, with what it raises caught.
  unfoldable pub post : Run S (Option Reply)
  post w = elim (search_command group) [
    | none ↦ (done none, w)
    | some command ↦
        let (r, s) = S.post_command command w.net in
        (
          done (answer_of r),
          record w { net = s; sent = (group.series_id, group.season_number) ∷ w.sent },
        )
  ]

  unfoldable pub accept_id : GroupState → Snapshot → Reply → Json → Json → Option ℕ → Run S Applied
  accept_id g snapshot response status result none =
      pure (stopped "search command returned no valid command ID; refusing to retry" g)
  accept_id g snapshot response status result (some n) = do
    let posted = record g { command = state n status result }
    save posted
    follow posted snapshot response

  unfoldable pub accept : GroupState → Snapshot → Option Reply → Run S Applied
  accept g snapshot none = pure (stopped "search command request failed; inspect and resume" g)
  accept g snapshot (some no_dict) =
      pure (stopped "search command returned no valid command ID; refusing to retry" g)
  accept g snapshot (some (dict id status result)) =
      accept_id g snapshot (dict id status result) status result
        (command_id (dict id status result))

  -- What follows the write that marks the group as running.
  unfoldable pub post_group : GroupState → Snapshot → Run S Applied
  post_group running snapshot = do answer ← post; accept running snapshot answer

  unfoldable pub launch : GroupState → Run S Applied
  launch g = do
    snapshot ← reach (S.capture series_ids episode_ids)
    save (marked g snapshot)
    post_group (marked g snapshot) snapshot

  -- A group whose command was posted by an earlier run.
  unfoldable pub resume_from : GroupState → Option Snapshot → Run S Applied
  resume_from g none = raise "TypeError: snapshot is None"
  resume_from g (some snapshot) =
      follow g snapshot (dict (command_json g.command) g.command.status g.command.result)

  -- The branches on `status`, the verification status and whether there is a command id.
  unfoldable pub dispatch : Status → VerificationStatus → Option ℕ → GroupState → Run S Applied
  dispatch Status.pending v id g = launch g
  dispatch Status.running v none g =
      pure (stopped "checkpoint has an ambiguous group with no command ID; refusing to POST" g)
  dispatch Status.running v (some n) g = resume_from g g.snapshot
  dispatch Status.completed v id g =
      if is_safe v
      then pure (record (ended none g false none) { skipped = true })
      else resume_from g g.snapshot
  dispatch Status.failed v id g =
      pure (stopped "checkpoint contains a failed group; inspect it before resuming" g)

  unfoldable pub apply_group : GroupState → Run S Applied
  apply_group g = dispatch g.status g.verification.status g.command.id g
