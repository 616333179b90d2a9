-- ===== src/Search/Engine/Loop.antt =====
-- `SearchEngine.run`: the plan or the checkpoint, then batch after batch.
pub mod Covered
pub mod Groups
pub mod Batches
pub mod Planned
pub mod Once
pub mod Runs
pub mod Halts
use rawrz.Prelude.{
  ℕ, zero, suc, ◌+◌, ◌-◌, ◌*◌, Bool, true, false, ◌&&◌, ◌||◌, not, Option, none, some, List, [],
  ◌∷◌, ◌++◌, map, String, length, sum_of, any, gather, if◌then◌else◌, ◌<>◌, ◌==◌, nat_eq,
}
use rawrz.Search.Plan.{
  Episode, Group, Identity, SearchCommand, build_groups, split_batches, search_commands_for,
}
use rawrz.Json.Int.{ℤ, pos, negsuc}
use rawrz.Search.State.{Status, GroupState, Batch, Checkpoint, checkpoint_plan, encode}
use rawrz.Prelude.Result.{Result}
use rawrz.Search.Checkpoint.{validate as validate_json}
use rawrz.Search.Config.{SearchConfig, checkpoint_config, same_config, validate}
use rawrz.Search.Engine.{
  Service, World, Run, Outcome, Disk, absent, unreadable, stored, Offender, done, raised,
  VerificationReport, ◌>>=◌, ◌>>◌, pure, raise, reach, write,
}
use rawrz.Search.Engine.Apply.{Applied, apply_group}

pub record BatchReport : Type 0 where
  pub number : ℕ
  pub total : ℕ
  pub episodes : ℕ
  pub commands : Option (List SearchCommand)
  pub groups : List Group
  pub dry_run : Bool
  pub command_failed : Bool
  pub verification : Option VerificationReport
  pub skipped_groups : ℕ

pub record RunResult : Type 0 where
  pub exit_code : ℕ
  pub summary : String
  pub missing_count : ℕ
  pub group_count : ℕ
  pub batch_count : ℕ
  pub reports : List BatchReport
  pub offenders : List Offender

abbrev pub refused : ℕ → String → RunResult
refused code summary = record {
  exit_code = code;
  summary = summary;
  missing_count = 0;
  group_count = 0;
  batch_count = 0;
  reports = [];
  offenders = [];
}

abbrev number_episodes : ℕ → List ℕ → List Episode
number_episodes n [] = []
number_episodes n (id ∷ ids) =
    record {
      id = id;
      series_id = 0;
      season_number = 0;
      episode_number = n;
      last_search_time = none;
    }
    ∷ number_episodes (suc n) ids

-- `_group_from_identity`; such episodes have an id and a number, and no other field is read.
unfoldable pub group_from_identity : Identity → Group
group_from_identity i = record {
  series_id = i.series_id;
  season_number = i.season_number;
  episodes = number_episodes 1 i.episode_ids;
  last_search = none;
}

-- `_report_for_batch`
unfoldable pub report_for_batch : ℕ → ℕ → List Group → Bool → BatchReport
unfolding search_commands_for
report_for_batch number total groups dry_run = record {
  number = number;
  total = total;
  episodes = sum_of (λ (g : Group). length g.episodes) groups;
  commands = search_commands_for groups;
  groups = groups;
  dry_run = dry_run;
  command_failed = false;
  verification = none;
  skipped_groups = 0;
}

abbrev latest : Option VerificationReport → Option VerificationReport → Option VerificationReport
latest old none = old
latest old (some r) = some r

-- What `_apply_group` writes into the report of its batch.
unfoldable pub add_applied : Applied → BatchReport → BatchReport
add_applied a r = record r {
  command_failed = r.command_failed || a.command_failed;
  verification = latest r.verification a.verification;
  skipped_groups = if a.skipped then suc r.skipped_groups else r.skipped_groups;
}

abbrev is_completed : GroupState → Bool
is_completed g = elim g.status [ Status.completed ↦ true | _ ↦ false ]

abbrev is_last {ℓ} : {A : Type ℓ} → List A → Bool
is_last [] = true
is_last (x ∷ xs) = false

abbrev found_offenders : Option VerificationReport → List Offender
found_offenders none = []
found_offenders (some r) = r.offenders

-- What the options and the file allow.
pub data Mode : Type 0 where
  stop : String → Mode
  resumed new : Mode

-- What a batch leaves: the problem that ends the run, its report and its states.
pub record Processed : Type 0 where
  pub problem : Option String
  pub report : BatchReport
  pub states : List GroupState

abbrev first_groups : List (List Group) → List Group
first_groups [] = []
first_groups (groups ∷ rest) = groups

abbrev pub other_groups : List (List Group) → List (List Group)
other_groups [] = []
other_groups (groups ∷ rest) = rest

module _ (S : Service) (c : SearchConfig) where
  -- A problem ends the loop; otherwise `more` goes on with it.
  unfoldable pub after_group :
      Option String
      → Applied
      → List GroupState
      → List GroupState
      → BatchReport
      → Run S Processed
      → Run S Processed
  after_group (some problem) applied before rest report more = pure (record {
    problem = some problem;
    report = add_applied applied report;
    states = before ++ (applied.state ∷ rest);
  })
  after_group none applied before rest report more = more

  -- The loop over the groups of a batch. `plug` puts the states of the batch into the checkpoint.
  unfoldable pub apply_groups :
      (List GroupState → Checkpoint)
      → List GroupState
      → List GroupState
      → BatchReport
      → Run S Processed
  apply_groups plug before [] report =
      pure (record { problem = none; report = report; states = before })
  apply_groups plug before (g ∷ rest) report =
      apply_group S c (λ x. plug (before ++ (x ∷ rest))) (group_from_identity g.identity) g
      >>= λ applied.
          after_group applied.problem applied before rest report
            (apply_groups plug (before ++ (applied.state ∷ [])) rest (add_applied applied report))

  -- The result of a run that a problem ends.
  unfoldable pub ended_by : String → BatchReport → RunResult → RunResult
  ended_by problem report result =
      let abort = not (is_last (found_offenders report.verification)) in
      record result {
        exit_code = if abort then 2 else 1;
        summary = if abort then "verify-abort: " <> problem else problem;
        offenders = found_offenders report.verification;
      }

  abbrev add_report : BatchReport → RunResult → RunResult
  add_report report result = record result { reports = result.reports ++ (report ∷ []) }

  abbrev pub nat_of : ℤ → ℕ
  nat_of (pos n) = n
  nat_of (negsuc n) = 0

  -- `time.sleep(self.config.gap)`
  unfoldable pub pause : Run S (Unit {0})
  pause w = (done tt, record w { net = S.sleep (1000 * nat_of c.gap) w.net })

  abbrev pub batch_plug :
      Checkpoint → List Batch → Batch → List Batch → List GroupState → Checkpoint
  batch_plug cp before batch rest ss = record cp {
    batches = before ++ (record batch { groups = ss } ∷ rest);
  }

  -- A problem ends the run, and so does a checkpoint after a batch that had work to do and is not the
  -- last. Otherwise `more` goes on, after the gap. The summary's batch numbers are left out.
  unfoldable pub after_batch :
      Option String → Processed → Batch → List Batch → RunResult → Run S RunResult → Run S RunResult
  after_batch (some problem) processed batch rest result more =
      pure (ended_by problem processed.report result)
  after_batch none processed batch rest result more =
      if c.checkpoint && any (λ g. not (is_completed g)) batch.groups && not (is_last rest)
      then pure (record result { summary = "checkpoint after batch" })
      else if not (is_last rest) && not (nat_of c.gap == 0)
      then pause >> more
      else more

  -- The groups of a batch: as they were planned, or, in an applied run, from their identities.
  unfoldable pub groups_for : List (List Group) → Batch → List Group
  groups_for planned batch =
      if c.apply
      then map (λ (g : GroupState). group_from_identity g.identity) batch.groups
      else first_groups planned

  -- What a dry run does with a batch.
  unfoldable pub verify_batch : List Group → BatchReport → Run S BatchReport
  verify_batch groups report =
      let series = map (λ (g : Group). g.series_id) groups in
      let episodes = map (λ (e : Episode). e.id) (gather (λ (g : Group). g.episodes) groups) in
      if c.verify
      then (reach (S.capture series episodes) >>= λ snapshot.
          reach (S.verify_until_quiet series episodes snapshot c.quiet_window none) >>= λ found.
          pure (record report { verification = some found }))
      else pure report

  -- The loop over the batches. The batch number is the position in the checkpoint, as its validation
  -- has it, so `batches[number - 1]` is the batch itself. A run with no checkpoint goes through the same
  -- states, and writes none; a dry run does not look at them. `planned` has the planned groups of the
  -- batches that are left.
  unfoldable pub run_batches :
      Checkpoint → ℕ → List Batch → List Batch → List (List Group) → RunResult → Run S RunResult
  run_batches cp total before [] planned result = pure result
  run_batches cp total before (batch ∷ rest) planned result =
      let groups = groups_for planned batch in
      let report = report_for_batch batch.number total groups (not c.apply) in
      if not c.apply
      then (verify_batch groups report >>= λ verified.
          run_batches cp total (before ++ (batch ∷ [])) rest (other_groups planned)
            (add_report verified result))
      else (apply_groups (batch_plug cp before batch rest) [] batch.groups report >>= λ processed.
          after_batch processed.problem processed batch rest (add_report processed.report result) (
            run_batches cp total (before ++ (record batch { groups = processed.states } ∷ [])) rest
              (other_groups planned) (add_report processed.report result)))

  abbrev complete : ℕ → ℕ → ℕ → RunResult
  complete missing groups batches = record {
    exit_code = 0;
    summary = "complete";
    missing_count = missing;
    group_count = groups;
    batch_count = batches;
    reports = [];
    offenders = [];
  }

  -- The loop from a checkpoint, planned or loaded, with the planned groups if it is planned.
  unfoldable pub run_checkpoint : ℕ → Checkpoint → List (List Group) → Run S RunResult
  run_checkpoint missing cp planned =
      run_batches cp (length cp.batches) [] cp.batches planned
        (complete missing (sum_of (λ (b : Batch). length b.groups) cp.batches) (length cp.batches))

  -- With a validated batch size the split does not raise.
  unfoldable pub planned :
      List Episode → Option (List (List Group)) → Run S (List Episode × List (List Group))
  planned missing none = raise "batch_size must be greater than zero"
  planned missing (some batches) = pure (missing, batches)

  -- `_plan_new`
  unfoldable pub plan_new : Run S (List Episode × List (List Group))
  plan_new = reach (S.fetch_missing (if c.all_series then none else c.series_ids)) >>= λ missing.
      planned missing (split_batches (build_groups missing) (nat_of c.batch_size))

  -- `_checkpoint_write` of a new plan.
  unfoldable pub write_plan : Checkpoint → Run S (Unit {0})
  write_plan cp = if c.apply && c.checkpoint then write S cp else pure tt

  unfoldable pub run_plan : List Episode → List (List Group) → Run S RunResult
  run_plan missing batches =
      if is_last missing then pure (refused 0 "no missing episodes to search") else (do
        let cp = checkpoint_plan (checkpoint_config c) batches
        write_plan cp
        run_checkpoint (length missing) cp batches)

  unfoldable pub run_new : Run S RunResult
  run_new = plan_new >>= λ (missing, batches). run_plan missing batches

  abbrev planned_episodes : Checkpoint → ℕ
  planned_episodes cp =
      sum_of (λ (b : Batch). sum_of (λ (g : GroupState). length g.identity.episode_ids) b.groups)
        cp.batches

  -- The resumed run, from what the file holds.
  unfoldable pub run_loaded : Checkpoint → Result (Unit {0}) → Run S RunResult
  run_loaded cp (Result.err e) = pure (refused 1 e)
  run_loaded cp (Result.ok u) =
      if same_config cp.config (checkpoint_config c)
      then run_checkpoint (planned_episodes cp) cp []
      else pure (refused 1 "checkpoint scope/config does not match this run")

  unfoldable pub run_resumed : Disk → Run S RunResult
  run_resumed absent = pure (refused 1 "checkpoint not found")
  run_resumed unreadable = pure (refused 1 "checkpoint is unreadable")
  run_resumed (stored cp) = run_loaded cp (validate_json (encode cp))

  abbrev pub exists : Disk → Bool
  exists absent = false
  exists _ = true

  unfoldable pub mode : Bool → Disk → Mode
  mode resume d = elim (validate c) [
    | some error ↦ stop error
    | none ↦
        if resume && not c.apply
        then stop "--resume requires --apply"
        else if resume && not c.checkpoint
        then stop "--resume requires checkpoints"
        else if c.apply && not c.checkpoint && exists d
        then stop "checkpoint exists; use --resume without --yes, or remove it after review"
        else if c.apply && resume
        then resumed
        else if c.apply && exists d
        then stop "checkpoint exists; pass --resume to continue safely"
        else new
  ]

  unfoldable pub run_mode : Mode → Run S RunResult
  run_mode (stop error) = pure (refused 1 error)
  run_mode resumed = λ w. run_resumed w.disk w
  run_mode new = run_new

  -- `run`
  unfoldable pub run : Bool → Run S RunResult
  run resume w = run_mode (mode resume w.disk) w
