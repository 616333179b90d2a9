-- ===== src/Search/Engine/Loop/Halts.antt =====
-- `SearchEngine.run`: each of its loops comes to an end.
use rawrz.Prelude.{
  ℕ, Bool, ◌&&◌, not, Option, none, some, List, [], ◌∷◌, ◌++◌, String, ◌==◌, nat_eq, any,
}
use rawrz.Prelude.Result.{Result}
use rawrz.Search.Plan.{Episode, Group, build_groups, split_batches}
use rawrz.Search.State.{GroupState, Batch, Checkpoint, encode}
use rawrz.Search.Checkpoint.{validate as validate_json}
use rawrz.Search.Config.{SearchConfig, same_config, checkpoint_config}
use rawrz.Search.Engine.{Service, IsTimely, ReadsEnd, World, Run, Disk, absent, unreadable, stored}
use rawrz.Search.Engine.Apply.{Applied}
use rawrz.Exec.Halts.{IsEnded, Halts, pure-Halts, raise-Halts, if-Halts, bind-Halts}
use rawrz.Search.Engine.Keeps.{reach-Halts}
use rawrz.Search.Engine.Apply.Halts.{write-Passes, apply_group-Halts}
use rawrz.Search.Engine.Loop.{
  BatchReport, RunResult, Processed, Mode, stop, resumed, new, after_group, apply_groups, pause,
  after_batch, run_batches, verify_batch, is_completed, is_last, nat_of, run_checkpoint, planned,
  plan_new, write_plan, run_plan, run_new, run_loaded, run_resumed, mode, run_mode, run,
}
use rawrz.Prelude.{arith}

module _ (S : Service) (timely : IsTimely S) (ends : ReadsEnd S) (c : SearchConfig) where
  after_group-Halts :
      (problem : Option String) (a : Applied) (before rest : List GroupState) (report : BatchReport)
      (more : Run S Processed)
      → Halts more
      → Halts (after_group S c problem a before rest report more)
  unfolding after_group
  after_group-Halts (some problem) a before rest report more h = pure-Halts _
  after_group-Halts none a before rest report more h = h

  apply_groups-Halts :
      (plug : List GroupState → Checkpoint) (before gs : List GroupState) (report : BatchReport)
      → Halts (apply_groups S c plug before gs report)
  unfolding apply_groups
  apply_groups-Halts plug before [] report = pure-Halts _
  apply_groups-Halts plug before (g ∷ rest) report =
      bind-Halts _ _ (apply_group-Halts S timely ends c _ _ g) λ a.
        after_group-Halts a.problem a before rest report _
          (apply_groups-Halts plug (before ++ (a.state ∷ [])) rest _)

  pause-Halts : Halts (pause S c)
  unfolding pause
  pause-Halts w = tt

  after_batch-Halts :
      (problem : Option String) (p : Processed) (batch : Batch) (rest : List Batch)
      (result : RunResult) (more : Run S RunResult)
      → Halts more
      → Halts (after_batch S c problem p batch rest result more)
  unfolding after_batch
  after_batch-Halts (some problem) p batch rest result more h = pure-Halts _
  after_batch-Halts none p batch rest result more h =
      if-Halts (c.checkpoint && any (λ g. not (is_completed g)) batch.groups && not (is_last rest))
        _ _ (pure-Halts _)
        (if-Halts (not (is_last rest) && not (nat_of S c c.gap == 0)) _ _
          (bind-Halts _ _ pause-Halts λ u. h) h)

  verify_batch-Halts :
      (groups : List Group) (report : BatchReport) → Halts (verify_batch S c groups report)
  unfolding verify_batch
  verify_batch-Halts groups report =
      if-Halts c.verify _ _
        (bind-Halts _ _ (reach-Halts _ (ends.capture_ends _ _)) λ snapshot.
          bind-Halts _ _ (reach-Halts _ (ends.verify_ends _ _ snapshot _ _)) λ found. pure-Halts _)
        (pure-Halts _)

  run_batches-Halts :
      (cp : Checkpoint) (total : ℕ) (before rest : List Batch) (planned : List (List Group))
      (result : RunResult)
      → Halts (run_batches S c cp total before rest planned result)
  unfolding run_batches
  run_batches-Halts cp total before [] planned result = pure-Halts _
  run_batches-Halts cp total before (batch ∷ rest) planned result =
      if-Halts (not c.apply) _ _
        (bind-Halts _ _ (verify_batch-Halts _ _) λ r. run_batches-Halts cp total _ rest _ _)
        (bind-Halts _ _ (apply_groups-Halts _ [] batch.groups _)
          λ p. after_batch-Halts p.problem p batch rest _ _ (run_batches-Halts cp total _ rest _ _))

  run_checkpoint-Halts :
      (missing : ℕ) (cp : Checkpoint) (planned : List (List Group))
      → Halts (run_checkpoint S c missing cp planned)
  unfolding run_checkpoint
  run_checkpoint-Halts missing cp planned = run_batches-Halts cp _ [] cp.batches planned _

  planned-Halts :
      (missing : List Episode) (o : Option (List (List Group))) → Halts (planned S c missing o)
  unfolding planned
  planned-Halts missing none = raise-Halts _ _
  planned-Halts missing (some batches) = pure-Halts _

  plan_new-Halts : Halts (plan_new S c)
  unfolding plan_new
  plan_new-Halts = bind-Halts _ _ (reach-Halts _ (ends.fetch_ends _)) λ missing.
      planned-Halts missing (split_batches (build_groups missing) (nat_of S c c.batch_size))

  write_plan-Halts : (cp : Checkpoint) → Halts (write_plan S c cp)
  unfolding write_plan
  write_plan-Halts cp =
      if-Halts (c.apply && c.checkpoint) _ _ (λ w. (write-Passes S timely c 0 cp w (omega arith)).0)
        (pure-Halts _)

  run_plan-Halts :
      (missing : List Episode) (batches : List (List Group)) → Halts (run_plan S c missing batches)
  unfolding run_plan
  run_plan-Halts missing batches =
      if-Halts (is_last missing) _ _ (pure-Halts _)
        (bind-Halts _ _ (write_plan-Halts _) λ u. run_checkpoint-Halts _ _ _)

  run_loaded-Halts : (cp : Checkpoint) (r : Result (Unit {0})) → Halts (run_loaded S c cp r)
  unfolding run_loaded
  run_loaded-Halts cp (Result.err e) = pure-Halts _
  run_loaded-Halts cp (Result.ok u) =
      if-Halts (same_config cp.config (checkpoint_config c)) _ _ (run_checkpoint-Halts _ cp [])
        (pure-Halts _)

  run_resumed-Halts : (d : Disk) → Halts (run_resumed S c d)
  unfolding run_resumed
  run_resumed-Halts absent = pure-Halts _
  run_resumed-Halts unreadable = pure-Halts _
  run_resumed-Halts (stored cp) = run_loaded-Halts cp (validate_json (encode cp))

  run_mode-Halts : (m : Mode) → Halts (run_mode S c m)
  unfolding run_mode run_new
  run_mode-Halts (stop error) = pure-Halts _
  run_mode-Halts resumed = λ w. run_resumed-Halts w.disk w
  run_mode-Halts new = bind-Halts _ _ plan_new-Halts λ plan. run_plan-Halts plan.0 plan.1

  -- If the clock is monotonic, a sleep lasts as long as it was asked for, and the three reads of the client
  -- and the verifier return or raise, then a run returns or raises, for any configuration, with
  -- `--resume` or not: the engine's own loops and its wait for a command come to an end.
  pub run-ends : (resume : Bool) (w : World S) → IsEnded (run S c resume w).0
  unfolding run
  run-ends resume w = run_mode-Halts (mode S c resume w.disk) w
