-- ===== src/Search/Engine/Apply/Halts.antt =====
-- `SearchEngine._apply_group`: each way through it comes to an end.
use rawrz.Prelude.{
  ℕ, ◌≤◌, Bool, true, false, Option, none, some, arith, Bool-cases, Option-cases, inl, inr,
  if◌then◌else◌,
}
use rawrz.Prelude.Result.{Result-cases}
use rawrz.Json.{Json}
use rawrz.Search.Plan.{Group, search_command}
use rawrz.Search.Checkpoint.{validate}
use rawrz.Search.State.{
  Status, VerificationStatus, Command, Snapshot, GroupState, Checkpoint, encode,
}
use rawrz.Search.Config.{SearchConfig}
use rawrz.Search.Engine.{
  Service, IsTimely, ReadsEnd, Reply, no_dict, dict, VerificationReport, ◌>>◌, pure, write,
}
use rawrz.Search.Engine.Command.{command_id}
use rawrz.Exec.Halts.{Halts, pure-Halts, raise-Halts, if-Halts, bind-Halts}
use rawrz.Search.Engine.Keeps.{reach-Halts}
use rawrz.Search.Engine.Command.Waiting.{Passes, wait_for_command-ends}
use rawrz.Search.Engine.Apply.{
  Applied, is_empty, is_safe, save, conclude, judge, verify_group, settle, follow, post, accept_id,
  accept, post_group, launch, resume_from, dispatch, apply_group,
}

module _ (S : Service) (timely : IsTimely S) (c : SearchConfig) where
  pub write-Passes : (t : ℕ) (cp : Checkpoint) → Passes t (write S cp)
  unfolding write
  write-Passes t cp w h =
      let later : t ≤ S.now (S.replace w.net).1 = omega (arith, h, timely.now-replace w.net) in
      elim (Result-cases (validate (encode cp))) [
        | inl (u, valid) ↦ elim (Bool-cases (S.replace w.net).0) [
          | inl replaced ↦ rw (valid, write, replaced) (tt, later)
          | inr kept ↦ rw (valid, write, kept) (tt, later)
        ]
        | inr (e, invalid) ↦ rw (invalid, write) (tt, h)
      ]

module _ (S : Service) (timely : IsTimely S) (ends : ReadsEnd S) (c : SearchConfig)
    (fill : GroupState → Checkpoint) (group : Group) where
  save-Passes : (t : ℕ) (g : GroupState) → Passes t (save S c fill group g)
  unfolding save
  save-Passes t g = by_checkpoint c.checkpoint
    where
      by_checkpoint : (b : Bool) → Passes t (if b then write S (fill g) else pure tt)
      by_checkpoint true = write-Passes S timely c t (fill g)
      by_checkpoint false = λ w h. unfold pure in (tt, h)

  save-Halts : (g : GroupState) → Halts (save S c fill group g)
  save-Halts g w = (save-Passes 0 g w (omega arith)).0

  -- The file is written, and then the group is done.
  saved-Halts : (g : GroupState) (a : Applied) → Halts (save S c fill group g >> pure a)
  saved-Halts g a = bind-Halts _ _ (save-Halts g) λ u. pure-Halts a

  conclude-Halts :
      (outcome : Bool) (g : GroupState) (report : Option VerificationReport)
      → Halts (conclude S c fill group outcome g report)
  unfolding conclude
  conclude-Halts false g report = saved-Halts _ _
  conclude-Halts true g report = saved-Halts _ _

  judge-Halts :
      (outcome : Bool) (g : GroupState) (report : VerificationReport)
      → Halts (judge S c fill group outcome g report)
  unfolding judge
  judge-Halts outcome g report =
      if-Halts (is_empty report.offenders) _ _ (conclude-Halts outcome g (some report))
        (saved-Halts _ _)

  settle-Halts :
      (g : GroupState) (snapshot : Snapshot) (outcome : Option Bool)
      → Halts (settle S c fill group g snapshot outcome)
  unfolding settle verify_group
  settle-Halts g snapshot none = saved-Halts _ _
  settle-Halts g snapshot (some outcome) =
      if-Halts c.verify _ _
        (bind-Halts _ _ (reach-Halts _ (ends.verify_ends _ _ snapshot _ _))
          λ report. judge-Halts outcome _ report)
        (conclude-Halts outcome g none)

  follow-Halts :
      (g : GroupState) (snapshot : Snapshot) (response : Reply)
      → Halts (follow S c fill group g snapshot response)
  unfolding follow
  follow-Halts g snapshot response =
      bind-Halts {A = Option Bool × Command} _ _
        (wait_for_command-ends S timely _ (λ t now. save-Passes t _) response)
        λ ended. bind-Halts _ _ (save-Halts _) λ u. settle-Halts _ snapshot ended.0

  accept_id-Halts :
      (g : GroupState) (snapshot : Snapshot) (response : Reply) (status result : Json)
      (id : Option ℕ)
      → Halts (accept_id S c fill group g snapshot response status result id)
  unfolding accept_id
  accept_id-Halts g snapshot response status result none = pure-Halts _
  accept_id-Halts g snapshot response status result (some n) =
      bind-Halts _ _ (save-Halts _) λ u. follow-Halts _ snapshot response

  accept-Halts :
      (g : GroupState) (snapshot : Snapshot) (answer : Option Reply)
      → Halts (accept S c fill group g snapshot answer)
  unfolding accept
  accept-Halts g snapshot none = pure-Halts _
  accept-Halts g snapshot (some no_dict) = pure-Halts _
  accept-Halts g snapshot (some (dict id status result)) =
      accept_id-Halts g snapshot (dict id status result) status result
        (command_id (dict id status result))

  post-Halts : Halts (post S c fill group)
  unfolding post
  post-Halts w = elim (Option-cases (search_command group)) [
    | inl empty ↦ rw (empty, post) tt
    | inr (command, found) ↦ rw (found, post) tt
  ]

  resume_from-Halts :
      (g : GroupState) (snapshot : Option Snapshot) → Halts (resume_from S c fill group g snapshot)
  unfolding resume_from
  resume_from-Halts g none = raise-Halts _ _
  resume_from-Halts g (some snapshot) = follow-Halts g snapshot _

  launch-Halts : (g : GroupState) → Halts (launch S c fill group g)
  unfolding launch post_group
  launch-Halts g = bind-Halts _ _ (reach-Halts _ (ends.capture_ends _ _)) λ snapshot.
      bind-Halts _ _ (save-Halts _)
        λ u. bind-Halts {A = Option Reply} _ _ post-Halts λ answer. accept-Halts _ snapshot answer

  dispatch-Halts :
      (s : Status) (v : VerificationStatus) (id : Option ℕ) (g : GroupState)
      → Halts (dispatch S c fill group s v id g)
  unfolding dispatch
  dispatch-Halts Status.pending v id g = launch-Halts g
  dispatch-Halts Status.running v none g = pure-Halts _
  dispatch-Halts Status.running v (some n) g = resume_from-Halts g g.snapshot
  dispatch-Halts Status.completed v id g =
      if-Halts (is_safe v) _ _ (pure-Halts _) (resume_from-Halts g g.snapshot)
  dispatch-Halts Status.failed v id g = pure-Halts _

  pub apply_group-Halts : (g : GroupState) → Halts (apply_group S c fill group g)
  unfolding apply_group
  apply_group-Halts g = dispatch-Halts g.status g.verification.status g.command.id g
