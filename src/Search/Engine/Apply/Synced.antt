-- ===== src/Search/Engine/Apply/Synced.antt =====
-- `SearchEngine._apply_group`: the state that it returns and the state on file.
use rawrz.Prelude.{
  ℕ, ◌≡◌, refl, ◌∙◌, sym, ap, Bool, true, false, Option, none, some, String, inl, inr,
  if◌then◌else◌,
}
use rawrz.Json.{Json}
use rawrz.Search.Plan.{Group}
use rawrz.Search.State.{Status, VerificationStatus, Command, Snapshot, GroupState, Checkpoint}
use rawrz.Search.Config.{SearchConfig}
use rawrz.Search.Engine.{
  Service, World, stored, Reply, no_dict, dict, VerificationReport, ◌>>=◌, ◌>>◌, pure,
}
use rawrz.Exec.Ends.{Ends, Returned, Ends-bind, Ends-pure, Ends-raise, Ends-if}
use rawrz.Search.Engine.Command.{command_id, state}
use rawrz.Search.Engine.Apply.{
  Applied, ended, is_empty, command_json, is_safe, verification_checkpoint, save, conclude, judge,
  verify_group, settle, follow, accept_id, accept, marked, post_group, launch, resume_from,
  dispatch, apply_group,
}
use rawrz.Search.Engine.Apply.AtMostOnce.{write_cases, save_eq}

module _ (S : Service) (c : SearchConfig) (fill : GroupState → Checkpoint) (group : Group)
    (on : c.checkpoint ≡ true) where
  -- No problem means that the file holds the state of the group.
  abbrev pub Synced : Applied → World S → Type 0
  Synced a w = a.problem ≡ none → w.disk ≡ stored (fill a.state)

  with_problem :
      {problem : String} (a : Applied)
      → a.problem ≡ some problem
      → Ends Synced (pure {W = World S} a)
  with_problem a e = Ends-pure Synced a (λ w h. cc)

  saved :
      (g : GroupState) (a : Applied) → a.state ≡ g → Ends Synced (save S c fill group g >> pure a)
  unfolding ◌>>=◌ pure
  saved g a same = record {
    at = λ w. rw (save_eq S c fill group on) (elim (write_cases S (fill g) w) [
      | inl (e, v, failed, u) ↦ rw failed tt
      | inr (v, wrote, d, s) ↦ rw wrote (λ h. d ∙ ap (λ x. stored (fill x)) (sym same))
    ]);
  }

  conclude-Synced :
      (outcome : Bool) (g : GroupState) (report : Option VerificationReport)
      → Ends Synced (conclude S c fill group outcome g report)
  unfolding conclude
  conclude-Synced false g report = Ends-bind Synced _ _ (λ _. with_problem _ refl)
  conclude-Synced true g report = saved _ _ refl

  judge-Synced :
      (outcome : Bool) (g : GroupState) (report : VerificationReport)
      → Ends Synced (judge S c fill group outcome g report)
  unfolding judge
  judge-Synced outcome g report =
      Ends-if Synced (is_empty report.offenders) _ _ (conclude-Synced outcome g (some report))
        (Ends-bind Synced _ _ (λ _. with_problem _ refl))

  verify_group-Synced :
      (outcome : Bool) (g : GroupState) (snapshot : Snapshot)
      → Ends Synced (verify_group S c fill group outcome g snapshot)
  unfolding verify_group
  verify_group-Synced outcome g snapshot = Ends-bind Synced _ _ (λ report.
      judge-Synced outcome (record g { verification = verification_checkpoint report }) report)

  settle-Synced :
      (g : GroupState) (snapshot : Snapshot) (outcome : Option Bool)
      → Ends Synced (settle S c fill group g snapshot outcome)
  unfolding settle
  settle-Synced g snapshot none = Ends-bind Synced _ _ (λ _. with_problem _ refl)
  settle-Synced g snapshot (some outcome) =
      Ends-if Synced c.verify _ _ (verify_group-Synced outcome g snapshot)
        (conclude-Synced outcome g none)

  follow-Synced :
      (g : GroupState) (snapshot : Snapshot) (response : Reply)
      → Ends Synced (follow S c fill group g snapshot response)
  unfolding follow
  follow-Synced g snapshot response = Ends-bind {A = Option Bool × Command} Synced _ _ λ ended.
      Ends-bind Synced _ _ λ _. settle-Synced (record g { command = ended.1 }) snapshot ended.0

  accept_id-Synced :
      (g : GroupState) (snapshot : Snapshot) (response : Reply) (status result : Json)
      (id : Option ℕ)
      → Ends Synced (accept_id S c fill group g snapshot response status result id)
  unfolding accept_id
  accept_id-Synced g snapshot response status result none = with_problem _ refl
  accept_id-Synced g snapshot response status result (some n) =
      Ends-bind Synced _ _
        (λ _. follow-Synced (record g { command = state n status result }) snapshot response)

  accept-Synced :
      (g : GroupState) (snapshot : Snapshot) (answer : Option Reply)
      → Ends Synced (accept S c fill group g snapshot answer)
  unfolding accept
  accept-Synced g snapshot none = with_problem _ refl
  accept-Synced g snapshot (some no_dict) = with_problem _ refl
  accept-Synced g snapshot (some (dict id status result)) =
      accept_id-Synced g snapshot (dict id status result) status result
        (command_id (dict id status result))

  resume_from-Synced :
      (g : GroupState) (snapshot : Option Snapshot)
      → Ends Synced (resume_from S c fill group g snapshot)
  unfolding resume_from
  resume_from-Synced g none = Ends-raise Synced _
  resume_from-Synced g (some snapshot) =
      follow-Synced g snapshot (dict (command_json g.command) g.command.status g.command.result)

  launch-Synced : (g : GroupState) → Ends Synced (launch S c fill group g)
  unfolding launch post_group
  launch-Synced g = Ends-bind Synced _ _ λ snapshot. Ends-bind Synced _ _ λ _.
      Ends-bind {A = Option Reply} Synced _ _
        λ answer. accept-Synced (marked g snapshot) snapshot answer

  -- If applying a group returns no problem, the file holds the group in the returned state.
  pub apply_group-Synced :
      (g : GroupState) (w : World S)
      → w.disk ≡ stored (fill g)
      → Returned Synced (apply_group S c fill group g w)
  unfolding apply_group
  apply_group-Synced g w on_disk = by_status g.status g.verification.status g.command.id
    where
      unsafe :
          (v : VerificationStatus) (b : Bool)
          → Returned Synced (
              (if b
                  then pure (record (ended none g false none) { skipped = true })
                  else resume_from S c fill group g g.snapshot)
                w)
      unsafe v true = unfold pure in (λ h. on_disk)
      unsafe v false = (resume_from-Synced g g.snapshot).at w

      by_status :
          (s : Status) (v : VerificationStatus) (id : Option ℕ)
          → Returned Synced (dispatch S c fill group s v id g w)
      by_status Status.pending v id = unfold dispatch in (launch-Synced g).at w
      by_status Status.running v none = unfold dispatch pure in (λ h. cc)
      by_status Status.running v (some n) =
          unfold dispatch in (resume_from-Synced g g.snapshot).at w
      by_status Status.completed v id = unfold dispatch in unsafe v (is_safe v)
      by_status Status.failed v id = unfold dispatch pure in (λ h. cc)
