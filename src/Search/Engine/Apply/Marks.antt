-- ===== src/Search/Engine/Apply/Marks.antt =====
-- What the steps of a group write, once the checkpoint file says that it is no longer pending.
use rawrz.Prelude.{
  ℕ, zero, suc, ◌≡◌, ◌≢◌, refl, Bool, true, false, inl, inr, Option, none, some, List, Bool-cases,
  ltb,
}
use rawrz.Prelude.Result.{Result, Result-cases}
use rawrz.Json.{Json}
use rawrz.Search.Plan.{Identity, Group}
use rawrz.Search.Checkpoint.{SeasonKey, validate}
use rawrz.Search.State.{Status, Command, Snapshot, GroupState, Checkpoint, encode}
use rawrz.Search.Config.{SearchConfig}
use rawrz.Search.Engine.{
  Service, World, Run, stored, Reply, no_dict, dict, VerificationReport, Outcome, call, reach,
  write,
}
use rawrz.Exec.Keeps.{Keeps, Keeps-bind, Keeps-pure, Keeps-if, Keeps-raise}
use rawrz.Search.Engine.Keeps.{Keeps-call, Keeps-reach}
use rawrz.Search.Engine.Command.{
  command_id, command_result, state, poll, sleep, wait_on, wait_round, wait_loop, wait_from,
  wait_for_id, wait_for_command, wait_rounds,
}
use rawrz.Search.Engine.Apply.{
  save, conclude, judge, verify_group, settle, follow, accept_id, accept, resume_from, command_json,
}

module _ (S : Service) (fill : GroupState → Checkpoint) (identity : Identity) where
  -- The file holds the group with a status other than pending, and `sent` has been posted.
  pub record Marked (sent : List SeasonKey) (w : World S) : Type 0 where
    pub state : GroupState
    pub same : state.identity ≡ identity
    pub started : state.status ≢ Status.pending
    pub on_disk : w.disk ≡ stored (fill state)
    pub posted : w.sent ≡ sent

module _ (S : Service) (c : SearchConfig) (fill : GroupState → Checkpoint) (group : Group)
    (identity : Identity) (sent : List SeasonKey) where
  failed-ne-pending : Status.failed ≢ Status.pending
  failed-ne-pending e = cc

  abbrev pub P : World S → Type 0
  P = Marked S fill identity sent

  blind : (w : World S) (s : S.State) → P w → P (record w { net = s })
  blind w s h = record {
    state = h.state;
    same = h.same;
    started = h.started;
    on_disk = h.on_disk;
    posted = h.posted;
  }

  call-Marked : {A : Type 0} (f : S.State → Result A × S.State) → Keeps P (call f)
  call-Marked = Keeps-call blind

  reach-Marked : {A : Type 0} (f : S.State → Outcome A × S.State) → Keeps P (reach f)
  reach-Marked = Keeps-reach blind

  write-Marked :
      (g : GroupState)
      → g.identity ≡ identity
      → g.status ≢ Status.pending
      → Keeps P (write S (fill g))
  unfolding write
  write-Marked g same started = record {
    at = λ w h. elim (Result-cases (validate (encode (fill g)))) [
      | inl (u, valid) ↦
          rw (valid, write)
            (elim (Bool-cases (S.replace w.net).0) [
              | inl replaced ↦ rw replaced (record {
                state = g;
                same = same;
                started = started;
                on_disk = refl;
                posted = h.posted;
              })
              | inr kept ↦ rw kept (blind w (S.replace w.net).1 h)
            ])
      | inr (e, invalid) ↦ rw (invalid, write) h
    ];
  }

  save-Marked :
      (g : GroupState)
      → g.identity ≡ identity
      → g.status ≢ Status.pending
      → Keeps P (save S c fill group g)
  unfolding save
  save-Marked g same started =
      Keeps-if c.checkpoint _ _ (write-Marked g same started) (Keeps-pure tt)

  conclude-Marked :
      (outcome : Bool) (g : GroupState) (report : Option VerificationReport)
      → g.identity ≡ identity
      → Keeps P (conclude S c fill group outcome g report)
  unfolding conclude
  conclude-Marked false g report same =
      Keeps-bind _ _ (save-Marked _ same (λ e. cc)) (λ _. Keeps-pure _)
  conclude-Marked true g report same =
      Keeps-bind _ _ (save-Marked _ same (λ e. cc)) (λ _. Keeps-pure _)

  judge-Marked :
      (outcome : Bool) (g : GroupState) (report : VerificationReport)
      → g.identity ≡ identity
      → Keeps P (judge S c fill group outcome g report)
  unfolding judge
  judge-Marked outcome g report same =
      Keeps-if _ _ _ (conclude-Marked outcome g (some report) same) (
        Keeps-bind _ _ (save-Marked (record g { status = Status.failed }) same failed-ne-pending)
          (λ _. Keeps-pure _))

  verify_group-Marked :
      (outcome : Bool) (g : GroupState) (snapshot : Snapshot)
      → g.identity ≡ identity
      → Keeps P (verify_group S c fill group outcome g snapshot)
  unfolding verify_group
  verify_group-Marked outcome g snapshot same =
      Keeps-bind _ _ (reach-Marked _) (λ report. judge-Marked outcome _ report same)

  settle-Marked :
      (g : GroupState) (snapshot : Snapshot) (outcome : Option Bool)
      → g.identity ≡ identity
      → Keeps P (settle S c fill group g snapshot outcome)
  unfolding settle
  settle-Marked g snapshot none same =
      Keeps-bind _ _ (save-Marked _ same (λ e. cc)) (λ _. Keeps-pure _)
  settle-Marked g snapshot (some outcome) same =
      Keeps-if c.verify _ _ (verify_group-Marked outcome g snapshot same)
        (conclude-Marked outcome g none same)

  module _ (on_update : Command → Run S (Unit {0}))
      (update : (x : Command) → Keeps P (on_update x)) where
    poll-Marked : (id : ℕ) → Keeps P (poll S on_update id)
    unfolding poll
    poll-Marked id =
        Keeps-bind _ _ (call-Marked _)
          (elim [ no_dict ↦ Keeps-raise _ | dict i status result ↦ Keeps-pure _ ])

    sleep-Marked : (deadline : ℕ) → Keeps P (sleep S on_update deadline)
    unfolding sleep
    sleep-Marked deadline = record { at = λ w h. blind w _ h }

    wait_on-Marked :
        (rest : Command → Run S (Option Bool × Command)) (deadline : ℕ) (next : Command)
        (result : Option Bool)
        → ((x : Command) → Keeps P (rest x))
        → Keeps P (wait_on S on_update rest deadline next result)
    unfolding wait_on
    wait_on-Marked rest deadline next (some r) kept = Keeps-pure _
    wait_on-Marked rest deadline next none kept =
        Keeps-bind _ _ (sleep-Marked deadline) (λ _. kept next)

    wait_round-Marked :
        (rest : Command → Run S (Option Bool × Command)) (deadline id : ℕ)
        → ((x : Command) → Keeps P (rest x))
        → Keeps P (wait_round S on_update rest deadline id)
    unfolding wait_round
    wait_round-Marked rest deadline id kept =
        Keeps-bind _ _ (poll-Marked id)
          λ next. Keeps-bind _ _ (update next) λ _. wait_on-Marked rest deadline next _ kept

    wait_loop-Marked :
        (rounds deadline id : ℕ) (current : Command)
        → Keeps P (wait_loop S on_update rounds deadline id current)
    unfolding wait_loop
    wait_loop-Marked zero deadline id current = record { at = λ w h. h }
    wait_loop-Marked (suc rounds) deadline id current = record {
      at = λ w h. elim (Bool-cases (ltb (S.now w.net) deadline)) [
        | inl on ↦
            rw (on, wait_loop)
              ((wait_round-Marked _ deadline id (wait_loop-Marked rounds deadline id)).at w h)
        | inr over ↦ rw (over, wait_loop) h
      ];
    }

    wait_from-Marked :
        (id : ℕ) (current : Command) (ended : Option Bool)
        → Keeps P (wait_from S on_update id current ended)
    unfolding wait_from
    wait_from-Marked id current (some e) = Keeps-pure _
    wait_from-Marked id current none = record {
      at = λ w h. (wait_loop-Marked wait_rounds _ id current).at w h;
    }

    wait_for_id-Marked :
        (status result : Json) (id : Option ℕ) → Keeps P (wait_for_id S on_update status result id)
    unfolding wait_for_id
    wait_for_id-Marked status result none = Keeps-pure _
    wait_for_id-Marked status result (some id) =
        Keeps-bind _ _ (update _) (λ _. wait_from-Marked id _ (command_result status result))

    wait_for_command-Marked : (response : Reply) → Keeps P (wait_for_command S on_update response)
    unfolding wait_for_command
    wait_for_command-Marked no_dict = Keeps-pure _
    wait_for_command-Marked (dict id status result) =
        wait_for_id-Marked status result (command_id (dict id status result))

  follow-Marked :
      (g : GroupState) (snapshot : Snapshot) (response : Reply)
      → g.identity ≡ identity
      → g.status ≢ Status.pending
      → Keeps P (follow S c fill group g snapshot response)
  unfolding follow
  follow-Marked g snapshot response same started =
      Keeps-bind _ _
        (wait_for_command-Marked _ (λ now. save-Marked (record g { command = now }) same started)
          response)
        λ ended.
          Keeps-bind _ _ (save-Marked (record g { command = ended.1 }) same started)
            λ _. settle-Marked (record g { command = ended.1 }) snapshot ended.0 same

  accept_id-Marked :
      (g : GroupState) (snapshot : Snapshot) (response : Reply) (status result : Json)
      (id : Option ℕ)
      → g.identity ≡ identity
      → g.status ≢ Status.pending
      → Keeps P (accept_id S c fill group g snapshot response status result id)
  unfolding accept_id
  accept_id-Marked g snapshot response status result none same started = Keeps-pure _
  accept_id-Marked g snapshot response status result (some n) same started =
      let posted : GroupState = record g { command = state n status result } in
      Keeps-bind _ _ (save-Marked posted same started)
        λ _. follow-Marked posted snapshot response same started

  pub accept-Marked :
      (g : GroupState) (snapshot : Snapshot) (answer : Option Reply)
      → g.identity ≡ identity
      → g.status ≢ Status.pending
      → Keeps P (accept S c fill group g snapshot answer)
  unfolding accept
  accept-Marked g snapshot none same started = Keeps-pure _
  accept-Marked g snapshot (some no_dict) same started = Keeps-pure _
  accept-Marked g snapshot (some (dict id status result)) same started =
      accept_id-Marked g snapshot (dict id status result) status result _ same started

  pub resume_from-Marked :
      (g : GroupState) (snapshot : Option Snapshot)
      → g.identity ≡ identity
      → g.status ≢ Status.pending
      → Keeps P (resume_from S c fill group g snapshot)
  unfolding resume_from
  resume_from-Marked g none same started = Keeps-raise _
  resume_from-Marked g (some snapshot) same started =
      follow-Marked g snapshot (dict (command_json g.command) g.command.status g.command.result)
        same started
