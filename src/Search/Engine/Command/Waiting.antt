-- ===== src/Search/Engine/Command/Waiting.antt =====
-- `wait_for_command`: the clock during the wait, and the rounds that it takes.
use rawrz.Prelude.{
  ℕ, zero, suc, ◌+◌, ◌-◌, ◌*◌, ◌≤◌, ◌≡◌, Bool, true, false, Option, none, some, arith, ltb, min,
  Bool-cases, inl, inr,
}
use rawrz.Search.State.{Command}
use rawrz.Search.Engine.{
  Service, IsTimely, World, Run, Outcome, Reply, no_dict, dict, done, raised, stuck, continue,
  ◌>>=◌, pure, raise, call, outcome_of,
}
use rawrz.Exec.Halts.{IsEnded}
use rawrz.Search.Engine.Command.{
  command_result, command_id, state, command_wait_timeout, sleep, poll, wait_on, wait_round,
  wait_loop, wait_from, wait_for_id, wait_for_command,
}
use rawrz.Prelude.Result.{Result}

module _ {S : Service} {A : Type 0} where
  -- Code that ends, and does not turn back a clock that shows at least `t`.
  abbrev pub Passes : ℕ → Run S A → Type 0
  Passes t m = (w : World S) → t ≤ S.now w.net → IsEnded (m w).0 × (t ≤ S.now (m w).1.net)

  -- Code that ends when it is started at `t` or later.
  abbrev EndsFrom : ℕ → Run S A → Type 0
  EndsFrom t m = (w : World S) → t ≤ S.now w.net → IsEnded (m w).0

module _ {S : Service} {A B : Type 0} where
  continue-EndsFrom :
      (t : ℕ) (r : Outcome A) (f : A → Run S B) (w : World S)
      → IsEnded r
      → t ≤ S.now w.net
      → ((a : A) → EndsFrom t (f a))
      → IsEnded (continue r f w).0
  continue-EndsFrom t (done a) f w e h g = g a w h
  continue-EndsFrom t (raised x) f w e h g = tt
  continue-EndsFrom t stuck f w e h g = e

  bind-EndsFrom :
      (t : ℕ) (m : Run S A) (f : A → Run S B)
      → Passes t m
      → ((a : A) → EndsFrom t (f a))
      → EndsFrom t (m >>= f)
  unfolding ◌>>=◌
  bind-EndsFrom t m f p g w h = continue-EndsFrom t (m w).0 f (m w).1 (p w h).0 (p w h).1 g

module _ (S : Service) (timely : IsTimely S) (on_update : Command → Run S (Unit {0}))
    (updates : (t : ℕ) (c : Command) → Passes t (on_update c)) where
  poll-Passes : (t id : ℕ) → Passes t (poll S on_update id)
  unfolding poll ◌>>=◌ call
  poll-Passes t id w h = by_reply (S.command_status id w.net).0
    where
      later : t ≤ S.now (S.command_status id w.net).1
      later = omega (arith, h, timely.now-status id w.net)

      by_reply :
          (r : Result Reply)
          → let m =
              continue {B = Command}
                (outcome_of r)
                (λ reply. elim reply [
                  | no_dict ↦ raise "command status has an unexpected shape"
                  | dict _ status result ↦ pure (state id status result)
                ])
                (record w { net = (S.command_status id w.net).1 }) in
            IsEnded m.0 × (t ≤ S.now m.1.net)
      by_reply (Result.err e) = (tt, later)
      by_reply (Result.ok no_dict) = unfold raise in (tt, later)
      by_reply (Result.ok (dict i status result)) = unfold pure in (tt, later)

  -- A sleep of a whole interval, or up to the deadline.
  slept :
      (t now after deadline k : ℕ)
      → t ≤ now
      → deadline ≤ t + 1000 * suc k
      → now + min 1000 (deadline - now) ≤ after
      → deadline ≤ after + 1000 * k
  slept t now after deadline k h d s = omega arith

  wait_on-EndsFrom :
      (t deadline k : ℕ) (next : Command) (rest : Command → Run S (Option Bool × Command))
      (o : Option Bool)
      → deadline ≤ t + 1000 * suc k
      → ((c : Command) (w : World S) → deadline ≤ S.now w.net + 1000 * k → IsEnded (rest c w).0)
      → EndsFrom t (wait_on S on_update rest deadline next o)
  wait_on-EndsFrom t deadline k next rest (some b) d g w h = unfold wait_on pure in tt
  wait_on-EndsFrom t deadline k next rest none d g w h =
      unfold wait_on ◌>>=◌ sleep in
      g next _ (slept t (S.now w.net) _ deadline k h d (timely.now-sleep _ w.net))

  wait_round-EndsFrom :
      (t deadline k id : ℕ) (rest : Command → Run S (Option Bool × Command))
      → deadline ≤ t + 1000 * suc k
      → ((c : Command) (w : World S) → deadline ≤ S.now w.net + 1000 * k → IsEnded (rest c w).0)
      → EndsFrom t (wait_round S on_update rest deadline id)
  unfolding wait_round
  wait_round-EndsFrom t deadline k id rest d g =
      bind-EndsFrom t (poll S on_update id) _ (poll-Passes t id) λ next.
        bind-EndsFrom t (on_update next) _ (updates t next)
          λ u. wait_on-EndsFrom t deadline k next rest (command_result next.status next.result) d g

  not_early : (now deadline : ℕ) → deadline ≤ now + 1000 * 0 → ¬ (ltb now deadline ≡ true)
  not_early now deadline h e = ground arith

  wait_loop_late :
      (k deadline id : ℕ) (current : Command) (w : World S)
      → ltb (S.now w.net) deadline ≡ false
      → wait_loop S on_update (suc k) deadline id current w ≡ (done (none, current), w)
  unfolding wait_loop
  wait_loop_late k deadline id current w e = rw (wait_loop, e)

  wait_loop_early :
      (k deadline id : ℕ) (current : Command) (w : World S)
      → ltb (S.now w.net) deadline ≡ true
      → wait_loop S on_update (suc k) deadline id current w
        ≡ wait_round S on_update (wait_loop S on_update k deadline id) deadline id w
  unfolding wait_loop
  wait_loop_early k deadline id current w e = rw (wait_loop, e)

  wait_loop-ends :
      (k deadline id : ℕ) (current : Command) (w : World S)
      → deadline ≤ S.now w.net + 1000 * k
      → IsEnded (wait_loop S on_update (suc k) deadline id current w).0
  wait_loop-ends zero deadline id current w d = elim (Bool-cases (ltb (S.now w.net) deadline)) [
    | inr passed ↦ rw (wait_loop_late _ deadline id current w passed) tt
    | inl early ↦ absurd (not_early (S.now w.net) deadline d early)
  ]
  wait_loop-ends (suc k) deadline id current w d = elim (Bool-cases (ltb (S.now w.net) deadline)) [
    | inr passed ↦ rw (wait_loop_late _ deadline id current w passed) tt
    | inl early ↦ rw (wait_loop_early (suc k) deadline id current w early) (
        wait_round-EndsFrom (S.now w.net) deadline k id (wait_loop S on_update (suc k) deadline id)
          d (λ c v. wait_loop-ends k deadline id c v) w (omega arith))
  ]

  -- With a monotonic clock, sleeps that last as long as they were asked for, and an update that ends
  -- and does not turn back the clock, the wait for a command returns or raises within its rounds.
  pub wait_for_command-ends :
      (response : Reply) (w : World S) → IsEnded (wait_for_command S on_update response w).0
  unfolding wait_for_command pure
  wait_for_command-ends no_dict w = tt
  wait_for_command-ends (dict id status result) w = by_id (command_id (dict id status result))
    where
      by_result :
          (n : ℕ) (current : Command) (o : Option Bool)
          → EndsFrom (S.now w.net) (wait_from S on_update n current o)
      by_result n current (some b) v h = unfold wait_from in tt
      by_result n current none v h =
          unfold wait_from in
          wait_loop-ends 300 (S.now v.net + command_wait_timeout) n current v (omega arith)

      by_id : (o : Option ℕ) → IsEnded (wait_for_id S on_update status result o w).0
      by_id none = unfold wait_for_id in tt
      by_id (some n) =
          unfold wait_for_id in
          bind-EndsFrom (S.now w.net) (on_update (state n status result)) _
            (updates (S.now w.net) (state n status result))
            (λ u. by_result n (state n status result) (command_result status result)) w
            (omega arith)
