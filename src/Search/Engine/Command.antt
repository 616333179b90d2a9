-- ===== src/Search/Engine/Command.antt =====
-- `wait_for_command`: poll a posted search command until it ends or five minutes have passed.
pub mod Waiting
use rawrz.Prelude.{
  ℕ, zero, suc, ◌+◌, ◌-◌, Bool, true, false, ◌||◌, Option, none, some, ltb, min, if◌then◌else◌,
}
use rawrz.Json.{Json}
use rawrz.Json.Int.{ℤ, pos, negsuc}
use rawrz.Json.Words.{as_int, reads}
use rawrz.Search.State.{Command, no_command}
use rawrz.Search.Engine.{
  Service, World, Run, Reply, no_dict, dict, done, stuck, ◌>>=◌, ◌>>◌, pure, raise, call,
}

-- `_command_result`: whether the command ended well, or `none` while it runs.
unfoldable pub command_result : Json → Json → Option Bool
unfolding reads
command_result status result =
    if reads "failed" status
      || reads "cancelled" status
      || reads "canceled" status
      || reads "aborted" status
    then some false
    else if reads "completed" status
    then some (reads "successful" result || reads "success" result)
    else none

abbrev positive : Option ℤ → Option ℕ
positive none = none
positive (some (negsuc n)) = none
positive (some (pos zero)) = none
positive (some (pos (suc n))) = some (suc n)

-- `command_id`, if the answer is a dict with one that is at least 1.
unfoldable pub command_id : Reply → Option ℕ
unfolding as_int
command_id no_dict = none
command_id (dict id status result) = positive (as_int id)

-- `state(record)`
abbrev pub state : ℕ → Json → Json → Command
state id status result = record { id = some id; status = status; result = result }

-- The milliseconds of COMMAND_WAIT_TIMEOUT and COMMAND_POLL_INTERVAL.
abbrev pub command_wait_timeout : ℕ
command_wait_timeout = 300000

abbrev pub command_poll_interval : ℕ
command_poll_interval = 1000

-- Each round but the last sleeps a whole interval, so this many rounds pass the deadline.
abbrev pub wait_rounds : ℕ
wait_rounds = 301

module _ (S : Service) (on_update : Command → Run S (Unit {0})) where
  unfoldable pub sleep : ℕ → Run S (Unit {0})
  sleep deadline w =
      let now = S.now w.net in
      (done tt, record w { net = S.sleep (min command_poll_interval (deadline - now)) w.net })

  -- `client.command_status(command_id)`, an AttributeError if it is no dict.
  unfoldable pub poll : ℕ → Run S Command
  poll id = do
    reply ← call (S.command_status id)
    elim reply [
      | no_dict ↦ raise "command status has an unexpected shape"
      | dict _ status result ↦ pure (state id status result)
    ]

  unfoldable pub wait_on :
      (Command → Run S (Option Bool × Command))
      → ℕ
      → Command
      → Option Bool
      → Run S (Option Bool × Command)
  wait_on rest deadline next (some result) = pure (some result, next)
  wait_on rest deadline next none = sleep deadline >> rest next

  -- One round of the loop, and the rounds after it.
  unfoldable pub wait_round :
      (Command → Run S (Option Bool × Command)) → ℕ → ℕ → Run S (Option Bool × Command)
  wait_round rest deadline id = do
    next ← poll id
    on_update next
    wait_on rest deadline next (command_result next.status next.result)

  -- The loop `while time.monotonic() < deadline`. `none` is the wait that timed out.
  unfoldable pub wait_loop : ℕ → ℕ → ℕ → Command → Run S (Option Bool × Command)
  wait_loop zero deadline id current w = (stuck, w)
  wait_loop (suc rounds) deadline id current w = elim (ltb (S.now w.net) deadline) [
    | false ↦ (done (none, current), w)
    | true ↦ wait_round (wait_loop rounds deadline id) deadline id w
  ]

  -- The wait once the first state has been reported: it may have ended already.
  unfoldable pub wait_from : ℕ → Command → Option Bool → Run S (Option Bool × Command)
  wait_from id current (some ended) = pure (some ended, current)
  wait_from id current none =
      λ w. wait_loop wait_rounds (S.now w.net + command_wait_timeout) id current w

  unfoldable pub wait_for_id : Json → Json → Option ℕ → Run S (Option Bool × Command)
  wait_for_id status result none = pure (some false, no_command)
  wait_for_id status result (some id) = do
    let current = state id status result
    on_update current
    wait_from id current (command_result status result)

  unfoldable pub wait_for_command : Reply → Run S (Option Bool × Command)
  wait_for_command no_dict = pure (some false, no_command)
  wait_for_command (dict id status result) =
      wait_for_id status result (command_id (dict id status result))
