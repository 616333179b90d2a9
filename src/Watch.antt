-- ===== src/Watch.antt =====
-- scripts/watch_nzbdav_backend.py: the watcher that restarts a wedged nzbdav container. Times are
-- whole numbers of milliseconds; `now - t < d` is written `now < t + d`.
pub mod Waiting
pub mod Window
pub mod Alerts
pub mod Signature
mod Tests
use rawrz.Prelude.{
  ℕ, zero, suc, ◌+◌, Bool, true, false, ◌&&◌, not, Option, none, some, List, [], ◌∷◌, ◌++◌, String,
  ltb, leb, keep, count_if, if◌then◌else◌,
}
use rawrz.Exec
use rawrz.Exec.{Outcome, done, raised, stuck, ◌>>=◌, ◌>>◌, pure, raise}

-- The values of `state["state"]`.
pub data Label : Type 0 where
  healthy wedged crash_loop : Label

-- The state file. A file that is absent or no JSON reads as `{}`.
pub record State : Type 0 where
  pub label : Option Label
  pub last_action_at : ℕ
  pub restarts : List ℕ

abbrev pub no_state : State
no_state = record { label = none; last_action_at = 0; restarts = [] }

-- What `classify` tells apart.
pub data Kind : Type 0 where
  is_healthy is_wedged frontend_down : Kind

-- The answers of `should_restart`: to restart, or one of its two reasons not to.
pub data Decision : Type 0 where
  go cooldown looping : Decision

pub data Message : Type 0 where
  healthy_again keeps_wedging is_wedged_now restart_failed recovered still_down : Message

-- A POST to the webhook: it went through, it raised what the code catches (URLError, OSError), or it
-- raised something else.
pub data Posted : Type 0 where
  posted failed : Posted
  broke : String → Posted

-- The host: the two probes, `docker compose restart`, the webhook, the clock, and the state file,
-- which can be written or not.
pub record Host : Type 1 where
  pub Net : Type 0
  pub probe_frontend : Net → Bool × Net
  pub probe_backend : Net → Bool × Net
  pub restart : Net → Bool × Net
  pub discord_post : Message → Net → Posted × Net
  pub now : Net → ℕ
  pub sleep : ℕ → Net → Net
  pub replace : Net → Bool × Net

-- An attempt to restart: when its run read the clock, which is the time that the state file gets, and
-- when `docker compose restart` was called.
pub record Restart : Type 0 where
  pub started : ℕ
  pub at : ℕ

-- `restarted` records the attempts to restart, the last one first; no code reads it.
pub record World (H : Host) : Type 0 where
  pub net : H.Net
  pub file : State
  pub restarted : List Restart

abbrev pub Run : Host → Type 0 → Type 0
Run H = Exec.Run (World H)

-- The environment: both variables may be empty.
pub record Config : Type 0 where
  pub has_key : Bool
  pub has_webhook : Bool

abbrev pub restart_wait : ℕ
restart_wait = 90000

abbrev pub poll_interval : ℕ
poll_interval = 5000

abbrev pub crash_window : ℕ
crash_window = 1800000

abbrev pub max_restarts : ℕ
max_restarts = 3

abbrev pub action_cooldown : ℕ
action_cooldown = 120000

-- Each round of the wait sleeps a whole interval.
abbrev pub wait_rounds : ℕ
wait_rounds = 19

unfoldable pub classify : Bool → Bool → Kind
classify true true = is_healthy
classify true false = is_wedged
classify false backend = frontend_down

-- `t >= now - window`
abbrev pub is_recent : ℕ → ℕ → Bool
is_recent now t = leb now (t + crash_window)

abbrev pub restarts_in_window : State → ℕ → ℕ
restarts_in_window s now = count_if (is_recent now) s.restarts

unfoldable pub should_restart : State → ℕ → Decision
should_restart s now =
    if ltb now (s.last_action_at + action_cooldown)
    then cooldown
    else if leb max_restarts (restarts_in_window s now)
    then looping
    else go

-- `state.get("state") in ("wedged", "crash-loop")`
abbrev pub is_ill : Option Label → Bool
is_ill (some wedged) = true
is_ill (some crash_loop) = true
is_ill _ = false

abbrev pub is_label_wedged : Option Label → Bool
is_label_wedged (some wedged) = true
is_label_wedged _ = false

abbrev pub is_label_loop : Option Label → Bool
is_label_loop (some crash_loop) = true
is_label_loop _ = false

-- The state after an attempt to restart at `now`, its history cut to the window.
abbrev pub after_restart : State → ℕ → State
after_restart s now = record s {
  last_action_at = now;
  restarts = keep (is_recent now) (s.restarts ++ (now ∷ []));
}

module _ (H : Host) where
  unfoldable pub probe_frontend : Run H Bool
  probe_frontend w = let (up, t) = H.probe_frontend w.net in (done up, record w { net = t })

  unfoldable pub probe_backend : Run H Bool
  probe_backend w = let (up, t) = H.probe_backend w.net in (done up, record w { net = t })

  -- `restart_nzbdav`, by a run that read the clock at `now`.
  unfoldable pub restart_nzbdav : ℕ → Run H Bool
  restart_nzbdav now w =
      let (ok, t) = H.restart w.net in
      (
        done ok,
        record w { net = t; restarted = record { started = now; at = H.now w.net } ∷ w.restarted },
      )

  -- `save_state`: the file is replaced, or an OSError is raised.
  unfoldable pub save_state : State → Run H (Unit {0})
  save_state s w =
      let (replaced, t) = H.replace w.net in
      if replaced
      then (done tt, record w { net = t; file = s })
      else (raised "OSError", record w { net = t })

  unfoldable pub sleep : Run H (Unit {0})
  sleep w = (done tt, record w { net = H.sleep poll_interval w.net })

  unfoldable pub after_probe : Run H Bool → Bool → Run H Bool
  after_probe rest true = pure true
  after_probe rest false = sleep >> rest

  -- The loop of `wait_for_backend`: one probe more when the deadline has passed.
  unfoldable pub wait_loop : ℕ → ℕ → Run H Bool
  wait_loop zero deadline w = (stuck, w)
  wait_loop (suc rounds) deadline w = elim (ltb (H.now w.net) deadline) [
    | false ↦ probe_backend w
    | true ↦ (probe_backend >>= after_probe (wait_loop rounds deadline)) w
  ]

  unfoldable pub wait_for_backend : Run H Bool
  wait_for_backend w = wait_loop wait_rounds (H.now w.net + restart_wait) w

  abbrev pub exit_of : Posted → Outcome ℕ
  exit_of posted = done 0
  exit_of failed = done 1
  exit_of (broke e) = raised e

  module _ (c : Config) where
    -- `if webhook: try: discord_post(...) except ...: return 1`, and 0 at the end of the branch.
    unfoldable pub alert : Message → Run H ℕ
    alert m w =
        if c.has_webhook
        then (let (r, t) = H.discord_post m w.net in (exit_of r, record w { net = t }))
        else (done 0, w)

    unfoldable pub on_healthy : State → Run H ℕ
    on_healthy s =
        if is_ill s.label
        then save_state (record s { label = some healthy }) >> alert healthy_again
        else pure 0

    unfoldable pub on_crash_loop : State → Run H ℕ
    on_crash_loop s =
        if is_label_loop s.label
        then pure 0
        else save_state (record s { label = some crash_loop }) >> alert keeps_wedging

    -- What a restart that worked or did not work leads to; `s` has the attempt.
    unfoldable pub follow : State → Bool → Run H ℕ
    follow s false = save_state (record s { label = some crash_loop }) >> alert restart_failed
    follow s true = wait_for_backend >>= λ up.
        save_state (record s { label = if up then some healthy else some wedged })
        >> alert (if up then recovered else still_down)

    unfoldable pub restart_and_wait : State → ℕ → Run H ℕ
    restart_and_wait s now = restart_nzbdav now >>= follow (after_restart s now)

    -- The rest of the run goes on after the first alert, if that went through.
    unfoldable pub go_on : State → ℕ → ℕ → Run H ℕ
    go_on s now zero = restart_and_wait s now
    go_on s now (suc code) = pure (suc code)

    -- The first alert of an episode, then the restart.
    unfoldable pub remedy : State → ℕ → Run H ℕ
    remedy s now =
        if is_label_wedged s.label
        then restart_and_wait s now
        else alert is_wedged_now >>= go_on (record s { label = some wedged }) now

    unfoldable pub on_decision : State → ℕ → Decision → Run H ℕ
    on_decision s now go = remedy s now
    on_decision s now cooldown = pure 0
    on_decision s now looping = on_crash_loop s

    unfoldable pub on_kind : State → ℕ → Kind → Run H ℕ
    on_kind s now is_healthy = on_healthy s
    on_kind s now frontend_down = pure 0
    on_kind s now is_wedged = on_decision s now (should_restart s now)

    -- `watch`: its exit code.
    unfoldable pub watch : Run H ℕ
    watch w =
        if c.has_key
        then (probe_frontend >>= λ frontend_up. probe_backend >>= λ backend_up.
              on_kind w.file (H.now w.net) (classify frontend_up backend_up))
            w
        else (done 2, w)

    abbrev pub label_code : Kind → ℕ
    label_code is_healthy = 0
    label_code is_wedged = 3
    label_code frontend_down = 4

    -- `check_only`
    unfoldable pub check_only : Run H ℕ
    check_only =
        if c.has_key
        then (probe_frontend >>= λ frontend_up.
            probe_backend >>= λ backend_up. pure (label_code (classify frontend_up backend_up)))
        else pure 2

  -- The timer starts the watcher again and again, with the host as it is by then.
  unfoldable pub runs : List (Config × H.Net) → World H → World H
  runs [] w = w
  runs ((c, t) ∷ rest) w = runs rest (watch c (record w { net = t })).1
