-- ===== src/Watch/Tests.antt =====
-- Runs of the watcher on a host whose backend is down and stays down.
use rawrz.Prelude.{ℕ, ◌+◌, ◌≤◌, ◌≡◌, refl, true, false, List, [], ◌∷◌, arith, count_if, length}
use rawrz.Exec.Halts.{IsEnded}
use rawrz.Watch.{Host, World, Config, Posted, posted, failed, watch, runs}
use rawrz.Watch.Waiting.{IsTimely}
use rawrz.Watch.Window.{starts_of, is_prompt, within, fresh, runs-window, runs-bounded}
use rawrz.Watch.Signature.{Restarts, watch-Restarts, watch-ends}
use rawrz.Watch.Alerts.{runs-never_restart}

-- The network is the clock.
abbrev wedged_host : Posted → Host
wedged_host answer = record {
  Net = ℕ;
  probe_frontend = λ t. (true, t);
  probe_backend = λ t. (false, t);
  restart = λ t. (true, t);
  discord_post = λ m t. (answer, t);
  now = λ t. t;
  sleep = λ d t. t + d;
  replace = λ t. (true, t);
}

wedged_host-IsTimely : (answer : Posted) → IsTimely (wedged_host answer)
wedged_host-IsTimely answer = record {
  now-sleep = λ d t. omega arith;
  now-probe = λ t. omega arith;
}

abbrev with_webhook : Config
with_webhook = record { has_key = true; has_webhook = true }

-- A run every ten minutes.
abbrev starts : List (Config × ℕ)
starts =
    (with_webhook, 600000)
    ∷ (with_webhook, 1200000)
    ∷ (with_webhook, 1800000)
    ∷ (with_webhook, 2400000)
    ∷ (with_webhook, 3000000)
    ∷ []

abbrev starting : World (wedged_host posted)
starting = fresh (wedged_host posted) 600000

runs-window_example :
    let log = (runs (wedged_host posted) starts (fresh (wedged_host posted) 0)).restarted in
    (count_if (within 600000) (starts_of log) ≤ 3) × (count_if (is_prompt 600000 60000) log ≤ 3)
runs-window_example =
    runs-window (wedged_host posted) (wedged_host-IsTimely posted) (λ t. refl) starts 0 600000 60000

runs-bounded_example :
    length (runs (wedged_host posted) starts (fresh (wedged_host posted) 0)).file.restarts ≤ 3
runs-bounded_example =
    runs-bounded (wedged_host posted) (wedged_host-IsTimely posted) (λ t. refl) starts 0

watch-Restarts_example :
    Restarts
      (wedged_host posted)
      with_webhook
      starting
      (watch (wedged_host posted) with_webhook starting).1
watch-Restarts_example = watch-Restarts (wedged_host posted) with_webhook starting

watch-ends_example : IsEnded (watch (wedged_host posted) with_webhook starting).0
watch-ends_example =
    watch-ends (wedged_host posted) (wedged_host-IsTimely posted) with_webhook starting

runs-never_restart_example :
    (runs (wedged_host failed) starts (fresh (wedged_host failed) 0)).restarted ≡ []
runs-never_restart_example =
    runs-never_restart (wedged_host failed) (λ m t. refl) starts 0
      (refl, (refl, (refl, (refl, (refl, tt)))))
