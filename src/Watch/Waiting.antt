-- ===== src/Watch/Waiting.antt =====
-- `wait_for_backend` of scripts/watch_nzbdav_backend.py: the clock during the wait.
use rawrz.Prelude.{
  ℕ, zero, suc, ◌+◌, ◌*◌, ◌≤◌, ◌≡◌, refl, Bool, true, false, arith, ltb, Bool-cases, inl, inr,
}
use rawrz.Exec.{Outcome, done, ◌>>=◌, pure}
use rawrz.Watch.{
  Host, World, restart_wait, probe_backend, sleep, after_probe, wait_loop, wait_for_backend,
}

-- A sleep lasts as long as it was asked for, and a probe does not turn back the clock.
pub record IsTimely (H : Host) : Type 0 where
  pub now-sleep : (d : ℕ) (t : H.Net) → H.now t + d ≤ H.now (H.sleep d t)
  pub now-probe : (t : H.Net) → H.now t ≤ H.now (H.probe_backend t).1

module _ (H : Host) where
  -- The wait returned, and it left the file and the restarts alone.
  pub record Settled (w : World H) (r : Outcome Bool × World H) : Type 0 where
    pub up : Bool
    pub world : World H
    pub returned : r ≡ (done up, world)
    pub same_file : world.file ≡ w.file
    pub same_restarted : world.restarted ≡ w.restarted

  probe-Settled : (w : World H) → Settled w (probe_backend H w)
  unfolding probe_backend
  probe-Settled w = record {
    up = (H.probe_backend w.net).0;
    world = record w { net = (H.probe_backend w.net).1 };
    returned = refl;
    same_file = refl;
    same_restarted = refl;
  }

  not_early : (now deadline : ℕ) → deadline ≤ now + 5000 * 0 → ¬ (ltb now deadline ≡ true)
  not_early now deadline h e = ground arith

  slept :
      (now probed after deadline k : ℕ)
      → deadline ≤ now + 5000 * suc k
      → now ≤ probed
      → probed + 5000 ≤ after
      → deadline ≤ after + 5000 * k
  slept now probed after deadline k d p s = omega arith

  module _ (timely : IsTimely H) where
    after_probe-Settled :
        (w : World H) (t : H.Net) (rest : World H → Outcome Bool × World H) (up : Bool)
        → Settled w (rest (record w { net = H.sleep 5000 t }))
        → Settled w (after_probe H rest up (record w { net = t }))
    unfolding after_probe pure ◌>>=◌ sleep
    after_probe-Settled w t rest true h = record {
      up = true;
      world = record w { net = t };
      returned = refl;
      same_file = refl;
      same_restarted = refl;
    }
    after_probe-Settled w t rest false h = h

    early-Settled :
        (rest : World H → Outcome Bool × World H) (w : World H)
        → Settled w (rest (record w { net = H.sleep 5000 (H.probe_backend w.net).1 }))
        → Settled w ((probe_backend H >>= after_probe H rest) w)
    unfolding ◌>>=◌ probe_backend
    early-Settled rest w h =
        after_probe-Settled w (H.probe_backend w.net).1 rest (H.probe_backend w.net).0 h

    wait_loop_late :
        (k deadline : ℕ) (w : World H)
        → ltb (H.now w.net) deadline ≡ false
        → wait_loop H (suc k) deadline w ≡ probe_backend H w
    unfolding wait_loop
    wait_loop_late k deadline w e = rw (wait_loop, e)

    wait_loop_early :
        (k deadline : ℕ) (w : World H)
        → ltb (H.now w.net) deadline ≡ true
        → wait_loop H (suc k) deadline w
          ≡ (probe_backend H >>= after_probe H (wait_loop H k deadline)) w
    unfolding wait_loop
    wait_loop_early k deadline w e = rw (wait_loop, e)

    wait_loop-Settled :
        (k deadline : ℕ) (w : World H)
        → deadline ≤ H.now w.net + 5000 * k
        → Settled w (wait_loop H (suc k) deadline w)
    wait_loop-Settled zero deadline w d = elim (Bool-cases (ltb (H.now w.net) deadline)) [
      | inr late ↦ rw (wait_loop_late zero deadline w late) (probe-Settled w)
      | inl early ↦ absurd (not_early (H.now w.net) deadline d early)
    ]
    wait_loop-Settled (suc k) deadline w d = elim (Bool-cases (ltb (H.now w.net) deadline)) [
      | inr late ↦ rw (wait_loop_late (suc k) deadline w late) (probe-Settled w)
      | inl early ↦
          let later =
            wait_loop-Settled k deadline (record w { net = H.sleep 5000 (H.probe_backend w.net).1 })
              (slept (H.now w.net) (H.now (H.probe_backend w.net).1) _ deadline k d
                (timely.now-probe w.net) (timely.now-sleep 5000 _)) in
          rw (wait_loop_early (suc k) deadline w early) (
            early-Settled (wait_loop H (suc k) deadline) w (record {
              up = later.up;
              world = later.world;
              returned = later.returned;
              same_file = later.same_file;
              same_restarted = later.same_restarted;
            }))
    ]

    pub wait_for_backend-Settled : (w : World H) → Settled w (wait_for_backend H w)
    unfolding wait_for_backend
    wait_for_backend-Settled w = wait_loop-Settled 18 (H.now w.net + restart_wait) w (omega arith)
