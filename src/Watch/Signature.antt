-- ===== src/Watch/Signature.antt =====
-- scripts/watch_nzbdav_backend.py: what a run has seen when it restarts the container, and its end.
use rawrz.Prelude.{
  ℕ, zero, suc, ◌+◌, ◌≡◌, refl, ap, ◌∙◌, Bool, true, false, ◌⊎◌, inl, inr, some, List, ◌∷◌, ltb,
  arith, Bool-cases, if◌then◌else◌,
}
use rawrz.Exec.{Outcome, done, raised, stuck, continue, ◌>>=◌, ◌>>◌, pure}
use rawrz.Exec.Keeps.{Keeps, Keeps-bind, Keeps-pure, Keeps-if}
use rawrz.Exec.Halts.{IsEnded, Halts, bind-Halts, pure-Halts, if-Halts}
use rawrz.Watch.{
  State, Kind, is_healthy, is_wedged, frontend_down, classify, Decision, go, cooldown, looping,
  Message, Posted, posted, failed, broke, is_wedged_now, Restart, Host, World, Config,
  should_restart, is_ill, is_label_wedged, is_label_loop, after_restart, probe_frontend,
  probe_backend, restart_nzbdav, save_state, sleep, after_probe, wait_loop, wait_for_backend,
  exit_of, alert, on_healthy, on_crash_loop, follow, restart_and_wait, go_on, remedy, on_decision,
  on_kind, watch, wait_rounds, restart_wait, wedged,
}
use rawrz.Watch.Waiting.{IsTimely, wait_for_backend-Settled}

module _ (H : Host) where
  -- The restarts so far.
  abbrev Log : List Restart → World H → Type 0
  Log log w = w.restarted ≡ log

  save_state-Log : (log : List Restart) (s : State) → Keeps (Log log) (save_state H s)
  unfolding save_state
  save_state-Log log s = record { at = λ w h. ground arith }

  probe_backend-Log : (log : List Restart) → Keeps (Log log) (probe_backend H)
  unfolding probe_backend
  probe_backend-Log log = record { at = λ w h. h }

  sleep-Log : (log : List Restart) → Keeps (Log log) (sleep H)
  unfolding sleep
  sleep-Log log = record { at = λ w h. h }

  wait_loop-Log :
      (log : List Restart) (rounds deadline : ℕ) → Keeps (Log log) (wait_loop H rounds deadline)
  unfolding wait_loop
  wait_loop-Log log zero deadline = record { at = λ w h. h }
  wait_loop-Log log (suc rounds) deadline =
      let rest = wait_loop-Log log rounds deadline in
      record { at = λ w h. by_time rest (ltb (H.now w.net) deadline) w h }
    where
      probed :
          Keeps (Log log) (wait_loop H rounds deadline)
          → (up : Bool) → Keeps (Log log) (after_probe H (wait_loop H rounds deadline) up)
      probed rest true = unfold after_probe in Keeps-pure true
      probed rest false = unfold after_probe in Keeps-bind _ _ (sleep-Log log) (λ u. rest)

      by_time :
          Keeps (Log log) (wait_loop H rounds deadline)
          → (b : Bool) (w : World H) → Log log w
          → Log log (
              (elim b as (λ _. Outcome Bool × World H) [
                | false ↦ probe_backend H w
                | true ↦ (probe_backend H >>= after_probe H (wait_loop H rounds deadline)) w
              ]).1)
      by_time rest false w h = (probe_backend-Log log).at w h
      by_time rest true w h = (Keeps-bind _ _ (probe_backend-Log log) (probed rest)).at w h

  module _ (c : Config) where
    alert-Log : (log : List Restart) (m : Message) → Keeps (Log log) (alert H c m)
    unfolding alert
    alert-Log log m = record { at = λ w h. ground arith }

    saved-Log :
        (log : List Restart) (s : State) (m : Message)
        → Keeps (Log log) (save_state H s >> alert H c m)
    saved-Log log s m = Keeps-bind _ _ (save_state-Log log s) λ u. alert-Log log m

    follow-Log : (log : List Restart) (s : State) (up : Bool) → Keeps (Log log) (follow H c s up)
    unfolding follow wait_for_backend
    follow-Log log s false = saved-Log log _ _
    follow-Log log s true =
        Keeps-bind _ _
          (record {
            at = λ w h. (wait_loop-Log log wait_rounds (H.now w.net + restart_wait)).at w h;
          })
          λ up. saved-Log log _ _

    -- One attempt to restart came after those of `w`, by a run that read the clock at `now`.
    abbrev pub Begun : ℕ → World H → World H → Type 0
    Begun now w v = (at : ℕ) × (v.restarted ≡ record { started = now; at = at } ∷ w.restarted)

    -- The run did not restart the container, or it saw a frontend that is up over a backend that is
    -- down, and the cooldown and the crash-loop guard let it.
    abbrev pub Restarts : World H → World H → Type 0
    Restarts w v =
        (v.restarted ≡ w.restarted)
        ⊎ (Begun (H.now w.net) w v
            × ((H.probe_frontend w.net).0 ≡ true)
            × ((H.probe_backend (H.probe_frontend w.net).1).0 ≡ false)
            × (should_restart w.file (H.now w.net) ≡ go))

    abbrev Tried : ℕ → World H → World H → Type 0
    Tried now w v = (v.restarted ≡ w.restarted) ⊎ Begun now w v

    restart_and_wait-Log :
        (s : State) (now : ℕ) (w : World H) → Begun now w (restart_and_wait H c s now w).1
    unfolding restart_and_wait restart_nzbdav ◌>>=◌
    restart_and_wait-Log s now w =
        let log = record { started = now; at = H.now w.net } ∷ w.restarted in
        (H.now w.net, (follow-Log log (after_restart s now) (H.restart w.net).0).at _ refl)

    after_alert :
        (s : State) (now : ℕ) (w v : World H) (r : Outcome ℕ)
        → v.restarted ≡ w.restarted
        → Tried now w (continue r (go_on H c s now) v).1
    unfolding go_on pure
    after_alert s now w v (done zero) h =
        let (at, e) = restart_and_wait-Log s now v in
        inr (at, e ∙ ap (λ l. record { started = now; at = at } ∷ l) h)
    after_alert s now w v (done (suc code)) h = inl h
    after_alert s now w v (raised e) h = inl h
    after_alert s now w v stuck h = inl h

    remedy-Tried : (s : State) (now : ℕ) (w : World H) → Tried now w (remedy H c s now w).1
    unfolding remedy
    remedy-Tried s now w = by_label (is_label_wedged s.label)
      where
        s' : State
        s' = record s { label = some wedged }

        first : Tried now w ((alert H c is_wedged_now >>= go_on H c s' now) w).1
        first =
            unfold ◌>>=◌ in
            after_alert s' now w (alert H c is_wedged_now w).1 (alert H c is_wedged_now w).0
              ((alert-Log w.restarted is_wedged_now).at w refl)

        by_label :
            (b : Bool)
            → Tried now w
                ((if b
                    then restart_and_wait H c s now
                    else (alert H c is_wedged_now >>= go_on H c s' now))
                  w).1
        by_label true = inr (restart_and_wait-Log s now w)
        by_label false = first

    on_decision-Tried :
        (s : State) (now : ℕ) (d : Decision) (w : World H)
        → let v = (on_decision H c s now d w).1 in
          (v.restarted ≡ w.restarted) ⊎ (Begun now w v × (d ≡ go))
    unfolding on_decision on_crash_loop
    on_decision-Tried s now go w = elim (remedy-Tried s now w) [
      | inl h ↦ inl h
      | inr h ↦ inr (h, refl)
    ]
    on_decision-Tried s now cooldown w = unfold pure in inl refl
    on_decision-Tried s now looping w = inl (
        (Keeps-if (is_label_loop s.label) _ _ (Keeps-pure 0) (saved-Log w.restarted _ _)).at w refl)

    on_kind-Tried :
        (s : State) (now : ℕ) (kind : Kind) (w : World H)
        → let v = (on_kind H c s now kind w).1 in
          (v.restarted ≡ w.restarted)
          ⊎ (Begun now w v × (kind ≡ is_wedged) × (should_restart s now ≡ go))
    unfolding on_kind on_healthy
    on_kind-Tried s now is_healthy w =
        inl ((Keeps-if (is_ill s.label) _ _ (saved-Log w.restarted _ _) (Keeps-pure 0)).at w refl)
    on_kind-Tried s now frontend_down w = unfold pure in inl refl
    on_kind-Tried s now is_wedged w = elim (on_decision-Tried s now (should_restart s now) w) [
      | inl h ↦ inl h
      | inr h ↦ inr (h.0, refl, h.1)
    ]

    classify-wedged : (f b : Bool) → classify f b ≡ is_wedged → (f ≡ true) × (b ≡ false)
    unfolding classify
    classify-wedged true true h = cc
    classify-wedged true false h = (refl, refl)
    classify-wedged false b h = cc

    -- A run restarts the container at most once, and only if it saw the frontend up over a backend
    -- that is down, and neither the cooldown nor the crash-loop guard holds.
    pub watch-Restarts : (w : World H) → Restarts w (watch H c w).1
    unfolding watch ◌>>=◌ probe_frontend probe_backend
    watch-Restarts w = by_key c.has_key
      where
        t1 : H.Net
        t1 = (H.probe_frontend w.net).1

        probed :
            Restarts w
              (on_kind H c w.file
                (H.now w.net)
                (classify (H.probe_frontend w.net).0 (H.probe_backend t1).0)
                (record w { net = (H.probe_backend t1).1 })).1
        probed =
            elim (on_kind-Tried w.file (H.now w.net)
              (classify (H.probe_frontend w.net).0 (H.probe_backend t1).0)
              (record w { net = (H.probe_backend t1).1 })) [
                | inl h ↦ inl h
                | inr h ↦
                    let seen =
                      classify-wedged (H.probe_frontend w.net).0 (H.probe_backend t1).0 h.1 in
                    inr (h.0, seen.0, seen.1, h.2)
              ]

        by_key :
            (b : Bool)
            → Restarts w
                (if b
                  then on_kind H c w.file
                      (H.now w.net)
                      (classify (H.probe_frontend w.net).0 (H.probe_backend t1).0)
                      (record w { net = (H.probe_backend t1).1 })
                  else (done 2, w)).1
        by_key true = probed
        by_key false = inl refl

  module _ (timely : IsTimely H) (c : Config) where
    save_state-Halts : (s : State) → Halts (save_state H s)
    unfolding save_state
    save_state-Halts s w = elim (Bool-cases (H.replace w.net).0) [
      | inl e ↦ rw e tt
      | inr e ↦ rw e tt
    ]

    exit_of-IsEnded : (r : Posted) → IsEnded (exit_of H r)
    exit_of-IsEnded posted = tt
    exit_of-IsEnded failed = tt
    exit_of-IsEnded (broke e) = tt

    alert-Halts : (m : Message) → Halts (alert H c m)
    unfolding alert
    alert-Halts m w = by_webhook c.has_webhook
      where
        by_webhook :
            (b : Bool)
            → IsEnded
                (if◌then◌else◌ {A = Outcome ℕ × World H} b
                  (
                    exit_of H (H.discord_post m w.net).0,
                    record w { net = (H.discord_post m w.net).1 },
                  )
                  (done 0, w)).0
        by_webhook true = exit_of-IsEnded (H.discord_post m w.net).0
        by_webhook false = tt

    saved-Halts : (s : State) (m : Message) → Halts (save_state H s >> alert H c m)
    saved-Halts s m = bind-Halts _ _ (save_state-Halts s) λ u. alert-Halts m

    wait_for_backend-Halts : Halts (wait_for_backend H)
    wait_for_backend-Halts w = rw (wait_for_backend-Settled H timely w).returned tt

    follow-Halts : (s : State) (up : Bool) → Halts (follow H c s up)
    unfolding follow
    follow-Halts s false = saved-Halts _ _
    follow-Halts s true = bind-Halts _ _ wait_for_backend-Halts λ up. saved-Halts _ _

    restart_nzbdav-Halts : (now : ℕ) → Halts (restart_nzbdav H now)
    unfolding restart_nzbdav
    restart_nzbdav-Halts now w = tt

    restart_and_wait-Halts : (s : State) (now : ℕ) → Halts (restart_and_wait H c s now)
    unfolding restart_and_wait
    restart_and_wait-Halts s now = bind-Halts _ _ (restart_nzbdav-Halts now) (follow-Halts _)

    go_on-Halts : (s : State) (now code : ℕ) → Halts (go_on H c s now code)
    unfolding go_on
    go_on-Halts s now zero = restart_and_wait-Halts s now
    go_on-Halts s now (suc code) = pure-Halts _

    on_decision-Halts : (s : State) (now : ℕ) (d : Decision) → Halts (on_decision H c s now d)
    unfolding on_decision on_crash_loop remedy
    on_decision-Halts s now go =
        if-Halts (is_label_wedged s.label) _ _ (restart_and_wait-Halts s now)
          (bind-Halts _ _ (alert-Halts _) (go_on-Halts _ now))
    on_decision-Halts s now cooldown = pure-Halts 0
    on_decision-Halts s now looping =
        if-Halts (is_label_loop s.label) _ _ (pure-Halts 0) (saved-Halts _ _)

    on_kind-Halts : (s : State) (now : ℕ) (kind : Kind) → Halts (on_kind H c s now kind)
    unfolding on_kind on_healthy
    on_kind-Halts s now is_healthy = if-Halts (is_ill s.label) _ _ (saved-Halts _ _) (pure-Halts 0)
    on_kind-Halts s now frontend_down = pure-Halts 0
    on_kind-Halts s now is_wedged = on_decision-Halts s now (should_restart s now)

    -- If sleeps last as long as they were asked for and probes do not turn back the clock, a run of
    -- the watcher returns an exit code or raises.
    pub watch-ends : (w : World H) → IsEnded (watch H c w).0
    unfolding watch ◌>>=◌ probe_frontend probe_backend
    watch-ends w = by_key c.has_key
      where
        t1 : H.Net
        t1 = (H.probe_frontend w.net).1

        by_key :
            (b : Bool)
            → IsEnded
                (if b
                  then on_kind H c w.file
                      (H.now w.net)
                      (classify (H.probe_frontend w.net).0 (H.probe_backend t1).0)
                      (record w { net = (H.probe_backend t1).1 })
                  else (done 2, w)).0
        by_key true =
            on_kind-Halts w.file (H.now w.net) _ (record w { net = (H.probe_backend t1).1 })
        by_key false = tt
