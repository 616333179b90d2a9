-- ===== src/Watch/Alerts.antt =====
-- scripts/watch_nzbdav_backend.py: runs whose alerts cannot be posted.
use rawrz.Prelude.{
  ℕ, ◌≡◌, refl, Bool, true, false, some, List, [], ◌∷◌, arith, Bool-cases, inl, inr, All,
  if◌then◌else◌,
}
use rawrz.Exec.{done, ◌>>=◌, ◌>>◌, pure}
use rawrz.Exec.Keeps.{Keeps, Keeps-bind, Keeps-pure, Keeps-if}
use rawrz.Watch.{
  State, Kind, is_healthy, is_wedged, frontend_down, classify, Decision, go, cooldown, looping,
  Message, failed, is_wedged_now, Host, World, Config, should_restart, is_ill, is_label_wedged,
  is_label_loop, probe_frontend, probe_backend, save_state, alert, on_healthy, on_crash_loop, go_on,
  remedy, on_decision, on_kind, watch, runs, wedged,
}
use rawrz.Watch.Window.{fresh}

module _ (H : Host) (down : (m : Message) (t : H.Net) → (H.discord_post m t).0 ≡ failed) where
  -- No run has got as far as to record a wedge, and none has restarted the container.
  record Blocked (w : World H) : Type 0 where
    unmarked : is_label_wedged w.file.label ≡ false
    untried : w.restarted ≡ []

  save_state-Blocked :
      (s : State) → is_label_wedged s.label ≡ false → Keeps Blocked (save_state H s)
  unfolding save_state
  save_state-Blocked s e = record {
    at = λ w h. elim (Bool-cases (H.replace w.net).0) [
      | inl yes_it_is ↦ rw yes_it_is (record { unmarked = e; untried = h.untried })
      | inr no_it_is_not ↦ rw no_it_is_not (record { unmarked = h.unmarked; untried = h.untried })
    ];
  }

  module _ (c : Config) (webhook : c.has_webhook ≡ true) where
    alert_eq :
        (m : Message) (w : World H)
        → alert H c m w ≡ (done 1, record w { net = (H.discord_post m w.net).1 })
    unfolding alert
    alert_eq m w = ground (arith, down m w.net)

    alert-Blocked : (m : Message) → Keeps Blocked (alert H c m)
    alert-Blocked m = record {
      at = λ w h. rw (alert_eq m w) (record { unmarked = h.unmarked; untried = h.untried });
    }

    saved-Blocked :
        (s : State) (m : Message)
        → is_label_wedged s.label ≡ false
        → Keeps Blocked (save_state H s >> alert H c m)
    saved-Blocked s m e = Keeps-bind _ _ (save_state-Blocked s e) λ u. alert-Blocked m

    first_alert :
        (s s' : State) (now : ℕ) (w : World H)
        → Blocked w
        → Blocked ((alert H c is_wedged_now >>= go_on H c s' now) w).1
    unfolding ◌>>=◌ go_on pure
    first_alert s s' now w h =
        rw (alert_eq is_wedged_now w) (record { unmarked = h.unmarked; untried = h.untried })

    remedy-Blocked :
        (s : State) (now : ℕ) (w : World H)
        → is_label_wedged s.label ≡ false
        → Blocked w
        → Blocked (remedy H c s now w).1
    unfolding remedy
    remedy-Blocked s now w e h = rw e (first_alert s (record s { label = some wedged }) now w h)

    on_kind-Blocked :
        (s : State) (now : ℕ) (kind : Kind) (w : World H)
        → is_label_wedged s.label ≡ false
        → Blocked w
        → Blocked (on_kind H c s now kind w).1
    unfolding on_kind on_healthy on_decision on_crash_loop
    on_kind-Blocked s now is_healthy w e h =
        (Keeps-if (is_ill s.label) _ _ (saved-Blocked _ _ refl) (Keeps-pure _)).at w h
    on_kind-Blocked s now frontend_down w e h = unfold pure in h
    on_kind-Blocked s now is_wedged w e h = decided (should_restart s now)
      where
        decided : (d : Decision) → Blocked (on_decision H c s now d w).1
        decided go = remedy-Blocked s now w e h
        decided cooldown = unfold pure in h
        decided looping =
            (Keeps-if (is_label_loop s.label) _ _ (Keeps-pure _) (saved-Blocked _ _ refl)).at w h

    watch-Blocked : (w : World H) → Blocked w → Blocked (watch H c w).1
    unfolding watch ◌>>=◌ probe_frontend probe_backend
    watch-Blocked w h = by_key c.has_key
      where
        t1 : H.Net
        t1 = (H.probe_frontend w.net).1

        by_key :
            (b : Bool)
            → Blocked
                (if b
                  then on_kind H c w.file
                      (H.now w.net)
                      (classify (H.probe_frontend w.net).0 (H.probe_backend t1).0)
                      (record w { net = (H.probe_backend t1).1 })
                  else (done 2, w)).1
        by_key true =
            on_kind-Blocked w.file (H.now w.net) _ (record w { net = (H.probe_backend t1).1 })
              h.unmarked (record { unmarked = h.unmarked; untried = h.untried })
        by_key false = h

  runs-Blocked :
      (starts : List (Config × H.Net)) (w : World H)
      → All (λ start. start.0.has_webhook ≡ true) starts
      → Blocked w
      → Blocked (runs H starts w)
  unfolding runs
  runs-Blocked [] w on h = h
  runs-Blocked ((c, t) ∷ rest) w on h = runs-Blocked rest _ on.1 (
      watch-Blocked c on.0 (record w { net = t })
        (record { unmarked = h.unmarked; untried = h.untried }))

  -- Start with no state file, with a webhook that is set and that no message can be posted to. Then
  -- no run ever restarts the container, however long the backend stays wedged.
  pub runs-never_restart :
      (starts : List (Config × H.Net)) (t : H.Net)
      → All (λ start. start.0.has_webhook ≡ true) starts
      → (runs H starts (fresh H t)).restarted ≡ []
  runs-never_restart starts t on =
      (runs-Blocked starts (fresh H t) on (record { unmarked = refl; untried = refl })).untried
