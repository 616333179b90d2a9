-- ===== src/Watch/Window.antt =====
-- scripts/watch_nzbdav_backend.py: the history of restarts in the state file and the restarts that
-- were tried.
use rawrz.Prelude.{
  ℕ, zero, suc, ◌+◌, ◌≤◌, ◌≡◌, refl, Bool, true, false, ◌&&◌, Option, some, List, [], ◌∷◌, ◌++◌,
  arith, leb, ltb, count_if, length, count_if_mono, count_if-keep, count_if-append, length-keep,
  Bool-cases, inl, inr, if◌then◌else◌,
}
use rawrz.Exec.{Outcome, done, raised, stuck, continue, ◌>>=◌, ◌>>◌, pure}
use rawrz.Watch.{
  Label, State, no_state, Kind, is_healthy, is_wedged, frontend_down, classify, Decision, go,
  cooldown, looping, Message, healthy_again, keeps_wedging, is_wedged_now, Host, World, Config,
  Restart, crash_window, is_recent, restarts_in_window, should_restart, is_ill, is_label_wedged,
  is_label_loop, after_restart, probe_frontend, probe_backend, restart_nzbdav, save_state, exit_of,
  alert, on_healthy, on_crash_loop, follow, restart_and_wait, go_on, remedy, on_decision, on_kind,
  watch, runs, healthy, wedged, crash_loop,
}
use rawrz.Watch.Waiting.{IsTimely, wait_for_backend-Settled}

-- The times that the state file has for attempts to restart.
abbrev pub starts_of : List Restart → List ℕ
starts_of [] = []
starts_of (r ∷ rs) = r.started ∷ starts_of rs

-- A time in the window that starts at `start`.
abbrev pub within : ℕ → ℕ → Bool
within start t = leb start t && leb t (start + crash_window)

-- An attempt that came within `d` after its run read the clock, in the thirty minutes from `start`
-- without their first `d`.
abbrev pub is_prompt : ℕ → ℕ → Restart → Bool
is_prompt start d r =
    leb r.started r.at
    && leb r.at (r.started + d)
    && leb (start + d) r.at
    && leb r.at (start + crash_window)

prompt-within :
    (start d : ℕ) (r : Restart) → is_prompt start d r ≡ true → within start r.started ≡ true
prompt-within start d r h = ground arith

prompt_starts :
    (start d : ℕ) (log : List Restart)
    → count_if (is_prompt start d) log ≤ count_if (within start) (starts_of log)
prompt_starts start d [] = omega arith
prompt_starts start d (r ∷ log) = ground (arith, prompt-within start d r, prompt_starts start d log)

-- Each restart, the last one first, has at most two others in the window before it.
abbrev Spaced : List ℕ → Type 0
Spaced [] = Unit
Spaced (t ∷ log) = (count_if (is_recent t) log ≤ 2) × Spaced log

within-is_recent :
    (start t s : ℕ) → within start t ≡ true → within start s ≡ true → is_recent t s ≡ true
within-is_recent start t s h k = ground arith

Spaced-window : (start : ℕ) (log : List ℕ) → Spaced log → count_if (within start) log ≤ 3
Spaced-window start [] h = omega arith
Spaced-window start (t ∷ log) h = elim (Bool-cases (within start t)) [
  | inl here ↦ rw here (
      omega (
        arith,
        h.0,
        count_if_mono (within start) (is_recent t) log (λ s. within-is_recent start t s here),
      ))
  | inr out ↦ rw out (Spaced-window start log h.1)
]

-- The file counts every restart that a later run has to count, the restarts are spaced, and the
-- history is short.
record IsKept (s : State) (log : List ℕ) : Type 0 where
  counted :
      (now : ℕ)
      → s.last_action_at ≤ now
      → count_if (is_recent now) log ≤ count_if (is_recent now) s.restarts
  spaced : Spaced log
  bounded : length s.restarts ≤ 3

relabelled :
    (s : State) (log : List ℕ) (l : Option Label)
    → IsKept s log
    → IsKept (record s { label = l }) log
relabelled s log l h = record { counted = h.counted; spaced = h.spaced; bounded = h.bounded }

go_facts :
    (now last n : ℕ)
    → (if ltb now (last + 120000) then cooldown else if leb 3 n then looping else go) ≡ go
    → (last ≤ now) × (n ≤ 2)
go_facts now last n h = ground arith

should_restart-go :
    (s : State) (now : ℕ)
    → should_restart s now ≡ go
    → (s.last_action_at ≤ now) × (restarts_in_window s now ≤ 2)
unfolding should_restart
should_restart-go s now h = go_facts now s.last_action_at (restarts_in_window s now) h

later_is_recent :
    (now later t : ℕ) → now ≤ later → is_recent later t ≡ true → is_recent now t ≡ true
later_is_recent now later t h e = ground arith

count_one :
    (p : ℕ → Bool) (t : ℕ) (log rest : List ℕ)
    → count_if p log ≤ count_if p rest
    → count_if p (t ∷ log) ≤ count_if p (rest ++ (t ∷ []))
count_one p t log rest h = rw (count_if-append p rest (t ∷ [])) (ground arith)

restart-IsKept :
    (s : State) (log : List ℕ) (now : ℕ)
    → should_restart s now ≡ go
    → IsKept s log
    → IsKept (after_restart s now) (now ∷ log)
restart-IsKept s log now allowed h = record {
  counted = λ later after.
      rw
        (count_if-keep (is_recent now) (is_recent later) (s.restarts ++ (now ∷ []))
          (λ t. later_is_recent now later t after))
        (count_one (is_recent later) now log s.restarts
          (h.counted later (omega (arith, facts, after))));
  spaced = (omega (arith, h.counted now facts.0, facts), h.spaced);
  bounded =
      rw
        (
          length-keep (is_recent now) (s.restarts ++ (now ∷ [])),
          count_if-append (is_recent now) s.restarts (now ∷ []),
        )
        (ground (arith, facts));
}
  where
    facts : (s.last_action_at ≤ now) × (restarts_in_window s now ≤ 2)
    facts = should_restart-go s now allowed

module _ (H : Host) (timely : IsTimely H) (saves : (t : H.Net) → (H.replace t).0 ≡ true)
    (c : Config) where
  abbrev Kept : World H → Type 0
  Kept w = IsKept w.file (starts_of w.restarted)

  save_state_eq :
      (s : State) (w : World H)
      → save_state H s w ≡ (done tt, record w { net = (H.replace w.net).1; file = s })
  unfolding save_state
  save_state_eq s w = rw (saves w.net)

  alert-Kept : (m : Message) (w : World H) → Kept w → Kept (alert H c m w).1
  unfolding alert
  alert-Kept m w h = by_webhook c.has_webhook
    where
      by_webhook :
          (b : Bool)
          → Kept
              (if◌then◌else◌ {A = Outcome ℕ × World H} b
                (let (r, t) = H.discord_post m w.net in (exit_of H r, record w { net = t }))
                (done 0, w)).1
      by_webhook true = h
      by_webhook false = h

  saved-Kept :
      (s : State) (m : Message) (w : World H)
      → IsKept s (starts_of w.restarted)
      → Kept ((save_state H s >> alert H c m) w).1
  unfolding ◌>>=◌
  saved-Kept s m w h = rw (save_state_eq s w) (alert-Kept m _ h)

  follow-Kept :
      (s : State) (up : Bool) (w : World H)
      → IsKept s (starts_of w.restarted)
      → Kept (follow H c s up w).1
  unfolding follow
  follow-Kept s false w h = saved-Kept _ _ w (relabelled s (starts_of w.restarted) _ h)
  follow-Kept s true w h =
      let waited = wait_for_backend-Settled H timely w in
      unfold ◌>>=◌ in
      rw waited.returned (
        saved-Kept _ _ waited.world
          (relabelled s (starts_of waited.world.restarted) _ (rw waited.same_restarted h)))

  restart_and_wait-Kept :
      (s : State) (now : ℕ) (w : World H)
      → should_restart s now ≡ go
      → IsKept s (starts_of w.restarted)
      → Kept (restart_and_wait H c s now w).1
  unfolding restart_and_wait restart_nzbdav ◌>>=◌
  restart_and_wait-Kept s now w allowed h =
      follow-Kept (after_restart s now) (H.restart w.net).0 _
        (restart-IsKept s (starts_of w.restarted) now allowed h)

  go_on-Kept :
      (s : State) (now : ℕ) (r : Outcome ℕ) (w : World H)
      → should_restart s now ≡ go
      → IsKept s (starts_of w.restarted)
      → Kept w
      → Kept (continue r (go_on H c s now) w).1
  unfolding go_on pure
  go_on-Kept s now (done zero) w allowed h k = restart_and_wait-Kept s now w allowed h
  go_on-Kept s now (done (suc code)) w allowed h k = k
  go_on-Kept s now (raised e) w allowed h k = k
  go_on-Kept s now stuck w allowed h k = k

  alert_same : (m : Message) (w : World H) → (alert H c m w).1.restarted ≡ w.restarted
  unfolding alert
  alert_same m w = ground arith

  remedy-Kept :
      (s : State) (now : ℕ) (w : World H)
      → should_restart s now ≡ go
      → IsKept s (starts_of w.restarted)
      → Kept w
      → Kept (remedy H c s now w).1
  unfolding remedy
  remedy-Kept s now w allowed h k = by_label (is_label_wedged s.label)
    where
      first :
          Kept ((alert H c is_wedged_now >>= go_on H c (record s { label = some wedged }) now) w).1
      first =
          unfold ◌>>=◌ in
          go_on-Kept (record s { label = some wedged }) now (alert H c is_wedged_now w).0
            (alert H c is_wedged_now w).1 (unfold should_restart in allowed)
            (rw (alert_same is_wedged_now w) (relabelled s (starts_of w.restarted) _ h))
            (alert-Kept is_wedged_now w k)

      by_label :
          (b : Bool)
          → Kept
              ((if b
                  then restart_and_wait H c s now
                  else (alert H c is_wedged_now
                      >>= go_on H c (record s { label = some wedged }) now))
                w).1
      by_label true = restart_and_wait-Kept s now w allowed h
      by_label false = first

  on_decision-Kept :
      (s : State) (now : ℕ) (d : Decision) (w : World H)
      → should_restart s now ≡ d
      → IsKept s (starts_of w.restarted)
      → Kept w
      → Kept (on_decision H c s now d w).1
  unfolding on_decision pure on_crash_loop
  on_decision-Kept s now go w e h k = remedy-Kept s now w e h k
  on_decision-Kept s now cooldown w e h k = k
  on_decision-Kept s now looping w e h k = by_label (is_label_loop s.label)
    where
      by_label :
          (b : Bool)
          → Kept
              ((if b
                  then pure 0
                  else (save_state H (record s { label = some crash_loop })
                      >> alert H c keeps_wedging))
                w).1
      by_label true = k
      by_label false = saved-Kept _ _ w (relabelled s (starts_of w.restarted) _ h)

  on_kind-Kept :
      (s : State) (now : ℕ) (kind : Kind) (w : World H)
      → IsKept s (starts_of w.restarted)
      → Kept w
      → Kept (on_kind H c s now kind w).1
  unfolding on_kind pure on_healthy
  on_kind-Kept s now is_healthy w h k = by_label (is_ill s.label)
    where
      by_label :
          (b : Bool)
          → Kept
              ((if b
                  then (save_state H (record s { label = some healthy }) >> alert H c healthy_again)
                  else pure 0)
                w).1
      by_label true = saved-Kept _ _ w (relabelled s (starts_of w.restarted) _ h)
      by_label false = k
  on_kind-Kept s now frontend_down w h k = k
  on_kind-Kept s now is_wedged w h k = on_decision-Kept s now (should_restart s now) w refl h k

  watch-Kept : (w : World H) → Kept w → Kept (watch H c w).1
  unfolding watch ◌>>=◌ probe_frontend probe_backend
  watch-Kept w h = by_key c.has_key
    where
      t1 : H.Net
      t1 = (H.probe_frontend w.net).1

      probed :
          Kept
            (on_kind H c w.file
              (H.now w.net)
              (classify (H.probe_frontend w.net).0 (H.probe_backend t1).0)
              (record w { net = (H.probe_backend t1).1 })).1
      probed = on_kind-Kept w.file (H.now w.net) _ (record w { net = (H.probe_backend t1).1 }) h h

      by_key :
          (b : Bool)
          → Kept
              (if b
                then on_kind H c w.file
                    (H.now w.net)
                    (classify (H.probe_frontend w.net).0 (H.probe_backend t1).0)
                    (record w { net = (H.probe_backend t1).1 })
                else (done 2, w)).1
      by_key true = probed
      by_key false = h

-- The first run finds no state file.
abbrev pub fresh : (H : Host) → H.Net → World H
fresh H t = record { net = t; file = no_state; restarted = [] }

module _ (H : Host) (timely : IsTimely H) (saves : (t : H.Net) → (H.replace t).0 ≡ true) where
  runs-Kept :
      (starts : List (Config × H.Net)) (w : World H)
      → IsKept w.file (starts_of w.restarted)
      → IsKept (runs H starts w).file (starts_of (runs H starts w).restarted)
  unfolding runs
  runs-Kept [] w h = h
  runs-Kept ((c, t) ∷ rest) w h =
      runs-Kept rest _ (watch-Kept H timely saves c (record w { net = t }) h)

  fresh-Kept : (t : H.Net) → IsKept (fresh H t).file (starts_of (fresh H t).restarted)
  fresh-Kept t = record { counted = λ now h. omega arith; spaced = tt; bounded = omega arith }

  -- Start with no state file. If the state can be written, sleeps last as long as they were asked for
  -- and probes do not turn back the clock, then by any number of runs at any times: of the runs that read
  -- the clock within any thirty minutes, at most three attempt a restart; and for any `d`, of the
  -- attempts that come within `d` milliseconds after their run read the clock, at most three are made
  -- in any thirty minutes less `d`.
  pub runs-window :
      (starts : List (Config × H.Net)) (t : H.Net) (start d : ℕ)
      → (count_if (within start) (starts_of (runs H starts (fresh H t)).restarted) ≤ 3)
        × (count_if (is_prompt start d) (runs H starts (fresh H t)).restarted ≤ 3)
  runs-window starts t start d =
      let log = (runs H starts (fresh H t)).restarted in
      let few =
        Spaced-window start (starts_of log) (runs-Kept starts (fresh H t) (fresh-Kept t)).spaced in
      (few, omega (arith, few, prompt_starts start d log))

  -- Start with no state file. On the same terms the history in the state file has at most three entries
  -- after any number of runs.
  pub runs-bounded :
      (starts : List (Config × H.Net)) (t : H.Net)
      → length (runs H starts (fresh H t)).file.restarts ≤ 3
  runs-bounded starts t = (runs-Kept starts (fresh H t) (fresh-Kept t)).bounded
