-- ===== src/Login/Failures.antt =====
-- archive/control-panel/control-panel/django/auth_app/rate_limit.py: what a failed login records.
use rawrz.Prelude.{
  ℕ, ◌+◌, ◌≡◌, ◌∙◌, refl, ap, inl, inr, Option, none, some, List, [], ◌∷◌, ◌++◌, String, leb,
  length, if◌then◌else◌, Bool-cases,
}
use rawrz.Prelude.Result.{Result}
use rawrz.Exec.{Outcome, done, ◌>>=◌, pure}
use rawrz.Login.Assoc.{find, assign, remove, find-assign, find-remove}
use rawrz.Login.{
  Panel, World, Action, login_failed, login_lockout, call, now, get, set_attempts, set_lockouts,
  cleaned, clean_old, listed, recent, add_attempt, lock, record_failure, lockout,
}

module _ (P : Panel) (ip : String) where
  listed-cleaned :
      (n : ℕ) (table : List (String × List ℕ)) (ts : Option (List ℕ))
      → find ip table ≡ ts
      → listed (find ip (cleaned P ip n table ts)) ≡ recent n (listed ts)
  unfolding cleaned
  listed-cleaned n table none h = rw h refl
  listed-cleaned n table (some ts) h =
      elim (recent n ts)
        as (λ r.
          listed (find ip (elim r [ [] ↦ remove ip table | t ∷ rest ↦ assign ip (t ∷ rest) table ]))
          ≡ r) [
            | [] ↦ ap listed (find-remove ip table)
            | t ∷ rest ↦ ap listed (find-assign ip (t ∷ rest) table)
          ]

  -- The times that three readings of the clock give during a failure.
  abbrev first : World P → ℕ
  first w = (P.now w.net).0

  abbrev second : World P → ℕ
  second w = (P.now (P.now w.net).1).0

  abbrev third : String → World P → ℕ
  third username w = (P.now (P.audit login_failed username (P.now (P.now w.net).1).1).1).0

  -- The attempts of the address with the new one.
  abbrev pub counted : World P → List ℕ
  counted w = recent (first w) (listed (find ip w.attempts)) ++ (second w ∷ [])

  -- The failure was recorded: the attempts in the window with the new one, and the lockout from the
  -- fifth of them on.
  pub record Recorded (username : String) (w : World P) (r : Outcome (Unit {0}) × World P)
      : Type 0 where
    pub world : World P
    pub returned : r ≡ (done tt, world)
    pub attempts : find ip world.attempts ≡ some (counted w)
    pub lockouts : find ip world.lockouts ≡ (
        if leb 5 (length (counted w)) then some (third username w + 900000) else find ip w.lockouts)
    pub session : world.session ≡ w.session

  module _ (audits : (a : Action) (s : String) (t : P.Net) → (P.audit a s t).0 ≡ Result.ok tt) where
    -- The dict of the attempts when the failure is counted.
    abbrev table : World P → List (String × List ℕ)
    table w =
        let cleared = cleaned P ip (first w) w.attempts (find ip w.attempts) in
        assign ip (listed (find ip cleared) ++ (second w ∷ [])) cleared

    find-table : (w : World P) → find ip (table w) ≡ some (counted w)
    find-table w =
        find-assign ip _ _
        ∙ ap (λ ts. some (ts ++ (second w ∷ [])))
            (listed-cleaned (first w) w.attempts (find ip w.attempts) refl)

    abbrev audited : String → World P → World P
    audited username w = record w {
      net = (P.audit login_failed username (P.now (P.now w.net).1).1).1;
      attempts = table w;
    }

    record_failure-step :
        (username : String) (w : World P)
        → record_failure P ip username w
          ≡ (if leb 5 (length (counted w)) then lock P ip else pure tt) (audited username w)
    unfolding record_failure clean_old now get set_attempts add_attempt call ◌>>=◌
    record_failure-step username w = rw (audits login_failed username _, find-table w) refl

    abbrev after_lock : World P → World P
    after_lock v = record v {
      net = (P.audit login_lockout ip (P.now v.net).1).1;
      lockouts = assign ip ((P.now v.net).0 + lockout) v.lockouts;
    }

    lock_audited : (v : World P) → lock P ip v ≡ (done tt, after_lock v)
    unfolding lock now get set_lockouts call ◌>>=◌
    lock_audited v = rw (audits login_lockout ip _) refl

    failure-Recorded :
        (username : String) (w : World P) → Recorded username w (record_failure P ip username w)
    unfolding pure
    failure-Recorded username w = elim (Bool-cases (leb 5 (length (counted w)))) [
      | inl many ↦ record {
        world = after_lock (audited username w);
        returned = record_failure-step username w ∙ rw many (lock_audited (audited username w));
        attempts = find-table w;
        lockouts = rw many (find-assign ip (third username w + 900000) w.lockouts);
        session = refl;
      }
      | inr few ↦ record {
        world = audited username w;
        returned = record_failure-step username w ∙ rw few refl;
        attempts = find-table w;
        lockouts = rw few refl;
        session = refl;
      }
    ]

-- If the audit log can be written, a failed login returns, adds its time to the attempts of the
-- address that are still in the window, and locks the address for fifteen minutes if they are five or
-- more, and else leaves its lockout as it was.
pub record_failure-Recorded :
    (P : Panel) (ip : String)
    → ((a : Action) (s : String) (t : P.Net) → (P.audit a s t).0 ≡ Result.ok tt)
    → (username : String) (w : World P) → Recorded P ip username w (record_failure P ip username w)
record_failure-Recorded P ip audits = failure-Recorded P ip audits
