-- ===== src/Login/Isolated.antt =====
-- archive/control-panel/control-panel/django/auth_app: the limiter keeps the addresses apart.
use rawrz.Prelude.{
  ℕ, ◌+◌, ◌≡◌, ◌∙◌, refl, if◌then◌else◌, Bool, true, false, Option, none, some, List, [], ◌∷◌,
  String, leb, ◌==◌, string_eq,
}
use rawrz.Prelude.Result.{Result}
use rawrz.Exec.{◌>>=◌}
use rawrz.Exec.Keeps.{Keeps, Keeps-bind, Keeps-pure, Keeps-if}
use rawrz.Login.Assoc.{find, assign, remove, find-assign_other, find-remove_other}
use rawrz.Login.{
  Panel, World, Run, Request, other, post, form, call, now, get, set_attempts, set_lockouts,
  cleaned, clean_old, recent, lockout_at, is_locked_out, add_attempt, lock, record_failure,
  remaining_at, remaining_lockout, start_session, fail, after_check, after_lookup, after_gate,
  login_view, lockout,
}

-- The address has these attempts and this lockout.
pub record Has (P : Panel) (i : String) (a : Option (List ℕ)) (l : Option ℕ) (w : World P)
    : Type 0 where
  pub attempts : find i w.attempts ≡ a
  pub lockouts : find i w.lockouts ≡ l

module _ (P : Panel) (i ip : String) (apart : (i == ip) ≡ false) (a : Option (List ℕ))
    (l : Option ℕ) where
  abbrev Stays : {A : Type 0} → Run P A → Type 0
  Stays m = Keeps (Has P i a l) m

  call-Stays : {A : Type 0} (f : P.Net → Result A × P.Net) → Stays (call P f)
  unfolding call
  call-Stays f = record { at = λ w h. record { attempts = h.attempts; lockouts = h.lockouts } }

  now-Stays : Stays (now P)
  unfolding now
  now-Stays = record { at = λ w h. record { attempts = h.attempts; lockouts = h.lockouts } }

  get-Stays : Stays (get P)
  unfolding get
  get-Stays = record { at = λ w h. h }

  find-cleaned :
      (n : ℕ) (table : List (String × List ℕ)) (ts : Option (List ℕ))
      → find i (cleaned P ip n table ts) ≡ find i table
  unfolding cleaned
  find-cleaned n table none = refl
  find-cleaned n table (some ts) =
      elim (recent n ts)
        as (λ r.
          find i (elim r [ [] ↦ remove ip table | t ∷ rest ↦ assign ip (t ∷ rest) table ])
          ≡ find i table) [
            | [] ↦ find-remove_other i ip table apart
            | t ∷ rest ↦ find-assign_other i ip (t ∷ rest) table apart
          ]

  clean_old-Stays : Stays (clean_old P ip)
  unfolding clean_old get set_attempts ◌>>=◌
  clean_old-Stays = Keeps-bind _ _ now-Stays (λ n. record {
    at = λ w h. record {
      attempts = find-cleaned n w.attempts (find ip w.attempts) ∙ h.attempts;
      lockouts = h.lockouts;
    };
  })

  -- Setting the lockout of the other address, or dropping it.
  set_lockouts-Stays :
      {A : Type 0} (m : Run P A) (change : List (String × ℕ) → List (String × ℕ))
      → ((t : List (String × ℕ)) → find i (change t) ≡ find i t)
      → Stays m
      → Keeps (Has P i a l) (get P >>= λ w. set_lockouts P (change w.lockouts) >>= λ u. m)
  unfolding get set_lockouts ◌>>=◌
  set_lockouts-Stays m change e s = record {
    at = λ w h.
        s.at (record w { lockouts = change w.lockouts })
          (record { attempts = h.attempts; lockouts = e w.lockouts ∙ h.lockouts });
  }

  drop_late-Stays :
      {A : Type 0} (late : Bool) (m n : Run P A)
      → Stays m
      → Stays n
      → Keeps
          (Has P i a l)
          (get P >>= λ w. if late then set_lockouts P (remove ip w.lockouts) >>= (λ u. m) else n)
  unfolding get set_lockouts ◌>>=◌
  drop_late-Stays true m n hm hn =
      set_lockouts-Stays m (remove ip) (λ t. find-remove_other i ip t apart) hm
  drop_late-Stays false m n hm hn = record { at = λ w h. hn.at w h }

  lockout_at-Stays : (e : Option ℕ) → Stays (lockout_at P ip e)
  unfolding lockout_at
  lockout_at-Stays none = Keeps-pure false
  lockout_at-Stays (some e) =
      Keeps-bind _ _ now-Stays
        (λ n. drop_late-Stays (leb e n) _ _ (Keeps-pure false) (Keeps-pure true))

  remaining_at-Stays : (e : Option ℕ) → Stays (remaining_at P ip e)
  unfolding remaining_at
  remaining_at-Stays none = Keeps-pure 0
  remaining_at-Stays (some e) =
      Keeps-bind _ _ now-Stays (λ n. drop_late-Stays (leb e n) _ _ (Keeps-pure 0) (Keeps-pure _))

  add_attempt-Stays : (n : ℕ) → Stays (add_attempt P ip n)
  unfolding add_attempt get set_attempts ◌>>=◌
  add_attempt-Stays n = record {
    at = λ w h. record {
      attempts = find-assign_other i ip _ w.attempts apart ∙ h.attempts;
      lockouts = h.lockouts;
    };
  }

  lock-Stays : Stays (lock P ip)
  unfolding lock
  lock-Stays = Keeps-bind _ _ now-Stays (λ n.
      set_lockouts-Stays (call P _) (assign ip (n + lockout))
        (λ t. find-assign_other i ip _ t apart) (call-Stays _))

  record_failure-Stays : (username : String) → Stays (record_failure P ip username)
  unfolding record_failure
  record_failure-Stays username =
      Keeps-bind _ _ (Keeps-bind _ _ clean_old-Stays (λ u. now-Stays)) (λ n.
        Keeps-bind _ _
          (Keeps-bind _ _ (Keeps-bind _ _ (add_attempt-Stays n) (λ u. call-Stays _))
            (λ u. get-Stays))
          (λ w. Keeps-if _ _ _ lock-Stays (Keeps-pure tt)))

  fail-Stays : (username : String) → Stays (fail P ip username)
  unfolding fail
  fail-Stays username = Keeps-bind _ _ (record_failure-Stays username) (λ u. Keeps-pure _)

  after_check-Stays :
      (username : String) (user : ℕ) (b : Bool) → Stays (after_check P ip username user b)
  unfolding after_check start_session
  after_check-Stays username user false = fail-Stays username
  after_check-Stays username user true =
      Keeps-bind _ _ (call-Stays _)
        (λ u. record { at = λ w h. record { attempts = h.attempts; lockouts = h.lockouts } })

  after_lookup-Stays :
      (username password : String) (user : Option ℕ)
      → Stays (after_lookup P ip username password user)
  unfolding after_lookup
  after_lookup-Stays username password none = fail-Stays username
  after_lookup-Stays username password (some user) =
      Keeps-bind _ _ (call-Stays _) (λ b. after_check-Stays username user b)

  after_gate-Stays :
      (username password : String) (b : Bool) → Stays (after_gate P ip username password b)
  unfolding after_gate remaining_lockout
  after_gate-Stays username password true =
      Keeps-bind _ _ (Keeps-bind _ _ get-Stays (λ w. remaining_at-Stays _)) (λ r. Keeps-pure _)
  after_gate-Stays username password false =
      Keeps-bind _ _ (call-Stays _) (λ user. after_lookup-Stays username password user)

  login_view-Stays : (r : Request) → Stays (login_view P ip r)
  unfolding login_view is_locked_out
  login_view-Stays other = Keeps-pure form
  login_view-Stays (post username password) =
      Keeps-bind _ _ (Keeps-bind _ _ get-Stays (λ w. lockout_at-Stays _))
        (λ b. after_gate-Stays username password b)

-- Whatever a request from one address does, the attempts and the lockout of another address stay as
-- they were.
pub login_view-Isolated :
    (P : Panel) (i ip : String)
    → (i == ip) ≡ false
    → (r : Request) (w : World P)
    → Has P i (find i w.attempts) (find i w.lockouts) (login_view P ip r w).1
login_view-Isolated P i ip apart r w =
    (login_view-Stays P i ip apart (find i w.attempts) (find i w.lockouts) r).at w
      (record { attempts = refl; lockouts = refl })
