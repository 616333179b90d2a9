-- ===== src/Login.antt =====
-- archive/control-panel/control-panel/django/auth_app/rate_limit.py and views.py: the login of the
-- control panel with its lockout of addresses. Times are whole milliseconds; `t > now - window` is
-- written `now < t + window`.
pub mod Assoc
pub mod Isolated
pub mod Locked
pub mod Failures
mod Tests
use rawrz.Prelude.{
  ℕ, suc, ◌+◌, ◌-◌, ◌/◌, Bool, true, false, not, Option, none, some, List, [], ◌∷◌, ◌++◌, String,
  length, keep, ltb, leb, if◌then◌else◌, ◌==◌, string_eq,
}
use rawrz.Prelude.Result.{Result}
use rawrz.Exec
use rawrz.Exec.{Outcome, done, raised, stuck, outcome_of, ◌>>=◌, ◌>>◌, pure, raise}
use rawrz.Login.Assoc.{Table, find, assign, remove}

abbrev pub max_attempts : ℕ
max_attempts = 5

abbrev pub window : ℕ
window = 300000

abbrev pub lockout : ℕ
lockout = 900000

-- The actions of the audit log.
pub data Action : Type 0 where
  login_failed login_lockout login_success : Action

-- What the login meets outside: the clock, which each reading may move, and the database with the
-- audit log, the users by their names, and the check of a password. A user is known by its id.
pub record Panel : Type 1 where
  pub Net : Type 0
  pub now : Net → ℕ × Net
  pub audit : Action → String → Net → Result (Unit {0}) × Net
  pub user_named : String → Net → Result (Option ℕ) × Net
  pub check_password : ℕ → String → Net → Result Bool × Net

-- The two dicts of the limiter, and the `user_id` of the session of the request.
pub record World (P : Panel) : Type 0 where
  pub net : P.Net
  pub attempts : Table (List ℕ)
  pub lockouts : Table ℕ
  pub session : Option ℕ

-- What `login_view` answers: the form, an error on the form, or the way to the start page.
pub data Answer : Type 0 where
  form invalid home : Answer
  locked : ℕ → Answer

-- A request, with what was posted.
pub data Request : Type 0 where
  other : Request
  post : String → String → Request

abbrev pub listed : Option (List ℕ) → List ℕ
listed none = []
listed (some ts) = ts

-- `[t for t in attempts if t > cutoff]`
abbrev pub recent : ℕ → List ℕ → List ℕ
recent n ts = keep (λ t. ltb n (t + window)) ts

abbrev pub Run : Panel → Type 0 → Type 0
Run P = Exec.Run (World P)

module _ (P : Panel) where
  unfoldable pub call : {A : Type 0} → (P.Net → Result A × P.Net) → Run P A
  call f w = let (r, t) = f w.net in (outcome_of r, record w { net = t })

  unfoldable pub now : Run P ℕ
  now w = let (n, t) = P.now w.net in (done n, record w { net = t })

  unfoldable pub set_attempts : Table (List ℕ) → Run P (Unit {0})
  set_attempts a w = (done tt, record w { attempts = a })

  unfoldable pub set_lockouts : Table ℕ → Run P (Unit {0})
  set_lockouts l w = (done tt, record w { lockouts = l })

  unfoldable pub get : Run P (World P)
  get w = (done w, w)

  -- The attempts of an address that are still in the window; none of them is no entry.
  unfoldable pub cleaned : String → ℕ → Table (List ℕ) → Option (List ℕ) → Table (List ℕ)
  cleaned ip n table none = table
  cleaned ip n table (some ts) = elim (recent n ts) [
    | [] ↦ remove ip table
    | t ∷ rest ↦ assign ip (t ∷ rest) table
  ]

  -- `_clean_old`
  unfoldable pub clean_old : String → Run P (Unit {0})
  clean_old ip =
      now >>= λ n. get >>= λ w. set_attempts (cleaned ip n w.attempts (find ip w.attempts))

  unfoldable pub lockout_at : String → Option ℕ → Run P Bool
  lockout_at ip none = pure false
  lockout_at ip (some expiry) = now >>= λ n. get >>= λ w.
      if leb expiry n then set_lockouts (remove ip w.lockouts) >> pure false else pure true

  unfoldable pub is_locked_out : String → Run P Bool
  is_locked_out ip = get >>= λ w. lockout_at ip (find ip w.lockouts)

  unfoldable pub add_attempt : String → ℕ → Run P (Unit {0})
  add_attempt ip n =
      get >>= λ w. set_attempts (assign ip (listed (find ip w.attempts) ++ (n ∷ [])) w.attempts)

  unfoldable pub lock : String → Run P (Unit {0})
  lock ip = now >>= λ n. get >>= λ w.
      set_lockouts (assign ip (n + lockout) w.lockouts) >> call (P.audit login_lockout ip)

  -- `record_failure`
  unfoldable pub record_failure : String → String → Run P (Unit {0})
  record_failure ip username = clean_old ip >> now >>= λ n.
      add_attempt ip n >> call (P.audit login_failed username) >> get >>= λ w.
      if leb max_attempts (length (listed (find ip w.attempts))) then lock ip else pure tt

  unfoldable pub remaining_at : String → Option ℕ → Run P ℕ
  remaining_at ip none = pure 0
  remaining_at ip (some expiry) = now >>= λ n. get >>= λ w.
      if leb expiry n then set_lockouts (remove ip w.lockouts) >> pure 0 else pure (expiry - n)

  -- `remaining_lockout_seconds`, in milliseconds.
  unfoldable pub remaining_lockout : String → Run P ℕ
  remaining_lockout ip = get >>= λ w. remaining_at ip (find ip w.lockouts)

  unfoldable pub start_session : ℕ → Run P Answer
  start_session user w = (done home, record w { session = some user })

  unfoldable pub fail : String → String → Run P Answer
  fail ip username = record_failure ip username >> pure invalid

  unfoldable pub after_check : String → String → ℕ → Bool → Run P Answer
  after_check ip username user false = fail ip username
  after_check ip username user true = call (P.audit login_success username) >> start_session user

  unfoldable pub after_lookup : String → String → String → Option ℕ → Run P Answer
  after_lookup ip username password none = fail ip username
  after_lookup ip username password (some user) =
      call (P.check_password user password) >>= after_check ip username user

  unfoldable pub after_gate : String → String → String → Bool → Run P Answer
  after_gate ip username password true = remaining_lockout ip >>= λ r. pure (locked (r / 60000 + 1))
  after_gate ip username password false =
      call (P.user_named username) >>= after_lookup ip username password

  unfoldable pub login_view : String → Request → Run P Answer
  login_view ip other = pure form
  login_view ip (post username password) = is_locked_out ip >>= after_gate ip username password

  unfoldable pub logout_view : Run P (Unit {0})
  logout_view w = (done tt, record w { session = none })
