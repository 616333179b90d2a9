-- ===== src/Login/Tests.antt =====
-- A panel whose clock moves by a millisecond with each reading, and two addresses.
use rawrz.Prelude.{
  ℕ, ◌+◌, ◌-◌, ◌/◌, ◌≡◌, refl, String, false, none, some, [], ◌∷◌, arith, ◌==◌, string_eq,
}
use rawrz.Prelude.Result.{Result}
use rawrz.Exec.{done, ◌>>=◌, pure}
use rawrz.Login.Assoc.{find, assign}
use rawrz.Login.{
  Panel, World, post, locked, call, now, get, set_attempts, set_lockouts, cleaned, clean_old,
  lockout_at, is_locked_out, add_attempt, lock, record_failure, fail, after_lookup, after_gate,
  login_view,
}
use rawrz.Login.Isolated.{Has, login_view-Isolated}
use rawrz.Login.Failures.{Recorded, record_failure-Recorded}
use rawrz.Login.Locked.{read_twice, login_view_locked}

abbrev small_panel : Panel
small_panel = record {
  Net = ℕ;
  now = λ t. (t, t + 1);
  audit = λ action detail t. (Result.ok tt, t);
  user_named = λ name t. (Result.ok none, t);
  check_password = λ user password t. (Result.ok false, t);
}

abbrev held : String
held = "10.0.0.5"

abbrev guesser : String
guesser = "10.0.0.9"

abbrev guessed : World small_panel
guessed = record {
  net = 500000;
  attempts = (guesser, 100000 ∷ 300000 ∷ 310000 ∷ 320000 ∷ 330000 ∷ []) ∷ [];
  lockouts = (held, 800000) ∷ [];
  session = none;
}

different : (held == guesser) ≡ false
unfolding string_eq
different = refl

locked_5 : find held guessed.lockouts ≡ some 800000
unfolding find string_eq
locked_5 = refl

login_view-Isolated_example :
    Has small_panel held
      (find held guessed.attempts)
      (find held guessed.lockouts)
      (login_view small_panel guesser (post "root" "guess") guessed).1
login_view-Isolated_example =
    login_view-Isolated small_panel held guesser different (post "root" "guess") guessed

login_view_locked_example :
    login_view small_panel held (post "root" "right") guessed
    ≡ (done (locked ((800000 - 500001) / 60000 + 1)), read_twice small_panel held guessed)
login_view_locked_example =
    login_view_locked small_panel held "root" "right" guessed 800000 locked_5 (omega arith)
      (omega arith)

-- The fifth failure in the window locks the address; the first attempt has left the window.
fifth_failure :
    find guesser (login_view small_panel guesser (post "root" "guess") guessed).1.lockouts
    ≡ some 1400002
unfolding find assign string_eq call now get set_attempts set_lockouts cleaned clean_old lockout_at
    is_locked_out add_attempt lock record_failure fail after_lookup after_gate login_view ◌>>=◌ pure
fifth_failure = refl

record_failure-Recorded_example :
    Recorded small_panel guesser "root" guessed (record_failure small_panel guesser "root" guessed)
record_failure-Recorded_example =
    record_failure-Recorded small_panel guesser (λ a s t. refl) "root" guessed
