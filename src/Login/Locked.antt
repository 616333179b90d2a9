-- ===== src/Login/Locked.antt =====
-- archive/control-panel/control-panel/django/auth_app: what a locked address can do.
use rawrz.Prelude.{ℕ, ◌+◌, ◌-◌, ◌/◌, ◌≡◌, ◌<◌, refl, true, false, some, String, leb, arith}
use rawrz.Exec.{done, ◌>>=◌, pure}
use rawrz.Login.Assoc.{find}
use rawrz.Login.{
  Panel, World, post, locked, now, get, lockout_at, is_locked_out, remaining_at, remaining_lockout,
  after_gate, login_view,
}

module _ (P : Panel) (ip : String) where
  -- The state of the panel after one reading of the clock, and after two.
  abbrev pub read_once : World P → World P
  read_once w = record w { net = (P.now w.net).1 }

  abbrev pub read_twice : World P → World P
  read_twice w = read_once (read_once w)

  not_late : (e n : ℕ) → n < e → leb e n ≡ false
  not_late e n h = ground (arith, h)

  is_locked_out-true :
      (w : World P) (e : ℕ)
      → find ip w.lockouts ≡ some e
      → (P.now w.net).0 < e
      → is_locked_out P ip w ≡ (done true, read_once w)
  unfolding is_locked_out lockout_at get now ◌>>=◌ pure
  is_locked_out-true w e h l = rw (h, not_late e (P.now w.net).0 l) refl

  remaining-some :
      (w : World P) (e : ℕ)
      → find ip w.lockouts ≡ some e
      → (P.now w.net).0 < e
      → remaining_lockout P ip w ≡ (done (e - (P.now w.net).0), read_once w)
  unfolding remaining_lockout remaining_at get now ◌>>=◌ pure
  remaining-some w e h l = rw (h, not_late e (P.now w.net).0 l) refl

-- If the lockout of an address has not expired at either of two readings of the clock, a login from it
-- answers with the minutes that are left, whatever was posted, and it changes nothing but the clock:
-- no user is looked up, no password is checked, and no session starts.
pub login_view_locked :
    (P : Panel) (ip username password : String) (w : World P) (e : ℕ)
    → find ip w.lockouts ≡ some e
    → (P.now w.net).0 < e
    → (P.now (P.now w.net).1).0 < e
    → login_view P ip (post username password) w
      ≡ (done (locked ((e - (P.now (P.now w.net).1).0) / 60000 + 1)), read_twice P ip w)
unfolding login_view after_gate ◌>>=◌ pure
login_view_locked P ip username password w e h first second =
    rw (is_locked_out-true P ip w e h first, remaining-some P ip (read_once P ip w) e h second) refl
