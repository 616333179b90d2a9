-- ===== src/Search/Verifier/Quiet.antt =====
-- `verify_until_quiet` of scripts/search_missing_scoped_core.py: it returns, with offenders or after the
-- whole window.
use mathlib.Core.Path.{subst}
use native.Mathlib.Nat.{le_trans}
use rawrz.Prelude.{
  ℕ, zero, suc, ◌+◌, ◌-◌, ◌*◌, ◌≤◌, ◌<◌, ◌≡◌, sym, ap, ◌⊎◌, inl, inr, Bool, true, false, ◌||◌, not,
  Option, none, some, List, [], ◌∷◌, String, length, keep, min, leb, arith, Bool-cases,
}
use rawrz.Prelude.Result.{Result}
use rawrz.Exec.{Outcome, done, raised, stuck, ◌>>=◌}
use rawrz.Exec.Keeps.{Keeps, Keeps-bind, Keeps-pure, Keeps-raise}
use rawrz.Exec.Works.{Gives, Works, Works-bind, Works-pure, Gives-bind}
use rawrz.Search.State.{Snapshot}
use rawrz.Search.Engine.{Offender, VerificationReport}
use rawrz.Search.Client.{
  Sonarr, Run, Page, QueueRecord, HistoryRecord, call, shaped, is_empty, is_record, page_size,
  after_page, pages_from, history_from, fetch_queue_records, fetch_grab_history,
}
use rawrz.Search.Client.Pages.{Serves, fetch_queue_records-all}
use rawrz.Search.Client.History.{NewestFirst, fetch_grab_history_complete}
use rawrz.Search.Verifier.{
  Expected, Seen, nothing_seen, parse_and_classify, check_grab, check_row, check_each, grabs_seen,
  history_since, history_offenders, queue_observations, verify_once, recover, sleep, after_round,
  quiet_loop, verify_until_quiet,
}

-- The clock is monotonic, and a sleep lasts as long as it was asked for.
pub record IsTimely (S : Sonarr) : Type 0 where
  pub now-queue : (p n : ℕ) (t : S.Net) → S.now t ≤ S.now (S.queue p n t).1
  pub now-history : (p n : ℕ) (t : S.Net) → S.now t ≤ S.now (S.history p n t).1
  pub now-parse : (title : String) (t : S.Net) → S.now t ≤ S.now (S.parse title t).1
  pub now-sleep : (d : ℕ) (t : S.Net) → S.now t + d ≤ S.now (S.sleep d t)

module _ (S : Sonarr) (P : S.Net → Type 0) where
  Keeps-shaped : {A : Type 0} (o : Option A) → Keeps P (shaped S o)
  Keeps-shaped none = Keeps-raise _
  Keeps-shaped (some a) = Keeps-pure a

  Keeps-call :
      {A : Type 0} (f : S.Net → Result A × S.Net)
      → ((t : S.Net) → P t → P (f t).1)
      → Keeps P (call S f)
  Keeps-call f h = record { at = h }

  Keeps-after_page :
      {R : Type 0} (b : Bool) (seen : List R) (rest : Run S (List R))
      → Keeps P rest
      → Keeps P (after_page S b seen rest)
  unfolding after_page
  Keeps-after_page true seen rest h = Keeps-pure seen
  Keeps-after_page false seen rest h = h

  Keeps-pages_from :
      {R : Type 0} (get : ℕ → ℕ → S.Net → Result (Option (Page R)) × S.Net) (size fuel page : ℕ)
      (seen : List R)
      → ((p n : ℕ) (t : S.Net) → P t → P (get p n t).1)
      → Keeps P (pages_from S get size fuel page seen)
  unfolding pages_from
  Keeps-pages_from get size zero page seen h = record { at = λ t p. p }
  Keeps-pages_from get size (suc fuel) page seen h = record {
    at = λ t p.
        (Keeps-bind _ _ (Keeps-bind _ _ (Keeps-call _ (h page size)) (λ o. Keeps-shaped o))
            (λ r. Keeps-after_page _ _ _ (Keeps-pages_from get size fuel (page + 1) _ h))).at
          t p;
  }

  Keeps-history_from :
      (stop_at : Option _) (b : Bool) (fuel page : ℕ) (seen : List HistoryRecord)
      → ((p n : ℕ) (t : S.Net) → P t → P (S.history p n t).1)
      → Keeps P (history_from S stop_at b fuel page seen)
  unfolding history_from
  Keeps-history_from stop_at b zero page seen h = record { at = λ t p. p }
  Keeps-history_from stop_at b (suc fuel) page seen h = record {
    at = λ t p.
        (Keeps-bind _ _ (Keeps-bind _ _ (Keeps-call _ (h page page_size)) (λ o. Keeps-shaped o))
            (λ r. Keeps-after_page _ _ _ (Keeps-history_from stop_at b fuel (page + 1) _ h))).at
          t p;
  }

  -- A run that returns wherever it starts, and keeps `P`.
  returned-Gives :
      {A : Type 0} (a : A) (t' : S.Net) (r : Outcome A × S.Net)
      → r ≡ (done a, t')
      → P r.1
      → Gives (λ a. P) r
  returned-Gives a t' r e p = subst (Gives (λ a. P)) (sym e) (subst P (ap (λ x. x.1) e) p)

  module _ (E : Expected) (parses : (title : String) (t : S.Net) → P t → P (S.parse title t).1)
      (queues : (p n : ℕ) (t : S.Net) → P t → P (S.queue p n t).1)
      (histories : (p n : ℕ) (t : S.Net) → P t → P (S.history p n t).1) where
    parse_and_classify-Works :
        (title : String) (z : Option _) (d : Option String) (b : Bool)
        → Works P (parse_and_classify S E title z d b)
    unfolding parse_and_classify
    parse_and_classify-Works title z d b = record { at = parses title }

    check_each-Works :
        {R : Type 0} (check : R → Run S (Option Offender)) (rs : List R)
        → ((r : R) → Works P (check r))
        → Works P (check_each S E check rs)
    unfolding check_each
    check_each-Works check [] h = Works-pure P []
    check_each-Works check (r ∷ rs) h =
        Works-bind P _ _ (h r)
          (λ o. Works-bind P _ _ (check_each-Works check rs h) (λ os. Works-pure P _))

    module _ (fuel : ℕ) (xs : List QueueRecord) (queue : Serves S S.queue page_size xs)
        (short_queue : length xs < fuel) (ys : List HistoryRecord)
        (history : Serves S S.history page_size ys) (short_history : length ys < fuel)
        (ordered : (mark : _) → NewestFirst mark (keep is_record ys)) where
      queue-Works : Works P (fetch_queue_records S fuel)
      unfolding fetch_queue_records
      queue-Works = record {
        at = λ t p.
            let r = fetch_queue_records-all S xs queue fuel t short_queue in
            returned-Gives xs r.0 _ r.1
              ((Keeps-pages_from S.queue page_size fuel 1 [] queues).at t p);
      }

      history-Works : (mark : _) → Works P (fetch_grab_history S fuel (some mark) false)
      unfolding fetch_grab_history
      history-Works mark = record {
        at = λ t p.
            let r =
              fetch_grab_history_complete S ys mark history (ordered mark) fuel t short_history in
            returned-Gives r.0 r.1 _ r.2
              ((Keeps-history_from (some mark) false fuel 1 [] histories).at t p);
      }

      history_since-Works :
          (s : Snapshot) (c : Option ℕ) (mark : Option _)
          → Works P (history_since S E fuel s c mark)
      unfolding history_since grabs_seen check_grab
      history_since-Works s c none = Works-pure P nothing_seen
      history_since-Works s c (some mark) = Works-bind P _ _ (history-Works mark) (λ rs.
          Works-bind P _ _ (check_each-Works _ _ (λ r. parse_and_classify-Works _ _ _ _))
            (λ os. Works-pure P _))

      caught_works :
          (a : Seen) (r : Outcome Seen × S.Net)
          → Gives (λ a. P) r
          → Gives (λ a. P) (recover S a (λ t. r) r.1)
      unfolding recover
      caught_works a (done b, t) h = h
      caught_works a (raised e, t) h = absurd h
      caught_works a (stuck, t) h = absurd h

      recover-Works : (a : Seen) (m : Run S Seen) → Works P m → Works P (recover S a m)
      unfolding recover
      recover-Works a m h = record { at = λ t p. caught_works a (m t) (h.at t p) }

      verify_once-Works : (s : Snapshot) (c : Option ℕ) → Works P (verify_once S E fuel s c)
      unfolding verify_once history_offenders queue_observations check_row
      verify_once-Works s c =
          Works-bind P _ _ (recover-Works nothing_seen _ (history_since-Works s c s.watermark))
            (λ h.
              Works-bind P _ _
                (Works-bind P _ _ queue-Works (λ rs.
                  Works-bind P _ _ (check_each-Works _ _ (λ r. parse_and_classify-Works _ _ _ _))
                    (λ os. Works-pure P _)))
                (λ q. Works-pure P _))

add_one : (n : ℕ) → n + 1 ≡ suc n
add_one n = omega arith

-- The report has offenders, or the clock is past the deadline.
abbrev pub Quiet : (S : Sonarr) → ℕ → VerificationReport → S.Net → Type 0
Quiet S deadline r t = (is_empty r.offenders ≡ false) ⊎ (deadline ≤ S.now t)

late : (b : Bool) (d now : ℕ) → d ≤ now → (not b || leb d now) ≡ true
late b d now h = ground (arith, h)

module _ (S : Sonarr) (timely : IsTimely S) (once : Run S VerificationReport)
    (works : (d : ℕ) → Works (λ t. d ≤ S.now t) once) where
  -- No time remains.
  last_round :
      (deadline : ℕ) (r : VerificationReport) (t : S.Net)
      → deadline ≤ S.now t
      → Gives (Quiet S deadline) (after_round S deadline r (quiet_loop S once zero deadline) t)
  unfolding after_round
  last_round deadline r t d = rw (late (is_empty r.offenders) deadline (S.now t) d) (inr d)

  after_round-Quiet :
      (deadline k : ℕ) (r : VerificationReport) (t : S.Net)
      → deadline ≤ S.now t + 1000 * suc k
      → ((t' : S.Net)
          → deadline ≤ S.now t' + 1000 * k
          → Gives (Quiet S deadline) (quiet_loop S once (suc k) deadline t'))
      → Gives (Quiet S deadline) (after_round S deadline r (quiet_loop S once (suc k) deadline) t)
  unfolding after_round sleep ◌>>=◌
  after_round-Quiet deadline k r t d rest =
      elim (Bool-cases (not (is_empty r.offenders) || leb deadline (S.now t))) [
        | inl stop ↦ rw stop (ground (arith, stop))
        | inr on ↦ rw on (
            rest _ (
              let slept = timely.now-sleep (min 1000 (deadline - S.now t)) t in
              omega (arith, d, slept)))
      ]

  late_enough : (d now : ℕ) → d ≤ now + 1000 * zero → d ≤ now
  late_enough d now h = omega (arith, h)

  quiet_loop-Quiet :
      (deadline k : ℕ) (t : S.Net)
      → deadline ≤ S.now t + 1000 * k
      → Gives (Quiet S deadline) (quiet_loop S once (suc k) deadline t)
  unfolding quiet_loop
  quiet_loop-Quiet deadline zero t d =
      Gives-bind (λ r t'. S.now t ≤ S.now t') (Quiet S deadline) once _ t
        ((works (S.now t)).at t (omega arith))
        (λ r t' later. last_round deadline r t' (le_trans (late_enough deadline (S.now t) d) later))
  quiet_loop-Quiet deadline (suc k) t d =
      Gives-bind (λ r t'. S.now t ≤ S.now t') (Quiet S deadline) once _ t
        ((works (S.now t)).at t (omega arith))
        (λ r t' later.
          after_round-Quiet deadline k r t' (omega (arith, d, later)) (quiet_loop-Quiet deadline k))

-- With a clock that is monotonic and sleeps that last, against a server that pages a fixed queue and a
-- fixed history with the newest grabs first, the verification returns a report, and a report without
-- offenders only when the whole quiet window has passed.
pub verify_until_quiet-Quiet :
    (S : Sonarr) (E : Expected) (timely : IsTimely S) (fuel : ℕ) (xs : List QueueRecord)
    → Serves S S.queue page_size xs
    → length xs < fuel
    → (ys : List HistoryRecord) → Serves S S.history page_size ys
    → length ys < fuel
    → ((mark : _) → NewestFirst mark (keep is_record ys))
    → (s : Snapshot) (quiet_window : ℕ) (command : Option ℕ) (t : S.Net)
    → Gives
        (Quiet S (S.now t + quiet_window * 1000))
        (verify_until_quiet S E fuel s quiet_window command t)
unfolding verify_until_quiet
verify_until_quiet-Quiet S E timely fuel xs queue fx ys history fy ordered s q c t =
    rw (add_one q) (
      quiet_loop-Quiet S timely (verify_once S E fuel s c)
        (λ d.
          verify_once-Works S (λ t'. d ≤ S.now t') E
            (λ title t' h. le_trans h (timely.now-parse title t'))
            (λ p n t' h. le_trans h (timely.now-queue p n t'))
            (λ p n t' h. le_trans h (timely.now-history p n t')) fuel xs queue fx ys history fy
            ordered s c)
        (S.now t + q * 1000) q t (omega arith))
