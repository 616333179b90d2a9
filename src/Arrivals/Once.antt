-- ===== src/Arrivals/Once.antt =====
-- scripts/arrival_notifier.py: one message for a request over all runs.
use mathlib.Core.Path.{subst}
use rawrz.Prelude.{
  ℕ, zero, suc, ◌+◌, ◌≤◌, ◌≡◌, refl, sym, inl, inr, Bool, true, false, ◌||◌, List, [], ◌∷◌, ◌++◌,
  map, arith, count_if, contains, ◌==◌, nat_eq, if◌then◌else◌, Bool-cases,
}
use rawrz.Prelude.Result.{Result}
use rawrz.Exec.{Outcome, done, raised, stuck, continue, ◌>>=◌, pure}
use rawrz.Exec.Keeps.{Keeps, Keeps-bind, Keeps-pure, Keeps-if}
use rawrz.Exec.Works.{Gives, Gives-bind}
use rawrz.Json.Int.{ℤ}
use rawrz.Arrivals.{
  Raw, Request, Notice, Host, World, Run, Config, Arrival, Split, Ended, keys, normalize, page,
}
use rawrz.Arrivals.Notifier.{
  ask, read, after_batch, fetch_from, seerr_requests, save_state, pop_all, conclude, act, run_on,
  after_fetch, run,
}
use rawrz.Arrivals.Ids.{ids, arrival_ids, Distinct, Distinct-count, keys-pop_all}
use rawrz.Arrivals.Classified.{Same, IsSplit, classify_run-Splits}
use rawrz.Arrivals.Delivered.{Posts, Delivered, Noted, deliver-Delivered, note_all-Gives}

-- The state file can be written.
abbrev pub Saves : Host → Type 0
Saves H = (t : H.Net) → (H.save t).0 ≡ true

-- A fetch never lists a request twice.
abbrev pub ListsOnce : Host → Type 0
ListsOnce H =
    (fuel : ℕ) (w : World H) (raws : List Raw)
    → (seerr_requests H fuel w).0 ≡ done (Result.ok raws)
    → Distinct (ids (map normalize raws))

module _ (H : Host) where
  -- No id was sent twice, and each one that was sent is in the state file.
  pub record IsKept (w : World H) : Type 0 where
    pub distinct : Distinct w.sent
    pub recorded : (k : ℕ) → contains w.sent k ≡ true → contains (keys w.file) k ≡ true

  Same-IsKept :
      (file : List (ℕ × Notice)) (sent : List ℕ) (w : World H)
      → Distinct sent
      → ((k : ℕ) → contains sent k ≡ true → contains (keys file) k ≡ true)
      → Same H file sent w
      → IsKept w
  Same-IsKept file sent w d r h = record {
    distinct = subst Distinct (sym h.sent_same) d;
    recorded = λ k. rw (h.sent_same, h.file_same) (r k);
  }

  save_state-Gives :
      (saves : Saves H) (file : List (ℕ × Notice)) (w : World H)
      → Distinct w.sent
      → ((k : ℕ) → contains w.sent k ≡ true → contains (keys file) k ≡ true)
      → Gives (λ u. IsKept) (save_state H file w)
  unfolding save_state
  save_state-Gives saves file w d r = rw (saves w.net) (record { distinct = d; recorded = r })

  -- What was sent survives the drops, which are not in the file.
  kept_in :
      (file : List (ℕ × Notice)) (rs : List Request) (s : Split) (k : ℕ)
      → IsSplit file rs s
      → contains (keys file) k ≡ true
      → contains (keys (pop_all s.drops file)) k ≡ true
  kept_in file rs s k h e = ground (arith, e, h.drops_open k, keys-pop_all k s.drops file)

  delivered_in :
      (file noted : List (ℕ × Notice)) (rs : List Request) (s : Split) (ds : List Arrival)
      (before now : List ℕ) (k : ℕ)
      → IsSplit file rs s
      → (contains before k ≡ true → contains (keys file) k ≡ true)
      → (contains (arrival_ids ds) k ≡ true → contains (arrival_ids s.arrivals) k ≡ true)
      → contains now k ≡ (contains (arrival_ids ds) k || contains before k)
      → contains (keys noted) k ≡ (contains (arrival_ids ds) k || contains (keys file) k)
      → contains now k ≡ true
      → contains (keys (pop_all s.drops noted)) k ≡ true
  delivered_in file noted rs s ds before now k h r from sent all e =
      ground (arith, r, from, sent, all, e, h.drops_open k, h.apart k, keys-pop_all k s.drops noted)

  fresh :
      (file : List (ℕ × Notice)) (rs : List Request) (s : Split) (before : List ℕ) (k : ℕ)
      → IsSplit file rs s
      → (contains before k ≡ true → contains (keys file) k ≡ true)
      → contains (arrival_ids s.arrivals) k ≡ true
      → contains before k ≡ false
  fresh file rs s before k h r e = ground (arith, r, e, h.arrivals_open k)

  module _ (posts : Posts H) (saves : Saves H) (c : Config) where
    conclude-Gives :
        (file : List (ℕ × Notice)) (rs : List Request) (s : Split) (before : List ℕ) (watching : ℤ)
        (r : List Arrival × List Arrival) (w : World H)
        → IsSplit file rs s
        → ((k : ℕ) → contains before k ≡ true → contains (keys file) k ≡ true)
        → Delivered H file posts s.arrivals before r.0 w
        → Gives (λ e. IsKept) (conclude H c file s.drops watching r w)
    unfolding conclude pure
    conclude-Gives file rs s before watching r w h kept d =
        Gives-bind (λ noted v. Noted H file (arrival_ids r.0) file noted × Same H file w.sent v) _ _
          _ w
          (note_all-Gives H file w.sent r.0 file w
            (record { file_same = d.file_same; sent_same = refl }))
          (λ noted v n.
            Gives-bind (λ u. IsKept) _ _ _ v
              (save_state-Gives saves (pop_all s.drops noted) v
                (subst Distinct (sym n.1.sent_same) d.distinct)
                (λ k. rw (n.1.sent_same) (
                  delivered_in file noted rs s r.0 before w.sent k h (kept k) (d.from k) (d.sent k)
                    (n.0 k))))
              (λ u x k. k))

    act-Gives :
        (file : List (ℕ × Notice)) (rs : List Request) (watching : ℤ) (s : Split) (sent : List ℕ)
        (w : World H)
        → IsSplit file rs s
        → Distinct sent
        → ((k : ℕ) → contains sent k ≡ true → contains (keys file) k ≡ true)
        → Same H file sent w
        → Gives (λ e. IsKept) (act H c file watching s w)
    unfolding act pure
    act-Gives file rs watching s sent w h d kept same = elim (Bool-cases c.dry_run) [
      | inl dry ↦ rw dry (Same-IsKept file sent w d kept same)
      | inr wet ↦ elim (Bool-cases c.has_webhook) [
        | inr off ↦
            simp (wet, off)
              (Gives-bind (λ u. IsKept) _ _ _ w
                (save_state-Gives saves (pop_all s.drops file) w
                  (subst Distinct (sym same.sent_same) d)
                  (λ k. rw (same.sent_same) (λ e. kept_in file rs s k h (kept k e))))
                (λ u v k. k))
        | inl on ↦
            simp (wet, on)
              (Gives-bind (λ r. Delivered H file posts s.arrivals sent r.0) _ _ _ w
                (deliver-Delivered H file posts c s.arrivals sent w h.distinct d
                  (λ k e. fresh file rs s sent k h (kept k) e) same)
                (λ r v dv. conclude-Gives file rs s sent watching r v h kept dv))
      ]
    ]

    run_on-Gives :
        (rs : List Request) (v w : World H)
        → Distinct (ids rs)
        → IsKept w
        → Same H w.file w.sent v
        → Gives (λ e. IsKept) (run_on H c w.file rs v)
    unfolding run_on
    run_on-Gives rs v w d kept same =
        Gives-bind (λ s u. IsSplit w.file rs s × Same H w.file w.sent u) _ _ _ v
          (classify_run-Splits H w.file w.sent rs v d same)
          (λ s u h. act-Gives w.file rs _ s w.sent u h.0 kept.distinct kept.recorded h.1)

  -- A fetch changes neither the file nor what was sent.
  after_batch-Keeps :
      (file : List (ℕ × Notice)) (sent : List ℕ) (out : List Raw)
      (more : List Raw → Run H (Result (List Raw))) (r : Result (List Raw))
      → ((raws : List Raw) → Keeps (Same H file sent) (more raws))
      → Keeps (Same H file sent) (after_batch H out more r)
  unfolding after_batch
  after_batch-Keeps file sent out more (Result.err e) h = Keeps-pure _
  after_batch-Keeps file sent out more (Result.ok batch) h =
      Keeps-if _ _ _ (Keeps-pure _) (h (out ++ batch))

  fetch_from-Keeps :
      (file : List (ℕ × Notice)) (sent : List ℕ) (fuel skip : ℕ) (out : List Raw)
      → Keeps (Same H file sent) (fetch_from H fuel skip out)
  unfolding fetch_from ask
  fetch_from-Keeps file sent zero skip out = record { at = λ w h. h }
  fetch_from-Keeps file sent (suc fuel) skip out = record {
    at = λ w h.
        (Keeps-bind _ _
            (record { at = λ v k. record { file_same = k.file_same; sent_same = k.sent_same } })
            (λ r.
              after_batch-Keeps file sent out _ r
                (λ raws. fetch_from-Keeps file sent fuel (skip + page) raws))).at
          w h;
  }

  module _ (posts : Posts H) (saves : Saves H) (once : ListsOnce H) (c : Config) (fuel : ℕ) where
    Gives-IsKept : (r : Outcome Ended × World H) → Gives (λ e. IsKept) r → IsKept r.1
    Gives-IsKept (done e, w) h = h
    Gives-IsKept (raised e, w) h = absurd h
    Gives-IsKept (stuck, w) h = absurd h

    fetched-IsKept :
        (w v : World H) (r : Outcome (Result (List Raw)))
        → IsKept w
        → Same H w.file w.sent v
        → ((raws : List Raw) → r ≡ done (Result.ok raws) → Distinct (ids (map normalize raws)))
        → IsKept (continue r (after_fetch H c w.file) v).1
    unfolding after_fetch pure
    fetched-IsKept w v (raised e) k s d = Same-IsKept w.file w.sent v k.distinct k.recorded s
    fetched-IsKept w v stuck k s d = Same-IsKept w.file w.sent v k.distinct k.recorded s
    fetched-IsKept w v (done (Result.err e)) k s d =
        Same-IsKept w.file w.sent v k.distinct k.recorded s
    fetched-IsKept w v (done (Result.ok raws)) k s d =
        Gives-IsKept _ (run_on-Gives posts saves c (map normalize raws) v w (d raws refl) k s)

    if-IsKept :
        (b : Bool) (m n : Run H Ended) (w : World H)
        → IsKept (m w).1
        → IsKept (n w).1
        → IsKept ((if b then m else n) w).1
    if-IsKept true m n w hm hn = hm
    if-IsKept false m n w hm hn = hn

    pub run-IsKept : (w : World H) → IsKept w → IsKept (run H c fuel w).1
    unfolding run read pure ◌>>=◌ seerr_requests
    run-IsKept w k =
        if-IsKept c.has_keys _ _ w
          (fetched-IsKept w _ _ k
            ((fetch_from-Keeps w.file w.sent fuel 0 []).at w
              (record { file_same = refl; sent_same = refl }))
            (once fuel w))
          k

-- One run after another, each with its settings, the bound on its pages and the network by then.
unfoldable pub runs : (H : Host) → List (Config × (ℕ × H.Net)) → World H → World H
runs H [] w = w
runs H ((c, (fuel, t)) ∷ rest) w = runs H rest (run H c fuel (record w { net = t })).1

runs-IsKept :
    (H : Host)
    → Posts H
    → Saves H
    → ListsOnce H
    → (rest : List (Config × (ℕ × H.Net))) (w : World H) → IsKept H w
    → IsKept H (runs H rest w)
unfolding runs
runs-IsKept H posts saves once [] w k = k
runs-IsKept H posts saves once ((c, (fuel, t)) ∷ rest) w k = runs-IsKept H posts saves once rest _ (
    run-IsKept H posts saves once c fuel (record w { net = t })
      (record { distinct = k.distinct; recorded = k.recorded }))

-- From an empty state, if the state file can be written, no fetch lists a request twice, and a message
-- fails only in ways that the code catches, at most one message goes through for a request, over any
-- number of runs with any settings.
pub runs-sent_once :
    (H : Host)
    → Posts H
    → Saves H
    → ListsOnce H
    → (starts : List (Config × (ℕ × H.Net))) (t : H.Net) (k : ℕ)
    → count_if (λ j. j == k) (runs H starts (record { net = t; file = []; sent = [] })).sent ≤ 1
runs-sent_once H posts saves once starts t k = Distinct-count k _ (
    (runs-IsKept H posts saves once starts (record { net = t; file = []; sent = [] })
      (record { distinct = tt; recorded = λ k e. e })).distinct)
