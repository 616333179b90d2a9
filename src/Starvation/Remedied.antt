-- ===== src/Starvation/Remedied.antt =====
-- The result of `check_all` of
-- archive/control-panel/control-panel/django/core/import_starvation.py against the removals it sends.
use rawrz.Prelude.{
  ℕ, ◌+◌, ◌≡◌, refl, ap, ◌∙◌, Bool, true, false, List, [], ◌∷◌, ◌++◌, String, length, keep,
  if◌then◌else◌, arith,
}
use rawrz.Prelude.Result.{Result}
use rawrz.Exec.{outcome_of, ◌>>=◌, pure}
use rawrz.Exec.Ends.{Returned, Returned-bind}
use rawrz.Starvation.{
  Command, Host, World, Cleared, Verdict, is_search, call, cancel, cancel_all, clear_search_backlog,
  remedy, check_each, check_all, detect, apps_with, refresh_starvation, grab_import_lag, grabbed,
  imported,
}

abbrev pub targeted_in : List (String × Cleared) → ℕ
targeted_in [] = 0
targeted_in (r ∷ rs) = r.1.targeted + targeted_in rs

abbrev pub apps_in : List (String × Cleared) → List String
apps_in [] = []
apps_in (r ∷ rs) = r.0 ∷ apps_in rs

abbrev pub remediable : Bool → List Verdict → List String
remediable remediate vs = if remediate then apps_with (λ v. v.starved) vs else []

apps_in-append : (rs ss : List (String × Cleared)) → apps_in (rs ++ ss) ≡ apps_in rs ++ apps_in ss
apps_in-append [] ss = refl
apps_in-append (r ∷ rs) ss = ap (λ l. r.0 ∷ l) (apps_in-append rs ss)

targeted_in-append :
    (rs ss : List (String × Cleared)) → targeted_in (rs ++ ss) ≡ targeted_in rs + targeted_in ss
targeted_in-append [] ss = omega arith
targeted_in-append (r ∷ rs) ss = omega (arith, targeted_in-append rs ss)

remediable_none : (remediate : Bool) → [] ≡ remediable remediate []
remediable_none false = refl
remediable_none true = refl

remediable_step :
    (remediate : Bool) (v : Verdict) (vs : List Verdict)
    → remediable remediate (v ∷ []) ++ remediable remediate vs ≡ remediable remediate (v ∷ vs)
remediable_step false v vs = refl
remediable_step true v vs =
    elim v.starved
      as (λ b.
        (if b then v.app ∷ [] else []) ++ apps_with (λ v. v.starved) vs
        ≡ (if b then v.app ∷ apps_with (λ v. v.starved) vs else apps_with (λ v. v.starved) vs)) [
          | true ↦ refl
          | false ↦ refl
        ]

module _ (H : Host) where
  -- `n` removals later than `w`.
  abbrev pub Later : ℕ → World H → World H → Type 0
  Later n w v = length v.removals ≡ n + length w.removals

  call-Later :
      {A : Type 0} (f : H.Net → Result A × H.Net) (w : World H)
      → Returned (λ a. Later 0 w) (call H f w)
  unfolding call
  call-Later {A} f w =
      elim (f w.net).0
        as (λ r. Returned {A = A} (λ a. Later 0 w) (outcome_of r, record w { net = (f w.net).1 })) [
          | Result.ok a ↦ omega arith
          | Result.err e ↦ tt
        ]

  grab_import_lag-Later :
      (now : ℕ) (app : String) (w : World H)
      → Returned (λ l. Later 0 w) (grab_import_lag H now app w)
  unfolding grab_import_lag pure
  grab_import_lag-Later now app w =
      Returned-bind _ _ _ _ w (call-Later (H.newest app grabbed) w) (λ g v h.
        Returned-bind _ _ _ _ v (call-Later (H.newest app imported) v)
          (λ i u k. omega (arith, h, k)))

  refresh_starvation-Later :
      (now : ℕ) (app : String) (w : World H)
      → Returned (λ s. Later 0 w) (refresh_starvation H now app w)
  unfolding refresh_starvation pure
  refresh_starvation-Later now app w =
      Returned-bind _ _ _ _ w (call-Later (H.commands app) w) (λ cs v h. h)

  detect-Later :
      (now : ℕ) (app : String) (w : World H) → Returned (λ v. Later 0 w) (detect H now app w)
  unfolding detect pure
  detect-Later now app w = Returned-bind _ _ _ _ w (refresh_starvation-Later now app w) (λ s v h.
      Returned-bind _ _ _ _ v (grab_import_lag-Later now app v) (λ l u k. omega (arith, h, k)))

  cancel_all-Later :
      (app : String) (cs : List Command) (w : World H)
      → Returned (λ r. Later (length cs) w) (cancel_all H app cs w)
  unfolding cancel_all pure ◌>>=◌ cancel
  cancel_all-Later app [] w = omega arith
  cancel_all-Later app (c ∷ cs) w =
      let (ok, t) = H.cancel app c.id w.net in
      Returned-bind _ _ (cancel_all H app cs) _
        (record { net = t; removals = (app, c.id) ∷ w.removals }) (cancel_all-Later app cs _)
        (λ r v h. omega (arith, h))

  clear_search_backlog-Later :
      (app : String) (w : World H)
      → Returned (λ r. Later r.targeted w) (clear_search_backlog H app w)
  unfolding clear_search_backlog pure
  clear_search_backlog-Later app w =
      Returned-bind _ _ _ _ w (call-Later (H.commands app) w) (λ cs v h.
        Returned-bind _ _ _ _ v (cancel_all-Later app (keep is_search cs) v)
          (λ r u k. omega (arith, h, k)))

  abbrev pub Fits : Bool → List Verdict → List (String × Cleared) → World H → World H → Type 0
  Fits remediate vs rs w v = (apps_in rs ≡ remediable remediate vs) × Later (targeted_in rs) w v

  remedy-Fits :
      (remediate : Bool) (v : Verdict) (w : World H)
      → Returned (λ rs. Fits remediate (v ∷ []) rs w) (remedy H remediate v w)
  unfolding remedy pure
  remedy-Fits false v w = (refl, omega arith)
  remedy-Fits true v w =
      elim v.starved
        as (λ b.
          Returned
            (λ rs v'. (apps_in rs ≡ (if b then v.app ∷ [] else [])) × Later (targeted_in rs) w v')
            ((if b then (clear_search_backlog H v.app >>= λ r. pure ((v.app, r) ∷ [])) else pure [])
              w)) [
                | true ↦
                    Returned-bind _ _ _ _ w (clear_search_backlog-Later v.app w)
                      (λ r u h. (refl, omega (arith, h)))
                | false ↦ (refl, omega arith)
              ]

  Fits-more :
      (remediate : Bool) (v : Verdict) (vs : List Verdict) (r rest : List (String × Cleared))
      (w w1 w2 w3 : World H)
      → Later 0 w w1
      → Fits remediate (v ∷ []) r w1 w2
      → Fits remediate vs rest w2 w3
      → Fits remediate (v ∷ vs) (r ++ rest) w w3
  Fits-more remediate v vs r rest w w1 w2 w3 h1 (a2, n2) (a3, n3) = (
    apps_in-append r rest
        ∙ ap (λ l. l ++ apps_in rest) a2
        ∙ ap (λ l. remediable remediate (v ∷ []) ++ l) a3
        ∙ remediable_step remediate v vs,
    omega (arith, h1, n2, n3, targeted_in-append r rest),
  )

  check_each-Fits :
      (remediate : Bool) (now : ℕ) (apps : List String) (w : World H)
      → Returned (λ r. Fits remediate r.0 r.1 w) (check_each H remediate now apps w)
  unfolding check_each pure
  check_each-Fits remediate now [] w = (remediable_none remediate, omega arith)
  check_each-Fits remediate now (app ∷ apps) w =
      Returned-bind _ _ _ _ w (detect-Later now app w) (λ v w1 h1.
        Returned-bind _ _ _ _ w1 (remedy-Fits remediate v w1) (λ r w2 h2.
          Returned-bind _ _ _ _ w2 (check_each-Fits remediate now apps w2)
            (λ rest w3 h3. Fits-more remediate v rest.0 r rest.1 w w1 w2 w3 h1 h2 h3)))

  -- If the check returns, it has remediated the apps that it found starved, in their order, and no other
  -- one, and none at all unless it is told to remediate; and it has sent as many removals as it
  -- reports to have targeted.
  pub check_all-Fits :
      (remediate : Bool) (now : ℕ) (apps : List String) (w : World H)
      → Returned (λ r. Fits remediate r.apps r.remediated w) (check_all H remediate now apps w)
  unfolding check_all pure
  check_all-Fits remediate now apps w =
      Returned-bind _ _ _ _ w (check_each-Fits remediate now apps w) (λ r v h. h)
