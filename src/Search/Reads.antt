-- ===== src/Search/Reads.antt =====
-- scripts/search_missing_scoped_core.py: `SearchEngine` over its own `SonarrClient` and `Verifier`, and
-- where the pages that these two read come to an end.
use rawrz.Prelude.{
  ℕ, zero, suc, ◌+◌, ◌*◌, ◌<◌, sym, ap, arith, Bool, Option, none, some, List, [], ◌∷◌, length,
  keep,
}
use rawrz.Prelude.Result.{Result}
use mathlib.Core.Path.{subst}
use rawrz.Exec.{Outcome, done, raised, stuck}
use rawrz.Exec.Halts.{
  IsEnded, Halts, outcome_of-IsEnded, pure-Halts, raise-Halts, if-Halts, bind-Halts,
}
use rawrz.Exec.Works.{Gives}
use rawrz.Json.Int.{ℤ, pos, negsuc}
use rawrz.Search.Plan.{SearchCommand}
use rawrz.Search.Config.{SearchConfig}
use rawrz.Search.Engine.{Service, ReadsEnd, World, Reply}
use rawrz.Search.Engine.{IsTimely as IsMonotonic}
use rawrz.Search.Engine.Loop.{run}
use rawrz.Search.Engine.Loop.Halts.{run-ends}
use rawrz.Search.Client.{
  Sonarr, Run, Series, QueueRecord, HistoryRecord, call, shaped, today, is_record, lacks_files,
  page_size, after_page, fetch_episodes, fetch_scoped, fetch_series, fetch_missing,
  fetch_queue_keys, history_from, fetch_grab_history, fetch_grab_watermark,
}
use rawrz.Search.Client.Pages.{Serves, fetch_queue_records-all}
use rawrz.Search.Client.History.{NewestFirst}
use rawrz.Search.Verifier.{capture, recover, verify_until_quiet}
use rawrz.Search.Verifier.Quiet.{IsTimely, Quiet, verify_until_quiet-Quiet}

-- A window of no seconds or of fewer is over at once.
abbrev seconds : ℤ → ℕ
seconds (pos n) = n
seconds (negsuc n) = zero

-- Sonarr as the engine meets it: the three reads are those of the client and the verifier, and each
-- may read `fuel` pages of a list.
abbrev pub sonarr :
    (S : Sonarr)
    → ℕ
    → (SearchCommand → S.Net → Result Reply × S.Net)
    → (ℕ → S.Net → Result Reply × S.Net)
    → (S.Net → Bool × S.Net)
    → Service
sonarr S fuel post status replaced = record {
  State = S.Net;
  fetch_missing = fetch_missing S;
  post_command = post;
  command_status = status;
  capture = λ series episodes. capture S fuel;
  verify_until_quiet = λ series episodes snapshot window command.
      verify_until_quiet S (record { series = series; episodes = episodes }) fuel snapshot
        (seconds window) command;
  now = S.now;
  sleep = S.sleep;
  replace = replaced;
}

module _ (S : Sonarr) where
  call-Halts : {A : Type 0} (f : S.Net → Result A × S.Net) → Halts (call S f)
  call-Halts f t = outcome_of-IsEnded (f t).0

  shaped-Halts : {A : Type 0} (o : Option A) → Halts (shaped S o)
  shaped-Halts none = raise-Halts _ _
  shaped-Halts (some a) = pure-Halts a

  today-Halts : Halts (today S)
  today-Halts t = tt

  fetch_episodes-Halts : (id : ℕ) → Halts (fetch_episodes S id)
  unfolding fetch_episodes
  fetch_episodes-Halts id = bind-Halts _ _ (call-Halts (S.episodes id)) shaped-Halts

  fetch_scoped-Halts : (ids : List ℕ) → Halts (fetch_scoped S ids)
  unfolding fetch_scoped
  fetch_scoped-Halts [] = pure-Halts []
  fetch_scoped-Halts (id ∷ ids) = bind-Halts _ _ (fetch_episodes-Halts id) (λ rs.
      bind-Halts _ _ today-Halts
        (λ now. bind-Halts _ _ (fetch_scoped-Halts ids) (λ more. pure-Halts _)))

  fetch_series-Halts : (now : ℕ) (all : List Series) → Halts (fetch_series S now all)
  unfolding fetch_series
  fetch_series-Halts now [] = pure-Halts []
  fetch_series-Halts now (s ∷ rest) =
      if-Halts (lacks_files s) _ _
        (bind-Halts _ _ (fetch_episodes-Halts s.id)
          (λ rs. bind-Halts _ _ (fetch_series-Halts now rest) (λ more. pure-Halts _)))
        (fetch_series-Halts now rest)

  fetch_all-Halts : Halts (fetch_missing S none)
  unfolding fetch_missing
  fetch_all-Halts =
      bind-Halts _ _ (bind-Halts _ _ (call-Halts S.series) shaped-Halts)
        (λ all. bind-Halts _ _ today-Halts (λ now. fetch_series-Halts now all))

  fetch_missing-Halts : (ids : Option (List ℕ)) → Halts (fetch_missing S ids)
  unfolding fetch_missing
  fetch_missing-Halts none = fetch_all-Halts
  fetch_missing-Halts (some []) = fetch_all-Halts
  fetch_missing-Halts (some (id ∷ ids)) = fetch_scoped-Halts (id ∷ ids)

  -- The first page is the only one that is read for the watermark.
  watermark-Halts : (fuel : ℕ) → zero < fuel → Halts (fetch_grab_watermark S fuel)
  unfolding fetch_grab_watermark fetch_grab_history history_from after_page
  watermark-Halts zero h = absurd (omega (arith, h))
  watermark-Halts (suc fuel) h =
      bind-Halts _ _
        (λ t.
          bind-Halts _ _ (bind-Halts _ _ (call-Halts (S.history 1 page_size)) shaped-Halts)
            (λ p. pure-Halts _) t)
        (λ rs. pure-Halts _)

  caught-IsEnded :
      {A : Type 0} (a : A) (r : Outcome A × S.Net)
      → IsEnded r.0
      → IsEnded (recover S a (λ t. r) r.1).0
  unfolding recover
  caught-IsEnded a (done b, t) h = tt
  caught-IsEnded a (raised e, t) h = tt
  caught-IsEnded a (stuck, t) h = h

  recover-Halts : {A : Type 0} (a : A) (m : Run S A) → Halts m → Halts (recover S a m)
  unfolding recover
  recover-Halts a m h t = caught-IsEnded a (m t) (h t)

  Gives-IsEnded :
      {A : Type 0} (Q : A → S.Net → Type 0) (r : Outcome A × S.Net) → Gives Q r → IsEnded r.0
  Gives-IsEnded Q (done a, t) h = tt
  Gives-IsEnded Q (raised e, t) h = tt
  Gives-IsEnded Q (stuck, t) h = h

  module _ (fuel : ℕ) (xs : List QueueRecord) (queue : Serves S S.queue page_size xs)
      (short_queue : length xs < fuel) where
    keys-Halts : Halts (fetch_queue_keys S fuel)
    unfolding fetch_queue_keys
    keys-Halts =
        bind-Halts _ _
          (λ t.
            let r = fetch_queue_records-all S xs queue fuel t short_queue in
            subst IsEnded (sym (ap (λ x. x.0) r.1)) tt)
          (λ rs. pure-Halts _)

    capture-Halts : Halts (capture S fuel)
    unfolding capture
    capture-Halts =
        bind-Halts _ _
          (recover-Halts none _ (
            bind-Halts _ _ (watermark-Halts fuel (omega (arith, short_queue))) (λ m. pure-Halts _)))
          (λ mark. bind-Halts _ _ keys-Halts (λ keys. pure-Halts _))

-- With a clock that is monotonic and sleeps that last, the three reads return or raise against a server
-- that pages a fixed queue and a fixed history with the newest grabs first.
pub sonarr-ReadsEnd :
    (S : Sonarr) (timely : IsTimely S) (fuel : ℕ) (xs : List QueueRecord)
    → Serves S S.queue page_size xs
    → length xs < fuel
    → (ys : List HistoryRecord) → Serves S S.history page_size ys
    → length ys < fuel
    → ((mark : _) → NewestFirst mark (keep is_record ys))
    → (post : SearchCommand → S.Net → Result Reply × S.Net)
      (status : ℕ → S.Net → Result Reply × S.Net) (replaced : S.Net → Bool × S.Net)
    → ReadsEnd (sonarr S fuel post status replaced)
sonarr-ReadsEnd S timely fuel xs queue fx ys history fy ordered post status replaced = record {
  fetch_ends = fetch_missing-Halts S;
  capture_ends = λ series episodes. capture-Halts S fuel xs queue fx;
  verify_ends = λ series episodes b q command t.
      Gives-IsEnded S (Quiet S (S.now t + seconds q * 1000)) _ (
        verify_until_quiet-Quiet S _ timely fuel xs queue fx ys history fy ordered b (seconds q)
          command t);
}

-- Against a server that pages a fixed queue and a fixed history, the newest grabs first, with clocks
-- that are monotonic and sleeps that last as long as they were asked for, a run of the engine with its
-- own client and verifier returns or raises, whatever its configuration, whether it resumes, and
-- whatever else is answered.
pub search-ends :
    (S : Sonarr) (timely : IsTimely S) (fuel : ℕ) (xs : List QueueRecord)
    → Serves S S.queue page_size xs
    → length xs < fuel
    → (ys : List HistoryRecord) → Serves S S.history page_size ys
    → length ys < fuel
    → ((mark : _) → NewestFirst mark (keep is_record ys))
    → (post : SearchCommand → S.Net → Result Reply × S.Net)
      (status : ℕ → S.Net → Result Reply × S.Net) (replaced : S.Net → Bool × S.Net)
    → IsMonotonic (sonarr S fuel post status replaced)
    → (c : SearchConfig) (resume : Bool) (w : World (sonarr S fuel post status replaced))
    → IsEnded (run (sonarr S fuel post status replaced) c resume w).0
search-ends S timely fuel xs queue fx ys history fy ordered post status replaced monotonic c =
    run-ends (sonarr S fuel post status replaced) monotonic
      (sonarr-ReadsEnd S timely fuel xs queue fx ys history fy ordered post status replaced) c
