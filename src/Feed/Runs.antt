-- ===== src/Feed/Runs.antt =====
-- scripts/activity_feed.py: the log and the rendered files over runs.
use mathlib.Core.Path.{subst}
use mathlib.Core.List.{append-nil}
use rawrz.Prelude.{
  ℕ, zero, suc, ◌+◌, ◌≡◌, refl, sym, ◌∙◌, ◌⊎◌, inl, inr, Bool, true, false, ◌&&◌, not, Option, none,
  some, List, [], ◌∷◌, ◌++◌, All, Pairs, take, All-append, All-left, All-right, All-map, Pairs-join,
  Pairs-left, Pairs-right, Pairs-cross, ltb, Bool-cases,
}
use rawrz.Prelude.Sorting.{All-sort, sort-Pairs}
use rawrz.Prelude.Result.{Result}
use rawrz.Exec.{done, ◌>>=◌, pure}
use rawrz.Exec.Keeps.{Keeps, Keeps-bind, Keeps-pure, Keeps-if}
use rawrz.Exec.Ends.{Ends, Ends-then, Ends-bind, Ends-pure, Ends-if, Holds-bind}
use rawrz.Feed.{App, radarr, sonarr, Raw, Record, State, Entry, newest_first, is_set, render_limit}
use rawrz.Feed.Fresh.{Different}
use rawrz.Feed.Once.{In, Logged, IsHistory, take_in-Logged}
use rawrz.Feed.Poll.{
  Artifact, Host, World, Config, Run, Polled, cursor_of, no_state, ask, history_pages, pages_from,
  fetched, keep_page, after_page, read_clock, after_history, poll, write, persist, conclude, run,
  is_none,
}

-- What a poll of an app gets lists each record once, with ids from 1 on.
abbrev pub GoodResult : Result (List Record) → Type 0
GoodResult (Result.err e) = Unit
GoodResult (Result.ok rs) = IsHistory rs

abbrev pub Histories : Host → Type 0
Histories H =
    (app : App) (cursor : Option ℕ) → Ends (λ r w. GoodResult r) (history_pages H app cursor)

-- Every file can be written.
abbrev pub Writes : Host → Type 0
Writes H = (file : Artifact) (t : H.Net) → (H.write file t).0 ≡ true

module _ (H : Host) (log : List Entry) (state : State) where
  record Same (w : World H) : Type 0 where
    log_same : w.log ≡ log
    state_same : w.state ≡ state

  Same-net : {A : Type 0} (f : H.Net → A × H.Net) → Keeps Same (ask H f)
  unfolding ask
  Same-net f = record { at = λ w h. record { log_same = h.log_same; state_same = h.state_same } }

  keep_page-Keeps :
      (app : App) (page : ℕ) (c : Option ℕ) (r : Result (List Raw))
      → Keeps Same (keep_page H app page c r)
  unfolding keep_page
  keep_page-Keeps app page c (Result.err e) = record { at = λ w h. h }
  keep_page-Keeps app page c (Result.ok raws) = record {
    at = λ w h. record { log_same = h.log_same; state_same = h.state_same };
  }

  fetched-Keeps :
      (app : App) (page : ℕ) (c : Option ℕ) (o : Option (List Raw))
      → Keeps Same (fetched H app page c o)
  unfolding fetched
  fetched-Keeps app page c (some raws) = Keeps-pure _
  fetched-Keeps app page c none = Keeps-bind _ _ (Same-net _) (λ r. keep_page-Keeps app page c r)

  after_page-Keeps :
      (app : App) (rest : Run H (Result (List Record))) (r : Result (List Raw))
      → Keeps Same rest
      → Keeps Same (after_page H app rest r)
  unfolding after_page
  after_page-Keeps app rest (Result.err e) h = Keeps-pure _
  after_page-Keeps app rest (Result.ok raws) h =
      Keeps-if _ _ _ (Keeps-pure _) (Keeps-bind _ _ h (λ more. Keeps-pure _))

  pages_from-Keeps :
      (app : App) (c : Option ℕ) (left page : ℕ) → Keeps Same (pages_from H app c left page)
  unfolding pages_from
  pages_from-Keeps app c zero page = Keeps-pure _
  pages_from-Keeps app c (suc left) page =
      Keeps-bind _ _ (Keeps-bind _ _ (Same-net _) (λ o. fetched-Keeps app page c o))
        (λ r. after_page-Keeps app _ r (pages_from-Keeps app c left (page + 1)))

  read_clock-Keeps : (b : Bool) → Keeps Same (read_clock H b)
  unfolding read_clock
  read_clock-Keeps true = Keeps-pure 0
  read_clock-Keeps false = Same-net _

  after_history-Keeps :
      (app : App) (p : Polled) (r : Result (List Record)) → Keeps Same (after_history H app p r)
  unfolding after_history
  after_history-Keeps app p (Result.err e) = Keeps-pure _
  after_history-Keeps app p (Result.ok rs) =
      Keeps-bind _ _ (read_clock-Keeps (is_set (cursor_of app p.state))) (λ now. Keeps-pure _)

  poll-Keeps : (c : Config) (app : App) (p : Polled) → Keeps Same (poll H c app p)
  unfolding poll history_pages
  poll-Keeps c app p =
      Keeps-if _ _ _
        (Keeps-bind _ _ (pages_from-Keeps app _ 5 1) (λ r. after_history-Keeps app p r))
        (Keeps-pure _)

  -- What a poll leads to, with the log as it is.
  abbrev Fits : Polled → Type 0
  Fits p = Logged p.state (log ++ p.entries)

  after_history-Ends :
      (app : App) (p : Polled) (r : Result (List Record))
      → Fits p
      → GoodResult r
      → Ends (λ q w. Fits q) (after_history H app p r)
  unfolding after_history
  after_history-Ends app p (Result.err e) h g = Ends-pure _ _ (λ w. h)
  after_history-Ends app p (Result.ok rs) h g =
      Ends-bind _ _ _ (λ now. Ends-pure _ _ (λ w. take_in-Logged app now rs p log g h))

  poll-Ends :
      (histories : Histories H) (c : Config) (app : App) (p : Polled)
      → Fits p
      → Ends (λ q w. Fits q) (poll H c app p)
  unfolding poll
  poll-Ends histories c app p h =
      Ends-if _ (c.has_key app) _ _
        (Ends-then _ GoodResult _ _ (histories app (cursor_of app p.state))
          (λ r g. after_history-Ends app p r h g))
        (Ends-pure _ _ (λ w. h))

module _ (H : Host) (writes : Writes H) where
  write-done :
      (file : Artifact) (change : World H → World H) (rest : Run H Bool) (w : World H)
      → write H file change rest w ≡ rest (change (record w { net = (H.write file w.net).1 }))
  unfolding write
  write-done file change rest w = rw (writes file w.net) refl

  -- What a run writes: the log gets the new entries, and the other two files have nothing but those.
  pub record Written (s : State) (es : List Entry) (w v : World H) : Type 0 where
    pub log : v.log ≡ w.log ++ es
    pub json : v.json ≡ take render_limit es
    pub rss : v.rss ≡ take render_limit es
    pub state : v.state ≡ s

  persist-Written :
      (s : State) (es : List Entry) (w : World H)
      → (v : World H) × (persist H s es w ≡ (done true, v)) × Written s es w v
  unfolding persist pure
  persist-Written s es w = (
    _,
    write-done _ _ _ _ ∙ write-done _ _ _ _ ∙ write-done _ _ _ _ ∙ write-done _ _ _ _,
    record { log = refl; json = refl; rss = refl; state = refl },
  )

module _ (H : Host) where
  -- After a write that failed: the state is the old one, and the log has all of the new entries or none.
  -- After all four: the entries are in the log and in the two renderings, and the state is the new one.
  abbrev pub Wrote : State → List Entry → World H → Bool → World H → Type 0
  Wrote s es w true v =
      ((v.log ≡ w.log ++ es) × (v.state ≡ s))
      × ((v.json ≡ take render_limit es) × (v.rss ≡ take render_limit es))
  Wrote s es w false v = (v.state ≡ w.state) × ((v.log ≡ w.log) ⊎ (v.log ≡ w.log ++ es))

  -- What an exit code says of the world that the run leaves.
  abbrev pub Ended : Polled → World H → ℕ → World H → Type 0
  Ended p w zero v = Wrote p.state (newest_first p.entries) w true v
  Ended p w (suc zero) v = Wrote p.state (newest_first p.entries) w false v
  Ended p w (suc (suc zero)) v = ((p.reachable ≡ 0) × (p.entries ≡ [])) × (v ≡ w)
  Ended p w (suc (suc (suc n))) v = ⊥

Different-flip : (a b : Entry) → Different a b → Different b a
Different-flip a b h q k e f = h (sym q) k f e

-- The order of the new entries does not matter.
sorted-Logged :
    (s : State) (old es : List Entry) → Logged s (old ++ es) → Logged s (old ++ newest_first es)
unfolding newest_first
sorted-Logged s old es h = record {
  different =
      Pairs-join Different old _ (Pairs-left Different old es h.different)
        (sort-Pairs _ Different Different-flip es (Pairs-right Different old es h.different))
        (All-map (λ x. All (Different x) es) (λ x. All (Different x) (newest_first es)) old
          (λ x a. All-sort _ (Different x) es a) (Pairs-cross Different old es h.different));
  passed =
      All-append (In s) old _ (All-left (In s) old es h.passed)
        (All-sort _ (In s) es (All-right (In s) old es h.passed));
}

module _ (H : Host) (writes : Writes H) where
  -- The log and the state file fit.
  abbrev IsKept : World H → Type 0
  IsKept w = Logged w.state w.log

  still-IsKept : (w v : World H) → IsKept w → Same H w.log w.state v → IsKept v
  still-IsKept w v k s = rw (s.log_same, s.state_same) k

  conclude-IsKept :
      (w v : World H) (p : Polled)
      → IsKept w
      → Same H w.log w.state v
      → Fits H w.log w.state p
      → IsKept (conclude H p v).1
  unfolding conclude pure ◌>>=◌
  conclude-IsKept w v p k s fits =
      elim (Bool-cases (not (ltb 0 p.reachable) && is_none p.entries)) [
        | inl lost ↦ rw lost (still-IsKept w v k s)
        | inr some_reached ↦
            let r = persist-Written H writes p.state (newest_first p.entries) v in
            rw (some_reached, r.1, r.2.log, r.2.state, s.log_same)
              (sorted-Logged p.state w.log p.entries fits)
      ]

  start-Fits :
      (w : World H)
      → IsKept w
      → Fits H w.log w.state (record { state = w.state; entries = []; reachable = 0 })
  start-Fits w k = subst (Logged w.state) (sym (append-nil w.log)) k

  module _ (histories : Histories H) (c : Config) where
    run-IsKept : (w : World H) → IsKept w → IsKept (run H c w).1
    unfolding run
    run-IsKept w k =
        let start : Polled = record { state = w.state; entries = []; reachable = 0 } in
        let same : Same H w.log w.state w = record { log_same = refl; state_same = refl } in
        Holds-bind (Fits H w.log w.state) (Same H w.log w.state) IsKept (poll H c radarr start) _ w
          ((poll-Ends H w.log w.state histories c radarr start (start-Fits w k)).at w)
          ((poll-Keeps H w.log w.state c radarr start).at w same)
          (λ p u fits s.
            Holds-bind (Fits H w.log w.state) (Same H w.log w.state) IsKept (poll H c sonarr p) _ u
              ((poll-Ends H w.log w.state histories c sonarr p fits).at u)
              ((poll-Keeps H w.log w.state c sonarr p).at u s)
              (λ q v more t. conclude-IsKept w v q k t more) (λ v t. still-IsKept w v k t))
          (λ v t. still-IsKept w v k t)

-- One run after another, each with its settings and the network by then.
unfoldable pub runs : (H : Host) → List (Config × H.Net) → World H → World H
runs H [] w = w
runs H ((c, t) ∷ rest) w = runs H rest (run H c (record w { net = t })).1

runs-IsKept :
    (H : Host) (writes : Writes H)
    → Histories H
    → (starts : List (Config × H.Net)) (w : World H) → IsKept H writes w
    → IsKept H writes (runs H starts w)
unfolding runs
runs-IsKept H writes histories [] w k = k
runs-IsKept H writes histories ((c, t) ∷ rest) w k =
    runs-IsKept H writes histories rest _ (run-IsKept H writes histories c (record w { net = t }) k)

abbrev pub fresh_world : (H : Host) → H.Net → World H
fresh_world H t = record { net = t; log = []; json = []; rss = []; state = no_state }

-- From no state and an empty log, if every file can be written and a poll lists each record once, with
-- ids from 1 on, the log never has two entries of one record, over any number of runs in which apps are
-- reached or not.
pub runs-Different :
    (H : Host)
    → Writes H
    → Histories H
    → (starts : List (Config × H.Net)) (t : H.Net)
    → Pairs Different (runs H starts (fresh_world H t)).log
runs-Different H writes histories starts t =
    (runs-IsKept H writes histories starts (fresh_world H t)
      (record { different = tt; passed = tt })).different
