-- ===== src/Arrivals/Classified.antt =====
-- `classify_run` of scripts/arrival_notifier.py: which requests it finds, and what it leaves alone.
use rawrz.Prelude.{
  ℕ, ◌≡◌, refl, inl, inr, Bool, true, false, ◌&&◌, not, Option, none, some, List, [], ◌∷◌, arith,
  contains, nat_eq, Bool-cases,
}
use mathlib.Core.Path.{subst}
use rawrz.Prelude.Result.{Result}
use rawrz.Exec.{pure}
use rawrz.Exec.Works.{Gives, Works, Works-bind, Works-pure, Gives-bind}
use rawrz.Arrivals.{
  Request, App, Notice, Host, World, Arrived, Split, keys, is_open, is_closed, is_watched_status,
}
use rawrz.Arrivals.Notifier.{
  ask, history_imports, after_items, history_lookup, judge, join, classify_run, arrived, with_id,
}
use rawrz.Arrivals.Ids.{ids, arrival_ids, Distinct}

-- The file and the messages that went through are these.
pub record Same (H : Host) (file : List (ℕ × Notice)) (sent : List ℕ) (w : World H) : Type 0 where
  pub file_same : w.file ≡ file
  pub sent_same : w.sent ≡ sent

-- The arrivals and the drops of these requests: of open ones, the drops apart from the arrivals.
pub record IsSplit (file : List (ℕ × Notice)) (rs : List Request) (s : Split) : Type 0 where
  pub arrivals_from :
      (k : ℕ) → contains (arrival_ids s.arrivals) k ≡ true → contains (ids rs) k ≡ true
  pub drops_from : (k : ℕ) → contains (ids s.drops) k ≡ true → contains (ids rs) k ≡ true
  pub arrivals_open :
      (k : ℕ) → contains (arrival_ids s.arrivals) k ≡ true → contains (keys file) k ≡ false
  pub drops_open : (k : ℕ) → contains (ids s.drops) k ≡ true → contains (keys file) k ≡ false
  pub distinct : Distinct (arrival_ids s.arrivals)
  pub apart :
      (k : ℕ) → contains (ids s.drops) k ≡ true → contains (arrival_ids s.arrivals) k ≡ false

-- One request is an arrival, a drop or neither; if it is one, it is open.
data Judged (file : List (ℕ × Notice)) (r : Request) : Split → Type 0 where
  neither : Judged file r (record { arrivals = []; drops = [] })
  arrival :
      (how : Arrived) (k : ℕ)
      → r.id ≡ some k
      → contains (keys file) k ≡ false
      → Judged file r (record { arrivals = record { request = r; how = how } ∷ []; drops = [] })
  drop :
      (k : ℕ)
      → r.id ≡ some k
      → contains (keys file) k ≡ false
      → Judged file r (record { arrivals = []; drops = r ∷ [] })

open_id :
    (file : List (ℕ × Notice)) (r : Request)
    → is_open file r ≡ true
    → (k : ℕ) × (r.id ≡ some k) × (contains (keys file) k ≡ false)
open_id file r h = by_id r.id refl h
  where
    by_id :
        (o : Option ℕ)
        → r.id ≡ o
        → elim o as (λ _. Bool) [
          | none ↦ false
          | some id ↦ r.resolvable && not (contains (keys file) id)
        ]
          ≡ true
        → (k : ℕ) × (r.id ≡ some k) × (contains (keys file) k ≡ false)
    by_id none e h = absurd (ground (arith, h))
    by_id (some k) e h = (k, e, ground (arith, h))

module _ (file : List (ℕ × Notice)) (r : Request) (rs : List Request) where
  later_distinct : Distinct (ids (r ∷ rs)) → Distinct (ids rs)
  later_distinct h = by_id r.id h
    where
      by_id : (o : Option ℕ) → Distinct (with_id o (ids rs)) → Distinct (ids rs)
      by_id none h = h
      by_id (some k) h = h.1

  later_from : (k : ℕ) → contains (ids rs) k ≡ true → contains (ids (r ∷ rs)) k ≡ true
  later_from k h = by_id r.id
    where
      by_id : (o : Option ℕ) → contains (with_id o (ids rs)) k ≡ true
      by_id none = h
      by_id (some j) = ground (arith, h)

  join-IsSplit :
      (s rest : Split)
      → Judged file r s
      → Distinct (ids (r ∷ rs))
      → IsSplit file rs rest
      → IsSplit file (r ∷ rs) (join s rest)
  join-IsSplit s rest neither d h = record {
    arrivals_from = λ k e. later_from k (h.arrivals_from k e);
    drops_from = λ k e. later_from k (h.drops_from k e);
    arrivals_open = h.arrivals_open;
    drops_open = h.drops_open;
    distinct = h.distinct;
    apart = h.apart;
  }
  join-IsSplit s rest (arrival how k e fresh) d h =
      let d' : Distinct (k ∷ ids rs) = subst (λ o. Distinct (with_id o (ids rs))) e d in
      rw (e) (record {
        arrivals_from = λ j c. from j (h.arrivals_from j) c;
        drops_from = λ j c. any_of j (h.drops_from j c);
        arrivals_open = λ j c. opened j (h.arrivals_open j) c;
        drops_open = h.drops_open;
        distinct = (absent d'.0 (h.arrivals_from k), h.distinct);
        apart = λ j c. parts j d'.0 (h.drops_from j c) (h.apart j c);
      })
    where
      from :
          (j : ℕ)
          → (contains (arrival_ids rest.arrivals) j ≡ true → contains (ids rs) j ≡ true)
          → contains (k ∷ arrival_ids rest.arrivals) j ≡ true
          → contains (k ∷ ids rs) j ≡ true
      from j l c = ground (arith, l, c)

      any_of : (j : ℕ) → contains (ids rs) j ≡ true → contains (k ∷ ids rs) j ≡ true
      any_of j c = ground (arith, c)

      opened :
          (j : ℕ)
          → (contains (arrival_ids rest.arrivals) j ≡ true → contains (keys file) j ≡ false)
          → contains (k ∷ arrival_ids rest.arrivals) j ≡ true
          → contains (keys file) j ≡ false
      opened j l c = ground (arith, l, c, fresh)

      absent :
          contains (ids rs) k ≡ false
          → (contains (arrival_ids rest.arrivals) k ≡ true → contains (ids rs) k ≡ true)
          → contains (arrival_ids rest.arrivals) k ≡ false
      absent c l = ground (arith, l, c)

      parts :
          (j : ℕ)
          → contains (ids rs) k ≡ false
          → contains (ids rs) j ≡ true
          → contains (arrival_ids rest.arrivals) j ≡ false
          → contains (k ∷ arrival_ids rest.arrivals) j ≡ false
      parts j c l n = ground (arith, l, c, n)
  join-IsSplit s rest (drop k e fresh) d h =
      let d' : Distinct (k ∷ ids rs) = subst (λ o. Distinct (with_id o (ids rs))) e d in
      rw (e) (record {
        arrivals_from = λ j c. any_of j (h.arrivals_from j c);
        drops_from = λ j c. from j (h.drops_from j) c;
        arrivals_open = h.arrivals_open;
        drops_open = λ j c. opened j (h.drops_open j) c;
        distinct = h.distinct;
        apart = λ j c. parts j d'.0 (h.arrivals_from j) (h.apart j) c;
      })
    where
      from :
          (j : ℕ)
          → (contains (ids rest.drops) j ≡ true → contains (ids rs) j ≡ true)
          → contains (k ∷ ids rest.drops) j ≡ true
          → contains (k ∷ ids rs) j ≡ true
      from j l c = ground (arith, l, c)

      any_of : (j : ℕ) → contains (ids rs) j ≡ true → contains (k ∷ ids rs) j ≡ true
      any_of j c = ground (arith, c)

      opened :
          (j : ℕ)
          → (contains (ids rest.drops) j ≡ true → contains (keys file) j ≡ false)
          → contains (k ∷ ids rest.drops) j ≡ true
          → contains (keys file) j ≡ false
      opened j l c = ground (arith, l, c, fresh)

      parts :
          (j : ℕ)
          → contains (ids rs) k ≡ false
          → (contains (arrival_ids rest.arrivals) j ≡ true → contains (ids rs) j ≡ true)
          → (contains (ids rest.drops) j ≡ true → contains (arrival_ids rest.arrivals) j ≡ false)
          → contains (k ∷ ids rest.drops) j ≡ true
          → contains (arrival_ids rest.arrivals) j ≡ false
      parts j n f l c = ground (arith, n, f, l, c)

module _ (H : Host) (file : List (ℕ × Notice)) (sent : List ℕ) where
  abbrev Stays : World H → Type 0
  Stays = Same H file sent

  pub ask-Works : {A : Type 0} (f : H.Net → A × H.Net) → Works Stays (ask H f)
  unfolding ask
  ask-Works f = record { at = λ w h. record { file_same = h.file_same; sent_same = h.sent_same } }

  history_imports-Works : (app : App) (o : Option ℕ) → Works Stays (history_imports H app o)
  unfolding history_imports
  history_imports-Works app none = Works-pure Stays []
  history_imports-Works app (some id) = Works-bind Stays _ _ (ask-Works _) (λ r. Works-pure Stays _)

  after_items-Works : (app : App) (r : Result (List (Option ℕ))) → Works Stays (after_items H app r)
  unfolding after_items
  after_items-Works app (Result.err e) = Works-pure Stays []
  after_items-Works app (Result.ok found) = history_imports-Works app _

  history_lookup-Works : (r : Request) → Works Stays (history_lookup H r)
  unfolding history_lookup
  history_lookup-Works r = Works-bind Stays _ _ (ask-Works _) (λ a. after_items-Works _ a)

  abbrev Judges : Request → Split → World H → Type 0
  Judges r s w = Judged file r s × Stays w

  arrived-Judged :
      (r : Request) (o : Option Arrived) → is_open file r ≡ true → Judged file r (arrived r o)
  arrived-Judged r none h = neither
  arrived-Judged r (some how) h = let f = open_id file r h in arrival how f.0 f.1 f.2

  judge-Judges : (r : Request) (w : World H) → Stays w → Gives (Judges r) (judge H file r w)
  unfolding judge pure
  judge-Judges r w h = elim (Bool-cases (is_open file r)) [
    | inr shut ↦ rw shut (neither, h)
    | inl opened ↦ elim (Bool-cases (is_closed r.status)) [
      | inl closed ↦ rw (opened, closed) (let f = open_id file r opened in drop f.0 f.1 f.2, h)
      | inr not_closed ↦ elim (Bool-cases (is_watched_status r.status)) [
        | inr unwatched ↦ rw (opened, not_closed, unwatched) (neither, h)
        | inl watched ↦
            rw (opened, not_closed, watched)
              (Gives-bind (λ a. Stays) (Judges r) _ _ w ((history_lookup-Works r).at w h)
                (λ hs v same. (arrived-Judged r _ opened, same)))
      ]
    ]
  ]

  -- Over requests with distinct ids, the split is one of them, and nothing else changes.
  pub classify_run-Splits :
      (rs : List Request) (w : World H)
      → Distinct (ids rs)
      → Stays w
      → Gives (λ s v. IsSplit file rs s × Stays v) (classify_run H file rs w)
  unfolding classify_run pure
  classify_run-Splits [] w d h = (no_split, h)
    where
      no_split : IsSplit file [] (record { arrivals = []; drops = [] })
      no_split = record {
        arrivals_from = λ k c. cc;
        drops_from = λ k c. cc;
        arrivals_open = λ k c. cc;
        drops_open = λ k c. cc;
        distinct = tt;
        apart = λ k c. refl;
      }
  classify_run-Splits (r ∷ rs) w d h = Gives-bind (Judges r) _ _ _ w (judge-Judges r w h) (λ s v j.
      Gives-bind (λ rest u. IsSplit file rs rest × Stays u) _ _ _ v
        (classify_run-Splits rs v (later_distinct file r rs d) j.1)
        (λ rest u k. (join-IsSplit file r rs s rest j.0 d k.0, k.1)))
