-- ===== src/Search/Verifier/Queue.antt =====
-- `queue_observations` of scripts/search_missing_scoped_core.py: what it finds in a queue.
use rawrz.Prelude.{
  ℕ, sym, ◌∙◌, if◌then◌else◌, ◌≡◌, ◌≢◌, ◌<◌, refl, false, Option, List, [], ◌∷◌, String, length,
  keep,
}
use rawrz.Prelude.{IsIn, inl, inr, ap, ◌⊎◌, none, some, true, Bool, not, false, string_eq, nat_eq}
use rawrz.Prelude.Reflects.{
  Reflects, holds, fails, Some, Picks, and-Reflects, or-Reflects, if-Reflects, not-Reflects,
  same-Reflects, contains-Reflects, eq-Reflects, any-Reflects, keep-Picks,
}
use rawrz.Json.Int.{ℤ, pos, negsuc}
use rawrz.Search.Config.{same_int}
use mathlib.Core.Path.{subst}
use rawrz.Prelude.Result.{Result}
use rawrz.Exec.{done, ◌>>=◌, pure}
use rawrz.Exec.Works.{Gives}
use rawrz.Json.Words.{as_int}
use rawrz.Search.State.{Snapshot}
use rawrz.Search.Engine.{Offender}
use rawrz.Search.Client.{Sonarr, Run, Parsed, QueueRecord, page_size, queue_key, is_empty}
use rawrz.Search.Client.Pages.{Serves, fetch_queue_records-all}
use rawrz.Search.Verifier.{
  Expected, is_expected, offender, titled, agrees, is_null, same_option, command_int, is_download,
  is_int, episode_ids, queue_current, expects, classify, queue_title, is_observed, with_offender,
  parse_and_classify, check_row, check_each, queue_observations,
}

-- The offenders that a judgement finds in a list, in order.
abbrev pub offenders_by : {R : Type 0} → (R → Option Offender) → List R → List Offender
offenders_by f [] = []
offenders_by f (r ∷ rs) = with_offender (f r) (offenders_by f rs)

-- The judgement of a queue record, over what a title parses to.
abbrev pub row_judged : Expected → (String → Result Parsed) → QueueRecord → Option Offender
row_judged E parsed r =
    classify E (queue_title r) (as_int r.series_id) r.download_id false (parsed (queue_title r))

module _ (S : Sonarr) (E : Expected) where
  module _ {R : Type 0} (check : R → Run S (Option Offender)) (f : R → Option Offender)
      (checks : (r : R) (t : S.Net) → (check r t).0 ≡ done (f r)) where
    check_each-exact :
        (rs : List R) (t : S.Net)
        → (t' : S.Net) × (check_each S E check rs t ≡ (done (offenders_by f rs), t'))
    unfolding check_each ◌>>=◌ pure
    check_each-exact [] t = (t, refl)
    check_each-exact (r ∷ rs) t =
        let rest = check_each-exact rs (check r t).1 in (rest.0, rw (checks r t, rest.1) refl)

  check_row-exact :
      (parsed : String → Result Parsed)
      → ((title : String) (t : S.Net) → (S.parse title t).0 ≡ parsed title)
      → (r : QueueRecord) (t : S.Net) → (check_row S E r t).0 ≡ done (row_judged E parsed r)
  unfolding check_row parse_and_classify
  check_row-exact parsed h r t = rw (h (queue_title r) t) refl

-- A number that is one of the ids.
abbrev pub IsOneOf : List ℕ → Option ℤ → Type 0
IsOneOf ids z = (n : ℕ) × (z ≡ some (pos n)) × IsIn ids n

-- A queue record belongs to the command: by its own command id if it has one; else by a download that
-- the history has, by an episode that was searched for, by the series if it names no episode, or since
-- its series cannot be read.
abbrev pub ByContents : Expected → List String → QueueRecord → Type 0
ByContents E downloads r =
    ((((d : String) × (r.download_id ≡ some d) × IsIn downloads d)
        ⊎ Some (IsOneOf E.episodes) (episode_ids r))
      ⊎ ((episode_ids r ≡ []) × IsOneOf E.series (as_int r.series_id)))
    ⊎ (as_int r.series_id ≡ none)

abbrev pub Belongs : Expected → List String → Option ℕ → QueueRecord → Type 0
Belongs E downloads command r =
    ((is_null r.command_id ≡ true) × ByContents E downloads r)
    ⊎ ((is_null r.command_id ≡ false) × (as_int r.command_id ≡ command_int command))

-- It was not in the queue before, and belongs to the command.
abbrev pub IsObserved : Expected → Snapshot → List String → Option ℕ → QueueRecord → Type 0
IsObserved E s downloads command r =
    ¬ IsIn s.before_ids (queue_key r) × Belongs E downloads command r

same_int-Reflects : (a b : ℤ) → Reflects (a ≡ b) (same_int a b)
same_int-Reflects (pos m) (pos n) = same-Reflects (λ e. ap pos e) (λ e. cc) (eq-Reflects m n)
same_int-Reflects (negsuc m) (negsuc n) =
    same-Reflects (λ e. ap negsuc e) (λ e. cc) (eq-Reflects m n)
same_int-Reflects (pos m) (negsuc n) = fails (λ e. cc)
same_int-Reflects (negsuc m) (pos n) = fails (λ e. cc)

same_option-Reflects : (a b : Option ℤ) → Reflects (a ≡ b) (same_option a b)
same_option-Reflects none none = holds refl
same_option-Reflects (some a) none = fails (λ e. cc)
same_option-Reflects none (some b) = fails (λ e. cc)
same_option-Reflects (some a) (some b) =
    same-Reflects (λ e. ap some e) (λ e. cc) (same_int-Reflects a b)

same_id : (n m : ℕ) → some (pos n) ≡ some (pos m) → m ≡ n
same_id n m e = cc

same_text : (d f : String) → some d ≡ some f → f ≡ d
same_text d f e = cc

expects-Reflects : (ids : List ℕ) (z : Option ℤ) → Reflects (IsOneOf ids z) (expects ids z)
expects-Reflects ids (some (pos n)) =
    same-Reflects (λ k. (n, refl, k)) (λ k. found n k.0 k.1 k.2) (contains-Reflects ids n)
  where
    found : (n m : ℕ) → some (pos n) ≡ some (pos m) → IsIn ids m → IsIn ids n
    found n m e k = subst (IsIn ids) (same_id n m e) k
expects-Reflects ids (some (negsuc n)) = fails (λ k. ne k.0 k.1)
  where
    ne : (m : ℕ) → some (negsuc n) ≡ some (pos m) → ⊥
    ne m e = cc
expects-Reflects ids none = fails (λ k. ne k.0 k.1)
  where
    ne : (m : ℕ) → none ≡ some (pos m) → ⊥
    ne m e = cc

is_download-Reflects :
    (keys : List String) (o : Option String)
    → Reflects ((d : String) × (o ≡ some d) × IsIn keys d) (is_download keys o)
is_download-Reflects keys none = fails (λ k. ne k.0 k.1)
  where
    ne : (d : String) → none ≡ some d → ⊥
    ne d e = cc
is_download-Reflects keys (some d) =
    same-Reflects (λ k. (d, refl, k)) (λ k. found k.0 k.1 k.2) (contains-Reflects keys d)
  where
    found : (f : String) → some d ≡ some f → IsIn keys f → IsIn keys d
    found f e k = subst (IsIn keys) (same_text d f e) k

is_empty-Reflects : (xs : List (Option ℤ)) → Reflects (xs ≡ []) (is_empty xs)
is_empty-Reflects [] = holds refl
is_empty-Reflects (x ∷ xs) = fails (λ e. cc)

unread-Reflects : (z : Option ℤ) → Reflects (z ≡ none) (not (is_int z))
unread-Reflects none = holds refl
unread-Reflects (some z) = fails (λ e. cc)

is_observed-Reflects :
    (E : Expected) (s : Snapshot) (downloads : List String) (command : Option ℕ) (r : QueueRecord)
    → Reflects (IsObserved E s downloads command r) (is_observed E s downloads command r)
unfolding is_observed queue_current
is_observed-Reflects E s downloads command r =
    and-Reflects (not-Reflects (contains-Reflects s.before_ids (queue_key r))) (
      if-Reflects (is_null r.command_id)
        (or-Reflects
          (or-Reflects
            (or-Reflects (is_download-Reflects downloads r.download_id) (
              any-Reflects (expects E.episodes) (IsOneOf E.episodes) (expects-Reflects E.episodes)
                (episode_ids r)))
            (and-Reflects (is_empty-Reflects (episode_ids r))
              (expects-Reflects E.series (as_int r.series_id))))
          (unread-Reflects (as_int r.series_id)))
        (same_option-Reflects (as_int r.command_id) (command_int command)))

-- A title that parses to `p` is that of what was searched for: it has episodes, its series was searched
-- for, and it is the one that is reported.
abbrev pub Suits : Expected → Parsed → Option ℤ → Type 0
Suits E p reported =
    ((p.has_episodes ≡ true) × IsOneOf E.series (as_int p.series_id))
    × ((reported ≢ none) × (reported ≡ as_int p.series_id))

-- The title of the record is proven to be what was searched for.
abbrev pub IsProven : Expected → (String → Result Parsed) → QueueRecord → Type 0
IsProven E parsed r =
    (p : Parsed) × (parsed (queue_title r) ≡ Result.ok p) × Suits E p (as_int r.series_id)

-- The offenders are those of the records that are not proven, in order.
abbrev pub Flags : Expected → (String → Result Parsed) → List QueueRecord → List Offender → Type 0
Flags E parsed [] os = os ≡ []
Flags E parsed (r ∷ rs) os =
    (IsProven E parsed r × Flags E parsed rs os)
    ⊎ (¬ IsProven E parsed r
        × (o : Offender) × (rest : List Offender) × (os ≡ o ∷ rest)
        × (o.title ≡ queue_title r)
        × (o.download_id ≡ r.download_id)
        × Flags E parsed rs rest)

agrees-Reflects :
    (E : Expected) (reported parsed : Option ℤ)
    → Reflects ((reported ≢ none) × (reported ≡ parsed)) (agrees E reported parsed false)
agrees-Reflects E none parsed = fails (λ k. k.0 refl)
agrees-Reflects E (some z) parsed =
    same-Reflects (λ e. ((λ k. cc), e)) (λ k. k.1) (same_option-Reflects (some z) parsed)

true-Reflects : (b : Bool) → Reflects (b ≡ true) b
true-Reflects true = holds refl
true-Reflects false = fails (λ e. cc)

is_expected-Reflects :
    (E : Expected) (p : Parsed) (reported : Option ℤ)
    → Reflects (Suits E p reported) (is_expected E p reported false)
unfolding is_expected
is_expected-Reflects E p reported =
    and-Reflects
      (and-Reflects (true-Reflects p.has_episodes) (expects-Reflects E.series (as_int p.series_id)))
      (agrees-Reflects E reported (as_int p.series_id))

not_both : (x : String) (p : Parsed) → Result.err x ≡ Result.ok p → ⊥
not_both x p e = cc

same_parse : (p q : Parsed) → Result.ok p ≡ Result.ok q → q ≡ p
same_parse p q e = cc

module _ (E : Expected) (parsed : String → Result Parsed) where
  judged_step :
      (r : QueueRecord) (rs : List QueueRecord) (os : List Offender) (a : Result Parsed)
      → parsed (queue_title r) ≡ a
      → Flags E parsed rs os
      → Flags E parsed
          (r ∷ rs)
          (with_offender (classify E (queue_title r) (as_int r.series_id) r.download_id false a) os)
  unfolding classify
  judged_step r rs os (Result.err x) e h =
      inr ((λ k. not_both x k.0 (sym e ∙ k.1)), _, _, refl, refl, refl, h)
  judged_step r rs os (Result.ok p) e h = by_test _ (is_expected-Reflects E p (as_int r.series_id))
    where
      o : Offender
      o = offender E r.download_id (queue_title r) (as_int r.series_id) (titled p.series_title)

      by_test :
          (b : Bool)
          → Reflects (Suits E p (as_int r.series_id)) b
          → Flags E parsed (r ∷ rs) (with_offender (if b then none else some o) os)
      by_test true (holds k) = inl ((p, e, k), h)
      by_test false (fails n) = inr (
        (λ k. n (subst (λ q. Suits E q (as_int r.series_id)) (same_parse p k.0 (sym e ∙ k.1)) k.2)),
        o,
        os,
        refl,
        refl,
        refl,
        h,
      )

  judged-Flags : (rs : List QueueRecord) → Flags E parsed rs (offenders_by (row_judged E parsed) rs)
  judged-Flags [] = refl
  judged-Flags (r ∷ rs) = judged_step r rs _ (parsed (queue_title r)) refl (judged-Flags rs)

-- What the observations of a queue are: how many of its records were not there before and belong to the
-- command, and the offenders, which are for those of them whose title is not proven.
abbrev pub AreObserved :
    Expected
    → Snapshot
    → List String
    → Option ℕ
    → (String → Result Parsed)
    → List QueueRecord
    → ℕ × List Offender
    → Type 0
AreObserved E s downloads command parsed xs (count, os) =
    (observed : List QueueRecord) × Picks (IsObserved E s downloads command) xs observed
    × (count ≡ length observed)
    × Flags E parsed observed os

-- Against a server that pages a fixed queue and parses a title always in the same way, the verification of
-- the queue returns. It counts the records of the whole queue whose key was not in the snapshot and that
-- belong to the command (by the command id, or without one by a download of the history, an episode, the
-- series, or as they name no series), and it has an offender, in order, for exactly those of them whose
-- title is not proven to parse to episodes of a searched series that is also the reported one.
pub queue_observations-exact :
    (S : Sonarr) (E : Expected) (xs : List QueueRecord)
    → Serves S S.queue page_size xs
    → (parsed : String → Result Parsed)
    → ((title : String) (t : S.Net) → (S.parse title t).0 ≡ parsed title)
    → (fuel : ℕ) (s : Snapshot) (downloads : List String) (command : Option ℕ) (t : S.Net)
    → length xs < fuel
    → Gives
        (λ seen t'. AreObserved E s downloads command parsed xs seen)
        (queue_observations S E fuel s downloads command t)
unfolding queue_observations ◌>>=◌ pure
queue_observations-exact S E xs server parsed h fuel s downloads command t f =
    let fetched = fetch_queue_records-all S xs server fuel t f in
    let observed = keep (is_observed E s downloads command) xs in
    let checked =
      check_each-exact S E (check_row S E) (row_judged E parsed) (check_row-exact S E parsed h)
        observed fetched.0 in
    rw (fetched.1, checked.1)
      (
        observed,
        keep-Picks (is_observed E s downloads command) (IsObserved E s downloads command)
            (is_observed-Reflects E s downloads command) xs,
        refl,
        judged-Flags E parsed observed,
      )
