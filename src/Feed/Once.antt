-- ===== src/Feed/Once.antt =====
-- scripts/activity_feed.py: the log has each record once.
use mathlib.Core.Path.{subst}
use mathlib.Core.List.{append_assoc}
use native.Mathlib.Nat.{le_trans}
use rawrz.Prelude.{
  ℕ, zero, suc, ◌≤◌, ◌<◌, ◌≡◌, refl, sym, ◌∙◌, Bool, true, false, Option, none, some, List, [],
  ◌++◌, All, Pairs, All-append, All-map, All-both, Pairs-join, arith,
}
use rawrz.Feed.{
  App, radarr, sonarr, Record, State, Entry, Imports, is_set, value, advance_cursor, oldest_first,
  process, new_records, backfill_cutoff,
}
use rawrz.Feed.Fresh.{
  Apart, After, Upto, keep-All, keep-Pairs, new_records-All, new_records-Pairs, new_records-After,
  advance_cursor-Upto, Of, process-All, Different, process-Pairs, oldest_first-All,
  oldest_first-Pairs,
}
use rawrz.Feed.Poll.{Polled, cursor_of, with_cursor, fresh_of, base_of, take_in}

-- The id of the entry, if it has one, is positive and not later than the cursor of its app.
abbrev pub In : State → Entry → Type 0
In s e = (k : ℕ) → e.record_of.id ≡ some k → (1 ≤ k) × (k ≤ value (cursor_of e.app s))

-- No two entries are of one record, and the cursors are past all of them.
pub record Logged (s : State) (es : List Entry) : Type 0 where
  pub different : Pairs Different es
  pub passed : All (In s) es

-- Each record is there once, and its id is positive.
pub record IsHistory (rs : List Record) : Type 0 where
  pub apart : Pairs Apart rs
  pub positive : All (After 0) rs

cursor_grows :
    (app other : App) (s : State) (c : Option ℕ)
    → value (cursor_of app s) ≤ value c
    → value (cursor_of other s) ≤ value (cursor_of other (with_cursor app c s))
cursor_grows radarr radarr s c h = h
cursor_grows radarr sonarr s c h = omega arith
cursor_grows sonarr radarr s c h = omega arith
cursor_grows sonarr sonarr s c h = h

cursor_set : (app : App) (s : State) (c : Option ℕ) → cursor_of app (with_cursor app c s) ≡ c
cursor_set radarr s c = refl
cursor_set sonarr s c = refl

unset-value : (o : Option ℕ) → is_set o ≡ false → value o ≡ 0
unset-value none h = refl
unset-value (some zero) h = refl
unset-value (some (suc n)) h = cc

set-some : (o : Option ℕ) → is_set o ≡ true → o ≡ some (value o)
set-some none h = cc
set-some (some n) h = refl

fresh-Apart :
    (b : Bool) (now : ℕ) (c : Option ℕ) (rs : List Record)
    → Pairs Apart rs
    → Pairs Apart (fresh_of b now c rs)
unfolding backfill_cutoff
fresh-Apart true now c rs h = new_records-Pairs Apart c [] rs h
fresh-Apart false now c rs h = keep-Pairs Apart _ rs h

fresh-All :
    (P : Record → Type 0) (b : Bool) (now : ℕ) (c : Option ℕ) (rs : List Record)
    → All P rs
    → All P (fresh_of b now c rs)
unfolding backfill_cutoff
fresh-All P true now c rs h = new_records-All P c [] rs h
fresh-All P false now c rs h = keep-All P _ rs h

-- The fresh records are later than the cursor that was.
fresh-After :
    (b : Bool) (now : ℕ) (c : Option ℕ) (rs : List Record)
    → is_set c ≡ b
    → All (After 0) rs
    → All (After (value c)) (fresh_of b now c rs)
fresh-After true now c rs e h =
    subst (λ o. All (After (value c)) (new_records o [] rs)) (sym (set-some c e))
      (new_records-After (value c) [] rs)
fresh-After false now c rs e h =
    subst (λ n. All (After n) (fresh_of false now c rs)) (sym (unset-value c e))
      (fresh-All (After 0) false now c rs h)

base-value :
    (b : Bool) (c : Option ℕ) (rs : List Record) → is_set c ≡ b → value c ≤ value (base_of b c rs)
base-value true c rs e = omega arith
base-value false c rs e = let z = unset-value c e in omega (arith, z)

later_state :
    (s s' : State) (es : List Entry)
    → ((app : App) → value (cursor_of app s) ≤ value (cursor_of app s'))
    → All (In s) es
    → All (In s') es
later_state s s' es g h =
    All-map (In s) (In s') es (λ e i k q. let j = i k q in (j.0, omega (arith, j.1, g e.app))) h

module _ (app : App) (s s' : State) (fresh : List Record) (imports : Imports) (old : List Entry)
    (rises : (other : App) → value (cursor_of other s) ≤ value (cursor_of other s'))
    (apart : Pairs Apart fresh) (positive : All (After 0) fresh)
    (after : All (After (value (cursor_of app s))) fresh)
    (upto : All (Upto (value (cursor_of app s'))) fresh) where
  new-In : All (In s') (process app imports fresh).1
  new-In =
      All-map (Of (λ r. After 0 r × Upto (value (cursor_of app s')) r) app) (In s') _
        (λ e o k q. (first k (o.1.0 k q), rw (o.0) (o.1.1 k q)))
        (process-All (λ r. After 0 r × Upto (value (cursor_of app s')) r) app imports fresh
          (All-both (After 0) (Upto (value (cursor_of app s'))) fresh positive upto))
    where
      first : (k : ℕ) → 0 < k → 1 ≤ k
      first k h = omega (arith, h)

  apart_from_old :
      (e f : Entry) → In s e → Of (After (value (cursor_of app s))) app f → Different e f
  apart_from_old e f i o same k q r =
      let below = subst (λ a. k ≤ value (cursor_of a s)) (same ∙ o.0) (i k q).1 in
      let above = o.1 k r in omega (arith, below, above)

  old-cross : All (In s) old → All (λ e. All (Different e) (process app imports fresh).1) old
  old-cross h =
      All-map (In s) (λ e. All (Different e) (process app imports fresh).1) old
        (λ e i.
          All-map (Of (After (value (cursor_of app s))) app) (Different e) _
            (λ f o. apart_from_old e f i o)
            (process-All (After (value (cursor_of app s))) app imports fresh after))
        h

  -- The entries of fresh records are added to those that are there.
  add-Logged : Logged s old → Logged s' (old ++ (process app imports fresh).1)
  add-Logged h = record {
    different =
        Pairs-join Different old _ h.different (process-Pairs app imports fresh apart)
          (old-cross h.passed);
    passed = All-append (In s') old _ (later_state s s' old rises h.passed) new-In;
  }

-- The state of an app that was taken in.
abbrev taken : App → Option ℕ → Imports → State → State
taken app c imports s = record (with_cursor app c s) { last_import = imports }

taken-cursor :
    (app other : App) (s : State) (c : Option ℕ) (imports : Imports)
    → cursor_of other (taken app c imports s) ≡ cursor_of other (with_cursor app c s)
taken-cursor app radarr s c imports = refl
taken-cursor app sonarr s c imports = refl

reached-Logged :
    (app : App) (s : State) (c : Option ℕ) (kept : Imports) (fresh : List Record)
    (imports : Imports) (old : List Entry)
    → value (cursor_of app s) ≤ value c
    → Pairs Apart fresh
    → All (After 0) fresh
    → All (After (value (cursor_of app s))) fresh
    → All (Upto (value c)) fresh
    → Logged s old
    → Logged (taken app c kept s) (old ++ (process app imports fresh).1)
reached-Logged app s c kept fresh imports old rises apart positive after upto h =
    add-Logged app s (taken app c kept s) fresh imports old
      (λ other.
        subst (λ o. value (cursor_of other s) ≤ value o) (sym (taken-cursor app other s c kept))
          (cursor_grows app other s c rises))
      apart positive after
      (subst (λ o. All (Upto (value o)) fresh)
        (sym (taken-cursor app app s c kept ∙ cursor_set app s c)) upto)
      h

pub take_in-Logged :
    (app : App) (now : ℕ) (rs : List Record) (p : Polled) (old : List Entry)
    → IsHistory rs
    → Logged p.state (old ++ p.entries)
    → Logged (take_in app now rs p).state (old ++ (take_in app now rs p).entries)
unfolding take_in
take_in-Logged app now rs p old good h =
    let c = cursor_of app p.state in
    let fresh = oldest_first (fresh_of (is_set c) now c rs) in
    let c' = advance_cursor (base_of (is_set c) c rs) fresh in
    let up = advance_cursor-Upto (base_of (is_set c) c rs) fresh in
    rw (← append_assoc old p.entries (process app p.state.last_import fresh).1) (
      reached-Logged app p.state c' (process app p.state.last_import fresh).0 fresh
        p.state.last_import (old ++ p.entries) (le_trans (base-value (is_set c) c rs refl) up.0)
        (oldest_first-Pairs _ (fresh-Apart (is_set c) now c rs good.apart))
        (oldest_first-All (After 0) _ (fresh-All (After 0) (is_set c) now c rs good.positive))
        (oldest_first-All (After (value c)) _ (fresh-After (is_set c) now c rs refl good.positive))
        up.1 h)
