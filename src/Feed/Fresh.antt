-- ===== src/Feed/Fresh.antt =====
-- scripts/activity_feed.py: what is taken in from the history of an app.
use rawrz.Prelude.{
  ℕ, ◌≤◌, ◌<◌, ◌≡◌, refl, inl, inr, Bool, true, false, ◌||◌, Option, none, some, List, [], ◌∷◌,
  keep, any, All, Pairs, arith, if◌then◌else◌, Bool-cases, nat_eq,
}
use rawrz.Prelude.Sorting.{All-sort, sort-Pairs}
use rawrz.Feed.{
  App, Record, Entry, FeedKind, Imports, is_new, with_id, new_records, higher, highest, value,
  has_id, is_there, advance_cursor, oldest_first, no_later, entered, process, update, item_key,
}

-- The two records have no id in common.
abbrev pub Apart : Record → Record → Type 0
Apart a b = (k : ℕ) → a.id ≡ some k → b.id ≡ some k → ⊥

Apart-flip : (a b : Record) → Apart a b → Apart b a
Apart-flip a b h k e f = h k f e

-- The id of the record, if it has one, is later than `low` and not later than `high`.
abbrev pub Within : ℕ → ℕ → Record → Type 0
Within low high r = (k : ℕ) → r.id ≡ some k → (low < k) × (k ≤ high)

-- The id of the record, if it has one, is later than `low`.
abbrev pub After : ℕ → Record → Type 0
After low r = (k : ℕ) → r.id ≡ some k → low < k

module _ {κ} (P : Record → Type κ) where
  All_if :
      (b : Bool) (r : Record) (rs : List Record) → P r → All P rs → All P (if b then r ∷ rs else rs)
  All_if true r rs h hs = (h, hs)
  All_if false r rs h hs = hs

  pub keep-All : (p : Record → Bool) (rs : List Record) → All P rs → All P (keep p rs)
  keep-All p [] h = tt
  keep-All p (r ∷ rs) h = All_if (p r) r (keep p rs) h.0 (keep-All p rs h.1)

  pub new_records-All :
      (cursor : Option ℕ) (seen : List ℕ) (rs : List Record)
      → All P rs
      → All P (new_records cursor seen rs)
  unfolding new_records
  new_records-All cursor seen [] h = tt
  new_records-All cursor seen (r ∷ rs) h =
      All_if (is_new cursor seen r.id) r _ h.0 (new_records-All cursor (with_id r.id seen) rs h.1)

module _ (R : Record → Record → Type 0) where
  Pairs-if :
      (b : Bool) (r : Record) (rs : List Record)
      → All (R r) rs
      → Pairs R rs
      → Pairs R (if b then r ∷ rs else rs)
  Pairs-if true r rs h hs = (h, hs)
  Pairs-if false r rs h hs = hs

  pub keep-Pairs : (p : Record → Bool) (rs : List Record) → Pairs R rs → Pairs R (keep p rs)
  keep-Pairs p [] h = tt
  keep-Pairs p (r ∷ rs) h =
      Pairs-if (p r) r (keep p rs) (keep-All (R r) p rs h.0) (keep-Pairs p rs h.1)

  pub new_records-Pairs :
      (cursor : Option ℕ) (seen : List ℕ) (rs : List Record)
      → Pairs R rs
      → Pairs R (new_records cursor seen rs)
  unfolding new_records
  new_records-Pairs cursor seen [] h = tt
  new_records-Pairs cursor seen (r ∷ rs) h =
      Pairs-if (is_new cursor seen r.id) r _
        (new_records-All (R r) cursor (with_id r.id seen) rs h.0)
        (new_records-Pairs cursor (with_id r.id seen) rs h.1)

All_known :
    (P : Record → Type 0) (b : Bool) (r : Record) (rs : List Record)
    → (b ≡ true → P r)
    → All P rs
    → All P (if b then r ∷ rs else rs)
All_known P true r rs h hs = (h refl, hs)
All_known P false r rs h hs = hs

is_new-After :
    (last : ℕ) (seen : List ℕ) (o : Option ℕ) (k : ℕ)
    → is_new (some last) seen o ≡ true
    → o ≡ some k
    → last < k
is_new-After last seen none k h e = absurd (ground (arith, h))
is_new-After last seen (some id) k h e = ground (arith, h, e)

-- The new records are later than the cursor.
pub new_records-After :
    (last : ℕ) (seen : List ℕ) (rs : List Record)
    → All (After last) (new_records (some last) seen rs)
unfolding new_records
new_records-After last seen [] = tt
new_records-After last seen (r ∷ rs) =
    All_known (After last) (is_new (some last) seen r.id) r _
      (λ h k e. is_new-After last seen r.id k h e) (new_records-After last (with_id r.id seen) rs)

-- The id of the record, if it has one, is not later than `high`.
abbrev pub Upto : ℕ → Record → Type 0
Upto high r = (k : ℕ) → r.id ≡ some k → k ≤ high

higher_ge : (best : ℕ) (o : Option ℕ) → best ≤ higher best o
higher_ge best none = omega arith
higher_ge best (some id) = omega arith

highest_ge : (best : ℕ) (rs : List Record) → best ≤ highest best rs
unfolding highest
highest_ge best [] = omega arith
highest_ge best (r ∷ rs) = omega (arith, higher_ge best r.id, highest_ge (higher best r.id) rs)

higher_id : (best k : ℕ) (o : Option ℕ) → o ≡ some k → k ≤ higher best o
higher_id best k none e = cc
higher_id best k (some id) e = ground (arith, e)

highest-Upto : (best : ℕ) (rs : List Record) → All (Upto (highest best rs)) rs
unfolding highest
highest-Upto best [] = tt
highest-Upto best (r ∷ rs) = (
  λ k e. omega (arith, higher_id best k r.id e, highest_ge (higher best r.id) rs),
  highest-Upto (higher best r.id) rs,
)

is_there_not : (o : Option ℕ) (k : ℕ) (rest : Bool) → (is_there o || rest) ≡ false → o ≡ some k → ⊥
is_there_not none k rest h e = cc
is_there_not (some id) k rest h e = cc

is_there_rest : (o : Option ℕ) (rest : Bool) → (is_there o || rest) ≡ false → rest ≡ false
is_there_rest none rest h = h
is_there_rest (some id) rest h = cc

no_ids-Upto : (high : ℕ) (rs : List Record) → any has_id rs ≡ false → All (Upto high) rs
no_ids-Upto high [] h = tt
no_ids-Upto high (r ∷ rs) h = (
  λ k e. absurd (is_there_not r.id k (any has_id rs) h e),
  no_ids-Upto high rs (is_there_rest r.id (any has_id rs) h),
)

-- The advanced cursor is no earlier, and no record is later than it.
pub advance_cursor-Upto :
    (cursor : Option ℕ) (rs : List Record)
    → (value cursor ≤ value (advance_cursor cursor rs))
      × All (Upto (value (advance_cursor cursor rs))) rs
unfolding advance_cursor
advance_cursor-Upto cursor rs = elim (Bool-cases (any has_id rs)) [
  | inl e ↦ rw e (highest_ge (value cursor) rs, highest-Upto (value cursor) rs)
  | inr e ↦ rw e (omega arith, no_ids-Upto (value cursor) rs e)
]

-- What holds of the records holds of the entries, which are those of the app.
abbrev pub Of : (Record → Type 0) → App → Entry → Type 0
Of P app e = (e.app ≡ app) × P e.record_of

entered-All :
    (P : Record → Type 0) (app : App) (r : Record) (o : Option FeedKind) (es : List Entry)
    → P r
    → All (Of P app) es
    → All (Of P app) (entered app r o es)
entered-All P app r none es h hs = hs
entered-All P app r (some kind) es h hs = ((refl, h), hs)

pub process-All :
    (P : Record → Type 0) (app : App) (imports : Imports) (rs : List Record)
    → All P rs
    → All (Of P app) (process app imports rs).1
unfolding process
process-All P app imports [] h = tt
process-All P app imports (r ∷ rs) h =
    entered-All P app r _ _ h.0
      (process-All P app (update r.event (item_key app r) r.id imports) rs h.1)

-- Two entries of one app are not of one record.
abbrev pub Different : Entry → Entry → Type 0
Different a b = a.app ≡ b.app → Apart a.record_of b.record_of

all-Different :
    (app : App) (r : Record) (kind : FeedKind) (es : List Entry)
    → All (Of (Apart r) app) es
    → All (Different (record { app = app; kind = kind; record_of = r })) es
all-Different app r kind [] h = tt
all-Different app r kind (e ∷ es) h = ((λ q. h.0.1), all-Different app r kind es h.1)

entered-Pairs :
    (app : App) (r : Record) (o : Option FeedKind) (es : List Entry)
    → All (Of (Apart r) app) es
    → Pairs Different es
    → Pairs Different (entered app r o es)
entered-Pairs app r none es h hs = hs
entered-Pairs app r (some kind) es h hs = (all-Different app r kind es h, hs)

pub process-Pairs :
    (app : App) (imports : Imports) (rs : List Record)
    → Pairs Apart rs
    → Pairs Different (process app imports rs).1
unfolding process
process-Pairs app imports [] h = tt
process-Pairs app imports (r ∷ rs) h =
    entered-Pairs app r _ _
      (process-All (Apart r) app (update r.event (item_key app r) r.id imports) rs h.0)
      (process-Pairs app (update r.event (item_key app r) r.id imports) rs h.1)

pub oldest_first-All : (P : Record → Type 0) (rs : List Record) → All P rs → All P (oldest_first rs)
unfolding oldest_first
oldest_first-All P rs h = All-sort no_later P rs h

pub oldest_first-Pairs : (rs : List Record) → Pairs Apart rs → Pairs Apart (oldest_first rs)
unfolding oldest_first
oldest_first-Pairs rs h = sort-Pairs no_later Apart Apart-flip rs h
