-- ===== src/Starvation/Removals.antt =====
-- The removals of archive/control-panel/control-panel/django/core/import_starvation.py.
use rawrz.Prelude.{
  ℕ, suc, ◌+◌, ◌≡◌, refl, Bool, true, false, List, [], ◌∷◌, String, length, keep, arith, sym, ◌⊎◌,
  inl, inr, Bool-cases, contains, IsIn, contains-IsIn, contains-other, ◌&&◌, string_eq,
}
use mathlib.Core.Bool.{false≢true}
use rawrz.Prelude.Result
use rawrz.Exec.{◌>>=◌, pure}
use rawrz.Exec.Works.{Gives, Gives-bind}
use rawrz.Starvation.{
  Command, Status, queued, started, ended, is_queued, search_commands, Host, World, Cleared,
  is_search, call, cancel, cancel_all, tally, clear_search_backlog,
}

-- The searches that are removed once they are queued: the bulk searches, and those for a single movie,
-- season, series or for given episodes.
abbrev pub removable_names : List String
removable_names =
    "MoviesSearch" ∷ "MovieSearch" ∷ "MissingMoviesSearch" ∷ "CutoffUnmetMoviesSearch"
    ∷ "MissingEpisodeSearch" ∷ "EpisodeSearch" ∷ "SeasonSearch" ∷ "SeriesSearch"
    ∷ "CutoffUnmetEpisodeSearch" ∷ []

abbrev pub IsRemovable : Command → Type 0
IsRemovable c = (c.status ≡ queued) × IsIn removable_names c.name

-- The ids of the removable commands, in order, and of no other command.
abbrev pub AreIds : List Command → List ℕ → Type 0
AreIds [] ids = ids ≡ []
AreIds (c ∷ cs) ids =
    (IsRemovable c × (rest : List ℕ) × (ids ≡ c.id ∷ rest) × AreIds cs rest)
    ⊎ (¬ IsRemovable c × AreIds cs ids)

abbrev ids_of : List Command → List ℕ
ids_of [] = []
ids_of (c ∷ cs) = c.id ∷ ids_of cs

and_queued : (s : Status) (b : Bool) → (is_queued s && b) ≡ true → (s ≡ queued) × (b ≡ true)
and_queued queued true h = (refl, refl)
and_queued queued false h = absurd (false≢true h)
and_queued started b h = absurd (false≢true h)
and_queued ended b h = absurd (false≢true h)

and_other : (s : Status) (b : Bool) → (is_queued s && b) ≡ false → s ≡ queued → b ≡ false
and_other queued b h e = h
and_other started b h e = cc
and_other ended b h e = cc

is_search-IsRemovable : (c : Command) → is_search c ≡ true → IsRemovable c
is_search-IsRemovable c h =
    let (waits, named) = and_queued c.status (contains search_commands c.name) h in
    (waits, contains-IsIn search_commands c.name named)

is_search-other : (c : Command) → is_search c ≡ false → ¬ IsRemovable c
is_search-other c h (waits, named) =
    contains-other search_commands c.name
      (and_other c.status (contains search_commands c.name) h waits) named

length-ids : (cs : List Command) → length (ids_of cs) ≡ length cs
length-ids [] = refl
length-ids (c ∷ cs) = omega (arith, length-ids cs)

search_ids : (cs : List Command) → AreIds cs (ids_of (keep is_search cs))
search_ids [] = refl
search_ids (c ∷ cs) = elim (Bool-cases (is_search c)) [
  | inl h ↦ rw (h) (inl (is_search-IsRemovable c h, _, refl, search_ids cs))
  | inr h ↦ rw (h) (inr (is_search-other c h, search_ids cs))
]

-- The removals that are recorded after one for each of the ids.
abbrev pub removed : String → List ℕ → List (String × ℕ) → List (String × ℕ)
removed app [] rs = rs
removed app (id ∷ ids) rs = removed app ids ((app, id) ∷ rs)

Tried-more :
    (ok : Bool) (n : ℕ) (r : Cleared)
    → r.cancelled + r.failures ≡ n
    → (tally ok r).cancelled + (tally ok r).failures ≡ suc n
Tried-more true n r h = omega (arith, h)
Tried-more false n r h = omega (arith, h)

module _ (H : Host) where
  -- Of `cs` each one is sent, in order, and is cancelled or fails.
  abbrev Tried : String → List Command → World H → Cleared → World H → Type 0
  Tried app cs w r v =
      (v.removals ≡ removed app (ids_of cs) w.removals) × (r.cancelled + r.failures ≡ length cs)

  cancel_all-Tried :
      (app : String) (cs : List Command) (w : World H)
      → Gives (Tried app cs w) (cancel_all H app cs w)
  unfolding cancel_all pure ◌>>=◌ cancel
  cancel_all-Tried app [] w = (refl, refl)
  cancel_all-Tried app (c ∷ cs) w =
      let (ok, t) = H.cancel app c.id w.net in
      Gives-bind _ _ (cancel_all H app cs) _
        (record { net = t; removals = (app, c.id) ∷ w.removals }) (cancel_all-Tried app cs _)
        (λ r v h. (h.0, Tried-more ok (length cs) r h.1))

  -- After a run that returned `r`: the ids of the removable commands of `cs`, each once and in order,
  -- are those of the removals that were sent.
  abbrev pub Removes : String → List Command → World H → Cleared → World H → Type 0
  Removes app cs w r v =
      (ids : List ℕ) × AreIds cs ids
      × (v.removals ≡ removed app ids w.removals)
      × (r.cancelled + r.failures ≡ r.targeted)
      × (r.targeted ≡ length ids)

  cleared-Removes :
      (app : String) (cs : List Command) (w : World H)
      → Gives (Removes app cs w) (
          (cancel_all H app (keep is_search cs) >>= λ r.
          pure (record r { targeted = length (keep is_search cs) }))
            w)
  unfolding pure
  cleared-Removes app cs w =
      Gives-bind _ _ _ _ w (cancel_all-Tried app (keep is_search cs) w) (λ r v h.
        (ids_of (keep is_search cs), search_ids cs, h.0, h.1, sym (length-ids (keep is_search cs))))

  -- If the app answers `cs` as its commands, the remediation returns. It sends one removal, in order, for
  -- each command of `cs` that is queued and has one of the nine names of `removable_names`, among them the
  -- single-item MovieSearch and EpisodeSearch, and for no other command; and the number cancelled and the
  -- number failed add up to the number targeted, which is that of the removals.
  pub clear_search_backlog-Removes :
      (app : String) (w : World H) (cs : List Command) (t : H.Net)
      → H.commands app w.net ≡ (Result.ok cs, t)
      → Gives (Removes app cs w) (clear_search_backlog H app w)
  unfolding clear_search_backlog ◌>>=◌ call
  clear_search_backlog-Removes app w cs t e =
      rw (e) (cleared-Removes app cs (record { net = t; removals = w.removals }))
