-- ===== src/Search/Client/History.antt =====
-- `fetch_grab_history` of scripts/search_missing_scoped_core.py, against a server that pages a fixed
-- history, the newest grabs first.
use mathlib.Core.List.{append_assoc, append-nil}
use rawrz.Prelude.{
  ℕ, zero, suc, ◌+◌, ◌*◌, ◌≤◌, ◌<◌, ◌≡◌, refl, sym, ap, ◌∙◌, ◌⊎◌, inl, inr, Bool, true, false, ◌||◌,
  not, Option, none, some, List, [], ◌∷◌, ◌++◌, String, length, take, drop, keep, all, All, Pairs,
  arith, Bool-cases, take-drop, length-drop, keep-append, drop-all,
}
use mathlib.Core.Path.{subst}
use rawrz.Exec.{Outcome, done, ◌>>=◌, pure}
use rawrz.Json.Int.{ℤ}
use rawrz.Search.Client.{
  Sonarr, HistoryRecord, page_size, total_records, reached, is_empty, is_met, is_record, grab_key,
  key_leb, after_page, history_from, fetch_grab_history,
}
use rawrz.Search.Client.Pages.{
  Serves, drop-next, stop_or_on, nil_of_length, empty_take, nonempty_length,
}

abbrev Mark : Type 0
Mark = String × ℤ

-- The grab is newer than the watermark.
abbrev pub is_newer : Mark → HistoryRecord → Bool
is_newer mark r = not (key_leb (grab_key r) mark)

-- After a grab that is no newer than the watermark there is none that is newer.
abbrev pub NewestFirst : Mark → List HistoryRecord → Type 0
NewestFirst mark =
    Pairs (λ a b. key_leb (grab_key a) mark ≡ true → key_leb (grab_key b) mark ≡ true)

none_newer :
    (mark : Mark) (rs : List HistoryRecord)
    → All (λ r. key_leb (grab_key r) mark ≡ true) rs
    → keep (is_newer mark) rs ≡ []
none_newer mark [] h = refl
none_newer mark (r ∷ rs) h = rw h.0 (none_newer mark rs h.1)

All-apply :
    (mark : Mark) (a : HistoryRecord) (rs : List HistoryRecord)
    → key_leb (grab_key a) mark ≡ true
    → All (λ b. key_leb (grab_key a) mark ≡ true → key_leb (grab_key b) mark ≡ true) rs
    → All (λ r. key_leb (grab_key r) mark ≡ true) rs
All-apply mark a [] e h = tt
All-apply mark a (r ∷ rs) e h = (h.0 e, All-apply mark a rs e h.1)

All-right {κ} :
    (P : HistoryRecord → Type κ) (xs ys : List HistoryRecord) → All P (xs ++ ys) → All P ys
All-right P [] ys h = h
All-right P (x ∷ xs) ys h = All-right P xs ys h.1

Pairs-right {κ} :
    (Q : HistoryRecord → HistoryRecord → Type κ) (xs ys : List HistoryRecord)
    → Pairs Q (xs ++ ys)
    → Pairs Q ys
Pairs-right Q [] ys h = h
Pairs-right Q (x ∷ xs) ys h = Pairs-right Q xs ys h.1

all-head :
    (p : HistoryRecord → Bool) (r : HistoryRecord) (rs : List HistoryRecord)
    → all p (r ∷ rs) ≡ true
    → p r ≡ true
all-head p r rs h = ground (arith, h)

-- A page whose grabs are all no newer than the watermark has none that is newer after it.
met_rest :
    (mark : Mark) (page after : List HistoryRecord)
    → is_met (some mark) page ≡ true
    → NewestFirst mark (page ++ after)
    → keep (is_newer mark) after ≡ []
unfolding is_met
met_rest mark [] after h s = absurd (ground (arith, h))
met_rest mark (r ∷ rs) after h s = none_newer mark after (
    All-right _ rs after
      (All-apply mark r (rs ++ after) (all-head (λ r. key_leb (grab_key r) mark) r rs h) s.0))

grabs_split :
    (size : ℕ) (rest : List HistoryRecord)
    → keep is_record rest ≡ keep is_record (take size rest) ++ keep is_record (drop size rest)
grabs_split size rest =
    ap (keep is_record) (sym (take-drop size rest))
    ∙ keep-append is_record (take size rest) (drop size rest)

-- Whatever stops the loop, the pages that were not read have no newer grab.
stopped_rest :
    (mark : Mark) (rest ys : List HistoryRecord) (size seen_to : ℕ) (total : Option ℕ)
    → 1 ≤ size
    → (total ≡ none) ⊎ (total ≡ some (length ys))
    → drop size rest ≡ drop seen_to ys
    → NewestFirst mark (keep is_record (take size rest) ++ keep is_record (drop size rest))
    → (is_met (some mark) (keep is_record (take size rest))
        || is_empty (take size rest)
        || reached total seen_to)
      ≡ true
    → keep (is_newer mark) (keep is_record (drop size rest)) ≡ []
stopped_rest mark rest ys size seen_to total l t d s h =
    elim (Bool-cases (is_met (some mark) (keep is_record (take size rest)))) [
      | inl met ↦ met_rest mark (keep is_record (take size rest)) _ met s
      | inr unmet ↦ elim (Bool-cases (is_empty (take size rest))) [
        | inl none_left ↦
            let gone = ap length (empty_take size rest l none_left) in
            rw (nil_of_length (drop size rest) (omega (arith, length-drop size rest, gone))) refl
        | inr some_left ↦ elim t [
          | inl unknown ↦ absurd (ground (arith, unmet, some_left, unknown, h))
          | inr known ↦
              rw (d ∙ drop-all seen_to ys (ground (arith, unmet, some_left, known, h))) refl
        ]
      ]
    ]

-- What is left after a page that is not empty is shorter.
fewer :
    (size : ℕ) (rest : List HistoryRecord)
    → is_empty (take size rest) ≡ false
    → length (drop size rest) < length rest
fewer size rest h = omega (arith, nonempty_length (take size rest) h, length-drop size rest)

right_off : (a b : Bool) → (a || b) ≡ false → b ≡ false
right_off a b h = ground arith

module _ (S : Sonarr) (ys : List HistoryRecord) (s : Serves S S.history page_size ys)
    (mark : Mark) where
  abbrev grabs_of : ℕ → S.Net → List HistoryRecord
  grabs_of n t = keep is_record (s.page n t).records

  abbrev stops : ℕ → S.Net → Bool
  stops n t =
      is_met (some mark) (grabs_of n t)
      || is_empty (s.page n t).records
      || reached (total_records (s.page n t).total) ((n + 1) * page_size)

  history_from-step :
      (fuel n : ℕ) (seen : List HistoryRecord) (t : S.Net)
      → history_from S (some mark) false (suc fuel) (n + 1) seen t
        ≡ after_page S
            (stops n t)
            (seen ++ grabs_of n t)
            (history_from S (some mark) false fuel (n + 1 + 1) (seen ++ grabs_of n t))
            (S.history (n + 1) page_size t).1
  unfolding history_from ◌>>=◌ pure
  history_from-step fuel n seen t = rw (s.answers n t)

  -- The loop returned, and it has the newer ones among `all`.
  pub record Complete (all : List HistoryRecord) (r : Outcome (List HistoryRecord) × S.Net)
      : Type 0 where
    pub found : List HistoryRecord
    pub world : S.Net
    pub returned : r ≡ (done found, world)
    pub newer : keep (is_newer mark) found ≡ keep (is_newer mark) all

  stop-Complete :
      (b : Bool) (seen page after : List HistoryRecord)
      (rest : S.Net → Outcome (List HistoryRecord) × S.Net) (t : S.Net)
      → b ≡ true
      → keep (is_newer mark) after ≡ []
      → Complete (seen ++ (page ++ after)) (after_page S b (seen ++ page) rest t)
  unfolding after_page pure
  stop-Complete b seen page after rest t h e = record {
    found = seen ++ page;
    world = t;
    returned = rw h refl;
    newer =
        sym (append-nil _)
        ∙ ap (λ l. keep (is_newer mark) (seen ++ page) ++ l) (sym e)
        ∙ sym (keep-append (is_newer mark) (seen ++ page) after)
        ∙ ap (keep (is_newer mark)) (append_assoc seen page after);
  }

  on-Complete :
      (b : Bool) (seen page after : List HistoryRecord)
      (rest : S.Net → Outcome (List HistoryRecord) × S.Net) (t : S.Net)
      → b ≡ false
      → Complete ((seen ++ page) ++ after) (rest t)
      → Complete (seen ++ (page ++ after)) (after_page S b (seen ++ page) rest t)
  unfolding after_page
  on-Complete b seen page after rest t h c = rw (h, ← append_assoc seen page after) c

  history_from-Complete :
      (fuel n : ℕ) (seen : List HistoryRecord) (t : S.Net)
      → NewestFirst mark (keep is_record (drop (n * page_size) ys))
      → length (drop (n * page_size) ys) < fuel
      → Complete
          (seen ++ keep is_record (drop (n * page_size) ys))
          (history_from S (some mark) false fuel (n + 1) seen t)
  history_from-Complete zero n seen t o f = absurd (omega (arith, f))
  history_from-Complete (suc fuel) n seen t o f =
      let rest = drop (n * page_size) ys in
      let split = grabs_split page_size rest in
      let o' = subst (NewestFirst mark) split o in
      rw (history_from-step fuel n seen t, s.part n t, split)
        (elim (Bool-cases (
          is_met (some mark) (keep is_record (take page_size rest))
          || is_empty (take page_size rest)
          || reached (total_records (s.page n t).total) ((n + 1) * page_size))) [
            | inl stop ↦ stop-Complete _ seen _ _ _ _ stop (
                stopped_rest mark rest ys page_size ((n + 1) * page_size) _ (omega arith)
                  (s.counted n t) (drop-next page_size n ys) o' stop)
            | inr on ↦ on-Complete _ seen _ _ _ _ on (
                rw (drop-next page_size n ys) (
                  history_from-Complete fuel (n + 1) (seen ++ keep is_record (take page_size rest))
                    _ (rw (← drop-next page_size n ys) (Pairs-right _ _ _ o'))
                    (rw (← drop-next page_size n ys) (
                      omega (arith, f, fewer page_size rest (right_off _ _ (stop_or_on _ _ on)))))))
          ])

-- Against a server that pages a fixed history, the newest grabs first, the fetch back to a watermark
-- ends within one page more than there are records, and it misses no grab that is newer.
pub fetch_grab_history_complete :
    (S : Sonarr) (ys : List HistoryRecord) (mark : String × ℤ)
    → Serves S S.history page_size ys
    → NewestFirst mark (keep is_record ys)
    → (fuel : ℕ) (t : S.Net) → length ys < fuel
    → (rs : List HistoryRecord) × (t' : S.Net) × (fetch_grab_history S fuel (some mark) false t
        ≡ (done rs, t'))
      × (keep (is_newer mark) rs ≡ keep (is_newer mark) (keep is_record ys))
unfolding fetch_grab_history
fetch_grab_history_complete S ys mark s o fuel t f =
    let c = history_from-Complete S ys s mark fuel 0 [] t o f in
    (c.found, c.world, c.returned, c.newer)
