-- ===== src/Search/Client/Pages.antt =====
-- `_fetch_pages` of scripts/search_missing_scoped_core.py, against a server that pages a fixed list.
use mathlib.Core.List.{append_assoc, append-nil}
use rawrz.Prelude.{
  ℕ, zero, suc, ◌+◌, ◌*◌, ◌≤◌, ◌<◌, ◌≡◌, refl, sym, ap, ◌∙◌, ◌⊎◌, inl, inr, Bool, true, false, ◌||◌,
  Option, none, some, List, [], ◌∷◌, ◌++◌, length, take, drop, arith, Bool-cases, take-drop,
  drop-drop, length-drop, length-append,
}
use rawrz.Prelude.Result.{Result}
use rawrz.Exec.{Outcome, done, ◌>>=◌, pure}
use rawrz.Search.Client.{
  Sonarr, Page, QueueRecord, page_size, total_records, reached, is_empty, after_page, pages_from,
  fetch_queue_records,
}

pub stop_or_on : (a b : Bool) → (a || b) ≡ false → a ≡ false
stop_or_on a b h = ground arith

module _ {R : Type 0} where
  pub drop-next :
      (size n : ℕ) (xs : List R) → drop size (drop (n * size) xs) ≡ drop ((n + 1) * size) xs
  drop-next size n xs = drop-drop size (n * size) xs ∙ ap (λ k. drop k xs) (grind arith)

  -- A list that is nil adds nothing, and so what was seen is all.
  pub all-seen : (xs seen rest : List R) → seen ++ rest ≡ xs → rest ≡ [] → seen ≡ xs
  all-seen xs seen rest e z = sym (append-nil seen) ∙ ap (λ r. seen ++ r) (sym z) ∙ e

  pub nil_of_length : (ys : List R) → length ys ≡ 0 → ys ≡ []
  nil_of_length [] h = refl
  nil_of_length (y ∷ ys) h = absurd (omega (arith, h))

  pub empty_take : (k : ℕ) (rest : List R) → 1 ≤ k → is_empty (take k rest) ≡ true → rest ≡ []
  empty_take k [] l h = refl
  empty_take zero (x ∷ rest) l h = absurd (omega (arith, l))
  empty_take (suc k) (x ∷ rest) l h = cc

  pub nonempty_length : (ys : List R) → is_empty ys ≡ false → 1 ≤ length ys
  nonempty_length [] h = cc
  nonempty_length (y ∷ ys) h = omega arith

  -- A page that stops the loop leaves nothing behind it.
  stopped_rest :
      (xs seen rest : List R) (size : ℕ) (total : Option ℕ)
      → 1 ≤ size
      → seen ++ rest ≡ xs
      → (total ≡ none) ⊎ (total ≡ some (length xs))
      → (is_empty (take size rest) || reached total (length (seen ++ take size rest))) ≡ true
      → drop size rest ≡ []
  stopped_rest xs seen rest size total l e t h = elim (Bool-cases (is_empty (take size rest))) [
    | inl none_left ↦ nil_of_length (drop size rest) (
        let gone = ap length (empty_take size rest l none_left) in
        omega (arith, length-drop size rest, gone))
    | inr some_left ↦ elim t [
      | inl unknown ↦ absurd (ground (arith, some_left, unknown, h))
      | inr known ↦ nil_of_length (drop size rest) (
          let all = ap length e in
          ground (
            arith,
            some_left,
            known,
            h,
            all,
            length-append seen rest,
            length-append seen (take size rest),
            length-drop size rest,
          ))
    ]
  ]

module _ (S : Sonarr) {R : Type 0} (get : ℕ → ℕ → S.Net → Result (Option (Page R)) × S.Net) where
  -- The server has the list `xs`: page `n + 1` is its part from `n * size` on, and the total, if it
  -- is told, is the length of `xs`.
  pub record Serves (size : ℕ) (xs : List R) : Type 0 where
    pub page : ℕ → S.Net → Page R
    pub answers : (n : ℕ) (t : S.Net) → (get (n + 1) size t).0 ≡ Result.ok (some (page n t))
    pub part : (n : ℕ) (t : S.Net) → (page n t).records ≡ take size (drop (n * size) xs)
    pub counted :
        (n : ℕ) (t : S.Net)
        → (total_records (page n t).total ≡ none)
          ⊎ (total_records (page n t).total ≡ some (length xs))

  module _ (size : ℕ) (xs : List R) (s : Serves size xs) where
    abbrev seen_by : List R → ℕ → S.Net → List R
    seen_by seen n t = seen ++ (s.page n t).records

    abbrev stops : List R → ℕ → S.Net → Bool
    stops seen n t =
        is_empty (s.page n t).records
        || reached (total_records (s.page n t).total) (length (seen_by seen n t))

    pages_from-step :
        (fuel n : ℕ) (seen : List R) (t : S.Net)
        → pages_from S get size (suc fuel) (n + 1) seen t
          ≡ after_page S
              (stops seen n t)
              (seen_by seen n t)
              (pages_from S get size fuel (n + 1 + 1) (seen_by seen n t))
              (get (n + 1) size t).1
    unfolding pages_from ◌>>=◌ pure
    pages_from-step fuel n seen t = rw (s.answers n t)

  module _ (size : ℕ) (xs : List R) (s : Serves size xs) (l : 1 ≤ size) where
    after_page-true :
        (b : Bool) (seen : List R) (rest : S.Net → Outcome (List R) × S.Net) (t : S.Net)
        → b ≡ true
        → seen ≡ xs
        → (t' : S.Net) × (after_page S b seen rest t ≡ (done xs, t'))
    unfolding after_page pure
    after_page-true b seen rest t h e = (t, rw (h, e))

    after_page-false :
        (b : Bool) (seen : List R) (rest : S.Net → Outcome (List R) × S.Net) (t : S.Net)
        → b ≡ false
        → (t' : S.Net) × (rest t ≡ (done xs, t'))
        → (t' : S.Net) × (after_page S b seen rest t ≡ (done xs, t'))
    unfolding after_page
    after_page-false b seen rest t h e = rw h e

    pages_from-all :
        (fuel n : ℕ) (seen : List R) (t : S.Net)
        → seen ++ drop (n * size) xs ≡ xs
        → length (drop (n * size) xs) < fuel
        → (t' : S.Net) × (pages_from S get size fuel (n + 1) seen t ≡ (done xs, t'))
    pages_from-all zero n seen t e f = absurd (omega (arith, f))
    pages_from-all (suc fuel) n seen t e f =
        let rest = drop (n * size) xs in
        let whole =
          append_assoc seen (take size rest) (drop size rest)
          ∙ ap (λ r. seen ++ r) (take-drop size rest)
          ∙ e in
        rw (pages_from-step size xs s fuel n seen t, s.part n t)
          (elim (Bool-cases (
            is_empty (take size rest)
            || reached (total_records (s.page n t).total) (length (seen ++ take size rest)))) [
              | inl stop ↦ after_page-true _ _ _ _ stop (
                  all-seen xs (seen ++ take size rest) (drop size rest) whole
                    (stopped_rest xs seen rest size _ l e (s.counted n t) stop))
              | inr on ↦ after_page-false _ _ _ _ on (
                  pages_from-all fuel (n + 1) (seen ++ take size rest) _
                    (rw (← drop-next size n xs) whole)
                    (rw (← drop-next size n xs) (
                      let more = nonempty_length (take size rest) (stop_or_on _ _ on) in
                      omega (arith, f, more, length-drop size rest))))
            ])

-- Against a server that pages a fixed list of queue records, the loop ends within one page more than
-- there are records, and it returns all of them in order.
pub fetch_queue_records-all :
    (S : Sonarr) (xs : List QueueRecord)
    → Serves S S.queue page_size xs
    → (fuel : ℕ) (t : S.Net) → length xs < fuel
    → (t' : S.Net) × (fetch_queue_records S fuel t ≡ (done xs, t'))
unfolding fetch_queue_records
fetch_queue_records-all S xs s fuel t f =
    pages_from-all S S.queue page_size xs s (omega arith) fuel 0 [] t refl f
