-- ===== src/Feed/Pages.antt =====
-- `history_pages` of scripts/activity_feed.py, against a server that has a fixed history.
use mathlib.Core.List.{append-nil, map-append}
use rawrz.Prelude.{
  ℕ, zero, suc, ◌+◌, ◌*◌, ◌<◌, ◌≡◌, refl, sym, ap, ◌∙◌, inl, inr, Option, none, List, [], ◌∷◌, ◌++◌,
  map, length, take, drop, arith, ltb, Bool-cases, take-add, short_take, drop-drop,
}
use rawrz.Prelude.Result.{Result}
use rawrz.Exec.{Outcome, done, ◌>>=◌, pure}
use rawrz.Feed.{App, Raw, Record, normalize_record}
use rawrz.Feed.Poll.{Host, World, ask, fetched, keep_page, after_page, pages_from, history_pages}

-- The server has the history `xs` of an app, in pages of a hundred, and nothing is cached.
pub record HasHistory (H : Host) (app : App) (xs : List Raw) : Type 0 where
  pub answers :
      (n : ℕ) (t : H.Net) → (H.history app (n + 1) t).0 ≡ Result.ok (take 100 (drop (n * 100) xs))
  pub uncached : (page : ℕ) (c : Option ℕ) (t : H.Net) → (H.cached app page c t).0 ≡ none

module _ (H : Host) (app : App) (xs : List Raw) (s : HasHistory H app xs) where
  abbrev got : List Raw → Result (List Record)
  got raws = Result.ok (map (normalize_record app) raws)

  abbrev Gets : List Raw → Outcome (Result (List Record)) × World H → Type 0
  Gets raws r = (v : World H) × (r ≡ (done (got raws), v))

  nothing_after : (m : ℕ) (ys : List Raw) → ys ≡ [] → take m ys ≡ []
  nothing_after zero ys e = refl
  nothing_after (suc m) [] e = refl
  nothing_after (suc m) (y ∷ ys) e = cc

  after_page-Gets :
      (part : List Raw) (m : ℕ) (rest : List Raw)
      (more : World H → Outcome (Result (List Record)) × World H) (w : World H)
      → (length part < 100 → rest ≡ [])
      → Gets (take m rest) (more w)
      → Gets (part ++ take m rest) (after_page H app more (Result.ok part) w)
  unfolding after_page pure ◌>>=◌
  after_page-Gets part m rest more w last (v, e) = elim (Bool-cases (ltb (length part) 100)) [
    | inl short ↦
        rw (short, nothing_after m rest (last (ground (arith, short))), append-nil part) (w, refl)
    | inr full ↦
        rw (full, e) (v, ap (λ l. (done (Result.ok l), v)) (sym (map-append _ part (take m rest))))
  ]

  abbrev after_fetch : ℕ → Option ℕ → World H → World H
  after_fetch n c w =
      let t = (H.history app (n + 1) (H.cached app (n + 1) c w.net).1).1 in
      record w { net = H.remember app (n + 1) c (take 100 (drop (n * 100) xs)) t }

  pages_from-step :
      (c : Option ℕ) (left n : ℕ) (w : World H)
      → pages_from H app c (suc left) (n + 1) w
        ≡ after_page H app
            (pages_from H app c left (n + 1 + 1))
            (Result.ok (take 100 (drop (n * 100) xs)))
            (after_fetch n c w)
  unfolding pages_from ask fetched keep_page ◌>>=◌ pure
  pages_from-step c left n w =
      rw (s.uncached (n + 1) c w.net, s.answers n (H.cached app (n + 1) c w.net).1) refl

  more_pages : (left : ℕ) → suc left * 100 ≡ left * 100 + 100
  more_pages left = omega arith

  next_page : (n : ℕ) → drop 100 (drop (n * 100) xs) ≡ drop ((n + 1) * 100) xs
  next_page n = drop-drop 100 (n * 100) xs ∙ ap (λ k. drop k xs) (next_start n)
    where
      next_start : (n : ℕ) → 100 + n * 100 ≡ (n + 1) * 100
      next_start n = omega arith

  pages_from-Gets :
      (c : Option ℕ) (left n : ℕ) (w : World H)
      → Gets (take (left * 100) (drop (n * 100) xs)) (pages_from H app c left (n + 1) w)
  unfolding pages_from pure
  pages_from-Gets c zero n w = (w, refl)
  pages_from-Gets c (suc left) n w =
      let rest = drop (n * 100) xs in
      rw (pages_from-step c left n w, more_pages left, take-add 100 (left * 100) rest, next_page n)
        (after_page-Gets (take 100 rest) (left * 100) (drop ((n + 1) * 100) xs) _ _
          (λ short. sym (next_page n) ∙ short_take 100 rest short)
          (pages_from-Gets c left (n + 1) (after_fetch n c w)))

-- Against a server with a fixed history and no cache, a poll gets the first five hundred records, the
-- newest ones, and none of those after them.
pub history_pages-Gets :
    (H : Host) (app : App) (xs : List Raw)
    → HasHistory H app xs
    → (cursor : Option ℕ) (w : World H)
    → (v : World H) × (history_pages H app cursor w
        ≡ (done (Result.ok (map (normalize_record app) (take 500 xs))), v))
unfolding history_pages
history_pages-Gets H app xs s cursor w = pages_from-Gets H app xs s cursor 5 0 w
