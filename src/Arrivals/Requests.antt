-- ===== src/Arrivals/Requests.antt =====
-- `seerr_requests` of scripts/arrival_notifier.py, against a server that has a fixed list.
use mathlib.Core.List.{append_assoc, append-nil}
use rawrz.Prelude.{
  ℕ, zero, suc, ◌+◌, ◌≤◌, ◌<◌, ◌≡◌, refl, sym, ap, ◌∙◌, inl, inr, List, [], ◌++◌, length, take,
  drop, arith, ltb, Bool-cases, take-drop, drop-drop, length-drop, short_take,
}
use rawrz.Prelude.Result.{Result}
use rawrz.Exec.{Outcome, done, ◌>>=◌, pure}
use rawrz.Arrivals.{Raw, Host, World, page}
use rawrz.Arrivals.Notifier.{ask, after_batch, fetch_from, seerr_requests}

-- The server has the list `xs`, and gives the part of it from `skip` on that fits a page.
abbrev pub HasRequests : Host → List Raw → Type 0
HasRequests H xs =
    (skip : ℕ) (t : H.Net) → (H.requests skip t).0 ≡ Result.ok (take page (drop skip xs))

swap : (m n : ℕ) → m + n ≡ n + m
swap m n = omega arith

shorter :
    (n fuel : ℕ) (rest next : List Raw)
    → 1 ≤ n
    → length (drop n rest) ≡ length next
    → n ≤ length (take n rest)
    → length rest < suc fuel
    → length next < fuel
shorter n fuel rest next l e full f = omega (arith, l, e, full, f, length-drop n rest)

module _ (H : Host) (xs : List Raw) (has : HasRequests H xs) where
  fetch_from-step :
      (fuel skip : ℕ) (out : List Raw) (w : World H)
      → fetch_from H (suc fuel) skip out w
        ≡ after_batch H out
            (fetch_from H fuel (skip + page))
            (Result.ok (take page (drop skip xs)))
            (record w { net = (H.requests skip w.net).1 })
  unfolding fetch_from ask ◌>>=◌
  fetch_from-step fuel skip out w = rw (has skip w.net) refl

  abbrev Returns : Outcome (Result (List Raw)) × World H → Type 0
  Returns r = (v : World H) × (r ≡ (done (Result.ok xs), v))

  after_batch-Returns :
      (out part : List Raw) (more : List Raw → World H → Outcome (Result (List Raw)) × World H)
      (w : World H)
      → (length part < page → out ++ part ≡ xs)
      → (page ≤ length part → Returns (more (out ++ part) w))
      → Returns (after_batch H out more (Result.ok part) w)
  unfolding after_batch pure
  after_batch-Returns out part more w last next = elim (Bool-cases (ltb (length part) page)) [
    | inl short ↦ rw short (w, ap (λ l. (done (Result.ok l), w)) (last (ground (arith, short))))
    | inr full ↦ rw full (next (ground (arith, full)))
  ]

  fetch_from-Returns :
      (fuel skip : ℕ) (out : List Raw) (w : World H)
      → out ++ drop skip xs ≡ xs
      → length (drop skip xs) < fuel
      → Returns (fetch_from H fuel skip out w)
  fetch_from-Returns zero skip out w e f = absurd (omega (arith, f))
  fetch_from-Returns (suc fuel) skip out w e f =
      let rest = drop skip xs in
      let split =
        append_assoc out (take page rest) (drop page rest)
        ∙ ap (λ l. out ++ l) (take-drop page rest)
        ∙ e in
      let along : drop page rest ≡ drop (skip + page) xs =
        drop-drop page skip xs ∙ ap (λ k. drop k xs) (swap page skip) in
      rw (fetch_from-step fuel skip out w) (
        after_batch-Returns out (take page rest) (fetch_from H fuel (skip + page)) _
          (λ short.
            sym (append-nil _)
            ∙ ap (λ l. (out ++ take page rest) ++ l) (sym (short_take page rest short))
            ∙ split)
          (λ full.
            fetch_from-Returns fuel (skip + page) (out ++ take page rest) _
              (ap (λ l. (out ++ take page rest) ++ l) (sym along) ∙ split)
              (shorter page fuel rest (drop (skip + page) xs) (omega arith) (ap length along) full
                f)))

-- Against a server with a fixed list of requests the fetch ends within one page more than there are
-- requests, and it returns all of them in order.
pub seerr_requests-all :
    (H : Host) (xs : List Raw)
    → HasRequests H xs
    → (fuel : ℕ) (w : World H) → length xs < fuel
    → (v : World H) × (seerr_requests H fuel w ≡ (done (Result.ok xs), v))
unfolding seerr_requests
seerr_requests-all H xs has fuel w f = fetch_from-Returns H xs has fuel 0 [] w refl f
