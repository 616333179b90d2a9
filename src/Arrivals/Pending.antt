-- ===== src/Arrivals/Pending.antt =====
-- The report of scripts/arrival_notifier.py: its count of what is pending.
use rawrz.Prelude.{
  ℕ, ◌+◌, ◌≡◌, refl, sym, not, ap, ◌∙◌, Bool, true, false, Option, none, some, List, [], ◌∷◌,
  length, count_if, arith,
}
use rawrz.Exec.Ends.{Ends, Ends-bind, Ends-then, Ends-pure, Ends-if}
use rawrz.Arrivals.{Request, Notice, Host, Config, Arrival, Split, Report, is_watched, minus, less}
use rawrz.Arrivals.Notifier.{sorted_out, deliver, conclude, act, run_on}

minus-less : (m a b : ℕ) → less (minus m a) b ≡ minus m (a + b)
minus-less m a b = ground arith

pending_lem :
    (n arrived total : ℕ) → total ≡ arrived → less (minus n arrived) total ≡ minus n (total + total)
pending_lem n arrived total h = ap (λ a. less (minus n a) total) (sym h) ∙ minus-less n total total

-- Of `n` watched requests the report has those that did not arrive as watched, and takes away those that
-- did once more for what is pending.
abbrev pub Counts : ℕ → Option Report → Type 0
Counts n none = Unit
Counts n (some r) =
    let arrived = length r.delivered + length r.failures in
    (r.watched ≡ minus n arrived) × (r.pending ≡ minus n (arrived + arrived))

abbrev Parted : List Arrival → List Arrival × List Arrival → Type 0
Parted as' r = length r.0 + length r.1 ≡ length as'

Parted-more :
    (a : Arrival) (rest : List Arrival) (b : Bool) (r : List Arrival × List Arrival)
    → Parted rest r
    → Parted (a ∷ rest) (sorted_out a b r)
Parted-more a rest true r h = omega (arith, h)
Parted-more a rest false r h = omega (arith, h)

module _ (H : Host) (c : Config) where
  -- Each arrival was delivered or failed.
  deliver-Ends : (as' : List Arrival) → Ends (λ r w. Parted as' r) (deliver H c as')
  unfolding deliver
  deliver-Ends [] = Ends-pure _ _ (λ w. refl)
  deliver-Ends (a ∷ rest) = Ends-bind _ _ _ (λ b.
      Ends-then _ (Parted rest) _ _ (deliver-Ends rest)
        (λ r h. Ends-pure _ _ (λ w. Parted-more a rest b r h)))

  conclude-Ends :
      (file : List (ℕ × Notice)) (drops : List Request) (n arrived : ℕ)
      (r : List Arrival × List Arrival)
      → length r.0 + length r.1 ≡ arrived
      → Ends (λ e w. Counts n e.report) (conclude H c file drops (minus n arrived) r)
  unfolding conclude
  conclude-Ends file drops n arrived r h = Ends-bind _ _ _ (λ noted.
      Ends-bind _ _ _ (λ u. Ends-pure _ _ (λ w. (ap (minus n) (sym h), pending_lem n arrived _ h))))

  act-Ends :
      (file : List (ℕ × Notice)) (n : ℕ) (s : Split)
      → Ends (λ e w. Counts n e.report) (act H c file (minus n (length s.arrivals)) s)
  unfolding act
  act-Ends file n s = Ends-if _ c.dry_run _ _ (Ends-pure _ _ (λ w. tt)) (
      Ends-if _ (not c.has_webhook) _ _ (Ends-bind _ _ _ (λ u. Ends-pure _ _ (λ w. tt))) (
        Ends-then _ (Parted s.arrivals) _ _ (deliver-Ends s.arrivals)
          (λ r h. conclude-Ends file s.drops n (length s.arrivals) r h)))

  -- Of the requests that the run watched, the report gives those that did not arrive as watched, and as
  -- pending it gives their number less the arrivals once more.
  pub run_on-Counts :
      (file : List (ℕ × Notice)) (rs : List Request)
      → Ends (λ e w. Counts (count_if (is_watched file) rs) e.report) (run_on H c file rs)
  unfolding run_on
  run_on-Counts file rs = Ends-bind _ _ _ (λ s. act-Ends file (count_if (is_watched file) rs) s)
