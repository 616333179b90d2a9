-- ===== src/Starvation/Threshold.antt =====
-- The threshold of archive/control-panel/control-panel/django/core/import_starvation.py.
use rawrz.Prelude.{
  ℕ, ◌+◌, ◌-◌, ◌≡◌, refl, ap, ◌∙◌, Bool, true, false, ◌&&◌, ◌||◌, Option, none, some, List, [], ◌∷◌,
  keep, ltb, leb, if◌then◌else◌, nat_eq, arith,
}
use rawrz.Json.Int.{ℤ}
use rawrz.Starvation.{
  Command, earlier, earliest, waited, exceeds, is_active, is_waiting, round_half_even, seconds,
  negated, assess,
}

-- Whether a time is more than 300.5 seconds ago.
abbrev pub is_late : ℕ → Option ℕ → Bool
is_late now none = false
is_late now (some t) = ltb (t + 300500) now

abbrev pub some_late : ℕ → List Command → Bool
some_late now [] = false
some_late now (c ∷ cs) =
    (is_active c && is_waiting c && is_late now c.queued_at) || some_late now cs

round-exceeds : (n : ℕ) → ltb 300 (round_half_even n) ≡ ltb 300500 n
unfolding round_half_even nat_eq
round-exceeds n = ground arith

exceeds-negated : (n : ℕ) → exceeds (negated n) ≡ false
exceeds-negated n = ground arith

exceeds-if :
    (b : Bool) (x y : ℤ) → exceeds (if b then x else y) ≡ (if b then exceeds x else exceeds y)
exceeds-if true x y = refl
exceeds-if false x y = refl

chosen_lem :
    (now t : ℕ) (a b : Bool)
    → a ≡ ltb 300500 (now - t)
    → b ≡ false
    → (if leb t now then a else b) ≡ ltb (t + 300500) now
chosen_lem now t a b ha hb = ground (arith, ha, hb)

seconds-exceeds : (now t : ℕ) → exceeds (seconds now t) ≡ is_late now (some t)
unfolding seconds
seconds-exceeds now t =
    exceeds-if (leb t now) _ _
    ∙ chosen_lem now t _ _ (round-exceeds (now - t)) (exceeds-negated (round_half_even (t - now)))

waited-exceeds : (now : ℕ) (o : Option ℕ) → exceeds (waited now o) ≡ is_late now o
waited-exceeds now none = refl
waited-exceeds now (some t) = seconds-exceeds now t

is_late-earlier :
    (now : ℕ) (a b : Option ℕ) → is_late now (earlier a b) ≡ (is_late now a || is_late now b)
is_late-earlier now none b = refl
is_late-earlier now (some a) none = ground arith
is_late-earlier now (some a) (some b) = ground arith

is_late-earliest :
    (now : ℕ) (cs : List Command)
    → is_late now (earliest (keep is_waiting (keep is_active cs))) ≡ some_late now cs
unfolding earliest
is_late-earliest now [] = refl
is_late-earliest now (c ∷ cs) =
    let others = is_late-earliest now cs in
    let active = keep is_active cs in
    elim (is_active c)
      as (λ a.
        is_late now (earliest (keep is_waiting (if a then c ∷ active else active)))
        ≡ ((a && is_waiting c && is_late now c.queued_at) || some_late now cs)) [
          | true ↦
              elim (is_waiting c)
                as (λ b.
                  is_late now
                    (earliest (if b then c ∷ keep is_waiting active else keep is_waiting active))
                  ≡ ((b && is_late now c.queued_at) || some_late now cs)) [
                    | true ↦
                        is_late-earlier now c.queued_at (earliest (keep is_waiting active))
                        ∙ ap (λ l. is_late now c.queued_at || l) others
                    | false ↦ others
                  ]
          | false ↦ others
        ]

-- The refresh of an app is starved exactly if one of its waiting refresh commands was queued more than
-- 300.5 seconds before `now`.
pub assess-exceeds :
    (now : ℕ) (cs : List Command) → exceeds (assess now cs).starved_seconds ≡ some_late now cs
unfolding assess
assess-exceeds now cs =
    waited-exceeds now (earliest (keep is_waiting (keep is_active cs))) ∙ is_late-earliest now cs
