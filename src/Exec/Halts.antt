-- ===== src/Exec/Halts.antt =====
-- Runs that come to an end: they return or raise, in every world.
use rawrz.Prelude.{Bool, true, false, String, if◌then◌else◌}
use rawrz.Prelude.Result.{Result}
use rawrz.Exec.{Run, Outcome, done, raised, stuck, outcome_of, continue, ◌>>=◌, pure, raise}

-- The code returned or raised.
abbrev pub IsEnded {ℓ} : {A : Type ℓ} → Outcome A → Type 0
IsEnded (done a) = Unit
IsEnded (raised e) = Unit
IsEnded stuck = ⊥

pub outcome_of-IsEnded : {A : Type 0} (r : Result A) → IsEnded (outcome_of r)
outcome_of-IsEnded (Result.ok a) = tt
outcome_of-IsEnded (Result.err e) = tt

module _ {W A : Type 0} where
  abbrev pub Halts : Run W A → Type 0
  Halts m = (w : W) → IsEnded (m w).0

  pub pure-Halts : (a : A) → Halts (pure a)
  unfolding pure
  pure-Halts a w = tt

  pub if-Halts : (b : Bool) (m n : Run W A) → Halts m → Halts n → Halts (if b then m else n)
  if-Halts true m n hm hn = hm
  if-Halts false m n hm hn = hn

pub raise-Halts : {W : Type 0} (A : Type 0) (e : String) → Halts {W = W} {A = A} (raise e)
unfolding raise
raise-Halts A e w = tt

module _ {W A B : Type 0} where
  pub continue-Halts :
      (r : Outcome A) (f : A → Run W B) (w : W)
      → IsEnded r
      → ((a : A) → Halts (f a))
      → IsEnded (continue r f w).0
  continue-Halts (done a) f w h g = g a w
  continue-Halts (raised e) f w h g = tt
  continue-Halts stuck f w h g = h

  pub bind-Halts :
      (m : Run W A) (f : A → Run W B) → Halts m → ((a : A) → Halts (f a)) → Halts (m >>= f)
  unfolding ◌>>=◌
  bind-Halts m f h g w = continue-Halts (m w).0 f (m w).1 (h w) g
