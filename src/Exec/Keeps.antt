-- ===== src/Exec/Keeps.antt =====
-- Invariants of runs: one rule for each way in which a run is put together.
use rawrz.Prelude.{Bool, true, false, String, if◌then◌else◌}
use rawrz.Exec.{Run, Outcome, done, raised, stuck, continue, ◌>>=◌, pure, raise}

-- Whatever the run returns or raises, it leaves a world that `P` holds of.
pub record Keeps {W A : Type 0} (P : W → Type 0) (m : Run W A) : Type 0 where
  pub at : (w : W) → P w → P (m w).1

module _ {W A B : Type 0} {P : W → Type 0} where
  continue-keeps :
      (r : Outcome A) (f : A → Run W B) (w : W)
      → ((a : A) → Keeps P (f a))
      → P w
      → P (continue r f w).1
  continue-keeps (done a) f w kf h = (kf a).at w h
  continue-keeps (raised e) f w kf h = h
  continue-keeps stuck f w kf h = h

  pub Keeps-bind :
      (m : Run W A) (f : A → Run W B) → Keeps P m → ((a : A) → Keeps P (f a)) → Keeps P (m >>= f)
  unfolding ◌>>=◌
  Keeps-bind m f km kf = record {
    at = λ w h. let (r, w') = m w in continue-keeps r f w' kf (km.at w h);
  }

module _ {W A : Type 0} {P : W → Type 0} where
  pub Keeps-pure : (a : A) → Keeps {W = W} P (pure a)
  unfolding pure
  Keeps-pure a = record { at = λ w h. h }

  pub Keeps-raise : (e : String) → Keeps {W = W} {A = A} P (raise e)
  unfolding raise
  Keeps-raise e = record { at = λ w h. h }

  pub Keeps-if : (b : Bool) (m n : Run W A) → Keeps P m → Keeps P n → Keeps P (if b then m else n)
  Keeps-if true m n km kn = km
  Keeps-if false m n km kn = kn
