-- ===== src/Exec.antt =====
-- Python code as a step on a world: it returns or raises, and leaves a world either way.
pub mod Keeps
pub mod Ends
pub mod Halts
pub mod Works
use rawrz.Prelude.{String}
use rawrz.Prelude.Result.{Result}

-- `stuck` is a loop that has used up its fuel.
pub data Outcome {ℓ} (A : Type ℓ) : Type ℓ where
  done : A → Outcome A
  raised : String → Outcome A
  stuck : Outcome A

abbrev pub outcome_of {ℓ} : {A : Type ℓ} → Result A → Outcome A
outcome_of (Result.ok a) = done a
outcome_of (Result.err e) = raised e

abbrev pub Run : Type 0 → Type 0 → Type 0
Run W A = W → Outcome A × W

module _ {W A B : Type 0} where
  abbrev pub continue : Outcome A → (A → Run W B) → Run W B
  continue (done a) f w = f a w
  continue (raised e) f w = (raised e, w)
  continue stuck f w = (stuck, w)

  infixl 5 ◌>>=◌ ◌>>◌
  unfoldable pub ◌>>=◌ : Run W A → (A → Run W B) → Run W B
  ◌>>=◌ m f w = let (r, w') = m w in continue r f w'

  abbrev pub ◌>>◌ : Run W A → Run W B → Run W B
  m >> n = m >>= λ _. n

module _ {W A : Type 0} where
  unfoldable pub pure : A → Run W A
  pure a w = (done a, w)

  unfoldable pub raise : String → Run W A
  raise e w = (raised e, w)
