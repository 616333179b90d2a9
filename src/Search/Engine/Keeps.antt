-- ===== src/Search/Engine/Keeps.antt =====
-- Calls of the service, as parts of runs with an invariant and of runs that come to an end.
use rawrz.Prelude.Result.{Result}
use rawrz.Exec.Keeps.{Keeps}
use rawrz.Exec.Halts.{IsEnded, Halts, outcome_of-IsEnded}
use rawrz.Search.Engine.{Service, World, Outcome, call, reach}

module _ {S : Service} {A : Type 0} where
  -- A call of the service keeps what does not speak of the service's own state.
  pub Keeps-call :
      {P : World S → Type 0} (blind : (w : World S) (s : S.State) → P w → P (record w { net = s }))
      (f : S.State → Result A × S.State)
      → Keeps P (call f)
  unfolding call
  Keeps-call blind f = record { at = λ w h. blind w (f w.net).1 h }

  pub Keeps-reach :
      {P : World S → Type 0} (blind : (w : World S) (s : S.State) → P w → P (record w { net = s }))
      (f : S.State → Outcome A × S.State)
      → Keeps P (reach f)
  unfolding reach
  Keeps-reach blind f = record { at = λ w h. blind w (f w.net).1 h }

  pub reach-Halts :
      (f : S.State → Outcome A × S.State)
      → ((s : S.State) → IsEnded (f s).0)
      → Halts (reach {S = S} f)
  unfolding reach
  reach-Halts f h w = h w.net

  pub call-Halts : (f : S.State → Result A × S.State) → Halts (call {S = S} f)
  unfolding call
  call-Halts f w = outcome_of-IsEnded (f w.net).0
