-- ===== src/Exec/Ends.antt =====
-- What holds of a run's value and of the world that it leaves, if it returns.
use rawrz.Prelude.{Bool, true, false, if◌then◌else◌}
use rawrz.Exec.Keeps.{Keeps}
use rawrz.Exec.{Run, Outcome, done, raised, stuck, continue, ◌>>=◌, pure, raise}

module _ {W A : Type 0} where
  abbrev pub Returned : (A → W → Type 0) → Outcome A × W → Type 0
  Returned Q (done a, w) = Q a w
  Returned Q (raised e, w) = Unit
  Returned Q (stuck, w) = Unit

  pub record Ends (Q : A → W → Type 0) (m : Run W A) : Type 0 where
    pub at : (w : W) → Returned Q (m w)

  pub Ends-raise : (Q : A → W → Type 0) (e : _) → Ends Q (raise e)
  unfolding raise
  Ends-raise Q e = record { at = λ w. tt }

  Returned-always : (P : W → Type 0) (r : Outcome A) (w : W) → P w → Returned (λ a. P) (r, w)
  Returned-always P (done a) w h = h
  Returned-always P (raised e) w h = tt
  Returned-always P stuck w h = tt

  pub Returned-weaken :
      (P Q : A → W → Type 0) (r : Outcome A × W)
      → Returned P r
      → ((a : A) (w : W) → P a w → Q a w)
      → Returned Q r
  Returned-weaken P Q (done a, w) h g = g a w h
  Returned-weaken P Q (raised e, w) h g = h
  Returned-weaken P Q (stuck, w) h g = h

  pub Keeps-Returned :
      (P : W → Type 0) (m : Run W A) → Keeps P m → (w : W) → P w → Returned (λ a. P) (m w)
  Keeps-Returned P m k w h = Returned-always P (m w).0 (m w).1 (k.at w h)

  -- A value that `Q` holds of in every world.
  pub Ends-pure : (Q : A → W → Type 0) (a : A) → ((w : W) → Q a w) → Ends Q (pure a)
  unfolding pure
  Ends-pure Q a h = record { at = h }

  pub Ends-if :
      (Q : A → W → Type 0) (b : Bool) (m n : Run W A)
      → Ends Q m
      → Ends Q n
      → Ends Q (if b then m else n)
  Ends-if Q true m n hm hn = hm
  Ends-if Q false m n hm hn = hn

module _ {W A B : Type 0} (Q : B → W → Type 0) where
  Ends-continue :
      (r : Outcome A) (f : A → Run W B) (w : W)
      → ((a : A) → Ends Q (f a))
      → Returned Q (continue r f w)
  Ends-continue (done a) f w h = (h a).at w
  Ends-continue (raised e) f w h = tt
  Ends-continue stuck f w h = tt

  pub Ends-bind : (m : Run W A) (f : A → Run W B) → ((a : A) → Ends Q (f a)) → Ends Q (m >>= f)
  unfolding ◌>>=◌
  Ends-bind m f h = record { at = λ w. Ends-continue (m w).0 f (m w).1 h }

  -- What the first run returns is known to the second.
  Ends-continue_then :
      (P : A → Type 0) (r : Outcome A) (f : A → Run W B) (w : W)
      → Returned (λ a v. P a) (r, w)
      → ((a : A) → P a → Ends Q (f a))
      → Returned Q (continue r f w)
  Ends-continue_then P (done a) f w p h = (h a p).at w
  Ends-continue_then P (raised e) f w p h = tt
  Ends-continue_then P stuck f w p h = tt

  pub Ends-then :
      (P : A → Type 0) (m : Run W A) (f : A → Run W B)
      → Ends (λ a v. P a) m
      → ((a : A) → P a → Ends Q (f a))
      → Ends Q (m >>= f)
  unfolding ◌>>=◌
  Ends-then P m f hm h = record { at = λ w. Ends-continue_then P (m w).0 f (m w).1 (hm.at w) h }

module _ {W A B : Type 0} (P : A → W → Type 0) (Q : B → W → Type 0) where
  Returned-continue :
      (r : Outcome A) (f : A → Run W B) (w : W)
      → Returned P (r, w)
      → ((a : A) (v : W) → P a v → Returned Q (f a v))
      → Returned Q (continue r f w)
  Returned-continue (done a) f w p h = h a w p
  Returned-continue (raised e) f w p h = tt
  Returned-continue stuck f w p h = tt

  -- From what holds after the first run to what holds after the second.
  pub Returned-bind :
      (m : Run W A) (f : A → Run W B) (w : W)
      → Returned P (m w)
      → ((a : A) (v : W) → P a v → Returned Q (f a v))
      → Returned Q ((m >>= f) w)
  unfolding ◌>>=◌
  Returned-bind m f w p h = Returned-continue (m w).0 f (m w).1 p h

module _ {W A B : Type 0} (P : A → Type 0) (S T : W → Type 0) where
  Holds-continue :
      (r : Outcome A) (f : A → Run W B) (v : W)
      → Returned (λ a u. P a) (r, v)
      → S v
      → ((a : A) (u : W) → P a → S u → T (f a u).1)
      → ((u : W) → S u → T u)
      → T (continue r f v).1
  Holds-continue (done a) f v p s h k = h a v p s
  Holds-continue (raised e) f v p s h k = k v s
  Holds-continue stuck f v p s h k = k v s

  -- From what the first run returns and from what it keeps, to what the second leaves.
  pub Holds-bind :
      (m : Run W A) (f : A → Run W B) (w : W)
      → Returned (λ a u. P a) (m w)
      → S (m w).1
      → ((a : A) (u : W) → P a → S u → T (f a u).1)
      → ((u : W) → S u → T u)
      → T ((m >>= f) w).1
  unfolding ◌>>=◌
  Holds-bind m f w p s h k = Holds-continue (m w).0 f (m w).1 p s h k
