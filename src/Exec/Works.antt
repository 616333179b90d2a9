-- ===== src/Exec/Works.antt =====
-- Runs that return: neither an exception nor an end of the fuel.
use rawrz.Prelude.{Bool, true, false, if◌then◌else◌}
use rawrz.Exec.{Run, Outcome, done, raised, stuck, continue, ◌>>=◌, pure}

module _ {W A : Type 0} where
  abbrev pub Gives : (A → W → Type 0) → Outcome A × W → Type 0
  Gives Q (done a, w) = Q a w
  Gives Q (raised e, w) = ⊥
  Gives Q (stuck, w) = ⊥

  pub Gives-weaken :
      (P Q : A → W → Type 0) (r : Outcome A × W)
      → Gives P r
      → ((a : A) (w : W) → P a w → Q a w)
      → Gives Q r
  Gives-weaken P Q (done a, w) h g = g a w h
  Gives-weaken P Q (raised e, w) h g = h
  Gives-weaken P Q (stuck, w) h g = h

  -- From a world that `P` holds of, the run returns and leaves such a world.
  pub record Works (P : W → Type 0) (m : Run W A) : Type 0 where
    pub at : (w : W) → P w → Gives (λ a. P) (m w)

  pub Works-pure : (P : W → Type 0) (a : A) → Works P (pure a)
  unfolding pure
  Works-pure P a = record { at = λ w h. h }

  pub Works-if :
      (P : W → Type 0) (b : Bool) (m n : Run W A)
      → Works P m
      → Works P n
      → Works P (if b then m else n)
  Works-if P true m n hm hn = hm
  Works-if P false m n hm hn = hn

module _ {W A B : Type 0} where
  continue-Gives :
      (P : A → W → Type 0) (Q : B → W → Type 0) (r : Outcome A) (w : W) (f : A → Run W B)
      → Gives P (r, w)
      → ((a : A) (v : W) → P a v → Gives Q (f a v))
      → Gives Q (continue r f w)
  continue-Gives P Q (done a) w f h g = g a w h
  continue-Gives P Q (raised e) w f h g = h
  continue-Gives P Q stuck w f h g = h

  pub Gives-bind :
      (P : A → W → Type 0) (Q : B → W → Type 0) (m : Run W A) (f : A → Run W B) (w : W)
      → Gives P (m w)
      → ((a : A) (v : W) → P a v → Gives Q (f a v))
      → Gives Q ((m >>= f) w)
  unfolding ◌>>=◌
  Gives-bind P Q m f w h g = continue-Gives P Q (m w).0 (m w).1 f h g

  pub Works-bind :
      (P : W → Type 0) (m : Run W A) (f : A → Run W B)
      → Works P m
      → ((a : A) → Works P (f a))
      → Works P (m >>= f)
  Works-bind P m f hm hf = record {
    at = λ w h. Gives-bind (λ a. P) (λ b. P) m f w (hm.at w h) (λ a v k. (hf a).at v k);
  }
