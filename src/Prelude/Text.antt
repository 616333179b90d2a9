-- ===== src/Prelude/Text.antt =====
-- Python's order of strings, by code points.
use Prim.Native.Char.{code}
use Prim.Native.String.{String, [], ◌∷◌}
use mathlib.Core.Path.{◌≡◌}
use mathlib.Core.Bool.{Bool, true, false}
use native.Mathlib.Omega.{arith}
use rawrz.Prelude.Tests.{ltb, if◌then◌else◌}

-- `s <= t`
unfoldable pub str_leb : String → String → Bool
str_leb [] t = true
str_leb (c ∷ s) [] = false
str_leb (c ∷ s) (d ∷ t) =
    if ltb (code c) (code d) then true else if ltb (code d) (code c) then false else str_leb s t

pub str_leb_total : (s t : String) → str_leb s t ≡ false → str_leb t s ≡ true
unfolding str_leb
str_leb_total [] t h = ground arith
str_leb_total (c ∷ s) [] h = ground arith
str_leb_total (c ∷ s) (d ∷ t) h = ground (arith, str_leb_total s t)

pub str_leb_trans : (s t u : String) → str_leb s t ≡ true → str_leb t u ≡ true → str_leb s u ≡ true
unfolding str_leb
str_leb_trans [] t u h k = ground arith
str_leb_trans (c ∷ s) [] u h k = ground arith
str_leb_trans (c ∷ s) (d ∷ t) [] h k = ground arith
str_leb_trans (c ∷ s) (d ∷ t) (e ∷ u) h k = ground (arith, str_leb_trans s t u)
