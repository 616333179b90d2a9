-- ===== src/Json/Words.antt =====
-- `int(text)` and `str(value or "").casefold()`, as far as the code compares them.
use Prim.Native.Char.{code}
use mathlib.Core.List.{reverse}
use rawrz.Prelude.{
  ℕ, ◌+◌, ◌*◌, ◌-◌, Bool, true, false, ◌&&◌, ◌||◌, Option, none, some, List, [], ◌∷◌, ◌++◌, String,
  leb, if◌then◌else◌, ◌==◌, nat_eq,
}
use rawrz.Json.{Json, is_space}
use rawrz.Json.Int.{ℤ, pos, negsuc}

abbrev pub codes : String → List ℕ
codes String.[] = []
codes (String.◌∷◌ c s) = code c ∷ codes s

unfoldable pub skip_spaces : List ℕ → List ℕ
unfolding is_space nat_eq
skip_spaces [] = []
skip_spaces (c ∷ s) = if is_space c then skip_spaces s else c ∷ s

-- `text.strip()`
unfoldable pub strip : List ℕ → List ℕ
unfolding skip_spaces
strip s = reverse (skip_spaces (reverse (skip_spaces s)))

abbrev is_digit : ℕ → Bool
is_digit c = leb b'0' c && leb c b'9'

-- Decimal digits, with single underscores between them; the flag says that a digit came before.
unfoldable pub digits : Bool → ℕ → List ℕ → Option ℕ
unfolding nat_eq
digits after n [] = if after then some n else none
digits after n (c ∷ s) =
    if is_digit c
    then digits true (n * 10 + (c - b'0')) s
    else if after && c == b'_'
    then digits false n s
    else none

abbrev negated : ℕ → ℤ
negated n = if leb 1 n then negsuc (n - 1) else pos 0

abbrev signed : (ℕ → ℤ) → Option ℕ → Option ℤ
signed f none = none
signed f (some n) = some (f n)

-- `int(text)`, with `none` for the ValueError. Digits outside ASCII are not read.
unfoldable pub int_of : List ℕ → Option ℤ
unfolding digits nat_eq
int_of [] = none
int_of (c ∷ s) =
    if c == b'-'
    then signed negated (digits false 0 s)
    else if c == b'+'
    then signed pos (digits false 0 s)
    else signed pos (digits false 0 (c ∷ s))

-- `_as_int`
unfoldable pub as_int : Json → Option ℤ
unfolding int_of strip
as_int (Json.int z) = some z
as_int (Json.str s) = int_of (strip (codes s))
as_int _ = none

-- The case folding of one character, as far as it meets ASCII.
unfoldable pub fold : ℕ → List ℕ
unfolding nat_eq
fold c =
    if leb b'A' c && leb c b'Z'
    then (c + 32) ∷ []
    else if c == 0xDF || c == 0x1E9E
    then b's' ∷ b's' ∷ []
    else if c == 0x17F
    then b's' ∷ []
    else if c == 0x212A
    then b'k' ∷ []
    else c ∷ []

unfoldable pub casefold : List ℕ → List ℕ
unfolding fold
casefold [] = []
casefold (c ∷ s) = fold c ++ casefold s

abbrev pub same_codes : List ℕ → List ℕ → Bool
same_codes [] [] = true
same_codes (c ∷ s) (d ∷ t) = c == d && same_codes s t
same_codes _ _ = false

-- `str(value or "").casefold() == word`. The text of a value that is no text is none of the words
-- that the code compares with.
unfoldable pub reads : String → Json → Bool
unfolding casefold nat_eq
reads word (Json.str s) = same_codes (casefold (codes s)) (codes word)
reads word _ = false
