-- ===== src/Json.antt =====
-- The values that `json.loads` returns, and Python's tests on them: `isinstance`, `type(v) is int`,
-- truth, `dict.get`, `set(d) == {...}`. A number with a fraction or an exponent is a `real`, kept
-- as a mantissa and the count of decimal places; the code reads none of them as a number.
pub mod Int
pub mod Words
pub mod Dump
use Prim.Native.Char.{code}
use Prim.Native.String
use Prim.Native.String.{[], ◌∷◌}
use mathlib.Core.List
use rawrz.Prelude.{
  ℕ, zero, suc, ◌+◌, ◌*◌, ◌-◌, Bool, true, false, ◌&&◌, ◌||◌, not, Option, none, some, String, leb,
  ltb, if◌then◌else◌, ◌==◌, string_eq, nat_eq, contains, all,
}
use rawrz.Json.Int.{ℤ, pos, negsuc}

mutual
  pub data Json : Type 0 where
    null : Json
    bool : Bool → Json
    int : ℤ → Json
    real : ℤ → ℕ → Json
    str : String → Json
    arr : Items → Json
    obj : Fields → Json

  pub data Items : Type 0 where
    nil : Items
    item : Json → Items → Items

  pub data Fields : Type 0 where
    end : Fields
    field : String → Json → Fields → Fields

-- `d.get(key)`: a missing key reads as `null`.
unfoldable pub get : String → Fields → Json
get k end = null
get k (field j v d) = if k == j then v else get k d

unfoldable pub has_key : String → Fields → Bool
has_key k end = false
has_key k (field j v d) = k == j || has_key k d

keys_in : List.List String → Fields → Bool
keys_in names end = true
keys_in names (field j v d) = contains names j && keys_in names d

-- `set(d) == {names}`
unfoldable pub has_keys : List.List String → Fields → Bool
unfolding has_key keys_in
has_keys names d = all (λ k. has_key k d) names && keys_in names d

-- `type(value) is int and value > 0`
unfoldable pub positive_int : Json → Bool
positive_int (int (pos n)) = ltb 0 n
positive_int _ = false

-- `type(value) is int and value >= 0`
unfoldable pub nonnegative_int : Json → Bool
nonnegative_int (int (pos n)) = true
nonnegative_int _ = false

unfoldable pub is_bool : Json → Bool
is_bool (bool b) = true
is_bool _ = false

unfoldable pub is_str : Json → Bool
is_str (str s) = true
is_str _ = false

unfoldable pub is_null : Json → Bool
is_null null = true
is_null _ = false

-- `value in {words}` for a set of texts; a list or a dict would be unhashable, and is no text.
unfoldable pub is_one_of : List.List String → Json → Bool
is_one_of words (str s) = contains words s
is_one_of words _ = false

unfoldable pub all_items : (Json → Bool) → Items → Bool
all_items p nil = true
all_items p (item v vs) = p v && all_items p vs

abbrev pub is_nil : Items → Bool
is_nil nil = true
is_nil (item v vs) = false

-- The code points that `str.isspace` accepts.
unfoldable pub is_space : ℕ → Bool
is_space c =
    (leb 9 c && leb c 13)
    || (leb 28 c && leb c 32)
    || c == 133
    || c == 160
    || c == 5760
    || (leb 8192 c && leb c 8202)
    || c == 8232
    || c == 8233
    || c == 8239
    || c == 8287
    || c == 12288

-- `not text.strip()`
unfoldable pub is_blank : String → Bool
unfolding is_space nat_eq
is_blank [] = true
is_blank (c ∷ s) = is_space (code c) && is_blank s
