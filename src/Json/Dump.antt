-- ===== src/Json/Dump.antt =====
-- `str(n)` of an integer, and `json.dumps(value, sort_keys=True, separators=(",", ":"))` of a dict
-- that is written with its keys in order.
use Prim.Native.Char.{code}
use rawrz.Prelude.{
  ℕ, zero, suc, ◌+◌, ◌-◌, ◌/◌, ◌%◌, ◌<>◌, ◌||◌, true, false, List, [], ◌∷◌, String, ltb, leb,
  if◌then◌else◌, ◌==◌, nat_eq,
}
use rawrz.Json.{Json, Items, Fields}
use rawrz.Json.Int.{ℤ, pos, negsuc}

abbrev nth : ℕ → List String → String
nth n [] = ""
nth zero (s ∷ rest) = s
nth (suc n) (s ∷ rest) = nth n rest

abbrev digits : List String
digits =
    "0" ∷ "1" ∷ "2" ∷ "3" ∷ "4" ∷ "5" ∷ "6" ∷ "7" ∷ "8" ∷ "9" ∷ "a" ∷ "b" ∷ "c" ∷ "d" ∷ "e" ∷ "f"
    ∷ []

abbrev digit : ℕ → String
digit n = nth n digits

-- A number has no more digits than its value and one.
unfoldable decimal_loop : ℕ → ℕ → String → String
decimal_loop zero n s = s
decimal_loop (suc fuel) n s = elim (ltb n 10) [
  | true ↦ digit n <> s
  | false ↦ decimal_loop fuel (n / 10) (digit (n % 10) <> s)
]

unfoldable pub decimal : ℤ → String
unfolding decimal_loop
decimal (pos n) = decimal_loop (suc n) n ""
decimal (negsuc n) = "-" <> decimal_loop (suc (suc n)) (suc n) ""

abbrev hex4 : ℕ → String
hex4 n =
    "\\u" <> digit (n / 4096 % 16) <> digit (n / 256 % 16) <> digit (n / 16 % 16) <> digit (n % 16)

-- A character beyond the 16-bit range is written as a pair of surrogates.
abbrev unicode : ℕ → String
unicode n =
    if ltb n 65536
    then hex4 n
    else hex4 (55296 + (n - 65536) / 1024) <> hex4 (56320 + (n - 65536) % 1024)

unfoldable pub escape : String → String
unfolding nat_eq
escape String.[] = ""
escape (String.◌∷◌ c s) =
    let rest = escape s in
    if code c == b'"'
    then "\\\"" <> rest
    else if code c == b'\\'
    then "\\\\" <> rest
    else if code c == 10
    then "\\n" <> rest
    else if code c == 13
    then "\\r" <> rest
    else if code c == 9
    then "\\t" <> rest
    else if code c == 8
    then "\\b" <> rest
    else if code c == 12
    then "\\f" <> rest
    else if ltb (code c) 32 || leb 127 (code c)
    then unicode (code c) <> rest
    else String.◌∷◌ c rest

abbrev quoted : String → String
quoted s = "\"" <> escape s <> "\""

unfoldable mutual
  pub dump : Json → String
  dump Json.null = "null"
  dump (Json.bool true) = "true"
  dump (Json.bool false) = "false"
  dump (Json.int z) = decimal z
  dump (Json.real z places) = decimal z <> "e-" <> decimal (pos places)
  dump (Json.str s) = quoted s
  dump (Json.arr Items.nil) = "[]"
  dump (Json.arr (Items.item v vs)) = "[" <> dump v <> dump_items vs <> "]"
  dump (Json.obj Fields.end) = "{}"
  dump (Json.obj (Fields.field k v d)) = "{" <> quoted k <> ":" <> dump v <> dump_fields d <> "}"

  dump_items : Items → String
  dump_items Items.nil = ""
  dump_items (Items.item v vs) = "," <> dump v <> dump_items vs

  dump_fields : Fields → String
  dump_fields Fields.end = ""
  dump_fields (Fields.field k v d) = "," <> quoted k <> ":" <> dump v <> dump_fields d
