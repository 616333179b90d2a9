-- ===== src/Arrivals/Message.antt =====
-- `build_message` and the URLs of scripts/arrival_notifier.py.
use Prim.Native.Char.{code}
use rawrz.Prelude.{
  ℕ, ◌<>◌, Bool, false, Option, some, List, [], ◌∷◌, String, ltb, if◌then◌else◌, ◌==◌, nat_eq,
  string_eq,
}
use rawrz.Json.Int.{pos}
use rawrz.Json.Dump.{decimal}
use rawrz.Json.Words.{codes}

-- `"%02d" % n`
unfoldable pub two_digits : ℕ → String
unfolding decimal
two_digits n = if ltb n 10 then "0" <> decimal (pos n) else decimal (pos n)

-- `" S%02dE%02d"`, if both numbers are there.
unfoldable pub place : Option ℕ → Option ℕ → String
unfolding two_digits
place (some s) (some e) = " S" <> two_digits s <> "E" <> two_digits e
place _ _ = ""

abbrev pub last_is : ℕ → List ℕ → Bool
last_is c [] = false
last_is c (d ∷ []) = d == c
last_is c (d ∷ e ∷ s) = last_is c (e ∷ s)

-- `url.endswith("/")`
unfoldable pub ends_with_slash : String → Bool
unfolding nat_eq
ends_with_slash s = last_is b'/' (codes s)

-- `path.lstrip("/")`
unfoldable pub lstrip_slash : String → String
lstrip_slash String.[] = ""
lstrip_slash (String.◌∷◌ c s) =
    let rest = lstrip_slash s in if code c == b'/' then rest else String.◌∷◌ c s

-- The URL of `fetch_json`.
unfoldable pub url_of : String → String → String
unfolding ends_with_slash lstrip_slash
url_of base path = base <> (if ends_with_slash base then "" else "/") <> lstrip_slash path
