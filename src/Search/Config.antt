-- ===== src/Search/Config.antt =====
-- `SearchConfig` of scripts/search_missing_scoped_core.py.

use Prim.Native.String.{[], ◌∷◌}
use Prim.Native.Char.{code}
use mathlib.Core.List
use rawrz.Prelude.{
  ℕ, Bool, true, false, ◌&&◌, not, Option, none, some, String, ltb, leb, if◌then◌else◌, ◌==◌,
  nat_eq, string_eq, contains,
}
use rawrz.Prelude.Sorting.{sort}
use rawrz.Json.{is_blank}
use rawrz.Json.Int.{ℤ, pos, negsuc}
use rawrz.Search.State.{CheckpointConfig}

pub record SearchConfig : Type 0 where
  pub series_ids : Option (List.List ℕ)
  pub all_series : Bool
  pub batch_size : ℤ
  pub gap : ℤ
  pub quiet_window : ℤ
  pub checkpoint : Bool
  pub verify : Bool
  pub apply : Bool
  pub timeout : ℤ
  pub checkpoint_path : String
  pub base_url : String

abbrev pub positive : ℤ → Bool
positive (pos n) = ltb 0 n
positive (negsuc n) = false

abbrev nonnegative : ℤ → Bool
nonnegative (pos n) = true
nonnegative (negsuc n) = false

-- `bool(series_ids)`
abbrev has_series : Option (List.List ℕ) → Bool
has_series none = false
has_series (some List.[]) = false
has_series (some (List.◌∷◌ x xs)) = true

-- `validate`: the first complaint, or none.
unfoldable pub validate : SearchConfig → Option String
unfolding is_blank string_eq
validate c =
    if not (positive c.batch_size)
    then some "batch must be greater than zero"
    else if not (nonnegative c.gap)
    then some "gap cannot be negative"
    else if not (positive c.quiet_window)
    then some "quiet window must be greater than zero"
    else if not (positive c.timeout)
    then some "timeout must be greater than zero"
    else if c.all_series && has_series c.series_ids
    then some "--all cannot be combined with series IDs"
    else if not c.all_series && not (has_series c.series_ids)
    then some "at least one series or --all is required"
    else if is_blank c.base_url
    then some "Sonarr URL is required"
    else if c.apply && c.checkpoint && c.checkpoint_path == ""
    then some "checkpoint path is required for applied runs"
    else none

-- `text.rstrip("/")`
unfoldable pub rstrip_slash : String → String
unfolding nat_eq string_eq
rstrip_slash [] = ""
rstrip_slash (c ∷ s) =
    let rest = rstrip_slash s in if code c == b'/' && rest == "" then "" else c ∷ rest

-- `sorted(set(ids))`
unfoldable pub distinct : List.List ℕ → List.List ℕ
unfolding nat_eq
distinct List.[] = List.[]
distinct (List.◌∷◌ x xs) =
    let rest = distinct xs in if contains rest x then rest else List.◌∷◌ x rest

abbrev ids_of : Option (List.List ℕ) → List.List ℕ
ids_of none = List.[]
ids_of (some ids) = ids

unfoldable pub checkpoint_config : SearchConfig → CheckpointConfig
unfolding rstrip_slash distinct sort
checkpoint_config c = record {
  scope = if c.all_series then none else some (sort leb (distinct (ids_of c.series_ids)));
  url = rstrip_slash c.base_url;
  batch_size = c.batch_size;
  gap = c.gap;
  quiet_window = c.quiet_window;
  checkpoint = c.checkpoint;
  verify = c.verify;
  timeout = c.timeout;
}

abbrev pub same_int : ℤ → ℤ → Bool
same_int (pos m) (pos n) = m == n
same_int (negsuc m) (negsuc n) = m == n
same_int _ _ = false

abbrev same_list : List.List ℕ → List.List ℕ → Bool
same_list List.[] List.[] = true
same_list (List.◌∷◌ x xs) (List.◌∷◌ y ys) = x == y && same_list xs ys
same_list _ _ = false

abbrev same_scope : Option (List.List ℕ) → Option (List.List ℕ) → Bool
same_scope none none = true
same_scope (some a) (some b) = same_list a b
same_scope _ _ = false

abbrev same_bool : Bool → Bool → Bool
same_bool true b = b
same_bool false b = not b

-- `checkpoint.get("config") == self.config.checkpoint_config()`
unfoldable pub same_config : CheckpointConfig → CheckpointConfig → Bool
unfolding nat_eq string_eq
same_config a b =
    same_scope a.scope b.scope
    && a.url == b.url
    && same_int a.batch_size b.batch_size
    && same_int a.gap b.gap
    && same_int a.quiet_window b.quiet_window
    && same_bool a.checkpoint b.checkpoint
    && same_bool a.verify b.verify
    && same_int a.timeout b.timeout
