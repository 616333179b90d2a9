-- ===== src/Search/Checkpoint.antt =====
-- scripts/search_missing_scoped_checkpoint.py: what `CheckpointStore._validate` accepts, over the
-- JSON value that is read or about to be written.
use rawrz.Prelude.{
  ℕ, suc, Bool, true, false, ◌&&◌, ◌||◌, not, Option, none, some, List, [], ◌∷◌, ◌++◌, String,
  if◌then◌else◌, ◌==◌, string_eq, nat_eq, contains, any, ◌^◌,
}
use rawrz.Prelude.Result.{Result, ok, err, ◌>>=◌, ◌>>◌, require}
use rawrz.Search.Plan.{same_key}
use rawrz.Json.{
  Json, Items, Fields, get, has_keys, positive_int, nonnegative_int, is_bool, is_str, is_null,
  is_one_of, all_items, is_nil, is_blank,
}
use rawrz.Json.Int.{ℤ}

abbrev config_keys : List String
config_keys =
    "scope" ∷ "url" ∷ "batchSize" ∷ "gap" ∷ "quietWindow" ∷ "checkpoint" ∷ "verify" ∷ "timeout" ∷ []

abbrev group_keys : List String
group_keys = "identity" ∷ "status" ∷ "command" ∷ "snapshot" ∷ "verification" ∷ []

abbrev group_statuses : List String
group_statuses = "pending" ∷ "running" ∷ "completed" ∷ "failed" ∷ []

abbrev verification_statuses : List String
verification_statuses =
    "pending" ∷ "not_requested" ∷ "ok" ∷ "unavailable" ∷ "aborted" ∷ "failed" ∷ []

abbrev safe_statuses : List String
safe_statuses = "ok" ∷ "not_requested" ∷ "unavailable" ∷ []

-- `isinstance(value, dict) and set(value) == {names}`, or the exception.
unfoldable pub object_with : List String → String → Json → Result Fields
unfolding has_keys
object_with names e (Json.obj d) = require (has_keys names d) e >> ok d
object_with names e _ = err e

-- `isinstance(value, list) and value and all(p(v) for v in value)`
unfoldable pub nonempty_list : (Json → Bool) → Json → Bool
unfolding all_items
nonempty_list p (Json.arr vs) = not (is_nil vs) && all_items p vs
nonempty_list p _ = false

unfoldable pub list_of : (Json → Bool) → Json → Bool
unfolding all_items
list_of p (Json.arr vs) = all_items p vs
list_of p _ = false

unfoldable pub null_or : (Json → Bool) → Json → Bool
unfolding is_null
null_or p v = is_null v || p v

unfoldable pub fields_of : Json → Fields
fields_of (Json.obj d) = d
fields_of _ = Fields.end

-- A value that has passed `_positive_int` or `_nonnegative_int`, as a number.
unfoldable pub number_of : Json → ℕ
number_of (Json.int (ℤ.pos n)) = n
number_of _ = 0

unfoldable pub numbers_of : Items → List ℕ
unfolding number_of
numbers_of Items.nil = []
numbers_of (Items.item v vs) = number_of v ∷ numbers_of vs

unfoldable pub items_of : Json → Items
items_of (Json.arr vs) = vs
items_of _ = Items.nil

unfoldable pub valid_identity : Fields → Bool
unfolding positive_int nonnegative_int nonempty_list get
valid_identity d =
    positive_int (get "seriesId" d)
    && nonnegative_int (get "seasonNumber" d)
    && nonempty_list positive_int (get "episodeIds" d)

unfoldable pub valid_command : Fields → Bool
unfolding positive_int is_str null_or get
valid_command d =
    null_or positive_int (get "id" d)
    && null_or is_str (get "status" d)
    && null_or is_str (get "result" d)

-- A list of a text and a number that is not negative.
unfoldable pub valid_watermark : Json → Bool
unfolding is_str nonnegative_int
valid_watermark (Json.arr (Items.item a (Items.item b Items.nil))) = is_str a && nonnegative_int b
valid_watermark _ = false

unfoldable pub check_snapshot : Json → Result (Unit {0})
unfolding object_with list_of null_or valid_watermark is_str get
check_snapshot Json.null = ok tt
check_snapshot v = do
  d ← object_with ("watermark" ∷ "beforeIds" ∷ []) "checkpoint snapshot is invalid" v
  require (null_or valid_watermark (get "watermark" d)) "checkpoint watermark is invalid"
  require (list_of is_str (get "beforeIds" d)) "checkpoint queue snapshot is invalid"

unfoldable pub valid_verification : Fields → Bool
unfolding is_one_of null_or is_bool nonnegative_int get
valid_verification d =
    is_one_of verification_statuses (get "status" d)
    && null_or is_bool (get "historyAvailable" d)
    && nonnegative_int (get "historyCount" d)
    && nonnegative_int (get "queueCount" d)

-- The rules that tie the status of a group to the rest of its state.
unfoldable pub check_status : Json → Fields → Json → Json → Result (Unit {0})
unfolding is_one_of is_null get
check_status status command snapshot verification_status = do
  require
      (not (is_one_of ("pending" ∷ []) status)
        || (is_null (get "id" command)
            && is_null (get "status" command)
            && is_null (get "result" command)
            && is_null snapshot
            && is_one_of ("pending" ∷ []) verification_status))
      "pending checkpoint group has execution state"
  require (not (is_one_of ("running" ∷ []) status) || not (is_null snapshot))
      "running checkpoint group is incomplete"
  require
      (not (is_one_of ("running" ∷ []) status)
        || not (is_null (get "id" command))
        || (is_null (get "status" command)
            && is_null (get "result" command)
            && is_one_of ("pending" ∷ []) verification_status))
      "ambiguous running checkpoint is invalid"
  require
      (not (is_one_of ("completed" ∷ []) status)
        || (not (is_null (get "id" command))
            && not (is_null snapshot)
            && is_one_of safe_statuses verification_status))
      "completed checkpoint group is incomplete"
  require
      (not (is_one_of ("failed" ∷ []) status)
        || (not (is_null (get "id" command))
            && not (is_null snapshot)
            && is_one_of ("failed" ∷ "aborted" ∷ []) verification_status))
      "failed checkpoint group is incomplete"

-- `_validate_group`; the identity that it accepted.
unfoldable pub validate_group : Json → Result Fields
unfolding object_with valid_identity is_one_of valid_command check_snapshot valid_verification
    check_status get
validate_group group = do
  d ← object_with group_keys "checkpoint contains an incomplete group" group
  identity ←
      object_with ("seriesId" ∷ "seasonNumber" ∷ "episodeIds" ∷ [])
        "checkpoint group identity is invalid" (get "identity" d)
  require (valid_identity identity) "checkpoint group identity is invalid"
  require (is_one_of group_statuses (get "status" d)) "checkpoint group status is invalid"
  command ←
      object_with ("id" ∷ "status" ∷ "result" ∷ []) "checkpoint command state is invalid"
        (get "command" d)
  require (valid_command command) "checkpoint command state is invalid"
  check_snapshot (get "snapshot" d)
  verification ←
      object_with ("status" ∷ "historyAvailable" ∷ "historyCount" ∷ "queueCount" ∷ [])
        "checkpoint verification state is invalid" (get "verification" d)
  require (valid_verification verification) "checkpoint verification state is invalid"
  check_status (get "status" d) command (get "snapshot" d) (get "status" verification)
  ok identity

abbrev pub SeasonKey : Type 0
SeasonKey = ℕ × ℕ

-- The sets that `_validate` fills: the season keys and the episode ids that it has met.
pub record Seen : Type 0 where
  pub group_keys : List SeasonKey
  pub episode_ids : List ℕ

abbrev pub identity_key : Fields → SeasonKey
identity_key d = (number_of (get "seriesId" d), number_of (get "seasonNumber" d))

abbrev pub identity_episodes : Fields → List ℕ
identity_episodes d = numbers_of (items_of (get "episodeIds" d))

abbrev pub has_season : SeasonKey → List SeasonKey → Bool
has_season k = any (same_key k)

abbrev pub allowed_in : Option (List ℕ) → ℕ → Bool
allowed_in none n = true
allowed_in (some ids) n = contains ids n

unfoldable pub add_episodes : List ℕ → List ℕ → Result (List ℕ)
add_episodes seen [] = ok seen
add_episodes seen (n ∷ ids) =
    require (not (contains seen n)) "checkpoint repeats an episode identity"
    >> add_episodes (n ∷ seen) ids

unfoldable pub add_identity : Option (List ℕ) → Seen → Fields → Result Seen
unfolding add_episodes number_of numbers_of items_of get
add_identity allowed seen identity = do
  require (allowed_in allowed (number_of (get "seriesId" identity)))
      "checkpoint group falls outside its series scope"
  require (not (has_season (identity_key identity) seen.group_keys))
      "checkpoint repeats a season group"
  episodes ← add_episodes seen.episode_ids (identity_episodes identity)
  ok (record { group_keys = identity_key identity ∷ seen.group_keys; episode_ids = episodes })

unfoldable pub validate_groups : Option (List ℕ) → Seen → Items → Result Seen
unfolding validate_group add_identity
validate_groups allowed seen Items.nil = ok seen
validate_groups allowed seen (Items.item group groups) = do
  identity ← validate_group group
  next ← add_identity allowed seen identity
  validate_groups allowed next groups

-- A batch: its number and its groups.
unfoldable pub open_batch : Json → Result (ℕ × Items)
unfolding object_with positive_int number_of items_of get nonempty_list
open_batch batch = do
  d ← object_with ("number" ∷ "groups" ∷ []) "checkpoint contains an incomplete batch" batch
  require (positive_int (get "number" d) && nonempty_list (λ _. true) (get "groups" d))
      "checkpoint contains an incomplete batch"
  ok (number_of (get "number" d), items_of (get "groups" d))

-- The loop over the batches; the numbers that it has collected, and what the groups hold.
unfoldable pub validate_batches : Option (List ℕ) → List ℕ → Seen → Items → Result (List ℕ × Seen)
unfolding open_batch validate_groups
validate_batches allowed numbers seen Items.nil = ok (numbers, seen)
validate_batches allowed numbers seen (Items.item batch batches) = do
  (number, groups) ← open_batch batch
  next ← validate_groups allowed seen groups
  validate_batches allowed (numbers ++ (number ∷ [])) next batches

-- `numbers == list(range(first, first + len(numbers)))`
unfoldable pub counts_from : ℕ → List ℕ → Bool
counts_from first [] = true
counts_from first (n ∷ numbers) = n == first && counts_from (suc first) numbers

-- The series that the scope allows; `none` is no restriction.
unfoldable pub check_scope : Json → Result (Option (List ℕ))
unfolding object_with is_one_of nonempty_list positive_int is_null numbers_of items_of get
check_scope scope = do
  d ← object_with ("mode" ∷ "seriesIds" ∷ []) "checkpoint scope is invalid" scope
  require (is_one_of ("all" ∷ "series" ∷ []) (get "mode" d)) "checkpoint scope is invalid"
  if is_one_of ("series" ∷ []) (get "mode" d)
      then (do
        require (nonempty_list positive_int (get "seriesIds" d))
            "checkpoint series scope is invalid"
        ok (some (numbers_of (items_of (get "seriesIds" d)))))
      else (do
        require (is_null (get "seriesIds" d)) "checkpoint all scope must not contain series IDs"
        ok none)

unfoldable pub is_filled_str : Json → Bool
unfolding is_blank
is_filled_str (Json.str s) = not (is_blank s)
is_filled_str _ = false

unfoldable pub check_config : Json → Result (Option (List ℕ))
unfolding object_with is_filled_str check_scope positive_int nonnegative_int is_bool get
check_config config = do
  d ← object_with config_keys "checkpoint config is incomplete" config
  require (is_filled_str (get "url" d)) "checkpoint URL is invalid"
  allowed ← check_scope (get "scope" d)
  require
      (positive_int (get "batchSize" d)
        && nonnegative_int (get "gap" d)
        && positive_int (get "quietWindow" d)
        && is_bool (get "checkpoint" d)
        && is_bool (get "verify" d)
        && positive_int (get "timeout" d))
      "checkpoint execution config is invalid"
  ok allowed

-- m / 10^k is 1.
unfoldable pub is_one : ℤ → ℕ → Bool
is_one (ℤ.pos n) k = n == 10 ^ k
is_one (ℤ.negsuc n) k = false

-- `value == 1`, which in Python `True` and `1.0` meet too.
unfoldable pub is_version : Json → Bool
unfolding is_one
is_version (Json.int (ℤ.pos n)) = n == 1
is_version (Json.bool b) = b
is_version (Json.real m k) = is_one m k
is_version _ = false

-- `_validate`
unfoldable pub validate : Json → Result (Unit {0})
unfolding get is_version check_config nonempty_list items_of validate_batches counts_from
validate (Json.obj d) = do
  require (is_version (get "version" d)) "checkpoint has an unsupported version"
  allowed ← check_config (get "config" d)
  require (nonempty_list (λ _. true) (get "batches" d)) "checkpoint is missing planned batches"
  (numbers, seen) ←
      validate_batches allowed [] (record { group_keys = []; episode_ids = [] })
        (items_of (get "batches" d))
  require (counts_from 1 numbers) "checkpoint batch numbering is invalid"
validate _ = err "checkpoint has an unsupported version"

-- `is_complete`, over the groups of a checkpoint that `_validate` accepts.
unfoldable pub group_complete : Json → Bool
unfolding get is_one_of fields_of
group_complete (Json.obj d) =
    is_one_of ("completed" ∷ []) (get "status" d)
    && is_one_of safe_statuses (get "status" (fields_of (get "verification" d)))
group_complete _ = false

unfoldable pub is_complete : Json → Result Bool
unfolding validate group_complete get items_of all_items fields_of
is_complete document = do
  validate document
  ok (
      all_items (λ b. all_items group_complete (items_of (get "groups" (fields_of b))))
        (items_of (get "batches" (fields_of document))))
