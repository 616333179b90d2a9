-- ===== src/Search/State.antt =====
-- The state that a run of scripts/search_missing_scoped_core.py keeps in its checkpoint, and the
-- JSON that it is written as.
use rawrz.Prelude.{ℕ, suc, Bool, Option, none, some, List, [], ◌∷◌, map, String}
use rawrz.Json.{Json, Items, Fields}
use rawrz.Json.Int.{ℤ, pos}
use rawrz.Search.Plan.{Identity, Group, group_identity}

pub data Status : Type 0 where
  pending running completed failed : Status

pub data VerificationStatus : Type 0 where
  pending not_requested ok unavailable aborted failed : VerificationStatus

-- `{"id": ..., "status": ..., "result": ...}`; Sonarr's status and result are kept as they came.
pub record Command : Type 0 where
  pub id : Option ℕ
  pub status : Json
  pub result : Json

pub record Snapshot : Type 0 where
  pub watermark : Option (String × ℤ)
  pub before_ids : List String

pub record Verification : Type 0 where
  pub status : VerificationStatus
  pub history_available : Option Bool
  pub history_count : ℕ
  pub queue_count : ℕ

pub record GroupState : Type 0 where
  pub identity : Identity
  pub status : Status
  pub command : Command
  pub snapshot : Option Snapshot
  pub verification : Verification

pub record Batch : Type 0 where
  pub number : ℕ
  pub groups : List GroupState

-- `checkpoint_config()`; no scope list is the mode "all".
pub record CheckpointConfig : Type 0 where
  pub scope : Option (List ℕ)
  pub url : String
  pub batch_size : ℤ
  pub gap : ℤ
  pub quiet_window : ℤ
  pub checkpoint : Bool
  pub verify : Bool
  pub timeout : ℤ

pub record Checkpoint : Type 0 where
  pub config : CheckpointConfig
  pub batches : List Batch

abbrev pub no_command : Command
no_command = record { id = none; status = Json.null; result = Json.null }

abbrev pub no_verification : VerificationStatus → Verification
no_verification s = record {
  status = s;
  history_available = none;
  history_count = 0;
  queue_count = 0;
}

unfoldable pub checkpoint_group : Group → GroupState
unfolding group_identity
checkpoint_group group = record {
  identity = group_identity group;
  status = Status.pending;
  command = no_command;
  snapshot = none;
  verification = no_verification VerificationStatus.pending;
}

unfoldable pub number_batches : ℕ → List (List Group) → List Batch
unfolding checkpoint_group
number_batches n [] = []
number_batches n (batch ∷ batches) =
    record { number = n; groups = map checkpoint_group batch } ∷ number_batches (suc n) batches

-- `_checkpoint_plan`
unfoldable pub checkpoint_plan : CheckpointConfig → List (List Group) → Checkpoint
unfolding number_batches
checkpoint_plan config batches = record { config = config; batches = number_batches 1 batches }

-- The JSON of the parts.
abbrev number : ℕ → Json
number n = Json.int (pos n)

abbrev optional {ℓ} : {A : Type ℓ} → (A → Json) → Option A → Json
optional f none = Json.null
optional f (some a) = f a

unfoldable pub items {ℓ} : {A : Type ℓ} → (A → Json) → List A → Items
items f [] = Items.nil
items f (x ∷ xs) = Items.item (f x) (items f xs)

abbrev pub status_text : Status → String
status_text Status.pending = "pending"
status_text Status.running = "running"
status_text Status.completed = "completed"
status_text Status.failed = "failed"

abbrev pub verification_text : VerificationStatus → String
verification_text VerificationStatus.pending = "pending"
verification_text VerificationStatus.not_requested = "not_requested"
verification_text VerificationStatus.ok = "ok"
verification_text VerificationStatus.unavailable = "unavailable"
verification_text VerificationStatus.aborted = "aborted"
verification_text VerificationStatus.failed = "failed"

abbrev one_field : String → Json → Fields → Fields
one_field = Fields.field

unfoldable pub encode_identity : Identity → Json
unfolding items
encode_identity i = Json.obj (
    one_field "seriesId" (number i.series_id) (
      one_field "seasonNumber" (number i.season_number)
        (one_field "episodeIds" (Json.arr (items number i.episode_ids)) Fields.end)))

unfoldable pub encode_command : Command → Json
encode_command c = Json.obj (
    one_field "id" (optional number c.id)
      (one_field "status" c.status (one_field "result" c.result Fields.end)))

unfoldable pub encode_watermark : String × ℤ → Json
encode_watermark (date, id) =
    Json.arr (Items.item (Json.str date) (Items.item (Json.int id) Items.nil))

-- `as_checkpoint`
unfoldable pub encode_snapshot : Snapshot → Json
unfolding items encode_watermark
encode_snapshot s = Json.obj (
    one_field "watermark" (optional encode_watermark s.watermark)
      (one_field "beforeIds" (Json.arr (items Json.str s.before_ids)) Fields.end))

unfoldable pub encode_verification : Verification → Json
encode_verification v = Json.obj (
    one_field "status" (Json.str (verification_text v.status)) (
      one_field "historyAvailable" (optional Json.bool v.history_available) (
        one_field "historyCount" (number v.history_count)
          (one_field "queueCount" (number v.queue_count) Fields.end))))

unfoldable pub encode_group : GroupState → Json
unfolding encode_identity encode_command encode_snapshot encode_verification
encode_group g = Json.obj (
    one_field "identity" (encode_identity g.identity) (
      one_field "status" (Json.str (status_text g.status)) (
        one_field "command" (encode_command g.command) (
          one_field "snapshot" (optional encode_snapshot g.snapshot)
            (one_field "verification" (encode_verification g.verification) Fields.end)))))

unfoldable pub encode_batch : Batch → Json
unfolding items encode_group
encode_batch b = Json.obj (
    one_field "number" (number b.number)
      (one_field "groups" (Json.arr (items encode_group b.groups)) Fields.end))

unfoldable pub encode_scope : Option (List ℕ) → Json
unfolding items
encode_scope none =
    Json.obj (one_field "mode" (Json.str "all") (one_field "seriesIds" Json.null Fields.end))
encode_scope (some ids) = Json.obj (
    one_field "mode" (Json.str "series")
      (one_field "seriesIds" (Json.arr (items number ids)) Fields.end))

unfoldable pub encode_config : CheckpointConfig → Json
unfolding encode_scope
encode_config c = Json.obj (
    one_field "scope" (encode_scope c.scope) (
      one_field "url" (Json.str c.url) (
        one_field "batchSize" (Json.int c.batch_size) (
          one_field "gap" (Json.int c.gap) (
            one_field "quietWindow" (Json.int c.quiet_window) (
              one_field "checkpoint" (Json.bool c.checkpoint) (
                one_field "verify" (Json.bool c.verify)
                  (one_field "timeout" (Json.int c.timeout) Fields.end))))))))

unfoldable pub encode : Checkpoint → Json
unfolding items encode_config encode_batch
encode c = Json.obj (
    one_field "version" (number 1) (
      one_field "config" (encode_config c.config)
        (one_field "batches" (Json.arr (items encode_batch c.batches)) Fields.end)))
