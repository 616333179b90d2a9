-- ===== src/Backup.antt =====
-- scripts/backup_dropbox.py: a snapshot of the repository that is streamed to Dropbox.
pub mod Upload
pub mod Kept
pub mod Session
pub mod Stored
pub mod Retained
mod Tests
use rawrz.Prelude.{
  ℕ, zero, suc, ◌+◌, ◌-◌, Bool, true, false, ◌&&◌, ◌||◌, not, Option, none, some, List, [], ◌∷◌,
  ◌++◌, String, ◌<>◌, length, take, gather, ltb, if◌then◌else◌, contains, ◌==◌, nat_eq, string_eq,
}
use rawrz.Prelude.Result.{Result}
use rawrz.Prelude.Sorting.{sort}
use rawrz.Prelude.Text.{str_leb}
use rawrz.Exec
use rawrz.Json.Int.{ℤ}

abbrev pub Bytes : Type 0
Bytes = List ℕ

abbrev pub exclude_categories : List (String × List String)
exclude_categories =
    (
      "huge-trees",
      "./config/plex" ∷ "./config/plex-transcode" ∷ "./config/nzbdav" ∷ "./config/_backup-*" ∷ [],
    )
    ∷ (
      "runtime",
      "./data" ∷ "./logs" ∷ "./usenet" ∷ "./backups" ∷ "./.cache" ∷ "./.memsearch" ∷ "./.freebuff"
          ∷ "./.ruff_cache" ∷ "./.worktrees" ∷ "./tmp" ∷ [],
    )
    ∷ (
      "secrets",
      "./.env" ∷ "./.env.local" ∷ "./.env.*.local" ∷ "./secrets" ∷ "./docker-compose.override.yml"
          ∷ "./config/nzbdav-rclone/rclone.conf" ∷ "./config/nzbdav-rclone/cache" ∷ [],
    )
    ∷ ("media", "./media" ∷ [])
    ∷ (
      "generated-cache",
      "./config/*/MediaCover" ∷ "./config/*/Sentry" ∷ "./config/*/cache" ∷ "./config/*/.cache" ∷ [],
    )
    ∷ (
      "metadata",
      "./config/*/*.db" ∷ "./config/*/*.db-wal" ∷ "./config/*/*.db-shm" ∷ "./config/*/*/*.db"
          ∷ "./config/*/Backups" ∷ "./config/*/backup*" ∷ "./config/*/restore" ∷ "./config/*/logs"
          ∷ "./*.log" ∷ "./config/*/*.log" ∷ [],
    )
    ∷ ("hygiene", "./__pycache__" ∷ "./.pytest_cache" ∷ "./*.pyc" ∷ [])
    ∷ []

abbrev patterns_of : Bool → String × List String → List String
patterns_of include_dbs (category, members) =
    if include_dbs && (category == "metadata") then [] else members

unfoldable pub build_exclude_patterns : Bool → List String
unfolding string_eq
build_exclude_patterns include_dbs = gather (patterns_of include_dbs) exclude_categories

pub data Compression : Type 0 where
  gzip uncompressed : Compression

abbrev pub compression_flag : Compression → List String
compression_flag gzip = "-z" ∷ []
compression_flag uncompressed = []

abbrev pub extension : Compression → String
extension gzip = ".tar.gz"
extension uncompressed = ".tar"

-- What the reads of the output of tar yield, up to the first one that is empty.
unfoldable pub iter_tar_chunks : List Bytes → List Bytes
iter_tar_chunks [] = []
iter_tar_chunks ([] ∷ reads) = []
iter_tar_chunks ((b ∷ bs) ∷ reads) = (b ∷ bs) ∷ iter_tar_chunks reads

abbrev pub retry_backoff : List ℕ
retry_backoff = 1 ∷ 2 ∷ 4 ∷ 8 ∷ []

pub record Commit : Type 0 where
  pub path : String
  pub overwrite : Bool
  pub autorename : Bool
  pub mute : Bool

-- The requests of an upload session: an append and a finish carry the id and the offset of their cursor.
pub data Request : Type 0 where
  start : Bytes → Request
  append : String → ℕ → Bytes → Request
  finish : String → ℕ → Commit → Bytes → Request

pub record Reply : Type 0 where
  pub session_id : Option String
  pub path_display : Option String

-- A request that raised a `RequestException`, or the HTTP status and what `resp.json()` makes of the body.
pub data Response (A : Type 0) : Type 0 where
  unreachable : Response A
  answered : ℕ → Result A → Response A

-- The variables of the environment, stripped.
pub record Env : Type 0 where
  pub access_token : String
  pub refresh_token : String
  pub app_key : String
  pub app_secret : String

pub record Entry : Type 0 where
  pub name : String
  pub is_file : Bool

-- Dropbox, tar and the clock. `read_archive` answers what each read of the output of tar returns, and
-- `exit_code` is that of tar once its output was read; `stop_tar` terminates it.
pub record Host : Type 1 where
  pub Net : Type 0
  pub refresh : Env → Net → Response (Option String) × Net
  pub post : String → Request → Net → Response Reply × Net
  pub list_folder : String → String → Net → Response (Option (List Entry)) × Net
  pub delete : String → String → Net → Response Unit × Net
  pub sleep : ℕ → Net → Net
  pub stamp : Net → String × Net
  pub read_archive : List String → List String → Net → List Bytes × Net
  pub exit_code : Net → ℕ × Net
  pub stop_tar : Net → Net

-- `log` has the upload requests that were answered with 200 and a body that can be read, the last one
-- first, and `deleted` the paths whose removal was; no code reads them.
pub record World (H : Host) : Type 0 where
  pub net : H.Net
  pub log : List (Request × Reply)
  pub deleted : List String

abbrev pub Run : Host → Type 0 → Type 0
Run H = Exec.Run (World H)

pub record Config : Type 0 where
  pub env : Env
  pub is_dir : Bool
  pub dropbox_dir : String
  pub include_dbs : Bool
  pub compression : Compression
  pub keep : ℤ
  pub overwrite : Bool
  pub dry_run : Bool

-- The exceptions: `SystemExit` with its code, and others.
abbrev pub exit_1 : String
exit_1 = "SystemExit: 1"

abbrev pub exit_2 : String
exit_2 = "SystemExit: 2"

abbrev pub is_exit : String → Bool
is_exit e = contains (exit_1 ∷ exit_2 ∷ []) e

abbrev pub is_transient : ℕ → Bool
is_transient code = contains (429 ∷ 500 ∷ 502 ∷ 503 ∷ 504 ∷ []) code

abbrev pub is_denied : ℕ → Bool
is_denied code = contains (401 ∷ 403 ∷ []) code

-- `ordered[:-keep]`
abbrev pub all_but : ℕ → List String → List String
all_but zero names = []
all_but (suc k) names = take (length names - suc k) names

-- For a `keep` that is not negative.
unfoldable pub select_doomed : List String → ℕ → List String
unfolding sort
select_doomed names keep =
    let ordered = sort str_leb names in
    if ltb keep (length ordered) then all_but keep ordered else []

abbrev pub names_of : List Entry → List String
names_of [] = []
names_of (e ∷ es) = if e.is_file then e.name ∷ names_of es else names_of es
