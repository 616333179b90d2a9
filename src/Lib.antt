-- ===== src/Lib.antt =====
-- Python tools that look after a media server.
--
-- The scoped search for missing episodes (scripts/search_missing_scoped_core.py with
-- scripts/search_missing_scoped_checkpoint.py): a tool that asks Sonarr for the missing episodes of
-- some series, groups them by season, cuts the groups into batches, posts one search command for
-- each group and waits for it, and keeps a checkpoint file so that a run which was stopped can be
-- resumed without posting a command again.
--
-- The watcher of the nzbdav container (scripts/watch_nzbdav_backend.py): started every minute, it
-- probes the frontend and the backend, and restarts a container whose backend is down, unless it was
-- restarted too often.
--
-- The drain of a Sonarr or Radarr queue (scripts/drain_sonarr_queue.py): it imports stuck downloads
-- and removes those that cannot be imported; with `--auto-safe` it imports what it can prove.
--
-- The login of the archived control panel
-- (archive/control-panel/control-panel/django/auth_app/rate_limit.py and views.py): an address with
-- five failures within five minutes is locked out for fifteen.
--
-- The arrival notifier (scripts/arrival_notifier.py): started every 15 minutes, it sends one Discord
-- message for each Seerr request whose media has arrived, and refreshes Plex.
--
-- The activity feed (scripts/activity_feed.py): it polls the history of Radarr and Sonarr with a cursor
-- and records what was imported and deleted.
--
-- The import starvation check of the control panel
-- (archive/control-panel/control-panel/django/core/import_starvation.py): it finds apps whose refresh
-- waits behind searches, and removes the searches that are queued.
--
-- The Dropbox backup (scripts/backup_dropbox.py): it streams a tar archive of the repository into an
-- upload session, chunk by chunk, and then deletes the oldest snapshots.
--
-- The parts, and where they are modelled:
-- - Prelude: Boolean tests, lists, equality, a result type for code that raises, a stable sort, and
--   the order of texts.
-- - Exec: code that may raise, as a step on a world, with rules for invariants (Exec/Keeps), for what
--   is returned (Exec/Ends), for code that comes to an end (Exec/Halts) and for code that returns
--   (Exec/Works).
-- - Json: the values that `json.loads` returns, with Python's tests on them (`_positive_int`,
--   `_nonnegative_int`, `dict.get`, `set(d) == {...}`); Json/Words has `_as_int`, `strip` and
--   `casefold`; Json/Dump has `json.dumps`; Json/Int the integers over the native numbers.
-- - Search/Plan: `build_groups`, `split_batches`, `search_commands_for` and `group_identity`. The dict
--   of `build_groups` is an association list in insertion order. An episode has the fields that are
--   read, and a key that is absent is `none`.
-- - Search/Checkpoint: `CheckpointStore._validate`, `_validate_group` and `is_complete`, over JSON.
-- - Search/State: the checkpoint dict as a record, with `_checkpoint_plan`, `_checkpoint_group`, and
--   `encode`, the JSON of a checkpoint, which the validation reads.
-- - Search/Config: `SearchConfig` with `validate` and `checkpoint_config`.
-- - Search/Engine: `Service` is what the engine meets outside: Sonarr behind `SonarrClient` and
--   `Verifier` (`fetch_missing`, `post_command`, `command_status`, `capture`,
--   `verify_until_quiet`), the clock (`now`, `sleep`) and the replacement of the file (`replace`).
--   It is a parameter of all that follows: any answer, any exception and any state of it. Its three
--   reads go through pages until the last one, which a server can put off forever, so they may be
--   `stuck`; that they are not is a hypothesis where it matters. A `World` is its state, the file at the
--   checkpoint path of the engine's configuration and, for the statements alone, the seasons whose
--   command was posted. A process that is killed between two steps shows as a step that raises, since
--   the engine lets exceptions of those steps pass.
-- - Search/Engine/Command: `_command_result` and `wait_for_command`.
-- - Search/Engine/Apply: `SearchEngine._apply_group`. The group state is an object inside of the
--   checkpoint document; the model has it apart, with `fill`, which puts it back.
-- - Search/Engine/Loop: `SearchEngine.run`, its plans and its one loop over the batches, of applied and
--   of dry runs, and the loop over the groups.
-- - Search/Engine/Loop/Runs: runs one after another over the checkpoint files by their paths; each run
--   has the file that its configuration names.
-- - Search/Client: `SonarrClient` over a `Sonarr`, which stands for `_request` at each path and for
--   the clocks: `fetch_missing`, the page loops, `queue_key` and the watermark.
-- - Search/Verifier: `Verifier` over the same: what a search has grabbed, by the history and the
--   queue, which titles are not what was searched for, and the wait for a quiet queue.
-- - Search/Reads: `sonarr`, the `Service` whose three reads are those of the client and the verifier.
-- - Search/Tests: runs at concrete data.
--
-- - Watch: `watch` and `check_only` over a `Host` (the probes, `docker compose restart`, the webhook,
--   the clock and the replacement of the state file). A `World` is the host's state, the state file
--   and, for the statements alone, the attempts to restart, each with the time at which its run read the
--   clock and the time of the call.
-- - Drain: `drain`, `import_one`, `preview_safe` and what they call over an `Api`, which stands for
--   `_request` at each path. A `World` is its state and, for the statements alone, the files of the
--   import commands and the ids of the removals that were sent. An exception of the queue request is
--   taken for one of those that `drain` catches.
-- - Login: `login_view`, `logout_view` and the limiter that they call over a `Panel` (the clock, the
--   audit log, the users and the check of a password). The two dicts are association lists
--   (Login/Assoc), and what is read from the clock may change with each reading.
-- - Arrivals: the records and the decisions; Arrivals/Notifier: `classify_run` and `run` over a `Host`
--   (Seerr, the *arrs, Plex, the webhook, the clock, and whether the state file can be written); in
--   Arrivals/Message the texts and the URLs. A `World` is the host's state, the state file and, for the
--   statements alone, the ids of the messages that went through.
-- - Feed: the records, the kinds and the cursor; Feed/Poll: `history_pages` and `run` over a `Host` (the
--   history, the cache, the clock and the writes). A `World` is its state and the four files.
-- - Starvation: the two signals, `detect`, `clear_search_backlog` and `check_all` over a `Host` (the
--   commands, the history and the removal of a command). A `World` is its state and, for the
--   statements alone, the removals that were sent. Times are whole milliseconds.
-- - Backup: the exclusions and the data; Backup/Upload: the requests with their retries, the session,
--   the pruning and `main` over a `Host` (Dropbox, tar and the clock). A `World` is its state and, for
--   the statements alone, the requests that were answered with 200. Backup/Session has the protocol of
--   an upload session as a machine that reads these requests. The archive is the list of what the
--   reads of the output of tar return; the retries are four.
--
-- Fuel: the wait for a search command polls every second until five minutes have passed, and has 301 rounds. Each round
-- but the last sleeps a whole second by a monotonic clock, so the deadline passes within them. A
-- wait without fuel left is `stuck`, an outcome that no code reads; what is said of a run is said of
-- that outcome too. Times are whole milliseconds.
-- The wait of the watcher has 19 rounds of five seconds for its ninety.
--
-- A page loop of the client has no bound in the code; it reads `fuel` pages, and one page more than
-- there are records is enough against a server that pages a fixed list. The quiet wait has a round for
-- each second of its window and one more. So it is with the requests of Seerr.
--
-- Left out: the transport of `SonarrClient`, `_parse_air_date`, the command line, the temporary file of
-- `CheckpointStore.write` and a checkpoint file that another program has edited (a file is absent,
-- unreadable, or holds a checkpoint of the engine's form, which is validated when it is loaded);
-- digits outside ASCII in a command id that is a text; the batch numbers in the text of a summary.
-- The other tools of the repository are not modelled.
pub mod Prelude
pub mod Exec
pub mod Json
pub mod Search
pub mod Watch
pub mod Drain
pub mod Login
pub mod Arrivals
pub mod Feed
pub mod Starvation
pub mod Backup
