-- ===== src/Backup/Tests.antt =====
-- A snapshot of five bytes in three chunks, and a folder with three old ones.
use rawrz.Prelude.{
  ℕ, ◌+◌, ◌≡◌, refl, true, false, none, some, List, [], ◌∷◌, if◌then◌else◌, ◌==◌, nat_eq, string_eq,
}
use rawrz.Prelude.Result
use rawrz.Prelude.Sorting.{sort, insert}
use rawrz.Prelude.Text.{str_leb}
use rawrz.Exec.{done, ◌>>=◌, pure, raise}
use rawrz.Exec.Ends.{Returned}
use rawrz.Json.Int.{pos}
use rawrz.Search.Config.{rstrip_slash}
use rawrz.Backup.{
  Host, World, Config, Env, Entry, answered, unreachable, uncompressed, iter_tar_chunks,
  select_doomed,
}
use rawrz.Backup.Session.{committed, replay}
use rawrz.Backup.Stored.{Backed, target, archive, main-Backed}
use rawrz.Backup.Upload.{
  call, sleep, get_token, send, post_with_waits, finish_session, send_rest, send_session,
  upload_session_stream, delete, delete_all, prune_older, finish_tar, stop_tar, stream, try_stream,
  try_prune, main, commit_to,
}

abbrev old_ones : List Entry
old_ones =
    record { name = "thebearcave-backup-3.tar"; is_file = true }
    ∷ record { name = "thebearcave-backup-1.tar"; is_file = true }
    ∷ record { name = "notes"; is_file = false }
    ∷ record { name = "thebearcave-backup-2.tar"; is_file = true }
    ∷ []

-- The state of the network is the number of requests; the second one cannot be answered. Tar exits with
-- the given code.
abbrev small_host : ℕ → Host
small_host exit = record {
  Net = ℕ;
  refresh = λ e n. (unreachable, n);
  post = λ token q n. (
    (if n == 1
        then unreachable
        else answered 200 (Result.ok (record { session_id = some "s"; path_display = none }))),
    n + 1,
  );
  list_folder = λ token folder n. (answered 200 (Result.ok (some old_ones)), n);
  delete = λ token path n. (answered 200 (Result.ok tt), n);
  sleep = λ seconds n. n;
  stamp = λ n. ("20260904-040000", n);
  read_archive = λ patterns flags n. (((1 ∷ 2 ∷ []) ∷ (3 ∷ 4 ∷ []) ∷ (5 ∷ []) ∷ [] ∷ []), n);
  exit_code = λ n. (exit, n);
  stop_tar = λ n. n;
}

abbrev with_token : Env
with_token = record { access_token = "t"; refresh_token = ""; app_key = ""; app_secret = "" }

abbrev nightly : Config
nightly = record {
  env = with_token;
  is_dir = true;
  dropbox_dir = "/Backups/cave/";
  include_dbs = false;
  compression = uncompressed;
  keep = pos 2;
  overwrite = false;
  dry_run = false;
}

abbrev fresh : (exit : ℕ) → World (small_host exit)
fresh exit = record { net = 0; log = []; deleted = [] }

main-Backed_example :
    Returned
      (Backed
        (small_host 0)
        0
        (target (small_host 0) nightly (fresh 0))
        (archive (small_host 0) nightly (fresh 0)))
      (main (small_host 0) nightly (fresh 0))
main-Backed_example = main-Backed (small_host 0) 0 (λ t. refl) nightly (fresh 0) refl refl

-- The night goes well, and the oldest snapshot is deleted.
night_returns : (main (small_host 0) nightly (fresh 0)).0 ≡ done 0
unfolding main call ◌>>=◌ pure raise try_stream stream upload_session_stream get_token send_session
    send_rest finish_session post_with_waits send sleep finish_tar try_prune prune_older delete_all
    delete nat_eq string_eq select_doomed sort insert str_leb iter_tar_chunks stop_tar
night_returns = refl

-- Tar fails: the exit code is 1, yet the archive is committed under its name.
failed_tar_returns : (main (small_host 2) nightly (fresh 2)).0 ≡ done 1
unfolding main call ◌>>=◌ pure raise try_stream stream upload_session_stream get_token send_session
    send_rest finish_session post_with_waits send sleep finish_tar try_prune prune_older delete_all
    delete nat_eq string_eq select_doomed sort insert str_leb iter_tar_chunks stop_tar
failed_tar_returns = refl

failed_tar_commits :
    replay (main (small_host 2) nightly (fresh 2)).1.log
    ≡ committed
        (commit_to "/Backups/cave/thebearcave-backup-20260904-040000.tar" false)
        (1 ∷ 2 ∷ 3 ∷ 4 ∷ 5 ∷ [])
unfolding main call ◌>>=◌ pure raise try_stream stream upload_session_stream get_token send_session
    send_rest finish_session post_with_waits send sleep finish_tar try_prune prune_older delete_all
    delete nat_eq string_eq select_doomed sort insert str_leb iter_tar_chunks stop_tar rstrip_slash
failed_tar_commits = refl
