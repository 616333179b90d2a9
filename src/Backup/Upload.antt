-- ===== src/Backup/Upload.antt =====
-- The transport, the pruning and `main` of scripts/backup_dropbox.py.
use rawrz.Prelude.{
  ℕ, zero, suc, ◌+◌, Bool, false, ◌&&◌, not, Option, none, some, List, [], ◌∷◌, String, ◌<>◌,
  length, sum_of, if◌then◌else◌, ◌==◌, nat_eq, string_eq,
}
use rawrz.Prelude.Result.{Result}
use rawrz.Exec.{Outcome, done, raised, stuck, ◌>>=◌, ◌>>◌, pure, raise}
use rawrz.Json.Int.{ℤ, pos, negsuc}
use rawrz.Search.Config.{rstrip_slash}
use rawrz.Backup.{
  Bytes, Commit, Request, start, append, finish, Reply, Response, unreachable, answered, Env, Host,
  Config, Run, exit_1, exit_2, is_exit, is_transient, is_denied, select_doomed, names_of,
  build_exclude_patterns, compression_flag, extension, iter_tar_chunks, retry_backoff,
}

-- What the code in the `try` of `main` comes to: a dry run, an upload of so many bytes, or an exception
-- that is not a `SystemExit`.
pub data Streamed : Type 0 where
  dried : ℕ → Streamed
  sent : ℕ → Streamed
  broken : Streamed

abbrev pub is_filled : String → Bool
is_filled s = not (s == "")

abbrev pub has_refresh : Env → Bool
has_refresh e = is_filled e.refresh_token && is_filled e.app_key && is_filled e.app_secret

abbrev pub noted : Request → Response Reply → List (Request × Reply) → List (Request × Reply)
noted q (answered code (Result.ok r)) log = if code == 200 then (q, r) ∷ log else log
noted q _ log = log

abbrev pub noted_path : String → Response Unit → List String → List String
noted_path path (answered code r) ps = if code == 200 then path ∷ ps else ps
noted_path path unreachable ps = ps

abbrev pub commit_to : String → Bool → Commit
commit_to path overwrite = record {
  path = path;
  overwrite = overwrite;
  autorename = not overwrite;
  mute = false;
}

abbrev pub path_of : Config → String → String
path_of c stamp =
    rstrip_slash c.dropbox_dir <> "/" <> "thebearcave-backup-" <> stamp <> extension c.compression

module _ (H : Host) where
  unfoldable pub call : {A : Type 0} → (H.Net → A × H.Net) → Run H A
  call f w = let (a, t) = f w.net in (done a, record w { net = t })

  unfoldable pub sleep : ℕ → Run H Unit
  sleep n w = (done tt, record w { net = H.sleep n w.net })

  -- `resp.json()`
  abbrev pub body_of : {A : Type 0} → Result A → Run H A
  body_of (Result.ok a) = pure a
  body_of (Result.err e) = raise "ValueError"

  -- `body[key]`
  abbrev pub field_of : {A : Type 0} → Option A → Run H A
  field_of (some a) = pure a
  field_of none = raise "KeyError"

  -- A request that is not tried again, and the exit code when its status is not 200.
  abbrev pub checked : {A : Type 0} → String → Response A → Run H A
  checked exit unreachable = raise "RequestException"
  checked exit (answered code r) = if code == 200 then body_of r else raise exit

  unfoldable pub get_token : Env → Run H String
  unfolding string_eq nat_eq
  get_token e =
      if is_filled e.access_token
      then pure e.access_token
      else if has_refresh e
      then (call (H.refresh e) >>= λ r. checked exit_2 r >>= λ t. field_of t)
      else raise exit_2

  unfoldable pub send : String → Request → Run H (Response Reply)
  unfolding nat_eq
  send token q w =
      let (r, t) = H.post token q w.net in (done r, record w { net = t; log = noted q r w.log })

  abbrev pub after_send : Run H Reply → ℕ → Response Reply → Run H Reply
  after_send again wait unreachable = sleep wait >> again
  after_send again wait (answered code r) =
      if code == 200
      then body_of r
      else if is_transient code
      then (sleep wait >> again)
      else if is_denied code
      then raise exit_2
      else raise exit_1

  unfoldable pub post_with_waits : List ℕ → String → Request → Run H Reply
  unfolding nat_eq
  post_with_waits [] token q = raise exit_1
  post_with_waits (wait ∷ waits) token q =
      let again = post_with_waits waits token q in send token q >>= after_send again wait

  abbrev pub post_with_retry : String → Request → Run H Reply
  post_with_retry = post_with_waits retry_backoff

  -- `total` is `sent` of the code, the number of bytes that were sent.
  unfoldable pub finish_session : String → String → Commit → ℕ → ℕ → Bytes → Run H (Reply × ℕ)
  finish_session token id commit offset total payload =
      post_with_retry token (finish id offset commit payload) >>= λ r.
      pure (r, total + length payload)

  -- The loop over the chunks after the first: `held` was read and not sent.
  unfoldable pub send_rest :
      String → String → Commit → ℕ → ℕ → Bytes → List Bytes → Run H (Reply × ℕ)
  send_rest token id commit offset total held [] = finish_session token id commit offset total held
  send_rest token id commit offset total held (peek ∷ chunks) =
      post_with_retry token (append id offset held)
      >> send_rest token id commit (offset + length held) (total + length held) peek chunks

  unfoldable pub send_session : String → String → Commit → ℕ → List Bytes → Run H (Reply × ℕ)
  send_session token id commit offset [] = finish_session token id commit offset offset []
  send_session token id commit offset (held ∷ chunks) =
      send_rest token id commit offset offset held chunks

  abbrev pub open_session : String → Commit → List Bytes → Run H (Reply × ℕ)
  open_session token commit [] = raise exit_1
  open_session token commit ([] ∷ chunks) = raise exit_1
  open_session token commit ((b ∷ bs) ∷ chunks) = post_with_retry token (start (b ∷ bs)) >>= λ r.
      field_of r.session_id >>= λ id. send_session token id commit (length (b ∷ bs)) chunks

  unfoldable pub upload_session_stream : Env → List Bytes → String → Bool → Run H (Reply × ℕ)
  upload_session_stream env chunks path overwrite =
      get_token env >>= λ token. open_session token (commit_to path overwrite) chunks

  unfoldable pub delete : String → String → Run H Unit
  unfolding nat_eq
  delete token path w =
      let (r, t) = H.delete token path w.net in
      checked exit_1 r (record w { net = t; deleted = noted_path path r w.deleted })

  unfoldable pub delete_all : String → String → List String → Run H ℕ
  delete_all token folder [] = pure 0
  delete_all token folder (name ∷ names) =
      let others = delete_all token folder names in
      delete token (folder <> "/" <> name) >> (others >>= λ n. pure (suc n))

  unfoldable pub prune_older : Env → String → ℤ → Run H ℕ
  unfolding nat_eq
  prune_older env folder (negsuc k) = pure 0
  prune_older env folder (pos zero) = pure 0
  prune_older env folder (pos (suc k)) = get_token env >>= λ token.
      call (H.list_folder token folder) >>= λ r. checked exit_1 r >>= λ es.
      field_of es >>= λ entries. delete_all token folder (select_doomed (names_of entries) (suc k))

  unfoldable pub finish_tar : Run H Unit
  unfolding nat_eq
  finish_tar = call H.exit_code >>= λ n. if n == 0 then pure tt else raise "RuntimeError"

  unfoldable pub stop_tar : Run H Unit
  stop_tar w = (done tt, record w { net = H.stop_tar w.net })

  -- The body of the `try` of `main`.
  unfoldable pub stream : Config → String → List Bytes → Run H Streamed
  stream c path reads =
      if c.dry_run
      then (finish_tar >> pure (dried (sum_of length (iter_tar_chunks reads))))
      else (upload_session_stream c.env (iter_tar_chunks reads) path c.overwrite >>= λ r.
          finish_tar >> pure (sent r.1))

  abbrev pub caught : Outcome Streamed → Run H Streamed
  caught (raised e) = if is_exit e then (stop_tar >> raise e) else (stop_tar >> pure broken)
  caught (done s) = pure s
  caught stuck = λ w. (stuck, w)

  unfoldable pub try_stream : Config → String → List Bytes → Run H Streamed
  unfolding string_eq
  try_stream c path reads w = let (o, v) = stream c path reads w in caught o v

  -- A `SystemExit` of the pruning is a warning.
  abbrev pub prune_caught : Outcome ℕ → Run H ℕ
  prune_caught (raised e) = if is_exit e then pure 0 else raise e
  prune_caught (done n) = pure 0
  prune_caught stuck = λ w. (stuck, w)

  unfoldable pub try_prune : Config → Run H ℕ
  unfolding string_eq
  try_prune c w = let (o, v) = prune_older c.env c.dropbox_dir c.keep w in prune_caught o v

  abbrev pub after_stream : Config → Streamed → Run H ℕ
  after_stream c (dried n) = pure 0
  after_stream c broken = pure 1
  after_stream c (sent n) = try_prune c

  -- `main`, whose result is the exit code.
  unfoldable pub main : Config → Run H ℕ
  main c =
      if c.is_dir
      then (call H.stamp >>= λ stamp.
          call
            (H.read_archive (build_exclude_patterns c.include_dbs) (compression_flag c.compression))
          >>= λ reads. try_stream c (path_of c stamp) reads >>= after_stream c)
      else pure 3
