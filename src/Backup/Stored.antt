-- ===== src/Backup/Stored.antt =====
-- `main` of scripts/backup_dropbox.py: what an exit code of 0 says.
use rawrz.Prelude.{
  ℕ, zero, suc, ◌≡◌, refl, ap, ◌∙◌, true, false, List, [], String, gather, if◌then◌else◌, ◌==◌,
  nat_eq, string_eq,
}
use mathlib.Core.Logic.{ite}
use rawrz.Exec.{Outcome, done, raised, stuck, ◌>>=◌, ◌>>◌, pure, raise}
use rawrz.Exec.Ends.{Returned, Returned-bind}
use rawrz.Backup.{
  Bytes, Commit, Request, Reply, Host, World, Config, is_exit, iter_tar_chunks,
  build_exclude_patterns, compression_flag,
}
use rawrz.Backup.Kept.{prune_older-Keeps}
use rawrz.Backup.Session.{committed, replay, upload-Stored}
use rawrz.Backup.Upload.{
  Streamed, dried, sent, broken, finish_tar, stop_tar, stream, caught, try_stream, prune_caught,
  try_prune, after_stream, path_of, main, prune_older, call, commit_to,
}

module _ (H : Host) where
  abbrev pub tar_of : Config → H.Net → List Bytes × H.Net
  tar_of c = H.read_archive (build_exclude_patterns c.include_dbs) (compression_flag c.compression)

  -- The path of the snapshot, and the bytes that tar writes.
  abbrev pub target : Config → World H → Commit
  target c w = commit_to (path_of c (H.stamp w.net).0) c.overwrite

  abbrev pub archive : Config → World H → Bytes
  archive c w = gather (λ b. b) (iter_tar_chunks (tar_of c (H.stamp w.net).1).0)

module _ (H : Host) (exit : ℕ) where
  -- The log commits the bytes, and tar exited with 0.
  abbrev Committed : Commit → Bytes → World H → Type 0
  Committed commit bytes v = (replay v.log ≡ committed commit bytes) × (exit ≡ 0)

  -- What is known after an exit code: of 0, all, and of others nothing.
  abbrev pub Backed : Commit → Bytes → ℕ → World H → Type 0
  Backed commit bytes zero v = Committed commit bytes v
  Backed commit bytes (suc n) v = Unit

  abbrev After : Commit → Bytes → Streamed → World H → Type 0
  After commit bytes (dried n) v = ⊥
  After commit bytes broken v = Unit
  After commit bytes (sent n) v = Committed commit bytes v

module _ (H : Host) (exit : ℕ) (exits : (t : H.Net) → (H.exit_code t).0 ≡ exit) where
  zero_if :
      (n : ℕ) (log : List (Request × Reply)) (v : World H)
      → v.log ≡ log
      → Returned
          (λ u x. (x.log ≡ log) × (n ≡ 0))
          ((if n == 0 then pure tt else raise "RuntimeError") v)
  unfolding pure raise
  zero_if n log v h =
      elim ((nat_eq).dec n 0)
        as (λ d.
          Returned (λ u x. (x.log ≡ log) × (n ≡ 0))
            ((if ite d true false then pure tt else raise "RuntimeError") v)) [
              | yes e ↦ (h, e)
              | no f ↦ tt
            ]

  finish_tar-Zero : (w : World H) → Returned (λ u v. (v.log ≡ w.log) × (exit ≡ 0)) (finish_tar H w)
  unfolding finish_tar ◌>>=◌ call
  finish_tar-Zero w =
      rw (← exits w.net)
        (zero_if (H.exit_code w.net).0 w.log (record w { net = (H.exit_code w.net).1 }) refl)

  stream-After :
      (c : Config) (path : String) (reads : List Bytes) (w : World H)
      → c.dry_run ≡ false
      → w.log ≡ []
      → Returned
          (After H exit (commit_to path c.overwrite) (gather (λ b. b) (iter_tar_chunks reads)))
          (stream H c path reads w)
  unfolding stream pure
  stream-After c path reads w d e = rw (d) (
      Returned-bind _ _ _ _ w (upload-Stored H c.env (iter_tar_chunks reads) path c.overwrite w e)
        (λ r v h.
          Returned-bind _ _ _ _ v (finish_tar-Zero v) (λ u x k. (ap replay k.0 ∙ h.0, k.1))))

  caught-After :
      (commit : Commit) (bytes : Bytes) (r : Outcome Streamed) (w : World H)
      → Returned (After H exit commit bytes) (r, w)
      → Returned (After H exit commit bytes) (caught H r w)
  unfolding ◌>>=◌ stop_tar pure raise
  caught-After commit bytes (done s) w h = h
  caught-After commit bytes stuck w h = tt
  caught-After commit bytes (raised e) w h =
      elim (is_exit e)
        as (λ b.
          Returned (After H exit commit bytes)
            ((if b then (stop_tar H >> raise e) else (stop_tar H >> pure broken)) w)) [
              | true ↦ tt
              | false ↦ tt
            ]

  prune_caught-Backed :
      (commit : Commit) (bytes : Bytes) (r : Outcome ℕ) (w : World H)
      → Committed H exit commit bytes w
      → Returned (Backed H exit commit bytes) (prune_caught H r w)
  unfolding pure raise
  prune_caught-Backed commit bytes (done n) w h = h
  prune_caught-Backed commit bytes stuck w h = tt
  prune_caught-Backed commit bytes (raised e) w h =
      elim (is_exit e)
        as (λ b. Returned (Backed H exit commit bytes) ((if b then pure 0 else raise e) w)) [
          | true ↦ h
          | false ↦ tt
        ]

  after_stream-Backed :
      (c : Config) (commit : Commit) (bytes : Bytes) (s : Streamed) (w : World H)
      → After H exit commit bytes s w
      → Returned (Backed H exit commit bytes) (after_stream H c s w)
  unfolding try_prune pure
  after_stream-Backed c commit bytes (dried n) w h = elim h [ ]
  after_stream-Backed c commit bytes broken w h = tt
  after_stream-Backed c commit bytes (sent n) w h =
      let (o, v) = prune_older H c.env c.dropbox_dir c.keep w in
      prune_caught-Backed commit bytes o v
        (ap replay ((prune_older-Keeps H w.log c.env c.dropbox_dir c.keep).at w refl) ∙ h.0, h.1)

  try_stream-After :
      (c : Config) (path : String) (reads : List Bytes) (w : World H)
      → c.dry_run ≡ false
      → w.log ≡ []
      → Returned
          (After H exit (commit_to path c.overwrite) (gather (λ b. b) (iter_tar_chunks reads)))
          (try_stream H c path reads w)
  unfolding try_stream
  try_stream-After c path reads w d e =
      caught-After _ _ (stream H c path reads w).0 (stream H c path reads w).1
        (stream-After c path reads w d e)

  streamed-Backed :
      (c : Config) (path : String) (reads : List Bytes) (w : World H)
      → c.dry_run ≡ false
      → w.log ≡ []
      → Returned
          (Backed H exit (commit_to path c.overwrite) (gather (λ b. b) (iter_tar_chunks reads)))
          ((try_stream H c path reads >>= after_stream H c) w)
  streamed-Backed c path reads w d e =
      Returned-bind _ _ _ _ w (try_stream-After c path reads w d e)
        (λ s v h. after_stream-Backed c _ _ s v h)

  -- For a run that is no dry run and starts with an empty log: an exit code of 0 says that the upload
  -- requests that were answered with 200 are one session of the protocol, with the right id and offset in
  -- each request, that it committed exactly the bytes that tar wrote, at the path of the snapshot, and
  -- that tar exited with 0. It is so whatever was tried again, and whatever became of the pruning.
  pub main-Backed :
      (c : Config) (w : World H)
      → c.dry_run ≡ false
      → w.log ≡ []
      → Returned (Backed H exit (target H c w) (archive H c w)) (main H c w)
  unfolding main call ◌>>=◌ pure
  main-Backed c w d e =
      let (stamp, t) = H.stamp w.net in
      elim c.is_dir
        as (λ b. Returned (Backed H exit (target H c w) (archive H c w)) (
          (if b
              then (call H H.stamp >>= λ stamp. call H (tar_of H c) >>= λ reads.
                  try_stream H c (path_of c stamp) reads >>= after_stream H c)
              else pure 3)
            w)) [
              | true ↦
                  streamed-Backed c (path_of c stamp) (tar_of H c t).0
                    (record { net = (tar_of H c t).1; log = w.log; deleted = w.deleted }) d e
              | false ↦ tt
            ]
