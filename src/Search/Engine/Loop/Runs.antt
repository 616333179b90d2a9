-- ===== src/Search/Engine/Loop/Runs.antt =====
-- `SearchEngine.run`, started again and again.
use rawrz.Prelude.{
  ◌≤◌, ◌≡◌, refl, Bool, true, false, inl, inr, List, [], ◌∷◌, String, if◌then◌else◌, ◌==◌,
  string_eq, arith, All,
}
use mathlib.Core.Logic.{ite}
use rawrz.Search.Checkpoint.{SeasonKey}
use rawrz.Search.Config.{SearchConfig}
use rawrz.Search.Engine.{Service, World, Disk, absent}
use rawrz.Search.Engine.Loop.{run}
use rawrz.Search.Engine.Loop.Covered.{times, states_of, allowance-Apart}
use rawrz.Search.Engine.Loop.Once.{IsAccounted, run-IsAccounted}

-- A checkpoint file, and the seasons whose search was posted by the runs with its path.
pub record Kept : Type 0 where
  pub disk : Disk
  pub sent : List SeasonKey

-- The checkpoint files by their paths; different paths name different files. The empty path stands for
-- the default one: an applied run with checkpoints that has it is refused.
abbrev pub Files : Type 0
Files = String → Kept

abbrev pub assign_file : String → Kept → Files → Files
assign_file path kept files other = if other == path then kept else files other

abbrev pub no_files : Files
no_files path = record { disk = absent; sent = [] }

module _ (S : Service) where
  -- The world of an engine whose configuration names the path.
  abbrev opened : Kept → S.State → World S
  opened kept t = record { net = t; disk = kept.disk; sent = kept.sent }

  abbrev closed : World S → Kept
  closed w = record { disk = w.disk; sent = w.sent }

  -- The process is started again and again: with a configuration, with `--resume` or not, and with
  -- Sonarr and the clock as they are by then. Each run has the file at its checkpoint path.
  unfoldable pub runs : List (SearchConfig × Bool × S.State) → Files → Files
  unfolding string_eq
  runs [] files = files
  runs ((c, resume, t) ∷ rest) files =
      let path = c.checkpoint_path in
      runs rest (assign_file path (closed (run S c resume (opened (files path) t)).1) files)

  abbrev AllAccounted : Files → Type 0
  AllAccounted files = (path : String) (t : S.State) → IsAccounted S (opened (files path) t)

  later :
      (kept : Kept) (t u : S.State) → IsAccounted S (opened kept t) → IsAccounted S (opened kept u)
  later kept t u (inl h) = inl h
  later kept t u (inr h) =
      inr (record { file = h.file; on_disk = h.on_disk; accounts = h.accounts })

  run-AllAccounted :
      (c : SearchConfig) (resume : Bool) (t : S.State) (files : Files)
      → c.checkpoint ≡ true
      → AllAccounted files
      → AllAccounted (
          assign_file c.checkpoint_path
            (closed (run S c resume (opened (files c.checkpoint_path) t)).1)
            files)
  run-AllAccounted c resume t files on h path u =
      elim ((string_eq).dec path c.checkpoint_path)
        as (λ d. IsAccounted S (opened (if ite d true false then kept else files path) u)) [
          | yes e ↦
              later kept (run S c resume before).1.net u
                (run-IsAccounted S c on resume before (h c.checkpoint_path t))
          | no n ↦ h path u
        ]
    where
      before : World S
      before = opened (files c.checkpoint_path) t

      kept : Kept
      kept = closed (run S c resume before).1

  runs-AllAccounted :
      (starts : List (SearchConfig × Bool × S.State)) (files : Files)
      → All (λ start. start.0.checkpoint ≡ true) starts
      → AllAccounted files
      → AllAccounted (runs starts files)
  unfolding runs
  runs-AllAccounted [] files on h = h
  runs-AllAccounted ((c, resume, t) ∷ rest) files on h =
      runs-AllAccounted rest _ on.1 (run-AllAccounted c resume t files on.0 h)

  at_most_once : (k : SeasonKey) (w : World S) → IsAccounted S w → times k w.sent ≤ 1
  at_most_once k w (inl (gone, none_sent)) = rw none_sent (omega arith)
  at_most_once k w (inr h) =
      omega (arith, h.accounts.covered k, allowance-Apart k (states_of h.file) h.accounts.apart)

  -- Start with no checkpoint files. Whatever the runs that follow are given, as long as none is run
  -- without a checkpoint, and whatever Sonarr answers and wherever a run fails: for each checkpoint path,
  -- the search of a season is posted at most once by all runs with this path together.
  pub runs-at_most_once :
      (starts : List (SearchConfig × Bool × S.State)) (t : S.State) (path : String) (k : SeasonKey)
      → All (λ start. start.0.checkpoint ≡ true) starts
      → times k (runs starts no_files path).sent ≤ 1
  runs-at_most_once starts t path k on =
      at_most_once k (opened (runs starts no_files path) t)
        (runs-AllAccounted starts no_files on (λ other u. inl (refl, refl)) path t)
