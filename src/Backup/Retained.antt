-- ===== src/Backup/Retained.antt =====
-- The pruning of scripts/backup_dropbox.py: which snapshots are deleted.
use rawrz.Prelude.{ℕ, min, ◌≡◌, true, some, List, [], ◌∷◌, ◌++◌, String, ◌<>◌, length, All}
use mathlib.Core.List.{Perm}
use rawrz.Prelude.Result.{Result}
use rawrz.Prelude.Text.{str_leb}
use rawrz.Backup.{answered, Entry, Host, World}

-- The names are the doomed ones and those that stay: `keep` of them, or all if there are no more, and no
-- doomed name is after one that stays.
pub record Retains (names : List String) (keep : ℕ) (doomed : List String) : Type 0 where
  pub kept : List String
  pub parted : Perm (doomed ++ kept) names
  pub count : length kept ≡ min keep (length names)
  pub older : All (λ d. All (λ k. str_leb d k ≡ true) kept) doomed

-- The paths that are deleted after one for each of the names.
abbrev pub gone : String → List String → List String → List String
gone folder [] ds = ds
gone folder (name ∷ names) ds = gone folder names ((folder <> "/" <> name) ∷ ds)

module _ (H : Host) where
  -- The folder has these entries, whenever it is listed.
  abbrev pub Lists : String → List Entry → Type 0
  Lists folder es =
      (token : String) (t : H.Net)
      → (H.list_folder token folder t).0 ≡ answered 200 (Result.ok (some es))

  -- After `n` deletions: those of the names that are not retained.
  abbrev pub Pruned : String → List String → ℕ → List String → ℕ → World H → Type 0
  Pruned folder names keep ds n v =
      (doomed : List String) × (Retains names keep doomed
        × ((v.deleted ≡ gone folder doomed ds) × (n ≡ length doomed)))
