-- ===== src/Backup/Kept.antt =====
-- The parts of scripts/backup_dropbox.py that send no upload request.
use rawrz.Prelude.{
  zero, suc, ◌≡◌, Option, none, some, List, [], ◌∷◌, String, ◌<>◌, ◌==◌, nat_eq, string_eq,
}
use rawrz.Prelude.Result.{Result}
use rawrz.Exec.Keeps.{Keeps, Keeps-bind, Keeps-pure, Keeps-raise, Keeps-if}
use rawrz.Json.Int.{ℤ, pos, negsuc}
use rawrz.Backup.{Request, Reply, Response, unreachable, answered, Env, Host, World, exit_1, exit_2}
use rawrz.Backup.Upload.{
  call, get_token, body_of, field_of, checked, is_filled, has_refresh, delete_all, delete,
  prune_older,
}

-- What can be said of the requests that went through.
abbrev pub Recorded : Type 1
Recorded = List (Request × Reply) → List String → Type 0

abbrev pub LogIs : List (Request × Reply) → Recorded
LogIs log l ds = l ≡ log

module _ (H : Host) where
  abbrev pub On : Recorded → World H → Type 0
  On Q w = Q w.log w.deleted

  pub call-Keeps : {A : Type 0} (Q : Recorded) (f : H.Net → A × H.Net) → Keeps (On Q) (call H f)
  unfolding call
  call-Keeps Q f = record { at = λ w h. h }

  pub field_of-Keeps : {A : Type 0} (Q : Recorded) (o : Option A) → Keeps (On Q) (field_of H o)
  field_of-Keeps Q none = Keeps-raise _
  field_of-Keeps Q (some a) = Keeps-pure a

  body_of-Keeps : {A : Type 0} (Q : Recorded) (r : Result A) → Keeps (On Q) (body_of H r)
  body_of-Keeps Q (Result.err e) = Keeps-raise _
  body_of-Keeps Q (Result.ok a) = Keeps-pure a

  pub checked-Keeps :
      {A : Type 0} (Q : Recorded) (exit : String) (r : Response A) → Keeps (On Q) (checked H exit r)
  checked-Keeps Q exit unreachable = Keeps-raise _
  checked-Keeps Q exit (answered code r) =
      Keeps-if (code == 200) _ _ (body_of-Keeps Q r) (Keeps-raise exit)

  pub get_token-Keeps : (Q : Recorded) (env : Env) → Keeps (On Q) (get_token H env)
  unfolding get_token
  get_token-Keeps Q env = Keeps-if (is_filled env.access_token) _ _ (Keeps-pure _) (
      Keeps-if (has_refresh env) _ _
        (Keeps-bind _ _ (call-Keeps Q (H.refresh env))
          (λ r. Keeps-bind _ _ (checked-Keeps Q exit_2 r) (λ t. field_of-Keeps Q t)))
        (Keeps-raise exit_2))

  delete-Keeps :
      (log : List (Request × Reply)) (token path : String)
      → Keeps (On (LogIs log)) (delete H token path)
  unfolding delete
  delete-Keeps log token path = record {
    at = λ w h. (checked-Keeps (LogIs log) exit_1 (H.delete token path w.net).0).at _ h;
  }

  delete_all-Keeps :
      (log : List (Request × Reply)) (token folder : String) (names : List String)
      → Keeps (On (LogIs log)) (delete_all H token folder names)
  unfolding delete_all
  delete_all-Keeps log token folder [] = Keeps-pure 0
  delete_all-Keeps log token folder (name ∷ names) =
      Keeps-bind _ _ (delete-Keeps log token (folder <> "/" <> name))
        (λ u. Keeps-bind _ _ (delete_all-Keeps log token folder names) (λ n. Keeps-pure _))

  pub prune_older-Keeps :
      (log : List (Request × Reply)) (env : Env) (folder : String) (keep : ℤ)
      → Keeps (On (LogIs log)) (prune_older H env folder keep)
  unfolding prune_older
  prune_older-Keeps log env folder (negsuc k) = Keeps-pure 0
  prune_older-Keeps log env folder (pos zero) = Keeps-pure 0
  prune_older-Keeps log env folder (pos (suc k)) =
      Keeps-bind _ _ (get_token-Keeps (LogIs log) env) (λ token.
        Keeps-bind _ _ (call-Keeps (LogIs log) (H.list_folder token folder)) (λ r.
          Keeps-bind _ _ (checked-Keeps (LogIs log) exit_1 r) (λ es.
            Keeps-bind _ _ (field_of-Keeps (LogIs log) es)
              (λ entries. delete_all-Keeps log token folder _))))
