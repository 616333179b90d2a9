-- ===== src/Drain/Outcomes.antt =====
-- scripts/drain_sonarr_queue.py: the import commands and removals that are sent for one item.
use rawrz.Prelude.{
  ℕ, zero, suc, ◌≡◌, refl, ◌∙◌, Bool, true, false, ◌&&◌, not, ◌⊎◌, inl, inr, Option, none, some,
  List, [], ◌∷◌, String, ◌==◌, string_eq,
}
use rawrz.Prelude.Result.{Result}
use rawrz.Exec.{Outcome, done, raised, stuck, continue, ◌>>=◌, pure}
use rawrz.Exec.Keeps.{Keeps, Keeps-bind, Keeps-pure, Keeps-if}
use rawrz.Drain.{
  App, Item, Candidate, ImportFile, CommandStatus, completed, failed, other, Api, World, Run,
  Verdict, skip, fail, filled, same_id, file_name, build_import_files, ask, request, unless,
  prove_all, proven_files, safe_resolution, preview_result, preview_safe, polled, poll, commanded,
  post_import, import_resolved, import_preview, import_one,
}
use rawrz.Drain.Resolve.{Entries, build_import_files-Entries, Proven, prove_all-Proven}

module _ (A : Api) where
  -- The import commands and the removals that have been sent.
  abbrev pub Sent : List (List ImportFile) → List ℕ → World A → Type 0
  Sent imports deleted w = (w.imports ≡ imports) × (w.deleted ≡ deleted)

  module _ (imports : List (List ImportFile)) (deleted : List ℕ) where
    pub ask-Sent :
        {B : Type 0} (f : A.Net → Result B × A.Net) → Keeps (Sent imports deleted) (ask A f)
    unfolding ask
    ask-Sent f = record { at = λ w h. h }

    request-Sent :
        {B : Type 0} (f : A.Net → Result B × A.Net) → Keeps (Sent imports deleted) (request A f)
    unfolding request
    request-Sent f = record { at = λ w h. h }

    module _ (app : App) where
      unless-Sent :
          (b : Bool) (rest : Run A Bool)
          → Keeps (Sent imports deleted) rest
          → Keeps (Sent imports deleted) (unless A app b rest)
      unfolding unless
      unless-Sent false rest h = Keeps-pure _
      unless-Sent true rest h = h

      prove_all-Sent :
          (expected : ℕ) (preview : List Candidate)
          → Keeps (Sent imports deleted) (prove_all A app expected preview)
      unfolding prove_all
      prove_all-Sent expected [] = Keeps-pure _
      prove_all-Sent expected (c ∷ preview) =
          Keeps-if (same_id c.parent expected && not (file_name c == "")) _ _
            (Keeps-bind _ _ (ask-Sent _) λ r. unless-Sent _ _ (prove_all-Sent expected preview))
            (Keeps-pure _)

      safe_resolution-Sent :
          (item : Item) (preview : List Candidate)
          → Keeps (Sent imports deleted) (safe_resolution A app item preview)
      unfolding safe_resolution
      safe_resolution-Sent item preview = by_parent item.parent_id
        where
          by_parent :
              (o : Option ℕ)
              → Keeps (Sent imports deleted) (elim o as (λ _. Run A (Result (List ImportFile))) [
                | none ↦ pure (Result.err "queue item carries no id to verify against")
                | some expected ↦ prove_all A app expected preview >>= λ proven.
                    pure (proven_files A app item preview proven)
              ])
          by_parent none = Keeps-pure _
          by_parent (some expected) =
              Keeps-bind _ _ (prove_all-Sent expected preview) λ b. Keeps-pure _

      preview_result-Sent :
          (item : Item) (r : Result (List Candidate))
          → Keeps (Sent imports deleted) (preview_result A app item r)
      unfolding preview_result
      preview_result-Sent item (Result.err e) = Keeps-pure _
      preview_result-Sent item (Result.ok preview) =
          Keeps-bind _ _ (safe_resolution-Sent item preview) λ r. Keeps-pure _

      pub preview_safe-Sent : (item : Item) → Keeps (Sent imports deleted) (preview_safe A app item)
      unfolding preview_safe
      preview_safe-Sent item = by_id (filled item.download_id)
        where
          by_id :
              (o : Option String)
              → Keeps (Sent imports deleted) (elim o as (λ _. Run A Verdict) [
                | none ↦ pure skip
                | some download_id ↦ ask A (A.preview download_id) >>= preview_result A app item
              ])
          by_id none = Keeps-pure _
          by_id (some id) = Keeps-bind _ _ (ask-Sent _) (preview_result-Sent item)

      polled-Sent :
          (s : CommandStatus) (rest : Run A Verdict)
          → Keeps (Sent imports deleted) rest
          → Keeps (Sent imports deleted) (polled A app s rest)
      unfolding polled
      polled-Sent completed rest h = Keeps-pure _
      polled-Sent failed rest h = Keeps-pure _
      polled-Sent other rest h = h

      poll-Sent : (rounds id : ℕ) → Keeps (Sent imports deleted) (poll A app rounds id)
      unfolding poll
      poll-Sent zero id = record { at = λ w h. h }
      poll-Sent (suc rounds) id = record {
        at = λ w h.
            (Keeps-bind _ _ (request-Sent (A.command_status id))
                λ s. polled-Sent s _ (poll-Sent rounds id)).at
              (record w { net = A.sleep w.net }) h;
      }

      commanded-Sent : (r : Result (Option ℕ)) → Keeps (Sent imports deleted) (commanded A app r)
      unfolding commanded
      commanded-Sent (Result.err e) = Keeps-pure _
      commanded-Sent (Result.ok none) = Keeps-pure _
      commanded-Sent (Result.ok (some zero)) = Keeps-pure _
      commanded-Sent (Result.ok (some (suc id))) = poll-Sent 10 (suc id)

module _ (A : Api) (app : App) where
  -- The one import command that was sent, and the evidence for each of its files.
  pub record SafeImport (item : Item) (w v : World A) : Type 0 where
    pub download_id : String
    pub preview : List Candidate
    pub expected : ℕ
    pub files : List ImportFile
    pub has_id : filled item.download_id ≡ some download_id
    pub previewed : (A.preview download_id w.net).0 ≡ Result.ok preview
    pub expecting : item.parent_id ≡ some expected
    pub proven : Proven A app expected preview (A.preview download_id w.net).1
    pub entries : Entries app item.download_id preview files
    pub sent : v.imports ≡ files ∷ w.imports

  abbrev pub ImportsSafely : Item → World A → World A → Type 0
  ImportsSafely item w v = (v.deleted ≡ w.deleted) × ((v.imports ≡ w.imports) ⊎ SafeImport item w v)

  sends :
      (files : List ImportFile) (x : World A)
      → Sent A (files ∷ x.imports) x.deleted ((post_import A app files >>= commanded A app) x).1
  unfolding ◌>>=◌ post_import
  sends files x = (commanded-Sent A (files ∷ x.imports) x.deleted app _).at _ (refl, refl)

  -- After the preview, in the world `x` that the proofs of the candidates leave.
  module _ (item : Item) (w x : World A) (download_id : String) (preview : List Candidate)
      (expected : ℕ) (has_id : filled item.download_id ≡ some download_id)
      (previewed : (A.preview download_id w.net).0 ≡ Result.ok preview)
      (expecting : item.parent_id ≡ some expected) (same : Sent A w.imports w.deleted x) where
    built-ImportsSafely :
        (r : Result (List ImportFile))
        → Proven A app expected preview (A.preview download_id w.net).1
        → build_import_files app preview item.download_id ≡ r
        → ImportsSafely item w (import_resolved A app skip r x).1
    unfolding import_resolved
    built-ImportsSafely (Result.err e) proven built = unfold pure in (same.1, inl same.0)
    built-ImportsSafely (Result.ok files) proven built =
        let after = sends files x in
        (
          after.1 ∙ same.1,
          inr (record {
            download_id = download_id;
            preview = preview;
            expected = expected;
            files = files;
            has_id = has_id;
            previewed = previewed;
            expecting = expecting;
            proven = proven;
            entries = (build_import_files-Entries app preview item.download_id files built).1;
            sent = after.0 ∙ rw same.0;
          }),
        )

    proved-ImportsSafely :
        (r : Outcome Bool)
        → (r ≡ done true → Proven A app expected preview (A.preview download_id w.net).1)
        → ImportsSafely item w
            (continue
              (continue r (λ b. pure (proven_files A app item preview b)) x).0
              (import_resolved A app skip)
              (continue r (λ b. pure (proven_files A app item preview b)) x).1).1
    unfolding pure
    proved-ImportsSafely (done true) p =
        built-ImportsSafely (build_import_files app preview item.download_id) (p refl) refl
    proved-ImportsSafely (done false) p = unfold import_resolved in (same.1, inl same.0)
    proved-ImportsSafely (raised e) p = (same.1, inl same.0)
    proved-ImportsSafely stuck p = (same.1, inl same.0)

  -- With `--auto-safe`, the import of an item removes nothing. It sends no import command, or it sends
  -- one whose files are the candidates of the preview, each of them proven: it has the parent of the
  -- queue item, and its file name is parsed to that parent and, for Sonarr, to its episodes.
  pub import_one-ImportsSafely :
      (item : Item) (w : World A) → ImportsSafely item w (import_one A app true item w).1
  unfolding import_one
  import_one-ImportsSafely item w = by_id (filled item.download_id) refl
    where
      by_parent :
          (download_id : String) (preview : List Candidate)
          → filled item.download_id ≡ some download_id
          → (A.preview download_id w.net).0 ≡ Result.ok preview
          → (o : Option ℕ) → item.parent_id ≡ o
          → ImportsSafely item w
              (((elim o as (λ _. Run A (Result (List ImportFile))) [
                | none ↦ pure (Result.err "queue item carries no id to verify against")
                | some expected ↦ prove_all A app expected preview >>= λ proven.
                    pure (proven_files A app item preview proven)
              ])
                  >>= import_resolved A app skip)
                (record w { net = (A.preview download_id w.net).1 })).1
      by_parent id preview has previewed none e =
          unfold ◌>>=◌ pure import_resolved in (refl, inl refl)
      by_parent id preview has previewed (some expected) e =
          let u : World A = record w { net = (A.preview id w.net).1 } in
          unfold ◌>>=◌ in
          proved-ImportsSafely item w (prove_all A app expected preview u).1 id preview expected has
            previewed e
            ((prove_all-Sent A w.imports w.deleted app expected preview).at u (refl, refl))
            (prove_all A app expected preview u).0 (prove_all-Proven A app expected preview u)

      by_preview :
          (download_id : String)
          → filled item.download_id ≡ some download_id
          → (r : Result (List Candidate)) → (A.preview download_id w.net).0 ≡ r
          → ImportsSafely item w
              (import_preview A app true item download_id r
                (record w { net = (A.preview download_id w.net).1 })).1
      by_preview id has (Result.err e) p = unfold import_preview pure in (refl, inl refl)
      by_preview id has (Result.ok preview) p =
          unfold import_preview safe_resolution in by_parent id preview has p item.parent_id refl

      by_id :
          (o : Option String)
          → filled item.download_id ≡ o
          → ImportsSafely item w
              ((elim o as (λ _. Run A Verdict) [
                | none ↦ pure fail
                | some download_id ↦
                    ask A (A.preview download_id) >>= import_preview A app true item download_id
              ])
                w).1
      by_id none e = unfold pure in (refl, inl refl)
      by_id (some id) e = unfold ◌>>=◌ ask in by_preview id e (A.preview id w.net).0 refl
