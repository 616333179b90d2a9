-- ===== src/Drain.antt =====
-- scripts/drain_sonarr_queue.py: stuck items of a Sonarr or Radarr queue are imported or removed. A
-- record of the API is a record of the fields that are read, with `none` for one that is absent,
-- null or, where the code tests its truth, empty.
pub mod Resolve
pub mod Outcomes
pub mod Counts
mod Tests
use Prim.Native.Char.{code}
use Prim.Native.String
use rawrz.Prelude.{
  ℕ, zero, suc, ◌+◌, ◌-◌, Bool, true, false, ◌&&◌, ◌||◌, not, Option, none, some, List, [], ◌∷◌,
  ◌++◌, map, String, length, take, all, contains, if◌then◌else◌, ◌==◌, nat_eq, string_eq,
}
use rawrz.Prelude.Result.{Result}
use rawrz.Json.{Json}
use rawrz.Json.Int.{ℤ, pos, negsuc}
use rawrz.Exec
use rawrz.Exec.{Outcome, done, raised, stuck, outcome_of, ◌>>=◌, ◌>>◌, pure, raise}

pub data App : Type 0 where
  sonarr radarr : App

-- A queue record: `seriesId` or `movieId`, whichever the app has.
pub record Item : Type 0 where
  pub id : ℕ
  pub download_id : Option String
  pub parent_id : Option ℕ

-- A candidate of the manual import preview. `parent` is the id of its series or movie, `episodes` are
-- the ids of its episodes.
pub record Candidate : Type 0 where
  pub parent : Option ℕ
  pub episodes : List ℕ
  pub path : Option String
  pub relative_path : Option String
  pub quality : Json
  pub languages : Json

-- What the parse API makes of a file name: the id of a series, the ids of episodes, and the id of
-- `movie`, or else of the first of `movies`.
pub record Parsed : Type 0 where
  pub series_id : Option ℕ
  pub episodes : List ℕ
  pub movie : Option (Option ℕ)
  pub movies : List (Option ℕ)

pub record ImportFile : Type 0 where
  pub path : Option String
  pub parent_id : ℕ
  pub child_ids : List ℕ
  pub quality : Json
  pub languages : Json
  pub download_id : Option String

pub data CommandStatus : Type 0 where
  completed failed other : CommandStatus

-- The *arr behind `_request`: the preview, the parse API, the import command and its status, the
-- removal of a queue item, and the queue. `post_import` answers with the command's id.
pub record Api : Type 1 where
  pub Net : Type 0
  pub preview : String → Net → Result (List Candidate) × Net
  pub parse : String → Net → Result Parsed × Net
  pub post_import : List ImportFile → Net → Result (Option ℕ) × Net
  pub command_status : ℕ → Net → Result CommandStatus × Net
  pub delete : ℕ → Net → Result (Unit {0}) × Net
  pub queue : Net → Result (List Item) × Net
  pub sleep : Net → Net

-- `imports` records the files of each import command and `deleted` the queue ids of each removal that
-- was sent, the last one first; no code reads them.
pub record World (A : Api) : Type 0 where
  pub net : A.Net
  pub imports : List (List ImportFile)
  pub deleted : List ℕ

abbrev pub Run : Api → Type 0 → Type 0
Run A = Exec.Run (World A)

-- The `OUTCOME_*` constants.
pub data Verdict : Type 0 where
  ok skip fail pending : Verdict

-- A falsy id is none or 0.
abbrev pub truthy : Option ℕ → Option ℕ
truthy none = none
truthy (some zero) = none
truthy (some (suc n)) = some (suc n)

abbrev pub filled : Option String → Option String
filled none = none
filled (some s) = if s == "" then none else some s

abbrev pub is_nil {ℓ} : {A : Type ℓ} → List A → Bool
is_nil [] = true
is_nil (x ∷ xs) = false

-- The ids of the children, by the app: the movie is its own only child.
abbrev pub children : App → ℕ → Candidate → List ℕ
children sonarr parent c = c.episodes
children radarr parent c = parent ∷ []

-- An entry of the import command.
abbrev pub entry : App → Option String → Candidate → ℕ → ImportFile
entry app download_id c parent = record {
  path = c.path;
  parent_id = parent;
  child_ids = children app parent c;
  quality = c.quality;
  languages = c.languages;
  download_id = download_id;
}

-- The entry, or the error of a candidate that does not resolve.
unfoldable pub import_file : App → Option String → Candidate → Option ℕ → Option ImportFile
import_file app download_id c none = none
import_file app download_id c (some parent) =
    if is_nil (children app parent c) then none else some (entry app download_id c parent)

-- The loop of `build_import_files`.
unfoldable pub import_files : App → Option String → List Candidate → Option (List ImportFile)
unfolding import_file
import_files app download_id [] = some []
import_files app download_id (c ∷ preview) =
    elim (import_file app download_id c (truthy c.parent)) [
      | none ↦ none
      | some file ↦ elim (import_files app download_id preview) [
        | none ↦ none
        | some files ↦ some (file ∷ files)
      ]
    ]

unfoldable pub build_import_files : App → List Candidate → Option String → Result (List ImportFile)
unfolding import_files
build_import_files app preview download_id =
    if is_nil preview
    then Result.err "empty preview"
    else elim (import_files app download_id preview) [
      | none ↦ Result.err "unresolved candidate"
      | some files ↦ Result.ok files
    ]

abbrev slash : ℕ
slash = b'/'

abbrev has_slash : String → Bool
has_slash String.[] = false
has_slash (String.◌∷◌ c s) = code c == slash || has_slash s

-- `os.path.basename(text.rstrip("/"))`
unfoldable pub rstrip_slash : String → String
unfolding nat_eq string_eq
rstrip_slash String.[] = ""
rstrip_slash (String.◌∷◌ c s) =
    let rest = rstrip_slash s in if code c == slash && rest == "" then "" else String.◌∷◌ c rest

unfoldable pub basename : String → String
unfolding nat_eq
basename String.[] = ""
basename (String.◌∷◌ c s) =
    let rest = basename s in
    if has_slash s then rest else if code c == slash then s else String.◌∷◌ c s

abbrev first_text : Option String → Option String → String
first_text (some s) alternative = s
first_text none (some s) = s
first_text none none = ""

-- `(cand.get("relativePath") or cand.get("path") or "")`, as a file name.
unfoldable pub file_name : Candidate → String
unfolding rstrip_slash basename string_eq
file_name c = basename (rstrip_slash (first_text (filled c.relative_path) (filled c.path)))

-- `set(xs) == set(ys)`
unfoldable pub same_set : List ℕ → List ℕ → Bool
same_set xs ys = all (contains ys) xs && all (contains xs) ys

abbrev pub same_id : Option ℕ → ℕ → Bool
same_id none n = false
same_id (some m) n = m == n

abbrev pub first_movie : List (Option ℕ) → Option ℕ
first_movie [] = none
first_movie (id ∷ ids) = id

abbrev pub movie_id : Parsed → Option ℕ
movie_id p = elim p.movie [ none ↦ first_movie p.movies | some id ↦ id ]

-- Whether a parsed file name agrees with the queue item and with the preview.
unfoldable pub agrees : App → ℕ → Candidate → Parsed → Bool
unfolding same_set
agrees sonarr expected c p =
    same_id p.series_id expected && not (is_nil p.episodes) && same_set p.episodes c.episodes
agrees radarr expected c p = same_id (movie_id p) expected

-- The counters of `drain`.
pub record Tally : Type 0 where
  pub imported : ℕ
  pub skipped : ℕ
  pub removed : ℕ
  pub errors : ℕ

abbrev pub no_tally : Tally
no_tally = record { imported = 0; skipped = 0; removed = 0; errors = 0 }

-- `records[:limit]`
abbrev pub first_of {ℓ} : {A : Type ℓ} → ℤ → List A → List A
first_of (pos n) xs = take n xs
first_of (negsuc n) xs = take (length xs - suc n) xs

module _ (A : Api) where
  -- A request whose exceptions the code catches.
  unfoldable pub ask : {B : Type 0} → (A.Net → Result B × A.Net) → Run A (Result B)
  ask f w = let (r, t) = f w.net in (done r, record w { net = t })

  unfoldable pub request : {B : Type 0} → (A.Net → Result B × A.Net) → Run A B
  request f w = let (r, t) = f w.net in (outcome_of r, record w { net = t })

  module _ (app : App) where
    unfoldable pub parsed_well : ℕ → Candidate → Result Parsed → Bool
    unfolding agrees
    parsed_well expected c (Result.err e) = false
    parsed_well expected c (Result.ok p) = agrees app expected c p

    -- The first candidate that is not proven ends the loop.
    unfoldable pub unless : Bool → Run A Bool → Run A Bool
    unless false rest = pure false
    unless true rest = rest

    -- The loop of `safe_resolution`: whether each candidate is proven.
    unfoldable pub prove_all : ℕ → List Candidate → Run A Bool
    prove_all expected [] = pure true
    prove_all expected (c ∷ preview) =
        if same_id c.parent expected && not (file_name c == "")
        then (ask (A.parse (file_name c)) >>= λ r.
            unless (parsed_well expected c r) (prove_all expected preview))
        else pure false

    abbrev proven_files : Item → List Candidate → Bool → Result (List ImportFile)
    proven_files item preview false = Result.err "unprovable"
    proven_files item preview true = build_import_files app preview item.download_id

    unfoldable pub safe_resolution : Item → List Candidate → Run A (Result (List ImportFile))
    safe_resolution item preview = elim item.parent_id [
      | none ↦ pure (Result.err "queue item carries no id to verify against")
      | some expected ↦
          prove_all expected preview >>= λ proven. pure (proven_files item preview proven)
    ]

    abbrev verdict_of : Result (List ImportFile) → Verdict
    verdict_of (Result.ok files) = ok
    verdict_of (Result.err e) = skip

    unfoldable pub preview_result : Item → Result (List Candidate) → Run A Verdict
    preview_result item (Result.err e) = pure skip
    preview_result item (Result.ok preview) =
        safe_resolution item preview >>= λ r. pure (verdict_of r)

    unfoldable pub preview_safe : Item → Run A Verdict
    preview_safe item = elim (filled item.download_id) [
      | none ↦ pure skip
      | some download_id ↦ ask (A.preview download_id) >>= preview_result item
    ]

    unfoldable pub polled : CommandStatus → Run A Verdict → Run A Verdict
    polled completed rest = pure ok
    polled failed rest = pure fail
    polled other rest = rest

    -- The poll of the import command, `for _ in range(10)`; a failed poll is not caught.
    unfoldable pub poll : ℕ → ℕ → Run A Verdict
    poll zero id w = (done pending, w)
    poll (suc rounds) id w =
        (request (A.command_status id) >>= λ s. polled s (poll rounds id))
          (record w { net = A.sleep w.net })

    unfoldable pub commanded : Result (Option ℕ) → Run A Verdict
    commanded (Result.err e) = pure fail
    commanded (Result.ok none) = pure fail
    commanded (Result.ok (some zero)) = pure fail
    commanded (Result.ok (some (suc id))) = poll 10 (suc id)

    -- The POST of the import command.
    unfoldable pub post_import : List ImportFile → Run A (Result (Option ℕ))
    post_import files w =
        let (r, t) = A.post_import files w.net in
        (done r, record w { net = t; imports = files ∷ w.imports })

    -- The files to import, or the verdict on an item that has none.
    unfoldable pub import_resolved : Verdict → Result (List ImportFile) → Run A Verdict
    import_resolved otherwise (Result.err e) = pure otherwise
    import_resolved otherwise (Result.ok files) = post_import files >>= commanded

    unfoldable pub import_preview : Bool → Item → String → Result (List Candidate) → Run A Verdict
    import_preview auto_safe item download_id (Result.err e) = pure fail
    import_preview auto_safe item download_id (Result.ok preview) =
        if auto_safe
        then (safe_resolution item preview >>= import_resolved skip)
        else import_resolved fail (build_import_files app preview (some download_id))

    unfoldable pub import_one : Bool → Item → Run A Verdict
    import_one auto_safe item = elim (filled item.download_id) [
      | none ↦ pure fail
      | some download_id ↦ ask (A.preview download_id) >>= import_preview auto_safe item download_id
    ]

    -- `remove_item`, with what it raises caught.
    unfoldable pub remove_item : Item → Run A (Result (Unit {0}))
    remove_item item w =
        let (r, t) = A.delete item.id w.net in
        (done r, record w { net = t; deleted = item.id ∷ w.deleted })

    unfoldable pub counted : Tally → Verdict → Tally
    counted n ok = record n { imported = suc n.imported }
    counted n skip = record n { skipped = suc n.skipped }
    counted n pending = record n { skipped = suc n.skipped }
    counted n fail = n

    -- In a dry run, what would not be imported counts as skipped.
    unfoldable pub dry_counted : Tally → Verdict → Tally
    dry_counted n ok = record n { imported = suc n.imported }
    dry_counted n _ = record n { skipped = suc n.skipped }

    unfoldable pub after_removal : Tally → Result (Unit {0}) → Tally
    after_removal n (Result.ok u) = record n { removed = suc n.removed }
    after_removal n (Result.err e) = record n { errors = suc n.errors }

    -- What an applied run does about the verdict on an item: only a failed import is removed.
    unfoldable pub conclude : Item → Tally → Verdict → Run A Tally
    conclude item n fail = remove_item item >>= λ r. pure (after_removal n r)
    conclude item n ok = pure (counted n ok)
    conclude item n skip = pure (counted n skip)
    conclude item n pending = pure (counted n pending)

    -- The body of the loop.
    unfoldable pub drain_item : Bool → Bool → Item → Tally → Run A Tally
    drain_item apply auto_safe item n =
        if not apply
        then (if auto_safe
            then (preview_safe item >>= λ v. pure (dry_counted n v))
            else pure (dry_counted n ok))
        else import_one auto_safe item >>= conclude item n

    unfoldable pub drain_items : Bool → Bool → List Item → Tally → Run A Tally
    drain_items apply auto_safe [] n = pure n
    drain_items apply auto_safe (item ∷ todo) n =
        drain_item apply auto_safe item n >>= drain_items apply auto_safe todo

    unfoldable pub drain_queue : Bool → Bool → ℤ → Result (List Item) → Run A (ℕ × Tally)
    drain_queue apply auto_safe limit (Result.err e) = pure (1, no_tally)
    drain_queue apply auto_safe limit (Result.ok records) =
        drain_items apply auto_safe (first_of limit records) no_tally >>= λ n. pure (0, n)

    -- `drain`: the exit code and the counts of the summary.
    unfoldable pub drain : Bool → Bool → ℤ → Run A (ℕ × Tally)
    drain apply auto_safe limit = ask A.queue >>= drain_queue apply auto_safe limit
