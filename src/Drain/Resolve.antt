-- ===== src/Drain/Resolve.antt =====
-- scripts/drain_sonarr_queue.py: what `build_import_files` and `safe_resolution` accept.
use rawrz.Prelude.{
  ℕ, zero, suc, ◌≡◌, ◌≢◌, ◌↔◌, refl, Bool, true, false, ◌&&◌, not, Option, none, some, List, [],
  ◌∷◌, String, all, contains, arith, ◌==◌, nat_eq, string_eq, if◌then◌else◌,
}
use rawrz.Prelude.Result.{Result}
use rawrz.Exec.{done, ◌>>=◌, pure}
use rawrz.Drain.{
  App, sonarr, radarr, Candidate, Parsed, ImportFile, Api, World, truthy, is_nil, children, entry,
  import_file, import_files, build_import_files, file_name, same_set, same_id, movie_id, agrees,
  ask, parsed_well, unless, prove_all,
}

-- The entry of the import command that stands for a candidate.
pub record IsEntry (app : App) (download_id : Option String) (c : Candidate) (f : ImportFile)
    : Type 0 where
  pub of_parent : c.parent ≡ some f.parent_id
  pub with_parent : f.parent_id ≢ 0
  pub of_children : f.child_ids ≡ children app f.parent_id c
  pub with_children : f.child_ids ≢ []
  pub same_path : f.path ≡ c.path
  pub same_quality : f.quality ≡ c.quality
  pub same_languages : f.languages ≡ c.languages
  pub of_download : f.download_id ≡ download_id

-- One entry for each candidate, in the order of the preview.
abbrev pub Entries : App → Option String → List Candidate → List ImportFile → Type 0
Entries app id [] [] = Unit
Entries app id (c ∷ cs) (f ∷ fs) = IsEntry app id c f × Entries app id cs fs
Entries app id _ _ = ⊥

truthy-some : (o : Option ℕ) (n : ℕ) → truthy o ≡ some n → (o ≡ some n) × (n ≢ 0)
truthy-some none n h = cc
truthy-some (some zero) n h = cc
truthy-some (some (suc m)) n h = (h, λ e. absurd (omega (arith, pred_eq h)))
  where
    pred_eq : some (suc m) ≡ some n → suc m ≡ n
    pred_eq p = cc

is_nil-ne {ℓ} : {A : Type ℓ} (xs : List A) → is_nil xs ≡ false → xs ≢ []
is_nil-ne [] h = λ e. cc
is_nil-ne (x ∷ xs) h = λ e. cc

import_file-IsEntry :
    (app : App) (id : Option String) (c : Candidate) (o : Option ℕ) (f : ImportFile)
    → truthy c.parent ≡ o
    → import_file app id c o ≡ some f
    → IsEntry app id c f
unfolding import_file
import_file-IsEntry app id c none f e h = cc
import_file-IsEntry app id c (some parent) f e h =
    by_children (is_nil (children app parent c)) refl h
  where
    facts : (c.parent ≡ some parent) × (parent ≢ 0)
    facts = truthy-some c.parent parent e

    by_children :
        (b : Bool)
        → is_nil (children app parent c) ≡ b
        → ◌≡◌ {A = Option ImportFile} (if b then none else some (entry app id c parent)) (some f)
        → IsEntry app id c f
    by_children true n k = cc
    by_children false n k =
        let same : entry app id c parent ≡ f = cc in
        rw (← same) (record {
          of_parent = facts.0;
          with_parent = facts.1;
          of_children = refl;
          with_children = is_nil-ne (children app parent c) n;
          same_path = refl;
          same_quality = refl;
          same_languages = refl;
          of_download = refl;
        })

cons-Entries :
    (app : App) (id : Option String) (c : Candidate) (preview : List Candidate)
    (o : Option ImportFile) (p : Option (List ImportFile)) (files : List ImportFile)
    → ((fs : List ImportFile) → p ≡ some fs → Entries app id preview fs)
    → import_file app id c (truthy c.parent) ≡ o
    → ◌≡◌ {A = Option (List ImportFile)}
        (elim o [ none ↦ none | some file ↦ elim p [ none ↦ none | some fs ↦ some (file ∷ fs) ] ])
        (some files)
    → Entries app id (c ∷ preview) files
cons-Entries app id c preview none p files rest e h = cc
cons-Entries app id c preview (some f) none files rest e h = cc
cons-Entries app id c preview (some f) (some fs) [] rest e h = cc
cons-Entries app id c preview (some f) (some fs) (g ∷ gs) rest e h =
    (import_file-IsEntry app id c (truthy c.parent) g refl (cc), rest gs (cc))

import_files-Entries :
    (app : App) (id : Option String) (preview : List Candidate) (files : List ImportFile)
    → import_files app id preview ≡ some files
    → Entries app id preview files
unfolding import_files
import_files-Entries app id [] [] h = tt
import_files-Entries app id [] (f ∷ files) h = cc
import_files-Entries app id (c ∷ preview) files h =
    cons-Entries app id c preview (import_file app id c (truthy c.parent))
      (import_files app id preview) files (λ fs e. import_files-Entries app id preview fs e) refl h

-- If `build_import_files` gives files, there is one for each candidate of a preview that is not empty,
-- with the candidate's parent and all of its children, of which there is at least one.
pub build_import_files-Entries :
    (app : App) (preview : List Candidate) (id : Option String) (files : List ImportFile)
    → build_import_files app preview id ≡ Result.ok files
    → (preview ≢ []) × Entries app id preview files
unfolding build_import_files
build_import_files-Entries app preview id files h =
    by_preview (is_nil preview) (import_files app id preview) refl refl h
  where
    by_preview :
        (b : Bool) (o : Option (List ImportFile))
        → is_nil preview ≡ b
        → import_files app id preview ≡ o
        → (if b
            then Result.err "empty preview"
            else elim o [ none ↦ Result.err "unresolved candidate" | some fs ↦ Result.ok fs ])
          ≡ Result.ok files
        → (preview ≢ []) × Entries app id preview files
    by_preview true o n e k = cc
    by_preview false none n e k = cc
    by_preview false (some fs) n e k =
        (is_nil-ne preview n, import_files-Entries app id preview files (cc))

-- The parse of a file name names the same numbers as the preview.
abbrev pub SameElements : List ℕ → List ℕ → Type 0
SameElements xs ys = (n : ℕ) → (contains xs n ≡ true) ↔ (contains ys n ≡ true)

abbrev pub Agrees : App → ℕ → Candidate → Parsed → Type 0
Agrees sonarr expected c p =
    (p.series_id ≡ some expected) × (p.episodes ≢ []) × SameElements p.episodes c.episodes
Agrees radarr expected c p = movie_id p ≡ some expected

same_id-eq : (o : Option ℕ) (n : ℕ) → same_id o n ≡ true → o ≡ some n
same_id-eq none n h = cc
same_id-eq (some m) n h = ground arith

all-contains :
    (xs ys : List ℕ) (n : ℕ)
    → all (contains ys) xs ≡ true
    → contains xs n ≡ true
    → contains ys n ≡ true
all-contains [] ys n h k = cc
all-contains (x ∷ xs) ys n h k = ground (arith, all-contains xs ys n)

and_parts : (a b : Bool) → (a && b) ≡ true → (a ≡ true) × (b ≡ true)
and_parts true b h = (refl, h)
and_parts false b h = cc

not-eq-true : (b : Bool) → not b ≡ true → b ≡ false
not-eq-true true h = cc
not-eq-true false h = refl

same_set-SameElements : (xs ys : List ℕ) → same_set xs ys ≡ true → SameElements xs ys
unfolding same_set
same_set-SameElements xs ys h n =
    let parts = and_parts (all (contains ys) xs) (all (contains xs) ys) h in
    (all-contains xs ys n parts.0, all-contains ys xs n parts.1)

agrees-Agrees :
    (app : App) (expected : ℕ) (c : Candidate) (p : Parsed)
    → agrees app expected c p ≡ true
    → Agrees app expected c p
unfolding agrees
agrees-Agrees sonarr expected c p h =
    let first =
      and_parts (same_id p.series_id expected && not (is_nil p.episodes))
        (same_set p.episodes c.episodes) h in
    let parts = and_parts (same_id p.series_id expected) (not (is_nil p.episodes)) first.0 in
    (
      same_id-eq p.series_id expected parts.0,
      is_nil-ne p.episodes (not-eq-true _ parts.1),
      same_set-SameElements p.episodes c.episodes first.1,
    )
agrees-Agrees radarr expected c p h = same_id-eq (movie_id p) expected h

module _ (A : Api) (app : App) where
  -- The evidence that a candidate is what the queue item is about, asked for when the network is `t`.
  pub record IsProven (expected : ℕ) (c : Candidate) (t : A.Net) : Type 0 where
    pub right_parent : c.parent ≡ some expected
    pub named : file_name c ≢ ""
    pub parsed : Parsed
    pub answer : (A.parse (file_name c) t).0 ≡ Result.ok parsed
    pub agreement : Agrees app expected c parsed

  -- Each candidate is proven, by one request after the other.
  abbrev pub Proven : ℕ → List Candidate → A.Net → Type 0
  Proven expected [] t = Unit
  Proven expected (c ∷ preview) t =
      IsProven expected c t × Proven expected preview (A.parse (file_name c) t).1

  name_ne : (s : String) → not (s == "") ≡ true → s ≢ ""
  name_ne s h = ground arith

  parsed_well-IsProven :
      (expected : ℕ) (c : Candidate) (t : A.Net) (r : Result Parsed)
      → (same_id c.parent expected && not (file_name c == "")) ≡ true
      → (A.parse (file_name c) t).0 ≡ r
      → parsed_well A app expected c r ≡ true
      → IsProven expected c t
  unfolding parsed_well
  parsed_well-IsProven expected c t (Result.err e) guard answer h = cc
  parsed_well-IsProven expected c t (Result.ok p) guard answer h =
      let parts = and_parts (same_id c.parent expected) (not (file_name c == "")) guard in
      record {
        right_parent = same_id-eq c.parent expected parts.0;
        named = name_ne (file_name c) parts.1;
        parsed = p;
        answer = answer;
        agreement = agrees-Agrees app expected c p h;
      }

  -- If the loop of `safe_resolution` passes, each candidate is proven.
  pub prove_all-Proven :
      (expected : ℕ) (preview : List Candidate) (w : World A)
      → (prove_all A app expected preview w).0 ≡ done true
      → Proven expected preview w.net
  unfolding prove_all pure unless
  prove_all-Proven expected [] w h = tt
  prove_all-Proven expected (c ∷ preview) w h =
      by_guard
        (prove_all-Proven expected preview (record w { net = (A.parse (file_name c) w.net).1 }))
        (same_id c.parent expected && not (file_name c == "")) refl h
    where
      next : World A
      next = record w { net = (A.parse (file_name c) w.net).1 }

      by_parse :
          ((prove_all A app expected preview next).0 ≡ done true → Proven expected preview next.net)
          → (same_id c.parent expected && not (file_name c == "")) ≡ true
          → (b : Bool) → parsed_well A app expected c (A.parse (file_name c) w.net).0 ≡ b
          → (unless A app b (prove_all A app expected preview) next).0 ≡ done true
          → Proven expected (c ∷ preview) w.net
      by_parse rest guard false e k = cc
      by_parse rest guard true e k = (parsed_well-IsProven expected c w.net _ guard refl e, rest k)

      by_guard :
          ((prove_all A app expected preview next).0 ≡ done true → Proven expected preview next.net)
          → (b : Bool) → (same_id c.parent expected && not (file_name c == "")) ≡ b
          → ((if b
                then (ask A (A.parse (file_name c)) >>= λ r.
                    unless A app
                      (parsed_well A app expected c r)
                      (prove_all A app expected preview))
                else pure false)
              w).0
            ≡ done true
          → Proven expected (c ∷ preview) w.net
      by_guard rest true e k =
          by_parse rest e (parsed_well A app expected c (A.parse (file_name c) w.net).0) refl
            (unfold ◌>>=◌ ask in k)
      by_guard rest false e k = cc
