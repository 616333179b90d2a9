-- ===== src/Search/Engine/Loop/Batches.antt =====
-- `SearchEngine.run`: the loop over the batches, and the checkpoint file.
use rawrz.Prelude.{
  ℕ, ◌≡◌, refl, sym, ap, ◌∙◌, Bool, true, false, ◌&&◌, not, Option, none, some, List, [], ◌∷◌, ◌++◌,
  String, if◌then◌else◌, gather, any, ◌==◌, nat_eq,
}
use mathlib.Core.Bool.{false≢true}
use mathlib.Core.List.{append_assoc}
use rawrz.Search.State.{GroupState, Batch, Checkpoint}
use rawrz.Search.Plan.{Group}
use rawrz.Search.Config.{SearchConfig}
use rawrz.Search.Engine.{
  Service, World, Run, Outcome, stored, done, raised, stuck, continue, ◌>>=◌, ◌>>◌, pure,
}
use rawrz.Search.Engine.Loop.{
  Processed, RunResult, batch_plug, is_completed, is_last, nat_of, after_batch, pause, run_batches,
}
use rawrz.Search.Engine.Loop.Covered.{IsCovered}
use rawrz.Search.Engine.Loop.Groups.{GroupsDone, apply_groups-GroupsDone}

module _ (S : Service) (c : SearchConfig) (on : c.checkpoint ≡ true) where
  gather-groups :
      (before rest : List Batch)
      → gather (λ (b : Batch). b.groups) (before ++ rest)
        ≡ gather (λ (b : Batch). b.groups) before ++ gather (λ (b : Batch). b.groups) rest
  gather-groups [] rest = refl
  gather-groups (b ∷ before) rest = rw (gather-groups before rest, append_assoc)

  keep_net : (w : World S) (s : S.State) → IsCovered S w → IsCovered S (record w { net = s })
  keep_net w s h = record { file = h.file; on_disk = h.on_disk; accounts = h.accounts }

  after_batch-IsCovered :
      (batch : Batch) (rest : List Batch) (p : Processed) (result : RunResult)
      (more : Run S RunResult) (v : World S)
      → IsCovered S v
      → (p.problem ≡ none → (t : S.State) → IsCovered S (more (record v { net = t })).1)
      → IsCovered S (after_batch S c p.problem p batch rest result more v).1
  after_batch-IsCovered batch rest p result more v covers goes = by_problem p.problem refl
    where
      pausing :
          (b : Bool) → p.problem ≡ none → IsCovered S ((if b then pause S c >> more else more) v).1
      pausing true e = unfold ◌>>=◌ pause in goes e _
      pausing false e = goes e v.net

      stopping :
          (a b : Bool)
          → p.problem ≡ none
          → IsCovered S
              ((if a
                  then pure (record result { summary = "checkpoint after batch" })
                  else if b
                  then pause S c >> more
                  else more)
                v).1
      stopping true b e = unfold pure in covers
      stopping false b e = pausing b e

      by_problem :
          (q : Option String)
          → p.problem ≡ q
          → IsCovered S (after_batch S c q p batch rest result more v).1
      by_problem (some q) e = unfold after_batch pure in covers
      by_problem none e =
          unfold after_batch in
          stopping
            (c.checkpoint && any (λ g. not (is_completed g)) batch.groups && not (is_last rest))
            (not (is_last rest) && not (nat_of S c c.gap == 0)) e

  after_groups-IsCovered :
      (batch : Batch) (rest : List Batch) (plug : List GroupState → Checkpoint)
      (report : Processed → RunResult) (more : Processed → Run S RunResult) (r : Outcome Processed)
      (v : World S)
      → GroupsDone S c on plug (r, v)
      → ((p : Processed) (x : World S)
          → x.disk ≡ stored (plug p.states)
          → IsCovered S x
          → IsCovered S (more p x).1)
      → IsCovered S
          (continue r (λ p. after_batch S c p.problem p batch rest (report p) (more p)) v).1
  after_groups-IsCovered batch rest plug report more (done p) v h goes =
      after_batch-IsCovered batch rest p (report p) (more p) v h.covers
        λ e t. goes p (record v { net = t }) (h.synced e) (keep_net v t h.covers)
  after_groups-IsCovered batch rest plug report more (raised e) v h goes = h.covers
  after_groups-IsCovered batch rest plug report more stuck v h goes = h.covers

  when_applied :
      (b : Bool) (x y : Run S RunResult) (w : World S)
      → b ≡ true
      → IsCovered S (y w).1
      → IsCovered S ((if not b then x else y) w).1
  when_applied true x y w e h = h
  when_applied false x y w e h = absurd (false≢true e)

  pub run_batches-IsCovered :
      c.apply ≡ true
      → (cp : Checkpoint) (total : ℕ) (before rest : List Batch) (planned : List (List Group))
        (result : RunResult) (w : World S)
      → w.disk ≡ stored (record cp { batches = before ++ rest })
      → IsCovered S w
      → IsCovered S (run_batches S c cp total before rest planned result w).1
  unfolding run_batches ◌>>=◌ pure
  run_batches-IsCovered applied cp total before [] planned result w on_disk h = h
  run_batches-IsCovered applied cp total before (batch ∷ rest) planned result w on_disk h =
      when_applied c.apply _ _ w applied (
        after_groups-IsCovered batch rest plug _ _ _ _
          (apply_groups-GroupsDone S c on plug (gather (λ (b : Batch). b.groups) before)
            (gather (λ (b : Batch). b.groups) rest) [] batch.groups _ w
            (λ ss. gather-groups before (record batch { groups = ss } ∷ rest)) on_disk h)
          λ p x d covers.
            run_batches-IsCovered applied cp total
              (before ++ (record batch { groups = p.states } ∷ [])) rest _ _ x
              (d
                ∙ ap (λ bs. stored (record cp { batches = bs }))
                    (sym (append_assoc before (record batch { groups = p.states } ∷ []) rest)))
              covers)
    where
      plug : List GroupState → Checkpoint
      plug = batch_plug S c cp before batch rest
