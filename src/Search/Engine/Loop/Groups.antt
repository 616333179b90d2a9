-- ===== src/Search/Engine/Loop/Groups.antt =====
-- `SearchEngine.run`: the loop over the groups of a batch, and the checkpoint file.
use rawrz.Prelude.{◌≡◌, refl, sym, ap, ◌∙◌, true, Option, none, some, List, [], ◌∷◌, ◌++◌, String}
use mathlib.Core.List.{append-nil, append_assoc}
use rawrz.Search.Plan.{Group}
use rawrz.Search.State.{GroupState, Checkpoint}
use rawrz.Search.Config.{SearchConfig}
use rawrz.Search.Engine.{
  Service, World, Run, Outcome, stored, done, raised, stuck, continue, ◌>>=◌, pure,
}
use rawrz.Exec.Ends.{Returned}
use rawrz.Search.Engine.Apply.{Applied, apply_group}
use rawrz.Search.Engine.Apply.Synced.{Synced, apply_group-Synced}
use rawrz.Search.Engine.Loop.{
  BatchReport, Processed, group_from_identity, after_group, apply_groups,
}
use rawrz.Search.Engine.Loop.Covered.{states_of, Accounts, IsCovered, apply_group-IsCovered}

module _ (S : Service) (c : SearchConfig) (on : c.checkpoint ≡ true) where
  -- What the loop over the groups of a batch leaves.
  pub record GroupsDone (plug : List GroupState → Checkpoint) (r : Outcome Processed × World S)
      : Type 0 where
    pub covers : IsCovered S r.1
    pub synced : Returned (λ p v. p.problem ≡ none → v.disk ≡ stored (plug p.states)) r

  -- The states of the checkpoint, whatever the states of the batch.
  abbrev pub Frames : List GroupState → List GroupState → (List GroupState → Checkpoint) → Type 0
  Frames left right plug = (ss : List GroupState) → states_of (plug ss) ≡ left ++ (ss ++ right)

  covered_of :
      (plug : List GroupState → Checkpoint) (ss : List GroupState) (w : World S)
      → (h : IsCovered S w) → w.disk ≡ stored (plug ss)
      → Accounts w.sent (states_of (plug ss))
  covered_of plug ss w h e = let same : h.file ≡ plug ss = cc in rw (← same) h.accounts

  -- After a group: `more` is the rest of the loop, from a file that holds the group's new state.
  after_group-GroupsDone :
      (plug : List GroupState → Checkpoint) (before rest : List GroupState) (report : BatchReport)
      (fill : GroupState → Checkpoint) (group : Group) (more : Applied → Run S Processed)
      → ((a : Applied) (v : World S)
          → v.disk ≡ stored (fill a.state)
          → IsCovered S v
          → GroupsDone plug (more a v))
      → (r : Outcome Applied) (v : World S) → IsCovered S v
      → Returned (Synced S c fill group on) (r, v)
      → GroupsDone plug
          (continue r (λ a. after_group S c a.problem a before rest report (more a)) v)
  after_group-GroupsDone plug before rest report fill group more goes (done a) v covers synced =
      by_problem a.problem refl
    where
      by_problem :
          (p : Option String)
          → a.problem ≡ p
          → GroupsDone plug (after_group S c p a before rest report (more a) v)
      by_problem (some p) e =
          unfold after_group pure in record { covers = covers; synced = λ q. cc }
      by_problem none e = unfold after_group in goes a v (synced e) covers
  after_group-GroupsDone plug before rest report fill group more goes (raised e) v covers synced =
      record { covers = covers; synced = tt }
  after_group-GroupsDone plug before rest report fill group more goes stuck v covers synced =
      record { covers = covers; synced = tt }

  -- The file covers what was posted after any number of groups, however the loop ends. If there was
  -- no problem, it holds the states that the loop returns.
  pub apply_groups-GroupsDone :
      (plug : List GroupState → Checkpoint) (left right before gs : List GroupState)
      (report : BatchReport) (w : World S)
      → Frames left right plug
      → w.disk ≡ stored (plug (before ++ gs))
      → IsCovered S w
      → GroupsDone plug (apply_groups S c plug before gs report w)
  unfolding apply_groups ◌>>=◌ pure
  apply_groups-GroupsDone plug left right before [] report w frame on_disk h = record {
    covers = h;
    synced = λ _. rw append-nil at on_disk;
  }
  apply_groups-GroupsDone plug left right before (g ∷ rest) report w frame on_disk h =
      after_group-GroupsDone plug before rest report fill group _
        (λ a v d covers.
          apply_groups-GroupsDone plug left right (before ++ (a.state ∷ [])) rest _ v frame
            (d ∙ ap (λ ss. stored (plug ss)) (sym (append_assoc before (a.state ∷ []) rest)))
            covers)
        (apply_group S c fill group g w).0 (apply_group S c fill group g w).1
        (apply_group-IsCovered S c on fill (left ++ before) (rest ++ right) g w split on_disk
          (rw (split g) at (covered_of plug (before ++ (g ∷ rest)) w h on_disk)))
        (apply_group-Synced S c fill group on g w on_disk)
    where
      fill : GroupState → Checkpoint
      fill x = plug (before ++ (x ∷ rest))

      group : Group
      group = group_from_identity g.identity

      split : (x : GroupState) → states_of (fill x) ≡ (left ++ before) ++ (x ∷ (rest ++ right))
      split x = frame (before ++ (x ∷ rest)) ∙ simp append_assoc
