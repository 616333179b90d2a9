-- ===== src/Search/Engine/Apply/AtMostOnce.antt =====
-- `SearchEngine._apply_group`: the posted commands and the checkpoint file after one group.
use rawrz.Prelude.{
  ℕ, ◌≡◌, ◌≢◌, refl, ap, sym, ◌∙◌, true, ◌⊎◌, inl, inr, Option, none, some, List, ◌∷◌, String,
  Bool-cases, Option-cases,
}
use rawrz.Prelude.Result.{Result-cases}
use rawrz.Search.Plan.{Identity, Group, search_command}
use rawrz.Search.Checkpoint.{SeasonKey, validate}
use rawrz.Search.State.{Status, Snapshot, GroupState, Checkpoint, encode}
use rawrz.Search.Config.{SearchConfig}
use rawrz.Search.Engine.{
  Service, World, Outcome, stored, done, raised, stuck, reach, ◌>>=◌, ◌>>◌, pure, continue, write,
}
use rawrz.Search.Engine.Apply.{
  is_safe, save, post, answer_of, marked, post_group, launch, resume_from, dispatch, apply_group,
}
use rawrz.Search.Engine.Apply.Marks.{Marked, accept-Marked, resume_from-Marked}

module _ (S : Service) where
  -- The file and the posted commands are as they were.
  pub record Untouched (v w : World S) : Type 0 where
    pub same_disk : w.disk ≡ v.disk
    pub same_sent : w.sent ≡ v.sent

  pub write_cases :
      (c : Checkpoint) (w : World S)
      → ((e : String) × (v : World S) × (write S c w ≡ (raised e, v)) × Untouched w v)
        ⊎ ((v : World S) × (write S c w ≡ (done tt, v)) × (v.disk ≡ stored c) × (v.sent ≡ w.sent))
  unfolding write
  write_cases c w = elim (Result-cases (validate (encode c))) [
    | inl (u, valid) ↦ elim (Bool-cases (S.replace w.net).0) [
      | inl replaced ↦ inr (
        record w { net = (S.replace w.net).1; disk = stored c },
        rw (valid, write, replaced),
        refl,
        refl,
      )
      | inr kept ↦ inl (
        "checkpoint could not be written",
        record w { net = (S.replace w.net).1 },
        rw (valid, write, kept),
        record { same_disk = refl; same_sent = refl },
      )
    ]
    | inr (e, invalid) ↦
        inl (e, w, rw (invalid, write), record { same_disk = refl; same_sent = refl })
  ]

module _ (S : Service) (c : SearchConfig) (fill : GroupState → Checkpoint) (group : Group) where
  abbrev key : SeasonKey
  key = (group.series_id, group.season_number)

  post_group-Marked :
      (identity : Identity) (sent : List SeasonKey) (g : GroupState) (snapshot : Snapshot)
      (w : World S)
      → g.identity ≡ identity
      → g.status ≢ Status.pending
      → Marked S fill identity sent w
      → let v = (post_group S c fill group g snapshot w).1 in
        Marked S fill identity sent v ⊎ Marked S fill identity (key ∷ sent) v
  unfolding post_group post ◌>>=◌
  post_group-Marked identity sent g snapshot w same started h =
      elim (Option-cases (search_command group)) [
        | inl empty ↦ inl (
            rw (empty, post)
              ((accept-Marked S c fill group identity sent g snapshot none same started).at w h))
        | inr (command, found) ↦
            let (r, t) = S.post_command command w.net in
            inr (
              rw (found, post)
                ((accept-Marked S c fill group identity (key ∷ sent) g snapshot (answer_of r) same
                    started).at
                  (record w { net = t; sent = key ∷ w.sent })
                  (record {
                    state = h.state;
                    same = h.same;
                    started = h.started;
                    on_disk = h.on_disk;
                    posted = ap (λ s. key ∷ s) h.posted;
                  })))
      ]

  -- What one group does to the file and to the posted commands, from the world `w`, when the file
  -- holds the group in the state `g`.
  abbrev pub OneStep : GroupState → World S → World S → Type 0
  OneStep g w v =
      Untouched S w v
      ⊎ Marked S fill g.identity w.sent v
      ⊎ ((g.status ≡ Status.pending) × Marked S fill g.identity (key ∷ w.sent) v)

  pub save_eq : c.checkpoint ≡ true → (g : GroupState) → save S c fill group g ≡ write S (fill g)
  unfolding save
  save_eq on g = rw on

  launched :
      (g : GroupState) (snapshot : Snapshot) (v w : World S)
      → c.checkpoint ≡ true
      → g.status ≡ Status.pending
      → Untouched S w v
      → let m = marked g snapshot in
        OneStep g w ((save S c fill group m >> post_group S c fill group m snapshot) v).1
  unfolding ◌>>=◌
  launched g snapshot v w on pending u =
      rw (save_eq on) (elim (write_cases S (fill (marked g snapshot)) v) [
        | inl (e, x, eq, un) ↦ rw eq (
            inl (record {
              same_disk = un.same_disk ∙ u.same_disk;
              same_sent = un.same_sent ∙ u.same_sent;
            }))
        | inr (x, eq, d, s) ↦ rw eq (
            posted_step (
              post_group-Marked g.identity w.sent (marked g snapshot) snapshot x refl (λ p. cc)
                (record {
                  state = marked g snapshot;
                  same = refl;
                  started = λ p. cc;
                  on_disk = d;
                  posted = s ∙ u.same_sent;
                })))
      ])
    where
      posted_step :
          {v : World S}
          → Marked S fill g.identity w.sent v ⊎ Marked S fill g.identity (key ∷ w.sent) v
          → OneStep g w v
      posted_step (inl h) = inr (inl h)
      posted_step (inr h) = inr (inr (pending, h))

  launch-OneStep :
      (g : GroupState) (w : World S)
      → c.checkpoint ≡ true
      → g.status ≡ Status.pending
      → OneStep g w (launch S c fill group g w).1
  unfolding launch ◌>>=◌ reach
  launch-OneStep g w on pending = captured (S.capture _ _ w.net).0 (S.capture _ _ w.net).1
    where
      captured :
          (r : Outcome Snapshot) (t : S.State)
          → OneStep g w
              (continue r
                (λ snapshot.
                  save S c fill group (marked g snapshot)
                  >> post_group S c fill group (marked g snapshot) snapshot)
                (record w { net = t })).1
      captured (raised e) t = inl (record { same_disk = refl; same_sent = refl })
      captured stuck t = inl (record { same_disk = refl; same_sent = refl })
      captured (done snapshot) t =
          launched g snapshot (record w { net = t }) w on pending
            (record { same_disk = refl; same_sent = refl })

  resumed :
      (g : GroupState) (w : World S)
      → w.disk ≡ stored (fill g)
      → g.status ≢ Status.pending
      → OneStep g w (resume_from S c fill group g g.snapshot w).1
  resumed g w on_disk started = inr (
      inl (
        (resume_from-Marked S c fill group g.identity w.sent g g.snapshot refl started).at w
          (record { state = g; same = refl; started = started; on_disk = on_disk; posted = refl })))

  ne_of :
      {s : Status} (g : GroupState) → g.status ≡ s → s ≢ Status.pending → g.status ≢ Status.pending
  ne_of g e ne p = ne (sym e ∙ p)

  pub apply_group-OneStep :
      (g : GroupState) (w : World S)
      → c.checkpoint ≡ true
      → w.disk ≡ stored (fill g)
      → OneStep g w (apply_group S c fill group g w).1
  unfolding apply_group
  apply_group-OneStep g w on on_disk = by_status g.status refl
    where
      by_status :
          (s : Status)
          → g.status ≡ s
          → OneStep g w (dispatch S c fill group s g.verification.status g.command.id g w).1
      by_status Status.pending e = unfold dispatch in launch-OneStep g w on e
      by_status Status.running e = by_id g.command.id
        where
          by_id :
              (i : Option ℕ)
              → OneStep g w (dispatch S c fill group Status.running g.verification.status i g w).1
          by_id none = unfold dispatch pure in inl (record { same_disk = refl; same_sent = refl })
          by_id (some n) = unfold dispatch in resumed g w on_disk (ne_of g e (λ p. cc))
      by_status Status.completed e =
          unfold dispatch in
          elim (Bool-cases (is_safe g.verification.status)) [
            | inl safe ↦
                rw safe (unfold pure in inl (record { same_disk = refl; same_sent = refl }))
            | inr unsafe ↦ rw unsafe (resumed g w on_disk (ne_of g e (λ p. cc)))
          ]
      by_status Status.failed e =
          unfold dispatch pure in inl (record { same_disk = refl; same_sent = refl })
