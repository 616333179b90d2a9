-- ===== src/Search/Engine/Loop/Once.antt =====
-- `SearchEngine.run` from its start to its end, and runs one after another.
use rawrz.Prelude.{
  ℕ, ◌≡◌, refl, sym, ap, ◌∙◌, Bool, true, false, ◌⊎◌, Bool-cases, not, ◌&&◌, inl, inr, Option, none,
  some, List, [], ◌∷◌, map, arith, if◌then◌else◌, length, nat_eq, Pairs,
}
use mathlib.Core.Bool.{false≢true}
use rawrz.Search.Plan.{Group}
use rawrz.Search.State.{Checkpoint, Batch}
use rawrz.Search.Config.{SearchConfig}
use rawrz.Search.Engine.{
  Service, World, Run, Disk, absent, unreadable, stored, Outcome, done, raised, stuck, continue,
  ◌>>=◌, ◌>>◌, pure, raise, reach, write,
}
use rawrz.Search.Engine.Apply.AtMostOnce.{Untouched}
use rawrz.Search.Engine.Loop.{
  stop, resumed, new, Mode, mode, run_mode, run_loaded, run_plan, planned, RunResult, is_last,
  nat_of, run_checkpoint, plan_new, write_plan, run_new, BatchReport, verify_batch, run_batches,
  run_resumed, run,
}
use rawrz.Search.Engine.Loop.Covered.{states_of, group_key, IsCovered}
use rawrz.Prelude.Result.{Result}
use rawrz.Search.Plan.{Episode, build_groups, split_batches}
use rawrz.Search.State.{checkpoint_plan, encode}
use rawrz.Search.Checkpoint.{validate as validate_json}
use rawrz.Search.Config.{same_config, checkpoint_config}
use rawrz.Exec.Keeps.{Keeps, Keeps-bind, Keeps-pure, Keeps-if}
use rawrz.Search.Engine.Keeps.{Keeps-reach}
use rawrz.Search.Engine.Apply.AtMostOnce.{write_cases}
use rawrz.Search.Engine.Loop.{exists, refused}
use rawrz.Search.Engine.Loop.Covered.{Apart}
use rawrz.Search.Engine.Loop.Batches.{run_batches-IsCovered}
use rawrz.Search.Engine.Loop.Planned.{checkpoint_plan-Apart}

module _ (S : Service) (c : SearchConfig) where
  -- The planning either raises or returns a split of the groups, and it touches Sonarr alone.
  plan_new-then :
      {B : Type 0} (P : World S → Type 0) (f : List Episode × List (List Group) → Run S B)
      (w : World S)
      → ((t : S.State) → P (record w { net = t }))
      → ((missing : List Episode) (batches : List (List Group)) (t : S.State)
          → split_batches (build_groups missing) (nat_of S c c.batch_size) ≡ some batches
          → P (f (missing, batches) (record w { net = t })).1)
      → P ((plan_new S c >>= f) w).1
  unfolding plan_new ◌>>=◌ reach
  plan_new-then P f w early late =
      by_answer (S.fetch_missing ids w.net).0 (S.fetch_missing ids w.net).1
    where
      ids : Option (List ℕ)
      ids = if c.all_series then none else c.series_ids

      plan : List Episode → Run S (List Episode × List (List Group))
      plan missing =
          planned S c missing (split_batches (build_groups missing) (nat_of S c c.batch_size))

      by_split :
          (missing : List Episode) (t : S.State) (o : Option (List (List Group)))
          → split_batches (build_groups missing) (nat_of S c c.batch_size) ≡ o
          → let m = planned S c missing o (record w { net = t }) in P (continue m.0 f m.1).1
      by_split missing t none e = unfold planned raise in early t
      by_split missing t (some batches) e = unfold planned pure in late missing batches t e

      by_answer :
          (r : Outcome (List Episode)) (t : S.State)
          → let m = continue r plan (record w { net = t }) in P (continue m.0 f m.1).1
      by_answer (raised e) t = early t
      by_answer stuck t = early t
      by_answer (done missing) t = by_split missing t _ refl

  same : (w : World S) (t : S.State) → Untouched S w (record w { net = t })
  same w t = record { same_disk = refl; same_sent = refl }

  blind : (x w : World S) (t : S.State) → Untouched S x w → Untouched S x (record w { net = t })
  blind x w t h = record { same_disk = h.same_disk; same_sent = h.same_sent }

  mode-resumed : (resume : Bool) (d : Disk) → mode S c resume d ≡ resumed → c.apply ≡ true
  unfolding mode
  mode-resumed resume d e = ground arith

  mode-new :
      (resume : Bool) (d : Disk) → mode S c resume d ≡ new → c.apply ≡ true → exists S c d ≡ false
  unfolding mode
  mode-new resume absent e h = refl
  mode-new resume unreadable e h = ground arith
  mode-new resume (stored cp) e h = ground arith

-- A run that is not told to apply.
module _ (S : Service) (c : SearchConfig) (off : c.apply ≡ false) where
  verify_batch-Keeps :
      (x : World S) (groups : List Group) (report : BatchReport)
      → Keeps (Untouched S x) (verify_batch S c groups report)
  unfolding verify_batch
  verify_batch-Keeps x groups report =
      Keeps-if c.verify _ _
        (Keeps-bind _ _ (Keeps-reach (blind S c x) _)
          λ snapshot. Keeps-bind _ _ (Keeps-reach (blind S c x) _) λ found. Keeps-pure _)
        (Keeps-pure _)

  when_dry :
      {A : Type 0} (P : World S → Type 0) (b : Bool) (m n : Run S A)
      → b ≡ false
      → Keeps P m
      → Keeps P (if not b then m else n)
  when_dry P false m n e h = h
  when_dry P true m n e h = absurd (false≢true (sym e))

  run_batches-Keeps :
      (x : World S) (cp : Checkpoint) (total : ℕ) (before rest : List Batch)
      (planned : List (List Group)) (result : RunResult)
      → Keeps (Untouched S x) (run_batches S c cp total before rest planned result)
  unfolding run_batches
  run_batches-Keeps x cp total before [] planned result = Keeps-pure _
  run_batches-Keeps x cp total before (b ∷ rest) planned result =
      when_dry (Untouched S x) c.apply _ _ off
        (Keeps-bind _ _ (verify_batch-Keeps x _ _) λ r. run_batches-Keeps x cp total _ rest _ _)

  write_plan-Keeps : (x : World S) (cp : Checkpoint) → Keeps (Untouched S x) (write_plan S c cp)
  unfolding write_plan
  write_plan-Keeps x cp = unwritten c.apply off
    where
      unwritten :
          (b : Bool)
          → b ≡ false
          → Keeps (Untouched S x) (if b && c.checkpoint then write S cp else pure tt)
      unwritten false e = Keeps-pure tt
      unwritten true e = absurd (false≢true (sym e))

  run_plan-Keeps :
      (x : World S) (missing : List Episode) (batches : List (List Group))
      → Keeps (Untouched S x) (run_plan S c missing batches)
  unfolding run_plan run_checkpoint
  run_plan-Keeps x missing batches =
      Keeps-if (is_last missing) _ _ (Keeps-pure _)
        (Keeps-bind _ _ (write_plan-Keeps x _) λ u. run_batches-Keeps x _ _ [] _ batches _)

  -- A run that is not told to apply leaves the checkpoint file and the posted searches as they were,
  -- with `--resume` or not, whatever the file holds and however the run ends.
  pub run_dry-Untouched : (resume : Bool) (w : World S) → Untouched S w (run S c resume w).1
  unfolding run
  run_dry-Untouched resume w = by_mode (mode S c resume w.disk) refl
    where
      by_mode : (m : Mode) → mode S c resume w.disk ≡ m → Untouched S w (run_mode S c m w).1
      by_mode (stop error) e = unfold run_mode pure in same S c w w.net
      by_mode resumed e = absurd (false≢true (sym off ∙ mode-resumed S c resume w.disk e))
      by_mode new e =
          unfold run_mode run_new in
          plan_new-then S c (Untouched S w) _ w (same S c w)
            λ missing batches t split. (run_plan-Keeps w missing batches).at _ (same S c w t)

-- Nothing was ever posted and there is no file, or the file accounts for what was posted.
abbrev pub IsAccounted : (S : Service) → World S → Type 0
IsAccounted S w = ((w.disk ≡ absent) × (w.sent ≡ [])) ⊎ IsCovered S w

module _ (S : Service) (c : SearchConfig) (on : c.checkpoint ≡ true)
    (applied : c.apply ≡ true) where
  run_checkpoint-IsCovered :
      (missing : ℕ) (cp : Checkpoint) (planned : List (List Group)) (w : World S)
      → w.disk ≡ stored cp
      → IsCovered S w
      → IsCovered S (run_checkpoint S c missing cp planned w).1
  unfolding run_checkpoint
  run_checkpoint-IsCovered missing cp planned w on_disk h =
      run_batches-IsCovered S c on applied cp _ [] cp.batches planned _ w on_disk h

  run_loaded-IsCovered :
      (cp : Checkpoint) (r : Result (Unit {0})) (w : World S)
      → w.disk ≡ stored cp
      → IsCovered S w
      → IsCovered S (run_loaded S c cp r w).1
  run_loaded-IsCovered cp (Result.err e) w on_disk h = unfold run_loaded pure in h
  run_loaded-IsCovered cp (Result.ok u) w on_disk h =
      unfold run_loaded in by_config (same_config cp.config (checkpoint_config c)) _ _
    where
      by_config :
          (b : Bool) (missing : ℕ) (refusal : RunResult)
          → IsCovered S ((if b then run_checkpoint S c missing cp [] else pure refusal) w).1
      by_config true missing refusal = run_checkpoint-IsCovered missing cp [] w on_disk h
      by_config false missing refusal = unfold pure in h

  run_resumed-IsCovered :
      (d : Disk) (w : World S) → w.disk ≡ d → IsCovered S w → IsCovered S (run_resumed S c d w).1
  unfolding run_resumed pure
  run_resumed-IsCovered absent w e h = h
  run_resumed-IsCovered unreadable w e h = h
  run_resumed-IsCovered (stored cp) w e h =
      run_loaded-IsCovered cp (validate_json (encode cp)) w e h

  write_plan_eq : (cp : Checkpoint) → write_plan S c cp ≡ write S cp
  unfolding write_plan
  write_plan_eq cp = rw (applied, on) refl

  -- The plan is written before anything is posted.
  write_plan-IsAccounted :
      (missing : ℕ) (cp : Checkpoint) (planned : List (List Group)) (w : World S)
      → w.disk ≡ absent
      → w.sent ≡ []
      → Pairs Apart (map group_key (states_of cp))
      → IsAccounted S ((write_plan S c cp >> run_checkpoint S c missing cp planned) w).1
  unfolding ◌>>=◌
  write_plan-IsAccounted missing cp planned w gone fresh apart =
      rw (write_plan_eq cp) (elim (write_cases S cp w) [
        | inl (e, v, failed, u) ↦ rw failed (inl (u.same_disk ∙ gone, u.same_sent ∙ fresh))
        | inr (v, wrote, d, s) ↦ rw wrote (
            inr (
              run_checkpoint-IsCovered missing cp planned v d (record {
                file = cp;
                on_disk = d;
                accounts = rw (s ∙ fresh) (record { covered = λ k. omega arith; apart = apart });
              })))
      ])

  run_new-IsAccounted :
      (w : World S) → w.disk ≡ absent → w.sent ≡ [] → IsAccounted S (run_new S c w).1
  unfolding run_new run_plan
  run_new-IsAccounted w gone fresh =
      plan_new-then S c (IsAccounted S) _ w (λ t. inl (gone, fresh))
        λ missing batches t split. by_missing missing batches t split (is_last missing)
    where
      by_missing :
          (missing : List Episode) (batches : List (List Group)) (t : S.State)
          → split_batches (build_groups missing) (nat_of S c c.batch_size) ≡ some batches
          → (b : Bool)
          → IsAccounted S
              ((if b
                  then pure (refused 0 "no missing episodes to search")
                  else (write_plan S c (checkpoint_plan (checkpoint_config c) batches)
                      >> run_checkpoint S c
                          (length missing)
                          (checkpoint_plan (checkpoint_config c) batches)
                          batches))
                (record w { net = t })).1
      by_missing missing batches t split true = unfold pure in inl (gone, fresh)
      by_missing missing batches t split false =
          write_plan-IsAccounted _ _ _ (record w { net = t }) gone fresh
            (checkpoint_plan-Apart (checkpoint_config c) missing _ batches split)

  resumed-IsAccounted :
      (d : Disk) (w : World S)
      → w.disk ≡ d
      → IsAccounted S w
      → IsAccounted S (run_resumed S c d w).1
  resumed-IsAccounted d w e (inr h) = inr (run_resumed-IsCovered d w e h)
  resumed-IsAccounted absent w e (inl h) = unfold run_resumed pure in inl h
  resumed-IsAccounted unreadable w e (inl h) = unfold run_resumed pure in inl h
  resumed-IsAccounted (stored cp) w e (inl (gone, fresh)) = cc

  -- An applied run keeps the account, however it ends.
  applied-IsAccounted :
      (resume : Bool) (w : World S) → IsAccounted S w → IsAccounted S (run S c resume w).1
  unfolding run
  applied-IsAccounted resume w h = by_mode (mode S c resume w.disk) refl h
    where
      by_mode :
          (m : Mode)
          → mode S c resume w.disk ≡ m
          → IsAccounted S w
          → IsAccounted S (run_mode S c m w).1
      by_mode (stop error) e k = unfold run_mode pure in k
      by_mode resumed e k = unfold run_mode in resumed-IsAccounted w.disk w refl k
      by_mode new e (inl (gone, fresh)) = unfold run_mode in run_new-IsAccounted w gone fresh
      by_mode new e (inr k) = absurd (
          false≢true
            (sym (mode-new S c resume w.disk e applied) ∙ ap (λ d. exists S c d) k.on_disk))

module _ (S : Service) where
  untouched : {w v : World S} → Untouched S w v → IsAccounted S w → IsAccounted S v
  untouched u (inl (gone, fresh)) = inl (u.same_disk ∙ gone, u.same_sent ∙ fresh)
  untouched u (inr k) = inr (record {
    file = k.file;
    on_disk = u.same_disk ∙ k.on_disk;
    accounts = rw u.same_sent k.accounts;
  })

  -- One run keeps the account, whatever its command line asks for and however it ends.
  pub run-IsAccounted :
      (c : SearchConfig)
      → c.checkpoint ≡ true
      → (resume : Bool) (w : World S) → IsAccounted S w
      → IsAccounted S (run S c resume w).1
  run-IsAccounted c on resume w h = elim (Bool-cases c.apply) [
    | inl applied ↦ applied-IsAccounted S c on applied resume w h
    | inr off ↦ untouched (run_dry-Untouched S c off resume w) h
  ]
