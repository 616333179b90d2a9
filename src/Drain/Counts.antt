-- ===== src/Drain/Counts.antt =====
-- scripts/drain_sonarr_queue.py: the loop of `drain`, its counters, and its dry run.
use rawrz.Prelude.{
  ℕ, zero, suc, ◌+◌, ◌≡◌, refl, ap, ◌∙◌, Bool, true, false, ◌&&◌, not, Option, none, some, List, [],
  ◌∷◌, String, arith, length, ◌==◌, string_eq,
}
use mathlib.Core.Path.{subst}
use rawrz.Prelude.Result.{Result}
use rawrz.Json.Int.{ℤ}
use rawrz.Exec.{Outcome, done, raised, stuck, ◌>>=◌, pure}
use rawrz.Exec.Keeps.{Keeps, Keeps-bind, Keeps-pure, Keeps-if}
use rawrz.Exec.Works.{Gives, Works, Works-bind, Works-pure, Works-if, Gives-bind}
use rawrz.Drain.{
  App, Item, Candidate, ImportFile, CommandStatus, completed, failed, other, Api, World, Run,
  Verdict, ok, skip, fail, pending, Tally, no_tally, first_of, filled, same_id, file_name, ask,
  request, unless, prove_all, proven_files, safe_resolution, preview_result, preview_safe, polled,
  poll, commanded, post_import, import_resolved, import_preview, import_one, remove_item, counted,
  dry_counted, after_removal, conclude, drain_item, drain_items, drain_queue, drain,
}
use rawrz.Drain.Outcomes.{Sent, ask-Sent, preview_safe-Sent}

-- How a record of the queue ends.
pub data End : Type 0 where
  as_imported as_skipped as_removed as_error : End

abbrev pub tally_end : End → Tally → Tally
tally_end as_imported n = record n { imported = suc n.imported }
tally_end as_skipped n = record n { skipped = suc n.skipped }
tally_end as_removed n = record n { removed = suc n.removed }
tally_end as_error n = record n { errors = suc n.errors }

abbrev pub tally_all : List End → Tally → Tally
tally_all [] n = n
tally_all (e ∷ ends) n = tally_all ends (tally_end e n)

-- The queue ids of the removals after a record that ends so.
abbrev pub removal_of : End → Item → List ℕ → List ℕ
removal_of as_imported item ids = ids
removal_of as_skipped item ids = ids
removal_of as_removed item ids = item.id ∷ ids
removal_of as_error item ids = item.id ∷ ids

abbrev pub removals : List Item → List End → List ℕ → List ℕ
removals (item ∷ items) (e ∷ ends) ids = removals items ends (removal_of e item ids)
removals _ _ ids = ids

abbrev total : Tally → ℕ
total n = n.imported + n.skipped + n.removed + n.errors

total-tally_end : (e : End) (n : Tally) → total (tally_end e n) ≡ suc (total n)
total-tally_end as_imported n = omega arith
total-tally_end as_skipped n = omega arith
total-tally_end as_removed n = omega arith
total-tally_end as_error n = omega arith

total-tally_all : (ends : List End) (n : Tally) → total (tally_all ends n) ≡ total n + length ends
total-tally_all [] n = omega arith
total-tally_all (e ∷ ends) n =
    omega (arith, total-tally_all ends (tally_end e n), total-tally_end e n)

counted_each : {m n : ℕ} → m ≡ n → 0 + 0 + 0 + 0 + m ≡ n
counted_each h = omega (arith, h)

module _ (A : Api) (app : App) where
  dry_item-Sent :
      (imports : List (List ImportFile)) (deleted : List ℕ) (auto_safe : Bool) (item : Item)
      (n : Tally)
      → Keeps (Sent A imports deleted) (drain_item A app false auto_safe item n)
  unfolding drain_item
  dry_item-Sent imports deleted auto_safe item n =
      Keeps-if auto_safe _ _
        (Keeps-bind _ _ (preview_safe-Sent A imports deleted app item) λ v. Keeps-pure _)
        (Keeps-pure _)

  dry_items-Sent :
      (imports : List (List ImportFile)) (deleted : List ℕ) (auto_safe : Bool) (todo : List Item)
      (n : Tally)
      → Keeps (Sent A imports deleted) (drain_items A app false auto_safe todo n)
  unfolding drain_items
  dry_items-Sent imports deleted auto_safe [] n = Keeps-pure _
  dry_items-Sent imports deleted auto_safe (item ∷ todo) n =
      Keeps-bind _ _ (dry_item-Sent imports deleted auto_safe item n)
        (dry_items-Sent imports deleted auto_safe todo)

  -- A dry run sends no import command and no removal, with `--auto-safe` or not.
  pub drain_dry :
      (auto_safe : Bool) (limit : ℤ) (w : World A)
      → Sent A w.imports w.deleted (drain A app false auto_safe limit w).1
  unfolding drain
  drain_dry auto_safe limit w =
      (Keeps-bind _ _ (ask-Sent A w.imports w.deleted A.queue) after).at w (refl, refl)
    where
      after :
          (r : Result (List Item))
          → Keeps (Sent A w.imports w.deleted) (drain_queue A app false auto_safe limit r)
      after (Result.err e) = unfold drain_queue in Keeps-pure _
      after (Result.ok records) =
          unfold drain_queue in
          Keeps-bind _ _
            (dry_items-Sent w.imports w.deleted auto_safe (first_of limit records) no_tally)
            (λ n. Keeps-pure _)

  import_failed :
      (item : Item) (w : World A) (download_id : String) (e : String)
      → filled item.download_id ≡ some download_id
      → (A.preview download_id w.net).0 ≡ Result.err e
      → import_one A app true item w
        ≡ (done fail, record w { net = (A.preview download_id w.net).1 })
  unfolding import_one import_preview ask pure ◌>>=◌
  import_failed item w download_id e has broken = rw (has, import_one) (rw broken)

  preview_safe_failed :
      (item : Item) (w : World A) (download_id : String) (e : String)
      → filled item.download_id ≡ some download_id
      → (A.preview download_id w.net).0 ≡ Result.err e
      → preview_safe A app item w ≡ (done skip, record w { net = (A.preview download_id w.net).1 })
  unfolding preview_safe preview_result ask pure ◌>>=◌
  preview_safe_failed item w download_id e has broken = rw (has, preview_safe) (rw broken)

  -- An item with a download whose preview cannot be fetched: an applied run with `--auto-safe` removes
  -- it from the queue, where the dry run says that it is skipped.
  pub drain_item-preview_failed :
      (item : Item) (n : Tally) (w : World A) (download_id : String) (e : String)
      → filled item.download_id ≡ some download_id
      → (A.preview download_id w.net).0 ≡ Result.err e
      → ((drain_item A app true true item n w).1.deleted ≡ item.id ∷ w.deleted)
        × ((preview_safe A app item w).0 ≡ done skip)
  unfolding drain_item conclude remove_item pure ◌>>=◌
  drain_item-preview_failed item n w download_id e has broken = (
    rw (import_failed item w download_id e has broken),
    rw (preview_safe_failed item w download_id e has broken),
  )

  -- What a run without exceptions needs: the polls of import commands are answered.
  abbrev pub IsAnswered : Type 0
  IsAnswered =
      (id : ℕ) (t : A.Net) → (s : CommandStatus) × ((A.command_status id t).0 ≡ Result.ok s)

  abbrev Deleted : List ℕ → World A → Type 0
  Deleted deleted w = w.deleted ≡ deleted

  module _ (answered : IsAnswered) (deleted : List ℕ) where
    ask-Works : {B : Type 0} (f : A.Net → Result B × A.Net) → Works (Deleted deleted) (ask A f)
    unfolding ask
    ask-Works f = record { at = λ w h. h }

    unless-Works :
        (b : Bool) (rest : Run A Bool)
        → Works (Deleted deleted) rest
        → Works (Deleted deleted) (unless A app b rest)
    unfolding unless
    unless-Works false rest h = Works-pure _ _
    unless-Works true rest h = h

    prove_all-Works :
        (expected : ℕ) (preview : List Candidate)
        → Works (Deleted deleted) (prove_all A app expected preview)
    unfolding prove_all
    prove_all-Works expected [] = Works-pure _ _
    prove_all-Works expected (c ∷ preview) =
        Works-if _ (same_id c.parent expected && not (file_name c == "")) _ _
          (Works-bind _ _ _ (ask-Works _) λ r. unless-Works _ _ (prove_all-Works expected preview))
          (Works-pure _ _)

    safe_resolution-Works :
        (item : Item) (preview : List Candidate)
        → Works (Deleted deleted) (safe_resolution A app item preview)
    unfolding safe_resolution
    safe_resolution-Works item preview = by_parent item.parent_id
      where
        by_parent :
            (o : Option ℕ)
            → Works (Deleted deleted) (elim o as (λ _. Run A (Result (List ImportFile))) [
              | none ↦ pure (Result.err "queue item carries no id to verify against")
              | some expected ↦ prove_all A app expected preview >>= λ proven.
                  pure (proven_files A app item preview proven)
            ])
        by_parent none = Works-pure _ _
        by_parent (some expected) =
            Works-bind _ _ _ (prove_all-Works expected preview) λ b. Works-pure _ _

    preview_safe-Works : (item : Item) → Works (Deleted deleted) (preview_safe A app item)
    unfolding preview_safe
    preview_safe-Works item = by_id (filled item.download_id)
      where
        after :
            (r : Result (List Candidate)) → Works (Deleted deleted) (preview_result A app item r)
        after (Result.err e) = unfold preview_result in Works-pure _ _
        after (Result.ok preview) =
            unfold preview_result in
            Works-bind _ _ _ (safe_resolution-Works item preview) (λ r. Works-pure _ _)

        by_id :
            (o : Option String)
            → Works (Deleted deleted) (elim o as (λ _. Run A Verdict) [
              | none ↦ pure skip
              | some download_id ↦ ask A (A.preview download_id) >>= preview_result A app item
            ])
        by_id none = Works-pure _ _
        by_id (some id) = Works-bind _ _ _ (ask-Works _) after

    request-Works : (id : ℕ) → Works (Deleted deleted) (request A (A.command_status id))
    unfolding request
    request-Works id = record { at = λ w h. rw (answered id w.net).1 h }

    polled-Works :
        (s : CommandStatus) (rest : Run A Verdict)
        → Works (Deleted deleted) rest
        → Works (Deleted deleted) (polled A app s rest)
    unfolding polled
    polled-Works completed rest h = Works-pure _ _
    polled-Works failed rest h = Works-pure _ _
    polled-Works other rest h = h

    poll-Works : (rounds id : ℕ) → Works (Deleted deleted) (poll A app rounds id)
    unfolding poll
    poll-Works zero id = record { at = λ w h. h }
    poll-Works (suc rounds) id = record {
      at = λ w h.
          (Works-bind _ _ _ (request-Works id) λ s. polled-Works s _ (poll-Works rounds id)).at
            (record w { net = A.sleep w.net }) h;
    }

    commanded-Works : (r : Result (Option ℕ)) → Works (Deleted deleted) (commanded A app r)
    unfolding commanded
    commanded-Works (Result.err e) = Works-pure _ _
    commanded-Works (Result.ok none) = Works-pure _ _
    commanded-Works (Result.ok (some zero)) = Works-pure _ _
    commanded-Works (Result.ok (some (suc id))) = poll-Works 10 (suc id)

    import_resolved-Works :
        (v : Verdict) (r : Result (List ImportFile))
        → Works (Deleted deleted) (import_resolved A app v r)
    unfolding import_resolved
    import_resolved-Works v (Result.err e) = Works-pure _ _
    import_resolved-Works v (Result.ok files) =
        Works-bind _ _ _ (unfold post_import in record { at = λ w h. h }) commanded-Works

    import_one-Works :
        (auto_safe : Bool) (item : Item) → Works (Deleted deleted) (import_one A app auto_safe item)
    unfolding import_one
    import_one-Works auto_safe item = by_id (filled item.download_id)
      where
        after :
            (id : String) (r : Result (List Candidate))
            → Works (Deleted deleted) (import_preview A app auto_safe item id r)
        after id (Result.err e) = unfold import_preview in Works-pure _ _
        after id (Result.ok preview) =
            unfold import_preview in
            Works-if _ auto_safe _ _
              (Works-bind _ _ _ (safe_resolution-Works item preview) (import_resolved-Works skip))
              (import_resolved-Works fail _)

        by_id :
            (o : Option String)
            → Works (Deleted deleted) (elim o as (λ _. Run A Verdict) [
              | none ↦ pure fail
              | some download_id ↦
                  ask A (A.preview download_id) >>= import_preview A app auto_safe item download_id
            ])
        by_id none = Works-pure _ _
        by_id (some id) = Works-bind _ _ _ (ask-Works _) (after id)

  record Balanced (items : List Item) (n : Tally) (deleted : List ℕ) (m : Tally) (w : World A)
      : Type 0 where
    ends : List End
    each : length ends ≡ length items
    tallied : m ≡ tally_all ends n
    sent : w.deleted ≡ removals items ends deleted

  single :
      (item : Item) (n m : Tally) (deleted : List ℕ) (w : World A) (e : End)
      → m ≡ tally_end e n
      → w.deleted ≡ removal_of e item deleted
      → Balanced (item ∷ []) n deleted m w
  single item n m deleted w e a b = record { ends = e ∷ []; each = refl; tallied = a; sent = b }

  removed-Balanced :
      (item : Item) (n : Tally) (deleted : List ℕ) (w : World A) (r : Result (Unit {0}))
      → w.deleted ≡ item.id ∷ deleted
      → Balanced (item ∷ []) n deleted (after_removal A app n r) w
  unfolding after_removal
  removed-Balanced item n deleted w (Result.ok u) e = single item n _ deleted w as_removed refl e
  removed-Balanced item n deleted w (Result.err x) e = single item n _ deleted w as_error refl e

  -- What a run that is counted returns.
  abbrev Counts : List Item → Tally → List ℕ → Outcome Tally × World A → Type 0
  Counts items n deleted = Gives (Balanced items n deleted)

  conclude-Balanced :
      (item : Item) (n : Tally) (v : Verdict) (w : World A)
      → Counts (item ∷ []) n w.deleted (conclude A app item n v w)
  unfolding conclude pure remove_item ◌>>=◌ counted
  conclude-Balanced item n fail w =
      removed-Balanced item n w.deleted _ (A.delete item.id w.net).0 refl
  conclude-Balanced item n ok w = single item n _ w.deleted w as_imported refl refl
  conclude-Balanced item n skip w = single item n _ w.deleted w as_skipped refl refl
  conclude-Balanced item n pending w = single item n _ w.deleted w as_skipped refl refl

  dry_counted-Balanced :
      (item : Item) (n : Tally) (deleted : List ℕ) (v : Verdict) (w : World A)
      → w.deleted ≡ deleted
      → Balanced (item ∷ []) n deleted (dry_counted A app n v) w
  unfolding dry_counted
  dry_counted-Balanced item n deleted ok w e = single item n _ deleted w as_imported refl e
  dry_counted-Balanced item n deleted skip w e = single item n _ deleted w as_skipped refl e
  dry_counted-Balanced item n deleted fail w e = single item n _ deleted w as_skipped refl e
  dry_counted-Balanced item n deleted pending w e = single item n _ deleted w as_skipped refl e

  module _ (answered : IsAnswered) where
    drain_item-Counts :
        (apply auto_safe : Bool) (item : Item) (n : Tally) (w : World A)
        → Counts (item ∷ []) n w.deleted (drain_item A app apply auto_safe item n w)
    unfolding drain_item
    drain_item-Counts false true item n w =
        Gives-bind (λ v u. u.deleted ≡ w.deleted) (Balanced (item ∷ []) n w.deleted)
          (preview_safe A app item) _ w ((preview_safe-Works answered w.deleted item).at w refl)
          (λ v u e. unfold pure in dry_counted-Balanced item n w.deleted v u e)
    drain_item-Counts false false item n w =
        unfold pure in dry_counted-Balanced item n w.deleted ok w refl
    drain_item-Counts true auto_safe item n w =
        Gives-bind (λ v u. u.deleted ≡ w.deleted) (Balanced (item ∷ []) n w.deleted)
          (import_one A app auto_safe item) _ w
          ((import_one-Works answered w.deleted auto_safe item).at w refl)
          (λ v u e.
            subst (λ d. Counts (item ∷ []) n d (conclude A app item n v u)) e
              (conclude-Balanced item n v u))

    Balanced-trans :
        (item : Item) (todo : List Item) (n m l : Tally) (deleted : List ℕ) (u w : World A)
        → Balanced (item ∷ []) n deleted m u
        → Balanced todo m u.deleted l w
        → Balanced (item ∷ todo) n deleted l w
    Balanced-trans item todo n m l deleted u w a b = joined a.ends a.each a.tallied a.sent
      where
        joined :
            (ends : List End)
            → length ends ≡ 1
            → m ≡ tally_all ends n
            → u.deleted ≡ removals (item ∷ []) ends deleted
            → Balanced (item ∷ todo) n deleted l w
        joined [] e t s = absurd (omega (arith, e))
        joined (x ∷ []) e t s = record {
          ends = x ∷ b.ends;
          each = omega (arith, b.each);
          tallied = b.tallied ∙ ap (tally_all b.ends) t;
          sent = b.sent ∙ ap (removals todo b.ends) s;
        }
        joined (x ∷ y ∷ ends) e t s = absurd (omega (arith, e))

    Gives-map :
        {B : Type 0} (P Q : B → World A → Type 0) (r : Outcome B × World A)
        → ((b : B) (w : World A) → P b w → Q b w)
        → Gives P r
        → Gives Q r
    Gives-map P Q (done b, w) f h = f b w h
    Gives-map P Q (raised e, w) f h = h
    Gives-map P Q (stuck, w) f h = h

    drain_items-Counts :
        (apply auto_safe : Bool) (todo : List Item) (n : Tally) (w : World A)
        → Counts todo n w.deleted (drain_items A app apply auto_safe todo n w)
    unfolding drain_items
    drain_items-Counts apply auto_safe [] n w =
        unfold pure in record { ends = []; each = refl; tallied = refl; sent = refl }
    drain_items-Counts apply auto_safe (item ∷ todo) n w =
        Gives-bind (Balanced (item ∷ []) n w.deleted) (Balanced (item ∷ todo) n w.deleted)
          (drain_item A app apply auto_safe item n) _ w (drain_item-Counts apply auto_safe item n w)
          (λ m u h.
            Gives-map (Balanced todo m u.deleted) (Balanced (item ∷ todo) n w.deleted) _
              (λ l v k. Balanced-trans item todo n m l w.deleted u v h k)
              (drain_items-Counts apply auto_safe todo m u))

    -- What `drain` returns for the queue's records: each one it goes through has one end.
    abbrev pub IsDrained : ℤ → List Item → World A → ℕ × Tally → World A → Type 0
    IsDrained limit records w (exit_code, n) v =
        (ends : List End) × (exit_code ≡ 0)
        × (length ends ≡ length (first_of limit records))
        × (n ≡ tally_all ends no_tally)
        × (n.imported + n.skipped + n.removed + n.errors ≡ length (first_of limit records))
        × (v.deleted ≡ removals (first_of limit records) ends w.deleted)

    -- If the queue can be fetched and the polls of import commands are answered, `drain` returns 0. Each
    -- of the records that it processes comes to one end, by which it is counted once, as imported,
    -- skipped, removed or an error; and the removals that are sent are, in order, those with the queue
    -- ids of the records that count as removed or as an error, and no other.
    pub drain-IsDrained :
        (apply auto_safe : Bool) (limit : ℤ) (records : List Item) (w : World A)
        → (A.queue w.net).0 ≡ Result.ok records
        → Gives (IsDrained limit records w) (drain A app apply auto_safe limit w)
    unfolding drain ask ◌>>=◌
    drain-IsDrained apply auto_safe limit records w fetched =
        rw fetched (drained (record w { net = (A.queue w.net).1 }) refl)
      where
        drained :
            (u : World A)
            → u.deleted ≡ w.deleted
            → Gives
                (IsDrained limit records w)
                (drain_queue A app apply auto_safe limit (Result.ok records) u)
        drained u e =
            unfold drain_queue in
            Gives-bind (Balanced (first_of limit records) no_tally u.deleted)
              (IsDrained limit records w)
              (drain_items A app apply auto_safe (first_of limit records) no_tally)
              (λ n. pure (0, n)) u
              (drain_items-Counts apply auto_safe (first_of limit records) no_tally u)
              (λ n v h.
                unfold pure in
                (
                  h.ends,
                  refl,
                  h.each,
                  h.tallied,
                  ap total h.tallied ∙ total-tally_all h.ends no_tally ∙ counted_each h.each,
                  h.sent ∙ ap (removals (first_of limit records) h.ends) e,
                ))
