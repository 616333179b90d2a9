-- ===== src/Search/Engine/Loop/Covered.antt =====
-- `SearchEngine.run`: the searches that were posted, weighed against the groups of the file.
use rawrz.Prelude.{
  ℕ, suc, ◌+◌, ◌≤◌, ◌≡◌, ◌≢◌, refl, ap, ◌∙◌, Bool, true, false, inl, inr, List, [], ◌∷◌, ◌++◌, map,
  arith, Bool-cases, if◌then◌else◌, count_if, sum_of, sum_of-append, gather, All, Pairs,
}
use rawrz.Search.Plan.{same_key}
use rawrz.Search.Checkpoint.{SeasonKey}
use rawrz.Search.State.{Status, GroupState, Batch, Checkpoint}
use rawrz.Search.Config.{SearchConfig}
use rawrz.Search.Engine.{Service, World, stored}
use rawrz.Search.Engine.Apply.{identity_key, apply_group}
use rawrz.Search.Engine.Apply.AtMostOnce.{OneStep, apply_group-OneStep}
use rawrz.Search.Engine.Loop.{group_from_identity}

-- How often the search of a season has been posted.
abbrev pub times : SeasonKey → List SeasonKey → ℕ
times k = count_if (same_key k)

abbrev pub states_of : Checkpoint → List GroupState
states_of cp = gather (λ (b : Batch). b.groups) cp.batches

abbrev pub group_key : GroupState → SeasonKey
group_key g = identity_key g.identity

-- A pending group has not been posted, any other at most once.
abbrev budget : Status → ℕ
budget Status.pending = 0
budget _ = 1

abbrev share : SeasonKey → GroupState → ℕ
share k g = if same_key k (group_key g) then budget g.status else 0

abbrev allowance : SeasonKey → List GroupState → ℕ
allowance k = sum_of (share k)

abbrev pub Apart : SeasonKey → SeasonKey → Type 0
Apart k l = same_key k l ≡ false

-- The states account for every search that was posted, and no two are of one season.
pub record Accounts (sent : List SeasonKey) (states : List GroupState) : Type 0 where
  pub covered : (k : SeasonKey) → times k sent ≤ allowance k states
  pub apart : Pairs Apart (map group_key states)

pub record IsCovered (S : Service) (w : World S) : Type 0 where
  pub file : Checkpoint
  pub on_disk : w.disk ≡ stored file
  pub accounts : Accounts w.sent (states_of file)

budget-le : (s : Status) → budget s ≤ 1
budget-le Status.pending = omega arith
budget-le _ = omega arith

budget-started : (s : Status) → s ≢ Status.pending → budget s ≡ 1
budget-started Status.pending h = absurd (h refl)
budget-started _ h = refl

weigh-le : (a b : Bool) (m n : ℕ) → b ≡ a → m ≤ n → (if a then m else 0) ≤ (if b then n else 0)
weigh-le a b m n e h = ground arith

weigh-add :
    (a b d : Bool) (m n : ℕ)
    → a ≡ d
    → b ≡ d
    → suc m ≤ n
    → (if a then 1 else 0) + (if d then m else 0) ≤ (if b then n else 0)
weigh-add a b d m n e f h = ground arith

share-started :
    (k : SeasonKey) (g x : GroupState)
    → x.identity ≡ g.identity
    → x.status ≢ Status.pending
    → share k g ≤ share k x
share-started k g x same started =
    weigh-le (same_key k (group_key g)) (same_key k (group_key x)) (budget g.status)
      (budget x.status) (ap (λ i. same_key k (identity_key i)) same)
      (omega (arith, budget-le g.status, budget-started x.status started))

share-posted :
    (k : SeasonKey) (g x : GroupState)
    → x.identity ≡ g.identity
    → x.status ≢ Status.pending
    → g.status ≡ Status.pending
    → (if same_key k (group_key g) then 1 else 0) + share k g ≤ share k x
share-posted k g x same started pending =
    weigh-add (same_key k (group_key g)) (same_key k (group_key x)) (same_key k (group_key g))
      (budget g.status) (budget x.status) refl (ap (λ i. same_key k (identity_key i)) same)
      (omega (arith, ap budget pending, budget-started x.status started))

allowance-mid :
    (k : SeasonKey) (before after : List GroupState) (x : GroupState)
    → allowance k (before ++ (x ∷ after)) ≡ allowance k before + share k x + allowance k after
allowance-mid k before after x = omega (arith, sum_of-append (share k) before (x ∷ after))

times-cons :
    (k key : SeasonKey) (sent : List SeasonKey)
    → times k (key ∷ sent) ≡ (if same_key k key then 1 else 0) + times k sent
times-cons k key sent = ground arith

-- The middle group has started, and what it was posted for is covered.
mid-covered :
    (k : SeasonKey) (before after : List GroupState) (g x : GroupState) (n m : ℕ)
    → n ≤ allowance k (before ++ (g ∷ after))
    → m + share k g ≤ share k x
    → m + n ≤ allowance k (before ++ (x ∷ after))
mid-covered k before after g x n m h l =
    omega (arith, allowance-mid k before after g, allowance-mid k before after x)

keys-mid :
    (before after : List GroupState) (g x : GroupState)
    → x.identity ≡ g.identity
    → map group_key (before ++ (x ∷ after)) ≡ map group_key (before ++ (g ∷ after))
keys-mid [] after g x same = ap (λ i. identity_key i ∷ map group_key after) same
keys-mid (b ∷ before) after g x same = ap (λ ks. group_key b ∷ ks) (keys-mid before after g x same)

mid-kept :
    (k : SeasonKey) (before after : List GroupState) (g x : GroupState) (n : ℕ)
    → n ≤ allowance k (before ++ (g ∷ after))
    → share k g ≤ share k x
    → n ≤ allowance k (before ++ (x ∷ after))
mid-kept k before after g x n h l =
    omega (arith, allowance-mid k before after g, allowance-mid k before after x)

same_key-Apart :
    (k l m : SeasonKey) → same_key k l ≡ true → same_key l m ≡ false → same_key k m ≡ false
same_key-Apart (a, b) (c, d) (e, f) same apart = ground arith

-- The states of other seasons account for nothing.
allowance-none :
    (k l : SeasonKey) (states : List GroupState)
    → same_key k l ≡ true
    → All (Apart l) (map group_key states)
    → allowance k states ≡ 0
allowance-none k l [] same h = refl
allowance-none k l (g ∷ states) same h =
    rw (same_key-Apart k l (group_key g) same h.0)
      (omega (arith, allowance-none k l states same h.1))

-- States that are apart account for one search of a season at most.
pub allowance-Apart :
    (k : SeasonKey) (states : List GroupState)
    → Pairs Apart (map group_key states)
    → allowance k states ≤ 1
allowance-Apart k [] h = omega arith
allowance-Apart k (g ∷ states) h = elim (Bool-cases (same_key k (group_key g))) [
  | inl same ↦
      rw same (omega (arith, budget-le g.status, allowance-none k (group_key g) states same h.0))
  | inr differ ↦ rw differ (omega (arith, allowance-Apart k states h.1))
]

module _ (S : Service) (c : SearchConfig) (on : c.checkpoint ≡ true) where
  -- One group of the file, between the others.
  pub apply_group-IsCovered :
      (fill : GroupState → Checkpoint) (before after : List GroupState) (g : GroupState)
      (w : World S)
      → ((x : GroupState) → states_of (fill x) ≡ before ++ (x ∷ after))
      → w.disk ≡ stored (fill g)
      → Accounts w.sent (before ++ (g ∷ after))
      → IsCovered S (apply_group S c fill (group_from_identity g.identity) g w).1
  unfolding group_from_identity
  apply_group-IsCovered fill before after g w split on_disk cover =
      by_step (apply_group-OneStep S c fill (group_from_identity g.identity) g w on on_disk)
    where
      by_step :
          {v : World S} → OneStep S c fill (group_from_identity g.identity) g w v → IsCovered S v
      by_step (inl u) = record {
        file = fill g;
        on_disk = u.same_disk ∙ on_disk;
        accounts = rw (u.same_sent, split g) cover;
      }
      by_step (inr (inl m)) = record {
        file = fill m.state;
        on_disk = m.on_disk;
        accounts =
            rw (m.posted, split m.state)
              (record {
                covered = λ k.
                    mid-kept k before after g m.state (times k w.sent) (cover.covered k)
                      (share-started k g m.state m.same m.started);
                apart = rw (keys-mid before after g m.state m.same) cover.apart;
              });
      }
      by_step (inr (inr (p, m))) = record {
        file = fill m.state;
        on_disk = m.on_disk;
        accounts =
            rw (m.posted, split m.state)
              (record {
                covered = λ k. rw (times-cons k _ w.sent) (
                    mid-covered k before after g m.state (times k w.sent) _ (cover.covered k)
                      (share-posted k g m.state m.same m.started p));
                apart = rw (keys-mid before after g m.state m.same) cover.apart;
              });
      }
