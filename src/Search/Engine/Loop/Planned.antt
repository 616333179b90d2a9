-- ===== src/Search/Engine/Loop/Planned.antt =====
-- `_checkpoint_plan`: the groups of a new checkpoint.
use rawrz.Prelude.{
  ℕ, suc, ◌≡◌, refl, sym, ap, true, inl, inr, some, List, [], ◌∷◌, map, arith, Bool-cases, gather,
  All, Pairs, nat_eq,
}
use mathlib.Core.List.{map-append}
use rawrz.Search.Plan.{Episode, Group, same_key, build_groups, split_batches}
use rawrz.Search.Plan.Batches.{all_groups-split_batches}
use rawrz.Search.Plan.Groups.{SameSeason, build_groups-IsPlan}
use rawrz.Search.Checkpoint.{SeasonKey}
use rawrz.Search.State.{Batch, CheckpointConfig, checkpoint_group, number_batches, checkpoint_plan}
use rawrz.Search.Engine.Loop.Covered.{Apart, group_key, states_of}

abbrev season_of : Group → SeasonKey
season_of g = (g.series_id, g.season_number)

same_key_sound : (k l : SeasonKey) → same_key k l ≡ true → (k.0 ≡ l.0) × (k.1 ≡ l.1)
same_key_sound (a, b) (c, d) h = ground arith

season_of-Apart : (g h : Group) → ¬ SameSeason g h → Apart (season_of g) (season_of h)
season_of-Apart g h apart = elim (Bool-cases (same_key (season_of g) (season_of h))) [
  | inl same ↦ absurd (apart (same_key_sound (season_of g) (season_of h) same))
  | inr differ ↦ differ
]

season_of-All_Apart :
    (g : Group) (gs : List Group)
    → All (λ h. ¬ SameSeason g h) gs
    → All (Apart (season_of g)) (map season_of gs)
season_of-All_Apart g [] h = tt
season_of-All_Apart g (x ∷ gs) h = (season_of-Apart g x h.0, season_of-All_Apart g gs h.1)

season_of-Pairs :
    (gs : List Group) → Pairs (λ g h. ¬ SameSeason g h) gs → Pairs Apart (map season_of gs)
season_of-Pairs [] h = tt
season_of-Pairs (g ∷ gs) h = (season_of-All_Apart g gs h.0, season_of-Pairs gs h.1)

keys-map : (gs : List Group) → map group_key (map checkpoint_group gs) ≡ map season_of gs
unfolding checkpoint_group
keys-map [] = refl
keys-map (g ∷ gs) = ap (λ ks. season_of g ∷ ks) (keys-map gs)

states-number_batches :
    (n : ℕ) (batches : List (List Group))
    → gather (λ (b : Batch). b.groups) (number_batches n batches)
      ≡ map checkpoint_group (gather (λ b. b) batches)
unfolding number_batches
states-number_batches n [] = refl
states-number_batches n (b ∷ batches) =
    rw (states-number_batches (suc n) batches)
      (sym (map-append checkpoint_group b (gather (λ x. x) batches)))

-- If the groups of the missing episodes can be split, no two groups of the checkpoint that is made
-- from the batches are of one season.
pub checkpoint_plan-Apart :
    (config : CheckpointConfig) (missing : List Episode) (n : ℕ) (batches : List (List Group))
    → split_batches (build_groups missing) n ≡ some batches
    → Pairs Apart (map group_key (states_of (checkpoint_plan config batches)))
unfolding checkpoint_plan
checkpoint_plan-Apart config missing n batches split =
    rw
      (
        states-number_batches 1 batches,
        all_groups-split_batches (build_groups missing) n split,
        keys-map,
      )
      (season_of-Pairs (build_groups missing) (build_groups-IsPlan missing).apart)
