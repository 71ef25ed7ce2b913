-- ===== src/Deception/Policy.antt =====
-- ml/mirage/deception/policy.py: the category read back from an observation, and the policies that
-- learn nothing. An observation is a list of floats, `np.argmax` is written out.
use mirage_core.Shared.{
  ℕ, suc, ◌≡◌, refl, true, false, Option, none, some, List, [], ◌∷◌, map, take, drop, if◌then◌else◌,
  ◌==◌, nat_eq,
}
use mirage_core.Deception.{
  Category, recon, download, read_sensitive, escalate, exfil, cat_index, category_at, category_eq,
  is_sensitive, nothing, plus, DeceptionAction, surface_bait, enrich, fake_success, action_index,
}
use mirage_core.Deception.Env.{World, DeceptionConfig, DeceptionEnv, observe, category_part}

module _ (w : World) where
  open w use {Float, lt}

  -- `np.argmax` of the values from index `i` on, with the best so far at `best`
  unfoldable pub argmax_from : ℕ → Float → ℕ → List Float → ℕ
  argmax_from best top i [] = best
  argmax_from best top i (x ∷ xs) =
      if lt top x then argmax_from i x (suc i) xs else argmax_from best top (suc i) xs

  -- `np.argmax`: the first index of the largest value; 0 of no value stands for its ValueError.
  unfoldable pub argmax : List Float → ℕ
  argmax [] = 0
  argmax (x ∷ xs) = argmax_from 0 x 1 xs

  -- `_category_from_obs`
  unfoldable pub category_from_obs : List Float → ℕ
  category_from_obs obs = argmax (take 5 (drop 1 obs))

  -- `FixedPolicy.select_action`
  unfoldable pub select_fixed : DeceptionAction → List Float → ℕ
  select_fixed action obs = action_index action

  -- `HeuristicPolicy.select_action`; an index that names no category is an IndexError.
  unfoldable pub select_heuristic : List Float → Option ℕ
  select_heuristic obs = elim (category_at (category_from_obs obs)) [
    | none ↦ none
    | some category ↦ some (
        if is_sensitive category
        then action_index surface_bait
        else if category == download
        then action_index fake_success
        else action_index enrich)
  ]

  -- How the floats 0.0 and 1.0 compare.
  pub record IsOrdered : Type 0 where
    pub below : lt (w.as_float32 (w.literal nothing)) (w.as_float32 (w.literal (plus 100))) ≡ true
    pub not_above :
        lt (w.as_float32 (w.literal (plus 100))) (w.as_float32 (w.literal nothing)) ≡ false
    pub irreflexive :
        lt (w.as_float32 (w.literal nothing)) (w.as_float32 (w.literal nothing)) ≡ false

  argmax-category_part :
      IsOrdered → (c : Category) → argmax (map w.as_float32 (category_part w c)) ≡ cat_index c
  unfolding argmax argmax_from category_part
  argmax-category_part o recon = rw (o.not_above) refl
  argmax-category_part o download = rw (o.below, o.not_above) refl
  argmax-category_part o read_sensitive = rw (o.irreflexive, o.below, o.not_above) refl
  argmax-category_part o escalate = rw (o.irreflexive, o.below, o.not_above) refl
  argmax-category_part o exfil = rw (o.irreflexive, o.below) refl

  -- If 0.0 and 1.0 compare as they should, the index that a policy reads from an observation of the
  -- environment is that of the current category.
  pub category_from_obs-observe :
      (cfg : DeceptionConfig w) (s : DeceptionEnv w)
      → IsOrdered
      → category_from_obs (observe w cfg s) ≡ cat_index s.current_category
  unfolding category_from_obs observe category_part
  category_from_obs-observe cfg s o = argmax-category_part o s.current_category
