-- ===== src/Sampler.antt =====
-- ml/mirage/reid/pk_sampler.py: batches of P identities with K sessions each.
-- The random source is Python's `random.Random`, taken as the parameter `Rng`: `sample` draws without
-- replacement, `choice` draws one. The constructor's `ValueError` is `none`.
mod Rows
pub mod Batches
mod Witnesses
use mathlib.Core.List.{Memᴰ, Sublist, Perm, Nodup}
use mirage_core.Shared.{
  ℕ, zero, suc, ◌+◌, ◌-◌, ◌*◌, ◌≤◌, ◌<◌, ◌≡◌, String, Bool, true, false, Option, none, some, List,
  [], ◌∷◌, ◌++◌, map, ltb, leb, string_eq, if◌then◌else◌, length,
}
use mirage_core.Shared.Dict.{Dict, lookup, dict_keys}
use mirage_core.Shared.Grouping.{group_by, or_nil}

-- `random.Random`: a state, and the draws that the sampler makes. A sample of `k` of at least `k`
-- elements has `k` of them, each position at most once; a choice from a list that is not empty is
-- one of its elements.
pub record Rng : Type 1 where
  pub State : Type 0
  pub sample_text : List String → ℕ → State → List String × State
  pub sample_index : List ℕ → ℕ → State → List ℕ × State
  pub choice_index : List ℕ → State → ℕ × State
  pub length-sample_text :
      (xs : List String) (k : ℕ) (s : State) → k ≤ length xs → length (sample_text xs k s).0 ≡ k
  pub length-sample_index :
      (xs : List ℕ) (k : ℕ) (s : State) → k ≤ length xs → length (sample_index xs k s).0 ≡ k
  pub mem-sample_text :
      (xs : List String) (k : ℕ) (s : State)
      → k ≤ length xs
      → (x : String) → Memᴰ x (sample_text xs k s).0
      → Memᴰ x xs
  pub mem-sample_index :
      (xs : List ℕ) (k : ℕ) (s : State)
      → k ≤ length xs
      → (x : ℕ) → Memᴰ x (sample_index xs k s).0
      → Memᴰ x xs
  pub nodup-sample_text :
      (xs : List String) (k : ℕ) (s : State)
      → k ≤ length xs
      → Nodup xs
      → Nodup (sample_text xs k s).0
  pub nodup-sample_index :
      (xs : List ℕ) (k : ℕ) (s : State) → k ≤ length xs → Nodup xs → Nodup (sample_index xs k s).0
  pub mem-choice_index : (xs : List ℕ) (s : State) → 0 < length xs → Memᴰ (choice_index xs s).0 xs

pub record PkBatchSampler : Type 0 where
  pub by_identity : Dict String (List ℕ)
  pub p : ℕ
  pub k : ℕ
  pub batches_per_epoch : ℕ

-- `enumerate(identity_labels)`, from row `idx` on, the label first.
enumerate_rows : ℕ → List String → List (String × ℕ)
enumerate_rows idx [] = []
enumerate_rows idx (identity ∷ labels) = (identity, idx) ∷ enumerate_rows (idx + 1) labels

-- The loop that fills `by_identity`.
pub group_rows : List String → Dict String (List ℕ)
unfolding enumerate_rows group_by
group_rows labels = group_by (λ r. r.0) (λ r. r.1) [] (enumerate_rows 0 labels)

-- `PkBatchSampler.__init__`
pub make : List String → ℕ → ℕ → ℕ → Option PkBatchSampler
unfolding group_rows
make identity_labels p k batches =
    if ltb p 2
    then none
    else if ltb k 1
    then none
    else if ltb (length (group_rows identity_labels)) p
    then none
    else some (record {
      by_identity = group_rows identity_labels;
      p = p;
      k = k;
      batches_per_epoch = batches;
    })

pub batch_size : PkBatchSampler → ℕ
batch_size s = s.p * s.k

module _ (rng : Rng) where
  open rng use {State, sample_text, sample_index, choice_index}

  -- `while len(picks) < k: picks.append(rng.choice(available))`; the first argument is the number of
  -- picks that are missing.
  fill : ℕ → List ℕ → List ℕ → State → List ℕ × State
  fill zero available picks s = (picks, s)
  fill (suc missing) available picks s =
      let (x, s') = choice_index available s in fill missing available (picks ++ x ∷ []) s'

  -- The sessions drawn for one identity.
  pub draw : ℕ → List ℕ → State → List ℕ × State
  unfolding fill
  draw k available s =
      if leb k (length available)
      then sample_index available k s
      else fill (k - length available) available available s

  -- `by_identity[identity]` is present for a chosen identity.
  draw_all : PkBatchSampler → List String → State → List ℕ × State
  unfolding draw
  draw_all sampler [] s = ([], s)
  draw_all sampler (identity ∷ chosen) s =
      let (block, s') = draw sampler.k (or_nil (lookup identity sampler.by_identity)) s in
      let (rest, s'') = draw_all sampler chosen s' in (block ++ rest, s'')

  pub next_batch : PkBatchSampler → State → List ℕ × State
  unfolding draw_all
  next_batch sampler s =
      let (chosen, s') = sample_text (dict_keys sampler.by_identity) sampler.p s in
      draw_all sampler chosen s'

  -- One epoch, `__iter__`: the batches in the order in which they are yielded.
  epoch_from : ℕ → PkBatchSampler → State → List (List ℕ)
  unfolding next_batch
  epoch_from zero sampler s = []
  epoch_from (suc n) sampler s =
      let (batch, s') = next_batch sampler s in batch ∷ epoch_from n sampler s'

  pub epoch : PkBatchSampler → State → List (List ℕ)
  unfolding epoch_from
  epoch sampler s = epoch_from sampler.batches_per_epoch sampler s
