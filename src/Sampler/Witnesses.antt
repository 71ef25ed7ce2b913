-- ===== src/Sampler/Witnesses.antt =====
-- ml/mirage/reid/pk_sampler.py with a source that always draws from the front.
use mathlib.Core.Logic.{∥∥₁_elim}
use mathlib.Core.HLevel.{⊥_prop}
use mathlib.Core.List.{Memᴰ, Nodup, Nodup-cons, Nodup-nil}
use mirage_core.Shared.{
  ℕ, zero, suc, ◌≤◌, ◌<◌, ◌*◌, ◌/◌, ◌≡◌, refl, String, some, List, [], ◌∷◌, arith, take, mem-take,
  length, length-take, get_elem?,
}
use mirage_core.Sampler.{Rng, PkBatchSampler, make, next_batch, epoch}
use mirage_core.Sampler.Batches.{next_batch_lem}

module _ {ℓ} {A : Type ℓ} where
  Nodup-take : (k : ℕ) (xs : List A) → Nodup xs → Nodup (take k xs)
  Nodup-take zero xs h = Nodup-nil
  Nodup-take (suc k) [] h = Nodup-nil
  Nodup-take (suc k) (x ∷ xs) h =
      let (new, rest) = Nodup-cons.0 h in
      Nodup-cons.1
        (λ m. ∥∥₁_elim m ⊥_prop (λ k_in. new ∣ mem-take k xs k_in ∣₁), Nodup-take k xs rest)

  length-take_le : (xs : List A) (k : ℕ) → k ≤ length xs → length (take k xs) ≡ k
  length-take_le xs k h = omega (arith, length-take k xs)

abbrev first : List ℕ → ℕ
first [] = 0
first (x ∷ xs) = x

first-mem : (xs : List ℕ) → 0 < length xs → Memᴰ (first xs) xs
first-mem [] h = absurd (omega arith)
first-mem (x ∷ xs) h = Memᴰ.head refl

abbrev front : Rng
front = record {
  State = Unit;
  sample_text = λ xs k s. (take k xs, s);
  sample_index = λ xs k s. (take k xs, s);
  choice_index = λ xs s. (first xs, s);
  length-sample_text = λ xs k s h. length-take_le xs k h;
  length-sample_index = λ xs k s h. length-take_le xs k h;
  mem-sample_text = λ xs k s h x m. mem-take k xs m;
  mem-sample_index = λ xs k s h x m. mem-take k xs m;
  nodup-sample_text = λ xs k s h d. Nodup-take k xs d;
  nodup-sample_index = λ xs k s h d. Nodup-take k xs d;
  mem-choice_index = λ xs s h. first-mem xs h;
}

abbrev labels : List String
labels = "a" ∷ "b" ∷ "a" ∷ "c" ∷ "a" ∷ []

abbrev sampler : PkBatchSampler
sampler = record {
  by_identity = ("a", 0 ∷ 2 ∷ 4 ∷ []) ∷ ("b", 1 ∷ []) ∷ ("c", 3 ∷ []) ∷ [];
  p = 2;
  k = 2;
  batches_per_epoch = 1;
}

made : make labels 2 2 1 ≡ some sampler
unfolding make
made = refl

epoch_runs : epoch front sampler tt ≡ (0 ∷ 2 ∷ 1 ∷ 1 ∷ []) ∷ []
unfolding epoch
epoch_runs = refl

next_batch_lem_example :
    (length (next_batch front sampler tt).0 ≡ 2 * 2)
    × ((chosen : List String) × Nodup chosen
        × (length chosen ≡ 2)
        × ((i idx : ℕ)
            → get_elem? (next_batch front sampler tt).0 i ≡ some idx
            → get_elem? labels idx ≡ get_elem? chosen (i / 2)))
next_batch_lem_example = next_batch_lem front labels 2 2 1 sampler made tt
