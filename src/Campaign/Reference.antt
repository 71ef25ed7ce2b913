-- ===== src/Campaign/Reference.antt =====
-- ml/mirage/reid/campaign.py: the reference set is a most common one (`Counter.most_common`).
use mathlib.Core.List.{Memᴰ}
use mathlib.Core.List.Memᴰ
use mirage_core.Shared.{
  ℕ, ◌+◌, ◌≤◌, ◌<◌, ◌≡◌, refl, ◌↔◌, Option, none, some, List, [], ◌∷◌, inl, inr, ltb, ◌==◌, Eq,
  ==_iff, ==_refl, arith, Bool-cases, Option-cases, count, All, All-mem,
}
use mirage_core.Shared.Dict.{
  Dict, lookup, insert, lookup-insert, NodupKeys, insert-NodupKeys, lookup_of_mem, mem_of_lookup,
}
use mirage_core.Campaign.{tally, most_common, pick, reference_set}

abbrev or_zero : Option ℕ → ℕ
or_zero none = 0
or_zero (some n) = n

module _ {S : Type 0} ⦃e : Eq S⦄ where
  -- How often a value occurs.
  abbrev pub occurrences : S → List S → ℕ
  occurrences s values = count (λ v. v == s) values

  tally-count :
      (s : S) (counts : Dict S ℕ) (values : List S)
      → or_zero (lookup s (tally counts values)) ≡ or_zero (lookup s counts) + occurrences s values
  unfolding tally
  tally-count s counts [] = omega arith
  tally-count s counts (v ∷ vs) = elim (Option-cases (lookup v counts)) [
    | inl new ↦ rw new (
        rw (tally-count s (insert v 1 counts) vs)
          (ground (arith, lookup-insert v s 1 counts, ==_iff v s)))
    | inr (n, old) ↦ rw old (
        rw (tally-count s (insert v (n + 1) counts) vs)
          (ground (arith, lookup-insert v s (n + 1) counts, ==_iff v s)))
  ]

  tally-NodupKeys :
      (counts : Dict S ℕ) (values : List S) → NodupKeys counts → NodupKeys (tally counts values)
  unfolding tally
  tally-NodupKeys counts [] h = h
  tally-NodupKeys counts (v ∷ vs) h = elim (Option-cases (lookup v counts)) [
    | inl new ↦ rw new (tally-NodupKeys (insert v 1 counts) vs (insert-NodupKeys v 1 counts h))
    | inr (n, old) ↦
        rw old (tally-NodupKeys (insert v (n + 1) counts) vs (insert-NodupKeys v (n + 1) counts h))
  ]

  -- The entry that `max` picks, and that no entry has a larger count.
  most_common-max :
      (best : S) (n : ℕ) (counts : Dict S ℕ)
      → (k : ℕ) × Memᴰ (most_common best n counts, k) ((best, n) ∷ counts)
        × All (λ p. p.1 ≤ k) ((best, n) ∷ counts)
  unfolding most_common
  most_common-max best n [] = (n, Memᴰ.head refl, (omega arith, tt))
  most_common-max best n ((s, j) ∷ counts) = elim (Bool-cases (ltb n j)) [
    | inl larger ↦
        rw larger (
          let (k, m, h) = most_common-max s j counts in
          (k, Memᴰ.tail m, (ground arith, (h.0, h.1))))
    | inr kept ↦ rw kept (
        let (k, m, h) = most_common-max best n counts in
        (
          k,
          (elim (Memᴰ.cases_cons m) [
            | inl first ↦ Memᴰ.head first
            | inr later ↦ Memᴰ.tail (Memᴰ.tail later)
          ]),
          (h.0, (ground arith, h.1)),
        ))
  ]

  pick-max :
      (counts : Dict S ℕ) (b : S)
      → pick counts ≡ some b
      → NodupKeys counts
      → (s : S) → or_zero (lookup s counts) ≤ or_zero (lookup b counts)
  unfolding pick
  pick-max [] b h u s = absurd (cc)
  pick-max ((t, n) ∷ counts) b h u s =
      let (k, m, all_le) = most_common-max t n counts in
      let same : most_common t n counts ≡ b = ground arith in
      let found = lookup_of_mem (rw same at m) u in
      elim (Option-cases (lookup s ((t, n) ∷ counts))) [
        | inl missing ↦ rw missing (omega arith)
        | inr (j, at) ↦
            let le =
              All-mem (λ (p : S × ℕ). p.1 ≤ k) all_le (mem_of_lookup s j ((t, n) ∷ counts) at) in
            rw (at, found) le
      ]

  pick-none_iff : (counts : Dict S ℕ) → (pick counts ≡ none) ↔ (counts ≡ [])
  unfolding pick
  pick-none_iff [] = ground arith
  pick-none_iff (p ∷ counts) = ground arith

  reference_set-max :
      (values : List S) (b : S)
      → reference_set values ≡ some b
      → (s : S) → occurrences s values ≤ occurrences b values
  unfolding reference_set
  reference_set-max values b h s =
      let m = pick-max (tally [] values) b h (tally-NodupKeys [] values tt) s in
      omega (arith, tally-count s [] values, tally-count b [] values)

  -- Where there is one, the reference set of a list of sets is one of them, and no set occurs more often.
  pub reference_set-mode :
      (values : List S) (b : S)
      → reference_set values ≡ some b
      → (0 < occurrences b values) × ((s : S) → occurrences s values ≤ occurrences b values)
  reference_set-mode [] b h = absurd (unfold reference_set in cc)
  reference_set-mode (v ∷ vs) b h = (
    let m = reference_set-max (v ∷ vs) b h v in ground (arith, ==_refl v),
    reference_set-max (v ∷ vs) b h,
  )

  -- There is no reference exactly when no candidate has a set.
  pub reference_set-none_iff : (values : List S) → (reference_set values ≡ none) ↔ (values ≡ [])
  unfolding reference_set
  reference_set-none_iff [] = unfold tally pick in ground arith
  reference_set-none_iff (v ∷ vs) = (
    λ h. absurd (
        let c = tally-count v [] (v ∷ vs) in
        let t = (pick-none_iff (tally [] (v ∷ vs))).0 h in ground (arith, ==_refl v)),
    λ h. absurd (cc),
  )
