-- ===== src/Health/Hours/Runs.antt =====
-- scripts/daily_health_check.py: the runs of empty hours that the inner loop finds.
use mirage_core.Shared.{
  ℕ, zero, suc, ◌+◌, ◌<◌, ◌≤◌, ◌≡◌, refl, inl, inr, true, false, ltb, arith, Bool-cases, ltb→lt,
}
use mirage_core.Shared.Dict.{Dict}
use mirage_core.Health.Hours.{populated, run_end}

-- The hours from `a` to `b` are empty, and the run cannot be made longer inside `first` to `last`.
pub record IsEmptyRun (counts : Dict ℕ ℕ) (first last a b : ℕ) : Type 0 where
  pub from_first : first ≤ a
  pub in_order : a ≤ b
  pub to_last : b ≤ last
  pub empty : (h : ℕ) → a ≤ h → h ≤ b → populated counts h ≡ false
  pub starts : (h : ℕ) → suc h ≡ a → first ≤ h → populated counts h ≡ true
  pub ends : b < last → populated counts (suc b) ≡ true

module _ (counts : Dict ℕ ℕ) (last : ℕ) where
  pub run_end_lem :
      (fuel j : ℕ)
      → j ≤ last
      → last < fuel + j
      → populated counts j ≡ false
      → (j ≤ run_end counts last fuel j)
        × (run_end counts last fuel j ≤ last)
        × ((h : ℕ) → j ≤ h → h ≤ run_end counts last fuel j → populated counts h ≡ false)
        × (run_end counts last fuel j < last
            → populated counts (suc (run_end counts last fuel j)) ≡ true)
  unfolding run_end
  run_end_lem zero j below enough at_j = absurd (omega arith)
  run_end_lem (suc fuel) j below enough at_j = elim (Bool-cases (ltb j last)) [
    | inl more ↦ elim (Bool-cases (populated counts (suc j))) [
      | inl busy ↦
          rw (more, busy)
            (
              omega arith,
              below,
              λ h above under. let e : h ≡ j = omega arith in rw e at_j,
              λ _. busy,
            )
      | inr idle ↦
          let s : j < last = ltb→lt j last more in
          let (low, high, all_empty, then_busy) =
            run_end_lem fuel (suc j) (omega arith) (omega arith) idle in
          rw (more, idle)
            (
              omega arith,
              high,
              λ h above under. elim (Bool-cases (ltb j h)) [
                | inl later ↦ all_empty h (ltb→lt j h later) under
                | inr same ↦ let e : h ≡ j = ground (arith, same) in rw e at_j
              ],
              then_busy,
            )
    ]
    | inr no_more ↦ rw no_more (
      omega arith,
      below,
      λ h above under. let e : h ≡ j = omega arith in rw e at_j,
      λ s. absurd (ground (arith, no_more)),
    )
  ]

module _ {counts : Dict ℕ ℕ} {first last : ℕ} where
  -- Runs that overlap start and end together.
  pub overlap_start :
      (i j a b : ℕ)
      → IsEmptyRun counts first last i j
      → IsEmptyRun counts first last a b
      → i ≤ a
      → a ≤ j
      → a ≡ i
  overlap_start i j zero b r q low high = omega arith
  overlap_start i j (suc a) b r q low high = elim (Bool-cases (ltb i (suc a))) [
    | inl later ↦
        let s : i < suc a = ltb→lt i (suc a) later in
        let busy = q.starts a refl (omega (arith, r.from_first)) in
        let idle = r.empty a (omega arith) (omega arith) in absurd (cc)
    | inr same ↦ ground (arith, same)
  ]

  ends_late :
      (i j b : ℕ) → IsEmptyRun counts first last i j → IsEmptyRun counts first last i b → b < j → ⊥
  ends_late i j b r q h =
      let busy = q.ends (omega (arith, r.to_last)) in
      let idle = r.empty (suc b) (omega (arith, q.in_order)) h in absurd (cc)

  pub overlap_end :
      (i j b : ℕ) → IsEmptyRun counts first last i j → IsEmptyRun counts first last i b → b ≡ j
  overlap_end i j b r q = elim (Bool-cases (ltb b j)) [
    | inl short ↦ absurd (ends_late i j b r q (ltb→lt b j short))
    | inr long ↦ elim (Bool-cases (ltb j b)) [
      | inl far ↦ absurd (ends_late i b j q r (ltb→lt j b far))
      | inr near ↦ ground (arith, long, near)
    ]
  ]
