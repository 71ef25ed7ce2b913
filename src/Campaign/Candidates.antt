-- ===== src/Campaign/Candidates.antt =====
-- ml/mirage/reid/campaign.py: the candidates of the divisibility test.

use mirage_core.Shared.{
  ℕ, ◌*◌, ◌/◌, ◌%◌, ◌<◌, ◌≡◌, refl, inl, inr, String, true, Option, none, some, [], ◌∷◌, ltb, ◌==◌,
  nat_eq, string_eq, ==_iff, if◌then◌else◌, ◌&&◌, div-add-mod', arith, Bool-cases, All,
}
use mirage_core.Shared.Dict.{Dict, lookup, NodupKeys}
use mirage_core.Campaign.{select_candidates}

-- What the candidates' dict holds for one address.
abbrev pub as_candidate : ℕ → Option ℕ → Option ℕ
as_candidate w none = none
as_candidate w (some n) = if ltb 0 n && n % w == 0 then some (n / w) else none

lookup-select_candidates-none :
    (w : ℕ) (ip : String) (counts : Dict String ℕ)
    → lookup ip counts ≡ none
    → lookup ip (select_candidates w counts) ≡ none
unfolding select_candidates
lookup-select_candidates-none w ip [] h = refl
lookup-select_candidates-none w ip ((j, n) ∷ counts) h =
    ground (arith, lookup-select_candidates-none w ip counts)

-- An address is a candidate exactly when its count is a positive multiple of the list's length.
pub lookup-select_candidates :
    (w : ℕ) (ip : String) (counts : Dict String ℕ)
    → NodupKeys counts
    → lookup ip (select_candidates w counts) ≡ as_candidate w (lookup ip counts)
unfolding select_candidates
lookup-select_candidates w ip [] h = refl
lookup-select_candidates w ip ((j, n) ∷ counts) h = ground (
  arith,
  lookup-select_candidates w ip counts h.1,
  lookup-select_candidates-none w ip counts,
  ==_iff j ip,
)

-- The tier and the count behind a candidate.
abbrev pub AsCounted : Dict String ℕ → ℕ → String → ℕ → Type 0
AsCounted counts w ip tier = (n : ℕ) × (lookup ip counts ≡ some n) × (0 < n) × (n ≡ tier * w)

candidate-mul : (w n : ℕ) → (ltb 0 n && n % w == 0) ≡ true → n ≡ n / w * w
candidate-mul w n h = ground (arith, div-add-mod' n w)

pub select_candidates-All :
    (counts some_counts : Dict String ℕ) (w : ℕ)
    → 0 < w
    → All (λ p. lookup p.0 counts ≡ some p.1) some_counts
    → All (λ p. AsCounted counts w p.0 p.1) (select_candidates w some_counts)
unfolding select_candidates
select_candidates-All counts [] w pos h = tt
select_candidates-All counts ((ip, n) ∷ rest) w pos h =
    let later = select_candidates-All counts rest w pos h.1 in
    elim (Bool-cases (ltb 0 n && n % w == 0)) [
      | inl chosen ↦ rw chosen ((n, h.0, ground arith, candidate-mul w n chosen), later)
      | inr not_chosen ↦ rw not_chosen later
    ]

pub NodupKeys-All :
    (full d : Dict String ℕ)
    → NodupKeys d
    → ((k : String) (v : ℕ) → lookup k d ≡ some v → lookup k full ≡ some v)
    → All (λ p. lookup p.0 full ≡ some p.1) d
NodupKeys-All full [] h f = tt
NodupKeys-All full ((k, v) ∷ d) h f = (
  f k v (ground (arith, ==_iff k k)),
  NodupKeys-All full d h.1 (λ j w e. f j w (ground (arith, ==_iff k j))),
)
