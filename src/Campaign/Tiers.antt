-- ===== src/Campaign/Tiers.antt =====
-- ml/mirage/reid/campaign.py: `CampaignResult.tier_summary` against a count for each tier.
use mirage_core.Shared.{
  ℕ, ◌≡◌, refl, Option, none, some, List, [], ◌∷◌, map, ◌==◌, nat_eq, arith, length, keep,
}
use mirage_core.Shared.Dict.{Dict, lookup}
use mirage_core.Shared.Grouping.{non_empty, lookup-group_by, map_self}
use mirage_core.Campaign.{CampaignMembership, CampaignResult, sum_sessions, tier_summary}

-- The members of one tier, in order.
abbrev pub in_tier : ℕ → List CampaignMembership → List CampaignMembership
in_tier t ms = keep (λ m. m.tier == t) ms

-- The number of members and of their sessions, where there is a member.
abbrev pub summary_of : List CampaignMembership → Option (ℕ × ℕ)
summary_of [] = none
summary_of (m ∷ ms) = some (length (m ∷ ms), sum_sessions (m ∷ ms))

abbrev summarize : List CampaignMembership → ℕ × ℕ
summarize ms = (length ms, sum_sessions ms)

abbrev summarized : Option (List CampaignMembership) → Option (ℕ × ℕ)
summarized none = none
summarized (some ms) = some (summarize ms)

summarized-non_empty : (ms : List CampaignMembership) → summarized (non_empty ms) ≡ summary_of ms
summarized-non_empty [] = refl
summarized-non_empty (m ∷ ms) = unfold sum_sessions in refl

lookup-summaries :
    (t : ℕ) (d : Dict ℕ (List CampaignMembership))
    → lookup {V = ℕ × ℕ} t (map (λ p. (p.0, summarize p.1)) d) ≡ summarized (lookup t d)
lookup-summaries t [] = refl
lookup-summaries t ((u, ms) ∷ d) = ground (arith, lookup-summaries t d)

-- The summary has an entry for exactly the tiers with a member: the number of the tier's members
-- and the sum of their sessions.
pub tier_summary-lookup :
    (r : CampaignResult) (t : ℕ) → lookup t (tier_summary r) ≡ summary_of (in_tier t r.members)
unfolding tier_summary
tier_summary-lookup r t =
    rw
      (
        lookup-summaries,
        lookup-group_by (λ (m : CampaignMembership). m.tier) (λ m. m) t r.members,
        map_self,
      )
      (summarized-non_empty (in_tier t r.members))
