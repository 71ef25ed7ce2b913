-- ===== src/Campaign/Witnesses.antt =====
-- ml/mirage/reid/campaign.py on a small capture: two addresses that replay a list of 3 pairs, one
-- that hits a multiple of 3 with other pairs, one that does not.
use mathlib.Core.List.{Memᴰ, Perm}
use mirage_core.Shared.{
  ℕ, ◌≤◌, ◌<◌, ◌%◌, ◌≡◌, refl, ◌≢◌, ◌↔◌, String, some, none, List, [], ◌∷◌, ◌++◌, string_eq, nat_eq,
  list_eq,
}
use mirage_core.Shared.Dict.{Dict, lookup, dict_keys, NodupKeys}
use mirage_core.Campaign.{
  CampaignResult, ips, select_candidates, reference_set, tier_summary, detect_campaign,
}
use mirage_core.Campaign.Detection.{
  campaign_reference, detect_campaign-perm, detect_campaign-member_iff,
}
use mirage_core.Campaign.Reference.{occurrences, reference_set-mode}

abbrev session_counts : Dict String ℕ
session_counts = ("10.0.0.1", 3) ∷ ("10.0.0.2", 6) ∷ ("10.0.0.3", 9) ∷ ("10.0.0.4", 4) ∷ []

abbrev pair_sets : Dict String (List String)
pair_sets =
    ("10.0.0.1", "root:root" ∷ "pi:pi" ∷ [])
    ∷ ("10.0.0.2", "root:root" ∷ "pi:pi" ∷ [])
    ∷ ("10.0.0.3", "admin:admin" ∷ [])
    ∷ []

abbrev detected : CampaignResult
detected = record {
  members =
      record { ip = "10.0.0.1"; tier = 1; session_count = 3 }
      ∷ record { ip = "10.0.0.2"; tier = 2; session_count = 6 }
      ∷ [];
  excluded = "10.0.0.3" ∷ [];
}

ran : detect_campaign session_counts pair_sets 3 ≡ some detected
unfolding detect_campaign
ran = refl

summary_runs : tier_summary detected ≡ (1, (1, 3)) ∷ (2, (1, 6)) ∷ []
unfolding tier_summary
summary_runs = refl

unique : NodupKeys session_counts
unique = (refl, (refl, (refl, (refl, tt))))

detect_campaign-perm_example :
    Perm (ips detected ++ "10.0.0.3" ∷ []) (dict_keys (select_candidates 3 session_counts))
detect_campaign-perm_example = detect_campaign-perm session_counts pair_sets 3 ran

detect_campaign-member_iff_example : Memᴰ "10.0.0.3" (ips detected) ↔ (
    (n : ℕ) × (lookup "10.0.0.3" session_counts ≡ some n)
    × (0 < n)
    × (n % 3 ≡ 0)
    × (campaign_reference session_counts pair_sets 3 ≡ lookup "10.0.0.3" pair_sets)
    × (lookup "10.0.0.3" pair_sets ≢ none))
detect_campaign-member_iff_example =
    detect_campaign-member_iff session_counts pair_sets 3 ran unique "10.0.0.3"

abbrev sets : List String
sets = "b" ∷ "a" ∷ "a" ∷ []

picked : reference_set sets ≡ some "a"
unfolding reference_set
picked = refl

reference_set-mode_example :
    (0 < occurrences "a" sets) × ((s : String) → occurrences s sets ≤ occurrences "a" sets)
reference_set-mode_example = reference_set-mode sets "a" picked
