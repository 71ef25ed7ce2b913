-- ===== src/Campaign.antt =====
-- ml/mirage/reid/campaign.py: the two-stage test for a credential-stuffing campaign.
-- Addresses are texts, credential-pair sets are values of any type with equality (`frozenset`), and
-- mappings are dicts in insertion order. Every raised `ValueError` is `none`.
pub mod Corpus
pub mod Candidates
pub mod Detection
pub mod Reference
pub mod Tiers
mod Witnesses
use mirage_core.Shared.{
  ℕ, zero, suc, ◌+◌, ◌/◌, ◌%◌, String, Bool, true, false, ◌&&◌, Option, none, some, List, [], ◌∷◌,
  ◌++◌, map, ltb, leb, ◌==◌, Eq, nat_eq, string_eq, if◌then◌else◌, length, all,
}
use mirage_core.Shared.Dict.{Dict, lookup, insert, set_default, dict_keys, dict_values}
use mirage_core.Shared.Grouping.{group_by}
use mirage_core.Shared.Sorting.{sort_by}
use text.Mathlib.Text.{is_le}
use Prim.Native.String.{compare}

abbrev pub wordlist_len : ℕ
wordlist_len = 761

pub record CampaignMembership : Type 0 where
  pub ip : String
  pub tier : ℕ
  pub session_count : ℕ

pub record CampaignResult : Type 0 where
  pub members : List CampaignMembership
  pub excluded : List String

-- `CampaignResult.ips`
pub ips : CampaignResult → List String
ips r = map (λ m. m.ip) r.members

pub sum_sessions : List CampaignMembership → ℕ
sum_sessions [] = 0
sum_sessions (m ∷ ms) = m.session_count + sum_sessions ms

pub total_sessions : CampaignResult → ℕ
unfolding sum_sessions
total_sessions r = sum_sessions r.members

pub tier_summary : CampaignResult → Dict ℕ (ℕ × ℕ)
unfolding group_by sum_sessions
tier_summary r =
    map (λ p. (p.0, (length p.1, sum_sessions p.1))) (group_by (λ m. m.tier) (λ m. m) [] r.members)

-- The comprehension of `divisibility_candidates`
pub select_candidates : ℕ → Dict String ℕ → Dict String ℕ
select_candidates w [] = []
select_candidates w ((ip, n) ∷ counts) =
    if ltb 0 n && n % w == 0
    then (ip, n / w) ∷ select_candidates w counts
    else select_candidates w counts

pub divisibility_candidates : Dict String ℕ → ℕ → Option (Dict String ℕ)
unfolding select_candidates
divisibility_candidates counts w = if w == 0 then none else some (select_candidates w counts)

module _ {S : Type 0} ⦃e : Eq S⦄ where
  pub credential_sets_match : Dict String S → Bool
  credential_sets_match pair_sets = elim (dict_values pair_sets) [
    | [] ↦ true
    | (first ∷ rest) ↦ all (λ v. v == first) (first ∷ rest)
  ]

  -- `{ip: credential_pair_sets[ip] for ip in candidates if ip in credential_pair_sets}`
  pub candidate_sets : Dict String ℕ → Dict String S → Dict String S
  candidate_sets [] pair_sets = []
  candidate_sets ((ip, _) ∷ cands) pair_sets = elim (lookup ip pair_sets) [
    | none ↦ candidate_sets cands pair_sets
    | some s ↦ (ip, s) ∷ candidate_sets cands pair_sets
  ]

  -- `Counter(values)`
  tally : Dict S ℕ → List S → Dict S ℕ
  tally counts [] = counts
  tally counts (s ∷ ss) =
      tally (elim (lookup s counts) [ none ↦ insert s 1 counts | some n ↦ insert s (n + 1) counts ])
        ss

  -- `max(items, key=count)`: the first key with the largest count
  most_common : S → ℕ → Dict S ℕ → S
  most_common best n [] = best
  most_common best n ((s, k) ∷ counts) =
      most_common (if ltb n k then s else best) (if ltb n k then k else n) counts

  -- `counts.most_common(1)[0][0]`, on a counter that is not empty
  pick : Dict S ℕ → Option S
  pick [] = none
  pick ((s, n) ∷ counts) = some (most_common s n counts)

  pub reference_set : List S → Option S
  unfolding tally pick most_common
  reference_set values = pick (tally [] values)

  -- `pairs == reference`, where `pairs` may be missing
  is_confirmed : S → Option S → Bool
  is_confirmed reference none = false
  is_confirmed reference (some pairs) = pairs == reference

  -- The final loop of `detect_campaign`. `session_counts[ip]` is present for a candidate.
  confirm : S → Dict String S → Dict String ℕ → Dict String ℕ → CampaignResult
  confirm reference sets counts [] = record { members = []; excluded = [] }
  confirm reference sets counts ((ip, tier) ∷ cands) =
      let rest = confirm reference sets counts cands in
      if is_confirmed reference (lookup ip sets)
      then record rest {
        members =
            record {
              ip = ip;
              tier = tier;
              session_count = elim (lookup ip counts) [ none ↦ 0 | some n ↦ n ];
            }
            ∷ rest.members;
      }
      else record rest { excluded = ip ∷ rest.excluded }

  -- With no reference, since no candidate has a set, every candidate is excluded.
  confirm_against : Option S → Dict String S → Dict String ℕ → Dict String ℕ → CampaignResult
  unfolding confirm is_confirmed
  confirm_against none sets counts cands = record {
    members = [];
    excluded = sort_by (λ a b. is_le (compare a b)) (dict_keys cands);
  }
  confirm_against (some reference) sets counts cands = confirm reference sets counts cands

  second_stage : Dict String ℕ → Dict String S → Dict String ℕ → CampaignResult
  unfolding candidate_sets reference_set confirm_against
  second_stage counts pair_sets cands =
      let sets = candidate_sets cands pair_sets in
      confirm_against (reference_set (dict_values sets)) sets counts cands

  pub detect_campaign : Dict String ℕ → Dict String S → ℕ → Option CampaignResult
  unfolding divisibility_candidates second_stage
  detect_campaign counts pair_sets w = elim (divisibility_candidates counts w) [
    | none ↦ none
    | some cands ↦ some (second_stage counts pair_sets cands)
  ]
