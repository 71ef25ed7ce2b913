-- ===== src/Campaign/Detection.antt =====
-- ml/mirage/reid/campaign.py: who is a member, who is excluded.
use mathlib.Core.List.{Memᴰ, Perm, perm_middle}
use mathlib.Core.List.Perm
use native.Mathlib.Nat.{mul-mod_left}
use mathlib.Core.List.Memᴰ
use mirage_core.Shared.{
  ℕ, ◌∙◌, ◌*◌, ◌/◌, ◌%◌, ◌<◌, ◌≡◌, refl, sym, ap, ◌≢◌, ◌↔◌, inl, inr, String, true, Option, none,
  some, [], ◌∷◌, ◌++◌, ◌==◌, Eq, nat_eq, string_eq, ==_iff, arith, Bool-cases, All, All-mem,
  All-map_imp,
}
use mirage_core.Shared.Dict.{Dict, lookup, dict_keys, dict_values, NodupKeys}
use mirage_core.Shared.Sorting.{sort_by-perm}
use mirage_core.Campaign.Candidates.{
  lookup-select_candidates, AsCounted, select_candidates-All, NodupKeys-All,
}
use mirage_core.Campaign.{
  CampaignMembership, CampaignResult, ips, select_candidates, candidate_sets, reference_set,
  is_confirmed, confirm, confirm_against, second_stage, detect_campaign,
}

mod-of_mul : (n t w : ℕ) → n ≡ t * w → n % w ≡ 0
mod-of_mul n t w h = rw h (mul-mod_left t w)

mem_of_ips :
    (r : CampaignResult) {ip : String}
    → Memᴰ ip (ips r)
    → (m : CampaignMembership) × Memᴰ m r.members × (m.ip ≡ ip)
unfolding ips
mem_of_ips r m = Memᴰ.of_map (λ (k : CampaignMembership). k.ip) r.members m

module _ {S : Type 0} ⦃e : Eq S⦄ where
  abbrev if_candidate : Option ℕ → Option S → Option S
  if_candidate none s = none
  if_candidate (some _) s = s

  pub lookup-candidate_sets :
      (ip : String) (cands : Dict String ℕ) (pair_sets : Dict String S)
      → lookup ip (candidate_sets cands pair_sets)
        ≡ if_candidate (lookup ip cands) (lookup ip pair_sets)
  unfolding candidate_sets
  lookup-candidate_sets ip [] pair_sets = refl
  lookup-candidate_sets ip ((j, t) ∷ cands) pair_sets =
      ground (arith, lookup-candidate_sets ip cands pair_sets, ==_iff j ip)

  -- The reference set of a run: `none` when no candidate has a set.
  abbrev pub campaign_reference : Dict String ℕ → Dict String S → ℕ → Option S
  campaign_reference counts pair_sets w =
      reference_set (dict_values (candidate_sets (select_candidates w counts) pair_sets))

  is_confirmed-eq :
      (reference : S) (o : Option S) → is_confirmed reference o ≡ true → o ≡ some reference
  unfolding is_confirmed
  is_confirmed-eq reference none h = absurd (cc)
  is_confirmed-eq reference (some pairs) h = ap some ((==_iff pairs reference).0 h)

  module _ (reference : S) (sets : Dict String S) (counts : Dict String ℕ) where
    confirm-perm :
        (cands : Dict String ℕ)
        → Perm
            (ips (confirm reference sets counts cands)
              ++ (confirm reference sets counts cands).excluded)
            (dict_keys cands)
    unfolding confirm ips
    confirm-perm [] = Perm.refl []
    confirm-perm ((ip, tier) ∷ cands) =
        elim (Bool-cases (is_confirmed reference (lookup ip sets))) [
          | inl member ↦ rw member (Perm.cons ip (confirm-perm cands))
          | inr other ↦ rw other (
              Perm.trans (perm_middle (ips (confirm reference sets counts cands)) _)
                (Perm.cons ip (confirm-perm cands)))
        ]

    -- What holds of all candidates, with what `confirm` records of a member.
    confirm-All :
        (Q : String → ℕ → Type 0) (cands : Dict String ℕ)
        → All (λ p. Q p.0 p.1) cands
        → All
            (λ m.
              Q m.ip m.tier
              × (lookup m.ip sets ≡ some reference)
              × ((n : ℕ) → lookup m.ip counts ≡ some n → m.session_count ≡ n))
            (confirm reference sets counts cands).members
    unfolding confirm
    confirm-All Q [] h = tt
    confirm-All Q ((ip, tier) ∷ cands) h =
        elim (Bool-cases (is_confirmed reference (lookup ip sets))) [
          | inl member ↦ rw member (
            (h.0, is_confirmed-eq reference (lookup ip sets) member, λ n e. ground arith),
            confirm-All Q cands h.1,
          )
          | inr other ↦ rw other (confirm-All Q cands h.1)
        ]

    confirm-complete :
        (ip : String) (cands : Dict String ℕ)
        → lookup ip cands ≢ none
        → lookup ip sets ≡ some reference
        → Memᴰ ip (ips (confirm reference sets counts cands))
    unfolding confirm ips
    confirm-complete ip [] c h = absurd (c refl)
    confirm-complete ip ((j, tier) ∷ cands) c h = elim (Bool-cases (j == ip)) [
      | inl same ↦
          let e : j ≡ ip = (==_iff j ip).0 same in
          let t : is_confirmed reference (lookup j sets) ≡ true =
            unfold is_confirmed in rw (e, h) ((==_iff reference reference).1 refl) in
          rw t (Memᴰ.head (sym e))
      | inr differ ↦
          let later = confirm-complete ip cands (rw differ at c) h in
          elim (Bool-cases (is_confirmed reference (lookup j sets))) [
            | inl member ↦ rw member (Memᴰ.tail later)
            | inr other ↦ rw other later
          ]
    ]

  -- What the mappings say of a confirmed member.
  pub record IsConfirmed (counts : Dict String ℕ) (pair_sets : Dict String S) (w : ℕ)
      (m : CampaignMembership) : Type 0 where
    pub counted : lookup m.ip counts ≡ some m.session_count
    pub positive : 0 < m.session_count
    pub tiered : m.session_count ≡ m.tier * w
    pub shared : campaign_reference counts pair_sets w ≡ lookup m.ip pair_sets
    pub known : lookup m.ip pair_sets ≢ none

  candidate_sets-eq :
      (ip : String) (cands : Dict String ℕ) (pair_sets : Dict String S) {s : S}
      → lookup ip (candidate_sets cands pair_sets) ≡ some s
      → lookup ip pair_sets ≡ some s
  candidate_sets-eq ip cands pair_sets h = ground (arith, lookup-candidate_sets ip cands pair_sets)

  module _ (counts : Dict String ℕ) (pair_sets : Dict String S) (w : ℕ) {r : CampaignResult}
      (ran : detect_campaign counts pair_sets w ≡ some r) where
    abbrev cands : Dict String ℕ
    cands = select_candidates w counts

    ran-positive : 0 < w
    unfolding detect_campaign
    ran-positive = ground arith

    ran-second_stage : second_stage counts pair_sets cands ≡ r
    unfolding detect_campaign
    ran-second_stage = ground arith

    confirm_against-perm :
        (o : Option S) (sets : Dict String S)
        → Perm
            (ips (confirm_against o sets counts cands)
              ++ (confirm_against o sets counts cands).excluded)
            (dict_keys cands)
    unfolding confirm_against ips
    confirm_against-perm none sets = (sort_by-perm _ (dict_keys cands))
    confirm_against-perm (some s) sets = confirm-perm s sets counts cands

    -- Where the run returns a result, the members and the excluded addresses together are the
    -- candidates, each as often as it is one.
    pub detect_campaign-perm : Perm (ips r ++ r.excluded) (dict_keys cands)
    unfolding second_stage
    detect_campaign-perm = rw (← ran-second_stage) (confirm_against-perm _ _)

    module _ (unique : NodupKeys counts) where
      confirm_against-All :
          (o : Option S)
          → campaign_reference counts pair_sets w ≡ o
          → All
              (IsConfirmed counts pair_sets w)
              (confirm_against o (candidate_sets cands pair_sets) counts cands).members
      unfolding confirm_against
      confirm_against-All none e = tt
      confirm_against-All (some s) e =
          All-map_imp
            (λ m (counted, matched, number).
              let (n, at, pos, mul) = counted in
              let set_of = candidate_sets-eq m.ip cands pair_sets matched in
              record {
                counted = rw (number n at) at;
                positive = rw (number n at) pos;
                tiered = number n at ∙ mul;
                shared = e ∙ sym set_of;
                known = λ missing. cc;
              })
            _
            (confirm-All s (candidate_sets cands pair_sets) counts (AsCounted counts w) cands (
              select_candidates-All counts counts w ran-positive
                (NodupKeys-All counts counts unique (λ k v at. at))))

      -- Where the run returns a result and no address is counted twice: every member has the count
      -- of the mapping, which is positive and the tier times the length of the word list, and a known
      -- credential set, which is the reference set.
      pub detect_campaign-All : All (IsConfirmed counts pair_sets w) r.members
      unfolding second_stage
      detect_campaign-All = rw (← ran-second_stage) (confirm_against-All _ refl)

      confirm_against-complete :
          (o : Option S) (ip : String) (n : ℕ)
          → campaign_reference counts pair_sets w ≡ o
          → lookup ip counts ≡ some n
          → 0 < n
          → n % w ≡ 0
          → lookup ip pair_sets ≡ o
          → o ≢ none
          → Memᴰ ip (ips (confirm_against o (candidate_sets cands pair_sets) counts cands))
      unfolding confirm_against
      confirm_against-complete none ip n e at pos mul same known = absurd (known refl)
      confirm_against-complete (some s) ip n e at pos mul same known =
          let is_cand : lookup ip cands ≡ some (n / w) =
            lookup-select_candidates w ip counts unique ∙ (rw at (ground arith)) in
          confirm-complete s (candidate_sets cands pair_sets) counts ip cands (λ missing. cc)
            (rw (lookup-candidate_sets ip cands pair_sets, is_cand) same)

      -- Where the run returns a result and no address is counted twice: an address is a member
      -- exactly when its count is a positive multiple of the length of the word list and its
      -- credential set, which is known, is the reference set.
      pub detect_campaign-member_iff :
          (ip : String)
          → Memᴰ ip (ips r) ↔ (
              (n : ℕ) × (lookup ip counts ≡ some n)
              × (0 < n)
              × (n % w ≡ 0)
              × (campaign_reference counts pair_sets w ≡ lookup ip pair_sets)
              × (lookup ip pair_sets ≢ none))
      detect_campaign-member_iff ip = (
        λ m.
            let (k, at, same) = mem_of_ips r m in
            let c = All-mem (IsConfirmed counts pair_sets w) detect_campaign-All at in
            (
              k.session_count,
              rw (← same) c.counted,
              c.positive,
              (let t = c.tiered in let p = ran-positive in mod-of_mul _ k.tier w t),
              rw (← same) c.shared,
              rw (← same) c.known,
            ),
        λ (n, at, pos, mul, same, known). rw (← ran-second_stage) (
            unfold second_stage in
            confirm_against-complete _ ip n refl at pos mul (sym same) (rw same known)),
      )
