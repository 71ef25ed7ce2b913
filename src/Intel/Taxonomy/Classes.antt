-- ===== src/Intel/Taxonomy/Classes.antt =====
-- ml/mirage/intel/taxonomy.py: when a session gets each class.
use mirage_core.Shared.{
  ◌≤◌, ◌<◌, ◌≡◌, refl, ap, sym, ◌∙◌, Bool-cases, ◌↔◌, ◌⊎◌, inl, inr, Bool, true, false, not, ◌||◌,
  ◌&&◌, ltb, leb, nat_eq, string_eq, arith,
}
use mirage_core.Intel.Taxonomy.{
  AttackerClass, automated_scanner, script_kiddie, manual_recon, apt, Features, is_hands_on,
  is_automated, fallback, auth_only, scanner, later_rules, weak_label,
}

module _ {Float : Type 0} (is_mostly : Float → Bool) (f : Features Float) where
  -- The session touched bait in a way that shows intent to take data.
  abbrev pub TookBait : Type 0
  TookBait = (0 < f.has_exfil_attempt) ⊎ (2 ≤ f.max_bait_escalation)

  -- It worked by hand on persistence or evasion.
  abbrev pub HandsOn : Type 0
  HandsOn =
      (is_hands_on f.tool_signature ≡ true)
      × (5 ≤ f.n_commands)
      × (is_automated is_mostly f ≡ false)

  is_apt : AttackerClass → Bool
  is_apt apt = true
  is_apt _ = false

  scanner-is_apt : is_apt (scanner is_mostly f).attacker_class ≡ false
  unfolding scanner auth_only fallback is_apt
  scanner-is_apt = ground arith

  abbrev takes_bait : Bool
  takes_bait = ltb 0 f.has_exfil_attempt || leb 2 f.max_bait_escalation

  abbrev works_by_hand : Bool
  works_by_hand =
      is_hands_on f.tool_signature && leb 5 f.n_commands && not (is_automated is_mostly f)

  later_rules-is_apt : is_apt (later_rules is_mostly f).attacker_class ≡ false
  unfolding later_rules is_apt
  later_rules-is_apt = ground (arith, scanner-is_apt)

  weak_label-is_apt : is_apt (weak_label is_mostly f).attacker_class ≡ (takes_bait || works_by_hand)
  unfolding weak_label is_apt
  weak_label-is_apt = elim (Bool-cases takes_bait) [
    | inl e ↦ rw e refl
    | inr e ↦ elim (Bool-cases works_by_hand) [
      | inl k ↦ rw (e, k) refl
      | inr k ↦ rw (e, k) later_rules-is_apt
    ]
  ]

  signs_iff : ((takes_bait || works_by_hand) ≡ true) ↔ (TookBait ⊎ HandsOn)
  signs_iff = ground arith

  is_apt_iff : (c : AttackerClass) → (is_apt c ≡ true) ↔ (c ≡ apt)
  unfolding is_apt
  is_apt_iff apt = (λ _. refl, λ _. refl)
  is_apt_iff automated_scanner = (λ h. absurd (cc), λ e. ap is_apt e)
  is_apt_iff script_kiddie = (λ h. absurd (cc), λ e. ap is_apt e)
  is_apt_iff manual_recon = (λ h. absurd (cc), λ e. ap is_apt e)

  -- A session is labelled as an APT exactly when it copied or exfiltrated bait, or ran at least five
  -- commands by hand with a signature of persistence or evasion.
  pub weak_label-apt_iff : ((weak_label is_mostly f).attacker_class ≡ apt) ↔ (TookBait ⊎ HandsOn)
  weak_label-apt_iff = (
    λ e. signs_iff.0 (sym weak_label-is_apt ∙ (is_apt_iff _).1 e),
    λ h. (is_apt_iff _).0 (weak_label-is_apt ∙ signs_iff.1 h),
  )
