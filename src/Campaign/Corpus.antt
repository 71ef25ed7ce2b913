-- ===== src/Campaign/Corpus.antt =====
-- ml/mirage/reid/real_data.py: the labelled corpus of real sessions, from the sessions and the result
-- of `detect_campaign`. A session is any type with an address.
pub mod Labels
mod Witnesses
use mirage_core.Shared.{
  ℕ, Bool, true, false, ◌||◌, Option, none, some, String, List, [], ◌∷◌, ◌++◌, map, ltb,
  if◌then◌else◌, length, ◌==◌, string_eq,
}
use mirage_core.Shared.Grouping.{group_by}
use mirage_core.Shared.Flat.{flat_map}
use mirage_core.Campaign.{CampaignMembership, CampaignResult}

-- The label `campaign_tier{n}`, or `UNKNOWN_TOOLKIT`.
pub data Toolkit : Type 0 where
  campaign_tier : ℕ → Toolkit
  unknown_toolkit : Toolkit

unfoldable pub first_tier : String → List CampaignMembership → Toolkit
first_tier ip [] = unknown_toolkit
first_tier ip (m ∷ members) =
    let later = first_tier ip members in if m.ip == ip then campaign_tier m.tier else later

unfoldable pub toolkit_label_for : String → CampaignResult → Toolkit
toolkit_label_for ip campaign = first_tier ip campaign.members

module _ {S : Type 0} (ip_of : S → String) where
  pub record IdentityCorpus : Type 0 where
    pub sessions : List S
    pub identity_labels : List String
    pub toolkit_labels : List Toolkit

  -- Whether a session has an empty address, which raises ValueError.
  unfoldable pub has_empty_ip : List S → Bool
  has_empty_ip [] = false
  has_empty_ip (s ∷ sessions) = (ip_of s == "") || has_empty_ip sessions

  -- What the loop over the addresses appends for one of them.
  unfoldable pub rows_of_address :
      CampaignResult → ℕ → String × List S → List (S × String × Toolkit)
  rows_of_address campaign min_sessions (ip, sessions) =
      if ltb (length sessions) min_sessions
      then []
      else map (λ s. (s, ip, toolkit_label_for ip campaign)) sessions

  unfoldable pub corpus_rows : List S → CampaignResult → ℕ → List (S × String × Toolkit)
  corpus_rows sessions campaign min_sessions =
      flat_map (rows_of_address campaign min_sessions) (group_by ip_of (λ s. s) [] sessions)

  unfoldable pub build_real_identity_corpus : List S → CampaignResult → ℕ → Option IdentityCorpus
  build_real_identity_corpus sessions campaign min_sessions =
      if has_empty_ip sessions
      then none
      else some (record {
        sessions = map (λ r. r.0) (corpus_rows sessions campaign min_sessions);
        identity_labels = map (λ r. r.1) (corpus_rows sessions campaign min_sessions);
        toolkit_labels = map (λ r. r.2) (corpus_rows sessions campaign min_sessions);
      })

  -- `zip` of the three lists
  unfoldable pub zip_rows : List S → List String → List Toolkit → List (S × String × Toolkit)
  zip_rows (s ∷ ss) (i ∷ is) (t ∷ ts) = (s, i, t) ∷ zip_rows ss is ts
  zip_rows _ _ _ = []

  -- The rows that `save_real_identity_corpus` writes, one to a line.
  unfoldable pub saved_rows : IdentityCorpus → List (S × String × Toolkit)
  saved_rows corpus = zip_rows corpus.sessions corpus.identity_labels corpus.toolkit_labels

  -- The lines of a file, blank ones skipped; `parse` is `json.loads` with `Session.from_dict`.
  unfoldable pub load_lines :
      {L : Type 0}
      → (L → Bool)
      → (L → Option (S × String × Toolkit))
      → List L
      → Option IdentityCorpus
  load_lines is_blank parse [] =
      some (record { sessions = []; identity_labels = []; toolkit_labels = [] })
  load_lines is_blank parse (l ∷ lines) =
      let later = load_lines is_blank parse lines in
      if is_blank l then later else elim (parse l) [
        | none ↦ none
        | some row ↦ elim later [
          | none ↦ none
          | some corpus ↦ some (record {
            sessions = row.0 ∷ corpus.sessions;
            identity_labels = row.1 ∷ corpus.identity_labels;
            toolkit_labels = row.2 ∷ corpus.toolkit_labels;
          })
        ]
      ]
