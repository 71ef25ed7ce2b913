-- ===== src/Campaign/Corpus/Witnesses.antt =====
-- ml/mirage/reid/real_data.py: tests, and the theorems at concrete inputs.
use mathlib.Core.List.{Memᴰ}
use mirage_core.Shared.{ℕ, ◌≤◌, ◌≡◌, refl, ◌↔◌, String, false, none, some, List, [], ◌∷◌, length}
use mirage_core.Shared.Grouping.{group_by}
use mirage_core.Campaign.{CampaignResult}
use mirage_core.Campaign.Corpus.{
  Toolkit, campaign_tier, unknown_toolkit, toolkit_label_for, first_tier, IdentityCorpus,
  has_empty_ip, rows_of_address, corpus_rows, build_real_identity_corpus, saved_rows,
}
use mirage_core.Campaign.Corpus.Labels.{sessions_of, build_real_identity_corpus-rows}

-- A session is its number and its address.
abbrev address : ℕ × String → String
address s = s.1

abbrev sessions : List (ℕ × String)
sessions = (1, "a") ∷ (2, "b") ∷ (3, "a") ∷ (4, "c") ∷ (5, "c") ∷ []

abbrev campaign : CampaignResult
campaign = record { members = record { ip = "a"; tier = 2; session_count = 2 } ∷ []; excluded = [] }

build_runs :
    build_real_identity_corpus address sessions campaign 2
    ≡ some (record {
      sessions = (1, "a") ∷ (3, "a") ∷ (4, "c") ∷ (5, "c") ∷ [];
      identity_labels = "a" ∷ "a" ∷ "c" ∷ "c" ∷ [];
      toolkit_labels = campaign_tier 2 ∷ campaign_tier 2 ∷ unknown_toolkit ∷ unknown_toolkit ∷ [];
    })
unfolding build_real_identity_corpus has_empty_ip corpus_rows rows_of_address group_by
    toolkit_label_for first_tier
build_runs = refl

empty_ip : build_real_identity_corpus address ((1, "") ∷ []) campaign 1 ≡ none
unfolding build_real_identity_corpus has_empty_ip
empty_ip = refl

no_empty : has_empty_ip address sessions ≡ false
unfolding has_empty_ip
no_empty = refl

build_real_identity_corpus-rows_example :
    (corpus : IdentityCorpus address) × (build_real_identity_corpus address sessions campaign 2
      ≡ some corpus)
    × (length corpus.identity_labels ≡ length corpus.sessions)
    × (length corpus.toolkit_labels ≡ length corpus.sessions)
    × ((s : ℕ × String) (ip : String) (toolkit : Toolkit)
        → Memᴰ (s, ip, toolkit) (saved_rows address corpus) ↔ (
            Memᴰ s sessions
            × (address s ≡ ip)
            × (toolkit ≡ toolkit_label_for ip campaign)
            × (2 ≤ length (sessions_of address ip sessions))))
build_real_identity_corpus-rows_example =
    build_real_identity_corpus-rows address sessions campaign 2 no_empty
