-- ===== src/Labels.antt =====
-- The review of labels: scripts/sample_for_labeling.py draws the sessions to review, and
-- scripts/compute_label_agreement.py compares the reviewer's labels with the heuristic's.
pub mod Sampling
pub mod Agreement
mod Witnesses
use mirage_core.Shared.{String, List, [], ◌∷◌}

abbrev pub attacker_classes : List String
attacker_classes = "automated_scanner" ∷ "script_kiddie" ∷ "manual_recon" ∷ "apt" ∷ []
