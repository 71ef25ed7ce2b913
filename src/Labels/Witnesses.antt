-- ===== src/Labels/Witnesses.antt =====
-- The review of labels on small files: tests, and the theorems at concrete inputs.
use mirage_core.Shared.{ℕ, ◌≡◌, refl, String, Option, none, true, some, List, [], ◌∷◌, count, All}
use mirage_core.Labels.Sampling.{ExportedSession, Shuffler, stratified_sample}
use mirage_core.Labels.Sampling.Strata.{IsStratum, stratified_sample-IsStratum}
use mirage_core.Labels.Agreement.{GoldRow, PredictionRow, Matrix, cell, confusion_matrix}
use mirage_core.Labels.Agreement.Matrix.{is_at, is_class, confusion_matrix-count}

-- A shuffle that leaves the order alone.
abbrev still : Shuffler ℕ
still = record { State = ℕ; shuffle = λ xs s. (xs, s); mem-shuffle = λ xs s x m. m }

abbrev session : String → Option String → ExportedSession ℕ
session id cls = record {
  session_id = id;
  attacker_class = cls;
  classifier_confidence = 1;
  ssh_client_banner = 0;
  start_ms = 0;
  duration_ms = 0;
  command_count = 0;
  bait_hit_count = 0;
  auth_attempt_count = 0;
  unique_usernames_tried = 0;
  top_username = 0;
}

abbrev sessions : List (ExportedSession ℕ)
sessions =
    session "a" (some "apt")
    ∷ session "b" none
    ∷ session "c" (some "error")
    ∷ session "d" (some "apt")
    ∷ session "e" (some "apt")
    ∷ session "f" (some "apt")
    ∷ []

sampled :
    stratified_sample still sessions 2 ("d" ∷ []) 0
    ≡ ("automated_scanner", [])
      ∷ ("script_kiddie", [])
      ∷ ("manual_recon", [])
      ∷ ("apt", session "a" (some "apt") ∷ session "e" (some "apt") ∷ [])
      ∷ []
unfolding stratified_sample
sampled = refl

stratified_sample-IsStratum_example :
    All (IsStratum sessions ("d" ∷ []) still 2) (stratified_sample still sessions 2 ("d" ∷ []) 0)
stratified_sample-IsStratum_example = stratified_sample-IsStratum sessions ("d" ∷ []) still 2 0

abbrev gold : List GoldRow
gold =
    record { session_id = "a"; human_label = "apt" }
    ∷ record { session_id = "b"; human_label = "unsure" }
    ∷ record { session_id = "c"; human_label = "apt" }
    ∷ record { session_id = "d"; human_label = "apt" }
    ∷ []

abbrev predicted : List PredictionRow
predicted =
    record { session_id = "a"; attacker_class = "apt" }
    ∷ record { session_id = "d"; attacker_class = "manual_recon" }
    ∷ []

abbrev pairs : List (String × String)
pairs = ("apt", "apt") ∷ ("apt", "manual_recon") ∷ ("apt", "apt") ∷ []

abbrev matrix : Matrix
matrix =
    ("apt", ("apt", 2) ∷ ("manual_recon", 1) ∷ [])
    ∷ ("manual_recon", ("apt", 0) ∷ ("manual_recon", 0) ∷ [])
    ∷ []

made : confusion_matrix pairs ("apt" ∷ "manual_recon" ∷ []) ≡ some matrix
unfolding confusion_matrix
made = refl

abbrev classes : List String
classes = "apt" ∷ "manual_recon" ∷ []

confusion_matrix-count_example :
    (m : Matrix) × (confusion_matrix pairs classes ≡ some m)
    × ((t p : String)
        → is_class classes t ≡ true
        → is_class classes p ≡ true
        → cell m t p ≡ some (count (is_at t p) pairs))
confusion_matrix-count_example =
    confusion_matrix-count pairs classes (refl, refl, (refl, refl, (refl, refl, tt)))
