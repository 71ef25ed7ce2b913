-- ===== src/Labels/Agreement.antt =====
-- scripts/compute_label_agreement.py: the joined labels and the confusion matrix. A `KeyError` is
-- `none`. The metrics that divide are not modelled.
pub mod Matrix
use mirage_core.Shared.{
  ℕ, zero, suc, ◌+◌, String, Bool, true, false, Option, none, some, List, [], ◌∷◌, map, ◌==◌,
  string_eq, if◌then◌else◌,
}
use mirage_core.Shared.Dict.{Dict, lookup, insert}

pub record GoldRow : Type 0 where
  pub session_id : String
  pub human_label : String

pub record PredictionRow : Type 0 where
  pub session_id : String
  pub attacker_class : String

pub record Joined : Type 0 where
  pub pairs : List (String × String)
  pub n_unsure : ℕ
  pub n_unmatched : ℕ

-- `{r["session_id"]: r["attacker_class"] for r in prediction_rows}`
predictions_from : Dict String String → List PredictionRow → Dict String String
predictions_from d [] = d
predictions_from d (r ∷ rows) = predictions_from (insert r.session_id r.attacker_class d) rows

pub predictions : List PredictionRow → Dict String String
unfolding predictions_from
predictions rows = predictions_from [] rows

-- The loop of `join_labels`
join_from : Dict String String → List GoldRow → Joined
join_from preds [] = record { pairs = []; n_unsure = 0; n_unmatched = 0 }
join_from preds (row ∷ rows) =
    let rest = join_from preds rows in
    if row.human_label == "unsure"
    then record rest { n_unsure = suc rest.n_unsure }
    else elim (lookup row.session_id preds) [
      | none ↦ record rest { n_unmatched = suc rest.n_unmatched }
      | some pred ↦ record rest { pairs = (row.human_label, pred) ∷ rest.pairs }
    ]

pub join_labels : List GoldRow → List PredictionRow → Joined
unfolding join_from predictions
join_labels gold_rows prediction_rows = join_from (predictions prediction_rows) gold_rows

abbrev pub Matrix : Type 0
Matrix = Dict String (Dict String ℕ)

abbrev pub empty_matrix : List String → Matrix
empty_matrix classes = map (λ t. (t, map (λ p. (p, 0)) classes)) classes

-- `matrix[true][pred]`
pub cell : Matrix → String → String → Option ℕ
cell m t p = elim (lookup t m) [ none ↦ none | some row ↦ lookup p row ]

-- `matrix[true][pred] += 1`
bump : String → String → Matrix → Option Matrix
bump t p m = elim (lookup t m) [
  | none ↦ none
  | some row ↦ elim (lookup p row) [
    | none ↦ none
    | some n ↦ some (insert t (insert p (n + 1) row) m)
  ]
]

count_pairs : List (String × String) → Matrix → Option Matrix
unfolding bump
count_pairs [] m = some m
count_pairs ((t, p) ∷ pairs) m = elim (bump t p m) [ none ↦ none | some m' ↦ count_pairs pairs m' ]

unfoldable pub confusion_matrix : List (String × String) → List String → Option Matrix
unfolding count_pairs
confusion_matrix pairs classes = count_pairs pairs (empty_matrix classes)
