-- ===== src/Labels/Agreement/Matrix.antt =====
-- scripts/compute_label_agreement.py: every gold label is counted once, and the matrix counts pairs.
use mirage_core.Shared.{
  ℕ, ◌+◌, ◌≡◌, refl, sym, ap, ◌∙◌, inl, inr, String, Bool, true, false, ◌&&◌, ◌||◌, Option, none,
  some, List, [], ◌∷◌, map, ◌==◌, string_eq, ==_iff, if◌then◌else◌, arith, Bool-cases, Option-cases,
  length, count,
}
use mirage_core.Shared.Dict.{Dict, lookup, insert, lookup-insert}
use mirage_core.Labels.Agreement.{
  GoldRow, PredictionRow, join_from, join_labels, predictions, Matrix, cell, bump, count_pairs,
  confusion_matrix, empty_matrix,
}

join_from-length :
    (preds : Dict String String) (rows : List GoldRow)
    → length (join_from preds rows).pairs
        + (join_from preds rows).n_unsure
        + (join_from preds rows).n_unmatched
      ≡ length rows
unfolding join_from
join_from-length preds [] = omega arith
join_from-length preds (row ∷ rows) = ground (arith, join_from-length preds rows)

-- Each gold label is counted once: as a pair, as unsure, or as unmatched.
pub join_labels-length :
    (gold : List GoldRow) (rows : List PredictionRow)
    → length (join_labels gold rows).pairs
        + (join_labels gold rows).n_unsure
        + (join_labels gold rows).n_unmatched
      ≡ length gold
unfolding join_labels
join_labels-length gold rows = join_from-length (predictions rows) gold

-- A pair is the one of this row and this column.
abbrev pub is_at : String → String → String × String → Bool
is_at t p pair = pair.0 == t && pair.1 == p

abbrev pub is_class : List String → String → Bool
is_class [] t = false
is_class (c ∷ cs) t = c == t || is_class cs t

abbrev plus : ℕ → Option ℕ → Option ℕ
plus k none = none
plus k (some n) = some (n + k)

plus_zero : (o : Option ℕ) → o ≡ plus 0 o
plus_zero none = refl
plus_zero (some n) = ap some (omega arith)

plus-plus : (j k : ℕ) (o : Option ℕ) → plus j (plus k o) ≡ plus (k + j) o
plus-plus j k none = refl
plus-plus j k (some n) = ap some (omega arith)

cell-insert :
    (t x y : String) (row : Dict String ℕ) (m : Matrix)
    → cell (insert t row m) x y ≡ (if t == x then lookup y row else cell m x y)
unfolding cell
cell-insert t x y row m = elim (Bool-cases (t == x)) [
  | inl same ↦ rw (lookup-insert t x row m, same, cell) refl
  | inr other ↦ rw (lookup-insert t x row m, other, cell) refl
]

cell_of_row :
    (x y : String) (row : Dict String ℕ) (m : Matrix)
    → lookup x m ≡ some row
    → cell m x y ≡ lookup y row
unfolding cell
cell_of_row x y row m e = rw (e, cell)

bump-cases :
    (t p : String) (m m' : Matrix)
    → bump t p m ≡ some m'
    → (row : Dict String ℕ) × (n : ℕ) × (lookup t m ≡ some row)
      × (lookup p row ≡ some n)
      × (m' ≡ insert t (insert p (n + 1) row) m)
unfolding bump
bump-cases t p m m' e = elim (Option-cases (lookup t m)) [
  | inl no_row ↦ absurd (ground arith)
  | inr (row, at_t) ↦ elim (Option-cases (lookup p row)) [
    | inl no_cell ↦ absurd (ground arith)
    | inr (n, at_p) ↦ (row, n, at_t, at_p, ground arith)
  ]
]

bump-cell :
    (t p x y : String) (m m' : Matrix)
    → bump t p m ≡ some m'
    → cell m' x y ≡ plus (if is_at x y (t, p) then 1 else 0) (cell m x y)
bump-cell t p x y m m' e =
    let (row, n, at_t, at_p, is_m') = bump-cases t p m m' e in
    rw (is_m', cell-insert t x y (insert p (n + 1) row) m)
      (elim (Bool-cases (t == x)) [
        | inl same ↦
            let same_row = cell_of_row t y row m at_t in
            let x_row : cell m x y ≡ lookup y row =
              ap (λ z. cell m z y) (sym ((==_iff t x).0 same)) ∙ same_row in
            ground (arith, lookup-insert p y (n + 1) row, ==_iff p y)
        | inr other ↦ rw other (plus_zero (cell m x y))
      ])

count_pairs-cell :
    (x y : String) (pairs : List (String × String)) (m m' : Matrix)
    → count_pairs pairs m ≡ some m'
    → cell m' x y ≡ plus (count (is_at x y) pairs) (cell m x y)
unfolding count_pairs
count_pairs-cell x y [] m m' e =
    let same : m ≡ m' = ground arith in ap (λ z. cell z x y) (sym same) ∙ plus_zero (cell m x y)
count_pairs-cell x y ((t, p) ∷ pairs) m m' e = elim (Option-cases (bump t p m)) [
  | inl failed ↦ absurd (ground arith)
  | inr (m₁, went) ↦
      count_pairs-cell x y pairs m₁ m' (ground arith)
      ∙ ap (plus (count (is_at x y) pairs)) (bump-cell t p x y m m₁ went)
      ∙ plus-plus (count (is_at x y) pairs) (if is_at x y (t, p) then 1 else 0) (cell m x y)
      ∙ ap (λ k. plus k (cell m x y)) (ground arith)
]

lookup-rows :
    {A : Type 0} (row : A) (t : String) (classes : List String)
    → lookup t (map (λ c. (c, row)) classes) ≡ (if is_class classes t then some row else none)
lookup-rows row t [] = refl
lookup-rows row t (c ∷ cs) = ground (arith, lookup-rows row t cs)

abbrev zeros : List String → Dict String ℕ
zeros classes = map (λ p. (p, 0)) classes

empty_matrix-cell :
    (t p : String) (classes : List String)
    → is_class classes t ≡ true
    → is_class classes p ≡ true
    → cell (empty_matrix classes) t p ≡ some 0
empty_matrix-cell t p classes h k =
    cell_of_row t p (zeros classes) (empty_matrix classes)
      (lookup-rows (zeros classes) t classes ∙ rw h refl)
    ∙ lookup-rows 0 p classes
    ∙ rw k refl

-- No cell is missing between two of the classes.
abbrev IsFull : List String → Matrix → Type 0
IsFull classes m =
    (t p : String)
    → is_class classes t ≡ true
    → is_class classes p ≡ true
    → (n : ℕ) × (cell m t p ≡ some n)

bump-made :
    (t p : String) (m : Matrix) (n : ℕ)
    → cell m t p ≡ some n
    → (m' : Matrix) × (bump t p m ≡ some m')
unfolding bump cell
bump-made t p m n e = elim (Option-cases (lookup t m)) [
  | inl no_row ↦ absurd (ground arith)
  | inr (row, at_t) ↦ elim (Option-cases (lookup p row)) [
    | inl no_cell ↦ absurd (ground arith)
    | inr (k, at_p) ↦ (insert t (insert p (k + 1) row) m, rw (at_t, at_p, bump) refl)
  ]
]

plus-made : (k n : ℕ) (o : Option ℕ) → o ≡ some n → (i : ℕ) × (plus k o ≡ some i)
plus-made k n o e = (n + k, rw e refl)

bump-IsFull :
    (classes : List String) (t p : String) (m m' : Matrix)
    → IsFull classes m
    → bump t p m ≡ some m'
    → IsFull classes m'
bump-IsFull classes t p m m' full e x y hx hy =
    let (n, c) = full x y hx hy in
    let (i, k) = plus-made (if is_at x y (t, p) then 1 else 0) n (cell m x y) c in
    (i, bump-cell t p x y m m' e ∙ k)

-- Both labels of every pair are classes.
abbrev pub AreClasses : List String → List (String × String) → Type 0
AreClasses classes [] = Unit
AreClasses classes (pair ∷ pairs) =
    (is_class classes pair.0 ≡ true) × (is_class classes pair.1 ≡ true) × AreClasses classes pairs

count_pairs-made :
    (classes : List String) (pairs : List (String × String)) (m : Matrix)
    → IsFull classes m
    → AreClasses classes pairs
    → (m' : Matrix) × (count_pairs pairs m ≡ some m')
unfolding count_pairs
count_pairs-made classes [] m full h = (m, refl)
count_pairs-made classes ((t, p) ∷ pairs) m full (ht, hp, rest) =
    let (n, c) = full t p ht hp in
    let (m₁, went) = bump-made t p m n c in
    let (m', e) = count_pairs-made classes pairs m₁ (bump-IsFull classes t p m m₁ full went) rest in
    (m', rw (went, count_pairs) e)

-- The confusion matrix of pairs exists, where no pair has a label outside the classes, and holds for
-- every two classes the number of pairs with that human label and that prediction.
pub confusion_matrix-count :
    (pairs : List (String × String)) (classes : List String)
    → AreClasses classes pairs
    → (m : Matrix) × (confusion_matrix pairs classes ≡ some m)
      × ((t p : String)
          → is_class classes t ≡ true
          → is_class classes p ≡ true
          → cell m t p ≡ some (count (is_at t p) pairs))
unfolding confusion_matrix
confusion_matrix-count pairs classes all =
    let start = empty_matrix classes in
    let full : IsFull classes start = λ t p h k. (0, empty_matrix-cell t p classes h k) in
    let (m, e) = count_pairs-made classes pairs start full all in
    (
      m,
      e,
      λ t p h k.
          count_pairs-cell t p pairs start m e
          ∙ ap (plus (count (is_at t p) pairs)) (empty_matrix-cell t p classes h k)
          ∙ ap some (omega arith),
    )
