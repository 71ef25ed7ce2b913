-- ===== src/Tokenizer/Normalize/Bare.antt =====
-- ml/mirage/tokenizer/normalize.py: what `_strip_wrappers` leaves, and base names.
use text.Mathlib.Text.{starts_with}
use mirage_core.Shared.{
  ◌≡◌, refl, ap, ◌++◌, arith, Bool-cases, inl, inr, String, false, not, ◌&&◌, List, [], ◌∷◌,
}
use mirage_core.Tokenizer.Normalize.{
  is_assignment, is_wrapper, Stage, at_word, in_options, after_option, is_at_word, is_after_option,
  strip_from, strip_wrappers, has_slash, basename,
}

-- The first word, if there is one, is no assignment and no wrapper.
abbrev pub IsBare : List String → Type 0
IsBare [] = Unit
IsBare (tok ∷ _) = (is_assignment tok ≡ false) × (is_wrapper tok ≡ false)

strip_from-IsBare : (stage : Stage) (tokens : List String) → IsBare (strip_from stage tokens)
unfolding strip_from
strip_from-IsBare stage [] = tt
strip_from-IsBare stage (tok ∷ tokens) =
    elim (Bool-cases (starts_with tok "-" && not (is_at_word stage))) [
      | inl e ↦ rw e (strip_from-IsBare after_option tokens)
      | inr e ↦ elim (Bool-cases (is_after_option stage && not (is_wrapper tok))) [
        | inl v ↦ rw (e, v) (strip_from-IsBare in_options tokens)
        | inr v ↦ elim (Bool-cases (is_assignment tok)) [
          | inl a ↦ rw (e, v, a) (strip_from-IsBare at_word tokens)
          | inr a ↦ elim (Bool-cases (is_wrapper tok)) [
            | inl w ↦ rw (e, v, a, w) (strip_from-IsBare in_options tokens)
            | inr w ↦ rw (e, v, a, w) (a, w)
          ]
        ]
      ]
    ]

-- One list is what another ends in.
abbrev pub EndsIn : List String → List String → Type 0
EndsIn xs ys = (before : List String) × (xs ≡ before ++ ys)

EndsIn-cons : (x : String) {xs ys : List String} → EndsIn xs ys → EndsIn (x ∷ xs) ys
EndsIn-cons x (before, e) = (x ∷ before, ap (λ zs. x ∷ zs) e)

strip_from-EndsIn : (stage : Stage) (tokens : List String) → EndsIn tokens (strip_from stage tokens)
unfolding strip_from
strip_from-EndsIn stage [] = ([], refl)
strip_from-EndsIn stage (tok ∷ tokens) =
    let word = EndsIn-cons tok (strip_from-EndsIn at_word tokens) in
    let option = EndsIn-cons tok (strip_from-EndsIn in_options tokens) in
    let value = EndsIn-cons tok (strip_from-EndsIn after_option tokens) in
    elim (Bool-cases (starts_with tok "-" && not (is_at_word stage))) [
      | inl e ↦ rw e value
      | inr e ↦ elim (Bool-cases (is_after_option stage && not (is_wrapper tok))) [
        | inl v ↦ rw (e, v) option
        | inr v ↦ elim (Bool-cases (is_assignment tok)) [
          | inl a ↦ rw (e, v, a) word
          | inr a ↦ elim (Bool-cases (is_wrapper tok)) [
            | inl w ↦ rw (e, v, a, w) option
            | inr w ↦ rw (e, v, a, w) ([], refl)
          ]
        ]
      ]
    ]

-- `_strip_wrappers` drops words at the front only, and what it leaves is empty or starts with a
-- word that is no assignment and no wrapper.
pub strip_wrappers-IsBare :
    (tokens : List String) → EndsIn tokens (strip_wrappers tokens) × IsBare (strip_wrappers tokens)
unfolding strip_wrappers
strip_wrappers-IsBare tokens = (strip_from-EndsIn at_word tokens, strip_from-IsBare at_word tokens)

-- A base name has no slash.
pub basename_lem : (s : String) → has_slash (basename s) ≡ false
unfolding basename has_slash
basename_lem String.[] = refl
basename_lem (String.◌∷◌ c s) = ground (arith, basename_lem s)
