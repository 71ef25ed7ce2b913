-- ===== src/Tokenizer/Vocab.antt =====
-- ml/mirage/tokenizer/tokenizer.py: the two tables of the vocabulary and the bounds on its size.
use mirage_core.Shared.{
  ℕ, zero, suc, ◌≤◌, ◌≡◌, refl, sym, ap, ◌∙◌, ◌≢◌, ◌↔◌, ◌⊎◌, inl, inr, String, none, some, List, [],
  ◌∷◌, ◌++◌, ◌==◌, string_eq, ==_iff, subst, arith, Bool-cases, Option-cases, length, get_elem?,
  append_assoc, append-nil,
}
use mirage_core.Shared.Dict.{Dict, lookup, insert, lookup-insert}
use mirage_core.Tokenizer.{Tables, install_specials, add_token, add_tokens, special_tokens}

-- The two tables are inverse to each other.
abbrev pub IsVocab : Tables → Type 0
IsVocab t =
    (token : String) (i : ℕ)
    → (lookup token t.token_to_id ≡ some i) ↔ (get_elem? t.id_to_token i ≡ some token)

get_elem?-snoc :
    (xs : List String) (x y : String) (i : ℕ)
    → (get_elem? (xs ++ x ∷ []) i ≡ some y)
      ↔ ((get_elem? xs i ≡ some y) ⊎ ((i ≡ length xs) × (x ≡ y)))
get_elem?-snoc [] x y zero = ground arith
get_elem?-snoc [] x y (suc i) = ground arith
get_elem?-snoc (z ∷ zs) x y zero = ground arith
get_elem?-snoc (z ∷ zs) x y (suc i) = ground (arith, get_elem?-snoc zs x y i)

get_elem?-length_ne : (xs : List String) (x : String) → get_elem? xs (length xs) ≢ some x
get_elem?-length_ne [] x h = cc
get_elem?-length_ne (y ∷ ys) x h = get_elem?-length_ne ys x h

insert-inverse :
    (d : Dict String ℕ) (ids : List String) (token other : String) (i : ℕ)
    → lookup token d ≡ none
    → ((lookup other d ≡ some i) ↔ (get_elem? ids i ≡ some other))
    → (lookup other (insert token (length ids) d) ≡ some i)
      ↔ (get_elem? (ids ++ token ∷ []) i ≡ some other)
insert-inverse d ids token other i new inverse =
    let added = lookup-insert token other (length ids) d in
    let last = get_elem?-snoc ids token other i in
    elim (Bool-cases (token == other)) [
      | inl same ↦
          let e : token ≡ other = (==_iff token other).0 same in
          let gone : lookup other d ≡ none = subst (λ x. lookup x d ≡ none) e new in
          (
            λ h. last.1 (inr (ground arith, e)),
            λ h. elim (last.0 h) [
              | inl old ↦ absurd (let g = inverse.1 old in cc)
              | inr k ↦ ground arith
            ],
          )
      | inr differ ↦ (
        λ h. last.1 (inl (inverse.0 (ground arith))),
        λ h. elim (last.0 h) [
          | inl old ↦ let g = inverse.1 old in ground arith
          | inr k ↦ absurd (let g = (==_iff token other).1 k.1 in cc)
        ],
      )
    ]

-- The tables with a token at the end.
abbrev extended : Tables → String → Tables
extended t token = record {
  token_to_id = insert token (length t.id_to_token) t.token_to_id;
  id_to_token = t.id_to_token ++ token ∷ [];
}

add_token-cases :
    (t : Tables) (token : String)
    → ((lookup token t.token_to_id ≡ none) × (add_token t token ≡ extended t token))
      ⊎ (add_token t token ≡ t)
unfolding add_token
add_token-cases t token = elim (Option-cases (lookup token t.token_to_id)) [
  | inl new ↦ inl (new, rw (new, add_token))
  | inr (j, old) ↦ inr (rw (old, add_token))
]

add_token-IsVocab : (t : Tables) (token : String) → IsVocab t → IsVocab (add_token t token)
add_token-IsVocab t token inverse other i = elim (add_token-cases t token) [
  | inl (new, e) ↦
      rw e (insert-inverse t.token_to_id t.id_to_token token other i new (inverse other i))
  | inr e ↦ rw e (inverse other i)
]

pub add_tokens-IsVocab :
    (t : Tables) (tokens : List String) → IsVocab t → IsVocab (add_tokens t tokens)
unfolding add_tokens
add_tokens-IsVocab t [] inverse = inverse
add_tokens-IsVocab t (token ∷ tokens) inverse =
    add_tokens-IsVocab (add_token t token) tokens (add_token-IsVocab t token inverse)

empty : Tables
empty = record { token_to_id = []; id_to_token = [] }

empty-IsVocab : IsVocab empty
unfolding empty
empty-IsVocab token i = ground arith

install_specials-eq : install_specials ≡ add_tokens empty special_tokens
unfolding install_specials add_tokens add_token empty
install_specials-eq = refl

pub install_specials-IsVocab : IsVocab install_specials
install_specials-IsVocab =
    rw install_specials-eq (add_tokens-IsVocab empty special_tokens empty-IsVocab)

-- What is added stands behind what was there.
pub add_tokens-extends :
    (t : Tables) (tokens : List String)
    → (more : List String) × ((add_tokens t tokens).id_to_token ≡ t.id_to_token ++ more)
      × (length more ≤ length tokens)
unfolding add_tokens
add_tokens-extends t [] = ([], sym (append-nil t.id_to_token), omega arith)
add_tokens-extends t (token ∷ tokens) =
    let (more, e, n) = add_tokens-extends (add_token t token) tokens in
    elim (add_token-cases t token) [
      | inl (new, k) ↦ (
        token ∷ more,
        e
            ∙ ap (λ (u : Tables). u.id_to_token ++ more) k
            ∙ append_assoc t.id_to_token (token ∷ []) more,
        omega (arith, n),
      )
      | inr k ↦ (more, e ∙ ap (λ (u : Tables). u.id_to_token ++ more) k, omega (arith, n))
    ]
