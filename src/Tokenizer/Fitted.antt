-- ===== src/Tokenizer/Fitted.antt =====
-- ml/mirage/tokenizer/tokenizer.py: what `fit` builds, and that `decode` undoes `encode_command`.
use mirage_core.Shared.{
  ℕ, zero, suc, ◌+◌, ◌≤◌, ◌≡◌, refl, sym, ap, ◌∙◌, inl, inr, String, Bool, true, false, not, ◌||◌,
  ◌&&◌, none, some, List, [], ◌∷◌, ◌++◌, map, ltb, leb, ◌==◌, string_eq, ==_iff, get_elem?, keep,
  if◌then◌else◌, arith, Bool-cases, Option-cases, length, length-take, length-append,
}
use mirage_core.Shared.Sorting.{sort_by}
use mirage_core.Shared.Dict.{Dict, lookup, dict_keys}
use mirage_core.Tokenizer.{
  Runtime, Session, Tables, TokenizerConfig, CommandTokenizer, Counts, install_specials, add_tokens,
  most_common, special_tokens, oov_token, fit_tables, fit, corpus_counts, decode, decode_one,
  normalize, encode_command, special_id, token_or,
}
use mirage_core.Tokenizer.Vocab.{
  IsVocab, add_tokens-IsVocab, add_tokens-extends, install_specials-IsVocab,
}

length-most_common : (k : ℕ) (counts : Dict String ℕ) → length (most_common k counts) ≤ k
unfolding most_common
length-most_common k counts =
    let sorted = sort_by (λ (p q : String × ℕ). leb q.1 p.1) counts in
    omega (arith, length-take k (dict_keys sorted))

module _ (rt : Runtime) (config : TokenizerConfig rt) (sessions : List Session) where
  -- How many tokens the two tiers may add.
  abbrev pub budget : ℕ
  budget = config.top_k + (if config.use_metadata then config.metadata_top_k else 0)

  abbrev tables_of : Counts rt → Tables
  tables_of c = fit_tables rt config c

  fit_tables-IsVocab : (c : Counts rt) → IsVocab (tables_of c)
  unfolding fit_tables
  fit_tables-IsVocab c =
      let first =
        add_tokens-IsVocab install_specials (most_common config.top_k c.commands)
          install_specials-IsVocab in
      elim (Bool-cases config.use_metadata) [
        | inl on ↦ rw on (add_tokens-IsVocab _ (most_common config.metadata_top_k c.metadata) first)
        | inr off ↦ rw off first
      ]

  fit_tables-extends :
      (c : Counts rt)
      → (more : List String) × ((tables_of c).id_to_token ≡ special_tokens ++ more)
        × (length more ≤ budget)
  unfolding fit_tables
  fit_tables-extends c =
      let commands = most_common config.top_k c.commands in
      let metadata = most_common config.metadata_top_k c.metadata in
      let (first, e, n) = add_tokens-extends install_specials commands in
      let (second, k, m) = add_tokens-extends (add_tokens install_specials commands) metadata in
      let short = length-most_common config.top_k c.commands in
      let short' = length-most_common config.metadata_top_k c.metadata in
      elim (Bool-cases config.use_metadata) [
        | inl on ↦ rw on (
          first ++ second,
          unfold install_specials in k ∙ ap (λ xs. xs ++ second) e,
          omega (arith, length-append first second, n, m, short, short'),
        )
        | inr off ↦ rw off (first, unfold install_specials in e, omega (arith, n, short))
      ]

  -- After `fit` the two tables are inverse to each other: a token has an id exactly when it stands at
  -- that id. The special tokens have the ids from 0 to 4, and behind them stand at most `top_k`
  -- tokens, with metadata at most `metadata_top_k` more.
  pub fit-IsVocab :
      IsVocab (fit rt config sessions).tables
      × ((more : List String) × ((fit rt config sessions).tables.id_to_token
            ≡ special_tokens ++ more)
          × (length more ≤ budget))
  unfolding fit
  fit-IsVocab = (
    fit_tables-IsVocab (corpus_counts rt config sessions),
    fit_tables-extends (corpus_counts rt config sessions),
  )

abbrev is_one_of : List String → String → Bool
is_one_of [] token = false
is_one_of (x ∷ xs) token = x == token || is_one_of xs token

-- The special tokens are left out where they are skipped.
abbrev pub is_shown : Bool → String → Bool
is_shown skip token = not (skip && is_one_of special_tokens token)

one_of-get_elem? :
    (xs ys : List String) (token : String) (i : ℕ)
    → ltb i (length xs) ≡ true
    → get_elem? (xs ++ ys) i ≡ some token
    → is_one_of xs token ≡ true
one_of-get_elem? [] ys token i h e = absurd (ground arith)
one_of-get_elem? (x ∷ xs) ys token zero h e = ground (arith, ==_iff x token)
one_of-get_elem? (x ∷ xs) ys token (suc i) h e =
    let rest = one_of-get_elem? xs ys token i (ground arith) e in ground (arith, rest)

get_elem?-one_of :
    (xs ys : List String) (token : String)
    → is_one_of xs token ≡ true
    → (i : ℕ) × (ltb i (length xs) ≡ true) × (get_elem? (xs ++ ys) i ≡ some token)
get_elem?-one_of [] ys token h = absurd (cc)
get_elem?-one_of (x ∷ xs) ys token h = elim (Bool-cases (x == token)) [
  | inl same ↦ (0, ground arith, ap some ((==_iff x token).0 same))
  | inr other ↦
      let (i, below, e) = get_elem?-one_of xs ys token (rw other at h) in (suc i, ground arith, e)
]

if_not {ℓ} : {A : Type ℓ} (b : Bool) (x y : A) → (if b then x else y) ≡ (if not b then y else x)
if_not true x y = refl
if_not false x y = refl

-- The ids below the number of the special tokens are those of special tokens.
abbrev IsSpecialFirst : Tables → Type 0
IsSpecialFirst t =
    (token : String) (i : ℕ)
    → lookup token t.token_to_id ≡ some i
    → ltb i (length special_tokens) ≡ is_one_of special_tokens token

special_tokens-first :
    (t : Tables) (more : List String)
    → IsVocab t
    → t.id_to_token ≡ special_tokens ++ more
    → IsSpecialFirst t
special_tokens-first t more inverse e token i h =
    let at_i : get_elem? (special_tokens ++ more) i ≡ some token =
      sym (ap (λ xs. get_elem? xs i) e) ∙ (inverse token i).0 h in
    elim (Bool-cases (ltb i (length special_tokens))) [
      | inl below ↦ below ∙ sym (one_of-get_elem? special_tokens more token i below at_i)
      | inr above ↦ elim (Bool-cases (is_one_of special_tokens token)) [
        | inl listed ↦
            let (j, below, at_j) = get_elem?-one_of special_tokens more token listed in
            let h' : lookup token t.token_to_id ≡ some j =
              (inverse token j).1 (ap (λ xs. get_elem? xs j) e ∙ at_j) in
            let same : i ≡ j = ground arith in absurd (ground arith)
        | inr other ↦ above ∙ sym other
      ]
    ]

module _ (rt : Runtime) (tok : CommandTokenizer rt) where
  -- The text that stands for a command: its normal form, if the vocabulary has it.
  abbrev pub recognized : String → String
  recognized raw =
      let token = normalize rt tok.config.mode raw in
      if token == ""
      then oov_token
      else elim (lookup token tok.tables.token_to_id) [ none ↦ oov_token | some _ ↦ token ]

  module _ (inverse : IsVocab tok.tables)
      (special : lookup oov_token tok.tables.token_to_id ≡ some 3) where
    decode_one_lem :
        (i : ℕ) (token : String)
        → lookup token tok.tables.token_to_id ≡ some i
        → decode_one tok.tables i ≡ token
    unfolding decode_one
    decode_one_lem i token h = rw ((inverse token i).0 h, decode_one)

    oov_id : special_id tok.tables oov_token ≡ 3
    unfolding special_id token_or
    oov_id = rw (special, special_id, token_or)

    lookup-recognized :
        (raw : String)
        → lookup (recognized raw) tok.tables.token_to_id ≡ some (encode_command rt tok raw)
    unfolding encode_command token_or
    lookup-recognized raw =
        let token = normalize rt tok.config.mode raw in
        rw (oov_id, encode_command)
          (elim (Bool-cases (token == "")) [
            | inl blank ↦ rw blank special
            | inr there ↦ elim (Option-cases (lookup token tok.tables.token_to_id)) [
              | inl missing ↦ rw (there, missing, token_or) special
              | inr (i, found) ↦ rw (there, found, token_or) found
            ]
          ])

    decode-map :
        (special_first : IsSpecialFirst tok.tables) (skip : Bool) (raws : List String)
        → decode tok.tables skip (map (encode_command rt tok) raws)
          ≡ keep (is_shown skip) (map recognized raws)
    unfolding decode
    decode-map special_first skip [] = refl
    decode-map special_first skip (raw ∷ raws) =
        let h = lookup-recognized raw in
        let rest = decode-map special_first skip raws in
        rw
          (special_first (recognized raw) (encode_command rt tok raw) h, decode_one_lem _ _ h, rest)
          (if_not (skip && is_one_of special_tokens (recognized raw)) _ _)

-- A fitted tokenizer decodes the ids of commands to their normal forms, in their order, with `<oov>`
-- for one that is empty or not in the vocabulary; with `skip_special` those that are special tokens,
-- as `<oov>` is, are left out.
pub decode-encode_command :
    (rt : Runtime) (config : TokenizerConfig rt) (sessions : List Session) (skip_special : Bool)
    (raws : List String)
    → decode
        (fit rt config sessions).tables
        skip_special
        (map (encode_command rt (fit rt config sessions)) raws)
      ≡ keep (is_shown skip_special) (map (recognized rt (fit rt config sessions)) raws)
decode-encode_command rt config sessions skip_special raws =
    let (inverse, (more, e, n)) = fit-IsVocab rt config sessions in
    let tok = fit rt config sessions in
    decode-map rt tok inverse ((inverse oov_token 3).1 (rw e refl))
      (special_tokens-first tok.tables more inverse e) skip_special raws
