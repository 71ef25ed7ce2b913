-- ===== src/Tokenizer/Storage.antt =====
-- ml/mirage/tokenizer/tokenizer.py: `save` and `load`. The two JSON files are kept as the values that
-- they hold.
pub mod Roundtrip
use mirage_core.Shared.{
  ℕ, zero, suc, String, Option, none, some, List, [], ◌∷◌, string_eq, length, replicate,
}
use mirage_core.Shared.Dict.{Dict}
use mirage_core.Tokenizer.{Runtime, Tables, TokenizerConfig, CommandTokenizer, enumerate_tokens}

-- `id_to_token[idx] = token`, with `none` for `IndexError`
set_at : List String → ℕ → String → Option (List String)
set_at [] i token = none
set_at (x ∷ xs) zero token = some (token ∷ xs)
set_at (x ∷ xs) (suc i) token = elim (set_at xs i token) [ none ↦ none | some ys ↦ some (x ∷ ys) ]

place_all : List String → Dict String ℕ → Option (List String)
unfolding set_at
place_all tokens [] = some tokens
place_all tokens ((token, idx) ∷ vocab) = elim (set_at tokens idx token) [
  | none ↦ none
  | some placed ↦ place_all placed vocab
]

module _ (rt : Runtime) where
  -- The contents of `vocab.json` and `config.json`
  pub record Stored : Type 0 where
    pub vocab : Dict String ℕ
    pub config : TokenizerConfig rt

  pub save : CommandTokenizer rt → Stored
  unfolding enumerate_tokens
  save tok = record { vocab = enumerate_tokens 0 [] tok.tables.id_to_token; config = tok.config }

  pub load : Stored → Option (CommandTokenizer rt)
  unfolding place_all
  load stored = elim (place_all (replicate (length stored.vocab) "") stored.vocab) [
    | none ↦ none
    | some tokens ↦ some (record {
      config = stored.config;
      tables = record { token_to_id = stored.vocab; id_to_token = tokens };
    })
  ]
