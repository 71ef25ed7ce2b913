-- ===== src/Tokenizer.antt =====
-- ml/mirage/tokenizer/tokenizer.py: the vocabulary, and the encoding of a session in two channels.
-- Times are whole milliseconds that are not negative. What the source takes from `math`, from
-- `str.lower` and from the regular expressions of `normalize_full` is the parameter `Runtime`.
pub mod Normalize
pub mod Encode
pub mod Fitted
pub mod Storage
pub mod Vocab
mod Witnesses
use Prim.Native.String.{◌++◌ as str_append}
use text.Mathlib.Text.{starts_with}
use mirage_core.Shared.{
  ℕ, zero, suc, ◌+◌, ◌-◌, String, Bool, true, false, not, ◌||◌, ◌&&◌, Option, none, some, List, [],
  ◌∷◌, ◌++◌, map, ltb, leb, ◌==◌, Eq, nat_eq, string_eq, if◌then◌else◌, length, get_elem?, take,
  replicate, filter_some, max,
}
use mirage_core.Shared.Dict.{Dict, lookup, insert, dict_keys}
use mirage_core.Shared.Sorting.{sort_by}
use mirage_core.Tokenizer.Normalize.{head_command}

-- Floats and the text functions that are not written out.
pub record Runtime : Type 1 where
  pub Float : Type 0
  pub of_nat : ℕ → Float
  pub add : Float → Float → Float
  pub sub : Float → Float → Float
  pub mul : Float → Float → Float
  pub div : Float → Float → Float
  pub log1p : Float → Float
  pub log : Float → Float
  pub sqrt : Float → Float
  pub is_e : Float → Bool
  pub is_zero : Float → Bool
  pub lower : String → String
  pub normalize_full : String → String

abbrev pub pad_token : String
pad_token = "<pad>"

abbrev pub bos_token : String
bos_token = "<bos>"

abbrev pub eos_token : String
eos_token = "<eos>"

abbrev pub oov_token : String
oov_token = "<oov>"

abbrev pub dur_token : String
dur_token = "<dur>"

abbrev pub special_tokens : List String
special_tokens = pad_token ∷ bos_token ∷ eos_token ∷ oov_token ∷ dur_token ∷ []

pub data Mode : Type 0 where
  command : Mode
  full : Mode

pub record Command : Type 0 where
  pub raw : String
  pub ms_offset : ℕ

pub record AuthAttempt : Type 0 where
  pub username : String
  pub credential : String

-- The fields of data/schema.py's `Session` that the tokenizer reads.
pub record Session : Type 0 where
  pub commands : List Command
  pub duration_ms : Option ℕ
  pub ssh_client_banner : String
  pub auth_attempts : List AuthAttempt

pub raw_commands : Session → List String
raw_commands session = map (λ c. c.raw) session.commands

last_offset : ℕ → List Command → ℕ
last_offset n [] = n
last_offset n (c ∷ cs) = last_offset c.ms_offset cs

pub effective_duration_ms : Session → ℕ
unfolding last_offset
effective_duration_ms session = elim session.duration_ms [
  | none ↦ last_offset 0 session.commands
  | some ms ↦ ms
]

-- `max(delta, 0)` for each interval between consecutive offsets
deltas_from : ℕ → List Command → List ℕ
deltas_from prev [] = []
deltas_from prev (c ∷ cs) = (c.ms_offset - prev) ∷ deltas_from c.ms_offset cs

pub inter_command_deltas_ms : Session → List ℕ
unfolding deltas_from
inter_command_deltas_ms session = elim session.commands [
  | [] ↦ []
  | (c ∷ cs) ↦ deltas_from c.ms_offset cs
]

-- `_token_to_id` and `_id_to_token`
pub record Tables : Type 0 where
  pub token_to_id : Dict String ℕ
  pub id_to_token : List String

-- `{tok: i for i, tok in enumerate(tokens)}`
enumerate_tokens : ℕ → Dict String ℕ → List String → Dict String ℕ
enumerate_tokens i d [] = d
enumerate_tokens i d (tok ∷ toks) = enumerate_tokens (i + 1) (insert tok i d) toks

-- `_install_specials`
pub install_specials : Tables
unfolding enumerate_tokens
install_specials = record {
  token_to_id = enumerate_tokens 0 [] special_tokens;
  id_to_token = special_tokens;
}

-- The body of the two loops of `fit` that give a token the next id, if it has none.
pub add_token : Tables → String → Tables
add_token t token = elim (lookup token t.token_to_id) [
  | none ↦ record {
    token_to_id = insert token (length t.id_to_token) t.token_to_id;
    id_to_token = t.id_to_token ++ token ∷ [];
  }
  | some _ ↦ t
]

pub add_tokens : Tables → List String → Tables
unfolding add_token
add_tokens t [] = t
add_tokens t (token ∷ tokens) = add_tokens (add_token t token) tokens

-- `counts[token] += 1`
pub increment : String → Dict String ℕ → Dict String ℕ
increment token counts = elim (lookup token counts) [
  | none ↦ insert token 1 counts
  | some n ↦ insert token (n + 1) counts
]

-- `counts.most_common(k)`, for its tokens: equal counts stay in the order of insertion.
pub most_common : ℕ → Dict String ℕ → List String
most_common k counts = take k (dict_keys (sort_by (λ p q. leb q.1 p.1) counts))

pub banner_token : String → String
banner_token banner = str_append "banner:" banner

pub credential_token : String → String → String
credential_token username credential =
    str_append "cred:" (str_append username (str_append ":" credential))

is_metadata : String → Bool
is_metadata tok = starts_with tok "banner:" || starts_with tok "cred:"

unfoldable pub token_or : ℕ → Tables → String → ℕ
token_or default t token = elim (lookup token t.token_to_id) [ none ↦ default | some i ↦ i ]

-- `pad_id` and the like: the tables of every tokenizer hold the special tokens.
unfoldable pub special_id : Tables → String → ℕ
unfolding token_or
special_id t token = token_or 0 t token

-- `metadata_ids`: the ids of the banner and credential tokens, and that of `<dur>`.
metadata_from : Dict String ℕ → List ℕ
unfolding is_metadata
metadata_from [] = []
metadata_from ((tok, i) ∷ d) =
    let rest = metadata_from d in if is_metadata tok then i ∷ rest else rest

pub metadata_ids : Tables → List ℕ
unfolding metadata_from special_id
metadata_ids t = special_id t dur_token ∷ metadata_from t.token_to_id

-- `decode`
decode_one : Tables → ℕ → String
decode_one t i = elim (get_elem? t.id_to_token i) [ none ↦ oov_token | some token ↦ token ]

unfoldable pub decode : Tables → Bool → List ℕ → List String
unfolding decode_one
decode t skip_special [] = []
decode t skip_special (i ∷ ids) =
    let rest = decode t skip_special ids in
    if skip_special && ltb i (length special_tokens) then rest else decode_one t i ∷ rest

module _ (rt : Runtime) where
  open rt use {
    Float, of_nat, add, sub, mul, div, log1p, log, sqrt, is_e, is_zero, lower, normalize_full,
  }

  pub record TokenizerConfig : Type 0 where
    pub mode : Mode
    pub top_k : ℕ
    pub add_bos : Bool
    pub add_eos : Bool
    pub timing_log_base : Float
    pub timing_mean : Float
    pub timing_std : Float
    pub use_metadata : Bool
    pub metadata_top_k : ℕ
    pub duration_mean : Float
    pub duration_std : Float
    pub version : ℕ

  pub record CommandTokenizer : Type 0 where
    pub config : TokenizerConfig
    pub tables : Tables

  pub record EncodedSession : Type 0 where
    pub input_ids : List ℕ
    pub timing : List Float
    pub attention_mask : List ℕ
    pub length_of : ℕ

  -- `_normalize`
  pub normalize : Mode → String → String
  unfolding head_command
  normalize command raw = head_command lower raw
  normalize full raw = normalize_full raw

  -- `_log_ms`; `_log_ici` is the same.
  log_ms : TokenizerConfig → ℕ → Float
  log_ms config value_ms =
      let value = log1p (of_nat value_ms) in
      if is_e config.timing_log_base then value else div value (log config.timing_log_base)

  -- `std or 1.0`
  or_one : Float → Float
  or_one std = if is_zero std then of_nat 1 else std

  maybe_standardize : TokenizerConfig → Float → Bool → Float
  unfolding or_one
  maybe_standardize config x standardize =
      if not standardize then x else div (sub x config.timing_mean) (or_one config.timing_std)

  maybe_standardize_duration : TokenizerConfig → Float → Bool → Float
  unfolding or_one
  maybe_standardize_duration config x standardize =
      if not standardize then x else div (sub x config.duration_mean) (or_one config.duration_std)

  -- `encode_command`
  pub encode_command : CommandTokenizer → String → ℕ
  unfolding normalize token_or special_id
  encode_command tok raw =
      let oov_id = special_id tok.tables oov_token in
      let token = normalize tok.config.mode raw in
      if token == "" then oov_id else token_or oov_id tok.tables token

  -- What `fit` counts and measures while it goes over the sessions.
  pub record Counts : Type 0 where
    pub commands : Dict String ℕ
    pub metadata : Dict String ℕ
    pub log_icis : List Float
    pub log_durations : List Float

  count_commands : Mode → List String → Dict String ℕ → Dict String ℕ
  unfolding normalize increment
  count_commands mode [] counts = counts
  count_commands mode (raw ∷ raws) counts =
      let token = normalize mode raw in
      count_commands mode raws (if token == "" then counts else increment token counts)

  count_attempts : List AuthAttempt → Dict String ℕ → Dict String ℕ
  unfolding increment credential_token
  count_attempts [] counts = counts
  count_attempts (a ∷ attempts) counts =
      count_attempts attempts (increment (credential_token a.username a.credential) counts)

  count_metadata : Session → Dict String ℕ → Dict String ℕ
  unfolding count_attempts increment banner_token
  count_metadata session counts = count_attempts session.auth_attempts (
      if session.ssh_client_banner == ""
      then counts
      else increment (banner_token session.ssh_client_banner) counts)

  count_session : TokenizerConfig → Session → Counts → Counts
  unfolding count_commands count_metadata log_ms raw_commands inter_command_deltas_ms
      effective_duration_ms
  count_session config session c = record {
    commands = count_commands config.mode (raw_commands session) c.commands;
    metadata = if config.use_metadata then count_metadata session c.metadata else c.metadata;
    log_icis = c.log_icis ++ map (log_ms config) (inter_command_deltas_ms session);
    log_durations =
        if config.use_metadata
        then c.log_durations ++ log_ms config (effective_duration_ms session) ∷ []
        else c.log_durations;
  }

  pub count_sessions : TokenizerConfig → List Session → Counts → Counts
  unfolding count_session
  count_sessions config [] c = c
  count_sessions config (session ∷ sessions) c =
      count_sessions config sessions (count_session config session c)

  sum_floats : Float → List Float → Float
  sum_floats acc [] = acc
  sum_floats acc (x ∷ xs) = sum_floats (add acc x) xs

  mean : List Float → Float
  unfolding sum_floats
  mean xs = div (sum_floats (of_nat 0) xs) (of_nat (length xs))

  deviation : List Float → Float
  unfolding mean sum_floats or_one
  deviation xs =
      let m = mean xs in
      or_one (
        sqrt (
          div (sum_floats (of_nat 0) (map (λ x. mul (sub x m) (sub x m)) xs)) (of_nat (length xs))))

  fit_timing : List Float → TokenizerConfig → TokenizerConfig
  unfolding mean deviation
  fit_timing [] config = config
  fit_timing (x ∷ xs) config = record config {
    timing_mean = mean (x ∷ xs);
    timing_std = deviation (x ∷ xs);
  }

  fit_duration : List Float → TokenizerConfig → TokenizerConfig
  unfolding mean deviation
  fit_duration [] config = config
  fit_duration (x ∷ xs) config = record config {
    duration_mean = mean (x ∷ xs);
    duration_std = deviation (x ∷ xs);
  }

  -- The two tiers of the vocabulary, on the special tokens.
  pub fit_tables : TokenizerConfig → Counts → Tables
  unfolding add_tokens most_common install_specials
  fit_tables config c =
      let commands = add_tokens install_specials (most_common config.top_k c.commands) in
      if config.use_metadata
      then add_tokens commands (most_common config.metadata_top_k c.metadata)
      else commands

  abbrev pub corpus_counts : TokenizerConfig → List Session → Counts
  corpus_counts config sessions =
      count_sessions config sessions
        (record { commands = []; metadata = []; log_icis = []; log_durations = [] })

  unfoldable pub fit : TokenizerConfig → List Session → CommandTokenizer
  unfolding count_sessions fit_tables fit_timing fit_duration
  fit config sessions =
      let c = corpus_counts config sessions in
      record {
        config = fit_duration c.log_durations (fit_timing c.log_icis config);
        tables = fit_tables config c;
      }
