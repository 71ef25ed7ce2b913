-- ===== src/Tokenizer/Encode.antt =====
-- ml/mirage/tokenizer/tokenizer.py: `encode` and `encode_batch`.
pub mod Channels
pub mod Batch
use mirage_core.Shared.{
  ℕ, zero, suc, ◌+◌, ◌-◌, String, Bool, true, false, ◌&&◌, Option, none, some, List, [], ◌∷◌, ◌++◌,
  map, ltb, ◌==◌, string_eq, if◌then◌else◌, length, take, replicate, max,
}
use mirage_core.Tokenizer.{
  Runtime, Session, Command, AuthAttempt, Tables, TokenizerConfig, CommandTokenizer, EncodedSession,
  pad_token, bos_token, eos_token, oov_token, dur_token, special_id, token_or, banner_token,
  credential_token, encode_command, log_ms, maybe_standardize, maybe_standardize_duration,
  effective_duration_ms,
}

module _ (rt : Runtime) where
  open rt use {Float, of_nat}

  -- The lists `ids` and `timing` under construction.
  pub record Steps : Type 0 where
    pub ids : List ℕ
    pub timing : List Float

  abbrev pub one_step : ℕ → Float → Steps
  one_step i x = record { ids = i ∷ []; timing = x ∷ [] }

  abbrev pub no_steps : Steps
  no_steps = record { ids = []; timing = [] }

  -- The appends of one part of the body, behind those of another.
  abbrev pub then_steps : Steps → Steps → Steps
  then_steps a b = record { ids = a.ids ++ b.ids; timing = a.timing ++ b.timing }

  module _ (tok : CommandTokenizer rt) (standardize : Bool) where
    zero_timing : Float
    unfolding maybe_standardize
    zero_timing = maybe_standardize rt tok.config (of_nat 0) standardize

    special_step : String → Steps
    unfolding zero_timing special_id
    special_step token = one_step (special_id tok.tables token) zero_timing

    metadata_step : String → Steps
    unfolding zero_timing token_or special_id
    metadata_step token =
        one_step (token_or (special_id tok.tables oov_token) tok.tables token) zero_timing

    attempt_steps : List AuthAttempt → Steps
    unfolding metadata_step credential_token
    attempt_steps [] = no_steps
    attempt_steps (a ∷ attempts) =
        then_steps (metadata_step (credential_token a.username a.credential))
          (attempt_steps attempts)

    duration_step : Session → Steps
    unfolding maybe_standardize_duration log_ms special_id effective_duration_ms
    duration_step session = one_step (special_id tok.tables dur_token) (
        maybe_standardize_duration rt tok.config
          (log_ms rt tok.config (effective_duration_ms session)) standardize)

    metadata_steps : Session → Steps
    unfolding duration_step metadata_step attempt_steps banner_token
    metadata_steps session = then_steps (duration_step session) (
        then_steps
          (if session.ssh_client_banner == ""
            then no_steps
            else metadata_step (banner_token session.ssh_client_banner))
          (attempt_steps session.auth_attempts))

    -- `0 if prev_offset is None else max(offset - prev_offset, 0)`
    delta : Option ℕ → ℕ → ℕ
    delta none offset = 0
    delta (some prev) offset = offset - prev

    command_steps : Option ℕ → List Command → Steps
    unfolding delta encode_command maybe_standardize log_ms
    command_steps prev [] = no_steps
    command_steps prev (c ∷ cs) =
        then_steps
          (one_step (encode_command rt tok c.raw) (
            maybe_standardize rt tok.config (log_ms rt tok.config (delta prev c.ms_offset))
              standardize))
          (command_steps (some c.ms_offset) cs)

    limit : Option ℕ → List Command → List Command
    limit none commands = commands
    limit (some n) commands = take n commands

    -- The steps of a session before padding.
    pub session_steps : Option ℕ → Session → Steps
    unfolding special_step metadata_steps command_steps limit
    session_steps max_length session =
        then_steps (if tok.config.add_bos then special_step bos_token else no_steps) (
          then_steps (if tok.config.use_metadata then metadata_steps session else no_steps) (
            then_steps (command_steps none (limit max_length session.commands))
              (if tok.config.add_eos then special_step eos_token else no_steps)))

    -- `pad_to - length` where that is positive and `pad_to` is given.
    missing : Option ℕ → ℕ → ℕ
    missing none n = 0
    missing (some width) n = if ltb n width then width - n else 0

    unfoldable pub encode : Option ℕ → Option ℕ → Session → EncodedSession rt
    unfolding session_steps missing special_id
    encode max_length pad_to session =
        let steps = session_steps max_length session in
        let n = length steps.ids in
        let pad_n = missing pad_to n in
        record {
          input_ids = steps.ids ++ replicate pad_n (special_id tok.tables pad_token);
          timing = steps.timing ++ replicate pad_n (of_nat 0);
          attention_mask = replicate n 1 ++ replicate pad_n 0;
          length_of = n;
        }

    -- `max(e.length for e in encoded)`
    longest : ℕ → List (EncodedSession rt) → ℕ
    longest n [] = n
    longest n (e ∷ es) = longest (max n e.length_of) es

    pub encode_batch : Option ℕ → List Session → List (EncodedSession rt)
    unfolding encode longest
    encode_batch max_length sessions = elim (map (encode max_length none) sessions) [
      | [] ↦ []
      | (e ∷ es) ↦ map (encode max_length (some (longest e.length_of es))) sessions
    ]
