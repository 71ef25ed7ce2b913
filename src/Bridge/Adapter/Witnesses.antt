-- ===== src/Bridge/Adapter/Witnesses.antt =====
-- bridge/schema_adapter.py: tests, and the theorems at concrete inputs.
use mathlib.Core.List.{Memᴰ}
use mirage_core.Shared.{
  ◌≡◌, refl, ◌↔◌, true, false, Option, none, some, String, [], ◌∷◌, ◌==◌, string_eq,
}
use mirage_core.Bridge.Adapter.{
  Codec, CoreCommand, CoreSession, MlCommand, MlSession, adapted, missing_start, core_session_to_ml,
  adapt_commands, adapt_command, decode_raw, rebuilt, spaced, no_later, adapt_bait, adapt_one_bait,
}
use mirage_core.Bridge.Adapter.Sessions.{IsAdapted, core_session_to_ml-commands_iff}

-- The blob "?" cannot be decoded.
abbrev codec : Codec
codec = record { b64decode = λ b. if_known b; is_blank = λ s. s == "" }
  where
    if_known : String → Option String
    if_known b = elim (b == "?") [ true ↦ none | false ↦ some b ]

abbrev doc : CoreSession
doc = record {
  session_id = some "s1";
  start_ms = some 1000;
  duration_ms = none;
  client_ip = some "";
  commands =
      record {
        sequence_number = some 2;
        timestamp_ms = some 1500;
        raw_input_b64 = some "?";
        parsed_command = some "ls";
        parsed_args = some ("-l" ∷ "/" ∷ []);
      }
      ∷ record {
        sequence_number = some 1;
        timestamp_ms = some 990;
        raw_input_b64 = some "id";
        parsed_command = none;
        parsed_args = none;
      }
      ∷ record {
        sequence_number = none;
        timestamp_ms = some 1200;
        raw_input_b64 = none;
        parsed_command = none;
        parsed_args = none;
      }
      ∷ [];
  bait_interactions =
      record { bait_type = some "credential"; bait_ms = some 1600 }
      ∷ record { bait_type = some "cloud"; bait_ms = some 1700 }
      ∷ [];
}

adapt_runs :
    core_session_to_ml codec doc
    ≡ adapted (record {
      ml_id = "s1";
      ip = "0.0.0.0";
      start_time = 1000;
      ml_commands =
          record { timestamp = 990; raw = "id"; ms_offset = 0 }
          ∷ record { timestamp = 1500; raw = "ls -l /"; ms_offset = 500 }
          ∷ [];
      ml_baits = record { ml_type = "ssh_key"; bait_time = 1600 } ∷ [];
      ml_duration = none;
    })
unfolding core_session_to_ml adapt_commands adapt_command decode_raw rebuilt spaced no_later
    adapt_bait adapt_one_bait
adapt_runs = refl

no_start : core_session_to_ml codec (record doc { start_ms = none }) ≡ missing_start "s1"
unfolding core_session_to_ml
no_start = refl

core_session_to_ml-commands_iff_example :
    (s : MlSession) × (core_session_to_ml codec doc ≡ adapted s)
    × (s.ml_id ≡ "s1")
    × (s.start_time ≡ 1000)
    × (s.ml_duration ≡ none)
    × ((m : MlCommand)
        → Memᴰ m s.ml_commands
          ↔ ((c : CoreCommand) × Memᴰ c doc.commands × IsAdapted codec 1000 c m))
core_session_to_ml-commands_iff_example =
    core_session_to_ml-commands_iff codec doc 1000 (λ e. absurd (cc)) refl
