-- ===== src/Bridge/Adapter.antt =====
-- bridge/schema_adapter.py: from a session document of the core to a session of the models. A key that
-- is missing or null is `none`, a datetime is its milliseconds, and base64 and blank lines are
-- parameters. The TypeError of a null sort key and times out of the range of datetimes are outside
-- the model.
pub mod Sessions
mod Witnesses
use Prim.Native.String.{◌++◌ as str_append}
use mirage_core.Shared.{
  ℕ, ◌-◌, ◌≡◌, Bool, true, false, ◌&&◌, ◌||◌, Option, none, some, String, List, [], ◌∷◌, ltb, leb,
  if◌then◌else◌, ◌==◌, nat_eq, string_eq, filter_some,
}
use mirage_core.Shared.Dict.{Dict, lookup}
use mirage_core.Shared.Sorting.{sort_by}

-- `base64.b64decode` and `decode` with the errors that are caught as `none`; `not raw.strip()`.
pub record Codec : Type 0 where
  pub b64decode : String → Option String
  pub is_blank : String → Bool

pub record CoreCommand : Type 0 where
  pub sequence_number : Option ℕ
  pub timestamp_ms : Option ℕ
  pub raw_input_b64 : Option String
  pub parsed_command : Option String
  pub parsed_args : Option (List String)

pub record CoreBait : Type 0 where
  pub bait_type : Option String
  pub bait_ms : Option ℕ

-- The session document; `start_ms` and `duration_ms` stand under its timing.
pub record CoreSession : Type 0 where
  pub session_id : Option String
  pub start_ms : Option ℕ
  pub duration_ms : Option ℕ
  pub client_ip : Option String
  pub commands : List CoreCommand
  pub bait_interactions : List CoreBait

pub record MlCommand : Type 0 where
  pub timestamp : ℕ
  pub raw : String
  pub ms_offset : ℕ

pub record BaitInteraction : Type 0 where
  pub ml_type : String
  pub bait_time : ℕ

pub record MlSession : Type 0 where
  pub ml_id : String
  pub ip : String
  pub start_time : ℕ
  pub ml_commands : List MlCommand
  pub ml_baits : List BaitInteraction
  pub ml_duration : Option ℕ

abbrev pub core_to_ml_bait : Dict String String
core_to_ml_bait =
    ("private_key", "ssh_key")
    ∷ ("credential", "ssh_key")
    ∷ ("env_file", "env_file")
    ∷ ("config", "env_file")
    ∷ ("shadow", "shadow")
    ∷ []

-- `x or default`, where the empty text is false too
abbrev pub text_or : String → Option String → String
text_or default none = default
text_or default (some s) = if s == "" then default else s

abbrev pub number_or_zero : Option ℕ → ℕ
number_or_zero none = 0
number_or_zero (some n) = n

-- `" ".join(args)`, each after a blank
unfoldable pub spaced : List String → String
spaced [] = ""
spaced (a ∷ args) = str_append " " (str_append a (spaced args))

-- The verb and its arguments.
unfoldable pub rebuilt : CoreCommand → String
rebuilt c =
    let parsed = text_or "" c.parsed_command in
    elim c.parsed_args [
      | none ↦ parsed
      | some args ↦ if parsed == "" then parsed else str_append parsed (spaced args)
    ]

module _ (codec : Codec) where
  -- `_decode_raw`
  unfoldable pub decode_raw : CoreCommand → String
  decode_raw c =
      let blob = text_or "" c.raw_input_b64 in
      if blob == ""
      then rebuilt c
      else elim (codec.b64decode blob) [ none ↦ rebuilt c | some raw ↦ raw ]

  -- One round of the loop of `_adapt_commands`; the offset is clamped at 0.
  unfoldable pub adapt_command : ℕ → CoreCommand → Option MlCommand
  adapt_command start c = elim c.timestamp_ms [
    | none ↦ none
    | some ts ↦
        if codec.is_blank (decode_raw c)
        then none
        else some (record { timestamp = ts; raw = decode_raw c; ms_offset = ts - start })
  ]

  -- The order of the pairs of sequence number and time.
  unfoldable pub no_later : CoreCommand → CoreCommand → Bool
  no_later a b =
      let m = number_or_zero a.sequence_number in
      let n = number_or_zero b.sequence_number in
      ltb m n || (m == n && leb (number_or_zero a.timestamp_ms) (number_or_zero b.timestamp_ms))

  -- `_adapt_commands`
  unfoldable pub adapt_commands : ℕ → List CoreCommand → List MlCommand
  adapt_commands start commands = filter_some (adapt_command start) (sort_by no_later commands)

-- One round of the loop of `_adapt_bait`
unfoldable pub adapt_one_bait : CoreBait → Option BaitInteraction
adapt_one_bait e = elim (lookup (text_or "" e.bait_type) core_to_ml_bait) [
  | none ↦ none
  | some ml ↦ elim e.bait_ms [
    | none ↦ none
    | some ts ↦ some (record { ml_type = ml; bait_time = ts })
  ]
]

-- `_adapt_bait`
unfoldable pub adapt_bait : List CoreBait → List BaitInteraction
adapt_bait events = filter_some adapt_one_bait events

-- The session, or the SchemaAdaptationError.
pub data Adapted : Type 0 where
  missing_session_id : Adapted
  missing_start : String → Adapted
  adapted : MlSession → Adapted

unfoldable pub core_session_to_ml : Codec → CoreSession → Adapted
core_session_to_ml codec doc =
    let id = text_or "" doc.session_id in
    if id == "" then missing_session_id else elim doc.start_ms [
      | none ↦ missing_start id
      | some start ↦ adapted (record {
        ml_id = id;
        ip = text_or "0.0.0.0" doc.client_ip;
        start_time = start;
        ml_commands = adapt_commands codec start doc.commands;
        ml_baits = adapt_bait doc.bait_interactions;
        ml_duration = doc.duration_ms;
      })
    ]
