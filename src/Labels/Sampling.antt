-- ===== src/Labels/Sampling.antt =====
-- scripts/sample_for_labeling.py: the stratified sample and the blind record of a session. `Value` is
-- the type of JSON values, which the script copies.
pub mod Strata
use mathlib.Core.List.{Memᴰ}
use mirage_core.Shared.{
  ℕ, ◌≤◌, String, Bool, true, false, ◌||◌, Option, none, some, List, [], ◌∷◌, ◌++◌, map, leb, ◌==◌,
  string_eq, if◌then◌else◌, take,
}
use mirage_core.Shared.Dict.{Dict, lookup, insert}
use mirage_core.Shared.Grouping.{group_by}
use mirage_core.Shared.Sorting.{sort_by}
use mirage_core.Labels.{attacker_classes}

module _ (Value : Type 0) where
  pub record CommandRow : Type 0 where
    pub session_id : String
    pub sequence_number : ℕ
    pub timestamp_ms : Value
    pub working_directory : Value
    pub raw_command : Value
    pub response : Value
    pub bait_hit : Value
    pub bait_type : Value

  pub record ExportedSession : Type 0 where
    pub session_id : String
    pub attacker_class : Option String
    pub classifier_confidence : Value
    pub ssh_client_banner : Value
    pub start_ms : Value
    pub duration_ms : Value
    pub command_count : Value
    pub bait_hit_count : Value
    pub auth_attempt_count : Value
    pub unique_usernames_tried : Value
    pub top_username : Value

  -- What the reviewer sees of a command and of a session.
  pub record QueueCommand : Type 0 where
    pub sequence_number : ℕ
    pub timestamp_ms : Value
    pub working_directory : Value
    pub raw_command : Value
    pub response : Value
    pub bait_hit : Value
    pub bait_type : Value

  pub record QueueRecord : Type 0 where
    pub session_id : String
    pub ssh_client_banner : Value
    pub start_ms : Value
    pub duration_ms : Value
    pub command_count : Value
    pub bait_hit_count : Value
    pub auth_attempt_count : Value
    pub unique_usernames_tried : Value
    pub top_username : Value
    pub commands : List QueueCommand

  -- `rng.shuffle` of `random.Random`: a state, and a shuffle that only reorders.
  pub record Shuffler : Type 1 where
    pub State : Type 0
    pub shuffle : List ExportedSession → State → List ExportedSession × State
    pub mem-shuffle :
        (xs : List ExportedSession) (s : State) (x : ExportedSession)
        → Memᴰ x (shuffle xs s).0
        → Memᴰ x xs

-- `id in already_labeled`
pub is_labeled : List String → String → Bool
is_labeled [] id = false
is_labeled (x ∷ xs) id = x == id || is_labeled xs id

module _ {Value : Type 0} where
  by_sequence : CommandRow Value → CommandRow Value → Bool
  by_sequence a b = leb a.sequence_number b.sequence_number

  pub group_commands_by_session : List (CommandRow Value) → Dict String (List (CommandRow Value))
  unfolding group_by by_sequence
  group_commands_by_session commands =
      map (λ p. (p.0, sort_by by_sequence p.1))
        (group_by (λ (c : CommandRow Value). c.session_id) (λ c. c) [] commands)

  queue_command : CommandRow Value → QueueCommand Value
  queue_command c = record {
    sequence_number = c.sequence_number;
    timestamp_ms = c.timestamp_ms;
    working_directory = c.working_directory;
    raw_command = c.raw_command;
    response = c.response;
    bait_hit = c.bait_hit;
    bait_type = c.bait_type;
  }

  pub build_queue_record : ExportedSession Value → List (CommandRow Value) → QueueRecord Value
  unfolding queue_command
  build_queue_record session commands = record {
    session_id = session.session_id;
    ssh_client_banner = session.ssh_client_banner;
    start_ms = session.start_ms;
    duration_ms = session.duration_ms;
    command_count = session.command_count;
    bait_hit_count = session.bait_hit_count;
    auth_attempt_count = session.auth_attempt_count;
    unique_usernames_tried = session.unique_usernames_tried;
    top_username = session.top_username;
    commands = map queue_command commands;
  }

  -- The body of the first loop of `stratified_sample`.
  file_session :
      List String
      → ExportedSession Value
      → Dict String (List (ExportedSession Value))
      → Dict String (List (ExportedSession Value))
  unfolding is_labeled
  file_session already_labeled s by_class = elim s.attacker_class [
    | none ↦ by_class
    | some cls ↦ elim (lookup cls by_class) [
      | none ↦ by_class
      | some rows ↦
          if is_labeled already_labeled s.session_id
          then by_class
          else insert cls (rows ++ s ∷ []) by_class
    ]
  ]

  file_all :
      List String
      → List (ExportedSession Value)
      → Dict String (List (ExportedSession Value))
      → Dict String (List (ExportedSession Value))
  unfolding file_session
  file_all already_labeled [] by_class = by_class
  file_all already_labeled (s ∷ sessions) by_class =
      file_all already_labeled sessions (file_session already_labeled s by_class)

  abbrev no_sessions : Dict String (List (ExportedSession Value))
  no_sessions = map (λ cls. (cls, [])) attacker_classes

module _ {Value : Type 0} (rng : Shuffler Value) where
  open rng use {State, shuffle}

  sample_classes :
      ℕ
      → Dict String (List (ExportedSession Value))
      → State
      → Dict String (List (ExportedSession Value))
  sample_classes per_class [] s = []
  sample_classes per_class ((cls, rows) ∷ by_class) s =
      let (shuffled, s') = shuffle rows s in
      (cls, take per_class shuffled) ∷ sample_classes per_class by_class s'

  -- `stratified_sample`; the state is that of `random.Random(seed)`.
  unfoldable pub stratified_sample :
      List (ExportedSession Value)
      → ℕ
      → List String
      → State
      → Dict String (List (ExportedSession Value))
  unfolding file_all sample_classes
  stratified_sample sessions per_class already_labeled s =
      sample_classes per_class (file_all already_labeled sessions no_sessions) s
