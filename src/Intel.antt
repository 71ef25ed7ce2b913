-- ===== src/Intel.antt =====
-- ml/mirage/intel: the records of a live session that the rules read (ingest.py).
pub mod Mitre
pub mod Taxonomy
pub mod Tools
mod Witnesses
use Prim.Native.String.{◌++◌ as str_append}
use mirage_core.Shared.{
  ℕ, zero, suc, String, Bool, List, [], ◌∷◌, max, ◌==◌, string_eq, if◌then◌else◌,
}

pub record AuthAttempt : Type 0 where
  pub method : String
  pub username : String
  pub success : Bool

pub record BaitEvent : Type 0 where
  pub bait_type : String
  pub access_type : String

-- The parts of a session that the rules read.
pub record ProductionSession : Type 0 where
  pub raw_commands : List String
  pub auth_attempts : List AuthAttempt
  pub bait_events : List BaitEvent

-- `"\\n".join(lines)`
unfoldable pub join_lines : List String → String
join_lines [] = ""
join_lines (l ∷ []) = l
join_lines (l ∷ k ∷ ls) = str_append l (str_append "\n" (join_lines (k ∷ ls)))

-- `text[:n]`
abbrev pub cut_text : ℕ → String → String
cut_text zero s = String.[]
cut_text (suc n) String.[] = String.[]
cut_text (suc n) (String.◌∷◌ c s) = String.◌∷◌ c (cut_text n s)

-- `BaitEvent.escalation`
unfoldable pub escalation : BaitEvent → ℕ
escalation b =
    if b.access_type == "read"
    then 1
    else if b.access_type == "copy"
    then 2
    else if b.access_type == "exfil_attempt"
    then 3
    else 0

highest : List BaitEvent → ℕ
unfolding escalation
highest [] = 0
highest (b ∷ bs) = max (escalation b) (highest bs)

pub max_bait_escalation : ProductionSession → ℕ
unfolding highest
max_bait_escalation prod = highest prod.bait_events
