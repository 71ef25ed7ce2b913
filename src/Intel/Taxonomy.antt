-- ===== src/Intel/Taxonomy.antt =====
-- ml/mirage/intel/taxonomy.py: the weak label of a session, by rules. A confidence is given in
-- hundredths. The share of intervals that are too fast for a human is a float, of which the rules
-- only ask whether it is at least 0.8: the parameter `is_mostly`.
pub mod Classes
use Prim.Native.String.{◌++◌ as str_append}
use mirage_core.Shared.{
  ℕ, String, Bool, true, false, not, ◌||◌, ◌&&◌, ltb, leb, ◌==◌, nat_eq, string_eq, if◌then◌else◌,
}

pub data AttackerClass : Type 0 where
  automated_scanner : AttackerClass
  script_kiddie : AttackerClass
  manual_recon : AttackerClass
  apt : AttackerClass

pub record WeakLabel : Type 0 where
  pub attacker_class : AttackerClass
  pub confidence : ℕ
  pub rationale : String

module _ (Float : Type 0) where
  -- The features that the rules read; `banner_is_automated` and `has_exfil_attempt` are 0 or 1.
  pub record Features : Type 0 where
    pub tool_signature : String
    pub timing_label : String
    pub n_commands : ℕ
    pub max_bait_escalation : ℕ
    pub has_exfil_attempt : ℕ
    pub frac_superhuman : Float
    pub n_auth_attempts : ℕ
    pub n_distinct_usernames : ℕ
    pub banner_is_automated : ℕ

abbrev label : AttackerClass → ℕ → String → WeakLabel
label c confidence rationale = record {
  attacker_class = c;
  confidence = confidence;
  rationale = rationale;
}

pub is_hands_on : String → Bool
is_hands_on tool = tool == "persistence" || tool == "defense_evasion"

pub is_toolkit : String → Bool
is_toolkit tool = tool == "dropper" || tool == "miner" || tool == "ddos_botnet"

pub is_enumeration : String → Bool
is_enumeration tool = tool == "recon" || tool == "other"

module _ {Float : Type 0} (is_mostly : Float → Bool) where
  pub is_automated : Features Float → Bool
  is_automated f = f.timing_label == "automated" || is_mostly f.frac_superhuman

  -- The last two lines.
  fallback : Features Float → WeakLabel
  fallback f =
      if f.timing_label == "human"
      then label manual_recon 50 "human timing, otherwise ambiguous"
      else label automated_scanner 40 "default prior (traffic is bot-dominated)"

  -- The rules for a session with no command.
  auth_only : Features Float → WeakLabel
  unfolding fallback
  auth_only f =
      if ltb 0 f.banner_is_automated
      then label automated_scanner 80 "automated SSH banner, credential-only session"
      else if leb 1 f.n_auth_attempts && leb f.n_distinct_usernames 2
      then label automated_scanner 65 "credential-only session, narrow username target"
      else if leb 1 f.n_auth_attempts
      then label automated_scanner 55 "credential-only session, bot-dominated prior"
      else fallback f

  scanner : Features Float → WeakLabel
  unfolding is_automated auth_only fallback
  scanner f =
      if is_automated f
      then label automated_scanner 70 "automated cadence, no payload"
      else if leb 3 f.n_auth_attempts && leb f.n_commands 2
      then label automated_scanner 60 "brute-force, little/no shell activity"
      else if f.n_commands == 0
      then auth_only f
      else fallback f

  -- The rules behind those for an APT.
  later_rules : Features Float → WeakLabel
  unfolding is_toolkit is_enumeration is_automated scanner
  later_rules f =
      if is_toolkit f.tool_signature
      then (if is_automated f && leb f.n_commands 4
          then label automated_scanner 70
              (str_append "fast scripted " (str_append f.tool_signature " drop"))
          else label script_kiddie 70
              (str_append "ran " (str_append f.tool_signature " toolkit with interaction")))
      else if f.timing_label == "human" && is_enumeration f.tool_signature
      then label manual_recon 70 "human cadence, recon/exploration only"
      else scanner f

  unfoldable pub weak_label : Features Float → WeakLabel
  unfolding is_hands_on is_automated later_rules
  weak_label f =
      if ltb 0 f.has_exfil_attempt || leb 2 f.max_bait_escalation
      then label apt 90 "bait copy/exfil — clear data-theft intent"
      else if is_hands_on f.tool_signature && leb 5 f.n_commands && not (is_automated f)
      then label apt 70
          (str_append "hands-on " (str_append f.tool_signature " across multiple commands"))
      else later_rules f
