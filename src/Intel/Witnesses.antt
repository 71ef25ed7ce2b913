-- ===== src/Intel/Witnesses.antt =====
-- The rules on small sessions: tests, and the theorems at concrete inputs. The search finds a pattern
-- only as the whole text.
use mathlib.Core.List.{Memᴰ, Nodup}
use mirage_core.Shared.{
  ◌≡◌, refl, ◌↔◌, ◌⊎◌, String, Bool, true, false, ◌||◌, Option, none, some, [], ◌∷◌, ◌==◌,
  string_eq, if◌then◌else◌,
}
use mirage_core.Intel.{ProductionSession, join_lines}
use mirage_core.Tokenizer.Normalize.{is_space}
use mirage_core.Intel.Tools.{
  rules, is_blank, first_match, infer_tool_signature, infer_tool_signature-first_match,
}
use mirage_core.Intel.Mitre.{Technique, TechniqueHit, map_mitre, map_mitre_ids}
use mirage_core.Intel.Mitre.Rules.{Applies}
use mirage_core.Intel.Mitre.Techniques.{map_mitre-Applies}
use mirage_core.Intel.Taxonomy.{Features, apt, weak_label}
use mirage_core.Intel.Taxonomy.Classes.{TookBait, HandsOn, weak_label-apt_iff}

abbrev search : String → String → Option String
search pattern text = if pattern == "authorized_keys" then some pattern else none

abbrev session : ProductionSession
session = record {
  raw_commands = "echo k >> authorized_keys" ∷ [];
  auth_attempts =
      record { method = "password"; username = "root"; success = false }
      ∷ record { method = "publickey"; username = "admin"; success = true }
      ∷ [];
  bait_events =
      record { bait_type = "shadow"; access_type = "read" }
      ∷ record { bait_type = "shadow"; access_type = "exfil_attempt" }
      ∷ [];
}

ids :
    map_mitre_ids search (λ s. s) (λ n. "n") session
    ≡ "T1078" ∷ "T1059.004" ∷ "T1098.004" ∷ "T1003.008" ∷ "T1110" ∷ "T1110.001" ∷ "T1041" ∷ []
unfolding map_mitre_ids
ids = refl

map_mitre-Applies_example :
    ((h : TechniqueHit)
      → Memᴰ h (map_mitre search (λ s. s) (λ n. "n") session)
      → Applies search session h.technique)
    × ((t : Technique)
        → Applies search session t
        → Memᴰ t.id (map_mitre_ids search (λ s. s) (λ n. "n") session))
    × Nodup (map_mitre_ids search (λ s. s) (λ n. "n") session)
map_mitre-Applies_example = map_mitre-Applies search (λ s. s) (λ n. "n") session

abbrev features : Features Bool
features = record {
  tool_signature = "persistence";
  timing_label = "human";
  n_commands = 6;
  max_bait_escalation = 1;
  has_exfil_attempt = 0;
  frac_superhuman = false;
  n_auth_attempts = 1;
  n_distinct_usernames = 1;
  banner_is_automated = 0;
}

labelled :
    (weak_label (λ b. b) features).rationale ≡ "hands-on persistence across multiple commands"
unfolding weak_label
labelled = refl

weak_label-apt_iff_example :
    ((weak_label (λ b. b) features).attacker_class ≡ apt)
    ↔ (TookBait (λ b. b) features ⊎ HandsOn (λ b. b) features)
weak_label-apt_iff_example = weak_label-apt_iff (λ b. b) features

-- A search that finds the miner's and the reconnaissance patterns.
abbrev finds : String → String → Bool
finds pattern text =
    pattern == "xmrig|minerd|cpuminer|stratum\\+tcp|--donate-level|nicehash"
    || pattern == "\\b(?:uname|whoami|id|w|lscpu|nproc|free|cat\\s+/proc|ls\\s|lspci)\\b"

tool : infer_tool_signature finds ("id" ∷ "./xmrig" ∷ []) ≡ "miner"
unfolding infer_tool_signature is_space
tool = refl

infer_tool_signature-first_match_example :
    infer_tool_signature finds ("id" ∷ "./xmrig" ∷ [])
    ≡ (if is_blank "id\n./xmrig" then "other" else first_match finds rules "id\n./xmrig")
unfolding join_lines
infer_tool_signature-first_match_example =
    infer_tool_signature-first_match finds ("id" ∷ "./xmrig" ∷ [])
