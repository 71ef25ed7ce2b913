-- ===== src/Intel/Mitre.antt =====
-- ml/mirage/intel/mitre.py: the ATT&CK techniques of a session. `search pattern text` is `re.search`
-- with `re.I`, for the text of the match; `repr` and `show` format a text and a number.
pub mod Called
pub mod Calls
pub mod Hits
pub mod Rules
pub mod Techniques
pub mod Users
use Prim.Native.String.{◌++◌ as str_append, compare}
use text.Mathlib.Text.{is_le}
use mirage_core.Shared.{
  ℕ, zero, suc, String, Bool, true, false, ◌||◌, ◌&&◌, Option, none, some, List, [], ◌∷◌, ◌++◌, map,
  ltb, leb, ◌==◌, nat_eq, string_eq, if◌then◌else◌, length, keep,
}
use mirage_core.Shared.Dict.{Dict, lookup, set_default, dict_values}
use mirage_core.Shared.Sorting.{sort_by}
use mirage_core.Intel.{ProductionSession, AuthAttempt, BaitEvent, join_lines, cut_text}

pub record Technique : Type 0 where
  pub id : String
  pub name : String
  pub tactic : String

pub record TechniqueHit : Type 0 where
  pub technique : Technique
  pub evidence : String

abbrev pub execution_shell : Technique
execution_shell = record {
  id = "T1059.004";
  name = "Command and Scripting Interpreter: Unix Shell";
  tactic = "Execution";
}

abbrev ingress_tool : Technique
ingress_tool = record {
  id = "T1105";
  name = "Ingress Tool Transfer";
  tactic = "Command and Control";
}

abbrev perms_mod : Technique
perms_mod = record {
  id = "T1222";
  name = "File and Directory Permissions Modification";
  tactic = "Defense Evasion";
}

abbrev sys_info : Technique
sys_info = record { id = "T1082"; name = "System Information Discovery"; tactic = "Discovery" }

abbrev user_discovery : Technique
user_discovery = record { id = "T1033"; name = "System Owner/User Discovery"; tactic = "Discovery" }

abbrev file_discovery : Technique
file_discovery = record {
  id = "T1083";
  name = "File and Directory Discovery";
  tactic = "Discovery";
}

abbrev account_discovery : Technique
account_discovery = record { id = "T1087"; name = "Account Discovery"; tactic = "Discovery" }

abbrev net_discovery : Technique
net_discovery = record { id = "T1046"; name = "Network Service Discovery"; tactic = "Discovery" }

abbrev ssh_keys : Technique
ssh_keys = record {
  id = "T1098.004";
  name = "Account Manipulation: SSH Authorized Keys";
  tactic = "Persistence";
}

abbrev cron : Technique
cron = record { id = "T1053.003"; name = "Scheduled Task/Job: Cron"; tactic = "Persistence" }

abbrev create_account : Technique
create_account = record {
  id = "T1136.001";
  name = "Create Account: Local Account";
  tactic = "Persistence";
}

abbrev clear_history : Technique
clear_history = record {
  id = "T1070.003";
  name = "Indicator Removal: Clear Command History";
  tactic = "Defense Evasion";
}

abbrev impair_defenses : Technique
impair_defenses = record {
  id = "T1562.001";
  name = "Impair Defenses: Disable or Modify Tools";
  tactic = "Defense Evasion";
}

abbrev resource_hijack : Technique
resource_hijack = record { id = "T1496"; name = "Resource Hijacking"; tactic = "Impact" }

abbrev sudo : Technique
sudo = record {
  id = "T1548.003";
  name = "Abuse Elevation Control Mechanism: Sudo and Sudo Caching";
  tactic = "Privilege Escalation";
}

abbrev creds_in_files : Technique
creds_in_files = record {
  id = "T1552.001";
  name = "Unsecured Credentials: Credentials In Files";
  tactic = "Credential Access";
}

abbrev private_keys : Technique
private_keys = record {
  id = "T1552.004";
  name = "Unsecured Credentials: Private Keys";
  tactic = "Credential Access";
}

abbrev etc_shadow : Technique
etc_shadow = record {
  id = "T1003.008";
  name = "OS Credential Dumping: /etc/passwd and /etc/shadow";
  tactic = "Credential Access";
}

abbrev pub brute_force : Technique
brute_force = record { id = "T1110"; name = "Brute Force"; tactic = "Credential Access" }

abbrev pub valid_accounts : Technique
valid_accounts = record { id = "T1078"; name = "Valid Accounts"; tactic = "Initial Access" }

abbrev pub exfil_c2 : Technique
exfil_c2 = record { id = "T1041"; name = "Exfiltration Over C2 Channel"; tactic = "Exfiltration" }

abbrev pub password_guessing : Technique
password_guessing = record {
  id = "T1110.001";
  name = "Brute Force: Password Guessing";
  tactic = "Credential Access";
}

abbrev pub password_spraying : Technique
password_spraying = record {
  id = "T1110.003";
  name = "Brute Force: Password Spraying";
  tactic = "Credential Access";
}

abbrev pub command_rules : List (String × Technique)
command_rules =
    ("\\b(?:wget|curl|tftp|ftpget|scp)\\b", ingress_tool)
    ∷ ("\\bchmod\\b", perms_mod)
    ∷ ("\\b(?:uname|lscpu|nproc|lsb_release|hostnamectl)\\b|/proc/(?:cpuinfo|version)", sys_info)
    ∷ ("\\b(?:whoami|id)\\b", user_discovery)
    ∷ ("\\b(?:ls|find|locate)\\b", file_discovery)
    ∷ ("/etc/passwd", account_discovery)
    ∷ ("\\b(?:netstat|ss|nmap|arp|ifconfig|ip\\s+a)\\b", net_discovery)
    ∷ ("authorized_keys", ssh_keys)
    ∷ ("\\bcrontab\\b|/etc/cron", cron)
    ∷ ("\\b(?:useradd|adduser)\\b", create_account)
    ∷ ("history\\s+-c|unset\\s+HISTFILE|>\\s*~?/?\\.bash_history", clear_history)
    ∷ ("iptables\\s+-F|ufw\\s+disable|\\bchattr\\b|setenforce\\s+0", impair_defenses)
    ∷ ("xmrig|minerd|cpuminer|stratum\\+tcp|--donate-level", resource_hijack)
    ∷ ("\\bsudo\\b|\\bsu\\s", sudo)
    ∷ ("\\.env\\b", creds_in_files)
    ∷ ("/etc/shadow", etc_shadow)
    ∷ []

abbrev pub bait_type_technique : Dict String Technique
bait_type_technique =
    ("private_key", private_keys)
    ∷ ("shadow", etc_shadow)
    ∷ ("env_file", creds_in_files)
    ∷ ("credential", creds_in_files)
    ∷ ("config", creds_in_files)
    ∷ []

abbrev tactic_order : Dict String ℕ
tactic_order =
    ("Initial Access", 0)
    ∷ ("Execution", 1)
    ∷ ("Persistence", 2)
    ∷ ("Privilege Escalation", 3)
    ∷ ("Defense Evasion", 4)
    ∷ ("Credential Access", 5)
    ∷ ("Discovery", 6)
    ∷ ("Command and Control", 7)
    ∷ ("Exfiltration", 8)
    ∷ ("Impact", 9)
    ∷ []

-- `_TACTIC_ORDER.get(tactic, 99)`
pub rank : TechniqueHit → ℕ
rank h = elim (lookup h.technique.tactic tactic_order) [ none ↦ 99 | some n ↦ n ]

-- The order of the sort key `(rank, id)`.
pub in_order : TechniqueHit → TechniqueHit → Bool
unfolding rank
in_order a b =
    ltb (rank a) (rank b) || (rank a == rank b && is_le (compare a.technique.id b.technique.id))

abbrev pub hit : Technique → String → TechniqueHit
hit t evidence = record { technique = t; evidence = evidence }

pub is_password : AuthAttempt → Bool
is_password a = a.method == "password" || a.method == "keyboard-interactive"

pub any_success : List AuthAttempt → Bool
any_success [] = false
any_success (a ∷ attempts) = a.success || any_success attempts

contains_name : String → List String → Bool
contains_name x [] = false
contains_name x (y ∷ ys) = y == x || contains_name x ys

-- `len({a.username for a in attempts})`
pub distinct_users : List AuthAttempt → ℕ
unfolding contains_name
distinct_users [] = 0
distinct_users (a ∷ attempts) =
    let rest = distinct_users attempts in
    if contains_name a.username (map (λ b. b.username) attempts) then rest else suc rest

-- `add` for each call: the first evidence of a technique stays.
pub add_all : Dict String TechniqueHit → List TechniqueHit → Dict String TechniqueHit
add_all hits [] = hits
add_all hits (h ∷ hs) = add_all (set_default h.technique.id h hits) hs

module _ (search : String → String → Option String) (repr : String → String)
    (show : ℕ → String) where
  matched : String → String → String
  matched pattern text =
      str_append "command matched /"
        (str_append (cut_text 40 pattern) (str_append "/ (" (str_append (repr text) ")")))

  rule_hits : List (String × Technique) → String → List TechniqueHit
  unfolding matched
  rule_hits [] blob = []
  rule_hits ((pattern, t) ∷ rules) blob =
      let rest = rule_hits rules blob in
      elim (search pattern blob) [ none ↦ rest | some text ↦ hit t (matched pattern text) ∷ rest ]

  -- The argument is the attempts with a password.
  guess_hits : List AuthAttempt → List TechniqueHit
  guess_hits passwords =
      let n = length passwords in
      if ltb 0 n
      then hit brute_force (str_append (show n) " credential attempt(s)")
        ∷ hit password_guessing (str_append (show n) " password attempt(s)")
        ∷ []
      else []

  spray_hits : List AuthAttempt → List TechniqueHit
  unfolding distinct_users
  spray_hits passwords =
      let n = distinct_users passwords in
      if leb 3 n
      then hit password_spraying (str_append (show n) " distinct usernames targeted") ∷ []
      else []

  accepted_hits : List AuthAttempt → List TechniqueHit
  unfolding any_success
  accepted_hits attempts =
      if any_success attempts
      then hit valid_accounts "accepted credential (honeypot grants access)" ∷ []
      else []

  auth_hits : List AuthAttempt → List TechniqueHit
  unfolding is_password guess_hits spray_hits accepted_hits
  auth_hits attempts =
      guess_hits (keep is_password attempts)
      ++ spray_hits (keep is_password attempts)
      ++ accepted_hits attempts

  type_hits : BaitEvent → List TechniqueHit
  type_hits bait = elim (lookup bait.bait_type bait_type_technique) [
    | none ↦ []
    | some t ↦
        hit t (str_append "bait " (str_append bait.bait_type (str_append " " bait.access_type)))
        ∷ []
  ]

  exfil_hits : BaitEvent → List TechniqueHit
  exfil_hits bait =
      if bait.access_type == "exfil_attempt"
      then hit exfil_c2 (str_append "exfil attempt on " (str_append bait.bait_type " bait")) ∷ []
      else []

  bait_hits : BaitEvent → List TechniqueHit
  unfolding type_hits exfil_hits
  bait_hits bait = type_hits bait ++ exfil_hits bait

  all_bait_hits : List BaitEvent → List TechniqueHit
  unfolding bait_hits
  all_bait_hits [] = []
  all_bait_hits (b ∷ baits) = bait_hits b ++ all_bait_hits baits

  shell_hits : List String → List TechniqueHit
  shell_hits [] = []
  shell_hits (_ ∷ _) = hit execution_shell "shell commands executed" ∷ []

  -- The calls of `add`, in their order.
  pub calls : ProductionSession → List TechniqueHit
  unfolding rule_hits auth_hits all_bait_hits shell_hits join_lines
  calls prod =
      shell_hits prod.raw_commands
      ++ rule_hits command_rules (join_lines prod.raw_commands)
      ++ auth_hits prod.auth_attempts
      ++ all_bait_hits prod.bait_events

  pub map_mitre : ProductionSession → List TechniqueHit
  unfolding add_all calls in_order
  map_mitre prod = sort_by in_order (dict_values (add_all [] (calls prod)))

  unfoldable pub map_mitre_ids : ProductionSession → List String
  unfolding map_mitre
  map_mitre_ids prod = map (λ h. h.technique.id) (map_mitre prod)
