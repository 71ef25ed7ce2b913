-- ===== src/Intel/Tools.antt =====
-- ml/mirage/viz/tool_signature.py: the tool family of a session's commands. `search pattern text` tells
-- whether `re.search` with `re.I` finds the pattern.
use Prim.Native.Char.{code}
use mirage_core.Shared.{
  ℕ, ◌+◌, ◌≡◌, refl, String, Bool, true, false, ◌&&◌, Option, none, some, List, [], ◌∷◌, ltb, ◌==◌,
  nat_eq, string_eq, ==_iff, if◌then◌else◌, arith, Bool-cases, inl, inr, All, ◌∙◌,
}
use mirage_core.Shared.Dict.{Dict, lookup, insert, lookup-insert}
use mirage_core.Intel.{join_lines}
use mirage_core.Tokenizer.Normalize.{is_space}

abbrev pub rules : List (String × String)
rules =
    ("miner", "xmrig|minerd|cpuminer|stratum\\+tcp|--donate-level|nicehash")
    ∷ ("ddos_botnet", "busybox|mirai|gafgyt|\\.(?:mips|arm|x86|sh4|ppc)\\b|tftp\\s+-[gr]")
    ∷ ("dropper", "\\b(?:wget|curl|tftp|ftpget)\\b.*?(?:http|ftp|\\d+\\.\\d+\\.\\d+\\.\\d+)")
    ∷ ("persistence", "authorized_keys|crontab|/etc/cron|useradd|adduser|/etc/passwd\\s*>>")
    ∷ ("defense_evasion", "history\\s+-c|>\\s*/var/log|iptables\\s+-F|chattr|unset\\s+HISTFILE")
    ∷ ("recon", "\\b(?:uname|whoami|id|w|lscpu|nproc|free|cat\\s+/proc|ls\\s|lspci)\\b")
    ∷ []

-- `not blob.strip()`
pub is_blank : String → Bool
is_blank String.[] = true
is_blank (String.◌∷◌ c s) = is_space (code c) && is_blank s

count_of : Option ℕ → ℕ
count_of none = 0
count_of (some n) = n

module _ (search : String → String → Bool) where
  -- The counter `hits`
  count_hits : List (String × String) → String → Dict String ℕ → Dict String ℕ
  unfolding count_of
  count_hits [] blob hits = hits
  count_hits ((label, pattern) ∷ rs) blob hits =
      count_hits rs blob
        (if search pattern blob then insert label (count_of (lookup label hits) + 1) hits else hits)

  first_hit : List (String × String) → Dict String ℕ → String
  unfolding count_of
  first_hit [] hits = "other"
  first_hit ((label, _) ∷ rs) hits =
      let rest = first_hit rs hits in if ltb 0 (count_of (lookup label hits)) then label else rest

  -- With no hit the last loop finds none either, and the answer is "other" too.
  unfoldable pub infer_tool_signature : List String → String
  unfolding is_blank count_hits first_hit join_lines
  infer_tool_signature commands =
      let blob = join_lines commands in
      if is_blank blob then "other" else first_hit rules (count_hits rules blob [])

  -- The label of the first rule whose pattern is found.
  abbrev pub first_match : List (String × String) → String → String
  first_match [] blob = "other"
  first_match ((label, pattern) ∷ rs) blob =
      if search pattern blob then label else first_match rs blob

  -- How many rules with this label match.
  abbrev matches : String → List (String × String) → String → ℕ
  matches l [] blob = 0
  matches l ((label, pattern) ∷ rs) blob =
      (if search pattern blob && label == l then 1 else 0) + matches l rs blob

  count_hits-count :
      (l : String) (rs : List (String × String)) (blob : String) (hits : Dict String ℕ)
      → count_of (lookup l (count_hits rs blob hits)) ≡ count_of (lookup l hits) + matches l rs blob
  unfolding count_hits count_of
  count_hits-count l [] blob hits = omega arith
  count_hits-count l ((label, pattern) ∷ rs) blob hits = elim (Bool-cases (search pattern blob)) [
    | inl found ↦ rw found (
        count_hits-count l rs blob (insert label (count_of (lookup label hits) + 1) hits)
        ∙ ground
            (arith, lookup-insert label l (count_of (lookup label hits) + 1) hits, ==_iff label l))
    | inr missed ↦ rw missed (count_hits-count l rs blob hits ∙ omega arith)
  ]

  -- The counter has a label exactly when the pattern of its rule is found.
  abbrev Counted : String → Dict String ℕ → String × String → Type 0
  Counted blob hits rule = ltb 0 (count_of (lookup rule.0 hits)) ≡ search rule.1 blob

  first_hit-first_match :
      (blob : String) (hits : Dict String ℕ) (rs : List (String × String))
      → All (Counted blob hits) rs
      → first_hit rs hits ≡ first_match rs blob
  unfolding first_hit
  first_hit-first_match blob hits [] all_counted = refl
  first_hit-first_match blob hits ((label, pattern) ∷ rs) all_counted =
      rw (all_counted.0, first_hit-first_match blob hits rs all_counted.1) refl

  positive_if : (b : Bool) (n : ℕ) → n ≡ (if b then 1 else 0) → ltb 0 n ≡ b
  positive_if true n e = ground arith
  positive_if false n e = ground arith

  none_before : (n : ℕ) → count_of none + n ≡ n
  unfolding count_of
  none_before n = omega arith

  counted :
      (blob l pattern : String)
      → matches l rules blob ≡ (if search pattern blob then 1 else 0)
      → Counted blob (count_hits rules blob []) (l, pattern)
  counted blob l pattern e =
      positive_if (search pattern blob) (count_of (lookup l (count_hits rules blob [])))
        (count_hits-count l rules blob [] ∙ none_before (matches l rules blob) ∙ e)

  rules-Counted : (blob : String) → All (Counted blob (count_hits rules blob [])) rules
  rules-Counted blob = (
    counted blob _ _ (ground arith),
    (
      counted blob _ _ (ground arith),
      (
        counted blob _ _ (ground arith),
        (
          counted blob _ _ (ground arith),
          (counted blob _ _ (ground arith), (counted blob _ _ (ground arith), tt)),
        ),
      ),
    ),
  )

  -- The two loops over the rules together give the label of the first rule whose pattern is found in
  -- the commands, one to a line, or "other" where they are blank or no pattern is found.
  pub infer_tool_signature-first_match :
      (commands : List String)
      → infer_tool_signature commands ≡ (
          if is_blank (join_lines commands)
          then "other"
          else first_match rules (join_lines commands))
  unfolding infer_tool_signature
  infer_tool_signature-first_match commands =
      let blob = join_lines commands in
      rw (first_hit-first_match blob (count_hits rules blob []) rules (rules-Counted blob)) refl
