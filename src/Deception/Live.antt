-- ===== src/Deception/Live.antt =====
-- ml/mirage/deception/live.py: the categories of live commands, and the tracker of each live session.
-- `re.search`, the policy and the clock are parameters, a time is a number. A cap of 0 steps, at which
-- the source divides by 0, is outside the model.
pub mod Mirror
pub mod Sessions
use mirage_core.Shared.{
  ℕ, zero, suc, ◌+◌, ◌-◌, min, Bool, true, false, not, ◌||◌, Option, none, some, String, List, [],
  ◌∷◌, ◌++◌, map, keep, ltb, if◌then◌else◌, length, ◌==◌, string_eq,
}
use mirage_core.Shared.Dict.{Dict, lookup, insert}
use mirage_core.Deception.{
  Category, recon, download, read_sensitive, escalate, exfil, DeceptionAction, action_at,
}
use mirage_core.Deception.Env.{World, category_part, sensitive_entry, add_category}

-- The rules in the order of `_CATEGORY_RULES`, each as the search by its pattern.
pub record Patterns : Type 0 where
  pub is_blank : String → Bool
  pub exfil_re : String → Bool
  pub sensitive_file_re : String → Bool
  pub escalate_re : String → Bool
  pub download_re : String → Bool

unfoldable pub category_rules : Patterns → List (Category × (String → Bool))
category_rules re =
    (exfil, re.exfil_re)
    ∷ (read_sensitive, re.sensitive_file_re)
    ∷ (escalate, re.escalate_re)
    ∷ (download, re.download_re)
    ∷ []

unfoldable pub first_rule : String → List (Category × (String → Bool)) → Category
first_rule command [] = recon
first_rule command ((category, search) ∷ rules) =
    let later = first_rule command rules in if search command then category else later

unfoldable pub categorize_live_command : Patterns → String → Category
categorize_live_command re command =
    if re.is_blank command then recon else first_rule command (category_rules re)

pub record LiveSessionTracker : Type 0 where
  pub max_steps : ℕ
  pub step_idx : ℕ
  pub commands_captured : ℕ
  pub bait_captured : ℕ
  pub seen_categories : List Category
  pub last_seen : ℕ

module _ (w : World) where
  -- `observe`, before the engine rounds it to float32
  unfoldable pub live_observe : LiveSessionTracker → Category → List w.Float
  live_observe s category =
      w.min_one (w.ratio s.step_idx s.max_steps) ∷ category_part w category
      ++ w.min_one (w.ratio s.commands_captured s.max_steps)
        ∷ w.ratio (length s.seen_categories) 5
        ∷ w.ratio (min s.bait_captured 3) 3
        ∷ sensitive_entry w category
        ∷ []

unfoldable pub advance : Category → Bool → ℕ → LiveSessionTracker → LiveSessionTracker
advance category bait_hit time s = record s {
  commands_captured = suc s.commands_captured;
  seen_categories = add_category category s.seen_categories;
  bait_captured = if bait_hit then suc s.bait_captured else s.bait_captured;
  step_idx = suc s.step_idx;
  last_seen = time;
}

-- The sessions of a `LiveDeceptionEngine`, under its settings.
pub record Engine : Type 0 where
  pub max_steps : ℕ
  pub ttl : ℕ
  pub sessions : Dict String LiveSessionTracker

unfoldable pub evict_stale : ℕ → Engine → Engine
evict_stale now e = record e {
  sessions =
      keep (λ (p : String × LiveSessionTracker). not (ltb e.ttl (now - p.1.last_seen))) e.sessions;
}

-- The tracker of a session, a new one if it has none.
unfoldable pub get_tracker : String → ℕ → Engine → LiveSessionTracker
get_tracker id time e = elim (lookup id e.sessions) [
  | none ↦ record {
    max_steps = e.max_steps;
    step_idx = 0;
    commands_captured = 0;
    bait_captured = 0;
    seen_categories = [];
    last_seen = time;
  }
  | some tracker ↦ tracker
]

pub record Decision : Type 0 where
  pub action : DeceptionAction
  pub category : Category

module _ (w : World) (re : Patterns) (select_action : List w.Float → ℕ) where
  -- `decide` at the time `now`. An action that is none of the five raises after the tracker has
  -- advanced: `none`, with the engine as it is then.
  unfoldable pub decide : String → String → Bool → ℕ → Engine → Option Decision × Engine
  decide id command bait_hit now e =
      let category = categorize_live_command re command in
      let evicted = evict_stale now e in
      let tracker = get_tracker id now evicted in
      let action = select_action (map w.as_float32 (live_observe w tracker category)) in
      let after : Engine = record evicted {
        sessions = insert id (advance category bait_hit now tracker) evicted.sessions;
      } in
      elim (action_at action) [
        | none ↦ (none, after)
        | some act ↦ (some (record { action = act; category = category }), after)
      ]
