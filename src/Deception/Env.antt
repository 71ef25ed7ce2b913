-- ===== src/Deception/Env.antt =====
-- ml/mirage/deception/environment.py: the simulated attacker, and the loop of an episode in
-- `evaluate_policy` of train.py. Floats, `math.exp` and the two random generators are `World`; its
-- `ratio` of two counts is total, so a cap of 0 steps, at which the source divides by 0, is outside
-- the model.
pub mod Episodes
use mirage_core.Shared.{
  ℕ, zero, suc, ◌+◌, min, Bool, true, false, not, ◌||◌, Option, none, some, String, List, [], ◌∷◌,
  ◌++◌, map, leb, if◌then◌else◌, length, ◌==◌, nat_eq,
}
use mirage_core.Deception.{
  Category, recon, download, read_sensitive, escalate, exfil, cat_index, is_sensitive, category_eq,
  DeceptionAction, action_at, Hundredths, plus, minus, is_positive, Effects, effects,
}

pub record Archetype : Type 0 where
  pub name : String
  pub preferences : List Hundredths
  pub persistence : Hundredths

abbrev pub archetypes : List Archetype
archetypes =
    record {
      name = "automated_scanner";
      preferences = plus 600 ∷ plus 300 ∷ plus 30 ∷ plus 20 ∷ plus 10 ∷ [];
      persistence = plus 20;
    }
    ∷ record {
      name = "script_kiddie";
      preferences = plus 300 ∷ plus 500 ∷ plus 100 ∷ plus 100 ∷ plus 50 ∷ [];
      persistence = plus 60;
    }
    ∷ record {
      name = "manual_recon";
      preferences = plus 600 ∷ plus 200 ∷ plus 200 ∷ plus 100 ∷ plus 30 ∷ [];
      persistence = plus 100;
    }
    ∷ record {
      name = "apt";
      preferences = plus 200 ∷ plus 200 ∷ plus 300 ∷ plus 300 ∷ plus 250 ∷ [];
      persistence = plus 140;
    }
    ∷ []

pub record World : Type 1 where
  pub Float : Type 0
  pub literal : Hundredths → Float
  -- the quotient of two numbers of type `int`
  pub ratio : ℕ → ℕ → Float
  pub add : Float → Float → Float
  pub sub : Float → Float → Float
  -- `1.0 / (1.0 + math.exp(-x))`
  pub logistic : Float → Float
  pub lt : Float → Float → Bool
  -- `min(x, 1.0)`
  pub min_one : Float → Float
  pub as_float32 : Float → Float
  -- `random.Random`: `random`, and `choices` with weights and k = 1
  pub Rng : Type 0
  pub random : Rng → Float × Rng
  pub choose : Option (List Float) → List Archetype → Rng → Archetype × Rng
  -- numpy's generator: `choice` by the distribution of the preferences
  pub NpRng : Type 0
  pub sample : List Hundredths → NpRng → Category × NpRng

-- The entries of an observation, before they are rounded.
module _ (w : World) where
  open w use {Float, literal, ratio}

  abbrev one_hot : ℕ → ℕ → Float
  one_hot i k = if i == k then literal (plus 100) else literal (plus 0)

  -- The category's part of an observation and the entry for sensitive ones are the same in training
  -- and live.
  unfoldable pub category_part : Category → List Float
  category_part c =
      one_hot (cat_index c) 0
      ∷ one_hot (cat_index c) 1
      ∷ one_hot (cat_index c) 2
      ∷ one_hot (cat_index c) 3
      ∷ one_hot (cat_index c) 4
      ∷ []

  unfoldable pub sensitive_entry : Category → Float
  sensitive_entry c = if is_sensitive c then literal (plus 100) else literal (plus 0)

-- `c in seen`
unfoldable pub has : Category → List Category → Bool
has c [] = false
has c (d ∷ ds) = d == c || has c ds

-- `seen.add(c)`
unfoldable pub add_category : Category → List Category → List Category
add_category c seen = if has c seen then seen else seen ++ c ∷ []

module _ (w : World) where
  open w use {Float, literal, ratio, add, sub, logistic, lt, as_float32}

  pub record DeceptionConfig : Type 0 where
    pub max_steps : ℕ
    pub decay : Float
    pub archetype_weights : Option (List Float)
    pub novelty_bonus : Float

  -- `DeceptionEnv`
  pub record DeceptionEnv : Type 0 where
    pub archetype : Archetype
    pub goodwill : Float
    pub step_idx : ℕ
    pub current_category : Category
    pub seen_categories : List Category
    pub commands_captured : ℕ
    pub bait_captured : ℕ
    pub done : Bool
    pub rng : w.Rng
    pub np_rng : w.NpRng

  pub record Info : Type 0 where
    pub category : Category
    pub action : DeceptionAction
    pub archetype_name : String
    pub info_goodwill : Float
    pub info_bait : ℕ
    pub info_commands : ℕ

  -- What `step` does: it raises RuntimeError or ValueError, or it returns.
  pub data Stepped : Type 0 where
    finished_episode : Stepped
    unknown_action : Stepped
    stepped : List Float → Float → Bool → Info → DeceptionEnv → Stepped

  -- `_observe`, a vector of float32
  unfoldable pub observe : DeceptionConfig → DeceptionEnv → List Float
  observe cfg s = map as_float32 (
      ratio s.step_idx cfg.max_steps ∷ category_part w s.current_category
      ++ ratio s.commands_captured cfg.max_steps
        ∷ ratio (length s.seen_categories) 5
        ∷ ratio (min s.bait_captured 3) 3
        ∷ sensitive_entry w s.current_category
        ∷ [])

  unfoldable pub reset : DeceptionConfig → DeceptionEnv → List Float × DeceptionEnv
  reset cfg s =
      let (archetype, rng) = w.choose cfg.archetype_weights archetypes s.rng in
      let (category, np_rng) = w.sample archetype.preferences s.np_rng in
      let fresh : DeceptionEnv = record {
        archetype = archetype;
        goodwill = literal archetype.persistence;
        step_idx = 0;
        current_category = category;
        seen_categories = [];
        commands_captured = 0;
        bait_captured = 0;
        done = false;
        rng = rng;
        np_rng = np_rng;
      } in
      (observe cfg fresh, fresh)

  -- The reward of a step
  unfoldable pub reward_of : DeceptionConfig → List Category → Category → Effects → Float
  reward_of cfg seen category e =
      let base = add (literal (plus 100)) (literal e.capture_bonus) in
      let novel = if has category seen then base else add base cfg.novelty_bonus in
      if is_positive e.bait_gain then add novel (literal e.bait_gain) else novel

  -- The counters and the goodwill after a step, before the attacker decides to stay.
  unfoldable pub capture : DeceptionConfig → Effects → DeceptionEnv → DeceptionEnv
  capture cfg e s = record s {
    seen_categories = add_category s.current_category s.seen_categories;
    bait_captured = if is_positive e.bait_gain then suc s.bait_captured else s.bait_captured;
    commands_captured = suc s.commands_captured;
    goodwill = add s.goodwill (sub (sub (literal e.engagement) (literal e.suspicion)) cfg.decay);
    step_idx = suc s.step_idx;
  }

  -- Whether the attacker leaves or the cap is reached, and otherwise the next command.
  unfoldable pub continue_or_end : DeceptionConfig → DeceptionEnv → DeceptionEnv
  continue_or_end cfg s =
      let (drawn, rng) = w.random s.rng in
      let (category, np_rng) = w.sample s.archetype.preferences s.np_rng in
      if lt (logistic s.goodwill) drawn || leb cfg.max_steps s.step_idx
      then record s { done = true; rng = rng }
      else record s { current_category = category; rng = rng; np_rng = np_rng }

  abbrev pub info_of : Category → DeceptionAction → DeceptionEnv → Info
  info_of category act after = record {
    category = category;
    action = act;
    archetype_name = after.archetype.name;
    info_goodwill = after.goodwill;
    info_bait = after.bait_captured;
    info_commands = after.commands_captured;
  }

  unfoldable pub apply_action : DeceptionConfig → DeceptionEnv → DeceptionAction → Stepped
  apply_action cfg s act =
      let category = s.current_category in
      let e = effects category act in
      let after = continue_or_end cfg (capture cfg e s) in
      stepped (observe cfg after) (reward_of cfg s.seen_categories category e) after.done
        (info_of category act after) after

  unfoldable pub step : DeceptionConfig → DeceptionEnv → ℕ → Stepped
  step cfg s action =
      if s.done
      then finished_episode
      else elim (action_at action) [ none ↦ unknown_action | some act ↦ apply_action cfg s act ]

  -- What `evaluate_policy` records of an episode.
  pub record Episode : Type 0 where
    pub total : Float
    pub commands : ℕ
    pub baits : ℕ
    pub steps : ℕ

  module _ {P : Type 0} (select_action : P → List Float → ℕ × P) where
    -- The inner loop, which has just got `obs`; `none` is an exception or no fuel.
    unfoldable pub play :
        DeceptionConfig → ℕ → P → List Float → Float → ℕ → DeceptionEnv → Option (Episode × P)
    play cfg zero p obs total steps s = none
    play cfg (suc fuel) p obs total steps s =
        let (action, p') = select_action p obs in
        elim (step cfg s action) [
          | finished_episode ↦ none
          | unknown_action ↦ none
          | stepped obs' reward done info s' ↦ elim done [
            | false ↦ play cfg fuel p' obs' (add total reward) (suc steps) s'
            | true ↦ some (
              record {
                total = add total reward;
                commands = info.info_commands;
                baits = info.info_bait;
                steps = suc steps;
              },
              p',
            )
          ]
        ]

    -- One episode of `evaluate_policy`.
    unfoldable pub run_episode : DeceptionConfig → P → DeceptionEnv → Option (Episode × P)
    run_episode cfg p s =
        let (obs, fresh) = reset cfg s in play cfg cfg.max_steps p obs (literal (plus 0)) 0 fresh
