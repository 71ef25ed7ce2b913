-- ===== src/Deception/Witnesses.antt =====
-- ml/mirage/deception/: tests, and the theorems at concrete inputs.
use mirage_core.Shared.{
  ℕ, suc, ◌+◌, ◌-◌, ◌≡◌, refl, Bool, true, false, none, some, List, [], ◌∷◌, map, ltb,
  if◌then◌else◌, ◌==◌, string_eq, nat_eq, arith,
}
use mirage_core.Shared.Dict.{lookup}
use mirage_core.Deception.{
  recon, download, escalate, Hundredths, plus, minus, action_index, surface_bait, effects,
}
use mirage_core.Deception.Env.{
  World, DeceptionConfig, DeceptionEnv, Episode, Archetype, observe, reset, run_episode, play, step,
  apply_action, capture, continue_or_end, reward_of, add_category, has, category_part,
  sensitive_entry,
}
use mirage_core.Deception.Env.Episodes.{
  IsWell, started, IsReachable-IsWell, IsEpisode, run_episode-ends,
}
use mirage_core.Deception.Live.{
  Patterns, LiveSessionTracker, live_observe, Engine, decide, advance, categorize_live_command,
  category_rules, first_rule, evict_stale, get_tracker,
}
use mirage_core.Deception.Live.Mirror.{begun, new_tracker, IsShadow-observe}
use mirage_core.Deception.Live.Sessions.{live_at, decide-lookup}

-- A world of whole numbers: the generators count, and the attacker always stays and goes through the
-- categories.
abbrev toy : World
toy = record {
  Float = ℕ;
  literal = value;
  ratio = λ a b. a;
  add = λ a b. a + b;
  sub = λ a b. a - b;
  logistic = λ x. 1;
  lt = ltb;
  min_one = λ x. x;
  as_float32 = λ x. x;
  Rng = ℕ;
  random = λ g. (0, suc g);
  choose = λ weights from g. (first from, suc g);
  NpRng = ℕ;
  sample = λ preferences g. (if g == 0 then download else escalate, suc g);
}
  where
    value : Hundredths → ℕ
    value (plus n) = n
    value (minus n) = 0

    first : List Archetype → Archetype
    first [] = record { name = ""; preferences = []; persistence = plus 0 }
    first (a ∷ rest) = a

abbrev config : DeceptionConfig toy
config = record { max_steps = 3; decay = 18; archetype_weights = none; novelty_bonus = 50 }

abbrev idle : DeceptionEnv toy
idle = record {
  archetype = record { name = ""; preferences = []; persistence = plus 0 };
  goodwill = 0;
  step_idx = 0;
  current_category = recon;
  seen_categories = [];
  commands_captured = 0;
  bait_captured = 0;
  done = true;
  rng = 0;
  np_rng = 0;
}

abbrev always_bait : Bool → List ℕ → ℕ × Bool
always_bait p obs = (action_index surface_bait, true)

episode_runs :
    run_episode toy always_bait config true idle
    ≡ some (record { total = 1000; commands = 3; baits = 2; steps = 3 }, true)
unfolding run_episode play step apply_action reset observe capture continue_or_end reward_of effects
    has add_category category_part sensitive_entry
episode_runs = refl

run_episode-ends_example :
    (ep : Episode toy) × (p : Bool) × (run_episode toy always_bait config true idle ≡ some (ep, p))
    × IsEpisode config ep
run_episode-ends_example =
    run_episode-ends config always_bait (λ p obs. omega arith) (omega arith) true idle

IsReachable-IsWell_example : IsWell config (reset toy config idle).1
IsReachable-IsWell_example =
    IsReachable-IsWell config (omega arith) (reset toy config idle).1 (started idle)

IsShadow-observe_example :
    map toy.as_float32
      (live_observe toy (new_tracker config 0) (reset toy config idle).1.current_category)
    ≡ observe toy config (reset toy config idle).1
IsShadow-observe_example =
    IsShadow-observe config (omega arith) (λ a b positive below. refl) (new_tracker config 0)
      (reset toy config idle).1 (begun idle 0)

abbrev patterns : Patterns
patterns = record {
  is_blank = λ c. c == "";
  exfil_re = λ c. c == "scp a@b:";
  sensitive_file_re = λ c. c == "cat /etc/shadow";
  escalate_re = λ c. c == "sudo su";
  download_re = λ c. c == "wget x";
}

abbrev tracker : LiveSessionTracker
tracker = record {
  max_steps = 25;
  step_idx = 4;
  commands_captured = 4;
  bait_captured = 1;
  seen_categories = recon ∷ [];
  last_seen = 100;
}

-- One session is stale at 1000, the other is not.
abbrev engine : Engine
engine = record {
  max_steps = 25;
  ttl = 900;
  sessions = ("a", tracker) ∷ ("b", record tracker { last_seen = 50 }) ∷ [];
}

abbrev greedy : List ℕ → ℕ
greedy obs = 2

decide_runs :
    (decide toy patterns greedy "a" "wget x" false 1000 engine).1.sessions
    ≡ (
      "a",
      record {
        max_steps = 25;
        step_idx = 5;
        commands_captured = 5;
        bait_captured = 1;
        seen_categories = recon ∷ download ∷ [];
        last_seen = 1000;
      },
    )
      ∷ []
unfolding decide evict_stale get_tracker advance categorize_live_command category_rules first_rule
    add_category has
decide_runs = refl

decide-lookup_example :
    lookup "b" (decide toy patterns greedy "a" "wget x" false 1000 engine).1.sessions
    ≡ live_at 1000 engine "b"
decide-lookup_example =
    decide-lookup toy patterns greedy "a" "wget x" false 1000 engine (refl, (refl, tt)) "b"
