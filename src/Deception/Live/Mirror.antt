-- ===== src/Deception/Live/Mirror.antt =====
-- ml/mirage/deception/live.py: the tracker of a live session mirrors the environment of training.
use mirage_core.Shared.{
  ℕ, suc, ◌<◌, ◌≤◌, ◌≡◌, refl, ap, ◌∙◌, subst, inl, inr, Bool, ◌||◌, List, [], map, leb,
  if◌then◌else◌, arith, Bool-cases,
}
use mirage_core.Deception.{category_eq, is_positive, Effects, effects}
use mirage_core.Deception.Env.{
  World, DeceptionConfig, DeceptionEnv, Info, stepped, observe, reset, add_category, capture,
  continue_or_end, step,
}
use mirage_core.Deception.Env.Episodes.{
  IsReachable, started, moved, IsReachable-IsWell, after_action, step_inverse,
}
use mirage_core.Deception.Live.{LiveSessionTracker, live_observe, advance}

module _ {w : World} (cfg : DeceptionConfig w) where
  -- The counters of a tracker are those of an environment.
  pub record IsMirror (t : LiveSessionTracker) (s : DeceptionEnv w) : Type 0 where
    pub same_cap : t.max_steps ≡ cfg.max_steps
    pub same_steps : t.step_idx ≡ s.step_idx
    pub same_commands : t.commands_captured ≡ s.commands_captured
    pub same_baits : t.bait_captured ≡ s.bait_captured
    pub same_seen : t.seen_categories ≡ s.seen_categories

  -- A new tracker.
  abbrev pub new_tracker : ℕ → LiveSessionTracker
  new_tracker time = record {
    max_steps = cfg.max_steps;
    step_idx = 0;
    commands_captured = 0;
    bait_captured = 0;
    seen_categories = [];
    last_seen = time;
  }

  -- Whether an action on a command captures bait.
  abbrev pub is_bait : Info w → Bool
  is_bait info = is_positive (effects info.category info.action).bait_gain

  -- A live session that gets the commands of an episode, each with what the episode says of bait.
  pub data IsShadow : LiveSessionTracker → DeceptionEnv w → Type 0 where
    begun : (s : DeceptionEnv w) (time : ℕ) → IsShadow (new_tracker time) (reset w cfg s).1
    followed :
        (t : LiveSessionTracker) (s s' : DeceptionEnv w) (action : ℕ) (obs : List w.Float)
        (reward : w.Float) (done : Bool) (info : Info w) (time : ℕ)
        → IsShadow t s
        → step w cfg s action ≡ stepped obs reward done info s'
        → IsShadow (advance info.category (is_bait info) time t) s'

  continue_or_end-counters :
      (s : DeceptionEnv w) (t : LiveSessionTracker)
      → IsMirror t s
      → IsMirror t (continue_or_end w cfg s)
  unfolding continue_or_end
  continue_or_end-counters s t m =
      elim (Bool-cases
        (w.lt (w.logistic s.goodwill) (w.random s.rng).0 || leb cfg.max_steps s.step_idx)) [
          | inl ends ↦ rw (ends, continue_or_end) (mirror_of s t m _ refl refl refl refl)
          | inr goes_on ↦ rw (goes_on, continue_or_end) (mirror_of s t m _ refl refl refl refl)
        ]
    where
      mirror_of :
          (s : DeceptionEnv w) (t : LiveSessionTracker)
          → IsMirror t s
          → (s' : DeceptionEnv w) → s.step_idx ≡ s'.step_idx
          → s.commands_captured ≡ s'.commands_captured
          → s.bait_captured ≡ s'.bait_captured
          → s.seen_categories ≡ s'.seen_categories
          → IsMirror t s'
      mirror_of s t m s' a b c d = record {
        same_cap = m.same_cap;
        same_steps = m.same_steps ∙ a;
        same_commands = m.same_commands ∙ b;
        same_baits = m.same_baits ∙ c;
        same_seen = m.same_seen ∙ d;
      }

  capture-IsMirror :
      (t : LiveSessionTracker) (s : DeceptionEnv w) (e : Effects) (time : ℕ)
      → IsMirror t s
      → IsMirror (advance s.current_category (is_positive e.bait_gain) time t) (capture w cfg e s)
  unfolding advance capture
  capture-IsMirror t s e time m = record {
    same_cap = m.same_cap;
    same_steps = ap suc m.same_steps;
    same_commands = ap suc m.same_commands;
    same_baits = ap (λ n. if is_positive e.bait_gain then suc n else n) m.same_baits;
    same_seen = ap (λ cs. add_category s.current_category cs) m.same_seen;
  }

  step-IsMirror :
      (t : LiveSessionTracker) (s s' : DeceptionEnv w) (action : ℕ) (obs : List w.Float)
      (reward : w.Float) (done : Bool) (info : Info w) (time : ℕ)
      → IsMirror t s
      → step w cfg s action ≡ stepped obs reward done info s'
      → IsMirror (advance info.category (is_bait info) time t) s'
  unfolding after_action
  step-IsMirror t s s' action obs reward done info time m e =
      let (act, running, es, ed, ei) = step_inverse cfg s s' action obs reward done info e in
      let e_of : Effects = effects s.current_category act in
      let mid = capture-IsMirror t s e_of time m in
      let after = continue_or_end-counters (capture w cfg e_of s) _ mid in
      subst (λ (i : Info w). IsMirror (advance i.category (is_bait i) time t) s') ei
        (subst (IsMirror (advance s.current_category (is_positive e_of.bait_gain) time t)) es after)

  IsShadow-IsMirror :
      (t : LiveSessionTracker) (s : DeceptionEnv w)
      → IsShadow t s
      → IsMirror t s × IsReachable cfg s
  unfolding reset
  IsShadow-IsMirror t s (begun before time) = (
    record {
      same_cap = refl;
      same_steps = refl;
      same_commands = refl;
      same_baits = refl;
      same_seen = refl;
    },
    started before,
  )
  IsShadow-IsMirror t s (followed t' before _ action obs reward done info time shadow e) =
      let (m, reached) = IsShadow-IsMirror t' before shadow in
      (
        step-IsMirror t' before s action obs reward done info time m e,
        moved before s action obs reward done info reached e,
      )

  -- A live session that gets the commands of an episode of training, and is told of bait as the
  -- episode counts it, shows the policy the very observation that the environment gives, if the cap
  -- is positive and quotients of a number by a positive one not smaller are left alone by `min(x, 1.0)`.
  pub IsShadow-observe :
      0 < cfg.max_steps
      → ((a b : ℕ) → 0 < b → a ≤ b → w.min_one (w.ratio a b) ≡ w.ratio a b)
      → (t : LiveSessionTracker) (s : DeceptionEnv w) → IsShadow t s
      → map w.as_float32 (live_observe w t s.current_category) ≡ observe w cfg s
  unfolding live_observe observe
  IsShadow-observe cap capped t s shadow =
      let (m, reached) = IsShadow-IsMirror t s shadow in
      let well = IsReachable-IsWell cfg cap s reached in
      rw
        (
          m.same_cap,
          m.same_steps,
          m.same_commands,
          m.same_baits,
          m.same_seen,
          capped s.step_idx cfg.max_steps cap well.capped,
          capped s.commands_captured cfg.max_steps cap (omega (arith, well.counted, well.capped)),
        )
        refl
