-- ===== src/Deception/Env/Episodes.antt =====
-- ml/mirage/deception/environment.py: what holds in every episode, and that each one ends.
use mirage_core.Shared.{
  ℕ, zero, suc, ◌+◌, ◌<◌, ◌≤◌, ◌≡◌, refl, sym, ap, ◌∙◌, subst, inl, inr, Bool, false, ◌||◌, some,
  List, leb, arith, Bool-cases, Option-cases, get_elem?-some,
}
use mirage_core.Deception.{
  category_eq, DeceptionAction, actions, action_at, is_positive, nothing, Effects, effects,
}
use mirage_core.Deception.Env.{
  World, DeceptionConfig, DeceptionEnv, Info, finished_episode, unknown_action, stepped, reset,
  capture, continue_or_end, apply_action, info_of, step, Episode, play, run_episode,
}

module _ {w : World} (cfg : DeceptionConfig w) where
  -- The counters of an environment in an episode.
  pub record IsWell (s : DeceptionEnv w) : Type 0 where
    pub counted : s.commands_captured ≡ s.step_idx
    pub baited : s.bait_captured ≤ s.commands_captured
    pub capped : s.step_idx ≤ cfg.max_steps
    pub going : s.done ≡ false → s.step_idx < cfg.max_steps

  -- What is reached from any environment by `reset` and steps that return.
  pub data IsReachable : DeceptionEnv w → Type 0 where
    started : (s : DeceptionEnv w) → IsReachable (reset w cfg s).1
    moved :
        (s s' : DeceptionEnv w) (action : ℕ) (obs : List w.Float) (reward : w.Float) (done : Bool)
        (info : Info w)
        → IsReachable s
        → step w cfg s action ≡ stepped obs reward done info s'
        → IsReachable s'

  reset-IsWell : (s : DeceptionEnv w) → 0 < cfg.max_steps → IsWell (reset w cfg s).1
  unfolding reset
  reset-IsWell s cap = record {
    counted = refl;
    baited = omega arith;
    capped = omega arith;
    going = λ _. cap;
  }

  capture-counts :
      (e : Effects) (s : DeceptionEnv w)
      → IsWell s
      → ((capture w cfg e s).commands_captured ≡ (capture w cfg e s).step_idx)
        × ((capture w cfg e s).bait_captured ≤ (capture w cfg e s).commands_captured)
  unfolding capture
  capture-counts e s well = elim (Bool-cases (is_positive e.bait_gain)) [
    | inl bait ↦ rw (bait, capture) (omega (arith, well.counted), omega (arith, well.baited))
    | inr no_bait ↦ rw (no_bait, capture) (omega (arith, well.counted), omega (arith, well.baited))
  ]

  continue_or_end-IsWell :
      (s : DeceptionEnv w)
      → s.commands_captured ≡ s.step_idx
      → s.bait_captured ≤ s.commands_captured
      → s.step_idx ≤ cfg.max_steps
      → s.done ≡ false
      → IsWell (continue_or_end w cfg s)
        × ((continue_or_end w cfg s).step_idx ≡ s.step_idx)
        × ((continue_or_end w cfg s).bait_captured ≡ s.bait_captured)
  unfolding continue_or_end
  continue_or_end-IsWell s counted baited capped running =
      elim (Bool-cases
        (w.lt (w.logistic s.goodwill) (w.random s.rng).0 || leb cfg.max_steps s.step_idx)) [
          | inl ends ↦
              rw (ends, continue_or_end)
                (
                  record {
                    counted = counted;
                    baited = baited;
                    capped = capped;
                    going = λ h. absurd (cc);
                  },
                  refl,
                  refl,
                )
          | inr goes_on ↦
              rw (goes_on, continue_or_end)
                (
                  record {
                    counted = counted;
                    baited = baited;
                    capped = capped;
                    going = λ h. ground (arith, goes_on);
                  },
                  refl,
                  refl,
                )
        ]

  -- What a step that returns does to the counters, and what it tells of them.
  pub record IsCounted (s s' : DeceptionEnv w) (done : Bool) (info : Info w) : Type 0 where
    pub well : IsWell s'
    pub one_step : s'.step_idx ≡ suc s.step_idx
    pub told_done : done ≡ s'.done
    pub told_commands : info.info_commands ≡ s'.commands_captured
    pub told_baits : info.info_bait ≡ s'.bait_captured

  unfoldable pub after_action : DeceptionEnv w → DeceptionAction → DeceptionEnv w
  after_action s act = continue_or_end w cfg (capture w cfg (effects s.current_category act) s)

  after_action-IsWell :
      (s : DeceptionEnv w) (act : DeceptionAction)
      → IsWell s
      → s.done ≡ false
      → IsWell (after_action s act) × ((after_action s act).step_idx ≡ suc s.step_idx)
  unfolding after_action capture
  after_action-IsWell s act well running =
      let mid : DeceptionEnv w = capture w cfg (effects s.current_category act) s in
      let (counted, baited) = capture-counts (effects s.current_category act) s well in
      let room = well.going running in
      let (kept, same, _) = continue_or_end-IsWell mid counted baited (omega arith) running in
      (kept, same)

  -- A step that returns was a step of a running episode with one of the five actions.
  pub step_inverse :
      (s s' : DeceptionEnv w) (action : ℕ) (obs : List w.Float) (reward : w.Float) (done : Bool)
      (info : Info w)
      → step w cfg s action ≡ stepped obs reward done info s'
      → (act : DeceptionAction) × (s.done ≡ false)
        × (after_action s act ≡ s')
        × ((after_action s act).done ≡ done)
        × (info_of w s.current_category act (after_action s act) ≡ info)
  unfolding step apply_action after_action
  step_inverse s s' action obs reward done info e = elim (Bool-cases s.done) [
    | inl over ↦
        let f : finished_episode ≡ stepped obs reward done info s' = rw (over, step) at e in
        absurd (cc)
    | inr running ↦ elim (Option-cases (action_at action)) [
      | inl unknown ↦
          let f : unknown_action ≡ stepped obs reward done info s' =
            rw (running, unknown, step) at e in
          absurd (cc)
      | inr known ↦
          let (act, at_action) = known in
          let f : apply_action w cfg s act ≡ stepped obs reward done info s' =
            rw (running, at_action, step) at e in
          let es : after_action s act ≡ s' = cc in
          let ed : (after_action s act).done ≡ done = cc in
          let ei : info_of w s.current_category act (after_action s act) ≡ info = cc in
          (act, running, es, ed, ei)
    ]
  ]

  pub step-IsCounted :
      (s s' : DeceptionEnv w) (action : ℕ) (obs : List w.Float) (reward : w.Float) (done : Bool)
      (info : Info w)
      → IsWell s
      → step w cfg s action ≡ stepped obs reward done info s'
      → IsCounted s s' done info
  step-IsCounted s s' action obs reward done info well e =
      let (act, running, es, ed, ei) = step_inverse s s' action obs reward done info e in
      let (well', next) = after_action-IsWell s act well running in
      record {
        well = subst IsWell es well';
        one_step = subst (λ (x : DeceptionEnv w). x.step_idx ≡ suc s.step_idx) es next;
        told_done = sym ed ∙ ap (λ (x : DeceptionEnv w). x.done) es;
        told_commands =
            sym (ap (λ (x : Info w). x.info_commands) ei)
            ∙ ap (λ (x : DeceptionEnv w). x.commands_captured) es;
        told_baits =
            sym (ap (λ (x : Info w). x.info_bait) ei)
            ∙ ap (λ (x : DeceptionEnv w). x.bait_captured) es;
      }

  -- In every state that an episode reaches, as many commands are captured as steps were taken, at most
  -- as many baits as commands, and at most `max_steps` steps were taken, fewer while the episode
  -- goes on; the cap must be positive.
  pub IsReachable-IsWell : 0 < cfg.max_steps → (s : DeceptionEnv w) → IsReachable s → IsWell s
  IsReachable-IsWell cap s (started before) = reset-IsWell before cap
  IsReachable-IsWell cap s (moved before _ action obs reward done info reached e) =
      (step-IsCounted before s action obs reward done info (IsReachable-IsWell cap before reached)
        e).well

  -- A step of a running episode returns if the action is one of the five.
  step-returns :
      (s : DeceptionEnv w) (action : ℕ)
      → s.done ≡ false
      → action < 5
      → (obs : List w.Float) × (reward : w.Float) × (done : Bool) × (info : Info w)
        × (s' : DeceptionEnv w) × (step w cfg s action ≡ stepped obs reward done info s')
  unfolding step apply_action
  step-returns s action running known =
      let (act, e) = get_elem?-some actions action known in
      rw (running, e, step) (_, _, _, _, _, refl)

  -- What an episode of at most `max_steps` steps records.
  unfoldable pub IsEpisode : Episode w → Type 0
  IsEpisode ep =
      (1 ≤ ep.steps)
      × (ep.steps ≤ cfg.max_steps)
      × (ep.commands ≡ ep.steps)
      × (ep.baits ≤ ep.commands)

  module _ {P : Type 0} (select_action : P → List w.Float → ℕ × P)
      (valid : (p : P) (obs : List w.Float) → (select_action p obs).0 < 5) where
    play-ends :
        (fuel : ℕ) (p : P) (obs : List w.Float) (total : w.Float) (steps : ℕ) (s : DeceptionEnv w)
        → IsWell s
        → s.done ≡ false
        → steps ≡ s.step_idx
        → cfg.max_steps ≤ fuel + steps
        → (ep : Episode w) × (p' : P) × (play w select_action cfg fuel p obs total steps s
            ≡ some (ep, p'))
          × IsEpisode ep
    unfolding play IsEpisode
    play-ends zero p obs total steps s well running level enough =
        absurd (omega (arith, well.going running))
    play-ends (suc fuel) p obs total steps s well running level enough =
        let (obs', reward, done, info, s', e) =
          step-returns s (select_action p obs).0 running (valid p obs) in
        let c = step-IsCounted s s' (select_action p obs).0 obs' reward done info well e in
        elim (Bool-cases done) [
          | inl over ↦
              rw (e, over, play)
                (
                  _,
                  _,
                  refl,
                  (
                    omega arith,
                    omega (arith, c.well.capped, c.one_step),
                    omega (arith, c.told_commands, c.well.counted, c.one_step),
                    omega (arith, c.told_baits, c.told_commands, c.well.baited),
                  ),
                )
          | inr goes_on ↦
              let going : s'.done ≡ false = sym c.told_done ∙ goes_on in
              let next : suc steps ≡ s'.step_idx = omega (arith, c.one_step) in
              rw (e, goes_on, play)
                (play-ends fuel (select_action p obs).1 obs' (w.add total reward) (suc steps) s'
                  c.well going next (omega arith))
        ]

    -- If the cap is positive and the policy gives one of the five actions, an episode ends without an
    -- exception; it takes between 1 and `max_steps` steps, captures one command in each, and at most
    -- as many baits as commands.
    pub run_episode-ends :
        0 < cfg.max_steps
        → (p : P) (before : DeceptionEnv w)
        → (ep : Episode w) × (p' : P) × (run_episode w select_action cfg p before ≡ some (ep, p'))
          × IsEpisode ep
    unfolding run_episode reset
    run_episode-ends cap p before =
        play-ends cfg.max_steps p _ (w.literal nothing) 0 (reset w cfg before).1
          (reset-IsWell before cap) refl refl (omega arith)
