-- ===== src/Deception/Live/Sessions.antt =====
-- ml/mirage/deception/live.py: the sessions of an engine as a function from the id.
use mirage_core.Shared.{
  ℕ, ◌-◌, ◌≤◌, ◌≡◌, refl, sym, ap, ◌∙◌, subst, inl, inr, Bool, false, not, Option, none, some,
  String, List, [], ◌∷◌, map, keep, ltb, if◌then◌else◌, ◌==◌, string_eq, ==_iff, arith, Bool-cases,
  Option-cases,
}
use mirage_core.Shared.Dict.{Dict, lookup, insert, NodupKeys, insert-NodupKeys, lookup-insert}
use mirage_core.Deception.{action_at}
use mirage_core.Deception.Env.{World}
use mirage_core.Deception.Live.{
  Patterns, categorize_live_command, LiveSessionTracker, live_observe, advance, Engine, evict_stale,
  get_tracker, decide,
}

module _ {ℓ} {V : Type ℓ} (p : String × V → Bool) where
  -- What is left of an entry under a test.
  abbrev entry_if : String → Option V → Option V
  entry_if k none = none
  entry_if k (some v) = if p (k, v) then some v else none

  lookup-keep :
      (k : String) (d : Dict String V) → NodupKeys d → lookup k (keep p d) ≡ entry_if k (lookup k d)
  lookup-keep k [] h = refl
  lookup-keep k ((j, v) ∷ d) h =
      let later = lookup-keep k d h.1 in
      elim (Bool-cases (j == k)) [
        | inl same ↦
            let e : j ≡ k = (==_iff j k).0 same in
            elim (Bool-cases (p (j, v))) [
              | inl kept ↦ rw (kept, same, ← e) (rw kept refl)
              | inr dropped ↦
                  let gone : p (k, v) ≡ false = subst (λ i. p (i, v) ≡ false) e dropped in
                  let absent : lookup k d ≡ none = subst (λ i. lookup i d ≡ none) e h.0 in
                  rw (dropped, same, gone) (later ∙ ap (entry_if k) absent)
            ]
        | inr other ↦ elim (Bool-cases (p (j, v))) [
          | inl kept ↦ rw (kept, other) later
          | inr dropped ↦ rw (dropped, other) later
        ]
      ]

  keep-NodupKeys : (d : Dict String V) → NodupKeys d → NodupKeys (keep p d)
  keep-NodupKeys [] h = tt
  keep-NodupKeys ((j, v) ∷ d) h = elim (Bool-cases (p (j, v))) [
    | inl kept ↦ rw kept (lookup-keep j d h.1 ∙ ap (entry_if j) h.0, keep-NodupKeys d h.1)
    | inr dropped ↦ rw dropped (keep-NodupKeys d h.1)
  ]

-- The engine as a function: the tracker of a session, unless it is stale at the time `now`.
abbrev pub live_at : ℕ → Engine → String → Option LiveSessionTracker
live_at now e id = elim (lookup id e.sessions) [
  | none ↦ none
  | some tracker ↦ if ltb e.ttl (now - tracker.last_seen) then none else some tracker
]

evict_stale-lookup :
    (now : ℕ) (e : Engine) (id : String)
    → NodupKeys e.sessions
    → lookup id (evict_stale now e).sessions ≡ live_at now e id
unfolding evict_stale
evict_stale-lookup now e id keys =
    lookup-keep (λ (p : String × LiveSessionTracker). not (ltb e.ttl (now - p.1.last_seen))) id
      e.sessions keys
    ∙ go (lookup id e.sessions)
  where
    go :
        (o : Option LiveSessionTracker)
        → entry_if (λ (p : String × LiveSessionTracker). not (ltb e.ttl (now - p.1.last_seen))) id o
          ≡ elim o [
            | none ↦ none
            | some tracker ↦ if ltb e.ttl (now - tracker.last_seen) then none else some tracker
          ]
    go none = refl
    go (some tracker) = elim (Bool-cases (ltb e.ttl (now - tracker.last_seen))) [
      | inl stale ↦ rw stale refl
      | inr fresh ↦ rw fresh refl
    ]

live_at-fresh :
    (now : ℕ) (e : Engine) (id : String) (tracker : LiveSessionTracker)
    → live_at now e id ≡ some tracker
    → now - tracker.last_seen ≤ e.ttl
live_at-fresh now e id tracker found = elim (Option-cases (lookup id e.sessions)) [
  | inl missing ↦ let f : none ≡ some tracker = rw (missing, live_at) at found in absurd (cc)
  | inr known ↦
      let (t, at_id) = known in
      elim (Bool-cases (ltb e.ttl (now - t.last_seen))) [
        | inl stale ↦
            let f : none ≡ some tracker = rw (at_id, stale, live_at) at found in absurd (cc)
        | inr fresh ↦
            let f : some t ≡ some tracker = rw (at_id, fresh, live_at) at found in
            let same : t ≡ tracker = cc in
            subst (λ (x : LiveSessionTracker). now - x.last_seen ≤ e.ttl) same
              (ground (arith, fresh))
      ]
]

abbrev seen_at : ℕ → Option LiveSessionTracker → ℕ
seen_at now none = now
seen_at now (some tracker) = tracker.last_seen

-- The tracker that a session goes on with: a new one if it has none.
abbrev pub or_new : ℕ → ℕ → Option LiveSessionTracker → LiveSessionTracker
or_new max_steps time none = record {
  max_steps = max_steps;
  step_idx = 0;
  commands_captured = 0;
  bait_captured = 0;
  seen_categories = [];
  last_seen = time;
}
or_new max_steps time (some tracker) = tracker

get_tracker-live_at :
    (id : String) (now : ℕ) (e : Engine)
    → NodupKeys e.sessions
    → get_tracker id now (evict_stale now e) ≡ or_new e.max_steps now (live_at now e id)
unfolding get_tracker evict_stale
get_tracker-live_at id now e keys =
    ap (go e.max_steps) (evict_stale-lookup now e id keys) ∙ same (live_at now e id)
  where
    go : ℕ → Option LiveSessionTracker → LiveSessionTracker
    go most o = elim o [
      | none ↦ record {
        max_steps = most;
        step_idx = 0;
        commands_captured = 0;
        bait_captured = 0;
        seen_categories = [];
        last_seen = now;
      }
      | some tracker ↦ tracker
    ]

    same : (o : Option LiveSessionTracker) → go e.max_steps o ≡ or_new e.max_steps now o
    same none = refl
    same (some tracker) = refl

module _ (w : World) (re : Patterns) (select_action : List w.Float → ℕ) (id command : String)
    (bait_hit : Bool) (now : ℕ) (e : Engine) where
  decide-sessions :
      (decide w re select_action id command bait_hit now e).1.sessions
      ≡ insert id
          (advance
            (categorize_live_command re command)
            bait_hit
            now
            (get_tracker id now (evict_stale now e)))
          (evict_stale now e).sessions
  unfolding decide
  decide-sessions =
      elim (Option-cases (
        action_at (
          select_action (
            map w.as_float32 (
              live_observe w (get_tracker id now (evict_stale now e))
                (categorize_live_command re command)))))) [
                  | inl unknown ↦ rw (unknown, decide) refl
                  | inr known ↦ rw (known.1, decide) refl
                ]

  -- If no session is listed twice, then after `decide` at the time `now` the session that sent the
  -- command has its tracker advanced by that command, a new tracker if it had none or was stale, and
  -- every other session has the tracker it had, unless that is stale by now.
  pub decide-lookup :
      NodupKeys e.sessions
      → (other : String)
      → lookup other (decide w re select_action id command bait_hit now e).1.sessions ≡ (
          if id == other
          then some (
              advance
                (categorize_live_command re command)
                bait_hit
                now
                (or_new e.max_steps now (live_at now e id)))
          else live_at now e other)
  decide-lookup keys other =
      rw
        (
          decide-sessions,
          lookup-insert id other
              (advance (categorize_live_command re command) bait_hit now
                (get_tracker id now (evict_stale now e)))
              (evict_stale now e).sessions,
          get_tracker-live_at id now e keys,
          evict_stale-lookup now e other keys,
        )
        refl

  -- If no session is listed twice, then after `decide` none is, and no tracker that is left is older
  -- than the session time-to-live: the sessions kept are those seen within it.
  pub decide-fresh :
      NodupKeys e.sessions
      → NodupKeys (decide w re select_action id command bait_hit now e).1.sessions
        × ((other : String) (tracker : LiveSessionTracker)
            → lookup other (decide w re select_action id command bait_hit now e).1.sessions
              ≡ some tracker
            → now - tracker.last_seen ≤ e.ttl)
  unfolding evict_stale advance
  decide-fresh keys = (
    rw decide-sessions
        (insert-NodupKeys id _ (evict_stale now e).sessions (keep-NodupKeys _ e.sessions keys)),
    λ other tracker found.
        let spec = sym (decide-lookup keys other) ∙ found in
        elim (Bool-cases (id == other)) [
          | inl own ↦
              let same = rw own at spec in
              let seen : now ≡ tracker.last_seen = ap (seen_at now) same in omega arith
          | inr foreign ↦ live_at-fresh now e other tracker (rw foreign at spec)
        ],
  )
