-- ===== src/Labels/Sampling/Strata.antt =====
-- scripts/sample_for_labeling.py: what stands in each stratum of the sample.
use mathlib.Core.List.{Memᴰ}
use mirage_core.Shared.{
  ℕ, ◌≤◌, ◌≡◌, inl, inr, String, false, some, List, [], ◌∷◌, ◌++◌, ◌==◌, string_eq, ==_iff, arith,
  Bool-cases, Option-cases, length, length-take, mem-take, take, All, All-mem, All-of_mem,
  All-append,
}
use mirage_core.Shared.Dict.{Dict, lookup, insert, mem_of_lookup}
use mirage_core.Labels.Sampling.{
  ExportedSession, Shuffler, is_labeled, file_session, file_all, no_sessions, sample_classes,
  stratified_sample,
}

module _ {Value : Type 0} (sessions : List (ExportedSession Value))
    (already_labeled : List String) where
  -- A session of the export, of the class, that nobody has labelled.
  pub record IsEligible (cls : String) (s : ExportedSession Value) : Type 0 where
    pub exported : Memᴰ s sessions
    pub classified : s.attacker_class ≡ some cls
    pub unlabeled : is_labeled already_labeled s.session_id ≡ false

  abbrev Eligible : String × List (ExportedSession Value) → Type 0
  Eligible p = All (IsEligible p.0) p.1

  insert-All :
      (cls : String) (rows : List (ExportedSession Value))
      (d : Dict String (List (ExportedSession Value)))
      → Eligible (cls, rows)
      → All Eligible d
      → All Eligible (insert cls rows d)
  insert-All cls rows [] h g = (h, tt)
  insert-All cls rows ((k, old) ∷ d) h g = elim (Bool-cases (k == cls)) [
    | inl same ↦ rw same (let e = (==_iff k cls).0 same in rw e (h, g.1))
    | inr other ↦ rw other (g.0, insert-All cls rows d h g.1)
  ]

  file_session-All :
      (s : ExportedSession Value) (d : Dict String (List (ExportedSession Value)))
      → Memᴰ s sessions
      → All Eligible d
      → All Eligible (file_session already_labeled s d)
  unfolding file_session
  file_session-All s d m g = elim (Option-cases s.attacker_class) [
    | inl missing ↦ rw (missing, file_session) g
    | inr (cls, has) ↦ elim (Option-cases (lookup cls d)) [
      | inl unknown ↦ rw (has, unknown, file_session) g
      | inr (rows, known) ↦ elim (Bool-cases (is_labeled already_labeled s.session_id)) [
        | inl done ↦ rw (has, known, done, file_session) g
        | inr fresh ↦
            rw (has, known, fresh, file_session)
              (insert-All cls (rows ++ s ∷ []) d
                (All-append (IsEligible cls) rows (s ∷ [])
                  (All-mem Eligible g (mem_of_lookup cls rows d known))
                  (record { exported = m; classified = has; unlabeled = fresh }, tt))
                g)
      ]
    ]
  ]

  file_all-All :
      (some_sessions : List (ExportedSession Value))
      (d : Dict String (List (ExportedSession Value)))
      → All (λ s. Memᴰ s sessions) some_sessions
      → All Eligible d
      → All Eligible (file_all already_labeled some_sessions d)
  unfolding file_all
  file_all-All [] d m g = g
  file_all-All (s ∷ ss) d m g =
      file_all-All ss (file_session already_labeled s d) m.1 (file_session-All s d m.0 g)

  module _ (rng : Shuffler Value) where
    open rng use {State, shuffle, mem-shuffle}

    -- A stratum holds at most so many sessions, all of them eligible.
    abbrev pub IsStratum : ℕ → String × List (ExportedSession Value) → Type 0
    IsStratum per_class p = (length p.1 ≤ per_class) × All (IsEligible p.0) p.1

    sample_classes-All :
        (per_class : ℕ) (d : Dict String (List (ExportedSession Value))) (s : State)
        → All Eligible d
        → All (IsStratum per_class) (sample_classes rng per_class d s)
    unfolding sample_classes
    sample_classes-All per_class [] s g = tt
    sample_classes-All per_class ((cls, rows) ∷ d) s g =
        let drawn = shuffle rows s in
        (
          (
            omega (arith, length-take per_class drawn.0),
            All-of_mem (IsEligible cls) (take per_class drawn.0) (λ x m.
                All-mem (IsEligible cls) g.0 (mem-shuffle rows s x (mem-take per_class drawn.0 m))),
          ),
          sample_classes-All per_class d drawn.1 g.1,
        )

    -- Every stratum of the sample holds at most `per_class` sessions, each a session of the export of
    -- that class whose id is not among the labelled ones.
    pub stratified_sample-IsStratum :
        (per_class : ℕ) (s : State)
        → All (IsStratum per_class) (stratified_sample rng sessions per_class already_labeled s)
    unfolding stratified_sample
    stratified_sample-IsStratum per_class s = sample_classes-All per_class _ s (
        file_all-All sessions no_sessions (All-of_mem (λ x. Memᴰ x sessions) sessions (λ x m. m))
          (tt, (tt, (tt, (tt, tt)))))
