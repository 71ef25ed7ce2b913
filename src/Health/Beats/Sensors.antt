-- ===== src/Health/Beats/Sensors.antt =====
-- scripts/daily_health_check.py: from the stamps of one sensor to what `check_heartbeats` reports.
use mathlib.Core.List.{Memᴰ}
use mathlib.Core.List.Memᴰ
use mirage_core.Shared.{
  ℕ, ◌-◌, ◌<◌, ◌≤◌, ◌≡◌, refl, sym, ap, subst, ◌↔◌, inl, inr, Option, none, some, String, List, [],
  ◌∷◌, ltb, leb, leb→le, le→leb, ltb→lt, lt→ltb, arith, Bool-cases, string_eq,
}
use mirage_core.Shared.Grouping.{values_at, group_by-values_at, values_at-group_by}
use mirage_core.Shared.Sorting.{sort_by, IsSorted, sort_by-IsSorted, sort_by-mem, mem-sort_by}
use mirage_core.Shared.Flat.{flat_map-mem, mem-flat_map}
use mirage_core.Health.{
  Rates, Thresholds, Finding, heartbeat_gap, heartbeat_stale, microseconds_of_minutes,
}
use mirage_core.Health.Beats.{
  gaps, stale, last_of, per_sensor, check_sensor, check_heartbeats, by_time,
}
use mirage_core.Health.Beats.Gaps.{mem_above, IsGap, gaps-IsGap, IsGap-gaps}

-- The times at which a sensor beat, in the order of the list.
abbrev pub beats_of : String → List (String × ℕ) → List ℕ
beats_of s beats = values_at (λ b. b.0) (λ b. b.1) s beats

module _ {fl : Rates} (beats : List (String × ℕ)) (now : Option ℕ) (t : Thresholds fl) where
  check_heartbeats-sensor :
      (f : Finding)
      → Memᴰ f (check_heartbeats beats now t)
      → (s : String) × (k : ℕ) × Memᴰ (k, f) (check_sensor now t (s, beats_of s beats))
  unfolding check_heartbeats
  check_heartbeats-sensor f m =
      let ((k, g), n, e) = Memᴰ.of_map (λ (p : ℕ × Finding). p.1) _ m in
      let ((s, stamps), there, found) =
        mem-flat_map (check_sensor now t) (per_sensor beats) (mem-sort_by by_time _ n) in
      let own : stamps ≡ beats_of s beats =
        group_by-values_at (λ b. b.0) (λ b. b.1) beats s stamps there in
      (
        s,
        k,
        subst (λ xs. Memᴰ (k, f) (check_sensor now t (s, xs))) own
            (subst (λ h. Memᴰ (k, h) (check_sensor now t (s, stamps))) e found),
      )

  sensor-check_heartbeats :
      (f : Finding) (s : String) (k a : ℕ)
      → Memᴰ a (beats_of s beats)
      → Memᴰ (k, f) (check_sensor now t (s, beats_of s beats))
      → Memᴰ f (check_heartbeats beats now t)
  unfolding check_heartbeats
  sensor-check_heartbeats f s k a beat m =
      Memᴰ.map (λ (p : ℕ × Finding). p.1)
        (sort_by-mem by_time (
          flat_map-mem (check_sensor now t) (values_at-group_by (λ b. b.0) (λ b. b.1) beats s beat)
            m))

-- What `stale` reports is no gap, and what `gaps` reports is not stale.
stale-no_gap :
    (limit : ℕ) (s : String) (now : Option ℕ) (xs : List ℕ) (k a b : ℕ) (r : String)
    → Memᴰ (k, heartbeat_gap r a b) (stale limit s now xs)
    → ⊥
unfolding stale
stale-no_gap limit s none xs k a b r m = elim m [ ]
stale-no_gap limit s (some now) [] k a b r m = elim m [ ]
stale-no_gap limit s (some now) (x ∷ xs) k a b r m =
    elim (Bool-cases (ltb limit (now - last_of x xs))) [
      | inl late ↦
          let e = Memᴰ.eq_of_singleton (rw late at m) in
          let f : heartbeat_gap r a b ≡ heartbeat_stale s (last_of x xs) now =
            ap (λ (p : ℕ × Finding). p.1) e in
          absurd (cc)
      | inr fresh ↦ elim (rw fresh at m) [ ]
    ]

gaps-no_stale :
    (limit : ℕ) (s : String) (xs : List ℕ) (k a b : ℕ) (r : String)
    → Memᴰ (k, heartbeat_stale r a b) (gaps limit s xs)
    → ⊥
unfolding gaps
gaps-no_stale limit s [] k a b r m = elim m [ ]
gaps-no_stale limit s (x ∷ []) k a b r m = elim m [ ]
gaps-no_stale limit s (x ∷ y ∷ rest) k a b r m = elim (Bool-cases (ltb limit (y - x))) [
  | inl wide ↦ elim (Memᴰ.cases_cons (rw wide at m)) [
    | inl e ↦
        let f : heartbeat_stale r a b ≡ heartbeat_gap s x y = ap (λ (p : ℕ × Finding). p.1) e in
        absurd (cc)
    | inr later ↦ gaps-no_stale limit s (y ∷ rest) k a b r later
  ]
  | inr narrow ↦ gaps-no_stale limit s (y ∷ rest) k a b r (rw narrow at m)
]

-- `last` is a time of the list and no time is later.
abbrev pub IsLatest : ℕ → List ℕ → Type 0
IsLatest last xs = Memᴰ last xs × ((c : ℕ) → Memᴰ c xs → c ≤ last)

last_of-IsLatest : (x : ℕ) (xs : List ℕ) → IsSorted leb (x ∷ xs) → IsLatest (last_of x xs) (x ∷ xs)
unfolding last_of
last_of-IsLatest x [] sorted =
    (Memᴰ.head refl, λ c m. let e : c ≡ x = Memᴰ.eq_of_singleton m in omega arith)
last_of-IsLatest x (y ∷ xs) sorted =
    let (m, top) = last_of-IsLatest y xs sorted.1 in
    (
      Memᴰ.tail m,
      λ c k. elim (Memᴰ.cases_cons k) [
        | inl e ↦
            omega (arith, top y (Memᴰ.head refl), mem_above x (y ∷ xs) sorted.0 y (Memᴰ.head refl))
        | inr later ↦ top c later
      ],
    )

latest_unique : (xs : List ℕ) (a b : ℕ) → IsLatest a xs → IsLatest b xs → a ≡ b
latest_unique xs a b (ma, top_a) (mb, top_b) = omega (arith, top_a b mb, top_b a ma)

stale-IsLatest :
    (limit : ℕ) (s : String) (now : Option ℕ) (xs : List ℕ) (last n k : ℕ) (r : String)
    → IsSorted leb xs
    → Memᴰ (k, heartbeat_stale r last n) (stale limit s now xs)
    → (r ≡ s) × (now ≡ some n) × IsLatest last xs × (limit < n - last)
unfolding stale
stale-IsLatest limit s none xs last n k r sorted m = elim m [ ]
stale-IsLatest limit s (some now) [] last n k r sorted m = elim m [ ]
stale-IsLatest limit s (some now) (x ∷ xs) last n k r sorted m =
    elim (Bool-cases (ltb limit (now - last_of x xs))) [
      | inl late ↦
          let e = Memᴰ.eq_of_singleton (rw late at m) in
          let f : heartbeat_stale r last n ≡ heartbeat_stale s (last_of x xs) now =
            ap (λ (p : ℕ × Finding). p.1) e in
          let el : last ≡ last_of x xs = cc in
          let en : n ≡ now = cc in
          (
            cc,
            ap some (sym en),
            rw el (last_of-IsLatest x xs sorted),
            rw (el, en) (ltb→lt limit (now - last_of x xs) late),
          )
      | inr fresh ↦ elim (rw fresh at m) [ ]
    ]

IsLatest-stale :
    (limit : ℕ) (s : String) (xs : List ℕ) (last n : ℕ)
    → IsSorted leb xs
    → IsLatest last xs
    → limit < n - last
    → Memᴰ (n, heartbeat_stale s last n) (stale limit s (some n) xs)
unfolding stale
IsLatest-stale limit s [] last n sorted (m, top) late = elim m [ ]
IsLatest-stale limit s (x ∷ xs) last n sorted latest late =
    let e : last_of x xs ≡ last =
      latest_unique (x ∷ xs) (last_of x xs) last (last_of-IsLatest x xs sorted) latest in
    rw (e, lt→ltb limit (n - last) late) (Memᴰ.head refl)

sort_times : (xs : List ℕ) → IsSorted leb (sort_by leb xs)
sort_times =
    sort_by-IsSorted leb (λ x y h. ground arith)
      (λ x y z h k. le→leb x z (omega (arith, leb→le x y h, leb→le y z k)))

-- Sorting changes neither the gaps of a list nor its latest time.
IsGap-sort_by :
    (limit : ℕ) (xs : List ℕ) (a b : ℕ) → IsGap limit xs a b ↔ IsGap limit (sort_by leb xs) a b
IsGap-sort_by limit xs a b = (
  λ (ma, mb, wide, apart).
      (sort_by-mem leb ma, sort_by-mem leb mb, wide, λ c n. apart c (mem-sort_by leb xs n)),
  λ (ma, mb, wide, apart).
      (mem-sort_by leb xs ma, mem-sort_by leb xs mb, wide, λ c n. apart c (sort_by-mem leb n)),
)

IsLatest-sort_by : (xs : List ℕ) (a : ℕ) → IsLatest a xs ↔ IsLatest a (sort_by leb xs)
IsLatest-sort_by xs a = (
  λ (m, top). (sort_by-mem leb m, λ c n. top c (mem-sort_by leb xs n)),
  λ (m, top). (mem-sort_by leb xs m, λ c n. top c (sort_by-mem leb n)),
)

module _ {fl : Rates} (beats : List (String × ℕ)) (now : Option ℕ) (t : Thresholds fl) where
  -- `check_heartbeats` reports a gap of sensor `s` from `a` to `b` exactly if `s` beat at `a` and at
  -- `b`, these are more than the limit apart, and `s` did not beat between them. The order of the
  -- beats in the input and the beats of other sensors do not matter.
  pub check_heartbeats-IsGap_iff :
      (s : String) (a b : ℕ)
      → Memᴰ (heartbeat_gap s a b) (check_heartbeats beats now t)
        ↔ IsGap (microseconds_of_minutes t.max_heartbeat_gap_min) (beats_of s beats) a b
  unfolding check_sensor
  check_heartbeats-IsGap_iff s a b =
      let limit : ℕ = microseconds_of_minutes t.max_heartbeat_gap_min in
      let age : ℕ = microseconds_of_minutes t.max_heartbeat_age_min in
      let stamps : String → List ℕ = λ r. sort_by leb (beats_of r beats) in
      (
        λ m.
            let (r, k, found) = check_heartbeats-sensor beats now t (heartbeat_gap s a b) m in
            elim (Memᴰ.append_cases (gaps limit r (stamps r)) found) [
              | inl here ↦
                  let (e, g) =
                    gaps-IsGap limit r (stamps r) (sort_times (beats_of r beats)) k a b s here in
                  rw e ((IsGap-sort_by limit (beats_of r beats) a b).1 g)
              | inr there ↦ absurd (stale-no_gap age r now (stamps r) k a b s there)
            ],
        λ g. sensor-check_heartbeats beats now t (heartbeat_gap s a b) s a a g.0 (
            Memᴰ.append_left (stale age s now (stamps s)) (
              IsGap-gaps limit s (stamps s) (sort_times (beats_of s beats)) a b
                ((IsGap-sort_by limit (beats_of s beats) a b).0 g))),
      )

  -- `check_heartbeats` reports at the present time `n` that sensor `s` is silent since `last` exactly
  -- if a present time is given and is `n`, `last` is the latest beat of `s`, and it is longer ago
  -- than the limit.
  pub check_heartbeats-stale_iff :
      (s : String) (last n : ℕ)
      → Memᴰ (heartbeat_stale s last n) (check_heartbeats beats now t) ↔ (
          (now ≡ some n)
          × IsLatest last (beats_of s beats)
          × (microseconds_of_minutes t.max_heartbeat_age_min < n - last))
  unfolding check_sensor
  check_heartbeats-stale_iff s last n =
      let limit : ℕ = microseconds_of_minutes t.max_heartbeat_gap_min in
      let age : ℕ = microseconds_of_minutes t.max_heartbeat_age_min in
      let stamps : String → List ℕ = λ r. sort_by leb (beats_of r beats) in
      (
        λ m.
            let (r, k, found) = check_heartbeats-sensor beats now t (heartbeat_stale s last n) m in
            elim (Memᴰ.append_cases (gaps limit r (stamps r)) found) [
              | inl here ↦ absurd (gaps-no_stale limit r (stamps r) k last n s here)
              | inr there ↦
                  let (e, given, latest, late) =
                    stale-IsLatest age r now (stamps r) last n k s (sort_times (beats_of r beats))
                      there in
                  (given, rw e ((IsLatest-sort_by (beats_of r beats) last).1 latest), late)
            ],
        λ (given, latest, late).
            let found =
              IsLatest-stale age s (stamps s) last n (sort_times (beats_of s beats))
                ((IsLatest-sort_by (beats_of s beats) last).0 latest) late in
            sensor-check_heartbeats beats now t (heartbeat_stale s last n) s n last latest.0 (
              Memᴰ.append_right (gaps limit s (stamps s)) (
                subst (λ o. Memᴰ (n, heartbeat_stale s last n) (stale age s o (stamps s)))
                  (sym given) found)),
      )
