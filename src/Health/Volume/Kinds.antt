-- ===== src/Health/Volume/Kinds.antt =====
-- scripts/daily_health_check.py: what `check_day` finds, by the kind of the finding.
use mathlib.Core.List.{Memᴰ}
use mathlib.Core.List.Memᴰ
use mirage_core.Shared.{
  ℕ, ◌<◌, ◌≤◌, ◌≡◌, refl, sym, ◌↔◌, ◌⊎◌, inl, inr, true, false, List, ltb, leb, arith, Bool-cases,
  ltb→lt, leb→le, le→leb,
}
use mirage_core.Shared.Flat.{mem_of_if}
use mirage_core.Health.{
  Rates, Thresholds, Finding, date_of, no_sessions, volume_drop, acceptance_too_high,
  acceptance_too_low,
}
use mirage_core.Health.Volume.{Row, last_days, check_volume, check_rate, check_day}

module _ {fl : Rates} (t : Thresholds fl) (d : ℕ) (r : Row) (history : List ℕ) where
  -- What `check_volume` gives is a drop of volume.
  check_volume-drop :
      {f : Finding}
      → Memᴰ f (check_volume t d r history)
      → (prior : List ℕ) × (f ≡ volume_drop d r.sessions prior)
  unfolding check_volume
  check_volume-drop m = let (drops, e) = mem_of_if _ m in (last_days t.history_days history, e)

  -- What `check_rate` gives is one of the two findings about the rate.
  check_rate-cases :
      {f : Finding}
      → Memᴰ f (check_rate t d r)
      → (t.min_attempts_for_rate ≤ r.attempts)
        × (((f ≡ acceptance_too_high d r.accepted r.attempts)
              × (fl.lt t.max_accept (fl.ratio r.accepted r.attempts) ≡ true))
            ⊎ ((f ≡ acceptance_too_low d r.accepted r.attempts)
                × (fl.lt t.max_accept (fl.ratio r.accepted r.attempts) ≡ false)
                × (fl.lt (fl.ratio r.accepted r.attempts) t.min_accept ≡ true)))
  unfolding check_rate
  check_rate-cases m = elim (Bool-cases (leb t.min_attempts_for_rate r.attempts)) [
    | inr few ↦ elim (rw few at m) [ ]
    | inl enough ↦ (
      leb→le t.min_attempts_for_rate r.attempts enough,
      elim (Bool-cases (fl.lt t.max_accept (fl.ratio r.accepted r.attempts))) [
        | inl high ↦ inl (Memᴰ.eq_of_singleton (rw (enough, high) at m), high)
        | inr not_high ↦
            let (low, e) = mem_of_if _ (rw (enough, not_high) at m) in inr (e, not_high, low)
      ],
    )
  ]

  pub no_sessions_iff :
      (n : ℕ)
      → Memᴰ (no_sessions d n) (check_day t d r history).0
        ↔ ((n ≡ r.sessions) × (r.sessions < t.min_sessions))
  unfolding check_day
  no_sessions_iff n = elim (Bool-cases (ltb r.sessions t.min_sessions)) [
    | inl few ↦ rw few (
      λ m. let e = Memᴰ.eq_of_singleton m in (cc, ltb→lt r.sessions t.min_sessions few),
      λ (e, _). rw e (Memᴰ.head refl),
    )
    | inr enough ↦ rw enough (
      λ m. absurd (elim (Memᴰ.append_cases (check_volume t d r history) m) [
        | inl drop ↦ let (prior, e) = check_volume-drop drop in cc
        | inr rate ↦ elim ((check_rate-cases rate).1) [
          | inl high ↦ let e = high.0 in cc
          | inr low ↦ let e = low.0 in cc
        ]
      ]),
      λ (_, few). absurd (ground (arith, enough)),
    )
  ]

  pub too_high_iff :
      (a n : ℕ)
      → Memᴰ (acceptance_too_high d a n) (check_day t d r history).0 ↔ (
          (t.min_sessions ≤ r.sessions)
          × (a ≡ r.accepted)
          × (n ≡ r.attempts)
          × (t.min_attempts_for_rate ≤ n)
          × (fl.lt t.max_accept (fl.ratio a n) ≡ true))
  unfolding check_day check_rate
  too_high_iff a n = elim (Bool-cases (ltb r.sessions t.min_sessions)) [
    | inl few ↦ rw few (
      λ m. let e = Memᴰ.eq_of_singleton m in absurd (cc),
      λ (enough, ea, en, many, above). absurd (ground (arith, few)),
    )
    | inr some_data ↦ rw some_data (
      λ m. elim (Memᴰ.append_cases (check_volume t d r history) m) [
        | inl drop ↦ let (prior, e) = check_volume-drop drop in absurd (cc)
        | inr rate ↦
            let (enough, which) = check_rate-cases rate in
            elim which [
              | inl high ↦
                  let (e, above) = high in
                  let ea : a ≡ r.accepted = cc in
                  let en : n ≡ r.attempts = cc in
                  (ground (arith, some_data), ea, en, rw en enough, rw (ea, en) above)
              | inr low ↦ let e = low.0 in absurd (cc)
            ]
      ],
      λ (_, ea, en, enough, above).
          Memᴰ.append_right (check_volume t d r history)
            (rw (sym ea, sym en, le→leb t.min_attempts_for_rate n enough, above) (Memᴰ.head refl)),
    )
  ]

  pub too_low_iff :
      (a n : ℕ)
      → Memᴰ (acceptance_too_low d a n) (check_day t d r history).0 ↔ (
          (t.min_sessions ≤ r.sessions)
          × (a ≡ r.accepted)
          × (n ≡ r.attempts)
          × (t.min_attempts_for_rate ≤ n)
          × (fl.lt t.max_accept (fl.ratio a n) ≡ false)
          × (fl.lt (fl.ratio a n) t.min_accept ≡ true))
  unfolding check_day check_rate
  too_low_iff a n = elim (Bool-cases (ltb r.sessions t.min_sessions)) [
    | inl few ↦ rw few (
      λ m. let e = Memᴰ.eq_of_singleton m in absurd (cc),
      λ (enough, ea, en, many, not_above, below). absurd (ground (arith, few)),
    )
    | inr some_data ↦ rw some_data (
      λ m. elim (Memᴰ.append_cases (check_volume t d r history) m) [
        | inl drop ↦ let (prior, e) = check_volume-drop drop in absurd (cc)
        | inr rate ↦
            let (enough, which) = check_rate-cases rate in
            elim which [
              | inl high ↦ let e = high.0 in absurd (cc)
              | inr low ↦
                  let (e, not_above, below) = low in
                  let ea : a ≡ r.accepted = cc in
                  let en : n ≡ r.attempts = cc in
                  (
                    ground (arith, some_data),
                    ea,
                    en,
                    rw en enough,
                    rw (ea, en) not_above,
                    rw (ea, en) below,
                  )
            ]
      ],
      λ (_, ea, en, enough, not_above, below). Memᴰ.append_right (check_volume t d r history) (
          rw (sym ea, sym en, le→leb t.min_attempts_for_rate n enough, not_above, below)
            (Memᴰ.head refl)),
    )
  ]

-- A finding of a day is filed under it.
pub check_day-date :
    {fl : Rates} (t : Thresholds fl) (d : ℕ) (r : Row) (history : List ℕ) (f : Finding)
    → Memᴰ f (check_day t d r history).0
    → date_of f ≡ d
unfolding check_day date_of
check_day-date t d r history f m = elim (Bool-cases (ltb r.sessions t.min_sessions)) [
  | inl few ↦ rw (Memᴰ.eq_of_singleton (rw few at m)) refl
  | inr enough ↦ elim (Memᴰ.append_cases (check_volume t d r history) (rw enough at m)) [
    | inl drop ↦ let (prior, e) = check_volume-drop t d r history drop in rw e refl
    | inr rate ↦ elim ((check_rate-cases t d r history rate).1) [
      | inl high ↦ rw (high.0) refl
      | inr low ↦ rw (low.0) refl
    ]
  ]
]
