-- ===== src/Health/Beats/Gaps.antt =====
-- scripts/daily_health_check.py: the silences that `check_heartbeats` reports.
use mathlib.Core.List.{Memᴰ}
use mathlib.Core.List.Memᴰ
use mirage_core.Shared.{
  ℕ, ◌-◌, ◌<◌, ◌≤◌, ◌≡◌, refl, ap, inl, inr, true, String, List, [], ◌∷◌, ltb, leb, leb→le, ltb→lt,
  lt→ltb, arith, Bool-cases, All, All-mem, string_eq,
}
use mirage_core.Shared.Sorting.{IsSorted}
use mirage_core.Health.{Finding, heartbeat_gap}
use mirage_core.Health.Beats.{gaps}

-- `a` and `b` are times of the list, more than `limit` apart, with none between.
abbrev pub IsGap : ℕ → List ℕ → ℕ → ℕ → Type 0
IsGap limit xs a b =
    Memᴰ a xs × Memᴰ b xs × (limit < b - a) × ((c : ℕ) → Memᴰ c xs → a < c → c < b → ⊥)

pub mem_above : (x : ℕ) (xs : List ℕ) → All (λ y. leb x y ≡ true) xs → (c : ℕ) → Memᴰ c xs → x ≤ c
mem_above x xs h c m = leb→le x c (All-mem (λ y. leb x y ≡ true) h m)

IsGap-later :
    (limit x : ℕ) (xs : List ℕ) (a b : ℕ)
    → All (λ y. leb x y ≡ true) xs
    → IsGap limit xs a b
    → IsGap limit (x ∷ xs) a b
IsGap-later limit x xs a b above (ma, mb, wide, none_between) =
    let low : x ≤ a = mem_above x xs above a ma in
    (
      Memᴰ.tail ma,
      Memᴰ.tail mb,
      wide,
      λ c m above_a below_b. elim (Memᴰ.cases_cons m) [
        | inl e ↦ omega arith
        | inr k ↦ none_between c k above_a below_b
      ],
    )

IsGap-first :
    (limit x y : ℕ) (rest : List ℕ)
    → IsSorted leb (x ∷ y ∷ rest)
    → limit < y - x
    → IsGap limit (x ∷ y ∷ rest) x y
IsGap-first limit x y rest sorted wide = (
  Memᴰ.head refl,
  Memᴰ.tail (Memᴰ.head refl),
  wide,
  λ c m above below. elim (Memᴰ.cases_cons m) [
    | inl e ↦ omega arith
    | inr k ↦ elim (Memᴰ.cases_cons k) [
      | inl e ↦ omega arith
      | inr n ↦ omega (arith, mem_above y rest sorted.1.0 c n)
    ]
  ],
)

pub gaps-IsGap :
    (limit : ℕ) (s : String) (xs : List ℕ)
    → IsSorted leb xs
    → (k a b : ℕ) (r : String) → Memᴰ (k, heartbeat_gap r a b) (gaps limit s xs)
    → (r ≡ s) × IsGap limit xs a b
unfolding gaps
gaps-IsGap limit s [] sorted k a b r m = elim m [ ]
gaps-IsGap limit s (x ∷ []) sorted k a b r m = elim m [ ]
gaps-IsGap limit s (x ∷ y ∷ rest) sorted k a b r m =
    let later : Memᴰ (k, heartbeat_gap r a b) (gaps limit s (y ∷ rest))
        → (r ≡ s) × IsGap limit (x ∷ y ∷ rest) a b =
      λ n.
        let (e, g) = gaps-IsGap limit s (y ∷ rest) sorted.1 k a b r n in
        (e, IsGap-later limit x (y ∷ rest) a b sorted.0 g) in
    elim (Bool-cases (ltb limit (y - x))) [
      | inl wide ↦ elim (Memᴰ.cases_cons (rw wide at m)) [
        | inl e ↦
            let f : heartbeat_gap r a b ≡ heartbeat_gap s x y = ap (λ (p : ℕ × Finding). p.1) e in
            let ea : a ≡ x = cc in
            let eb : b ≡ y = cc in
            (cc, rw (ea, eb) (IsGap-first limit x y rest sorted (ltb→lt limit (y - x) wide)))
        | inr n ↦ later n
      ]
      | inr narrow ↦ later (rw narrow at m)
    ]

-- A finding of the later times is one of all.
gaps_later :
    (limit : ℕ) (s : String) (x y : ℕ) (rest : List ℕ) {f : ℕ × Finding}
    → Memᴰ f (gaps limit s (y ∷ rest))
    → Memᴰ f (gaps limit s (x ∷ y ∷ rest))
unfolding gaps
gaps_later limit s x y rest m = elim (Bool-cases (ltb limit (y - x))) [
  | inl wide ↦ rw wide (Memᴰ.tail m)
  | inr narrow ↦ rw narrow m
]

pub IsGap-gaps :
    (limit : ℕ) (s : String) (xs : List ℕ)
    → IsSorted leb xs
    → (a b : ℕ) → IsGap limit xs a b
    → Memᴰ (a, heartbeat_gap s a b) (gaps limit s xs)
unfolding gaps
IsGap-gaps limit s [] sorted a b (ma, mb, wide, apart) = elim ma [ ]
IsGap-gaps limit s (x ∷ []) sorted a b (ma, mb, wide, apart) =
    let ea : a ≡ x = Memᴰ.eq_of_singleton ma in
    let eb : b ≡ x = Memᴰ.eq_of_singleton mb in absurd (omega arith)
IsGap-gaps limit s (x ∷ y ∷ rest) sorted a b (ma, mb, wide, apart) = elim (Memᴰ.cases_cons mb) [
  | inl eb ↦ elim (Memᴰ.cases_cons ma) [
    | inl ea ↦ absurd (omega arith)
    | inr ka ↦ absurd (omega (arith, mem_above x (y ∷ rest) sorted.0 a ka))
  ]
  | inr kb ↦ elim (Memᴰ.cases_cons ma) [
    | inl ea ↦ elim (Bool-cases (ltb x y)) [
      | inl below ↦
          let low : y ≤ b = elim (Memᴰ.cases_cons kb) [
            | inl e ↦ omega arith
            | inr n ↦ mem_above y rest sorted.1.0 b n
          ] in
          let x_below : a < y = rw ea (ltb→lt x y below) in
          let eb : b ≡ y = elim (Bool-cases (ltb y b)) [
            | inl above ↦ absurd (apart y (Memᴰ.tail (Memᴰ.head refl)) x_below (ltb→lt y b above))
            | inr level ↦ ground arith
          ] in
          let far : ltb limit (y - x) ≡ true = lt→ltb limit (y - x) (rw (ea, eb) at wide) in
          rw (ea, eb, far) (Memᴰ.head refl)
      | inr level ↦
          let same : a ≡ y = ground (arith, mem_above x (y ∷ rest) sorted.0 y (Memᴰ.head refl)) in
          gaps_later limit s x y rest (
            IsGap-gaps limit s (y ∷ rest) sorted.1 a b
              (Memᴰ.head same, kb, wide, λ c m. apart c (Memᴰ.tail m)))
    ]
    | inr ka ↦
        gaps_later limit s x y rest
          (IsGap-gaps limit s (y ∷ rest) sorted.1 a b (ka, kb, wide, λ c m. apart c (Memᴰ.tail m)))
  ]
]
