-- ===== src/Geo/Search.antt =====
-- scripts/geo_lookup.py: bisection and the search of one table.
use mathlib.Core.List.{Memᴰ}
use mirage_core.Shared.{
  ℕ, zero, suc, ◌+◌, ◌/◌, ◌≤◌, ◌<◌, ◌≡◌, ◌⊎◌, ◌↔◌, inl, inr, true, false, some, List, [], ◌∷◌, map,
  arith, leb, ltb, Bool-cases, Option-cases, length, get_elem?, length-map, get_elem?-map,
  get_elem?-some, get_elem?-lt, mem_of_get_elem?, get_elem?_of_mem, All, All-mem, sym, ◌∙◌,
}
use mirage_core.Shared.Sorting.{IsSorted, sort_by-IsSorted, sort_by-mem, mem-sort_by}
use mirage_core.Geo.{
  Range, starts_no_later, sorted_rows, bisect_loop, bisect_right, holding, find_range,
}

-- The numbers at positions below `k` are at most `x`; those from `k` on are above `x`.
abbrev AtMost : List ℕ → ℕ → ℕ → Type 0
AtMost a x k = (i v : ℕ) → i < k → get_elem? a i ≡ some v → v ≤ x

abbrev Above : List ℕ → ℕ → ℕ → Type 0
Above a x k = (i v : ℕ) → k ≤ i → get_elem? a i ≡ some v → x < v

abbrev Ascending : List ℕ → Type 0
Ascending a = (i j u v : ℕ) → i ≤ j → get_elem? a i ≡ some u → get_elem? a j ≡ some v → u ≤ v

-- What bisection promises of the insertion point `k`.
record Splits (a : List ℕ) (x k : ℕ) : Type 0 where
  within : k ≤ length a
  before : AtMost a x k
  after : Above a x k

module _ (a : List ℕ) (x : ℕ) (sorted : Ascending a) where
  bisect_loop-Splits :
      (fuel lo hi : ℕ)
      → hi < lo + fuel
      → lo ≤ hi
      → hi ≤ length a
      → AtMost a x lo
      → Above a x hi
      → Splits a x (bisect_loop fuel a x lo hi)
  unfolding bisect_loop
  bisect_loop-Splits zero lo hi f le h before after = absurd (omega arith)
  bisect_loop-Splits (suc fuel) lo hi f le h before after = elim (Bool-cases (ltb lo hi)) [
    | inr done ↦ rw done (record {
      within = ground arith;
      before = before;
      after = λ i v k e. after i v (ground arith) e;
    })
    | inl more ↦
        let (v, at) = get_elem?-some a ((lo + hi) / 2) (ground arith) in
        elim (Bool-cases (ltb x v)) [
          | inl left ↦
              rw (more, at, left)
                (bisect_loop-Splits fuel lo ((lo + hi) / 2) (ground arith) (ground arith)
                  (ground arith) before
                  (λ i w k e. let s = sorted ((lo + hi) / 2) i v w k at e in ground arith))
          | inr right ↦
              rw (more, at, right)
                (bisect_loop-Splits fuel ((lo + hi) / 2 + 1) hi (ground arith) (ground arith) h
                  (λ i w k e.
                    let s = sorted i ((lo + hi) / 2) w v (omega arith) e at in ground arith)
                  after)
        ]
  ]

  -- On an ascending list the loop's fuel is enough, and the result splits the list at `x`.
  bisect_right-Splits : Splits a x (bisect_right a x)
  unfolding bisect_right
  bisect_right-Splits =
      bisect_loop-Splits (suc (length a)) 0 (length a) (omega arith) (omega arith) (omega arith)
        (λ i v k e. absurd (omega arith))
        (λ i v k e. absurd (let l = get_elem?-lt a i e in omega arith))

module _ {A : Type 0} where
  abbrev starts : List (Range A) → List ℕ
  starts rows = map (λ r. r.start) rows

  starts-get :
      (rows : List (Range A)) (i : ℕ) {r : Range A}
      → get_elem? rows i ≡ some r
      → get_elem? (starts rows) i ≡ some r.start
  starts-get rows i e = rw (get_elem?-map (λ r. r.start) rows i, e)

  starts-get_inv :
      (rows : List (Range A)) (i v : ℕ)
      → get_elem? (starts rows) i ≡ some v
      → (r : Range A) × (get_elem? rows i ≡ some r) × (r.start ≡ v)
  starts-get_inv rows i v e = elim (Option-cases (get_elem? rows i)) [
    | inl out ↦ absurd (let m = get_elem?-map (λ (r : Range A). r.start) rows i in ground arith)
    | inr (r, at) ↦ (r, at, let m = starts-get rows i at in ground arith)
  ]

  IsSorted-get :
      (rows : List (Range A))
      → IsSorted starts_no_later rows
      → (i j : ℕ) {r s : Range A} → i ≤ j
      → get_elem? rows i ≡ some r
      → get_elem? rows j ≡ some s
      → r.start ≤ s.start
  IsSorted-get [] h i j k ei ej = absurd (cc)
  IsSorted-get (x ∷ xs) h zero zero k ei ej = ground arith
  IsSorted-get (x ∷ xs) h zero (suc j) {s = s} k ei ej =
      let m = All-mem (λ y. starts_no_later x y ≡ true) h.0 (mem_of_get_elem? xs j ej) in
      ground arith
  IsSorted-get (x ∷ xs) h (suc i) zero k ei ej = absurd (omega arith)
  IsSorted-get (x ∷ xs) h (suc i) (suc j) k ei ej = IsSorted-get xs h.1 i j (omega arith) ei ej

  starts-Ascending :
      (rows : List (Range A)) → IsSorted starts_no_later rows → Ascending (starts rows)
  starts-Ascending rows h i j u v k ei ej =
      let (r, er, eu) = starts-get_inv rows i u ei in
      let (s, es, ev) = starts-get_inv rows j v ej in
      let le = IsSorted-get rows h i j k er es in omega arith

  holding_sound :
      (rows : List (Range A)) (ip k : ℕ) {r : Range A}
      → holding rows ip k ≡ some r
      → Memᴰ r rows × (r.start ≤ ip) × (ip ≤ r.stop)
  unfolding holding
  holding_sound rows ip zero e = absurd (cc)
  holding_sound rows ip (suc idx) {r} e = elim (Option-cases (get_elem? rows idx)) [
    | inl out ↦ absurd (ground arith)
    | inr (s, at) ↦
        let same : s ≡ r = ground arith in
        (mem_of_get_elem? rows idx (cc), ground arith, ground arith)
  ]

  -- A row that is found stands in the table and holds the address.
  pub find_range_sound :
      (rows : List (Range A)) (ip : ℕ) {r : Range A}
      → find_range rows ip ≡ some r
      → Memᴰ r rows × (r.start ≤ ip) × (ip ≤ r.stop)
  unfolding find_range
  find_range_sound rows ip found = holding_sound rows ip _ found

  -- `r` starts after every other range that starts no later than `ip`.
  abbrev IsLast : List (Range A) → ℕ → Range A → Type 0
  IsLast rows ip r = (s : Range A) → Memᴰ s rows → s.start ≤ ip → (s ≡ r) ⊎ (s.start < r.start)

  holding_complete :
      (rows : List (Range A)) (ip k : ℕ) (r : Range A)
      → IsSorted starts_no_later rows
      → Splits (starts rows) ip k
      → Memᴰ r rows
      → r.start ≤ ip
      → ip ≤ r.stop
      → IsLast rows ip r
      → holding rows ip k ≡ some r
  unfolding holding
  holding_complete rows ip zero r sorted sp m lo hi last =
      let (i, at) = get_elem?_of_mem m in
      absurd (let a = sp.after i r.start (omega arith) (starts-get rows i at) in omega arith)
  holding_complete rows ip (suc idx) r sorted sp m lo hi last =
      let (i, at) = get_elem?_of_mem m in
      let (s, here) =
        get_elem?-some rows idx
          (let w = sp.within in omega (arith, length-map rows (λ (r : Range A). r.start))) in
      let below = sp.before idx s.start (omega arith) (starts-get rows idx here) in
      elim (last s (mem_of_get_elem? rows idx here) below) [
        | inl same ↦ ground arith
        | inr earlier ↦ absurd (
            let at_k = sp.after i r.start in
            let up = IsSorted-get rows sorted i idx {r = r} {s = s} in
            elim (Bool-cases (leb i idx)) [
              | inl le ↦ (let u = up (ground arith) at here in omega arith)
              | inr gt ↦ (let u = at_k (ground arith) (starts-get rows i at) in omega arith)
            ])
      ]

  -- Every row is a range, and no two rows overlap.
  abbrev pub IsDisjoint : List (Range A) → Type 0
  IsDisjoint [] = Unit
  IsDisjoint (r ∷ rs) =
      (r.start ≤ r.stop) × All (λ s. (r.stop < s.start) ⊎ (s.stop < r.start)) rs × IsDisjoint rs

  IsDisjoint-ordered :
      {r : Range A} {rows : List (Range A)} → Memᴰ r rows → IsDisjoint rows → r.start ≤ r.stop
  IsDisjoint-ordered (Memᴰ.head e) d = rw e d.0
  IsDisjoint-ordered (Memᴰ.tail m) d = IsDisjoint-ordered m d.2

  IsDisjoint-apart :
      {r s : Range A} {rows : List (Range A)}
      → Memᴰ r rows
      → Memᴰ s rows
      → IsDisjoint rows
      → (s ≡ r) ⊎ (r.stop < s.start) ⊎ (s.stop < r.start)
  IsDisjoint-apart (Memᴰ.head e) (Memᴰ.head k) d = inl (k ∙ sym e)
  IsDisjoint-apart {r = r} (Memᴰ.head {x = x} e) (Memᴰ.tail k) d =
      let a = All-mem (λ (t : Range A). (x.stop < t.start) ⊎ (t.stop < x.start)) d.1 k in
      inr (rw e a)
  IsDisjoint-apart {s = s} (Memᴰ.tail m) (Memᴰ.head {x = x} k) d =
      let a = All-mem (λ (t : Range A). (x.stop < t.start) ⊎ (t.stop < x.start)) d.1 m in
      inr (rw k (elim a [ inl p ↦ inr p | inr p ↦ inl p ]))
  IsDisjoint-apart (Memᴰ.tail m) (Memᴰ.tail k) d = IsDisjoint-apart m k d.2

  starts_total : (x y : Range A) → starts_no_later x y ≡ false → starts_no_later y x ≡ true
  starts_total x y h = ground arith

  starts_trans :
      (x y z : Range A)
      → starts_no_later x y ≡ true
      → starts_no_later y z ≡ true
      → starts_no_later x z ≡ true
  starts_trans x y z h k = ground arith

  pub sorted_rows-IsSorted : (rows : List (Range A)) → IsSorted starts_no_later (sorted_rows rows)
  sorted_rows-IsSorted = sort_by-IsSorted starts_no_later starts_total starts_trans

  -- In a table of disjoint ranges, sorted as the constructor sorts it, the search finds a row
  -- exactly when that row of the file holds the address.
  pub find_range_iff :
      (rows : List (Range A)) (ip : ℕ) (r : Range A)
      → IsDisjoint rows
      → (find_range (sorted_rows rows) ip ≡ some r) ↔ (Memᴰ r rows × (r.start ≤ ip) × (ip ≤ r.stop))
  find_range_iff rows ip r d = (
    λ e.
        let (m, lo, hi) = find_range_sound (sorted_rows rows) ip e in
        (mem-sort_by starts_no_later rows m, lo, hi),
    λ (m, lo, hi).
        unfold find_range in
        holding_complete (sorted_rows rows) ip _ r (sorted_rows-IsSorted rows)
          (bisect_right-Splits (starts (sorted_rows rows)) ip
            (starts-Ascending (sorted_rows rows) (sorted_rows-IsSorted rows)))
          (sort_by-mem starts_no_later m) lo hi
          (λ s k le. elim (IsDisjoint-apart m (mem-sort_by starts_no_later rows k) d) [
            | inl e ↦ inl e
            | inr (inl after) ↦ absurd (omega arith)
            | inr (inr before) ↦
                inr
                  (let o = IsDisjoint-ordered (mem-sort_by starts_no_later rows k) d in omega arith)
          ]),
  )
