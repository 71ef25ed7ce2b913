-- ===== src/Sampler/Batches.antt =====
-- ml/mirage/reid/pk_sampler.py: what a batch holds.
use mathlib.Core.List.{Memᴰ, Nodup}
use mathlib.Core.List.Memᴰ
use native.Mathlib.Nat.{div-eq_of_lt, div-eq-sub-div}
use mathlib.Core.Path.{ap₂}
use native.Mathlib.Numerals.{add-one}
use mirage_core.Shared.{
  ℕ, zero, suc, ◌+◌, ◌-◌, ◌*◌, ◌/◌, ◌≤◌, ◌<◌, ◌≡◌, sym, ◌∙◌, inl, inr, String, false, some, List,
  [], ◌∷◌, ◌++◌, ltb, leb, string_eq, arith, Bool-cases, length, length-append, length-map,
  get_elem?, mem_of_get_elem?, All, All-mem, All-of_mem, append-nil, append_assoc,
  get_elem?-append_left, get_elem?-append_right, le→leb,
}
use mirage_core.Shared.Dict.{lookup, dict_keys, Nodup-dict_keys}
use mirage_core.Shared.Grouping.{or_nil}
use mirage_core.Sampler.Rows.{mem-group_rows, group_rows-pos, group_rows-NodupKeys}
use mirage_core.Sampler.{Rng, PkBatchSampler, group_rows, make, fill, draw, draw_all, next_batch}

div-eq_zero : (i k : ℕ) → i < k → i / k ≡ 0
div-eq_zero i k h = div-eq_of_lt h

div-eq_suc : (i k : ℕ) → 0 < k → k ≤ i → i / k ≡ suc ((i - k) / k)
div-eq_suc i k pos h = div-eq-sub-div pos h ∙ add-one ((i - k) / k)

-- What the constructor's checks guarantee.
made-fields :
    (labels : List String) (p k batches : ℕ) (sampler : PkBatchSampler)
    → make labels p k batches ≡ some sampler
    → (sampler.by_identity ≡ group_rows labels)
      × (sampler.p ≡ p)
      × (sampler.k ≡ k)
      × (0 < k)
      × (p ≤ length (group_rows labels))
unfolding make
made-fields labels p k batches sampler made =
    (ground arith, ground arith, ground arith, ground arith, ground arith)

module _ (rng : Rng) where
  open rng use {
    State, sample_text, sample_index, choice_index, length-sample_index, length-sample_text,
    mem-sample_index, mem-sample_text, nodup-sample_index, nodup-sample_text, mem-choice_index,
  }

  length-fill :
      (missing : ℕ) (available picks : List ℕ) (s : State)
      → length (fill rng missing available picks s).0 ≡ length picks + missing
  unfolding fill
  length-fill zero available picks s = omega arith
  length-fill (suc missing) available picks s =
      let x = choice_index available s in
      omega (
        arith,
        length-fill missing available (picks ++ x.0 ∷ []) x.1,
        length-append picks (x.0 ∷ []),
      )

  length-draw : (k : ℕ) (available : List ℕ) (s : State) → length (draw rng k available s).0 ≡ k
  unfolding draw
  length-draw k available s = elim (Bool-cases (leb k (length available))) [
    | inl enough ↦ rw enough (length-sample_index available k s (ground arith))
    | inr short ↦
        rw short (let n = length-fill (k - length available) available available s in ground arith)
  ]

  length-draw_all :
      (sampler : PkBatchSampler) (chosen : List String) (s : State)
      → length (draw_all rng sampler chosen s).0 ≡ length chosen * sampler.k
  unfolding draw_all
  length-draw_all sampler [] s = omega arith
  length-draw_all sampler (identity ∷ chosen) s =
      let rows = or_nil (lookup identity sampler.by_identity) in
      let b = draw rng sampler.k rows s in
      omega (
        arith,
        length-append b.0 (draw_all rng sampler chosen b.1).0,
        length-draw sampler.k rows s,
        length-draw_all sampler chosen b.1,
      )

  -- What the padding adds to the picks comes from the rows that are there.
  fill_lem :
      (missing : ℕ) (available picks : List ℕ) (s : State)
      → 0 < length available
      → (extra : List ℕ) × ((fill rng missing available picks s).0 ≡ picks ++ extra)
        × All (λ x. Memᴰ x available) extra
  unfolding fill
  fill_lem zero available picks s pos = ([], sym (append-nil picks), tt)
  fill_lem (suc missing) available picks s pos =
      let x = choice_index available s in
      let (extra, e, m) = fill_lem missing available (picks ++ x.0 ∷ []) x.1 pos in
      (x.0 ∷ extra, e ∙ append_assoc picks (x.0 ∷ []) extra, (mem-choice_index available s pos, m))

  -- An identity has at least one session. One with at least `k` sessions gives `k` of them without a repeat, if its rows have
  -- none. One with fewer gives all of them first and pads with repeats of its own.
  pub draw_lem :
      (k : ℕ) (available : List ℕ) (s : State)
      → 0 < length available
      → (length (draw rng k available s).0 ≡ k)
        × (k ≤ length available → Nodup available → Nodup (draw rng k available s).0)
        × (length available < k
            → (extra : List ℕ) × ((draw rng k available s).0 ≡ available ++ extra)
              × All (λ x. Memᴰ x available) extra)
  unfolding draw
  draw_lem k available s pos = (
    length-draw k available s,
    λ enough distinct.
        rw (le→leb k (length available) enough) (nodup-sample_index available k s enough distinct),
    λ short.
        let e : leb k (length available) ≡ false = ground arith in
        rw e (fill_lem (k - length available) available available s pos),
  )

  -- Every pick is one of the identity's rows.
  draw-mem :
      (k : ℕ) (available : List ℕ) (s : State)
      → 0 < length available
      → (x : ℕ) → Memᴰ x (draw rng k available s).0
      → Memᴰ x available
  draw-mem k available s pos x m = elim (Bool-cases (leb k (length available))) [
    | inl enough ↦ mem-sample_index available k s (ground arith) x (unfold draw in (rw enough at m))
    | inr short ↦
        let (extra, e, from_rows) = (draw_lem k available s pos).2 (ground arith) in
        elim (Memᴰ.append_cases available (rw e at m)) [
          | inl first ↦ first
          | inr padded ↦ All-mem (λ y. Memᴰ y available) from_rows padded
        ]
  ]

  -- Position `i` of what is drawn for `chosen` belongs to the identity at position `i / k`.
  draw_all-get :
      (labels : List String) (sampler : PkBatchSampler) (chosen : List String) (s : State)
      → sampler.by_identity ≡ group_rows labels
      → 0 < sampler.k
      → All (λ c. Memᴰ c (dict_keys (group_rows labels))) chosen
      → (i idx : ℕ) → get_elem? (draw_all rng sampler chosen s).0 i ≡ some idx
      → get_elem? labels idx ≡ get_elem? chosen (i / sampler.k)
  unfolding draw_all
  draw_all-get labels sampler [] s same pos known i idx at = absurd (cc)
  draw_all-get labels sampler (c ∷ chosen) s same pos known i idx at =
      let rows = or_nil (lookup c sampler.by_identity) in
      let b = draw rng sampler.k rows s in
      let n = length-draw sampler.k rows s in
      let some_rows : 0 < length rows = rw same (group_rows-pos labels c known.0) in
      elim (Bool-cases (ltb i sampler.k)) [
        | inl early ↦
            let here : get_elem? b.0 i ≡ some idx =
              sym (get_elem?-append_left b.0 _ i (ground arith)) ∙ at in
            let filed = draw-mem sampler.k rows s some_rows idx (mem_of_get_elem? b.0 i here) in
            let first : i / sampler.k ≡ 0 = div-eq_zero i sampler.k (ground arith) in
            rw first (mem-group_rows labels c idx (rw same at filed))
        | inr late ↦
            let later : get_elem? (draw_all rng sampler chosen b.1).0 (i - sampler.k) ≡ some idx =
              rw n at (
                sym
                  (get_elem?-append_right b.0 (draw_all rng sampler chosen b.1).0 i (ground arith))
                ∙ at) in
            rw (div-eq_suc i sampler.k pos (ground arith))
              (draw_all-get labels sampler chosen b.1 same pos known.1 (i - sampler.k) idx later)
      ]

  module _ (labels : List String) (p k batches : ℕ) (sampler : PkBatchSampler)
      (made : make labels p k batches ≡ some sampler) where
    -- A batch of a sampler that the constructor made has P times K positions. There are P different identities such that the row at each
    -- position carries the label of the identity of its block of K.
    pub next_batch_lem :
        (s : State)
        → (length (next_batch rng sampler s).0 ≡ p * k)
          × ((chosen : List String) × Nodup chosen
              × (length chosen ≡ p)
              × ((i idx : ℕ)
                  → get_elem? (next_batch rng sampler s).0 i ≡ some idx
                  → get_elem? labels idx ≡ get_elem? chosen (i / k)))
    unfolding next_batch
    next_batch_lem s =
        let (same, is_p, is_k, pos, enough) = made-fields labels p k batches sampler made in
        let names = dict_keys sampler.by_identity in
        let drawn = sample_text names sampler.p s in
        let fits : sampler.p ≤ length names =
          rw (same, is_p)
            (omega (arith, length-map (group_rows labels) (λ (q : String × List ℕ). q.0))) in
        let chosen_p = length-sample_text names sampler.p s fits in
        let distinct : Nodup names =
          rw same (Nodup-dict_keys (group_rows labels) (group_rows-NodupKeys labels)) in
        (
          length-draw_all sampler drawn.0 drawn.1 ∙ ap₂ (λ (a b : ℕ). a * b) (chosen_p ∙ is_p) is_k,
          (
            drawn.0,
            nodup-sample_text names sampler.p s fits distinct,
            chosen_p ∙ is_p,
            λ i idx at. rw (← is_k) (
                draw_all-get labels sampler drawn.0 drawn.1 same (rw is_k pos)
                  (All-of_mem (λ c. Memᴰ c (dict_keys (group_rows labels))) drawn.0
                    (λ c m. rw (← same) (mem-sample_text names sampler.p s fits c m)))
                  i idx at),
          ),
        )
