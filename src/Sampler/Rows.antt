-- ===== src/Sampler/Rows.antt =====
-- ml/mirage/reid/pk_sampler.py: the rows filed under an identity are the rows with its label.
use mathlib.Core.List.{Memᴰ}
use mathlib.Core.List.Memᴰ
use mirage_core.Shared.{
  ℕ, suc, ◌+◌, ◌<◌, ◌≡◌, refl, sym, ap, ◌≢◌, String, Option, inl, inr, none, some, List, [], ◌∷◌,
  ◌==◌, string_eq, ==_iff, arith, length, get_elem?, mem-keep,
}
use mirage_core.Shared.Dict.{lookup, dict_keys, mem_of_keys, NodupKeys}
use mirage_core.Shared.Grouping.{
  or_nil, or_nil-non_empty, lookup-group_by, group_by-NodupKeys, non_empty,
}
use mirage_core.Sampler.{enumerate_rows, group_rows}

-- What a row's pair says, for labels that start at row `n` of the data set.
enumerate_rows-mem :
    (n : ℕ) (labels : List String) {r : String × ℕ}
    → Memᴰ r (enumerate_rows n labels)
    → (j : ℕ) × (r.1 ≡ n + j) × (get_elem? labels j ≡ some r.0)
unfolding enumerate_rows
enumerate_rows-mem n [] m = elim m [ ]
enumerate_rows-mem n (l ∷ labels) {r} m = elim (Memᴰ.cases_cons m) [
  | inl first ↦
      let e : r.0 ≡ l = ap (λ (q : String × ℕ). q.0) first in
      let k : r.1 ≡ n = ap (λ (q : String × ℕ). q.1) first in (0, omega arith, ap some (sym e))
  | inr later ↦ let (j, e, at) = enumerate_rows-mem (n + 1) labels later in (suc j, omega arith, at)
]

-- A row filed under an identity carries its label.
pub mem-group_rows :
    (labels : List String) (identity : String) (idx : ℕ)
    → Memᴰ idx (or_nil (lookup identity (group_rows labels)))
    → get_elem? labels idx ≡ some identity
unfolding group_rows
mem-group_rows labels identity idx m =
    let filed =
      lookup-group_by (λ (r : String × ℕ). r.0) (λ r. r.1) identity (enumerate_rows 0 labels) in
    let listed = rw (filed, or_nil-non_empty) at m in
    let (r, in_group, is_idx) = Memᴰ.of_map (λ (r : String × ℕ). r.1) _ listed in
    let (in_rows, labelled) = mem-keep (λ (r : String × ℕ). r.0 == identity) _ in_group in
    let (j, at_j, at) = enumerate_rows-mem 0 labels in_rows in
    let e : idx ≡ j = omega arith in
    let l : r.0 ≡ identity = (==_iff r.0 identity).0 labelled in rw (e, ← l) at

or_nil-pos : (o : Option (List ℕ)) → o ≢ none → o ≢ some [] → 0 < length (or_nil o)
or_nil-pos none h k = absurd (h refl)
or_nil-pos (some []) h k = absurd (k refl)
or_nil-pos (some (x ∷ xs)) h k = omega arith

non_empty-ne : (xs : List ℕ) → non_empty xs ≢ some []
non_empty-ne [] h = cc
non_empty-ne (x ∷ xs) h = ground arith

-- The rows filed under an identity that has a label are not empty.
pub group_rows-pos :
    (labels : List String) (identity : String)
    → Memᴰ identity (dict_keys (group_rows labels))
    → 0 < length (or_nil (lookup identity (group_rows labels)))
unfolding group_rows
group_rows-pos labels identity m = or_nil-pos _ (mem_of_keys identity (group_rows labels) m) (
    rw (lookup-group_by (λ (r : String × ℕ). r.0) (λ r. r.1) identity (enumerate_rows 0 labels))
      (non_empty-ne _))

pub group_rows-NodupKeys : (labels : List String) → NodupKeys (group_rows labels)
unfolding group_rows
group_rows-NodupKeys labels = group_by-NodupKeys (λ r. r.0) (λ r. r.1) (enumerate_rows 0 labels)
