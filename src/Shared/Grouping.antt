-- ===== src/Shared/Grouping.antt =====
-- Python's `d.setdefault(key(x), []).append(val(x))` over a list: the values of each key, in order.
use mathlib.Core.Path.{◌≡◌, refl, ap, sym, ◌∙◌}
use mathlib.Core.Logic.{inl, inr}
use mathlib.Core.Option.{Option, none, some}
use mathlib.Core.List.{List, [], ◌∷◌, ◌++◌, map, append-nil, append_assoc, Memᴰ}
use mirage_core.Shared.Tests.{Bool-cases}
use mirage_core.Shared.Keys.{Eq, ◌==◌}
use mirage_core.Shared.Lists.{keep}
use mirage_core.Shared.Dict.{
  Dict, lookup, insert, lookup-insert, NodupKeys, insert-NodupKeys, lookup_of_mem, mem_of_lookup,
}

module _ {ℓ} {A : Type ℓ} where
  pub map_self : (xs : List A) → map (λ x. x) xs ≡ xs
  map_self [] = refl
  map_self (x ∷ xs) = ap (λ ys. x ∷ ys) (map_self xs)

  -- The list at a key that may be missing.
  abbrev pub or_nil : Option (List A) → List A
  or_nil none = []
  or_nil (some xs) = xs

  -- A group is there only if it has a member.
  abbrev pub non_empty : List A → Option (List A)
  non_empty [] = none
  non_empty (x ∷ xs) = some (x ∷ xs)

  pub or_nil-non_empty : (xs : List A) → or_nil (non_empty xs) ≡ xs
  or_nil-non_empty [] = refl
  or_nil-non_empty (x ∷ xs) = refl

  abbrev extended : Option (List A) → List A → Option (List A)
  extended none xs = non_empty xs
  extended (some old) xs = some (old ++ xs)

  extended-nil : (o : Option (List A)) → o ≡ extended o []
  extended-nil none = refl
  extended-nil (some old) = ap some (sym (append-nil old))

  extended-cons :
      (o : Option (List A)) (x : A) (xs : List A)
      → extended (some (or_nil o ++ x ∷ [])) xs ≡ extended o (x ∷ xs)
  extended-cons none x xs = refl
  extended-cons (some old) x xs = ap some (append_assoc old (x ∷ []) xs)

module _ {ℓ κ} {K : Type ℓ} {V : Type κ} ⦃e : Eq K⦄ where
  -- `d.setdefault(k, []).append(v)`
  abbrev pub append_to : K → V → Dict K (List V) → Dict K (List V)
  append_to k v d = insert k (or_nil (lookup k d) ++ v ∷ []) d

module _ {ℓ κ μ} {A : Type μ} {K : Type ℓ} {V : Type κ} ⦃e : Eq K⦄ (key : A → K) (val : A → V) where
  unfoldable pub group_by : Dict K (List V) → List A → Dict K (List V)
  group_by d [] = d
  group_by d (x ∷ xs) = group_by (append_to (key x) (val x) d) xs

  -- What the list holds of one key.
  abbrev pub values_at : K → List A → List V
  values_at k xs = map val (keep (λ x. key x == k) xs)

  lookup-group_by_from :
      (k : K) (d : Dict K (List V)) (xs : List A)
      → lookup k (group_by d xs) ≡ extended (lookup k d) (values_at k xs)
  unfolding group_by
  lookup-group_by_from k d [] = extended-nil (lookup k d)
  lookup-group_by_from k d (x ∷ xs) = elim (Bool-cases (key x == k)) [
    | inl same ↦
        rw (lookup-group_by_from k (append_to (key x) (val x) d) xs, lookup-insert, same)
          (rw ((e.is_eq_iff (key x) k).0 same)
            (extended-cons (lookup k d) (val x) (values_at k xs)))
    | inr other ↦
        rw (lookup-group_by_from k (append_to (key x) (val x) d) xs, lookup-insert, other) refl
  ]

  -- The group of a key is what the list holds of it, and a key without members has no group.
  pub lookup-group_by :
      (k : K) (xs : List A) → lookup k (group_by [] xs) ≡ non_empty (values_at k xs)
  lookup-group_by k xs = lookup-group_by_from k [] xs

  group_by-NodupKeys_from :
      (d : Dict K (List V)) (xs : List A) → NodupKeys d → NodupKeys (group_by d xs)
  unfolding group_by
  group_by-NodupKeys_from d [] h = h
  group_by-NodupKeys_from d (x ∷ xs) h =
      group_by-NodupKeys_from (append_to (key x) (val x) d) xs
        (insert-NodupKeys (key x) (or_nil (lookup (key x) d) ++ val x ∷ []) d h)

  pub group_by-NodupKeys : (xs : List A) → NodupKeys (group_by [] xs)
  group_by-NodupKeys xs = group_by-NodupKeys_from [] xs tt

  -- The groups of the dict are the values of their keys, and every key with a value has one.
  pub group_by-values_at :
      (xs : List A) (k : K) (vs : List V) → Memᴰ (k, vs) (group_by [] xs) → vs ≡ values_at k xs
  group_by-values_at xs k vs m =
      go (values_at k xs) (sym (lookup_of_mem m (group_by-NodupKeys xs)) ∙ lookup-group_by k xs)
    where
      go : (ys : List V) → some vs ≡ non_empty ys → vs ≡ ys
      go [] e = absurd (cc)
      go (y ∷ ys) e = cc

  pub values_at-group_by :
      (xs : List A) (k : K) {v : V}
      → Memᴰ v (values_at k xs)
      → Memᴰ (k, values_at k xs) (group_by [] xs)
  values_at-group_by xs k m =
      mem_of_lookup k (values_at k xs) (group_by [] xs)
        (lookup-group_by k xs ∙ go (values_at k xs) m)
    where
      go : (ys : List V) {v : V} → Memᴰ v ys → non_empty ys ≡ some ys
      go [] n = elim n [ ]
      go (y ∷ ys) n = refl
