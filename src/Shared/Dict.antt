-- ===== src/Shared/Dict.antt =====
-- Python's dict as an association list in insertion order. Assigning to a present key keeps its
-- place, a new key goes to the end.
use mathlib.Core.Path.{◌≡◌, refl, ap}
use mathlib.Core.Option.{Option, none, some}
use mathlib.Core.List.{List, [], ◌∷◌, map, Memᴰ, Nodup, Nodup-cons, Nodup-nil}
use mathlib.Core.List.Memᴰ
use mathlib.Core.HLevel.{⊥_prop}
use mathlib.Core.Logic.{◌≢◌, inl, inr, ∥∥₁_elim}
use native.Mathlib.Omega.{arith}
use mirage_core.Shared.Tests.{if◌then◌else◌, Bool-cases}
use mirage_core.Shared.Keys.{Eq, ◌==◌}

abbrev pub Dict {ℓ κ} : Type ℓ → Type κ → Type (ℓ ⊔ κ)
Dict K V = List (K × V)

module _ {ℓ κ} {K : Type ℓ} {V : Type κ} where
  abbrev pub dict_keys : Dict K V → List K
  dict_keys d = map (λ p. p.0) d

  abbrev pub dict_values : Dict K V → List V
  dict_values d = map (λ p. p.1) d

module _ {ℓ κ} {K : Type ℓ} {V : Type κ} ⦃e : Eq K⦄ where
  abbrev pub lookup : K → Dict K V → Option V
  lookup k [] = none
  lookup k ((j, v) ∷ d) = if j == k then some v else lookup k d

  -- `d[k] = v`
  abbrev pub insert : K → V → Dict K V → Dict K V
  insert k v [] = (k, v) ∷ []
  insert k v ((j, w) ∷ d) = if j == k then (j, v) ∷ d else (j, w) ∷ insert k v d

  -- `d.setdefault(k, v)` for its effect on `d`
  abbrev pub set_default : K → V → Dict K V → Dict K V
  set_default k v d = elim (lookup k d) [ none ↦ insert k v d | some _ ↦ d ]

  -- No key is listed twice.
  abbrev pub NodupKeys : Dict K V → Type κ
  NodupKeys [] = Unit
  NodupKeys ((k, v) ∷ d) = (lookup k d ≡ none) × NodupKeys d

  pub lookup-insert :
      (k j : K) (v : V) (d : Dict K V)
      → lookup j (insert k v d) ≡ (if k == j then some v else lookup j d)
  lookup-insert k j v [] = refl
  lookup-insert k j v ((i, w) ∷ d) =
      ground (arith, e.is_eq_iff k j, e.is_eq_iff i k, e.is_eq_iff i j, lookup-insert k j v d)

  pub lookup-insert_self : (k : K) (v : V) (d : Dict K V) → lookup k (insert k v d) ≡ some v
  lookup-insert_self k v d = ground (arith, e.is_eq_iff k k, lookup-insert k k v d)

  pub insert-NodupKeys : (k : K) (v : V) (d : Dict K V) → NodupKeys d → NodupKeys (insert k v d)
  insert-NodupKeys k v [] h = (refl, tt)
  insert-NodupKeys k v ((i, w) ∷ d) h =
      ground
        (arith, e.is_eq_iff i k, e.is_eq_iff k i, lookup-insert k i v d, insert-NodupKeys k v d h.1)

  pub mem_of_lookup : (k : K) (v : V) (d : Dict K V) → lookup k d ≡ some v → Memᴰ (k, v) d
  mem_of_lookup k v [] h = absurd (cc)
  mem_of_lookup k v ((j, w) ∷ d) h = elim (Bool-cases (j == k)) [
    | inl same ↦
        let p : j ≡ k = (e.is_eq_iff j k).0 same in let q : w ≡ v = ground arith in Memᴰ.head (cc)
    | inr other ↦ Memᴰ.tail (mem_of_lookup k v d (rw other at h))
  ]

  pub mem_of_keys : (k : K) (d : Dict K V) → Memᴰ k (dict_keys d) → lookup k d ≢ none
  mem_of_keys k [] m none_found = elim m [ ]
  mem_of_keys k ((j, w) ∷ d) m none_found = elim (Memᴰ.cases_cons m) [
    | inl same ↦ ground (arith, e.is_eq_iff j k)
    | inr later ↦ ground (arith, e.is_eq_iff j k, mem_of_keys k d later)
  ]

  pub lookup_of_mem :
      {k : K} {v : V} {d : Dict K V} → Memᴰ (k, v) d → NodupKeys d → lookup k d ≡ some v
  lookup_of_mem {k} {v} (Memᴰ.head {x = (j, w)} p) h =
      let a : k ≡ j = ap (λ (q : K × V). q.0) p in
      let b : v ≡ w = ap (λ (q : K × V). q.1) p in ground (arith, e.is_eq_iff j k)
  lookup_of_mem {k} {v} (Memᴰ.tail {x = (j, w)} m) h =
      let later = lookup_of_mem m h.1 in ground (arith, e.is_eq_iff j k)

  pub Nodup-dict_keys : (d : Dict K V) → NodupKeys d → Nodup (dict_keys d)
  Nodup-dict_keys [] h = Nodup-nil
  Nodup-dict_keys ((k, v) ∷ d) h =
      Nodup-cons.1
        (λ m. ∥∥₁_elim m ⊥_prop (λ k_in. mem_of_keys k d k_in h.0), Nodup-dict_keys d h.1)
