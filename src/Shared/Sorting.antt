-- ===== src/Shared/Sorting.antt =====
-- Python's `sorted` with a key: a stable sort. `le` compares two elements by their keys.
use mathlib.Core.Path.{◌≡◌, refl, ap, ◌∙◌}
use mathlib.Core.Bool.{Bool, true, false}
use mathlib.Core.List.{List, [], ◌∷◌, Perm, Memᴰ}
use mathlib.Core.List.Perm
use mathlib.Core.Logic.{inl, inr}
use Prim.Native.Nat.{suc}
use native.Mathlib.Omega.{arith}
use mirage_core.Shared.Tests.{if◌then◌else◌, Bool-cases}
use mirage_core.Shared.Lists.{length, All, All-map_imp, All-mem, All-of_mem}

module _ {ℓ} {A : Type ℓ} (le : A → A → Bool) where
  -- Puts `x` before the first element that is not smaller, so equal keys keep their order.
  abbrev pub insert_sorted : A → List A → List A
  insert_sorted x [] = x ∷ []
  insert_sorted x (y ∷ ys) = if le x y then x ∷ y ∷ ys else y ∷ insert_sorted x ys

  abbrev pub sort_by : List A → List A
  sort_by [] = []
  sort_by (x ∷ xs) = insert_sorted x (sort_by xs)

  -- Each element is at most every later one.
  abbrev pub IsSorted : List A → Type 0
  IsSorted [] = Unit
  IsSorted (x ∷ xs) = All (λ y. le x y ≡ true) xs × IsSorted xs

  insert_sorted-perm : (x : A) (xs : List A) → Perm (insert_sorted x xs) (x ∷ xs)
  insert_sorted-perm x [] = Perm.refl (x ∷ [])
  insert_sorted-perm x (y ∷ ys) = elim (Bool-cases (le x y)) [
    | inl below ↦ rw below (Perm.refl (x ∷ y ∷ ys))
    | inr above ↦ rw above (Perm.trans (Perm.cons y (insert_sorted-perm x ys)) (Perm.swap x y ys))
  ]

  -- Sorting only reorders.
  pub sort_by-perm : (xs : List A) → Perm (sort_by xs) xs
  sort_by-perm [] = Perm.refl []
  sort_by-perm (x ∷ xs) =
      Perm.trans (insert_sorted-perm x (sort_by xs)) (Perm.cons x (sort_by-perm xs))

  length-insert_sorted : (x : A) (xs : List A) → length (insert_sorted x xs) ≡ suc (length xs)
  length-insert_sorted x [] = refl
  length-insert_sorted x (y ∷ ys) = ground (arith, length-insert_sorted x ys)

  pub length-sort_by : (xs : List A) → length (sort_by xs) ≡ length xs
  length-sort_by [] = refl
  length-sort_by (x ∷ xs) = length-insert_sorted x (sort_by xs) ∙ ap suc (length-sort_by xs)

  insert_sorted-mem_self : {y x : A} (xs : List A) → y ≡ x → Memᴰ y (insert_sorted x xs)
  insert_sorted-mem_self [] e = Memᴰ.head e
  insert_sorted-mem_self {x} (z ∷ zs) e = elim (Bool-cases (le x z)) [
    | inl below ↦ rw below (Memᴰ.head e)
    | inr above ↦ rw above (Memᴰ.tail (insert_sorted-mem_self zs e))
  ]

  insert_sorted-mem : {y : A} (x : A) {xs : List A} → Memᴰ y xs → Memᴰ y (insert_sorted x xs)
  insert_sorted-mem x {xs = z ∷ zs} (Memᴰ.head e) = elim (Bool-cases (le x z)) [
    | inl below ↦ rw below (Memᴰ.tail (Memᴰ.head e))
    | inr above ↦ rw above (Memᴰ.head e)
  ]
  insert_sorted-mem x {xs = z ∷ zs} (Memᴰ.tail m) = elim (Bool-cases (le x z)) [
    | inl below ↦ rw below (Memᴰ.tail (Memᴰ.tail m))
    | inr above ↦ rw above (Memᴰ.tail (insert_sorted-mem x m))
  ]
  insert_sorted-mem x {xs = []} m = elim m [ ]

  -- Sorting keeps every element, and adds none (`mem-sort_by`).
  pub sort_by-mem : {y : A} {xs : List A} → Memᴰ y xs → Memᴰ y (sort_by xs)
  sort_by-mem {xs = x ∷ xs} (Memᴰ.head e) = insert_sorted-mem_self (sort_by xs) e
  sort_by-mem {xs = x ∷ xs} (Memᴰ.tail m) = insert_sorted-mem x (sort_by-mem m)
  sort_by-mem {xs = []} m = elim m [ ]

  module _ {κ} (P : A → Type κ) where
    insert_sorted-All : (x : A) (xs : List A) → P x → All P xs → All P (insert_sorted x xs)
    insert_sorted-All x [] p h = (p, tt)
    insert_sorted-All x (y ∷ ys) p h = elim (Bool-cases (le x y)) [
      | inl below ↦ rw below (p, h)
      | inr above ↦ rw above (h.0, insert_sorted-All x ys p h.1)
    ]

    pub sort_by-All : (xs : List A) → All P xs → All P (sort_by xs)
    sort_by-All [] h = tt
    sort_by-All (x ∷ xs) h = insert_sorted-All x (sort_by xs) h.0 (sort_by-All xs h.1)

  module _ (total : (x y : A) → le x y ≡ false → le y x ≡ true)
      (trans : (x y z : A) → le x y ≡ true → le y z ≡ true → le x z ≡ true) where
    insert_sorted-IsSorted : (x : A) (xs : List A) → IsSorted xs → IsSorted (insert_sorted x xs)
    insert_sorted-IsSorted x [] h = (tt, tt)
    insert_sorted-IsSorted x (y ∷ ys) h = elim (Bool-cases (le x y)) [
      | inl below ↦ rw below ((below, All-map_imp (λ z p. trans x y z below p) ys h.0), h)
      | inr above ↦ rw above (
        insert_sorted-All (λ z. le y z ≡ true) x ys (total x y above) h.0,
        insert_sorted-IsSorted x ys h.1,
      )
    ]

    pub sort_by-IsSorted : (xs : List A) → IsSorted (sort_by xs)
    sort_by-IsSorted [] = tt
    sort_by-IsSorted (x ∷ xs) = insert_sorted-IsSorted x (sort_by xs) (sort_by-IsSorted xs)

  pub mem-sort_by : {y : A} (xs : List A) → Memᴰ y (sort_by xs) → Memᴰ y xs
  mem-sort_by xs m =
      All-mem (λ z. Memᴰ z xs)
        (sort_by-All (λ z. Memᴰ z xs) xs (All-of_mem (λ z. Memᴰ z xs) xs (λ z k. k))) m
