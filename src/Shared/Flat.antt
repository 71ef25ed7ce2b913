-- ===== src/Shared/Flat.antt =====
-- Python's nested loops that append: what each element gives, one after the other, and the members
-- of filtered and flattened lists.
use Prim.Native.Nat.{ℕ, zero, suc, ◌+◌, ◌≤◌, ◌<◌}
use native.Mathlib.Omega.{arith}
use mathlib.Core.Path.{◌≡◌, refl, ap, sym, subst, ◌∙◌}
use mathlib.Core.Logic.{◌↔◌, inl, inr}
use mathlib.Core.Option.{Option, some}
use mathlib.Core.Bool.{Bool, true, false}
use mathlib.Core.List.{List, [], ◌∷◌, ◌++◌, Memᴰ}
use mathlib.Core.List.Memᴰ
use mirage_core.Shared.Tests.{if◌then◌else◌, Bool-cases, Option-cases, nat_beq, nat_beq_iff}
use mirage_core.Shared.Lists.{keep, filter_some}

module _ {ℓ κ} {A : Type ℓ} {B : Type κ} where
  abbrev pub flat_map : (A → List B) → List A → List B
  flat_map f [] = []
  flat_map f (x ∷ xs) = f x ++ flat_map f xs

  pub flat_map-mem :
      (f : A → List B) {x : A} {y : B} {xs : List A}
      → Memᴰ x xs
      → Memᴰ y (f x)
      → Memᴰ y (flat_map f xs)
  flat_map-mem f {xs = z ∷ zs} (Memᴰ.head e) m = Memᴰ.append_left (flat_map f zs) (rw e at m)
  flat_map-mem f {xs = z ∷ zs} (Memᴰ.tail later) m =
      Memᴰ.append_right (f z) (flat_map-mem f later m)
  flat_map-mem f {xs = []} n m = elim n [ ]

  pub mem-flat_map :
      (f : A → List B) {y : B} (xs : List A)
      → Memᴰ y (flat_map f xs)
      → (x : A) × Memᴰ x xs × Memᴰ y (f x)
  mem-flat_map f [] m = elim m [ ]
  mem-flat_map f (x ∷ xs) m = elim (Memᴰ.append_cases (f x) m) [
    | inl here ↦ (x, Memᴰ.head refl, here)
    | inr later ↦ let (z, k, n) = mem-flat_map f xs later in (z, Memᴰ.tail k, n)
  ]

module _ {ℓ} {A : Type ℓ} where
  pub keep-mem : (p : A → Bool) {x : A} {xs : List A} → Memᴰ x xs → p x ≡ true → Memᴰ x (keep p xs)
  keep-mem p {xs = y ∷ ys} (Memᴰ.head e) t = let u : p y ≡ true = rw e at t in rw u (Memᴰ.head e)
  keep-mem p {xs = y ∷ ys} (Memᴰ.tail m) t = elim (Bool-cases (p y)) [
    | inl kept ↦ rw kept (Memᴰ.tail (keep-mem p m t))
    | inr dropped ↦ rw dropped (keep-mem p m t)
  ]
  keep-mem p {xs = []} m t = elim m [ ]

  -- A list that has one element if a test holds.
  pub mem_of_if : (b : Bool) {x y : A} → Memᴰ y (if b then x ∷ [] else []) → (b ≡ true) × (y ≡ x)
  mem_of_if true m = (refl, Memᴰ.eq_of_singleton m)
  mem_of_if false m = elim m [ ]

  pub keep-append : (p : A → Bool) (xs ys : List A) → keep p (xs ++ ys) ≡ keep p xs ++ keep p ys
  keep-append p [] ys = refl
  keep-append p (x ∷ xs) ys = elim (Bool-cases (p x)) [
    | inl kept ↦ rw kept (ap (λ zs. x ∷ zs) (keep-append p xs ys))
    | inr dropped ↦ rw dropped (keep-append p xs ys)
  ]

module _ {ℓ κ} {A : Type ℓ} {B : Type κ} (f : A → Option B) where
  -- What a loop appends that may skip an element.
  pub mem-filter_some :
      {y : B} (xs : List A) → Memᴰ y (filter_some f xs) → (x : A) × Memᴰ x xs × (f x ≡ some y)
  mem-filter_some [] m = elim m [ ]
  mem-filter_some (x ∷ xs) m = elim (Option-cases (f x)) [
    | inl skips ↦
        let (z, k, e) = mem-filter_some xs (rw (skips, filter_some) at m) in (z, Memᴰ.tail k, e)
    | inr gives ↦ elim (Memᴰ.cases_cons (rw (gives.1, filter_some) at m)) [
      | inl first ↦ (x, Memᴰ.head refl, gives.1 ∙ ap some (sym first))
      | inr later ↦ let (z, k, e) = mem-filter_some xs later in (z, Memᴰ.tail k, e)
    ]
  ]

  pub filter_some-mem :
      {x : A} {y : B} {xs : List A} → Memᴰ x xs → f x ≡ some y → Memᴰ y (filter_some f xs)
  filter_some-mem {y = y} {xs = z ∷ zs} (Memᴰ.head e) given =
      let g : f z ≡ some y = subst (λ a. f a ≡ some y) e given in
      rw (g, filter_some) (Memᴰ.head refl)
  filter_some-mem {xs = z ∷ zs} (Memᴰ.tail m) given = elim (Option-cases (f z)) [
    | inl skips ↦ rw (skips, filter_some) (filter_some-mem m given)
    | inr gives ↦ rw (gives.1, filter_some) (Memᴰ.tail (filter_some-mem m given))
  ]
  filter_some-mem {xs = []} m given = elim m [ ]

-- `range(a, a + k)`
abbrev pub range : ℕ → ℕ → List ℕ
range a zero = []
range a (suc k) = a ∷ range (suc a) k

pub range-snoc : (a k : ℕ) → range a (suc k) ≡ range a k ++ (a + k) ∷ []
range-snoc a zero = let e : a + 0 ≡ a = omega arith in rw e
range-snoc a (suc k) =
    let e : suc a + k ≡ a + suc k = omega arith in
    ap (λ zs. a ∷ zs) (rw (sym e) (range-snoc (suc a) k))

pub mem-range : (a k d : ℕ) → Memᴰ d (range a k) ↔ ((a ≤ d) × (d < a + k))
mem-range a zero d = (λ m. elim m [ ], λ h. absurd (omega arith))
mem-range a (suc k) d =
    let (there, back) = mem-range (suc a) k d in
    (
      λ m. elim (Memᴰ.cases_cons m) [
        | inl e ↦ (omega arith, omega arith)
        | inr later ↦ let (low, high) = there later in (omega arith, omega arith)
      ],
      λ (low, high). elim (Bool-cases (nat_beq d a)) [
        | inl same ↦ Memᴰ.head ((nat_beq_iff d a).0 same)
        | inr other ↦ Memᴰ.tail (back (ground (arith, other), omega arith))
      ],
    )
