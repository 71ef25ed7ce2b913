-- ===== src/Intel/Mitre/Users.antt =====
-- ml/mirage/intel/mitre.py: the distinct user names of attempts, for the rule on password spraying.
use mathlib.Core.List.{Memᴰ}
use mathlib.Core.List.Memᴰ
use mirage_core.Shared.{
  suc, ◌≤◌, ◌≡◌, ◌≢◌, refl, sym, ap, ◌∙◌, inl, inr, String, true, List, [], ◌∷◌, map, length,
  ==_iff, string_eq, ◌==◌, if◌then◌else◌, arith, Bool-cases,
}
use mirage_core.Intel.{AuthAttempt}
use mirage_core.Intel.Mitre.{contains_name, distinct_users}

-- The user names of the attempts, each once.
names : List AuthAttempt → List String
unfolding contains_name
names [] = []
names (a ∷ attempts) =
    let rest = names attempts in
    if contains_name a.username (map (λ b. b.username) attempts) then rest else a.username ∷ rest

length-names : (attempts : List AuthAttempt) → length (names attempts) ≡ distinct_users attempts
unfolding names distinct_users
length-names [] = refl
length-names (a ∷ attempts) =
    elim (Bool-cases (contains_name a.username (map (λ b. b.username) attempts))) [
      | inl again ↦ rw (again, names, distinct_users) (length-names attempts)
      | inr new ↦ rw (new, names, distinct_users) (ap suc (length-names attempts))
    ]

contains_name-mem : (x : String) (xs : List String) → contains_name x xs ≡ true → Memᴰ x xs
unfolding contains_name
contains_name-mem x [] h = absurd (ground arith)
contains_name-mem x (y ∷ ys) h = elim (Bool-cases (y == x)) [
  | inl same ↦ Memᴰ.head (sym ((==_iff y x).0 same))
  | inr other ↦ Memᴰ.tail (contains_name-mem x ys (rw (other, contains_name) at h))
]

mem-contains_name : (x : String) (xs : List String) → Memᴰ x xs → contains_name x xs ≡ true
unfolding contains_name
mem-contains_name x [] m = elim m [ ]
mem-contains_name x (y ∷ ys) m = elim (Memᴰ.cases_cons m) [
  | inl e ↦ let same = (==_iff y x).1 (sym e) in rw (same, contains_name) refl
  | inr later ↦ let rest = mem-contains_name x ys later in ground arith
]

abbrev pub user : AuthAttempt → String
user a = a.username

mem-names :
    (x : String) (attempts : List AuthAttempt)
    → Memᴰ x (names attempts)
    → Memᴰ x (map user attempts)
unfolding names
mem-names x [] m = elim m [ ]
mem-names x (a ∷ attempts) m = elim (Bool-cases (contains_name a.username (map user attempts))) [
  | inl again ↦ Memᴰ.tail (mem-names x attempts (rw (again, names) at m))
  | inr new ↦ elim (Memᴰ.cases_cons (rw (new, names) at m)) [
    | inl e ↦ Memᴰ.head e
    | inr later ↦ Memᴰ.tail (mem-names x attempts later)
  ]
]

names-mem :
    (x : String) (attempts : List AuthAttempt)
    → Memᴰ x (map user attempts)
    → Memᴰ x (names attempts)
unfolding names
names-mem x [] m = elim m [ ]
names-mem x (a ∷ attempts) m = elim (Bool-cases (contains_name a.username (map user attempts))) [
  | inl again ↦
      rw (again, names)
        (elim (Memᴰ.cases_cons m) [
          | inl e ↦
              names-mem x attempts
                (rw (sym e) at (contains_name-mem a.username (map user attempts) again))
          | inr later ↦ names-mem x attempts later
        ])
  | inr new ↦
      rw (new, names)
        (elim (Memᴰ.cases_cons m) [
          | inl e ↦ Memᴰ.head e
          | inr later ↦ Memᴰ.tail (names-mem x attempts later)
        ])
]

-- No name is listed twice.
abbrev AreDistinct : List String → Type 0
AreDistinct [] = Unit
AreDistinct (x ∷ xs) = (¬ Memᴰ x xs) × AreDistinct xs

names-AreDistinct : (attempts : List AuthAttempt) → AreDistinct (names attempts)
unfolding names
names-AreDistinct [] = tt
names-AreDistinct (a ∷ attempts) =
    elim (Bool-cases (contains_name a.username (map user attempts))) [
      | inl again ↦ rw (again, names) (names-AreDistinct attempts)
      | inr new ↦
          rw (new, names)
            (
              λ m.
                  let known =
                    mem-contains_name a.username (map user attempts)
                      (mem-names a.username attempts m) in
                  absurd (ground arith),
              names-AreDistinct attempts,
            )
    ]

-- Three names that differ are among these.
abbrev pub Three : List String → Type 0
Three xs =
    (x : String) × (y : String) × (z : String) × Memᴰ x xs
    × Memᴰ y xs
    × Memᴰ z xs
    × (x ≢ y)
    × (x ≢ z)
    × (y ≢ z)

AreDistinct-Three : (xs : List String) → AreDistinct xs → 3 ≤ length xs → Three xs
AreDistinct-Three [] d h = absurd (omega arith)
AreDistinct-Three (x ∷ []) d h = absurd (omega arith)
AreDistinct-Three (x ∷ y ∷ []) d h = absurd (omega arith)
AreDistinct-Three (x ∷ y ∷ z ∷ xs) (nx, (ny, d)) h = (
  x,
  y,
  z,
  Memᴰ.head refl,
  Memᴰ.tail (Memᴰ.head refl),
  Memᴰ.tail (Memᴰ.tail (Memᴰ.head refl)),
  λ e. nx (Memᴰ.head e),
  λ e. nx (Memᴰ.tail (Memᴰ.head e)),
  λ e. ny (Memᴰ.head e),
)

of_singleton : {x y : String} → Memᴰ x (y ∷ []) → x ≡ y
of_singleton m = elim (Memᴰ.cases_cons m) [ inl e ↦ e | inr later ↦ elim later [ ] ]

Three-length : (xs : List String) → Three xs → 3 ≤ length xs
Three-length [] (x, y, z, mx, my, mz, xy, xz, yz) = elim mx [ ]
Three-length (a ∷ []) (x, y, z, mx, my, mz, xy, xz, yz) =
    absurd (xy (of_singleton mx ∙ sym (of_singleton my)))
Three-length (a ∷ b ∷ []) (x, y, z, mx, my, mz, xy, xz, yz) =
    let x_in = Memᴰ.cases_cons mx in
    let y_in = Memᴰ.cases_cons my in
    let z_in = Memᴰ.cases_cons mz in
    absurd (elim x_in [
      | inl xa ↦ elim y_in [
        | inl ya ↦ xy (xa ∙ sym ya)
        | inr yb ↦ elim z_in [
          | inl za ↦ xz (xa ∙ sym za)
          | inr zb ↦ yz (of_singleton yb ∙ sym (of_singleton zb))
        ]
      ]
      | inr xb ↦ elim y_in [
        | inl ya ↦ elim z_in [
          | inl za ↦ yz (ya ∙ sym za)
          | inr zb ↦ xz (of_singleton xb ∙ sym (of_singleton zb))
        ]
        | inr yb ↦ xy (of_singleton xb ∙ sym (of_singleton yb))
      ]
    ])
Three-length (a ∷ b ∷ c ∷ xs) _ = omega arith

pub distinct_users-Three :
    (attempts : List AuthAttempt) → 3 ≤ distinct_users attempts → Three (map user attempts)
distinct_users-Three attempts h =
    let (x, y, z, mx, my, mz, xy, xz, yz) =
      AreDistinct-Three (names attempts) (names-AreDistinct attempts)
        (rw (length-names attempts) h) in
    (x, y, z, mem-names x attempts mx, mem-names y attempts my, mem-names z attempts mz, xy, xz, yz)

pub Three-distinct_users :
    (attempts : List AuthAttempt) → Three (map user attempts) → 3 ≤ distinct_users attempts
Three-distinct_users attempts (x, y, z, mx, my, mz, xy, xz, yz) = rw (← length-names attempts) (
    Three-length (names attempts) (
      x,
      y,
      z,
      names-mem x attempts mx,
      names-mem y attempts my,
      names-mem z attempts mz,
      xy,
      xz,
      yz,
    ))
