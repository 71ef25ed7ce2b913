-- ===== src/Health/Pairs.antt =====
-- scripts/daily_health_check.py: the accept list and `check_accepted_pairs`. A set of texts is a list
-- whose order and repetitions do not matter; `str.strip` is a parameter.
pub mod Unlisted
use Prim.Native.String.{compare}
use text.Mathlib.Text.{is_le, starts_with}
use mathlib.Core.List.{Memᴰ}
use mathlib.Core.List.Memᴰ
use mirage_core.Shared.{
  ℕ, suc, ◌≡◌, refl, sym, ap, ◌∙◌, ◌↔◌, inl, inr, Bool, true, false, not, ◌&&◌, ◌||◌, Option, none,
  some, String, List, [], ◌∷◌, ◌++◌, map, keep, mem-keep, leb, if◌then◌else◌, ◌==◌, string_eq,
  nat_eq, ==_iff, ==_refl, arith, Bool-cases,
}
use mirage_core.Shared.Dict.{Dict}
use mirage_core.Shared.Sorting.{sort_by, mem-sort_by, sort_by-mem}
use mirage_core.Shared.Flat.{flat_map, flat_map-mem, mem-flat_map, keep-mem, mem_of_if}
use mirage_core.Health.{Finding, accepted_pair_not_listed}

-- `parse_accept_list`, of the lines of the file
unfoldable pub parse_accept_list : (String → String) → List String → List String
parse_accept_list strip lines =
    map strip (keep (λ l. not (strip l == "") && not (starts_with (strip l) "#")) lines)

-- `x in xs`
unfoldable pub is_in : String → List String → Bool
is_in x [] = false
is_in x (y ∷ ys) = (y == x) || is_in x ys

-- `set(xs)`: each element once.
unfoldable pub distinct : List String → List String
distinct [] = []
distinct (x ∷ xs) = let rest = distinct xs in if is_in x rest then rest else x ∷ rest

abbrev pub earlier_day : ℕ × List String → ℕ × List String → Bool
earlier_day p q = leb p.0 q.0

abbrev pub text_order : String → String → Bool
text_order a b = is_le (compare a b)

unfoldable pub check_pairs_of_day : List String → ℕ × List String → List Finding
check_pairs_of_day allowed (day, pairs) =
    elim (sort_by text_order (keep (λ p. not (is_in p allowed)) (distinct pairs))) [
      | [] ↦ []
      | p ∷ bad ↦ accepted_pair_not_listed day (p ∷ bad) ∷ []
    ]

unfoldable pub check_accepted_pairs : Dict ℕ (List String) → List String → List Finding
check_accepted_pairs accepted_by_day allowed =
    flat_map (check_pairs_of_day allowed) (sort_by earlier_day accepted_by_day)
