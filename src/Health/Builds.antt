-- ===== src/Health/Builds.antt =====
-- scripts/daily_health_check.py: `check_builds`.
use Prim.Native.String.{compare}
use text.Mathlib.Text.{is_le}
use mirage_core.Shared.{
  ℕ, Bool, true, false, String, List, [], ◌∷◌, ltb, leb, if◌then◌else◌, ◌==◌, string_eq, nat_eq,
  ◌&&◌, ◌||◌,
}
use mirage_core.Shared.Sorting.{sort_by}
use mirage_core.Shared.Flat.{flat_map}
use mirage_core.Health.{Finding, build_unknown, build_blank}

-- The order of the tuples (date, build_sha, sessions).
abbrev build_order : ℕ × String × ℕ → ℕ × String × ℕ → Bool
build_order (d, sha, n) (e, tag, m) =
    ltb d e || (d == e && (not_same sha tag && is_le (compare sha tag) || sha == tag && leb n m))
  where
    not_same : String → String → Bool
    not_same a b = if a == b then false else true

unfoldable pub check_build : ℕ × String × ℕ → List Finding
check_build (day, sha, n) =
    if sha == "unknown"
    then build_unknown day n ∷ []
    else if sha == ""
    then build_blank day n ∷ []
    else []

unfoldable pub check_builds : List (ℕ × String × ℕ) → List Finding
check_builds rows = flat_map check_build (sort_by build_order rows)
