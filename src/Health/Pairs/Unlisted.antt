-- ===== src/Health/Pairs/Unlisted.antt =====
-- scripts/daily_health_check.py: the pairs that `check_accepted_pairs` reports.
use mathlib.Core.List.{Memᴰ}
use mathlib.Core.List.Memᴰ
use mirage_core.Shared.{List, string_eq, nat_eq}
use mirage_core.Shared.Dict.{Dict}
