-- ===== src/Geo/Witnesses.antt =====
-- scripts/geo_lookup.py on small tables: tests, and the theorems at concrete inputs.
use mathlib.Core.List.{Memᴰ}
use mirage_core.Shared.{◌≤◌, ◌≡◌, refl, ◌≢◌, ◌↔◌, String, true, none, some, List, [], ◌∷◌, arith}
use mirage_core.Geo.{
  Range, AsnInfo, parse_ipv4, asn_row, country_row, load, find_range, lookup, sorted_rows,
  unknown_country_code,
}
use mirage_core.Geo.Search.{IsDisjoint, find_range_iff}
use mirage_core.Geo.Lookups.{Holds, asn_ranges, country_ranges, lookup-country_iff}

-- A comment, a short row and a bad address are skipped; the rows are not in order.
abbrev country_csv : List (List String)
country_csv =
    ("#start" ∷ "end" ∷ "code" ∷ [])
    ∷ ("1.0.1.0" ∷ "1.0.3.255" ∷ "CN" ∷ [])
    ∷ ("1.0.0.0" ∷ "1.0.0.255" ∷ "AU" ∷ [])
    ∷ ("1.0.0.0" ∷ [])
    ∷ ("1.0.4.0" ∷ "1.0.4.256" ∷ "XX" ∷ [])
    ∷ ("0.0.0.0" ∷ "0.255.255.255" ∷ "ZZ" ∷ [])
    ∷ []

abbrev asn_csv : List (List String)
asn_csv = ("1.0.0.0" ∷ "1.0.0.255" ∷ "13335" ∷ "Cloudflare" ∷ []) ∷ []

parsed : parse_ipv4 "1.0.2.7" ≡ some 16777735
unfolding parse_ipv4
parsed = refl

not_parsed :
    (parse_ipv4 "1.0.2" ≡ none) × (parse_ipv4 "1.0.02.7" ≡ none) × (parse_ipv4 "1.0.2.256" ≡ none)
unfolding parse_ipv4
not_parsed = (refl, refl, refl)

lookup_runs : lookup (load asn_csv country_csv) "1.0.0.1" ≡ record {
  ip = "1.0.0.1";
  asn = some "AS13335";
  asn_name = some "Cloudflare";
  country = some "AU";
  matched = true;
}
unfolding lookup load
lookup_runs = refl

lookup_reserved : (lookup (load asn_csv country_csv) "0.1.2.3").country ≡ none
unfolding lookup load
lookup_reserved = refl

abbrev rows : List (Range String)
rows =
    record { start = 16777472; stop = 16778239; info = "CN" }
    ∷ record { start = 16777216; stop = 16777471; info = "AU" }
    ∷ record { start = 0; stop = 16777215; info = "ZZ" }
    ∷ []

rows-kept : country_ranges country_csv ≡ rows
unfolding country_row
rows-kept = refl

rows-IsDisjoint : IsDisjoint (country_ranges country_csv)
rows-IsDisjoint = rw rows-kept (omega arith)

asn-IsDisjoint : IsDisjoint (asn_ranges asn_csv)
unfolding asn_row
asn-IsDisjoint = omega arith

find_range_iff_example :
    (find_range (sorted_rows rows) 16777735
      ≡ some (record { start = 16777472; stop = 16778239; info = "CN" }))
    ↔ (Memᴰ (record { start = 16777472; stop = 16778239; info = "CN" }) rows
        × (16777472 ≤ 16777735)
        × (16777735 ≤ 16778239))
find_range_iff_example =
    find_range_iff rows 16777735 (record { start = 16777472; stop = 16778239; info = "CN" })
      (omega arith)

lookup-country_iff_example : ((lookup (load asn_csv country_csv) "1.0.2.7").country ≡ some "CN") ↔ (
    (r : Range String) × Holds (country_ranges country_csv) 16777735 r
    × (r.info ≡ "CN")
    × ("CN" ≢ unknown_country_code))
lookup-country_iff_example =
    lookup-country_iff asn_csv country_csv "1.0.2.7" 16777735 parsed "CN" rows-IsDisjoint

abbrev cloudflare : AsnInfo
cloudflare = record { asn = some "AS13335"; asn_name = "Cloudflare" }
