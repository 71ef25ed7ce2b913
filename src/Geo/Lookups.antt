-- ===== src/Geo/Lookups.antt =====
-- scripts/geo_lookup.py: what `lookup` answers, in terms of the rows of the two CSV files.
use mathlib.Core.List.{Memᴰ}
use mirage_core.Shared.{
  ℕ, ◌≤◌, ◌≡◌, ◌≢◌, ◌↔◌, inl, inr, String, true, false, none, some, List, arith, string_eq, ==_iff,
  Option-cases, filter_some,
}
use mirage_core.Geo.{
  Range, AsnInfo, GeoResult, parse_ipv4, asn_row, country_row, load, sorted_rows, find_range,
  lookup_asn, lookup_country, lookup, unknown_country_code,
}
use mirage_core.Geo.Search.{IsDisjoint, find_range_iff}

-- The rows of a file that the loaders keep.
abbrev pub asn_ranges : List (List String) → List (Range AsnInfo)
asn_ranges csv = filter_some asn_row csv

abbrev pub country_ranges : List (List String) → List (Range String)
country_ranges csv = filter_some country_row csv

-- A row of the file holds the address.
abbrev pub Holds : {A : Type 0} → List (Range A) → ℕ → Range A → Type 0
Holds rows n r = Memᴰ r rows × (r.start ≤ n) × (n ≤ r.stop)

module _ (asn_csv country_csv : List (List String)) (ip : String) where
  abbrev answer : GeoResult
  answer = lookup (load asn_csv country_csv) ip

  -- A text that is no IPv4 address matches nothing, whatever the tables hold.
  pub lookup-unparsed :
      parse_ipv4 ip ≡ none
      → answer ≡ record { ip = ip; asn = none; asn_name = none; country = none; matched = false }
  unfolding lookup
  lookup-unparsed e = rw (e, lookup)

  module _ (n : ℕ) (parsed : parse_ipv4 ip ≡ some n) where
    -- For a text that is an IPv4 address, `lookup` reports a country exactly when a kept row of the country file holds the address and
    -- its code is that country and not ZZ, where the rows are disjoint ranges.
    pub lookup-country_iff :
        (place : String)
        → IsDisjoint (country_ranges country_csv)
        → (answer.country ≡ some place) ↔ (
            (r : Range String) × Holds (country_ranges country_csv) n r
            × (r.info ≡ place)
            × (place ≢ unknown_country_code))
    unfolding lookup lookup_country load
    lookup-country_iff place d = (to, from)
      where
        to :
            answer.country ≡ some place
            → ((r : Range String) × Holds (country_ranges country_csv) n r
                × (r.info ≡ place)
                × (place ≢ unknown_country_code))
        to e = elim (Option-cases (find_range (sorted_rows (country_ranges country_csv)) n)) [
          | inl out ↦ absurd (ground arith)
          | inr (r, found) ↦ (
            r,
            (find_range_iff (country_ranges country_csv) n r d).0 found,
            ground (arith, ==_iff r.info unknown_country_code),
            ground (arith, ==_iff r.info unknown_country_code),
          )
        ]

        from :
            ((r : Range String) × Holds (country_ranges country_csv) n r
              × (r.info ≡ place)
              × (place ≢ unknown_country_code))
            → answer.country ≡ some place
        from (r, holds, same, known) =
            let found = (find_range_iff (country_ranges country_csv) n r d).1 holds in
            ground (arith, ==_iff r.info unknown_country_code)

    -- For a text that is an IPv4 address, `lookup` reports a match exactly when a kept row of the ASN file holds the address, and then
    -- the AS number and name are those of the row, where the rows are disjoint ranges.
    pub lookup-matched_iff :
        (asn_of : AsnInfo)
        → IsDisjoint (asn_ranges asn_csv)
        → ((answer.matched ≡ true)
            × (answer.asn ≡ asn_of.asn)
            × (answer.asn_name ≡ some asn_of.asn_name))
          ↔ ((r : Range AsnInfo) × Holds (asn_ranges asn_csv) n r × (r.info ≡ asn_of))
    unfolding lookup lookup_asn load
    lookup-matched_iff asn_of d = (to, from)
      where
        to :
            (answer.matched ≡ true)
              × (answer.asn ≡ asn_of.asn)
              × (answer.asn_name ≡ some asn_of.asn_name)
            → ((r : Range AsnInfo) × Holds (asn_ranges asn_csv) n r × (r.info ≡ asn_of))
        to (m, number, name) =
            elim (Option-cases (find_range (sorted_rows (asn_ranges asn_csv)) n)) [
              | inl out ↦ absurd (ground arith)
              | inr (r, found) ↦
                  (r, (find_range_iff (asn_ranges asn_csv) n r d).0 found, ground arith)
            ]

        from :
            ((r : Range AsnInfo) × Holds (asn_ranges asn_csv) n r × (r.info ≡ asn_of))
            → (answer.matched ≡ true)
              × (answer.asn ≡ asn_of.asn)
              × (answer.asn_name ≡ some asn_of.asn_name)
        from (r, holds, same) =
            let found = (find_range_iff (asn_ranges asn_csv) n r d).1 holds in
            (ground arith, ground arith, ground arith)
