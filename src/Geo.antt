-- ===== src/Geo.antt =====
-- scripts/geo_lookup.py: IP ranges in two sorted tables, each searched by bisection.
-- A parsed CSV row is a list of texts. `ipaddress.IPv4Address` is written out as `parse_ipv4`, with
-- `none` for `AddressValueError`, and `bisect.bisect_right` as `bisect_right`.
pub mod Search
pub mod Lookups
mod Witnesses
use Prim.Native.String.{◌++◌ as str_append}
use Prim.Native.Char.{code}
use text.Mathlib.Text.{starts_with}
use mirage_core.Shared.{
  ℕ, zero, suc, ◌+◌, ◌-◌, ◌*◌, ◌/◌, String, Bool, true, false, not, ◌||◌, ◌&&◌, Option, none, some,
  List, [], ◌∷◌, map, ltb, leb, ◌==◌, nat_eq, string_eq, if◌then◌else◌, length, get_elem?, all,
  codes, filter_some,
}
use mirage_core.Shared.Sorting.{sort_by}

-- A row of a table, (start, end, ...): a range with what the table says of it.
pub record Range (A : Type 0) : Type 0 where
  pub start : ℕ
  pub stop : ℕ
  pub info : A

pub record AsnInfo : Type 0 where
  pub asn : Option String
  pub asn_name : String

pub record GeoResult : Type 0 where
  pub ip : String
  pub asn : Option String
  pub asn_name : Option String
  pub country : Option String
  pub matched : Bool

-- `text.split(".")` on code points
split_dots : List ℕ → List (List ℕ)
split_dots [] = [] ∷ []
split_dots (c ∷ cs) = elim (split_dots cs) [
  | [] ↦ []
  | (w ∷ ws) ↦ if c == b'.' then [] ∷ w ∷ ws else (c ∷ w) ∷ ws
]

decimal : ℕ → List ℕ → ℕ
decimal n [] = n
decimal n (c ∷ cs) = decimal (n * 10 + (c - 48)) cs

-- One octet: one to three ASCII digits, no leading zero, at most 255.
octet : List ℕ → Option ℕ
unfolding decimal
octet [] = none
octet (c ∷ cs) =
    if all (λ d. leb 48 d && leb d 57) (c ∷ cs)
      && leb (length (c ∷ cs)) 3
      && (not (c == 48) || length cs == 0)
      && leb (decimal 0 (c ∷ cs)) 255
    then some (decimal 0 (c ∷ cs))
    else none

octets : ℕ → List (List ℕ) → Option ℕ
unfolding octet
octets n [] = some n
octets n (w ∷ ws) =
    let rest = λ (v : ℕ). octets (n * 256 + v) ws in
    elim (octet w) [ none ↦ none | some v ↦ rest v ]

-- `int(ipaddress.IPv4Address(text))`
pub parse_ipv4 : String → Option ℕ
unfolding split_dots octets
parse_ipv4 text =
    let parts = split_dots (codes text) in if length parts == 4 then octets 0 parts else none

-- One row of the ASN table; `none` for a row that is skipped.
pub asn_row : List String → Option (Range AsnInfo)
unfolding parse_ipv4
asn_row (first ∷ last ∷ asn_raw ∷ name ∷ _) =
    if starts_with first "#" then none else elim (parse_ipv4 first) [
      | none ↦ none
      | some lo ↦ elim (parse_ipv4 last) [
        | none ↦ none
        | some hi ↦ some (record {
          start = lo;
          stop = hi;
          info = record {
            asn = if asn_raw == "" then none else some (str_append "AS" asn_raw);
            asn_name = name;
          };
        })
      ]
    ]
asn_row _ = none

pub country_row : List String → Option (Range String)
unfolding parse_ipv4
country_row (first ∷ last ∷ country_code ∷ _) =
    if starts_with first "#" then none else elim (parse_ipv4 first) [
      | none ↦ none
      | some lo ↦ elim (parse_ipv4 last) [
        | none ↦ none
        | some hi ↦ some (record { start = lo; stop = hi; info = country_code })
      ]
    ]
country_row _ = none

abbrev pub starts_no_later : {A : Type 0} → Range A → Range A → Bool
starts_no_later r s = leb r.start s.start

-- `rows.sort(key=lambda r: r[0])`
abbrev pub sorted_rows : {A : Type 0} → List (Range A) → List (Range A)
sorted_rows = sort_by starts_no_later

-- `GeoLookup`: the two tables, sorted by their starts.
pub record Tables : Type 0 where
  pub asn_rows : List (Range AsnInfo)
  pub country_rows : List (Range String)

-- `_load_asn` and `_load_country`, on the CSV rows of the two files
pub load : List (List String) → List (List String) → Tables
unfolding asn_row country_row
load asn_csv country_csv = record {
  asn_rows = sorted_rows (filter_some asn_row asn_csv);
  country_rows = sorted_rows (filter_some country_row country_csv);
}

-- `bisect.bisect_right(a, x)` from `lo` and `hi`, on fuel: one more than the length of `a`.
bisect_loop : ℕ → List ℕ → ℕ → ℕ → ℕ → ℕ
bisect_loop zero a x lo hi = lo
bisect_loop (suc fuel) a x lo hi =
    let mid = (lo + hi) / 2 in
    let left = bisect_loop fuel a x lo mid in
    let right = bisect_loop fuel a x (mid + 1) hi in
    if ltb lo hi
    then elim (get_elem? a mid) [ none ↦ lo | some v ↦ if ltb x v then left else right ]
    else lo

pub bisect_right : List ℕ → ℕ → ℕ
unfolding bisect_loop
bisect_right a x = bisect_loop (suc (length a)) a x 0 (length a)

-- `idx = k - 1; if idx < 0: return; if start <= ip <= end`
holding : {A : Type 0} → List (Range A) → ℕ → ℕ → Option (Range A)
holding rows ip zero = none
holding rows ip (suc idx) = elim (get_elem? rows idx) [
  | none ↦ none
  | some r ↦ if leb r.start ip && leb ip r.stop then some r else none
]

-- The common part of `_lookup_asn` and `_lookup_country`: the last row that starts no later than
-- `ip`, if it reaches `ip`.
pub find_range : {A : Type 0} → List (Range A) → ℕ → Option (Range A)
unfolding bisect_right holding
find_range rows ip = holding rows ip (bisect_right (map (λ r. r.start) rows) ip)

abbrev pub unknown_country_code : String
unknown_country_code = "ZZ"

pub lookup_asn : Tables → ℕ → Option String × Option String × Bool
unfolding find_range
lookup_asn t ip = elim (find_range t.asn_rows ip) [
  | none ↦ (none, none, false)
  | some r ↦ (r.info.asn, some r.info.asn_name, true)
]

pub lookup_country : Tables → ℕ → Option String
unfolding find_range
lookup_country t ip = elim (find_range t.country_rows ip) [
  | none ↦ none
  | some r ↦ if r.info == unknown_country_code then none else some r.info
]

pub lookup : Tables → String → GeoResult
unfolding parse_ipv4 lookup_asn lookup_country
lookup t ip = elim (parse_ipv4 ip) [
  | none ↦ record { ip = ip; asn = none; asn_name = none; country = none; matched = false }
  | some n ↦
      let found = lookup_asn t n in
      record {
        ip = ip;
        asn = found.0;
        asn_name = found.1;
        country = lookup_country t n;
        matched = found.2;
      }
]
