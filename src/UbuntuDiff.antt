-- ===== src/UbuntuDiff.antt =====
-- scripts/ubuntu_diff.py: `check` and `regen` of the file with the expected outputs. The container and
-- the JSON text of a document are parameters; a raised exception is `none`. A command gives the same
-- output each time it runs: the source starts a process anew for each run, which the model takes to
-- be deterministic.
pub mod Regen
mod Witnesses
use mirage_core.Shared.{
  ℕ, ◌≡◌, Bool, true, false, ◌&&◌, ◌||◌, Option, none, some, String, List, [], ◌∷◌, ◌++◌,
  if◌then◌else◌, ◌==◌, Eq, nat_eq, string_eq,
}

pub record Case : Type 0 where
  pub cmd : String
  pub stdout : Option String
  pub stderr : Option String
  pub code : Option ℕ

pub record Doc : Type 0 where
  pub image : Option String
  pub image_id : Option String
  pub bash : Option String
  pub cases : List Case
  pub known_gaps : Option (List Case)

-- What a command printed, and its exit status.
pub record Output : Type 0 where
  pub out : String
  pub err : String
  pub status : ℕ

-- `Container`; `run` is `none` where the output is not UTF-8.
pub record Container : Type 0 where
  pub container_image : String
  pub container_id : String
  pub bash_version : String
  pub run : String → Option Output

-- `json.loads` and `json.dumps`, and the text of a file
pub record Json : Type 1 where
  pub Text : Type 0
  pub loads : Text → Option Doc
  pub dumps : Doc → Text

-- `doc.get("known_gaps", [])`
abbrev pub gaps_of : Doc → List Case
gaps_of doc = elim doc.known_gaps [ none ↦ [] | some gaps ↦ gaps ]

-- `doc["cases"] + doc.get("known_gaps", [])`
abbrev pub all_cases : Doc → List Case
all_cases doc = doc.cases ++ gaps_of doc

unfoldable pub is_seen : String → List String → Bool
is_seen cmd [] = false
is_seen cmd (c ∷ seen) = c == cmd || is_seen cmd seen

-- Whether the loop of `_load` raises on a command that it has seen.
unfoldable pub has_duplicate : List String → List Case → Bool
has_duplicate seen [] = false
has_duplicate seen (c ∷ cases) =
    let rest = has_duplicate (c.cmd ∷ seen) cases in if is_seen c.cmd seen then true else rest

-- `_load`, of the text of the file
unfoldable pub load : (json : Json) → json.Text → Option Doc
load json text = elim (json.loads text) [
  | none ↦ none
  | some doc ↦ if has_duplicate [] (all_cases doc) then none else some doc
]

abbrev pub same_text : Option String → String → Bool
same_text none s = false
same_text (some t) s = t == s

abbrev pub same_code : Option ℕ → ℕ → Bool
same_code none n = false
same_code (some m) n = m == n

-- `got == want`
unfoldable pub agrees : Case → Output → Bool
agrees c o = same_text c.stdout o.out && (same_text c.stderr o.err && same_code c.code o.status)

-- A case that differs, with what the container gave.
pub record Mismatch : Type 0 where
  pub wanted : Case
  pub got : Output

module _ (container : Container) where
  -- The loop of `check`.
  unfoldable pub mismatches : List Case → Option (List Mismatch)
  mismatches [] = some []
  mismatches (c ∷ cases) = elim (container.run c.cmd) [
    | none ↦ none
    | some o ↦ elim (mismatches cases) [
      | none ↦ none
      | some bad ↦ some (if agrees c o then bad else record { wanted = c; got = o } ∷ bad)
    ]
  ]

  -- The warning about another image: the id in the file and the one here.
  unfoldable pub image_warnings : Doc → List (Option String × String)
  image_warnings doc =
      if same_text doc.image_id container.container_id
      then []
      else (doc.image_id, container.container_id) ∷ []

  unfoldable pub check :
      (json : Json) → json.Text → Option (List Mismatch × List (Option String × String))
  check json text = elim (load json text) [
    | none ↦ none
    | some doc ↦ elim (mismatches (all_cases doc)) [
      | none ↦ none
      | some bad ↦ some (bad, image_warnings doc)
    ]
  ]

  -- The loop of `regen`, which sets the expectation of each case.
  unfoldable pub regen_cases : List Case → Option (List Case)
  regen_cases [] = some []
  regen_cases (c ∷ cases) = elim (container.run c.cmd) [
    | none ↦ none
    | some o ↦ elim (regen_cases cases) [
      | none ↦ none
      | some later ↦
          some (record c { stdout = some o.out; stderr = some o.err; code = some o.status } ∷ later)
    ]
  ]

  -- The known gaps, which may be absent.
  unfoldable pub regen_gaps : Option (List Case) → Option (Option (List Case))
  regen_gaps none = some none
  regen_gaps (some gaps) = elim (regen_cases gaps) [ none ↦ none | some later ↦ some (some later) ]

  unfoldable pub regen_doc : Doc → Option Doc
  regen_doc doc = elim (regen_cases doc.cases) [
    | none ↦ none
    | some cases ↦ elim (regen_gaps doc.known_gaps) [
      | none ↦ none
      | some gaps ↦ some (record {
        image = some container.container_image;
        image_id = some container.container_id;
        bash = some container.bash_version;
        cases = cases;
        known_gaps = gaps;
      })
    ]
  ]

  -- `regen`: the text that it writes
  unfoldable pub regen : (json : Json) → json.Text → Option json.Text
  regen json text = elim (load json text) [
    | none ↦ none
    | some doc ↦ elim (regen_doc doc) [ none ↦ none | some fresh ↦ some (json.dumps fresh) ]
  ]
