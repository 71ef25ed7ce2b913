-- ===== src/UbuntuDiff/Witnesses.antt =====
-- scripts/ubuntu_diff.py: tests, and the theorems at concrete inputs.
use mirage_core.Shared.{◌≡◌, refl, none, some, [], ◌∷◌}
use mirage_core.UbuntuDiff.{
  Case, Doc, Container, Json, load, check, mismatches, image_warnings, agrees, has_duplicate,
  is_seen, regen, regen_doc, regen_cases, regen_gaps,
}
use mirage_core.UbuntuDiff.Regen.{check-regen}

-- A container that echoes the command, and files that hold the document itself.
abbrev echo : Container
echo = record {
  container_image = "ubuntu:22.04";
  container_id = "sha256:1";
  bash_version = "5.1";
  run = λ cmd. some (record { out = cmd; err = ""; status = 0 });
}

abbrev as_is : Json
as_is = record { Text = Doc; loads = λ d. some d; dumps = λ d. d }

abbrev stale_case : Case
stale_case = record { cmd = "id"; stdout = some "root"; stderr = some ""; code = some 0 }

abbrev new_case : Case
new_case = record { cmd = "pwd"; stdout = none; stderr = none; code = none }

abbrev doc : Doc
doc = record {
  image = none;
  image_id = some "sha256:0";
  bash = none;
  cases = stale_case ∷ [];
  known_gaps = some (new_case ∷ []);
}

abbrev fresh_doc : Doc
fresh_doc = record {
  image = some "ubuntu:22.04";
  image_id = some "sha256:1";
  bash = some "5.1";
  cases = record { cmd = "id"; stdout = some "id"; stderr = some ""; code = some 0 } ∷ [];
  known_gaps =
      some (record { cmd = "pwd"; stdout = some "pwd"; stderr = some ""; code = some 0 } ∷ []);
}

check_runs :
    check echo as_is doc
    ≡ some (
      record { wanted = stale_case; got = record { out = "id"; err = ""; status = 0 } }
          ∷ record { wanted = new_case; got = record { out = "pwd"; err = ""; status = 0 } }
          ∷ [],
      (some "sha256:0", "sha256:1") ∷ [],
    )
unfolding check load has_duplicate is_seen mismatches agrees image_warnings
check_runs = refl

regen_runs : regen echo as_is doc ≡ some fresh_doc
unfolding regen load has_duplicate is_seen regen_doc regen_cases regen_gaps
regen_runs = refl

check-regen_example :
    (check echo as_is fresh_doc ≡ some ([], [])) × (regen echo as_is fresh_doc ≡ some fresh_doc)
check-regen_example = check-regen echo as_is doc fresh_doc (λ d. refl) regen_runs
