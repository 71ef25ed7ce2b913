-- ===== src/UbuntuDiff/Regen.antt =====
-- scripts/ubuntu_diff.py: `check` after `regen`, and what `check` reports.

use mirage_core.Shared.{
  ◌≡◌, refl, ap, ◌∙◌, subst, inl, inr, true, false, Option, none, some, String, List, [], ◌∷◌, ◌++◌,
  if◌then◌else◌, nat_eq, string_eq, ==_refl, Bool-cases, Option-cases,
}
use mirage_core.UbuntuDiff.{
  Case, Doc, Output, Container, Json, all_cases, is_seen, has_duplicate, load, agrees, mismatches,
  image_warnings, check, regen_cases, regen_gaps, regen_doc, regen,
}

load-no_duplicate :
    (json : Json) (text : json.Text) (doc : Doc)
    → load json text ≡ some doc
    → has_duplicate [] (all_cases doc) ≡ false
unfolding load
load-no_duplicate json text doc e = elim (Option-cases (json.loads text)) [
  | inl fails ↦ let f : none ≡ some doc = rw (fails, load) at e in absurd (cc)
  | inr read ↦
      let (found, at_text) = read in
      elim (Bool-cases (has_duplicate [] (all_cases found))) [
        | inl twice ↦ let f : none ≡ some doc = rw (at_text, twice, load) at e in absurd (cc)
        | inr once ↦
            let f : some found ≡ some doc = rw (at_text, once, load) at e in
            let n : found ≡ doc = cc in
            subst (λ (d : Doc). has_duplicate [] (all_cases d) ≡ false) n once
      ]
]

module _ (k : Container) where
  -- Cases that expect just what the container gives, for the commands of other cases.
  data IsFresh : List Case → List Case → Type 0 where
    done : IsFresh [] []
    next :
        (c : Case) (o : Output) (cases later : List Case)
        → k.run c.cmd ≡ some o
        → IsFresh cases later
        → IsFresh
            (c ∷ cases)
            (record c { stdout = some o.out; stderr = some o.err; code = some o.status } ∷ later)

  regen_cases-IsFresh :
      (cases later : List Case) → regen_cases k cases ≡ some later → IsFresh cases later
  unfolding regen_cases
  regen_cases-IsFresh [] later e = let n : [] ≡ later = cc in subst (IsFresh []) n done
  regen_cases-IsFresh (c ∷ cases) later e = elim (Option-cases (k.run c.cmd)) [
    | inl fails ↦ let f : none ≡ some later = rw (fails, regen_cases) at e in absurd (cc)
    | inr ran ↦ elim (Option-cases (regen_cases k cases)) [
      | inl fails ↦ let f : none ≡ some later = rw (ran.1, fails, regen_cases) at e in absurd (cc)
      | inr rest ↦
          let (o, run) = ran in
          let (more, known) = rest in
          let fresh : Case = record c {
            stdout = some o.out;
            stderr = some o.err;
            code = some o.status;
          } in
          let f : some (fresh ∷ more) ≡ some later = rw (run, known, regen_cases) at e in
          let n : fresh ∷ more ≡ later = cc in
          subst (IsFresh (c ∷ cases)) n
            (next c o cases more run (regen_cases-IsFresh cases more known))
    ]
  ]

  IsFresh-append :
      {xs xs' ys ys' : List Case}
      → IsFresh xs xs'
      → IsFresh ys ys'
      → IsFresh (xs ++ ys) (xs' ++ ys')
  IsFresh-append done b = b
  IsFresh-append (next c o cases later run a) b = next c o _ _ run (IsFresh-append a b)

  -- Fresh cases agree with the container.
  IsFresh-mismatches : {xs ys : List Case} → IsFresh xs ys → mismatches k ys ≡ some []
  unfolding mismatches agrees
  IsFresh-mismatches done = refl
  IsFresh-mismatches (next c o cases later run rest) =
      rw (run, IsFresh-mismatches rest, ==_refl o.out, ==_refl o.err, ==_refl o.status, mismatches)
        refl

  IsFresh-has_duplicate :
      {xs ys : List Case} (seen : List String)
      → IsFresh xs ys
      → has_duplicate seen ys ≡ has_duplicate seen xs
  unfolding has_duplicate
  IsFresh-has_duplicate seen done = refl
  IsFresh-has_duplicate seen (next c o cases later run rest) =
      ap (λ b. if is_seen c.cmd seen then true else b) (IsFresh-has_duplicate (c.cmd ∷ seen) rest)

  -- Regenerating fresh cases changes nothing.
  IsFresh-regen_cases : {xs ys : List Case} → IsFresh xs ys → regen_cases k ys ≡ some ys
  unfolding regen_cases
  IsFresh-regen_cases done = refl
  IsFresh-regen_cases (next c o cases later run rest) =
      rw (run, IsFresh-regen_cases rest, regen_cases) refl

  regen_gaps-IsFresh :
      (gaps fresh : Option (List Case))
      → regen_gaps k gaps ≡ some fresh
      → IsFresh (elim gaps [ none ↦ [] | some xs ↦ xs ]) (elim fresh [ none ↦ [] | some xs ↦ xs ])
        × (regen_gaps k fresh ≡ some fresh)
  unfolding regen_gaps
  regen_gaps-IsFresh none fresh e =
      let n : none ≡ fresh = cc in
      subst
        (λ (g : Option (List Case)).
          IsFresh [] (elim g [ none ↦ [] | some xs ↦ xs ]) × (regen_gaps k g ≡ some g))
        n (done, refl)
  regen_gaps-IsFresh (some gaps) fresh e = elim (Option-cases (regen_cases k gaps)) [
    | inl fails ↦ let f : none ≡ some fresh = rw (fails, regen_gaps) at e in absurd (cc)
    | inr ran ↦
        let (later, known) = ran in
        let f : some (some later) ≡ some fresh = rw (known, regen_gaps) at e in
        let n : some later ≡ fresh = cc in
        let is_fresh = regen_cases-IsFresh gaps later known in
        subst
          (λ (g : Option (List Case)).
            IsFresh gaps (elim g [ none ↦ [] | some xs ↦ xs ]) × (regen_gaps k g ≡ some g))
          n (is_fresh, rw (IsFresh-regen_cases is_fresh, regen_gaps) refl)
  ]

  -- What `regen` makes of a document.
  regen_doc-IsFresh :
      (doc fresh : Doc)
      → regen_doc k doc ≡ some fresh
      → IsFresh (all_cases doc) (all_cases fresh)
        × (fresh.image_id ≡ some k.container_id)
        × (regen_doc k fresh ≡ some fresh)
  unfolding regen_doc
  regen_doc-IsFresh doc fresh e = elim (Option-cases (regen_cases k doc.cases)) [
    | inl fails ↦ let f : none ≡ some fresh = rw (fails, regen_doc) at e in absurd (cc)
    | inr ran ↦ elim (Option-cases (regen_gaps k doc.known_gaps)) [
      | inl fails ↦ let f : none ≡ some fresh = rw (ran.1, fails, regen_doc) at e in absurd (cc)
      | inr rest ↦
          let (cases, known) = ran in
          let (gaps, at_gaps) = rest in
          let (fresh_gaps, gaps_again) = regen_gaps-IsFresh doc.known_gaps gaps at_gaps in
          let fresh_cases = regen_cases-IsFresh doc.cases cases known in
          let made : Doc = record {
            image = some k.container_image;
            image_id = some k.container_id;
            bash = some k.bash_version;
            cases = cases;
            known_gaps = gaps;
          } in
          let f : some made ≡ some fresh = rw (known, at_gaps, regen_doc) at e in
          let n : made ≡ fresh = cc in
          subst
            (λ (d : Doc).
              IsFresh (all_cases doc) (all_cases d)
              × (d.image_id ≡ some k.container_id)
              × (regen_doc k d ≡ some d))
            n
            (
              IsFresh-append fresh_cases fresh_gaps,
              refl,
              rw (IsFresh-regen_cases fresh_cases, gaps_again, regen_doc) refl,
            )
    ]
  ]

  -- If JSON text is read back as the document that was written, then after a `regen` that returns
  -- `check` finds no mismatch and no warning, and another `regen` writes the same text.
  pub check-regen :
      (json : Json) (text written : json.Text)
      → ((d : Doc) → json.loads (json.dumps d) ≡ some d)
      → regen k json text ≡ some written
      → (check k json written ≡ some ([], [])) × (regen k json written ≡ some written)
  unfolding regen check load image_warnings
  check-regen json text written round e = elim (Option-cases (load json text)) [
    | inl fails ↦ let f : none ≡ some written = rw (fails, regen) at e in absurd (cc)
    | inr read ↦ elim (Option-cases (regen_doc k read.0)) [
      | inl fails ↦ let f : none ≡ some written = rw (read.1, fails, regen) at e in absurd (cc)
      | inr made ↦
          let (doc, at_text) = read in
          let (fresh, regenerated) = made in
          let f : some (json.dumps fresh) ≡ some written = rw (at_text, regenerated, regen) at e in
          let n : json.dumps fresh ≡ written = cc in
          let (fresh_cases, same_image, again) = regen_doc-IsFresh doc fresh regenerated in
          let once : has_duplicate [] (all_cases fresh) ≡ false =
            IsFresh-has_duplicate [] fresh_cases ∙ load-no_duplicate json text doc at_text in
          let reads : load json (json.dumps fresh) ≡ some fresh =
            rw (round fresh, once, load) refl in
          subst (λ (t : json.Text). (check k json t ≡ some ([], [])) × (regen k json t ≡ some t)) n
            (
              rw
                  (
                    reads,
                    IsFresh-mismatches fresh_cases,
                    same_image,
                    ==_refl k.container_id,
                    check,
                    image_warnings,
                  )
                  refl,
              rw (reads, again, regen) refl,
            )
    ]
  ]
