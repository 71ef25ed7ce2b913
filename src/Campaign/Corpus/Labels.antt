-- ===== src/Campaign/Corpus/Labels.antt =====
-- ml/mirage/reid/real_data.py: how `build_real_identity_corpus` labels the sessions.
use mathlib.Core.List.{Memᴰ}
use mathlib.Core.List.Memᴰ
use mirage_core.Shared.{
  ℕ, ◌≤◌, ◌≡◌, refl, sym, ap, ◌∙◌, subst, ◌↔◌, inl, inr, Bool, false, Option, none, some, String,
  List, [], ◌∷◌, map, keep, mem-keep, ltb, length, length-map, ◌==◌, string_eq, ==_iff, arith,
  Bool-cases,
}
use mirage_core.Shared.Grouping.{
  group_by, values_at, map_self, group_by-values_at, values_at-group_by,
}
use mirage_core.Shared.Flat.{flat_map, flat_map-mem, mem-flat_map, keep-mem}
use mirage_core.Campaign.{CampaignResult}
use mirage_core.Campaign.Corpus.{
  Toolkit, toolkit_label_for, IdentityCorpus, has_empty_ip, rows_of_address, corpus_rows,
  build_real_identity_corpus, zip_rows, saved_rows, load_lines,
}

module _ {S : Type 0} (ip_of : S → String) where
  zip_rows-map :
      (rows : List (S × String × Toolkit))
      → zip_rows ip_of (map (λ r. r.0) rows) (map (λ r. r.1) rows) (map (λ r. r.2) rows) ≡ rows
  unfolding zip_rows
  zip_rows-map [] = refl
  zip_rows-map (r ∷ rows) = ap (λ rs. r ∷ rs) (zip_rows-map rows)

  -- The sessions of an address, in their order.
  abbrev pub sessions_of : String → List S → List S
  sessions_of ip sessions = values_at ip_of (λ s. s) ip sessions

  mem-sessions_of :
      (ip : String) (sessions : List S) (s : S)
      → Memᴰ s (sessions_of ip sessions) ↔ (Memᴰ s sessions × (ip_of s ≡ ip))
  mem-sessions_of ip sessions s =
      let same = map_self (keep (λ x. ip_of x == ip) sessions) in
      (
        λ m.
            let (k, e) = mem-keep (λ x. ip_of x == ip) sessions (rw same at m) in
            (k, (==_iff (ip_of s) ip).0 e),
        λ (k, e).
            subst (λ xs. Memᴰ s xs) (sym same)
              (keep-mem (λ x. ip_of x == ip) k ((==_iff (ip_of s) ip).1 e)),
      )

  -- The rows of the corpus are those of the sessions that the limit keeps.
  corpus_rows_iff :
      (sessions : List S) (campaign : CampaignResult) (min_sessions : ℕ) (s : S) (ip : String)
      (toolkit : Toolkit)
      → Memᴰ (s, ip, toolkit) (corpus_rows ip_of sessions campaign min_sessions) ↔ (
          Memᴰ s sessions
          × (ip_of s ≡ ip)
          × (toolkit ≡ toolkit_label_for ip campaign)
          × (min_sessions ≤ length (sessions_of ip sessions)))
  unfolding corpus_rows rows_of_address
  corpus_rows_iff sessions campaign min_sessions s ip toolkit =
      let rows : String × List S → List (S × String × Toolkit) =
        rows_of_address ip_of campaign min_sessions in
      (
        λ m.
            let ((i, ss), there, found) =
              mem-flat_map rows (group_by ip_of (λ x. x) [] sessions) m in
            let own : ss ≡ sessions_of i sessions =
              group_by-values_at ip_of (λ x. x) sessions i ss there in
            elim (Bool-cases (ltb (length ss) min_sessions)) [
              | inl few ↦ elim (rw few at found) [ ]
              | inr enough ↦
                  let kept : Memᴰ (s, ip, toolkit)
                      (map (λ x. (x, i, toolkit_label_for i campaign)) ss) =
                    rw enough at found in
                  let (x, k, e) = Memᴰ.of_map (λ x. (x, i, toolkit_label_for i campaign)) ss kept in
                  let ei : i ≡ ip = ap (λ (r : S × String × Toolkit). r.1) e in
                  let ex : x ≡ s = ap (λ (r : S × String × Toolkit). r.0) e in
                  let et : toolkit_label_for i campaign ≡ toolkit =
                    ap (λ (r : S × String × Toolkit). r.2) e in
                  let (inside, at_ip) =
                    (mem-sessions_of i sessions x).0 (subst (λ xs. Memᴰ x xs) own k) in
                  (
                    subst (λ y. Memᴰ y sessions) ex inside,
                    ap ip_of (sym ex) ∙ (at_ip ∙ ei),
                    sym et ∙ ap (λ j. toolkit_label_for j campaign) ei,
                    subst (λ j. min_sessions ≤ length (sessions_of j sessions)) ei
                        (subst (λ xs. min_sessions ≤ length xs) own (ground (arith, enough))),
                  )
            ],
        λ (inside, at_ip, et, enough).
            let mine = (mem-sessions_of ip sessions s).1 (inside, at_ip) in
            let group = values_at-group_by ip_of (λ x. x) sessions ip mine in
            let many : ltb (length (sessions_of ip sessions)) min_sessions ≡ false = ground arith in
            let row : Memᴰ (s, ip, toolkit_label_for ip campaign)
                (rows (ip, sessions_of ip sessions)) =
              rw (many, rows_of_address)
                (Memᴰ.map (λ x. (x, ip, toolkit_label_for ip campaign)) mine) in
            subst (λ t. Memᴰ (s, ip, t) (flat_map rows (group_by ip_of (λ x. x) [] sessions)))
              (sym et) (flat_map-mem rows group row),
      )

  -- If no session has an empty address, the corpus is built, its three lists have the same length,
  -- and its rows are exactly the sessions of addresses with enough sessions, each with its own
  -- address as identity and the label of that address as toolkit.
  pub build_real_identity_corpus-rows :
      (sessions : List S) (campaign : CampaignResult) (min_sessions : ℕ)
      → has_empty_ip ip_of sessions ≡ false
      → (corpus : IdentityCorpus ip_of) × (build_real_identity_corpus ip_of sessions campaign
            min_sessions
          ≡ some corpus)
        × (length corpus.identity_labels ≡ length corpus.sessions)
        × (length corpus.toolkit_labels ≡ length corpus.sessions)
        × ((s : S) (ip : String) (toolkit : Toolkit)
            → Memᴰ (s, ip, toolkit) (saved_rows ip_of corpus) ↔ (
                Memᴰ s sessions
                × (ip_of s ≡ ip)
                × (toolkit ≡ toolkit_label_for ip campaign)
                × (min_sessions ≤ length (sessions_of ip sessions))))
  unfolding build_real_identity_corpus saved_rows
  build_real_identity_corpus-rows sessions campaign min_sessions full =
      let rows = corpus_rows ip_of sessions campaign min_sessions in
      (
        _,
        rw (full, build_real_identity_corpus) refl,
        length-map rows (λ r. r.1) ∙ sym (length-map rows (λ r. r.0)),
        length-map rows (λ r. r.2) ∙ sym (length-map rows (λ r. r.0)),
        λ s ip toolkit.
            subst
              (λ rs. Memᴰ (s, ip, toolkit) rs ↔ (
                Memᴰ s sessions
                × (ip_of s ≡ ip)
                × (toolkit ≡ toolkit_label_for ip campaign)
                × (min_sessions ≤ length (sessions_of ip sessions))))
              (sym (zip_rows-map rows))
              (corpus_rows_iff sessions campaign min_sessions s ip toolkit),
      )

  corpus_of : List (S × String × Toolkit) → IdentityCorpus ip_of
  corpus_of rows = record {
    sessions = map (λ r. r.0) rows;
    identity_labels = map (λ r. r.1) rows;
    toolkit_labels = map (λ r. r.2) rows;
  }

  module _ {L : Type 0} (is_blank : L → Bool) (parse : L → Option (S × String × Toolkit))
      (print : S × String × Toolkit → L) where
    -- A corpus that was built, saved and loaded again is the same, if no printed row is blank and each
    -- parses to itself.
    load_lines-saved_rows :
        (sessions : List S) (campaign : CampaignResult) (min_sessions : ℕ)
        (corpus : IdentityCorpus ip_of)
        → ((r : S × String × Toolkit) → (is_blank (print r) ≡ false) × (parse (print r) ≡ some r))
        → build_real_identity_corpus ip_of sessions campaign min_sessions ≡ some corpus
        → load_lines ip_of is_blank parse (map print (saved_rows ip_of corpus)) ≡ some corpus
    unfolding build_real_identity_corpus saved_rows load_lines corpus_of
    load_lines-saved_rows sessions campaign min_sessions corpus round built =
        elim (Bool-cases (has_empty_ip ip_of sessions)) [
          | inl empty ↦
              let f : none ≡ some corpus = rw (empty, build_real_identity_corpus) at built in
              absurd (cc)
          | inr full ↦
              let rows = corpus_rows ip_of sessions campaign min_sessions in
              let f : some (corpus_of rows) ≡ some corpus =
                rw (full, build_real_identity_corpus) at built in
              let n : corpus_of rows ≡ corpus = cc in
              subst
                (λ (c : IdentityCorpus ip_of).
                  load_lines ip_of is_blank parse (map print (saved_rows ip_of c)) ≡ some c)
                n
                (subst
                  (λ rs. load_lines ip_of is_blank parse (map print rs) ≡ some (corpus_of rows))
                  (sym (zip_rows-map rows)) (reload rows))
        ]
      where
        reload :
            (rows : List (S × String × Toolkit))
            → load_lines ip_of is_blank parse (map print rows) ≡ some (corpus_of rows)
        reload [] = refl
        reload (r ∷ rows) = rw ((round r).0, (round r).1, reload rows, load_lines) refl
