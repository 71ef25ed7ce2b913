-- ===== src/Bridge/Worker/Witnesses.antt =====
-- The bridge on a table of three sessions: tests, and the theorems at concrete inputs. A document is
-- a number; an even one is enriched, an odd one raises.
use mirage_core.Shared.{
  ℕ, ◌-◌, ◌≡◌, refl, String, Bool, true, false, none, some, List, [], ◌∷◌, ◌%◌, ◌==◌, nat_eq,
  if◌then◌else◌, arith, sym, ap, ◌∙◌,
}
use mirage_core.Bridge.Db.{
  has_session, SessionRow, EmbeddingRow, Database, EnrichmentResult, Conn, write_enrichment,
  fetch_pending, execute, is_pending,
}
use mirage_core.Bridge.Db.Atomic.{enriched, Written, write_enrichment-Written}
use mirage_core.Bridge.Db.Faultless.{IsClean, write_enrichment-IsClean}
use mirage_core.Bridge.Worker.{Outcome, ok, err, process_batch, run_once}
use mirage_core.Bridge.Worker.Drain.{IsReady, IsDrained, run_once-IsDrained}
use mirage_core.Bridge.Worker.Poison.{blamed, fresh, process_batch-poisoned}

abbrev stored_row : EmbeddingRow ℕ ℕ ℕ
stored_row = record {
  model_version = none;
  embedding_dim = none;
  embedding = none;
  tool_signature = "unknown";
  timing_label = "human";
  timing_cv = none;
  timing_median_ms = none;
  trajectory = none;
}

-- The key of the session that has this document.
abbrev key : ℕ → String
key n = if n == 2 then "two" else if n == 4 then "four" else "three"

abbrev result : ℕ → EnrichmentResult ℕ ℕ ℕ
result n = record {
  session_id = key n;
  attacker_class = "scanner";
  classifier_confidence = some 1;
  cluster_id = none;
  mitre_techniques = "T1082" ∷ [];
  session_summary = "a scan";
  stix_bundle = none;
  severity = some "low";
  recommended_actions = [];
  stored = stored_row;
}

abbrev enrich : ℕ → Outcome (EnrichmentResult ℕ ℕ ℕ)
enrich n = if n % 2 == 0 then Outcome.ok (result n) else Outcome.err "odd"

abbrev session : ℕ → SessionRow ℕ ℕ ℕ
session n = record {
  session_id = key n;
  session_document = n;
  start_ms = 10 - n;
  protocol = "ssh";
  outcome = "closed";
  attacker_class = none;
  classifier_confidence = none;
  cluster_id = none;
  mitre_techniques = none;
  session_summary = none;
  stix_bundle = none;
  severity = none;
  recommended_actions = none;
}

abbrev table : Database ℕ ℕ ℕ
table = record { sessions = session 2 ∷ session 3 ∷ session 4 ∷ []; embeddings = [] }

abbrev conn : List Bool → Conn ℕ ℕ ℕ
conn faults = record { committed = table; working = table; aborted = false; faults = faults }

-- The oldest pending sessions come first.
fetched : (fetch_pending 2 true (conn [])).0 ≡ some (session 4 ∷ session 3 ∷ [])
unfolding fetch_pending execute
fetched = refl

write_enrichment-Written_example :
    Written
      (result 2)
      (conn (false ∷ true ∷ []))
      (write_enrichment (result 2) (conn (false ∷ true ∷ [])))
write_enrichment-Written_example = write_enrichment-Written (result 2) (conn (false ∷ true ∷ []))

-- The key that a result names, or the text given where there is none.
abbrev named : String → Outcome (EnrichmentResult ℕ ℕ ℕ) → String
named id (ok r) = r.session_id
named id (err _) = id

named_by :
    (id : String) (o : Outcome (EnrichmentResult ℕ ℕ ℕ)) (r : EnrichmentResult ℕ ℕ ℕ)
    → named id o ≡ id
    → o ≡ ok r
    → r.session_id ≡ id
named_by id o r h e = sym (ap (named id) e) ∙ h

ready : IsReady enrich "refused" true (conn [])
ready = record {
  clean = record { live = refl; settled = refl; faultless = refl };
  owned = (
    (λ r. named_by "two" (enrich 2) r refl),
    ((λ r. named_by "three" (enrich 3) r refl), ((λ r. named_by "four" (enrich 4) r refl), tt)),
  );
}

run_once-IsDrained_example : IsDrained true (run_once enrich "refused" 2 true 4 0 (conn []))
unfolding is_pending
run_once-IsDrained_example =
    run_once-IsDrained enrich "refused" true 2 (omega arith) 4 0 (conn []) ready (omega arith)

process_batch-poisoned_example :
    process_batch enrich "refused"
      (session 3 ∷ session 2 ∷ session 4 ∷ [])
      (conn (true ∷ false ∷ []))
    ≡ process_batch enrich "refused"
        (session 4 ∷ [])
        (fresh enrich "refused" (blamed enrich "refused" (session 2) table) [])
process_batch-poisoned_example =
    process_batch-poisoned enrich "refused" (session 3) [] (session 2) (result 2) (session 4 ∷ [])
      (conn (true ∷ false ∷ [])) (false ∷ []) (("odd", refl), tt) refl refl refl

known : has_session "two" table.sessions ≡ true
unfolding has_session
known = refl

write_enrichment-IsClean_example :
    ((write_enrichment (result 2) (conn [])).0 ≡ true)
    × ((write_enrichment (result 2) (conn [])).1.committed ≡ enriched (result 2) table)
    × IsClean (write_enrichment (result 2) (conn [])).1
write_enrichment-IsClean_example = write_enrichment-IsClean (result 2) (conn []) ready.clean known
