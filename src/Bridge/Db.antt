-- ===== src/Bridge/Db.antt =====
-- bridge/db.py: the statements of the worker, on a connection with one open transaction.
-- `Doc`, `Float` and `Json` are the types of documents, floats and JSON values, which the worker only
-- passes on. A fault hits a statement: a commit itself and a rollback do not fail. The trajectory's columns are kept as the one value that they are read from.
pub mod Atomic
pub mod Faultless
pub mod Pending
use Prim.Native.String.{◌++◌ as str_append}
use mirage_core.Shared.{
  ℕ, zero, suc, String, Bool, true, false, not, ◌||◌, ◌&&◌, Option, none, some, List, [], ◌∷◌, map,
  leb, ◌==◌, string_eq, if◌then◌else◌, keep, take,
}
use mirage_core.Shared.Dict.{Dict, insert}
use mirage_core.Shared.Sorting.{sort_by}

module _ (Doc Float Json : Type 0) where
  -- The columns of `sessions` that the worker reads or writes.
  pub record SessionRow : Type 0 where
    pub session_id : String
    pub session_document : Doc
    pub start_ms : ℕ
    pub protocol : String
    pub outcome : String
    pub attacker_class : Option String
    pub classifier_confidence : Option Float
    pub cluster_id : Option String
    pub mitre_techniques : Option (List String)
    pub session_summary : Option String
    pub stix_bundle : Option Json
    pub severity : Option String
    pub recommended_actions : Option (List String)

  -- A row of `session_embeddings`, without its key.
  pub record EmbeddingRow : Type 0 where
    pub model_version : Option String
    pub embedding_dim : Option ℕ
    pub embedding : Option (List Float)
    pub tool_signature : String
    pub timing_label : String
    pub timing_cv : Option Float
    pub timing_median_ms : Option Float
    pub trajectory : Option Json

  pub record Database : Type 0 where
    pub sessions : List SessionRow
    pub embeddings : Dict String EmbeddingRow

  -- enrich.py's `EnrichmentResult`; `severity` and `recommended_actions` are read from its `extras`.
  pub record EnrichmentResult : Type 0 where
    pub session_id : String
    pub attacker_class : String
    pub classifier_confidence : Option Float
    pub cluster_id : Option String
    pub mitre_techniques : List String
    pub session_summary : String
    pub stix_bundle : Option Json
    pub severity : Option String
    pub recommended_actions : List String
    pub stored : EmbeddingRow

  -- What a commit has made durable, what the open transaction sees, whether a statement of it has
  -- failed, and which of the coming statements the server will fail (none, once the list is empty).
  pub record Conn : Type 0 where
    pub committed : Database
    pub working : Database
    pub aborted : Bool
    pub faults : List Bool

abbrev pub next_fault : List Bool → Bool
next_fault [] = false
next_fault (f ∷ _) = f

abbrev pub later_faults : List Bool → List Bool
later_faults [] = []
later_faults (_ ∷ fs) = fs

abbrev pub is_null : Option String → Bool
is_null none = true
is_null (some _) = false

-- The first `n` characters of a text.
cut : ℕ → String → String
cut zero s = String.[]
cut (suc n) String.[] = String.[]
cut (suc n) (String.◌∷◌ c s) = String.◌∷◌ c (cut n s)

-- `f"enrichment failed: {message}"[:1000]`
unfoldable pub failure_summary : String → String
unfolding cut
failure_summary message = cut 1000 (str_append "enrichment failed: " message)

module _ {Doc Float Json : Type 0} where
  -- The outcome of a statement that the server did not refuse: it may violate a constraint.
  unfoldable pub settle :
      Option (Database Doc Float Json) → Conn Doc Float Json → Bool × Conn Doc Float Json
  settle none c = (false, record c { aborted = true })
  settle (some db) c = (true, record c { working = db })

  -- `cur.execute`: in an aborted transaction every statement raises. `false` is a raised error.
  unfoldable pub execute :
      (Database Doc Float Json → Option (Database Doc Float Json))
      → Conn Doc Float Json
      → Bool × Conn Doc Float Json
  unfolding settle
  execute stmt c =
      if c.aborted
      then (false, c)
      else if next_fault c.faults
      then (false, record c { aborted = true; faults = later_faults c.faults })
      else settle (stmt c.working) (record c { faults = later_faults c.faults })

  -- A commit of an aborted transaction rolls it back.
  unfoldable pub commit : Conn Doc Float Json → Conn Doc Float Json
  commit c =
      if c.aborted
      then record c { working = c.committed; aborted = false }
      else record c { committed = c.working }

  unfoldable pub rollback : Conn Doc Float Json → Conn Doc Float Json
  rollback c = record c { working = c.committed; aborted = false }

  -- `UPDATE sessions SET ... WHERE session_id = ...`
  unfoldable pub update_rows :
      (SessionRow Doc Float Json → SessionRow Doc Float Json)
      → String
      → List (SessionRow Doc Float Json)
      → List (SessionRow Doc Float Json)
  update_rows f id rows = map (λ row. if row.session_id == id then f row else row) rows

  unfoldable pub has_session : String → List (SessionRow Doc Float Json) → Bool
  has_session id [] = false
  has_session id (row ∷ rows) = row.session_id == id || has_session id rows

  abbrev pub set_intelligence :
      EnrichmentResult Doc Float Json → SessionRow Doc Float Json → SessionRow Doc Float Json
  set_intelligence r row = record row {
    attacker_class = some r.attacker_class;
    classifier_confidence = r.classifier_confidence;
    cluster_id = r.cluster_id;
    mitre_techniques = some r.mitre_techniques;
    session_summary = some r.session_summary;
    stix_bundle = r.stix_bundle;
    severity = r.severity;
    recommended_actions = some r.recommended_actions;
  }

  update_session :
      EnrichmentResult Doc Float Json → Database Doc Float Json → Option (Database Doc Float Json)
  update_session r db =
      some (record db { sessions = update_rows (set_intelligence r) r.session_id db.sessions })

  -- `INSERT ... ON CONFLICT (session_id) DO UPDATE`; the key references `sessions`.
  upsert_embedding :
      EnrichmentResult Doc Float Json → Database Doc Float Json → Option (Database Doc Float Json)
  upsert_embedding r db =
      if has_session r.session_id db.sessions
      then some (record db { embeddings = insert r.session_id r.stored db.embeddings })
      else none

  -- A statement that raised ends the call; after the last one the transaction is committed.
  unfoldable pub finish : Bool → Conn Doc Float Json → Bool × Conn Doc Float Json
  finish false c = (false, c)
  finish true c = (true, commit c)

  unfoldable pub then_execute :
      (Database Doc Float Json → Option (Database Doc Float Json))
      → Bool
      → Conn Doc Float Json
      → Bool × Conn Doc Float Json
  then_execute stmt false c = (false, c)
  then_execute stmt true c = execute stmt c

  unfoldable pub write_enrichment :
      EnrichmentResult Doc Float Json → Conn Doc Float Json → Bool × Conn Doc Float Json
  unfolding then_execute finish update_session upsert_embedding
  write_enrichment r c =
      let (updated, c') = execute (update_session r) c in
      let (inserted, c'') = then_execute (upsert_embedding r) updated c' in finish inserted c''

  abbrev pub set_failed : String → SessionRow Doc Float Json → SessionRow Doc Float Json
  set_failed summary row = record row {
    attacker_class = some "error";
    classifier_confidence = none;
    session_summary = some summary;
  }

  unfoldable pub mark_failed : String → String → Conn Doc Float Json → Bool × Conn Doc Float Json
  unfolding finish
  mark_failed id message c =
      let (updated, c') =
        execute
          (λ db. some (record db {
            sessions = update_rows (set_failed (failure_summary message)) id db.sessions;
          }))
          c in
      finish updated c'

  -- The `WHERE` clause of `fetch_pending`
  unfoldable pub is_pending : Bool → SessionRow Doc Float Json → Bool
  is_pending require_finished row =
      is_null row.attacker_class
      && row.protocol == "ssh"
      && (not require_finished || not (row.outcome == "active"))

  abbrev pub starts_no_later : SessionRow Doc Float Json → SessionRow Doc Float Json → Bool
  starts_no_later a b = leb a.start_ms b.start_ms

  pub select_pending :
      ℕ → Bool → List (SessionRow Doc Float Json) → List (SessionRow Doc Float Json)
  unfolding is_pending
  select_pending batch_size require_finished rows =
      take batch_size (sort_by starts_no_later (keep (is_pending require_finished) rows))

  -- The rows, or `none` for a raised error, which no rollback follows.
  unfoldable pub fetch_pending :
      ℕ
      → Bool
      → Conn Doc Float Json
      → Option (List (SessionRow Doc Float Json)) × Conn Doc Float Json
  unfolding select_pending
  fetch_pending batch_size require_finished c =
      let (selected, c') = execute (λ db. some db) c in
      if selected
      then (some (select_pending batch_size require_finished c'.working.sessions), rollback c')
      else (none, c')
