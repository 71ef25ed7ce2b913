-- ===== src/Bridge/Db/Atomic.antt =====
-- bridge/db.py: `write_enrichment` writes both tables or neither, whatever the server fails.
use mirage_core.Shared.{◌≡◌, refl, Bool, true, false, Option, some, arith, ◌∙◌, string_eq}
use mirage_core.Shared.Dict.{insert}
use mirage_core.Bridge.Db.{
  Database, EnrichmentResult, Conn, execute, commit, update_rows, set_intelligence, update_session,
  upsert_embedding, write_enrichment, finish, then_execute,
}

module _ {Doc Float Json : Type 0} where
  -- What a statement does: it runs on a live transaction, or it raises and commits nothing.
  abbrev Executed :
      (Database Doc Float Json → Option (Database Doc Float Json))
      → Conn Doc Float Json
      → Bool × Conn Doc Float Json
      → Type 0
  Executed stmt c (true, c') =
      (c.aborted ≡ false)
      × (c'.aborted ≡ false)
      × (stmt c.working ≡ some c'.working)
      × (c'.committed ≡ c.committed)
  Executed stmt c (false, c') = c'.committed ≡ c.committed

  execute-Executed :
      (stmt : Database Doc Float Json → Option (Database Doc Float Json)) (c : Conn Doc Float Json)
      → Executed stmt c (execute stmt c)
  unfolding execute
  execute-Executed stmt c = ground arith

module _ {Doc Float Json : Type 0} (r : EnrichmentResult Doc Float Json) where
  -- The database with both writes of a result.
  abbrev pub enriched : Database Doc Float Json → Database Doc Float Json
  enriched db = record {
    sessions = update_rows (set_intelligence r) r.session_id db.sessions;
    embeddings = insert r.session_id r.stored db.embeddings;
  }

  -- How a write ends: both tables are committed and nothing is left open, or it raised and nothing
  -- is committed.
  abbrev pub Written : Conn Doc Float Json → Bool × Conn Doc Float Json → Type 0
  Written c (true, c') =
      (c.aborted ≡ false)
      × (c'.aborted ≡ false)
      × (c'.working ≡ enriched c.working)
      × (c'.committed ≡ enriched c.working)
  Written c (false, c') = c'.committed ≡ c.committed

  both_writes :
      (db db' db'' : Database Doc Float Json)
      → update_session r db ≡ some db'
      → upsert_embedding r db' ≡ some db''
      → db'' ≡ enriched db
  unfolding update_session upsert_embedding
  both_writes db db' db'' h k = ground arith

  finish-Written :
      (c c'' : Conn Doc Float Json)
      → c.aborted ≡ false
      → c''.aborted ≡ false
      → c''.working ≡ enriched c.working
      → Written c (finish true c'')
  unfolding finish commit
  finish-Written c c'' live live'' e = rw live'' (live, refl, e, e)

  Written-step :
      (c : Conn Doc Float Json) (p q : Bool × Conn Doc Float Json)
      → Executed (update_session r) c p
      → Executed (upsert_embedding r) p.1 q
      → (p.0 ≡ true → then_execute (upsert_embedding r) true p.1 ≡ q)
      → Written c
          (let (inserted, c'') = then_execute (upsert_embedding r) p.0 p.1 in finish inserted c'')
  Written-step c (false, c') q h k e = unfold then_execute finish in h
  Written-step c (true, c') (false, c'') h k e = rw (e refl) (unfold finish in k ∙ h.3)
  Written-step c (true, c') (true, c'') h k e =
      rw (e refl)
        (finish-Written c c'' h.0 k.1 (both_writes c.working c'.working c''.working h.2 k.2))

  -- `write_enrichment` writes both tables or neither, whatever the server fails.
  pub write_enrichment-Written : (c : Conn Doc Float Json) → Written c (write_enrichment r c)
  unfolding write_enrichment
  write_enrichment-Written c =
      Written-step c (execute (update_session r) c)
        (execute (upsert_embedding r) (execute (update_session r) c).1)
        (execute-Executed (update_session r) c) (execute-Executed (upsert_embedding r) _)
        (λ _. refl)
