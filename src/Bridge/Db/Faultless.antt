-- ===== src/Bridge/Db/Faultless.antt =====
-- bridge/db.py: the statements on a connection with no open change, to a server that fails nothing.
use mirage_core.Shared.{
  ℕ, ◌≡◌, refl, ◌∙◌, string_eq, String, Bool, true, false, Option, some, List, [], ◌∷◌, arith,
}
use mirage_core.Bridge.Db.{
  has_session, set_intelligence, SessionRow, Database, EnrichmentResult, Conn, execute, settle,
  commit, rollback, update_rows, set_failed, failure_summary, write_enrichment, mark_failed,
  fetch_pending, select_pending, finish, then_execute, update_session, upsert_embedding,
}
use mirage_core.Bridge.Db.Atomic.{enriched}

module _ {Doc Float Json : Type 0} where
  -- Nothing is open, nothing has failed, and nothing will.
  pub record IsClean (c : Conn Doc Float Json) : Type 0 where
    pub live : c.aborted ≡ false
    pub settled : c.working ≡ c.committed
    pub faultless : c.faults ≡ []

  execute-faults :
      (stmt : Database Doc Float Json → Option (Database Doc Float Json)) (c : Conn Doc Float Json)
      → c.faults ≡ []
      → (execute stmt c).1.faults ≡ []
  unfolding execute settle
  execute-faults stmt c h = ground arith

  finish-faults : (b : Bool) (c : Conn Doc Float Json) → c.faults ≡ [] → (finish b c).1.faults ≡ []
  unfolding finish commit
  finish-faults b c h = ground arith

  then_execute-faults :
      (stmt : Database Doc Float Json → Option (Database Doc Float Json)) (b : Bool)
      (c : Conn Doc Float Json)
      → c.faults ≡ []
      → (then_execute stmt b c).1.faults ≡ []
  unfolding then_execute
  then_execute-faults stmt false c h = h
  then_execute-faults stmt true c h = execute-faults stmt c h

  pub write_enrichment-faults :
      (r : EnrichmentResult Doc Float Json) (c : Conn Doc Float Json)
      → c.faults ≡ []
      → (write_enrichment r c).1.faults ≡ []
  unfolding write_enrichment
  write_enrichment-faults r c h =
      finish-faults _ _
        (then_execute-faults (upsert_embedding r) _ _ (execute-faults (update_session r) c h))

  -- Marking a session as failed changes its row and leaves the connection clean.
  pub mark_failed-IsClean :
      (id message : String) (c : Conn Doc Float Json)
      → c.aborted ≡ false
      → c.faults ≡ []
      → IsClean (mark_failed id message c).1
        × ((mark_failed id message c).1.committed.sessions
            ≡ update_rows (set_failed (failure_summary message)) id c.working.sessions)
  unfolding mark_failed finish execute settle commit
  mark_failed-IsClean id message c live faultless =
      rw (live, faultless) (record { live = refl; settled = refl; faultless = refl }, refl)

  pub fetch_pending-IsClean :
      (batch_size : ℕ) (req : Bool) (c : Conn Doc Float Json)
      → IsClean c
      → ((fetch_pending batch_size req c).0
          ≡ some (select_pending batch_size req c.committed.sessions))
        × IsClean (fetch_pending batch_size req c).1
        × ((fetch_pending batch_size req c).1.committed ≡ c.committed)
  unfolding fetch_pending execute settle rollback
  fetch_pending-IsClean batch_size req c clean =
      rw (clean.live, clean.faultless, clean.settled)
        (refl, record { live = refl; settled = refl; faultless = refl }, refl)

module _ {Doc Float Json : Type 0} (r : EnrichmentResult Doc Float Json) where
  has_session-update_rows :
      (id key : String) (rows : List (SessionRow Doc Float Json))
      → has_session id (update_rows (set_intelligence r) key rows) ≡ has_session id rows
  unfolding has_session update_rows
  has_session-update_rows id key [] = refl
  has_session-update_rows id key (row ∷ rows) = ground (arith, has_session-update_rows id key rows)

  -- On a clean connection, to a server that fails nothing, the write of a result whose session is in
  -- the table does not raise: both tables are committed with the result.
  pub write_enrichment-IsClean :
      (c : Conn Doc Float Json)
      → IsClean c
      → has_session r.session_id c.committed.sessions ≡ true
      → ((write_enrichment r c).0 ≡ true)
        × ((write_enrichment r c).1.committed ≡ enriched r c.committed)
        × IsClean (write_enrichment r c).1
  unfolding write_enrichment execute settle then_execute finish update_session upsert_embedding
      commit
  write_enrichment-IsClean c clean known =
      let here = has_session-update_rows r.session_id r.session_id c.committed.sessions ∙ known in
      rw (clean.live, clean.faultless, clean.settled, here)
        (refl, refl, record { live = refl; settled = refl; faultless = refl })
