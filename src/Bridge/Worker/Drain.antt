-- ===== src/Bridge/Worker/Drain.antt =====
-- bridge/worker.py: `run(once=True)` ends with no session pending, where the server fails nothing.
use mathlib.Core.List.{Memᴰ}
use mirage_core.Shared.{
  ℕ, zero, suc, ◌≤◌, ◌<◌, ◌≡◌, refl, sym, ap, ◌∙◌, inl, inr, String, Bool, true, false, some, List,
  [], ◌∷◌, ◌==◌, string_eq, if◌then◌else◌, arith, Bool-cases, All, All-mem, All-of_mem, subst,
}
use mirage_core.Bridge.Db.{
  SessionRow, Database, EnrichmentResult, Conn, rollback, update_rows, set_intelligence, set_failed,
  failure_summary, write_enrichment, fetch_pending, select_pending, is_pending,
}
use mirage_core.Bridge.Db.Atomic.{Written, write_enrichment-Written}
use mirage_core.Bridge.Db.Faultless.{
  IsClean, write_enrichment-faults, mark_failed-IsClean, fetch_pending-IsClean,
}
use mirage_core.Bridge.Db.Pending.{
  Classifies, pending_count, pending_count-update_rows-le, pending_count-update_rows-lt,
  select_pending-mem, select_pending-nil,
}
use mirage_core.Bridge.Worker.{
  Outcome, ok, err, Run, on_error, process_outcome, process_one, process_batch, next_pass, run_once,
}

module _ {Doc Float Json : Type 0} (req : Bool) where
  -- How many sessions of the committed table are pending.
  abbrev pub waiting : Conn Doc Float Json → ℕ
  waiting c = pending_count req c.committed.sessions

  -- A run ended by itself, with a clean connection and no session pending.
  pub data IsDrained : Run (Conn Doc Float Json) → Type 0 where
    is_drained :
        (c : Conn Doc Float Json) (n : ℕ) → IsClean c → waiting c ≡ 0 → IsDrained (Run.drained c n)

module _ {Doc Float Json : Type 0} (enrich : Doc → Outcome (EnrichmentResult Doc Float Json))
    (db_error : String) where
  -- The result of a row's document names that row.
  abbrev pub Owned : SessionRow Doc Float Json → Type 0
  Owned row =
      (r : EnrichmentResult Doc Float Json)
      → enrich row.session_document ≡ ok r
      → r.session_id ≡ row.session_id

  set_intelligence-Classifies :
      (r : EnrichmentResult Doc Float Json)
      → Classifies {Doc = Doc} {Float = Float} {Json = Json} (set_intelligence r)
  set_intelligence-Classifies r = record {
    filled = λ _. refl;
    same_id = λ _. refl;
    same_document = λ _. refl;
  }

  set_failed-Classifies :
      (summary : String) → Classifies {Doc = Doc} {Float = Float} {Json = Json} (set_failed summary)
  set_failed-Classifies summary = record {
    filled = λ _. refl;
    same_id = λ _. refl;
    same_document = λ _. refl;
  }

  -- What the body of the loop leaves: a clean connection, with the one row classified.
  record Classified (id : String) (c c' : Conn Doc Float Json) : Type 0 where
    clean : IsClean c'
    change : SessionRow Doc Float Json → SessionRow Doc Float Json
    classifies : Classifies change
    changed : c'.committed.sessions ≡ update_rows change id c.committed.sessions

  on_error-Classified :
      (id message : String) (c before : Conn Doc Float Json)
      → c.faults ≡ []
      → c.committed ≡ before.committed
      → Classified id before (on_error enrich db_error id message c).1
  unfolding on_error rollback
  on_error-Classified id message c before faultless same =
      let marked = mark_failed-IsClean id message (rollback c) refl faultless in
      record {
        clean = marked.0;
        change = set_failed (failure_summary message);
        classifies = set_failed-Classifies (failure_summary message);
        changed =
            marked.1
            ∙ ap
                (λ (db : Database Doc Float Json).
                  update_rows (set_failed (failure_summary message)) id db.sessions)
                same;
      }

  Written-Classified :
      (id : String) (r : EnrichmentResult Doc Float Json) (c : Conn Doc Float Json)
      → IsClean c
      → r.session_id ≡ id
      → (p : Bool × Conn Doc Float Json) → Written r c p
      → p.1.faults ≡ []
      → Classified id c (if p.0 then (1, p.1) else on_error enrich db_error id db_error p.1).1
  Written-Classified id r c clean same (false, c') w faultless =
      on_error-Classified id db_error c' c faultless w
  Written-Classified id r c clean same (true, c') w faultless = record {
    clean = record { live = w.1; settled = w.2 ∙ sym w.3; faultless = faultless };
    change = set_intelligence r;
    classifies = set_intelligence-Classifies r;
    changed =
        ap (λ (db : Database Doc Float Json). db.sessions) w.3
        ∙ ap (λ (key : String). update_rows (set_intelligence r) key c.working.sessions) same
        ∙ ap (λ (db : Database Doc Float Json). update_rows (set_intelligence r) id db.sessions)
            clean.settled;
  }

  outcome-Classified :
      (row : SessionRow Doc Float Json) (c : Conn Doc Float Json)
      → IsClean c
      → Owned row
      → (o : Outcome (EnrichmentResult Doc Float Json)) → enrich row.session_document ≡ o
      → Classified row.session_id c (process_outcome enrich db_error row.session_id o c).1
  unfolding process_outcome
  outcome-Classified row c clean owned (ok r) e =
      Written-Classified row.session_id r c clean (owned r e) (write_enrichment r c)
        (write_enrichment-Written r c) (write_enrichment-faults r c clean.faultless)
  outcome-Classified row c clean owned (err message) e =
      on_error-Classified row.session_id message c c clean.faultless refl

  process_one-Classified :
      (row : SessionRow Doc Float Json) (c : Conn Doc Float Json)
      → IsClean c
      → Owned row
      → Classified row.session_id c (process_one enrich db_error row c).1
  unfolding process_one
  process_one-Classified row c clean owned =
      outcome-Classified row c clean owned (enrich row.session_document) refl

  module _ (req : Bool) where
    -- What a batch may rely on and leaves behind.
    pub record IsReady (c : Conn Doc Float Json) : Type 0 where
      pub clean : IsClean c
      pub owned : All Owned c.committed.sessions

    update_rows-Owned :
        (f : SessionRow Doc Float Json → SessionRow Doc Float Json)
        → Classifies f
        → (id : String) (rows : List (SessionRow Doc Float Json)) → All Owned rows
        → All Owned (update_rows f id rows)
    unfolding update_rows
    update_rows-Owned f fills id [] owned = owned
    update_rows-Owned f fills id (row ∷ rows) (o, os) = elim (Bool-cases (row.session_id == id)) [
      | inl e ↦ rw e (
        (λ r h. o r (ap enrich (sym (fills.same_document row)) ∙ h) ∙ sym (fills.same_id row)),
        update_rows-Owned f fills id rows os,
      )
      | inr e ↦ rw e (o, update_rows-Owned f fills id rows os)
    ]

    process_one-IsReady :
        (row : SessionRow Doc Float Json) (c : Conn Doc Float Json)
        → IsReady c
        → Owned row
        → IsReady (process_one enrich db_error row c).1
          × (waiting req (process_one enrich db_error row c).1 ≤ waiting req c)
          × (Memᴰ row c.committed.sessions
              → is_pending req row ≡ true
              → waiting req (process_one enrich db_error row c).1 < waiting req c)
    unfolding process_one
    process_one-IsReady row c ready o =
        let after = process_one-Classified row c ready.clean o in
        rw after.changed (
          record {
            clean = after.clean;
            owned = rw after.changed (
                update_rows-Owned after.change after.classifies row.session_id c.committed.sessions
                  ready.owned);
          },
          pending_count-update_rows-le req after.change after.classifies row.session_id
              c.committed.sessions,
          λ m p.
              pending_count-update_rows-lt req after.change after.classifies row.session_id m refl
                p,
        )

    process_batch-IsReady :
        (batch : List (SessionRow Doc Float Json)) (c : Conn Doc Float Json)
        → IsReady c
        → All Owned batch
        → IsReady (process_batch enrich db_error batch c).1
          × (waiting req (process_batch enrich db_error batch c).1 ≤ waiting req c)
    unfolding process_batch
    process_batch-IsReady [] c ready os = (ready, omega arith)
    process_batch-IsReady (row ∷ batch) c ready os =
        let step = process_one-IsReady row c ready os.0 in
        let rest = process_batch-IsReady batch (process_one enrich db_error row c).1 step.0 os.1 in
        (rest.0, omega (arith, step.1, rest.1))

    module _ (batch_size : ℕ) (pos : 0 < batch_size) where
      next_pass-IsDrained :
          (again : ℕ → Conn Doc Float Json → Run (Conn Doc Float Json)) (total : ℕ)
          (c : Conn Doc Float Json)
          → IsReady c
          → ((t : ℕ) (c' : Conn Doc Float Json)
              → IsReady c'
              → waiting req c' < waiting req c
              → IsDrained req (again t c'))
          → (batch : List (SessionRow Doc Float Json))
          → batch ≡ select_pending batch_size req c.committed.sessions
          → IsDrained req (next_pass enrich db_error batch_size req again total (some batch) c)
      unfolding next_pass process_batch
      next_pass-IsDrained again total c ready continue [] e =
          is_drained c total ready.clean (select_pending-nil req batch_size _ pos (sym e))
      next_pass-IsDrained again total c ready continue (row ∷ batch) e =
          let mem = λ (x : SessionRow Doc Float Json) (m : Memᴰ x (row ∷ batch)).
            select_pending-mem req batch_size c.committed.sessions (subst (Memᴰ x) e m) in
          let first = mem row (Memᴰ.head refl) in
          let step = process_one-IsReady row c ready (All-mem Owned ready.owned first.0) in
          let rest =
            process_batch-IsReady batch (process_one enrich db_error row c).1 step.0
              (All-of_mem Owned batch (λ x m. All-mem Owned ready.owned (mem x (Memᴰ.tail m)).0)) in
          continue _ _ rest.0 (omega (arith, step.2 first.0 first.1, rest.1))

      -- Where the connection is clean and the server fails nothing, every result names the row of its
      -- document, and the batch size is not 0, `run(once=True)` ends by itself with no session
      -- pending, within one pass more than there are pending sessions.
      pub run_once-IsDrained :
          (fuel total : ℕ) (c : Conn Doc Float Json)
          → IsReady c
          → waiting req c < fuel
          → IsDrained req (run_once enrich db_error batch_size req fuel total c)
      unfolding run_once
      run_once-IsDrained zero total c ready enough = ground arith
      run_once-IsDrained (suc fuel) total c ready enough =
          let fetched = fetch_pending-IsClean batch_size req c ready.clean in
          let c' = (fetch_pending batch_size req c).1 in
          rw fetched.0 (
            next_pass-IsDrained (run_once enrich db_error batch_size req fuel) total c'
              (record {
                clean = fetched.1;
                owned =
                    subst (λ (db : Database Doc Float Json). All Owned db.sessions) (sym fetched.2)
                      ready.owned;
              })
              (λ t c'' r lt. run_once-IsDrained fuel t c'' r (
                omega (
                  arith,
                  lt,
                  enough,
                  ap (λ (db : Database Doc Float Json). pending_count req db.sessions) fetched.2,
                )))
              (select_pending batch_size req c.committed.sessions)
              (ap (λ (db : Database Doc Float Json). select_pending batch_size req db.sessions)
                (sym fetched.2)))
