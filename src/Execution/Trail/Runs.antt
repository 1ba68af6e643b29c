-- ===== src/Execution/Trail/Runs.antt =====
-- A whole run of `process_signal`.
use mt5_execution_bridge.Prelude.{
  ℕ, suc, ◌+◌, ◌≤◌, String, str_eq, Bool, false, ◌≡◌, refl, Option, none, some, List, inl, inr,
  arith, is_none, Bool-cases,
}
use mt5_execution_bridge.Float.{Float}
use mt5_execution_bridge.Models.{ExecutionStatus}
use mt5_execution_bridge.Storage.{Signal, Database}
use mt5_execution_bridge.Storage.Signals.{get_signal}
use mt5_execution_bridge.Storage.Executions.{NewExecution, has_id, open_row, insert_execution}
use mt5_execution_bridge.Storage.Rows.{
  status_of, HasStatus, HasExecutionStatus, HasSignal, HasExecution, find-append_last,
}
use mt5_execution_bridge.Services.SymbolMapper.{SymbolMapper}
use mt5_execution_bridge.Config.{Settings, live_execution_allowed}
use mt5_execution_bridge.Outside.{Answer, answer, failure, integrity_error, Sdk, Host}
use mt5_execution_bridge.Exec.{
  catch_return, Event, Bridge, Outcome, ok, returned, raised, answered, pure, or_raise, continue,
  ask, utc_now, transaction, ◌>>=◌,
}
use mt5_execution_bridge.Execution.Common.{Attempt}
use mt5_execution_bridge.Execution.Pipeline.{
  execution_fields, begin_attempt, run_checks, process_steps, process_signal,
}
use mt5_execution_bridge.Execution.Quiet.{IsKept, Watch, IsFinal, taken, ids}
use mt5_execution_bridge.Execution.Quiet.Checks.{
  Quiet-admit, Quiet-map_symbol, Quiet-identify_account, Quiet-read_market, Quiet-check_risk,
}
use mt5_execution_bridge.Execution.Trail.{IsVetted, Trail, Ended, Traces, Traces-bind}
use mt5_execution_bridge.Execution.Trail.Orders.{Quiet-size_order}
use mt5_execution_bridge.Execution.Trail.Sending.{Traces-order}

status_of-signals :
    {F : Type 0} (i : String) (db db' : Database F)
    → db.signals ≡ db'.signals
    → status_of i db ≡ status_of i db'
unfolding get_signal
status_of-signals i db db' e = rw e refl

-- The run with the first row of `executions` in place.
abbrev pub job_of : {F T : Type 0} → Settings F → Signal F → Bridge F T → Attempt F
job_of settings row s = record {
  settings = settings;
  row = row;
  execution_id = suc s.db.executions_seq;
}

abbrev pub watch_of :
    {F T : Type 0}
    → (String → String)
    → (String → Bool)
    → Settings F
    → Signal F
    → Bridge F T
    → Watch F
watch_of hash mark settings row s = record {
  hash = hash;
  job = job_of settings row s;
  mark = mark;
  floor = taken mark s.db;
  known = ids s.db;
  statuses = λ i. status_of i s.db;
}

module _ {F : Type 0} (settings : Settings F) (row : Signal F) where
  -- What holds after the first row of `executions` was inserted, `db` being the database before.
  abbrev pub Begun : {T : Type 0} → Bridge F T → Outcome (Attempt F) × Bridge F T → Type 0
  Begun s (ok job, s') =
      (job ≡ job_of settings row s)
      × HasSignal row.signal_id s'.db
      × HasExecution (suc s.db.executions_seq) s'.db
      × (s'.journal ≡ s.journal)
      × (s'.db.signals ≡ s.db.signals)
  Begun s (returned st, s') = ⊥
  Begun s (raised e, s') = (s'.journal ≡ s.journal) × (s'.db ≡ s.db)

pub Begun-IsKept :
    {F T : Type 0} (hash : String → String) (mark : String → Bool) (settings : Settings F)
    (row : Signal F) (s : Bridge F T) (job : Attempt F) (s' : Bridge F T)
    → Begun settings row s (ok job, s')
    → IsKept (watch_of hash mark settings row s) s'.db
Begun-IsKept hash mark settings row s job s' (_, signal, execution, _, rows) = record {
  signal = signal;
  execution = execution;
  taken_le = rw rows (omega arith);
  same_ids = rw rows refl;
  same_status = λ i. status_of-signals i s'.db s.db rows;
}

module _ {F : Type 0} (e : NewExecution F) (db : Database F) where
  abbrev Inserted : Option ℕ × Database F → Type 0
  Inserted (none, db') = db' ≡ db
  Inserted (some n, db') =
      (n ≡ suc db.executions_seq)
      × HasSignal e.signal_id db'
      × HasExecution (suc db.executions_seq) db'
      × (db'.signals ≡ db.signals)

  insert_execution-Inserted : Inserted (insert_execution e db)
  unfolding insert_execution get_signal
  insert_execution-Inserted = elim (Bool-cases (is_none (get_signal e.signal_id db))) [
    | inl missing ↦ rw missing refl
    | inr found ↦ rw found (
      omega arith,
      found,
      find-append_last (has_id (suc db.executions_seq)) db.executions
          (open_row (db.executions_seq + 1) e) (ground arith),
      refl,
    )
  ]

module _ {F T : Type 0} ⦃host : Host T⦄ where
  pub begin_attempt-Begun :
      (settings : Settings F) (row : Signal F) (s : Bridge F T)
      → Begun settings row s (begin_attempt settings row s)
  unfolding begin_attempt transaction utc_now ask or_raise pure ◌>>=◌
  begin_attempt-Begun settings row s = started (host.utc_now s.outside)
    where
      started :
          (r : Answer ℕ × T)
          → Begun settings row s (
              continue
                (answered r.0)
                (λ t. transaction (λ _. insert_execution (execution_fields settings row t)) >>= λ o.
                  or_raise integrity_error o >>= λ n.
                  pure (record { settings = settings; row = row; execution_id = n }))
                (record s { outside = r.1 }))
      started (answer t, u) =
          ground (arith, insert_execution-Inserted (execution_fields settings row t) s.db)
      started (failure x, u) = (refl, refl)

module _ {F T : Type 0} ⦃float : Float F⦄ ⦃sdk : Sdk F T⦄ ⦃host : Host T⦄ (w : Watch F) where
  Traces-run_checks :
      (mapper : SymbolMapper)
      → w.hash ≡ host.sha256_hex
      → Traces {T = T} w
          (IsVetted mapper host.sha256_hex w.job.settings w.job.row)
          (run_checks mapper w.job)
  unfolding run_checks
  Traces-run_checks mapper hash = Traces-bind Quiet-admit λ _ enabled.
      Traces-bind (Quiet-map_symbol mapper) λ symbol mapped.
        Traces-bind Quiet-identify_account λ account _.
          Traces-bind (Quiet-read_market symbol) λ market _.
            Traces-bind (Quiet-check_risk account market) λ _ risk.
              Traces-bind (Quiet-size_order symbol account market) λ volume _.
                Traces-order w _ symbol market volume hash λ r built. record {
                  mapped = rw built.named mapped;
                  comment = rw (built.comment, hash);
                  magic = built.magic;
                  side = built.side;
                  stop_loss = built.stop_loss;
                  take_profit = built.take_profit;
                  enabled = enabled;
                  stop_checked = rw (built.stop_loss, built.priced) risk.0.0;
                  risk_checked = risk.1;
                }

-- The run of `process_signal` on the row `row`, from the state `s`.
module _ {F : Type 0} ⦃float : Float F⦄ (hash : String → String) (settings : Settings F)
    (mapper : SymbolMapper) (row : Signal F) where
  abbrev pub IsTraced : List (Event F) → List (Event F) → Type 0
  IsTraced = Trail (IsVetted mapper hash settings row) (live_execution_allowed settings)

  -- What holds when it is over.
  abbrev pub Finished :
      {T : Type 0} → (String → Bool) → Bridge F T → Outcome ExecutionStatus × Bridge F T → Type 0
  Finished mark s (ok st, s') =
      HasStatus row.signal_id st s'.db
      × HasExecutionStatus (suc s.db.executions_seq) st s'.db
      × IsFinal st
      × IsTraced s.journal s'.journal
      × (taken mark s.db ≤ taken mark s'.db)
      × (ids s'.db ≡ ids s.db)
      × ((i : String) → str_eq row.signal_id i ≡ false → status_of i s'.db ≡ status_of i s.db)
  Finished mark s (returned st, s') = ⊥
  Finished mark s (raised e, s') =
      IsTraced s.journal s'.journal
      × (taken mark s.db ≤ taken mark s'.db)
      × (ids s'.db ≡ ids s.db)
      × ((i : String) → status_of i s'.db ≡ status_of i s.db)

module _ {F T : Type 0} ⦃float : Float F⦄ ⦃sdk : Sdk F T⦄ ⦃host : Host T⦄ where
  pub process_signal-Finished :
      (mark : String → Bool) (settings : Settings F) (mapper : SymbolMapper) (row : Signal F)
      (s : Bridge F T)
      → Finished host.sha256_hex settings mapper row mark s (process_signal settings mapper row s)
  unfolding process_signal process_steps ◌>>=◌
  process_signal-Finished mark settings mapper row s =
      begun (begin_attempt settings row s) (begin_attempt-Begun settings row s)
    where
      watch : Watch F
      watch = watch_of host.sha256_hex mark settings row s

      ended :
          (r : Outcome ExecutionStatus × Bridge F T)
          → Ended watch (IsVetted mapper host.sha256_hex settings row) s.journal r
          → Finished host.sha256_hex settings mapper row mark s (catch_return r.0, r.1)
      ended (ok st, s') h = absurd h
      ended (returned st, s') (f, trail) =
          (f.settled, f.filed, f.final, trail, f.taken_le, f.same_ids, f.others)
      ended (raised x, s') (k, trail) = (trail, k.taken_le, k.same_ids, k.same_status)

      begun :
          (r : Outcome (Attempt F) × Bridge F T)
          → Begun settings row s r
          → Finished host.sha256_hex settings mapper row mark s
              (let (o, s') = continue r.0 (run_checks mapper) r.1 in (catch_return o, s'))
      begun (ok job, s') b = rw b.0 (
          ended _ (
            rw (← b.3) (
              (Traces-run_checks watch mapper refl).at s'
                (Begun-IsKept host.sha256_hex mark settings row s job s' b))))
      begun (returned st, s') h = absurd h
      begun (raised x, s') (same, e) = (inl same, rw e (omega arith), rw e refl, λ i. rw e refl)
