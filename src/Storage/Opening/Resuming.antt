-- ===== src/Storage/Opening/Resuming.antt =====
-- Opening a database again, also where an earlier process died while it opened it.
use mathlib.Core.Option
use mathlib.Core.Path.{subst}
use mt5_execution_bridge.Prelude.{
  Bool, String, if◌then◌else◌, true, false, arith, ◌≡◌, refl, sym, ap, get_or, ◌∙◌, Option, none,
  some, List, [], ◌∷◌,
}
use mt5_execution_bridge.Storage.Tables.{Database, empty_database}
use mt5_execution_bridge.Storage.Opening.{
  DatabaseFile, SchemaStatement, create_signals, create_executions, create_daily_loss_baseline,
  create_idx_signals_status, create_idx_executions_signal_id, create_idx_executions_account_started,
  new_file, Table, signals_columns, executions_columns, baseline_columns, has_columns, has_all,
  create_index, empty_table, execute, and_then, execute_all, init_schema, tables_of, completed,
}

-- What holds with and without the index holds after its creation.
create_index-keeps :
    {A B : Type 0} (P : B → Type 0) (made : Bool) (columns : List String) (o : Option (Table A))
    (f with_index f' : B)
    → P f
    → P with_index
    → create_index made columns o f with_index ≡ some f'
    → P f'
create_index-keeps P made columns none f g f' pf pg e = cc
create_index-keeps P true columns (some t) f g f' pf pg e =
    let same : f ≡ f' = cc in subst P same pf
create_index-keeps P false columns (some t) f g f' pf pg e = go (has_all columns t.columns) e
  where
    go : (b : Bool) → (if b then some g else none) ≡ some f' → P f'
    go true e = let same : g ≡ f' = cc in subst P same pg
    go false e = cc

module _ {F : Type 0} where
  -- A file whose tables have the columns of the schema gets all that the schema names.
  init_schema-completed :
      (f : DatabaseFile F) → has_columns f ≡ true → init_schema f ≡ some (completed f)
  unfolding init_schema execute_all execute
  init_schema-completed f h = ground (arith, h)

  execute-has_columns :
      (st : SchemaStatement) (f f' : DatabaseFile F)
      → execute st f ≡ some f'
      → has_columns f ≡ true
      → has_columns f' ≡ true
  unfolding execute
  execute-has_columns create_signals f f' e h = ground (arith, e, h)
  execute-has_columns create_executions f f' e h = ground (arith, e, h)
  execute-has_columns create_daily_loss_baseline f f' e h = ground (arith, e, h)
  execute-has_columns create_idx_signals_status f f' e h =
      create_index-keeps (λ g. has_columns g ≡ true) f.idx_signals_status ("status" ∷ []) f.signals
        f (record f { idx_signals_status = true }) f' h h e
  execute-has_columns create_idx_executions_signal_id f f' e h =
      create_index-keeps (λ g. has_columns g ≡ true) f.idx_executions_signal_id ("signal_id" ∷ [])
        f.executions f (record f { idx_executions_signal_id = true }) f' h h e
  execute-has_columns create_idx_executions_account_started f f' e h =
      create_index-keeps (λ g. has_columns g ≡ true) f.idx_executions_account_started
        ("account_key" ∷ "started_at" ∷ []) f.executions f
        (record f { idx_executions_account_started = true }) f' h h e

  -- A statement makes nothing that the schema does not make.
  execute-completed :
      (st : SchemaStatement) (f f' : DatabaseFile F)
      → execute st f ≡ some f'
      → completed f' ≡ completed f
  unfolding execute
  execute-completed create_signals f f' e = ground (arith, e)
  execute-completed create_executions f f' e = ground (arith, e)
  execute-completed create_daily_loss_baseline f f' e = ground (arith, e)
  execute-completed create_idx_signals_status f f' e = ground (arith, e)
  execute-completed create_idx_executions_signal_id f f' e = ground (arith, e)
  execute-completed create_idx_executions_account_started f f' e = ground (arith, e)

  execute_all-completed :
      (sts : List SchemaStatement) (f f' : DatabaseFile F)
      → execute_all sts f ≡ some f'
      → has_columns f ≡ true
      → (completed f' ≡ completed f) × (has_columns f' ≡ true)
  unfolding execute_all
  execute_all-completed [] f f' e h = (ground (arith, e), ground (arith, e, h))
  execute_all-completed (st ∷ sts) f f' e h =
      go (execute st f) refl e (λ mid. execute_all-completed sts mid f')
    where
      go :
          (o : Option (DatabaseFile F))
          → execute st f ≡ o
          → and_then o (execute_all sts) ≡ some f'
          → ((mid : DatabaseFile F)
              → execute_all sts mid ≡ some f'
              → has_columns mid ≡ true
              → (completed f' ≡ completed mid) × (has_columns f' ≡ true))
          → (completed f' ≡ completed f) × (has_columns f' ≡ true)
      go none d e rest = cc
      go (some mid) d e rest =
          let (same, columns) = rest mid e (execute-has_columns st f mid d h) in
          (same ∙ execute-completed st f mid d, columns)

  -- What opening a file leaves of its rows: all that its tables have, and nothing where there is no table.
  abbrev pub kept : DatabaseFile F → Database F
  kept f = record {
    signals = (get_or f.signals (empty_table signals_columns)).rows;
    signals_seq = (get_or f.signals (empty_table signals_columns)).last_id;
    executions = (get_or f.executions (empty_table executions_columns)).rows;
    executions_seq = (get_or f.executions (empty_table executions_columns)).last_id;
    daily_loss_baseline = (get_or f.daily_loss_baseline (empty_table baseline_columns)).rows;
  }

  tables_of-completed :
      (f : DatabaseFile F) → has_columns f ≡ true → tables_of (completed f) ≡ some (kept f)
  tables_of-completed f h = ground (arith, h)

  -- Opening a file succeeds where the tables that it has have the columns of the schema. It keeps the
  -- rows and the ids of those tables, and the tables that were missing are empty; a new file thus opens
  -- as the empty database. Where an earlier opening of such a file stopped after any of the statements
  -- of the schema, opening the file again leaves what that opening would have left, had it got to its
  -- end.
  pub init_schema-resumes :
      (done : List SchemaStatement) (f f' : DatabaseFile F)
      → has_columns f ≡ true
      → execute_all done f ≡ some f'
      → (init_schema f' ≡ init_schema f)
        × (Option.map tables_of (init_schema f) ≡ some (some (kept f)))
        × (kept (new_file F) ≡ empty_database F)
  init_schema-resumes done f f' h e =
      let (same, columns) = execute_all-completed done f f' e h in
      (
        init_schema-completed f' columns ∙ ap some same ∙ sym (init_schema-completed f h),
        ap (Option.map tables_of) (init_schema-completed f h) ∙ ap some (tables_of-completed f h),
        refl,
      )
