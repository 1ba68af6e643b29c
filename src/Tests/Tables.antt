-- ===== src/Tests/Tables.antt =====
-- The theorems about the database, the risk checks and the reconciliation at concrete inputs.
use mathlib.Core.Option
use mt5_execution_bridge.Prelude.{
  Bool, ◌&&◌, str_eq, [], ◌∷◌, ◌+◌, ◌*◌, ◌≤◌, ◌<◌, ◌≡◌, ◌↔◌, refl, false, some, get_or, count_if,
}
use mt5_execution_bridge.Models.{sell}
use mt5_execution_bridge.Storage.{Execution, Database, aware, empty_database}
use mt5_execution_bridge.Storage.Signals.{
  NewSignal, get_signal, insert_or_ignore, insert_signal_if_new,
}
use mt5_execution_bridge.Storage.Executions.{open_row, get_executions_for_signal}
use mt5_execution_bridge.Storage.Attempts.{IsSorted, get_executions_for_signal-IsSorted}
use mt5_execution_bridge.Execution.Pipeline.{execution_fields}
use mt5_execution_bridge.Storage.Baselines.{get_daily_loss_baseline, set_daily_loss_baseline}
use mt5_execution_bridge.Storage.Opening.{
  DatabaseFile, Table, signals_columns, executions_columns, create_signals, create_executions,
  new_file, empty_table, execute, execute_all, init_schema, tables_of,
}
use mt5_execution_bridge.Storage.Opening.Resuming.{kept, init_schema-resumes}
use mt5_execution_bridge.Storage.Rows.{HasSignal}
use mt5_execution_bridge.Storage.Queue.{insert_signal_if_new-again}
use mt5_execution_bridge.Storage.Days.{set_daily_loss_baseline-first}
use mt5_execution_bridge.Services.Calendar.{
  is_leap, days_in_month, days_in_year, walk_years, walk_months, date_of, digits,
}
use mt5_execution_bridge.Services.Risk.{
  passed, second, instant, check_freshness, start_of_trading_day, trading_day_key,
}
use mt5_execution_bridge.Services.Limits.{check_freshness-passed, start_of_trading_day-first}
use mt5_execution_bridge.Execution.Recovery.{reconcile_stuck_signal}
use mt5_execution_bridge.Execution.Reconciled.{Reconciled, reconcile_stuck_signal-Reconciled}
use mt5_execution_bridge.Tests.Fixed.{Fixed, fixed_float}
use mt5_execution_bridge.Tests.Fake.{fake_sdk, fake_host, arrival, live, signal, start}
use mt5_execution_bridge.Tests.Runs.{submitted, row}

-- Another signal with the same id.
abbrev repeated : NewSignal Fixed
repeated = record signal { action = sell; symbol = "GBPUSD" }

insert_signal_if_new-again_example :
    HasSignal "s1" (insert_signal_if_new signal arrival start.db).1
    × (insert_signal_if_new repeated (arrival + 1) (insert_signal_if_new signal arrival start.db).1
        ≡ (
          (get_signal "s1" (insert_signal_if_new signal arrival start.db).1, false),
          (insert_signal_if_new signal arrival start.db).1,
        ))
insert_signal_if_new-again_example =
    insert_signal_if_new-again signal repeated arrival (arrival + 1) start.db refl

set_daily_loss_baseline-first_example :
    (get_daily_loss_baseline "demo|1" 7
        (set_daily_loss_baseline "demo|1" 7 (fixed_float.decimal 100 0) arrival start.db).1
      ≡ some (get_or (get_daily_loss_baseline "demo|1" 7 start.db) (fixed_float.decimal 100 0)))
    × (get_daily_loss_baseline "demo|1" 8
          (set_daily_loss_baseline "demo|1" 7 (fixed_float.decimal 100 0) arrival start.db).1
        ≡ get_daily_loss_baseline "demo|1" 8 start.db)
set_daily_loss_baseline-first_example =
    set_daily_loss_baseline-first "demo|1" 7 (fixed_float.decimal 100 0) arrival start.db "demo|1" 8
      refl

check_freshness-passed_example :
    (check_freshness {F = Fixed} (aware arrival) 60 (arrival + 60 * second) ≡ passed) ↔ (
      (arrival + 60 * second ≤ instant (aware arrival) + 60 * second)
      × (instant (aware arrival) ≤ (arrival + 60 * second) + 5 * second))
check_freshness-passed_example = check_freshness-passed (aware arrival) 60 (arrival + 60 * second)

start_of_trading_day-first_example : (trading_day_key (arrival + 1) ≡ trading_day_key arrival) ↔ (
    (start_of_trading_day arrival ≤ arrival + 1)
    × (arrival + 1 < start_of_trading_day arrival + 86_400_000_000))
start_of_trading_day-first_example = start_of_trading_day-first arrival (arrival + 1)

trading_day_key-arrival : trading_day_key arrival ≡ 20_260_906
unfolding trading_day_key date_of walk_years walk_months days_in_year days_in_month is_leap digits
trading_day_key-arrival = refl

-- The second attempt stands before the first.
abbrev twice : Database Fixed
twice = record submitted.db {
  executions =
      open_row 1 (execution_fields live (record row { attempt_count = 2 }) arrival)
      ∷ open_row 2 (execution_fields live row arrival)
      ∷ [];
}

get_executions_for_signal-IsSorted_example :
    IsSorted (get_executions_for_signal "s1" twice)
    × ((p : Execution Fixed → Bool)
        → count_if p (get_executions_for_signal "s1" twice)
          ≡ count_if (λ e. p e && str_eq e.signal_id "s1") twice.executions)
get_executions_for_signal-IsSorted_example = get_executions_for_signal-IsSorted "s1" twice

submitted-HasSignal : HasSignal "s1" submitted.db
unfolding insert_signal_if_new insert_or_ignore get_signal
submitted-HasSignal = refl

reconcile_stuck_signal-Reconciled_example :
    Reconciled row submitted (reconcile_stuck_signal live row submitted)
reconcile_stuck_signal-Reconciled_example =
    reconcile_stuck_signal-Reconciled live row submitted submitted-HasSignal

-- A process died while it opened a new file.
abbrev interrupted : DatabaseFile Fixed
interrupted = record (new_file Fixed) {
  signals = some (empty_table signals_columns);
  executions = some (empty_table executions_columns);
}

interrupted-executed :
    execute_all (create_signals ∷ create_executions ∷ []) (new_file Fixed) ≡ some interrupted
unfolding execute_all execute
interrupted-executed = refl

init_schema-resumes_example :
    (init_schema interrupted ≡ init_schema (new_file Fixed))
    × (Option.map tables_of (init_schema (new_file Fixed)) ≡ some (some (kept (new_file Fixed))))
    × (kept (new_file Fixed) ≡ empty_database Fixed)
init_schema-resumes_example =
    init_schema-resumes (create_signals ∷ create_executions ∷ []) (new_file Fixed) interrupted refl
      interrupted-executed

-- The executions as an older schema made them, without `account_key`.
abbrev older_executions : Table (Execution Fixed)
older_executions = empty_table ("id" ∷ "signal_id" ∷ "started_at" ∷ "status" ∷ [])
