-- ===== src/Execution/Pipeline.antt =====
-- `process_signal`: the steps in the order of the source.
use mt5_execution_bridge.Prelude.{ℕ}
use mt5_execution_bridge.Float.{Float}
use mt5_execution_bridge.Models.{ExecutionStatus}
use mt5_execution_bridge.Storage.{Signal}
use mt5_execution_bridge.Storage.Executions.{NewExecution, insert_execution}
use mt5_execution_bridge.Services.SymbolMapper.{SymbolMapper}
use mt5_execution_bridge.Config.{Settings}
use mt5_execution_bridge.Outside.{Sdk, Host, integrity_error}
use mt5_execution_bridge.Exec.{
  Exec, pure, or_raise, catch_return, utc_now, transaction, ◌>>=◌, ◌>>◌,
}
use mt5_execution_bridge.Execution.Common.{Attempt}
use mt5_execution_bridge.Execution.Checks.{
  admit, map_symbol, identify_account, read_market, check_risk,
}
use mt5_execution_bridge.Execution.Orders.{size_order, check_order, place_order}

-- `execution_fields`
abbrev pub execution_fields : {F : Type 0} → Settings F → Signal F → ℕ → NewExecution F
execution_fields settings row started_at = record {
  signal_id = row.signal_id;
  attempt = row.attempt_count;
  started_at = started_at;
  dry_run = settings.dry_run;
  requested_action = row.action;
  stop_loss = row.stop_loss;
  take_profit = row.take_profit;
}

module _ {F T : Type 0} ⦃host : Host T⦄ where
  -- The row of `executions` that the run begins with.
  unfoldable pub begin_attempt : Settings F → Signal F → Exec F T (Attempt F)
  begin_attempt settings row = do
    started_at ← utc_now
    inserted ← transaction (λ _. insert_execution (execution_fields settings row started_at))
    execution_id ← or_raise integrity_error inserted
    pure (record { settings = settings; row = row; execution_id = execution_id })

module _ {F T : Type 0} ⦃float : Float F⦄ ⦃sdk : Sdk F T⦄ ⦃host : Host T⦄ where
  unfoldable pub run_checks : SymbolMapper → Attempt F → Exec F T ExecutionStatus
  run_checks mapper job = do
    admit job
    symbol ← map_symbol mapper job
    account ← identify_account job
    market ← read_market job symbol
    check_risk job account market
    volume ← size_order job symbol account market
    request ← check_order job symbol market volume
    place_order job request

  unfoldable pub process_steps : Settings F → SymbolMapper → Signal F → Exec F T ExecutionStatus
  process_steps settings mapper row = do job ← begin_attempt settings row; run_checks mapper job

  unfoldable pub process_signal : Settings F → SymbolMapper → Signal F → Exec F T ExecutionStatus
  process_signal settings mapper row s =
      let (r, s') = process_steps settings mapper row s in (catch_return r, s')
