-- ===== src/Tests/Sent.antt =====
-- A run of `process_signal` that sends its order, and the theorem about the steps behind it.
use mt5_execution_bridge.Prelude.{[], ◌∷◌, ◌≡◌, refl, ap, length, arith}
use mt5_execution_bridge.Storage.Signals.{
  insert_signal_if_new, get_signal, update_signal_status, set_symbol_normalized,
}
use mt5_execution_bridge.Storage.Executions.{
  insert_execution, update_execution, assign, count_executed_trades_since,
}
use mt5_execution_bridge.Storage.Baselines.{get_daily_loss_baseline, set_daily_loss_baseline}
use mt5_execution_bridge.Services.SymbolMapper.{resolve}
use mt5_execution_bridge.Services.Text.{
  int, strip, lstrip, is_space, read_int, read_digits, decimal, decimal_from,
}
use mt5_execution_bridge.Services.Risk.{
  check_freshness, check_stop_loss, check_spread, check_daily_trade_limit, check_position_limit,
  check_daily_loss, check_risk_percent,
}
use mt5_execution_bridge.Services.Volume.{
  bound_volume, size_by_risk, size_with_stop, calculate_risk_based_volume,
}
use mt5_execution_bridge.Config.{live_execution_allowed}
use mt5_execution_bridge.Execution.Orders.{
  size_order, sized_or_reject, check_order, resolve_filling_mode, build_order_request,
  conclude_check, filing, file_result, conclude_send, send_order, place_order,
}
use mt5_execution_bridge.Models.{is_rejection, value}
use mt5_execution_bridge.Exec.{
  note, Bridge, ok, utc_now, transaction, query, ask, or_raise, pure, gets, modify_gateway,
  return_early, ◌>>=◌,
}
use mt5_execution_bridge.Gateway.{
  connected, initialize, call_sdk, last_error, account_info, ensure_symbol, symbol_info_tick,
  server_time, symbol_info, order_calc_profit, order_check, order_send, positions_get,
}
use mt5_execution_bridge.Execution.Common.{
  meb_comment, account_key_for, ensure_connected, connect_attempts, connect, record_fields, finish,
}
use mt5_execution_bridge.Execution.Checks.{
  admit, map_symbol, identify_account, read_market, known_positions, check_positions, check_quote,
  check_daily_trades, baseline_or_set, baseline_equity, check_loss, check_risk,
}
use mt5_execution_bridge.Execution.Pipeline.{
  begin_attempt, run_checks, process_steps, process_signal,
}
use mt5_execution_bridge.Execution.Trail.Runs.{job_of}
use mt5_execution_bridge.Execution.Interleaved.{Plan}
use mt5_execution_bridge.Execution.Interleaved.Weaving.{Linear}
use mt5_execution_bridge.Execution.Interleaved.Runs.{process_signal_amid, process_signal-Linear}
use mt5_execution_bridge.Storage.Rows.{HasSignal}
use mt5_execution_bridge.Storage.Signals.{NewSignal}
use mt5_execution_bridge.Execution.Passing.{Passed, process_signal-Passed}
use mt5_execution_bridge.Tests.Fixed.{Fixed, fixed_float}
use mt5_execution_bridge.Tests.Fake.{Fake, fake_sdk, fake_host, arrival, live, symbols, signal}
use mt5_execution_bridge.Tests.Runs.{submitted, row, taken_up}

abbrev job_end : Bridge Fixed Fake
job_end = (process_signal live symbols row submitted).1

hands_over : length job_end.journal ≡ 2
unfolding insert_signal_if_new process_signal process_steps begin_attempt utc_now transaction ask
    query insert_execution get_signal or_raise pure ◌>>=◌ run_checks admit check_freshness
    record_fields update_execution assign map_symbol resolve set_symbol_normalized identify_account
    ensure_connected connected gets modify_gateway connect_attempts connect int strip lstrip
    is_space read_int read_digits initialize call_sdk last_error account_info account_key_for
    decimal decimal_from read_market ensure_symbol symbol_info_tick server_time check_risk
    check_quote check_stop_loss check_spread check_daily_trades count_executed_trades_since
    check_daily_trade_limit check_positions positions_get known_positions check_position_limit
    check_loss baseline_equity get_daily_loss_baseline baseline_or_set set_daily_loss_baseline
    check_daily_loss check_risk_percent size_order calculate_risk_based_volume size_with_stop
    size_by_risk bound_volume sized_or_reject check_order resolve_filling_mode build_order_request
    conclude_check symbol_info order_calc_profit order_check order_send filing file_result
    conclude_send send_order place_order live_execution_allowed meb_comment update_signal_status
    finish return_early is_rejection value note
hands_over = refl

none_before : length submitted.journal ≡ 0
unfolding insert_signal_if_new
none_before = refl

has_handed : ¬ (job_end.journal ≡ submitted.journal)
has_handed same = omega (arith, hands_over, none_before, ap length same)

process_signal-Passed_example :
    (begun : Bridge Fixed Fake) × (begin_attempt live row submitted
      ≡ (ok (job_of live row submitted), begun))
    × Passed symbols (job_of live row submitted) begun
process_signal-Passed_example = process_signal-Passed live symbols row submitted has_handed

-- Another signal, which arrives between the transactions of the run.
abbrev other : NewSignal Fixed
other = record signal { signal_id = "s2" }

abbrev plan : Plan Fixed
plan = [] ∷ ((other, arrival) ∷ []) ∷ []

taken_up-HasSignal : HasSignal row.signal_id taken_up.db
unfolding get_signal insert_signal_if_new
taken_up-HasSignal = refl

process_signal-Linear_example :
    Linear
      (process_signal live symbols row taken_up)
      plan
      (process_signal_amid live symbols row plan taken_up)
process_signal-Linear_example =
    process_signal-Linear live symbols row plan taken_up taken_up-HasSignal
