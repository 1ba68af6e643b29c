-- ===== src/Tests/Runs.antt =====
-- A signal that is submitted and taken from the queue with the scripted terminal.
use mt5_execution_bridge.Prelude.{[], ◌∷◌, ◌≡◌, ◌*◌, ◌+◌, refl}
use mt5_execution_bridge.Models.{rejected_stale, value, is_rejection}
use mt5_execution_bridge.Storage.{Signal}
use mt5_execution_bridge.Storage.Signals.{
  set_symbol_normalized, pending_row, claimed, get_signal, insert_signal_if_new,
  update_signal_status,
}
use mt5_execution_bridge.Storage.Executions.{insert_execution, assign, update_execution}
use mt5_execution_bridge.Services.Risk.{second, check_freshness}
use mt5_execution_bridge.Exec.{
  raised, gets, modify_gateway, Bridge, ok, utc_now, transaction, ask, or_raise, pure, return_early,
  ◌>>=◌,
}
use mt5_execution_bridge.Config.{Settings}
use mt5_execution_bridge.Outside.{value_error}
use mt5_execution_bridge.Gateway.{connected}
use mt5_execution_bridge.Services.SymbolMapper.{resolve}
use mt5_execution_bridge.Services.Text.{int, strip, lstrip, is_space, read_int, read_digits}
use mt5_execution_bridge.Execution.Common.{
  ensure_connected, connect, connect_attempts, finish, record_fields,
}
use mt5_execution_bridge.Execution.Checks.{map_symbol, identify_account, admit}
use mt5_execution_bridge.Execution.Pipeline.{
  begin_attempt, run_checks, process_steps, process_signal,
}
use mt5_execution_bridge.Tests.Fixed.{Fixed, fixed_float}
use mt5_execution_bridge.Tests.Fake.{
  Fake, fake_sdk, fake_host, arrival, fake, live, symbols, signal, start,
}

abbrev pub submitted : Bridge Fixed Fake
unfolding insert_signal_if_new
submitted = record start { db = (insert_signal_if_new signal arrival start.db).1 }

-- The row that `claim_next_pending` returns.
abbrev pub row : Signal Fixed
row = claimed arrival (pending_row 1 arrival signal)

-- The same state, 61 seconds later.
abbrev pub late : Bridge Fixed Fake
late = record submitted { outside = record fake { clock = arrival + 61 * second } }

abbrev pub late_end : Bridge Fixed Fake
late_end = (process_signal live symbols row late).1

-- A signal older than `max_signal_age_seconds` is rejected as stale.
pub rejects_late : process_signal live symbols row late ≡ (ok rejected_stale, late_end)
unfolding insert_signal_if_new process_signal process_steps begin_attempt utc_now transaction ask
    insert_execution get_signal or_raise pure ◌>>=◌ run_checks admit check_freshness finish
    record_fields update_execution assign update_signal_status is_rejection value return_early
rejects_late = refl

-- The state after the claim, and settings with a login that is no number.
abbrev pub taken_up : Bridge Fixed Fake
taken_up = record submitted { db = record submitted.db { signals = row ∷ [] } }

abbrev pub odd_login : Settings Fixed
odd_login = record live { mt5_login = "abc" }

abbrev pub odd_end : Bridge Fixed Fake
odd_end = (process_signal odd_login symbols row taken_up).1

-- `int("abc")` raises in `_ensure_connected`.
pub raises_odd_login : process_signal odd_login symbols row taken_up ≡ (raised value_error, odd_end)
unfolding insert_signal_if_new process_signal process_steps begin_attempt utc_now transaction ask
    insert_execution get_signal or_raise pure ◌>>=◌ run_checks admit check_freshness record_fields
    update_execution assign map_symbol resolve set_symbol_normalized identify_account
    ensure_connected connected gets modify_gateway connect_attempts connect int strip lstrip
    is_space read_int read_digits
raises_odd_login = refl
