-- ===== src/Tests/Life.antt =====
-- The theorems about the life of a signal and the worker's queue at concrete runs.
use mt5_execution_bridge.Prelude.{◌+◌, ◌*◌, ◌-◌, arith, refl}
use mt5_execution_bridge.Models.{rejected_stale, value, is_rejection}
use mt5_execution_bridge.Storage.Signals.{
  get_signal, insert_signal_if_new, claim, claim_next_pending, update_signal_status,
}
use mt5_execution_bridge.Storage.Executions.{insert_execution, assign, update_execution}
use mt5_execution_bridge.Services.Risk.{second, check_freshness}
use mt5_execution_bridge.Execution.Common.{finish, record_fields}
use mt5_execution_bridge.Execution.Checks.{admit}
use mt5_execution_bridge.Execution.Pipeline.{
  begin_attempt, run_checks, process_steps, process_signal,
}
use mt5_execution_bridge.Worker.Lifecycle.Queueing.{IsUnique}
use mt5_execution_bridge.Storage.Rows.{HasStatus}
use mt5_execution_bridge.Exec.{
  Bridge, ask, or_raise, pure, return_early, transaction, utc_now, ◌>>=◌,
}
use mt5_execution_bridge.Execution.Responsive.{IsResponsive}
use mt5_execution_bridge.Worker.{submit, claim_and_process, turn, run_loop}
use mt5_execution_bridge.Worker.System.{
  Reachable, fresh, after, Later, now, step_on, submits, takes_turn, drifts,
}
use mt5_execution_bridge.Worker.Lifecycle.{AllMove}
use mt5_execution_bridge.Worker.Lifecycle.Refined.{Later-AllMove, HasStatus-final}
use mt5_execution_bridge.Worker.Draining.{waiting, Drained, run_loop-Drained}
use mt5_execution_bridge.Tests.Fixed.{Fixed, fixed_float}
use mt5_execution_bridge.Tests.Fake.{
  Fake, fake_sdk, fake_host, fake, arrival, live, symbols, signal, start,
}

abbrev queued : Bridge Fixed Fake
queued = (submit signal start).1

abbrev handled : Bridge Fixed Fake
handled = (turn live symbols queued).1

start-Reachable : Reachable start
start-Reachable = fresh start.gateway fake

handled-Later : Later start handled
handled-Later = step_on (step_on now (submits signal start)) (takes_turn live symbols queued)

Later-AllMove_example : AllMove start.db handled.db
Later-AllMove_example = Later-AllMove start handled start-Reachable handled-Later

pub fake-IsResponsive : IsResponsive fake_host
fake-IsResponsive = record { stores = λ t. (t, refl); tells = λ t. (t.clock, t, refl) }

queued-IsUnique : IsUnique queued.db
unfolding submit insert_signal_if_new get_signal transaction ask utc_now pure ◌>>=◌
queued-IsUnique i = ground arith

run_loop-Drained_example :
    Drained live symbols (waiting queued.db - 2) queued.db (run_loop 2 live symbols queued)
run_loop-Drained_example = run_loop-Drained live symbols 2 queued fake-IsResponsive queued-IsUnique

-- 61 seconds pass, and the worker takes the signal, which is stale.
abbrev aged : Bridge Fixed Fake
aged = record queued { outside = record fake { clock = arrival + 61 * second } }

abbrev refused : Bridge Fixed Fake
refused = (turn live symbols aged).1

refused-Reachable : Reachable refused
refused-Reachable =
    after
      (after (after start-Reachable (submits signal start))
        (drifts queued.gateway aged.outside queued))
      (takes_turn live symbols aged)

refused-HasStatus : HasStatus "s1" rejected_stale refused.db
unfolding submit turn claim_and_process claim_next_pending claim insert_signal_if_new process_signal
    process_steps begin_attempt utc_now transaction ask insert_execution get_signal or_raise pure
    ◌>>=◌ run_checks admit check_freshness finish record_fields update_execution assign
    update_signal_status is_rejection value return_early
refused-HasStatus = refl

HasStatus-final_example : HasStatus "s1" rejected_stale (turn live symbols refused).1.db
HasStatus-final_example =
    HasStatus-final refused (turn live symbols refused).1 "s1" rejected_stale refused-Reachable
      (step_on now (takes_turn live symbols refused)) refused-HasStatus (refl, refl)
