-- ===== src/Tests/Examples.antt =====
-- The theorems at concrete runs.
use mt5_execution_bridge.Prelude.{
  String, str_eq, is_none, find, false, true, All, suc, ◌≡◌, refl, ◌≤◌, count_if,
}
use mt5_execution_bridge.Models.{rejected_stale, processing}
use mt5_execution_bridge.Storage.Signals.{
  has_signal_id, find_stuck_processing, get_signal, insert_signal_if_new,
}
use mt5_execution_bridge.Storage.Rows.{status_of, HasStatus, HasExecutionStatus}
use mt5_execution_bridge.Config.{live_execution_allowed}
use mt5_execution_bridge.Outside.{value_error}
use mt5_execution_bridge.Exec.{Bridge, ask, utc_now, transaction, pure, ◌>>=◌}
use mt5_execution_bridge.Execution.Common.{meb_comment}
use mt5_execution_bridge.Execution.Pipeline.{process_signal}
use mt5_execution_bridge.Execution.Quiet.{IsFinal, ids}
use mt5_execution_bridge.Execution.Trail.{IsVetted, Trail}
use mt5_execution_bridge.Execution.Outcomes.{
  process_signal-raises, is_sent, WasFresh, process_signal-Trail, process_signal-files,
  process_signal-dry_run,
}
use mt5_execution_bridge.Worker.{submit, turn}
use mt5_execution_bridge.Worker.System.{submits, takes_turn, Reachable, fresh, after}
use mt5_execution_bridge.Worker.Turns.{sends, turn-Advances}
use mt5_execution_bridge.Worker.Submitting.{Safe}
use mt5_execution_bridge.Storage.Schema.{WellFormed}
use mt5_execution_bridge.Worker.Constraints.Reached.{Reachable-WellFormed}
use mt5_execution_bridge.Worker.Safety.{Alone, Reachable-Safe, sends_at_most_once}
use mt5_execution_bridge.Tests.Fixed.{Fixed, fixed_float}
use mt5_execution_bridge.Tests.Fake.{Fake, fake_sdk, fake_host, fake, live, symbols, signal, start}
use mt5_execution_bridge.Tests.Runs.{
  taken_up, odd_login, odd_end, raises_odd_login, submitted, row, late, late_end, rejects_late,
}

process_signal-Trail_example :
    Trail
      (λ r. IsVetted symbols fake_host.sha256_hex live row r × WasFresh live row submitted)
      (live_execution_allowed live)
      submitted.journal
      (process_signal live symbols row submitted).1.journal
process_signal-Trail_example = process_signal-Trail live symbols row submitted

process_signal-files_example :
    HasStatus row.signal_id rejected_stale late_end.db
    × HasExecutionStatus (suc late.db.executions_seq) rejected_stale late_end.db
    × IsFinal rejected_stale
    × ((i : String)
        → str_eq row.signal_id i ≡ false
        → status_of i late_end.db ≡ status_of i late.db)
process_signal-files_example =
    process_signal-files live symbols row late late_end rejected_stale rejects_late

process_signal-dry_run_example :
    count_if is_sent
      (process_signal (record live { dry_run = true }) symbols row submitted).1.journal
    ≡ count_if is_sent submitted.journal
unfolding live_execution_allowed
process_signal-dry_run_example =
    process_signal-dry_run (record live { dry_run = true }) symbols row submitted refl

-- A submission, a turn of the worker that sends the order, and a restart.
abbrev lived : Bridge Fixed Fake
lived = (turn live symbols (submit signal start).1).1

lived-Reachable : Reachable lived
lived-Reachable =
    after (after (fresh start.gateway fake) (submits signal start))
      (takes_turn live symbols (submit signal start).1)

Reachable-WellFormed_example : WellFormed lived.db
Reachable-WellFormed_example = Reachable-WellFormed lived-Reachable

Reachable-Safe_example : Safe fake_host.sha256_hex lived
Reachable-Safe_example = Reachable-Safe lived-Reachable

lived-Alone : All (Alone fake_host.sha256_hex "s1") (ids lived.db)
unfolding submit insert_signal_if_new get_signal transaction ask utc_now pure ◌>>=◌
lived-Alone = rw (turn-Advances live symbols "" (submit signal start).1).1 (λ e. refl, tt)

sends_at_most_once_example : sends (meb_comment fake_host.sha256_hex "s1") lived.journal ≤ 1
sends_at_most_once_example = sends_at_most_once lived "s1" lived-Reachable lived-Alone

taken_up-HasStatus : HasStatus "s1" processing taken_up.db
unfolding get_signal
taken_up-HasStatus = refl

process_signal-raises_example :
    HasStatus "s1" processing odd_end.db
    × (is_none (find (has_signal_id "s1") (find_stuck_processing odd_end.db)) ≡ false)
process_signal-raises_example =
    process_signal-raises odd_login symbols row taken_up odd_end value_error taken_up-HasStatus
      raises_odd_login
