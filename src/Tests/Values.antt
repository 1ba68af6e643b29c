-- ===== src/Tests/Values.antt =====
-- The theorems about volumes, account keys and the connection, and about a recovery, at concrete
-- inputs.
use mt5_execution_bridge.Prelude.{ℕ, ◌+◌, ◌≤◌, [], String, false, some, none, ◌≡◌, refl, arith}
use mt5_execution_bridge.Models.{buy}
use mt5_execution_bridge.Services.Text.{decimal, decimal_from, strip, lstrip, is_space}
use mt5_execution_bridge.Services.Volume.{calculate_risk_based_volume}
use mt5_execution_bridge.Services.Sizing.{SizedOutcome, calculate_risk_based_volume-Sized}
use mt5_execution_bridge.Outside.{AccountInfo}
use mt5_execution_bridge.Exec.{Bridge}
use mt5_execution_bridge.Execution.Common.{
  is_blank, account_key_for, ensure_connected, max_mt5_connect_attempts,
}
use mt5_execution_bridge.Execution.Accounts.{account_key_for_injective}
use mt5_execution_bridge.Execution.Connecting.{counted, calls, ensure_connected-calls}
use mt5_execution_bridge.Worker.{recover_on_startup}
use mt5_execution_bridge.Worker.Lifecycle.Queueing.{IsUnique}
use mt5_execution_bridge.Worker.Lifecycle.Rested.{Rested, recover_on_startup-Rested}
use mt5_execution_bridge.Tests.Fixed.{Fixed, fixed_float}
use mt5_execution_bridge.Tests.Fake.{Fake, fake, fake_sdk, fake_host, price, live, start}
use mt5_execution_bridge.Tests.Runs.{taken_up}

lt_irreflexive : (x : Fixed) → fixed_float.lt x x ≡ false
lt_irreflexive x = ground arith

-- The symbol's limits are a hundredth and a hundred lots.
calculate_risk_based_volume-Sized_example : SizedOutcome (price 1 2) (price 100 0) (price 1 2) (
    calculate_risk_based_volume "EURUSD" buy
      (price 10901 4)
      (some (price 10850 4))
      (price 10000 0)
      (price 5 1)
      (price 1 2)
      (price 100 0)
      (price 1 2)
      start)
calculate_risk_based_volume-Sized_example =
    calculate_risk_based_volume-Sized (price 1 2) (price 100 0) (price 1 2) lt_irreflexive refl
      "EURUSD" buy (price 10901 4) (some (price 10850 4)) (price 10000 0) (price 5 1) start

-- One account at two times.
abbrev account_then : AccountInfo Fixed
account_then = record {
  server = some "A|1";
  login = some 2;
  equity = price 100 0;
  attribute = λ _. none;
}

abbrev account_now : AccountInfo Fixed
account_now = record account_then { equity = price 90 0 }

account_then-key : account_key_for account_then ≡ some "A|1|2"
unfolding account_key_for strip lstrip is_space decimal decimal_from
account_then-key = refl

account_now-key : account_key_for account_now ≡ some "A|1|2"
unfolding account_key_for strip lstrip is_space decimal decimal_from
account_now-key = refl

account_key_for_injective_example :
    (account_then.server ≡ account_now.server)
    × (account_then.login ≡ account_now.login)
    × ((s : String) → account_then.server ≡ some s → is_blank s ≡ false)
account_key_for_injective_example =
    account_key_for_injective account_then account_now "A|1|2" account_then-key account_now-key

taken_up-IsUnique : IsUnique taken_up.db
taken_up-IsUnique i = ground arith

recover_on_startup-Rested_example : Rested "s1" (recover_on_startup live taken_up)
recover_on_startup-Rested_example = recover_on_startup-Rested "s1" live taken_up taken_up-IsUnique

abbrev not_called : Bridge Fixed (ℕ × Fake)
not_called = record { db = start.db; gateway = start.gateway; outside = (0, fake); journal = [] }

ensure_connected-calls_example :
    calls (ensure_connected ⦃sdk = counted fake_sdk⦄ live not_called).1
    ≤ calls not_called + max_mt5_connect_attempts
ensure_connected-calls_example = ensure_connected-calls fake_sdk live not_called
