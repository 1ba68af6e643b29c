-- ===== src/Services/Limits.antt =====
-- The comparisons of app/services/risk_service.py with clocks and days.
use mt5_execution_bridge.Prelude.{ℕ, ◌+◌, ◌*◌, ◌/◌, ap, ◌≤◌, ◌<◌, ◌≡◌, ◌↔◌, arith}
use mt5_execution_bridge.Storage.{Timestamp}
use mt5_execution_bridge.Services.Calendar.{date_of, digits}
use mt5_execution_bridge.Services.Calendar.Dates.{date_of-IsDate, digits-date_of}
use mt5_execution_bridge.Services.Risk.{
  passed, second, day, instant, check_freshness, start_of_trading_day, trading_day_key,
}

-- A signal passes the freshness check exactly where it is at most the maximal age old and at most
-- five seconds ahead of the clock.
pub check_freshness-passed :
    {F : Type 0} (stamp : Timestamp) (max_age now : ℕ)
    → (check_freshness {F = F} stamp max_age now ≡ passed)
      ↔ ((now ≤ instant stamp + max_age * second) × (instant stamp ≤ now + 5 * second))
unfolding check_freshness
check_freshness-passed stamp max_age now = (λ h. ground arith, λ h. ground arith)

start_of_trading_day-div : (now : ℕ) → start_of_trading_day now ≡ now / day * day
unfolding start_of_trading_day
start_of_trading_day-div now = ap (λ n. n * day) (date_of-IsDate (now / day)).0

same_date : (m n : ℕ) → m / day ≡ n / day → trading_day_key m ≡ trading_day_key n
unfolding trading_day_key
same_date m n e = ap (λ d. digits (date_of d)) e

same_key : (m n : ℕ) → trading_day_key m ≡ trading_day_key n → m / day ≡ n / day
unfolding trading_day_key
same_key m n e = digits-date_of (m / day) (n / day) e

-- The start of the day of an instant, as the calendar has the instant's year, month and day, is the
-- first instant with the instant's day key, and the day key changes a day later: of two instants, one
-- has the key of the other exactly where it is not before the start of the other's day, and less than a
-- day behind it.
pub start_of_trading_day-first :
    (now other : ℕ)
    → (trading_day_key other ≡ trading_day_key now)
      ↔ ((start_of_trading_day now ≤ other) × (other < start_of_trading_day now + 86_400_000_000))
start_of_trading_day-first now other =
    (λ e. within (same_key other now e), λ h. same_date other now (inside h))
  where
    within :
        other / day ≡ now / day
        → (start_of_trading_day now ≤ other) × (other < start_of_trading_day now + 86_400_000_000)
    within e =
        let start = start_of_trading_day-div now in
        (omega (arith, e, start), omega (arith, e, start))

    inside :
        (start_of_trading_day now ≤ other) × (other < start_of_trading_day now + 86_400_000_000)
        → other / day ≡ now / day
    inside h = let start = start_of_trading_day-div now in omega (arith, h, start)
