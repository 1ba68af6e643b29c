-- ===== src/Services/Risk.antt =====
-- app/services/risk_service.py: the risk predicates. Instants are microseconds (Storage/Tables).
use mt5_execution_bridge.Prelude.{
  ℕ, ◌+◌, ◌-◌, ◌*◌, ◌/◌, Bool, ◌&&◌, ◌||◌, Option, none, some, ltb, leb, if◌then◌else◌,
}
use mt5_execution_bridge.Services.Calendar.{date_of, day_of, digits}
use mt5_execution_bridge.Float.{Float}
use mt5_execution_bridge.Models.{
  SignalAction, buy, sell, ExecutionStatus, rejected_stale, rejected_future_timestamp,
  rejected_risk, rejected_stop_loss, rejected_spread, rejected_daily_loss,
  rejected_daily_trade_limit, rejected_position_limit, Message, text, signal_age, signal_in_future,
  risk_percent_outside, spread_exceeds, trades_already_executed, positions_already_open,
  daily_loss_exceeds,
}
use mt5_execution_bridge.Storage.{Timestamp, aware, naive}

-- `RiskCheckResult(True)` or `RiskCheckResult(False, status, reason)`.
pub data RiskCheckResult (F : Type 0) : Type 0 where
  passed : RiskCheckResult F
  failed : ExecutionStatus → Message F → RiskCheckResult F

-- `result.ok`
abbrev pub is_ok : {F : Type 0} → RiskCheckResult F → Bool
is_ok passed = Bool.true
is_ok (failed _ _) = Bool.false

abbrev pub second : ℕ
second = 1_000_000

abbrev pub day : ℕ
day = 86_400 * second

abbrev pub future_tolerance_seconds : ℕ
future_tolerance_seconds = 5

abbrev pub is_buy : SignalAction → Bool
is_buy buy = Bool.true
is_buy sell = Bool.false

abbrev pub is_sell : SignalAction → Bool
is_sell buy = Bool.false
is_sell sell = Bool.true

-- A timestamp with no offset is read as UTC.
abbrev pub instant : Timestamp → ℕ
instant (aware t) = t
instant (naive t) = t

-- `age > max` and `age < -tolerance`, with the age `now - timestamp` moved to the sums' side.
unfoldable pub check_freshness : {F : Type 0} → Timestamp → ℕ → ℕ → RiskCheckResult F
check_freshness stamp max_age_seconds now =
    if ltb (instant stamp + max_age_seconds * second) now
    then failed rejected_stale (signal_age (now - instant stamp) max_age_seconds)
    else if ltb (now + future_tolerance_seconds * second) (instant stamp)
    then failed rejected_future_timestamp (signal_in_future (instant stamp - now))
    else passed

unfoldable pub check_daily_trade_limit : {F : Type 0} → ℕ → ℕ → RiskCheckResult F
check_daily_trade_limit trades_today max_trades_per_day =
    if leb max_trades_per_day trades_today
    then failed rejected_daily_trade_limit (trades_already_executed trades_today)
    else passed

unfoldable pub check_position_limit : {F : Type 0} → ℕ → ℕ → RiskCheckResult F
check_position_limit open_positions max_open_positions =
    if leb max_open_positions open_positions
    then failed rejected_position_limit (positions_already_open open_positions)
    else passed

-- `now.strftime("%Y-%m-%d")`
unfoldable pub trading_day_key : ℕ → ℕ
unfolding date_of digits
trading_day_key now = digits (date_of (now / day))

-- `datetime(now.year, now.month, now.day)`
unfoldable pub start_of_trading_day : ℕ → ℕ
unfolding date_of day_of
start_of_trading_day now =
    let date = date_of (now / day) in
    day_of (record { year = date.year; month = date.month; day = date.day }) * day

module _ {F : Type 0} ⦃float : Float F⦄ where
  open float use {lt, le, sub, mul, div}

  -- The literals 0 and 100.0, and an `int` among floats.
  abbrev pub number : ℕ → F
  number n = float.decimal n 0

  unfoldable pub check_risk_percent : F → F → RiskCheckResult F
  check_risk_percent risk_percent max_risk_percent =
      if le risk_percent (number 0) || lt max_risk_percent risk_percent
      then failed rejected_risk (risk_percent_outside risk_percent max_risk_percent)
      else passed

  abbrev check_side : SignalAction → F → F → RiskCheckResult F
  check_side action stop_loss entry_price =
      if is_buy action && le entry_price stop_loss
      then failed rejected_stop_loss (text "BUY stop_loss must be below entry price")
      else if is_sell action && le stop_loss entry_price
      then failed rejected_stop_loss (text "SELL stop_loss must be above entry price")
      else passed

  unfoldable pub check_stop_loss : SignalAction → Option F → F → Bool → RiskCheckResult F
  check_stop_loss action none entry_price require_stop_loss =
      if require_stop_loss then failed rejected_stop_loss (text "stop_loss is required") else passed
  check_stop_loss action (some stop_loss) entry_price require_stop_loss =
      check_side action stop_loss entry_price

  unfoldable pub check_spread : F → F → F → ℕ → RiskCheckResult F
  check_spread bid ask point max_spread_points =
      let spread_points = div (sub ask bid) point in
      if le bid (number 0) || le ask (number 0) || le point (number 0) || lt ask bid
      then failed rejected_spread (text "Invalid quote data")
      else if lt (number max_spread_points) spread_points
      then failed rejected_spread (spread_exceeds spread_points max_spread_points)
      else passed

  unfoldable pub check_daily_loss : F → F → F → RiskCheckResult F
  check_daily_loss current_equity baseline_equity max_daily_loss_percent =
      let loss_percent =
        mul (div (sub baseline_equity current_equity) baseline_equity) (number 100) in
      if le baseline_equity (number 0)
      then failed rejected_daily_loss (text "Invalid baseline equity")
      else if le max_daily_loss_percent loss_percent
      then failed rejected_daily_loss (daily_loss_exceeds loss_percent max_daily_loss_percent)
      else passed
