-- ===== src/Models/Enums.antt =====
-- app/models/enums.py.
use text.Mathlib.Text.{starts_with}
use mt5_execution_bridge.Prelude.{String, Bool, true, false, ◌||◌}

pub data SignalAction : Type 0 where
  buy sell : SignalAction

pub data ExecutionStatus : Type 0 where
  pending processing : ExecutionStatus
  dry_run_approved dry_run_rejected executed executed_partial recovered_executed : ExecutionStatus
  rejected_stale rejected_future_timestamp rejected_symbol : ExecutionStatus
  rejected_symbol_unavailable rejected_risk rejected_stop_loss : ExecutionStatus
  rejected_spread rejected_daily_loss rejected_daily_trade_limit : ExecutionStatus
  rejected_position_limit rejected_volume rejected_volume_below_minimum : ExecutionStatus
  rejected_order_check : ExecutionStatus
  failed_mt5_unavailable failed_mt5_state_unknown failed_broker_time_unknown : ExecutionStatus
  failed_order_send review_required : ExecutionStatus

-- `status.value`
unfoldable pub value : ExecutionStatus → String
value pending = "PENDING"
value processing = "PROCESSING"
value dry_run_approved = "DRY_RUN_APPROVED"
value dry_run_rejected = "DRY_RUN_REJECTED"
value executed = "EXECUTED"
value executed_partial = "EXECUTED_PARTIAL"
value recovered_executed = "RECOVERED_EXECUTED"
value rejected_stale = "REJECTED_STALE"
value rejected_future_timestamp = "REJECTED_FUTURE_TIMESTAMP"
value rejected_symbol = "REJECTED_SYMBOL"
value rejected_symbol_unavailable = "REJECTED_SYMBOL_UNAVAILABLE"
value rejected_risk = "REJECTED_RISK"
value rejected_stop_loss = "REJECTED_STOP_LOSS"
value rejected_spread = "REJECTED_SPREAD"
value rejected_daily_loss = "REJECTED_DAILY_LOSS"
value rejected_daily_trade_limit = "REJECTED_DAILY_TRADE_LIMIT"
value rejected_position_limit = "REJECTED_POSITION_LIMIT"
value rejected_volume = "REJECTED_VOLUME"
value rejected_volume_below_minimum = "REJECTED_VOLUME_BELOW_MINIMUM"
value rejected_order_check = "REJECTED_ORDER_CHECK"
value failed_mt5_unavailable = "FAILED_MT5_UNAVAILABLE"
value failed_mt5_state_unknown = "FAILED_MT5_STATE_UNKNOWN"
value failed_broker_time_unknown = "FAILED_BROKER_TIME_UNKNOWN"
value failed_order_send = "FAILED_ORDER_SEND"
value review_required = "REVIEW_REQUIRED"

-- `status in TERMINAL_STATUSES`
unfoldable pub is_terminal : ExecutionStatus → Bool
is_terminal pending = false
is_terminal processing = false
is_terminal failed_mt5_unavailable = false
is_terminal _ = true

-- The comparisons with one member: `status = 'PENDING'`, `status = 'PROCESSING'`, and
-- `status == ExecutionStatus.REVIEW_REQUIRED`.
abbrev pub is_pending : ExecutionStatus → Bool
is_pending pending = true
is_pending _ = false

abbrev pub is_processing : ExecutionStatus → Bool
is_processing processing = true
is_processing _ = false

abbrev pub is_review_required : ExecutionStatus → Bool
is_review_required review_required = true
is_review_required _ = false

-- `status IN ('EXECUTED', 'EXECUTED_PARTIAL', 'RECOVERED_EXECUTED')`
abbrev pub is_trade : ExecutionStatus → Bool
is_trade executed = true
is_trade executed_partial = true
is_trade recovered_executed = true
is_trade _ = false

-- `is_rejection` of `finish`: whether the message becomes the signal's rejection reason.
unfoldable pub is_rejection : ExecutionStatus → Bool
unfolding value
is_rejection s =
    starts_with (value s) "REJECTED" || starts_with (value s) "FAILED" || is_review_required s
