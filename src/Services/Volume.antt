-- ===== src/Services/Volume.antt =====
-- app/services/volume_calculator.py: risk percent to lots.
use mt5_execution_bridge.Prelude.{ℕ, String, Option, none, some, if◌then◌else◌}
use mt5_execution_bridge.Float.{Float, ℤ}
use mt5_execution_bridge.Models.{SignalAction}
use mt5_execution_bridge.Outside.{Sdk, type_error, overflow_error}
use mt5_execution_bridge.Exec.{Exec, pure, or_raise, ◌>>=◌}
use mt5_execution_bridge.Gateway.{order_calc_profit}
use mt5_execution_bridge.Services.Risk.{is_buy, number}

abbrev pub order_type_buy : ℕ
order_type_buy = 0

abbrev pub order_type_sell : ℕ
order_type_sell = 1

abbrev pub order_type : SignalAction → ℕ
order_type action = if is_buy action then order_type_buy else order_type_sell

-- The reasons that the calculator gives.
pub data VolumeReason : Type 0 where
  invalid_price calc_profit_failed non_positive_risk invalid_step below_minimum : VolumeReason

-- `VolumeResult(ok=True, volume)` or `VolumeResult(ok=False, ..., reason)`; the volume of a refused
-- result is read by nobody.
pub data VolumeResult (F : Type 0) : Type 0 where
  sized : F → VolumeResult F
  refused : VolumeReason → VolumeResult F

module _ {F : Type 0} ⦃float : Float F⦄ where
  open float use {lt, le, mul, div}

  -- `min(a, b)`
  abbrev pub min_of : F → F → F
  min_of a b = if lt b a then b else a

  -- `round(steps * volume_step, 8)`
  abbrev pub volume_of : ℤ → F → F
  volume_of steps volume_step = float.round_8 (mul (float.of_int steps) volume_step)

  -- The last lines: the broker's minimum and maximum.
  unfoldable pub bound_volume : F → F → F → VolumeResult F
  bound_volume volume_min volume_max volume =
      if lt volume volume_min then refused below_minimum else sized (min_of volume volume_max)

  abbrev pub raw_volume : F → F → F → F
  raw_volume equity risk_percent risk_per_lot =
      div (mul equity (div risk_percent (number 100))) risk_per_lot

  module _ {T : Type 0} ⦃sdk : Sdk F T⦄ where
    -- From the risk of one lot on.
    unfoldable pub size_by_risk : F → F → F → F → F → F → Exec F T (VolumeResult F)
    size_by_risk equity risk_percent risk_per_lot volume_min volume_max volume_step =
        if le risk_per_lot (number 0)
        then pure (refused non_positive_risk)
        else if le volume_step (number 0)
        then pure (refused invalid_step)
        else do
          steps ←
              or_raise overflow_error
                (float.floor (div (raw_volume equity risk_percent risk_per_lot) volume_step))
          pure (bound_volume volume_min volume_max (volume_of steps volume_step))

    abbrev pub size_by_loss : F → F → F → F → F → Option F → Exec F T (VolumeResult F)
    size_by_loss equity risk_percent volume_min volume_max volume_step none =
        pure (refused calc_profit_failed)
    size_by_loss equity risk_percent volume_min volume_max volume_step (some loss_for_one_lot) =
        size_by_risk equity risk_percent (float.abs loss_for_one_lot) volume_min volume_max
          volume_step

    -- With a stop loss: the second half of the first test, and the loss of one lot.
    unfoldable pub size_with_stop :
        String → SignalAction → F → F → F → F → F → F → F → Exec F T (VolumeResult F)
    size_with_stop symbol action entry_price stop_loss equity risk_percent volume_min volume_max
          volume_step =
        if le stop_loss (number 0) then pure (refused invalid_price) else do
          loss_for_one_lot ←
              order_calc_profit (order_type action) symbol (number 1) entry_price stop_loss
          size_by_loss equity risk_percent volume_min volume_max volume_step loss_for_one_lot

    -- `entry_price <= 0 or stop_loss <= 0`: the second comparison of a `None` is a TypeError, and
    -- is not made where the first holds.
    unfoldable pub calculate_risk_based_volume :
        String → SignalAction → F → Option F → F → F → F → F → F → Exec F T (VolumeResult F)
    calculate_risk_based_volume symbol action entry_price stop_loss equity risk_percent volume_min
          volume_max volume_step =
        if le entry_price (number 0) then pure (refused invalid_price) else do
          stop ← or_raise type_error stop_loss
          size_with_stop symbol action entry_price stop equity risk_percent volume_min volume_max
              volume_step
