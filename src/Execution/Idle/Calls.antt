-- ===== src/Execution/Idle/Calls.antt =====
-- The gateway's read-only calls, the connection and the volume calculator, as idle actions.
use mt5_execution_bridge.Prelude.{arith, ℕ, zero, suc, String, true, Option, none, some}
use mt5_execution_bridge.Float.{Float}
use mt5_execution_bridge.Models.{SignalAction}
use mt5_execution_bridge.Services.Text.{or_none, int}
use mt5_execution_bridge.Services.Risk.{number}
use mt5_execution_bridge.Services.Volume.{
  order_type, size_by_risk, size_by_loss, size_with_stop, refused, invalid_price,
  calculate_risk_based_volume,
}
use mt5_execution_bridge.Config.{Settings}
use mt5_execution_bridge.Outside.{Call, Login, Sdk, value_error, type_error}
use mt5_execution_bridge.Exec.{modify_gateway, ask, gets, or_raise, pure, ◌>>=◌}
use mt5_execution_bridge.Gateway.{
  call_sdk, connected, last_error, initialize, account_info, ensure_symbol, symbol_info_tick,
  server_time, positions_get, orders_get, history_deals_get, order_calc_profit,
}
use mt5_execution_bridge.Execution.Common.{
  login_number, connect, connect_attempts, ensure_connected, max_mt5_connect_attempts,
}
use mt5_execution_bridge.Execution.Idle.{Idle, Idle-pure, Idle-or_raise, Idle-if, Idle-bind}

module _ {F T : Type 0} where
  Idle-call_sdk : {A : Type 0} (d : A) (c : Call T A) → Idle {F = F} (call_sdk d c)
  unfolding call_sdk
  Idle-call_sdk d c = record { at = λ s. ground arith }

module _ {F T : Type 0} ⦃sdk : Sdk F T⦄ where
  pub Idle-connected : Idle {F = F} {T = T} connected
  unfolding connected ◌>>=◌
  Idle-connected = record { at = λ s. ground arith }

  pub Idle-last_error : Idle {F = F} {T = T} last_error
  unfolding last_error
  Idle-last_error = Idle-call_sdk tt _

  Idle-initialize : (l : Login) → Idle {F = F} {T = T} (initialize l)
  unfolding initialize ask gets modify_gateway pure last_error call_sdk ◌>>=◌
  Idle-initialize l = record { at = λ s. ground arith }

  Idle-login_number : (o : Option String) → Idle {F = F} {T = T} (login_number o)
  Idle-login_number none = Idle-pure _
  Idle-login_number (some s) = Idle-bind (Idle-or_raise value_error (int s)) λ n. Idle-pure _

  Idle-connect : (st : Settings F) → Idle {F = F} {T = T} (connect st)
  unfolding connect
  Idle-connect st = Idle-bind (Idle-login_number (or_none st.mt5_login)) λ l. Idle-initialize _

  Idle-connect_attempts : (n : ℕ) (st : Settings F) → Idle {F = F} {T = T} (connect_attempts n st)
  unfolding connect_attempts
  Idle-connect_attempts zero st = Idle-pure _
  Idle-connect_attempts (suc n) st = Idle-bind (Idle-connect st) λ up.
      Idle-if up (pure true) (connect_attempts n st) (Idle-pure _) (Idle-connect_attempts n st)

  pub Idle-ensure_connected : (st : Settings F) → Idle {F = F} {T = T} (ensure_connected st)
  unfolding ensure_connected
  Idle-ensure_connected st = Idle-bind Idle-connected λ up.
      Idle-if up (pure true) (connect_attempts max_mt5_connect_attempts st) (Idle-pure _)
        (Idle-connect_attempts max_mt5_connect_attempts st)

  pub Idle-account_info : Idle {F = F} {T = T} account_info
  unfolding account_info
  Idle-account_info = Idle-call_sdk none sdk.account_info

  pub Idle-ensure_symbol : (symbol : String) → Idle {F = F} {T = T} (ensure_symbol symbol)
  unfolding ensure_symbol gets ask pure ◌>>=◌
  Idle-ensure_symbol symbol = record { at = λ s. ground arith }

  pub Idle-symbol_info_tick : (symbol : String) → Idle {F = F} {T = T} (symbol_info_tick symbol)
  unfolding symbol_info_tick
  Idle-symbol_info_tick symbol = Idle-call_sdk none (sdk.symbol_info_tick symbol)

  pub Idle-server_time : (symbol : String) → Idle {F = F} {T = T} (server_time symbol)
  unfolding server_time
  Idle-server_time symbol = Idle-bind (Idle-symbol_info_tick symbol) λ t. Idle-pure _

  pub Idle-positions_get : Idle {F = F} {T = T} positions_get
  unfolding positions_get
  Idle-positions_get = Idle-call_sdk none sdk.positions_get

  pub Idle-orders_get : Idle {F = F} {T = T} orders_get
  unfolding orders_get
  Idle-orders_get = Idle-call_sdk none sdk.orders_get

  pub Idle-history_deals_get :
      (since until : ℕ) → Idle {F = F} {T = T} (history_deals_get since until)
  unfolding history_deals_get
  Idle-history_deals_get since until =
      Idle-bind (Idle-call_sdk none (sdk.history_deals_get since until)) λ deals. Idle-pure _

  Idle-order_calc_profit :
      (o : ℕ) (symbol : String) (v p q : F)
      → Idle {F = F} {T = T} (order_calc_profit o symbol v p q)
  unfolding order_calc_profit
  Idle-order_calc_profit o symbol v p q = Idle-call_sdk none (sdk.order_calc_profit o symbol v p q)

module _ {F T : Type 0} ⦃float : Float F⦄ ⦃sdk : Sdk F T⦄ where
  Idle-size_by_risk :
      (equity risk per_lot vmin vmax step : F)
      → Idle {F = F} {T = T} (size_by_risk equity risk per_lot vmin vmax step)
  unfolding size_by_risk or_raise pure ◌>>=◌
  Idle-size_by_risk equity risk per_lot vmin vmax step = record { at = λ s. ground arith }

  Idle-size_by_loss :
      (equity risk vmin vmax step : F) (loss : Option F)
      → Idle {F = F} {T = T} (size_by_loss equity risk vmin vmax step loss)
  Idle-size_by_loss equity risk vmin vmax step none = Idle-pure _
  Idle-size_by_loss equity risk vmin vmax step (some loss) =
      Idle-size_by_risk equity risk _ vmin vmax step

  Idle-size_with_stop :
      (symbol : String) (action : SignalAction) (entry stop : F) (equity risk vmin vmax step : F)
      → Idle {F = F} {T = T} (size_with_stop symbol action entry stop equity risk vmin vmax step)
  unfolding size_with_stop
  Idle-size_with_stop symbol action entry stop equity risk vmin vmax step =
      Idle-if (float.le stop (number 0)) (pure (refused invalid_price))
        (order_calc_profit (order_type action) symbol (number 1) entry stop
          >>= size_by_loss equity risk vmin vmax step)
        (Idle-pure _)
        (Idle-bind (Idle-order_calc_profit _ symbol _ entry stop)
          λ loss. Idle-size_by_loss equity risk vmin vmax step loss)

  pub Idle-calculate_risk_based_volume :
      (symbol : String) (action : SignalAction) (entry : F) (stop : Option F)
      (equity risk vmin vmax step : F)
      → Idle {F = F} {T = T}
          (calculate_risk_based_volume symbol action entry stop equity risk vmin vmax step)
  unfolding calculate_risk_based_volume
  Idle-calculate_risk_based_volume symbol action entry stop equity risk vmin vmax step =
      Idle-if (float.le entry (number 0)) (pure (refused invalid_price))
        (or_raise type_error stop >>= λ s.
          size_with_stop symbol action entry s equity risk vmin vmax step)
        (Idle-pure _)
        (Idle-bind (Idle-or_raise type_error stop)
          λ s. Idle-size_with_stop symbol action entry s equity risk vmin vmax step)
