-- ===== src/Execution/Interleaved/Calls.antt =====
-- The gateway's calls, the connection and the volume calculator do not look at the database.
use mt5_execution_bridge.Prelude.{
  ℕ, zero, suc, String, ◌≡◌, refl, ap, ◌∙◌, Bool, true, false, Option, none, some, arith,
  if◌then◌else◌,
}
use mt5_execution_bridge.Float.{Float}
use mt5_execution_bridge.Models.{SignalAction}
use mt5_execution_bridge.Storage.{Database}
use mt5_execution_bridge.Services.Text.{int, or_none}
use mt5_execution_bridge.Services.Risk.{number}
use mt5_execution_bridge.Services.Volume.{
  order_type, size_by_risk, size_by_loss, size_with_stop, refused, invalid_price,
  calculate_risk_based_volume,
}
use mt5_execution_bridge.Config.{Settings}
use mt5_execution_bridge.Outside.{Failure, Call, Login, Request, Sdk, Host, type_error, value_error}
use mt5_execution_bridge.Exec.{
  Bridge, Outcome, ok, returned, raised, Exec, Gateway, pure, return_early, gets, ask, or_raise,
  utc_now, note, modify_gateway, continue, ◌>>=◌,
}
use mt5_execution_bridge.Gateway.{
  call_sdk, connected, last_error, initialize, account_info, ensure_symbol, symbol_info_tick,
  server_time, positions_get, order_calc_profit, order_check, order_send,
}
use mt5_execution_bridge.Execution.Common.{
  login_number, connect, connect_attempts, ensure_connected, max_mt5_connect_attempts,
}
use mt5_execution_bridge.Execution.Interleaved.{Blind}

module _ {F T : Type 0} where
  module _ {A : Type 0} where
    pub Blind-pure : (a : A) → Blind {F = F} {T = T} (pure a)
    unfolding pure
    Blind-pure a = record { at = λ s db. refl }

    pub Blind-return_early : (st : _) → Blind {F = F} {T = T} {A = A} (return_early st)
    unfolding return_early
    Blind-return_early st = record { at = λ s db. refl }

    pub Blind-ask : (c : Call T A) → Blind {F = F} (ask c)
    unfolding ask
    Blind-ask c = record { at = λ s db. refl }

    pub Blind-gets_gateway : (f : Gateway → A) → Blind {F = F} {T = T} (gets (λ s. f s.gateway))
    unfolding gets
    Blind-gets_gateway f = record { at = λ s db. refl }

    pub Blind-or_raise : (e : Failure) (o : Option A) → Blind {F = F} {T = T} (or_raise e o)
    unfolding or_raise
    Blind-or_raise e none = record { at = λ s db. refl }
    Blind-or_raise e (some a) = record { at = λ s db. refl }

    pub Blind-if : (b : Bool) (m n : Exec F T A) → Blind m → Blind n → Blind (if b then m else n)
    Blind-if true m n hm hn = hm
    Blind-if false m n hm hn = hn

    Blind-call_sdk : (d : A) (c : Call T A) → Blind {F = F} (call_sdk d c)
    unfolding call_sdk ask pure
    Blind-call_sdk d c = record { at = λ s db. ground arith }

  pub Blind-bind :
      {A B : Type 0} {m : Exec F T A} {f : A → Exec F T B}
      → Blind m
      → ((a : A) → Blind (f a))
      → Blind (m >>= f)
  unfolding ◌>>=◌
  Blind-bind {A} {B} {m} {f} hm hf = record {
    at = λ s db. ap (λ (r : Outcome A × Bridge F T). continue r.0 f r.1) (hm.at s db) ∙ go db (m s);
  }
    where
      go :
          (db : Database F) (r : Outcome A × Bridge F T)
          → continue r.0 f (record r.1 { db = db })
            ≡ ((continue r.0 f r.1).0, record (continue r.0 f r.1).1 { db = db })
      go db (ok a, s) = (hf a).at s db
      go db (returned st, s) = refl
      go db (raised e, s) = refl

module _ {F T : Type 0} ⦃host : Host T⦄ where
  pub Blind-utc_now : Blind {F = F} {T = T} utc_now
  unfolding utc_now
  Blind-utc_now = Blind-ask host.utc_now

module _ {F T : Type 0} ⦃sdk : Sdk F T⦄ where
  Blind-connected : Blind {F = F} {T = T} connected
  unfolding connected gets pure modify_gateway ask ◌>>=◌
  Blind-connected = record { at = λ s db. ground arith }

  pub Blind-last_error : Blind {F = F} {T = T} last_error
  unfolding last_error
  Blind-last_error = Blind-call_sdk tt _

  Blind-initialize : (l : Login) → Blind {F = F} {T = T} (initialize l)
  unfolding initialize ask gets modify_gateway pure last_error call_sdk ◌>>=◌
  Blind-initialize l = record { at = λ s db. ground arith }

  Blind-login_number : (o : Option String) → Blind {F = F} {T = T} (login_number o)
  Blind-login_number none = Blind-pure _
  Blind-login_number (some s) = Blind-bind (Blind-or_raise value_error (int s)) λ n. Blind-pure _

  Blind-connect : (st : Settings F) → Blind {F = F} {T = T} (connect st)
  unfolding connect
  Blind-connect st = Blind-bind (Blind-login_number (or_none st.mt5_login)) λ l. Blind-initialize _

  Blind-connect_attempts : (n : ℕ) (st : Settings F) → Blind {F = F} {T = T} (connect_attempts n st)
  unfolding connect_attempts
  Blind-connect_attempts zero st = Blind-pure _
  Blind-connect_attempts (suc n) st = Blind-bind (Blind-connect st) λ up.
      Blind-if up (pure true) (connect_attempts n st) (Blind-pure _) (Blind-connect_attempts n st)

  pub Blind-ensure_connected : (st : Settings F) → Blind {F = F} {T = T} (ensure_connected st)
  unfolding ensure_connected
  Blind-ensure_connected st = Blind-bind Blind-connected λ up.
      Blind-if up (pure true) (connect_attempts max_mt5_connect_attempts st) (Blind-pure _)
        (Blind-connect_attempts max_mt5_connect_attempts st)

  pub Blind-account_info : Blind {F = F} {T = T} account_info
  unfolding account_info
  Blind-account_info = Blind-call_sdk none sdk.account_info

  pub Blind-ensure_symbol : (symbol : String) → Blind {F = F} {T = T} (ensure_symbol symbol)
  unfolding ensure_symbol gets ask pure ◌>>=◌
  Blind-ensure_symbol symbol = record { at = λ s db. ground arith }

  pub Blind-symbol_info_tick : (symbol : String) → Blind {F = F} {T = T} (symbol_info_tick symbol)
  unfolding symbol_info_tick
  Blind-symbol_info_tick symbol = Blind-call_sdk none (sdk.symbol_info_tick symbol)

  pub Blind-server_time : (symbol : String) → Blind {F = F} {T = T} (server_time symbol)
  unfolding server_time
  Blind-server_time symbol = Blind-bind (Blind-symbol_info_tick symbol) λ t. Blind-pure _

  pub Blind-positions_get : Blind {F = F} {T = T} positions_get
  unfolding positions_get
  Blind-positions_get = Blind-call_sdk none sdk.positions_get

  Blind-order_calc_profit :
      (o : ℕ) (symbol : String) (v p q : F)
      → Blind {F = F} {T = T} (order_calc_profit o symbol v p q)
  unfolding order_calc_profit
  Blind-order_calc_profit o symbol v p q =
      Blind-call_sdk none (sdk.order_calc_profit o symbol v p q)

  pub Blind-order_check : (r : Request F) → Blind {F = F} {T = T} (order_check r)
  unfolding order_check gets note ask pure ◌>>=◌
  Blind-order_check r = record { at = λ s db. ground arith }

  pub Blind-order_send : (r : Request F) → Blind {F = F} {T = T} (order_send r)
  unfolding order_send gets note ask pure ◌>>=◌
  Blind-order_send r = record { at = λ s db. ground arith }

module _ {F T : Type 0} ⦃float : Float F⦄ ⦃sdk : Sdk F T⦄ where
  Blind-size_by_risk :
      (equity risk per_lot vmin vmax step : F)
      → Blind {F = F} {T = T} (size_by_risk equity risk per_lot vmin vmax step)
  unfolding size_by_risk or_raise pure ◌>>=◌
  Blind-size_by_risk equity risk per_lot vmin vmax step = record { at = λ s db. ground arith }

  Blind-size_by_loss :
      (equity risk vmin vmax step : F) (loss : Option F)
      → Blind {F = F} {T = T} (size_by_loss equity risk vmin vmax step loss)
  Blind-size_by_loss equity risk vmin vmax step none = Blind-pure _
  Blind-size_by_loss equity risk vmin vmax step (some loss) =
      Blind-size_by_risk equity risk _ vmin vmax step

  Blind-size_with_stop :
      (symbol : String) (action : SignalAction) (entry stop : F) (equity risk vmin vmax step : F)
      → Blind {F = F} {T = T} (size_with_stop symbol action entry stop equity risk vmin vmax step)
  unfolding size_with_stop
  Blind-size_with_stop symbol action entry stop equity risk vmin vmax step =
      Blind-if (float.le stop (number 0)) (pure (refused invalid_price))
        (order_calc_profit (order_type action) symbol (number 1) entry stop
          >>= size_by_loss equity risk vmin vmax step)
        (Blind-pure _)
        (Blind-bind (Blind-order_calc_profit _ symbol _ entry stop)
          λ loss. Blind-size_by_loss equity risk vmin vmax step loss)

  pub Blind-calculate_risk_based_volume :
      (symbol : String) (action : SignalAction) (entry : F) (stop : Option F)
      (equity risk vmin vmax step : F)
      → Blind {F = F} {T = T}
          (calculate_risk_based_volume symbol action entry stop equity risk vmin vmax step)
  unfolding calculate_risk_based_volume
  Blind-calculate_risk_based_volume symbol action entry stop equity risk vmin vmax step =
      Blind-if (float.le entry (number 0)) (pure (refused invalid_price))
        (or_raise type_error stop >>= λ s.
          size_with_stop symbol action entry s equity risk vmin vmax step)
        (Blind-pure _)
        (Blind-bind (Blind-or_raise type_error stop)
          λ s. Blind-size_with_stop symbol action entry s equity risk vmin vmax step)
