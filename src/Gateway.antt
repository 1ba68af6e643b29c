-- ===== src/Gateway.antt =====
-- app/services/mt5_gateway.py: `MT5Gateway`, method by method.
use mt5_execution_bridge.Prelude.{
  ℕ, ◌+◌, ◌*◌, String, Bool, true, false, not, ◌&&◌, ◌||◌, Option, none, some, List, [], ltb,
  is_none, get_or, if◌then◌else◌,
}
use mt5_execution_bridge.Float.{ℤ, pos}
use mt5_execution_bridge.Outside.{
  Call, Login, AccountInfo, SymbolInfo, Tick, Request, CheckResult, SendResult, Position, Order,
  Deal, Sdk, killed, answer, failure,
}
use mt5_execution_bridge.Exec.{
  Exec, pure, gets, ask, modify_gateway, note, checked, sent, ◌>>=◌, ◌>>◌,
}

-- `if login:`
abbrev pub nonzero : Option ℤ → Option ℤ
nonzero none = none
nonzero (some (pos ℕ.zero)) = none
nonzero (some n) = some n

-- `fromtimestamp(seconds, tz=UTC)`, past 9999-12-31 an exception: `none`.
abbrev pub epoch_seconds : ℕ
epoch_seconds = 62_135_596_800

abbrev pub max_timestamp : ℕ
max_timestamp = 253_402_300_799

abbrev pub from_timestamp : Option ℕ → Option ℕ
from_timestamp none = none
from_timestamp (some t) =
    if ltb max_timestamp t then none else some ((epoch_seconds + t) * 1_000_000)

abbrev pub tick_time : {F : Type 0} → Option (Tick F) → Option ℕ
tick_time none = none
tick_time (some t) = from_timestamp t.time

abbrev pub list_of : {A : Type 0} → Option (List A) → List A
list_of none = []
list_of (some xs) = xs

-- `try ... except Exception: return None`: only the end of the process goes on.
abbrev pub swallow : {T : Type 0} → Call T (Unit {0}) → Call T (Unit {0})
swallow c t =
    let (a, t') = c t in
    elim a [
      | answer _ ↦ (answer tt, t')
      | failure killed ↦ (failure killed, t')
      | failure _ ↦ (answer tt, t')
    ]

-- `info is not None and getattr(info, "visible", True)`
abbrev pub is_usable : {F : Type 0} → Option (SymbolInfo F) → Bool
is_usable none = false
is_usable (some info) = get_or info.visible true

-- `... if self._mt5 else default`
unfoldable pub call_sdk : {F T A : Type 0} → A → Call T A → Exec F T A
unfolding ask pure
call_sdk d c s = if s.gateway.available then ask c s else pure d s

module _ {F T : Type 0} ⦃sdk : Sdk F T⦄ where
  -- The property `connected`.
  unfoldable pub connected : Exec F T Bool
  unfolding gets pure modify_gateway ask
  connected = do
    g ← gets (λ s. s.gateway)
    if not g.is_connected || not g.available then pure false else do
      info ← ask sdk.account_info
      if not (is_none info)
          then pure true
          else do modify_gateway (λ g. record g { is_connected = false }); pure false

  unfoldable pub last_error : Exec F T (Unit {0})
  last_error = call_sdk tt (swallow sdk.last_error)

  unfoldable pub initialize : Login → Exec F T Bool
  initialize l = do
    available ← gets (λ s. s.gateway.available)
    if not available then pure false else do
      up ← ask (sdk.initialize (record l { login = nonzero l.login }))
      modify_gateway (λ g. record g { is_connected = up })
      if up then pure true else do last_error; pure false

  unfoldable pub shutdown : Exec F T (Unit {0})
  shutdown = do
    g ← gets (λ s. s.gateway)
    if g.available && g.is_connected then ask sdk.shutdown else pure tt
    modify_gateway (λ g. record g { is_connected = false })

  unfoldable pub account_info : Exec F T (Option (AccountInfo F))
  account_info = call_sdk none sdk.account_info

  unfoldable pub symbol_info : String → Exec F T (Option (SymbolInfo F))
  symbol_info symbol = call_sdk none (sdk.symbol_info symbol)

  unfoldable pub ensure_symbol : String → Exec F T (Option (SymbolInfo F))
  ensure_symbol symbol = do
    available ← gets (λ s. s.gateway.available)
    if not available then pure none else do
      info ← ask (sdk.symbol_info symbol)
      if is_usable info then pure info else do
        selected ← ask (sdk.symbol_select symbol true)
        if not selected then pure none else ask (sdk.symbol_info symbol)

  unfoldable pub symbol_info_tick : String → Exec F T (Option (Tick F))
  symbol_info_tick symbol = call_sdk none (sdk.symbol_info_tick symbol)

  -- Broker time, from a tick of its own.
  unfoldable pub server_time : String → Exec F T (Option ℕ)
  server_time symbol = do tick ← symbol_info_tick symbol; pure (tick_time tick)

  unfoldable pub positions_get : Exec F T (Option (List (Position F)))
  positions_get = call_sdk none sdk.positions_get

  unfoldable pub orders_get : Exec F T (Option (List (Order F)))
  orders_get = call_sdk none sdk.orders_get

  unfoldable pub history_deals_get : ℕ → ℕ → Exec F T (List Deal)
  history_deals_get date_from date_to = do
    result ← call_sdk none (sdk.history_deals_get date_from date_to)
    pure (list_of result)

  unfoldable pub order_calc_profit : ℕ → String → F → F → F → Exec F T (Option F)
  order_calc_profit order_type symbol volume price_open price_close =
      call_sdk none (sdk.order_calc_profit order_type symbol volume price_open price_close)

  unfoldable pub order_check : Request F → Exec F T (Option CheckResult)
  order_check request = do
    available ← gets (λ s. s.gateway.available)
    if not available then pure none else do note (checked request); ask (sdk.order_check request)

  unfoldable pub order_send : Request F → Exec F T (Option (SendResult F))
  order_send request = do
    available ← gets (λ s. s.gateway.available)
    if not available then pure none else do note (sent request); ask (sdk.order_send request)
