-- ===== src/Api/ReadOnly.antt =====
-- The GET handlers of app/api.
use mt5_execution_bridge.Prelude.{String, ◌≡◌, refl, Bool, Option, none, if◌then◌else◌}
use mt5_execution_bridge.Config.{Settings}
use mt5_execution_bridge.Outside.{Sdk, Host}
use mt5_execution_bridge.Exec.{Bridge, Exec, pure, ◌>>=◌}
use mt5_execution_bridge.Gateway.{account_info, positions_get, orders_get}
use mt5_execution_bridge.Execution.Common.{ensure_connected}
use mt5_execution_bridge.Execution.Idle.{Idle, Idle-same, Idle-pure, Idle-if, Idle-bind, Idle-query}
use mt5_execution_bridge.Execution.Idle.Calls.{
  Idle-connected, Idle-ensure_connected, Idle-account_info, Idle-positions_get, Idle-orders_get,
}
use mt5_execution_bridge.Storage.Signals.{get_signal}
use mt5_execution_bridge.Worker.{get}
use mt5_execution_bridge.Api.Signals.{show_signal}
use mt5_execution_bridge.Api.Snapshots.{
  account_shown, positions_shown, orders_shown, account_snapshot, positions_snapshot,
  orders_snapshot, account, positions, orders, status,
}

module _ {F T : Type 0} ⦃sdk : Sdk F T⦄ where
  -- A query that is made only where the terminal is connected.
  Idle-when_connected :
      {A B : Type 0} (settings : Settings F) (query : Exec F T A) (shown : A → Option B)
      → Idle query
      → Idle (
          ensure_connected settings >>= λ up.
          if up then (query >>= λ found. pure (shown found)) else pure none)
  Idle-when_connected settings query shown idle = Idle-bind (Idle-ensure_connected settings) λ up.
      Idle-if up (query >>= λ found. pure (shown found)) (pure none)
        (Idle-bind idle λ found. Idle-pure _) (Idle-pure _)

  pub Idle-account : (settings : Settings F) → Idle {T = T} (account settings)
  unfolding account account_snapshot
  Idle-account settings =
      Idle-bind (Idle-when_connected settings account_info account_shown Idle-account_info)
        λ snapshot. Idle-pure _

  pub Idle-positions : (settings : Settings F) → Idle {T = T} (positions settings)
  unfolding positions positions_snapshot
  Idle-positions settings =
      Idle-bind (Idle-when_connected settings positions_get positions_shown Idle-positions_get)
        λ snapshot. Idle-pure _

  pub Idle-orders : (settings : Settings F) → Idle {T = T} (orders settings)
  unfolding orders orders_snapshot
  Idle-orders settings =
      Idle-bind (Idle-when_connected settings orders_get orders_shown Idle-orders_get)
        λ snapshot. Idle-pure _

  pub Idle-status :
      (settings : Settings F) (running : Bool) → Idle {T = T} (status settings running)
  unfolding status
  Idle-status settings running = Idle-bind Idle-connected λ up. Idle-pure _

module _ {F T : Type 0} ⦃host : Host T⦄ where
  pub Idle-show_signal : (i : String) → Idle {F = F} {T = T} (show_signal i)
  unfolding show_signal get
  Idle-show_signal i = Idle-bind (Idle-query (get_signal i)) λ found. Idle-pure _

-- The GET requests, but for /health, which touches nothing.
pub data GetRequest : Type 0 where
  get_account get_positions get_orders : GetRequest
  get_status : Bool → GetRequest
  get_signal_of : String → GetRequest

module _ {F T : Type 0} ⦃sdk : Sdk F T⦄ ⦃host : Host T⦄ (settings : Settings F) where
  -- The state after the request, whether it was answered or failed.
  abbrev pub after_request : GetRequest → Bridge F T → Bridge F T
  after_request get_account s = (account settings s).1
  after_request get_positions s = (positions settings s).1
  after_request get_orders s = (orders settings s).1
  after_request (get_status running) s = (status settings running s).1
  after_request (get_signal_of i) s = (show_signal i s).1

  -- Whatever the terminal and the database answer, a GET request changes no row of the database and
  -- hands no order to the terminal.
  pub after_request-same :
      (q : GetRequest) (s : Bridge F T)
      → ((after_request q s).db ≡ s.db) × ((after_request q s).journal ≡ s.journal)
  after_request-same get_account s = Idle-same (account settings) s (Idle-account settings)
  after_request-same get_positions s = Idle-same (positions settings) s (Idle-positions settings)
  after_request-same get_orders s = Idle-same (orders settings) s (Idle-orders settings)
  after_request-same (get_status running) s =
      Idle-same (status settings running) s (Idle-status settings running)
  after_request-same (get_signal_of i) s = Idle-same (show_signal i) s (Idle-show_signal i)

module _ {F T : Type 0} where
  pub drifted :
      (s s' : Bridge F T)
      → s'.db ≡ s.db
      → s'.journal ≡ s.journal
      → record s { gateway = s'.gateway; outside = s'.outside } ≡ s'
  drifted s s' e e' = rw (← e, ← e') refl
