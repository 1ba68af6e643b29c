-- ===== src/Api/Snapshots.antt =====
-- app/api/account.py, app/api/status.py, app/api/health.py, and the read-only queries of
-- app/services/execution_service.py that they show.
use mt5_execution_bridge.Prelude.{
  String, Bool, Option, none, some, List, [], ◌∷◌, map, if◌then◌else◌,
}
use mt5_execution_bridge.Config.{Settings}
use mt5_execution_bridge.Outside.{AccountInfo, Attribute, Position, Order, Sdk}
use mt5_execution_bridge.Exec.{Exec, pure, ◌>>=◌}
use mt5_execution_bridge.Gateway.{connected, account_info, positions_get, orders_get}
use mt5_execution_bridge.Execution.Common.{ensure_connected}
use mt5_execution_bridge.Api.Response.{Response, success, http_error}

-- `_ACCOUNT_FIELDS`, `_POSITION_FIELDS` and `_ORDER_FIELDS`
abbrev pub account_fields : List String
account_fields =
    "balance" ∷ "equity" ∷ "margin" ∷ "margin_free" ∷ "margin_level" ∷ "profit" ∷ "currency" ∷ []

abbrev pub position_fields : List String
position_fields =
    "ticket" ∷ "symbol" ∷ "type" ∷ "volume" ∷ "price_open" ∷ "price_current" ∷ "sl" ∷ "tp"
    ∷ "profit" ∷ "swap" ∷ "magic" ∷ "time" ∷ []

abbrev pub order_fields : List String
order_fields =
    "ticket" ∷ "symbol" ∷ "type" ∷ "volume_current" ∷ "price_open" ∷ "sl" ∷ "tp" ∷ "magic"
    ∷ "time_setup" ∷ []

-- `if snapshot is None: raise HTTPException(503)`
abbrev pub connected_or_503 : {A : Type 0} → Option A → Response A
connected_or_503 none = http_error 503
connected_or_503 (some a) = success a

module _ (F : Type 0) where
  -- The dictionary of a snapshot; an attribute that is missing has the value `none`.
  abbrev pub Snapshot : Type 0
  Snapshot = List (String × Option (Attribute F))

module _ {F : Type 0} where
  -- `{field: getattr(item, field, None) for field in fields}`
  abbrev pub snapshot_of : List String → (String → Option (Attribute F)) → Snapshot F
  snapshot_of fields attribute = map (λ field. (field, attribute field)) fields

  -- `if account is None: return None`
  abbrev pub account_shown : Option (AccountInfo F) → Option (Snapshot F)
  account_shown none = none
  account_shown (some account) = some (snapshot_of account_fields account.attribute)

  abbrev pub positions_shown : Option (List (Position F)) → Option (List (Snapshot F))
  positions_shown none = none
  positions_shown (some items) =
      some (map (λ (item : Position F). snapshot_of position_fields item.attribute) items)

  abbrev pub orders_shown : Option (List (Order F)) → Option (List (Snapshot F))
  orders_shown none = none
  orders_shown (some items) =
      some (map (λ (item : Order F). snapshot_of order_fields item.attribute) items)

-- GET /api/status; whether the worker runs is the flag of `ExecutionWorker`.
pub record StatusResponse : Type 0 where
  pub service : String
  pub version : String
  pub environment : String
  pub dry_run : Bool
  pub live_execution_enabled : Bool
  pub mt5_connected : Bool
  pub worker_running : Bool

abbrev pub version : String
version = "0.1.0"

-- GET /health
abbrev pub health : List (String × String)
health = ("status", "ok") ∷ []

module _ {F T : Type 0} ⦃sdk : Sdk F T⦄ where
  unfoldable pub account_snapshot : Settings F → Exec F T (Option (Snapshot F))
  account_snapshot settings = do
    up ← ensure_connected settings
    if up then (do found ← account_info; pure (account_shown found)) else pure none

  unfoldable pub positions_snapshot : Settings F → Exec F T (Option (List (Snapshot F)))
  positions_snapshot settings = do
    up ← ensure_connected settings
    if up then (do found ← positions_get; pure (positions_shown found)) else pure none

  unfoldable pub orders_snapshot : Settings F → Exec F T (Option (List (Snapshot F)))
  orders_snapshot settings = do
    up ← ensure_connected settings
    if up then (do found ← orders_get; pure (orders_shown found)) else pure none

  -- GET /api/account, /api/positions and /api/orders
  unfoldable pub account : Settings F → Exec F T (Response (Snapshot F))
  account settings = do snapshot ← account_snapshot settings; pure (connected_or_503 snapshot)

  unfoldable pub positions : Settings F → Exec F T (Response (List (Snapshot F)))
  positions settings = do snapshot ← positions_snapshot settings; pure (connected_or_503 snapshot)

  unfoldable pub orders : Settings F → Exec F T (Response (List (Snapshot F)))
  orders settings = do snapshot ← orders_snapshot settings; pure (connected_or_503 snapshot)

  unfoldable pub status : Settings F → Bool → Exec F T StatusResponse
  status settings worker_running = do
    up ← connected
    pure (record {
      service = "MT5 Execution Bridge";
      version = version;
      environment = settings.environment;
      dry_run = settings.dry_run;
      live_execution_enabled = settings.live_execution_enabled;
      mt5_connected = up;
      worker_running = worker_running;
    })
