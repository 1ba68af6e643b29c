-- ===== src/Outside.antt =====
-- What the bridge calls and does not implement, as interfaces over a state `T` of the outside
-- world: the MetaTrader5 package (the Protocol `MT5Module` of app/services/mt5_gateway.py) and the
-- host: its clock, whether SQLite completes a transaction, and SHA-256. Every call may change the
-- outside and may fail instead of answering, also by the death of the process.
use mt5_execution_bridge.Prelude.{ℕ, String, Bool, Option, List}
use mt5_execution_bridge.Float.{ℤ}

-- Why code did not go on: an exception, or the end of the process.
pub data Failure : Type 0 where
  type_error value_error overflow_error integrity_error outside_error killed : Failure

pub data Answer (A : Type 0) : Type 0 where
  answer : A → Answer A
  failure : Failure → Answer A

abbrev pub Call : Type 0 → Type 0 → Type 0
Call T A = T → Answer A × T

-- The keyword arguments of `initialize`; what is absent is `none`.
pub record Login : Type 0 where
  pub path : Option String
  pub login : Option ℤ
  pub password : Option String
  pub server : Option String

-- The attributes that the bridge reads. One that it reads by `getattr` with a default may be absent.
-- `attribute` gives those that the API only shows.
module _ (F : Type 0) where
  pub data Attribute : Type 0 where
    real : F → Attribute
    whole : ℤ → Attribute
    string : String → Attribute

  pub record AccountInfo : Type 0 where
    pub server : Option String
    pub login : Option ℕ
    pub equity : F
    pub attribute : String → Option Attribute

  pub record Position : Type 0 where
    pub magic : Option ℕ
    pub attribute : String → Option Attribute

  pub record Order : Type 0 where
    pub attribute : String → Option Attribute

  pub record SymbolInfo : Type 0 where
    pub visible : Option Bool
    pub point : Option F
    pub volume_min : Option F
    pub volume_max : Option F
    pub volume_step : Option F
    pub filling_mode : Option ℕ

  -- `time` is in seconds since 1970; `none` is a value that `fromtimestamp` cannot read.
  pub record Tick : Type 0 where
    pub bid : F
    pub ask : F
    pub time : Option ℕ

  pub record Request : Type 0 where
    pub action : ℕ
    pub symbol : String
    pub volume : F
    pub order_type : ℕ
    pub price : F
    pub deviation : ℕ
    pub magic : ℕ
    pub comment : String
    pub type_time : ℕ
    pub type_filling : ℕ
    pub sl : Option F
    pub tp : Option F

  pub record SendResult : Type 0 where
    pub retcode : Option ℕ
    pub comment : Option String
    pub order : Option ℕ
    pub deal : Option ℕ
    pub volume : Option F
    pub price : Option F

pub record CheckResult : Type 0 where
  pub retcode : Option ℕ
  pub comment : Option String

pub record Deal : Type 0 where
  pub comment : Option String

pub record Sdk (F T : Type 0) : Type 0 where
  pub initialize : Login → Call T Bool
  pub shutdown : Call T (Unit {0})
  pub last_error : Call T (Unit {0})
  pub account_info : Call T (Option (AccountInfo F))
  pub symbol_info : String → Call T (Option (SymbolInfo F))
  pub symbol_select : String → Bool → Call T Bool
  pub symbol_info_tick : String → Call T (Option (Tick F))
  pub positions_get : Call T (Option (List (Position F)))
  pub orders_get : Call T (Option (List (Order F)))
  pub history_deals_get : ℕ → ℕ → Call T (Option (List Deal))
  pub order_calc_profit : ℕ → String → F → F → F → Call T (Option F)
  pub order_check : Request F → Call T (Option CheckResult)
  pub order_send : Request F → Call T (Option (SendResult F))
  pub trade_action_deal : ℕ
  pub order_time_gtc : ℕ
  pub order_filling_fok : ℕ
  pub order_filling_ioc : ℕ
  pub order_filling_return : ℕ

pub record Host (T : Type 0) : Type 0 where
  -- `datetime.now(UTC)`
  pub utc_now : Call T ℕ
  -- one SQLite statement or transaction: it completes, or raises and changes nothing
  pub storage : Call T (Unit {0})
  -- `hashlib.sha256(text.encode("utf-8")).hexdigest()`
  pub sha256_hex : String → String
