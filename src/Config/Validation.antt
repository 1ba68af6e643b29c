-- ===== src/Config/Validation.antt =====
-- app/config.py: the bounds of the fields and the two validators. The fields are what pydantic has
-- read from the environment: an int is any integer here, and a float may be infinite or NaN.
use mt5_execution_bridge.Prelude.{
  ℕ, String, str_eq, Bool, true, false, not, ◌&&◌, ◌||◌, Option, none, some, List, [], ◌∷◌, leb,
  ltb, is_none, if◌then◌else◌,
}
use mt5_execution_bridge.Int.{ℤ, pos, negsuc, pos_part}
use mt5_execution_bridge.Float.{Float}
use mt5_execution_bridge.Config.{Settings}
use mt5_execution_bridge.Services.Text.{codes, strip, is_digit}

pub record Fields (F : Type 0) : Type 0 where
  pub environment : String
  pub host : String
  pub port : ℤ
  pub dry_run : Bool
  pub live_execution_enabled : Bool
  pub database_path : String
  pub mt5_terminal_path : String
  pub mt5_login : String
  pub mt5_password : String
  pub mt5_server : String
  pub magic_number : ℤ
  pub max_risk_percent : F
  pub max_daily_loss_percent : F
  pub max_open_positions : ℤ
  pub max_trades_per_day : ℤ
  pub max_spread_points : ℤ
  pub require_stop_loss : Bool
  pub allow_market_buy : Bool
  pub allow_market_sell : Bool
  pub max_signal_age_seconds : ℤ
  pub symbol_map_path : String
  pub allow_remote_binding : Bool

-- Why the settings are refused.
pub data Invalid : Type 0 where
  field_out_of_bounds remote_binding server_missing login_missing login_not_numeric : Invalid

pub data Validated (F : Type 0) : Type 0 where
  valid : Settings F → Validated F
  invalid : Invalid → Validated F

-- `ge=n`
abbrev pub is_at_least : ℕ → ℤ → Bool
is_at_least n (pos m) = leb n m
is_at_least n (negsuc _) = false

-- `str.isdigit` of a text. Beyond ASCII, the characters that Unicode calls digits are those that
-- `other_digit` accepts.
abbrev pub all_digits : (ℕ → Bool) → List ℕ → Bool
all_digits other_digit [] = true
all_digits other_digit (c ∷ cs) =
    (if ltb c 128 then is_digit c else other_digit c) && all_digits other_digit cs

abbrev pub isdigit : (ℕ → Bool) → List ℕ → Bool
isdigit other_digit [] = false
isdigit other_digit (c ∷ cs) = all_digits other_digit (c ∷ cs)

abbrev pub is_empty : List ℕ → Bool
is_empty [] = true
is_empty (_ ∷ _) = false

-- `{"127.0.0.1", "localhost", "::1"}`
abbrev pub is_loopback : String → Bool
is_loopback host = str_eq host "127.0.0.1" || str_eq host "localhost" || str_eq host "::1"

module _ {F : Type 0} where
  -- The settings that have the fields' values, once these are within their bounds.
  abbrev pub settings_of : Fields F → Settings F
  settings_of f = record {
    environment = f.environment;
    host = f.host;
    port = pos_part f.port;
    dry_run = f.dry_run;
    live_execution_enabled = f.live_execution_enabled;
    database_path = f.database_path;
    mt5_terminal_path = f.mt5_terminal_path;
    mt5_login = f.mt5_login;
    mt5_password = f.mt5_password;
    mt5_server = f.mt5_server;
    magic_number = pos_part f.magic_number;
    max_risk_percent = f.max_risk_percent;
    max_daily_loss_percent = f.max_daily_loss_percent;
    max_open_positions = pos_part f.max_open_positions;
    max_trades_per_day = pos_part f.max_trades_per_day;
    max_spread_points = pos_part f.max_spread_points;
    require_stop_loss = f.require_stop_loss;
    allow_market_buy = f.allow_market_buy;
    allow_market_sell = f.allow_market_sell;
    max_signal_age_seconds = pos_part f.max_signal_age_seconds;
    symbol_map_path = f.symbol_map_path;
    allow_remote_binding = f.allow_remote_binding;
  }

  -- `_enforce_local_binding`
  unfoldable pub enforce_local_binding : Settings F → Option Invalid
  enforce_local_binding s =
      if not (is_loopback s.host) && not s.allow_remote_binding then some remote_binding else none

  -- `_validate_live_execution_config`
  unfoldable pub validate_live_execution_config : (ℕ → Bool) → Settings F → Option Invalid
  validate_live_execution_config other_digit s =
      if s.dry_run || not s.live_execution_enabled
      then none
      else if is_empty (strip (codes s.mt5_server))
      then some server_missing
      else if is_empty (strip (codes s.mt5_login))
      then some login_missing
      else if not (isdigit other_digit (strip (codes s.mt5_login)))
      then some login_not_numeric
      else none

  -- The validators after one another; the first that raises refuses the settings.
  abbrev pub unless_invalid : Option Invalid → Validated F → Validated F
  unless_invalid none v = v
  unless_invalid (some why) v = invalid why

module _ {F : Type 0} ⦃float : Float F⦄ where
  -- `gt=0, le=100, allow_inf_nan=False`: `math.floor` raises exactly at NaN and the infinities.
  abbrev pub is_percent : F → Bool
  is_percent x =
      float.lt (float.decimal 0 0) x
      && float.le x (float.decimal 100 0)
      && not (is_none (float.floor x))

  -- The `Field(...)` bounds.
  unfoldable pub in_bounds : Fields F → Bool
  in_bounds f =
      is_at_least 1 f.port
      && leb (pos_part f.port) 65535
      && is_at_least 0 f.magic_number
      && is_percent f.max_risk_percent
      && is_percent f.max_daily_loss_percent
      && is_at_least 1 f.max_open_positions
      && is_at_least 1 f.max_trades_per_day
      && is_at_least 1 f.max_spread_points
      && is_at_least 1 f.max_signal_age_seconds

  -- `Settings()`
  unfoldable pub validate_settings : (ℕ → Bool) → Fields F → Validated F
  unfolding in_bounds enforce_local_binding validate_live_execution_config
  validate_settings other_digit f =
      let s = settings_of f in
      if not (in_bounds f)
      then invalid field_out_of_bounds
      else unless_invalid (enforce_local_binding s)
          (unless_invalid (validate_live_execution_config other_digit s) (valid s))
