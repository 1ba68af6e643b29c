-- ===== src/Config.antt =====
-- app/config.py: the settings. `Validation` is how they are accepted, `Accepted` what that gives.
pub mod Validation
pub mod Accepted
use mt5_execution_bridge.Prelude.{ℕ, String, Bool, not, ◌&&◌}

pub record Settings (F : Type 0) : Type 0 where
  pub environment : String
  pub host : String
  pub port : ℕ
  pub dry_run : Bool
  pub live_execution_enabled : Bool
  pub database_path : String
  pub mt5_terminal_path : String
  pub mt5_login : String
  pub mt5_password : String
  pub mt5_server : String
  pub magic_number : ℕ
  pub max_risk_percent : F
  pub max_daily_loss_percent : F
  pub max_open_positions : ℕ
  pub max_trades_per_day : ℕ
  pub max_spread_points : ℕ
  pub require_stop_loss : Bool
  pub allow_market_buy : Bool
  pub allow_market_sell : Bool
  pub max_signal_age_seconds : ℕ
  pub symbol_map_path : String
  pub allow_remote_binding : Bool

unfoldable pub live_execution_allowed : {F : Type 0} → Settings F → Bool
live_execution_allowed s = not s.dry_run && s.live_execution_enabled
