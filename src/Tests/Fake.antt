-- ===== src/Tests/Fake.antt =====
-- A terminal and a host with scripted answers, after tests/fixtures/fake_mt5.py. The state of the
-- outside is the script.
use mt5_execution_bridge.Prelude.{ℕ, Bool, true, false, Option, none, some, List, [], ◌∷◌}
use mt5_execution_bridge.Models.{buy}
use mt5_execution_bridge.Storage.{aware, empty_database}
use mt5_execution_bridge.Storage.Signals.{NewSignal}
use mt5_execution_bridge.Services.SymbolMapper.{SymbolMapper}
use mt5_execution_bridge.Config.{Settings}
use mt5_execution_bridge.Outside.{
  answer, Call, AccountInfo, SymbolInfo, Tick, CheckResult, SendResult, Position, Order, Deal, Sdk,
  Host,
}
use mt5_execution_bridge.Exec.{Bridge}
use mt5_execution_bridge.Int.{negsuc}
use mt5_execution_bridge.Tests.Fixed.{Fixed, fixed, fixed_float}

pub record Fake : Type 0 where
  pub clock : ℕ
  pub connect_ok : Bool
  pub account : Option (AccountInfo Fixed)
  pub symbol : Option (SymbolInfo Fixed)
  pub tick : Option (Tick Fixed)
  pub positions : Option (List (Position Fixed))
  pub orders : Option (List (Order Fixed))
  pub deals : List Deal
  pub calc_profit : Option Fixed
  pub check_result : Option CheckResult
  pub send_result : Option (SendResult Fixed)

abbrev scripted : {A : Type 0} → (Fake → A) → Call Fake A
scripted f t = (answer (f t), t)

instance abbrev pub fake_sdk : Sdk Fixed Fake
fake_sdk = record {
  initialize = λ _. scripted (λ t. t.connect_ok);
  shutdown = scripted (λ _. tt);
  last_error = scripted (λ _. tt);
  account_info = scripted (λ t. t.account);
  symbol_info = λ _. scripted (λ t. t.symbol);
  symbol_select = λ _ _. scripted (λ _. true);
  symbol_info_tick = λ _. scripted (λ t. t.tick);
  positions_get = scripted (λ t. t.positions);
  orders_get = scripted (λ t. t.orders);
  history_deals_get = λ _ _. scripted (λ t. some t.deals);
  order_calc_profit = λ _ _ _ _ _. scripted (λ t. t.calc_profit);
  order_check = λ _. scripted (λ t. t.check_result);
  order_send = λ _. scripted (λ t. t.send_result);
  trade_action_deal = 1;
  order_time_gtc = 0;
  order_filling_fok = 0;
  order_filling_ioc = 1;
  order_filling_return = 2;
}

-- The hash of a text is stood in for by the text itself.
instance abbrev pub fake_host : Host Fake
fake_host = record {
  utc_now = scripted (λ t. t.clock);
  storage = scripted (λ _. tt);
  sha256_hex = λ s. s;
}

abbrev pub price : ℕ → ℕ → Fixed
price n k = fixed_float.decimal n k

-- 2026-09-06T03:15:00Z
abbrev pub arrival : ℕ
arrival = 63_924_261_300_000_000

-- tests/fixtures/fake_mt5.py: equity 10000, a loss of 100 for one lot, and a fill.
abbrev pub fake : Fake
fake = record {
  clock = arrival;
  connect_ok = true;
  account = some (record {
    server = some "VSCapital-Demo";
    login = some 12345;
    equity = price 10000 0;
    attribute = λ _. none;
  });
  symbol = some (record {
    visible = some true;
    point = some (price 1 4);
    volume_min = some (price 1 2);
    volume_max = some (price 100 0);
    volume_step = some (price 1 2);
    filling_mode = some 2;
  });
  tick = some (record { bid = price 10900 4; ask = price 10901 4; time = some 1_788_664_500 });
  positions = some [];
  orders = some [];
  deals = [];
  calc_profit = some (fixed (negsuc 9_999_999_999));
  check_result = some (record { retcode = some 10009; comment = some "check" });
  send_result = some (record {
    retcode = some 10009;
    comment = some "send";
    order = some 555;
    deal = some 777;
    volume = none;
    price = none;
  });
}

-- app/config.py, with live execution on.
abbrev pub live : Settings Fixed
live = record {
  environment = "development";
  host = "127.0.0.1";
  port = 8200;
  dry_run = false;
  live_execution_enabled = true;
  database_path = "./data/bridge.db";
  mt5_terminal_path = "";
  mt5_login = "12345";
  mt5_password = "";
  mt5_server = "VSCapital-Demo";
  magic_number = 881100;
  max_risk_percent = price 1 0;
  max_daily_loss_percent = price 3 0;
  max_open_positions = 3;
  max_trades_per_day = 5;
  max_spread_points = 30;
  require_stop_loss = true;
  allow_market_buy = true;
  allow_market_sell = true;
  max_signal_age_seconds = 60;
  symbol_map_path = "./examples/symbol-map.example.json";
  allow_remote_binding = false;
}

abbrev pub symbols : SymbolMapper
symbols = ("EURUSD", "EURUSD.r") ∷ []

abbrev pub signal : NewSignal Fixed
signal = record {
  signal_id = "s1";
  timestamp = aware arrival;
  symbol = "EURUSD";
  action = buy;
  risk_percent = price 5 1;
  stop_loss = some (price 10850 4);
  take_profit = some (price 10950 4);
  strategy = none;
  comment = none;
}

abbrev pub start : Bridge Fixed Fake
start = record {
  db = empty_database Fixed;
  gateway = record { available = true; is_connected = false };
  outside = fake;
  journal = [];
}
