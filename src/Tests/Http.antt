-- ===== src/Tests/Http.antt =====
-- The theorems about the settings and the API at concrete inputs.
use mt5_execution_bridge.Prelude.{
  ℕ, ◌≤◌, ◌<◌, String, Bool, false, true, Option, none, some, List, ◌∷◌, [], ◌≡◌, ◌↔◌, refl, All,
  length,
}
use mt5_execution_bridge.Float.{pos}
use mt5_execution_bridge.Services.Text.{codes, decimal}
use mt5_execution_bridge.Storage.{Timestamp, aware}
use mt5_execution_bridge.Config.Validation.{Fields, validate_settings}
use mt5_execution_bridge.Config.Accepted as Settings
use mt5_execution_bridge.Exec.{ok, raised}
use mt5_execution_bridge.Outside.{value_error}
use mt5_execution_bridge.Api.Response.{http_error}
use mt5_execution_bridge.Api.Signals.{SignalFields, matches_safe_id, signal_create, post_signal}
use mt5_execution_bridge.Api.Identifiers.{IsSafe, EndsAs, matches_safe_id-lem}
use mt5_execution_bridge.Api.Accepted.{Verdict, signal_create-Verdict}
use mt5_execution_bridge.Api.Client.{SignalArguments, rstrip_slash}
use mt5_execution_bridge.Api.Client.BaseUrl.{Stripped, rstrip_slash-Stripped}
use mt5_execution_bridge.Api.Snapshots.{
  account_fields, position_fields, order_fields, account, positions, orders,
}
use mt5_execution_bridge.Api.ReadOnly.{get_positions, after_request, after_request-same}
use mt5_execution_bridge.Api.Shown.{Gives, Shows, ShowsEach, endpoints-Gives}
use mt5_execution_bridge.Api.Application.{dispatch, max_request_body_bytes}
use mt5_execution_bridge.Api.Limit.{dispatch-decimal}
use mt5_execution_bridge.Tests.Fixed.{Fixed, fixed_float}
use mt5_execution_bridge.Tests.Fake.{Fake, fake_sdk, fake_host, arrival, price, live, start}

-- .env with live execution on.
abbrev env_fields : Fields Fixed
env_fields = record {
  environment = "production";
  host = "127.0.0.1";
  port = pos 8200;
  dry_run = false;
  live_execution_enabled = true;
  database_path = "./data/bridge.db";
  mt5_terminal_path = "";
  mt5_login = " 12345 ";
  mt5_password = "";
  mt5_server = "VSCapital-Demo";
  magic_number = pos 881100;
  max_risk_percent = price 1 0;
  max_daily_loss_percent = price 3 0;
  max_open_positions = pos 3;
  max_trades_per_day = pos 5;
  max_spread_points = pos 30;
  require_stop_loss = true;
  allow_market_buy = true;
  allow_market_sell = true;
  max_signal_age_seconds = pos 60;
  symbol_map_path = "./examples/symbol-map.example.json";
  allow_remote_binding = false;
}

-- No character beyond ASCII is called a digit.
abbrev no_other : ℕ → Bool
no_other _ = false

validate_settings-Verdict_example :
    Settings.Verdict no_other env_fields (validate_settings no_other env_fields)
validate_settings-Verdict_example = Settings.validate_settings-Verdict no_other env_fields

-- The body of a request, with the action in small letters.
abbrev pub body : SignalFields Fixed
body = record {
  signal_id = "s1";
  timestamp = aware arrival;
  symbol = "EURUSD";
  action = " buy";
  risk_percent = price 5 1;
  stop_loss = some (price 10850 4);
  take_profit = some (price 10950 4);
  strategy = none;
  comment = none;
}

signal_create-Verdict_example : Verdict body (signal_create body)
signal_create-Verdict_example = signal_create-Verdict body

-- An identifier with a newline behind.
matches_safe_id-lem_example :
    (matches_safe_id (b's' ∷ b'1' ∷ 10 ∷ []) ≡ true)
    ↔ ((c : ℕ) × (ids : List ℕ) × All IsSafe (c ∷ ids) × EndsAs (b's' ∷ b'1' ∷ 10 ∷ []) (c ∷ ids))
matches_safe_id-lem_example = matches_safe_id-lem (b's' ∷ b'1' ∷ 10 ∷ [])

abbrev arguments : SignalArguments Fixed
arguments = record {
  signal_id = "s1";
  symbol = "EURUSD";
  action = " buy";
  risk_percent = price 5 1;
  stop_loss = price 10850 4;
  take_profit = some (price 10950 4);
  strategy = none;
  comment = none;
  timestamp = none;
}

abbrev read_as_arrival : String → Option Timestamp
read_as_arrival _ = some (aware arrival)

after_request-same_example :
    ((after_request live get_positions start).db ≡ start.db)
    × ((after_request live get_positions start).journal ≡ start.journal)
after_request-same_example = after_request-same live get_positions start

endpoints-Gives_example :
    Gives {T = Fake} (account live) (Shows account_fields)
    × Gives {T = Fake} (positions live) (ShowsEach position_fields)
    × Gives {T = Fake} (orders live) (ShowsEach order_fields)
endpoints-Gives_example = endpoints-Gives live

dispatch-decimal_example :
    (dispatch none (post_signal body) start ≡ post_signal body start)
    × (400 ≤ max_request_body_bytes
        → dispatch (some (decimal 400)) (post_signal body) start ≡ post_signal body start)
    × (max_request_body_bytes < 400
        → length (codes (decimal 400)) ≤ 4300
        → dispatch (some (decimal 400)) (post_signal body) start ≡ (ok (http_error 413), start))
    × (4300 < length (codes (decimal 400))
        → dispatch (some (decimal 400)) (post_signal body) start ≡ (raised value_error, start))
dispatch-decimal_example = dispatch-decimal (post_signal body) start 400

rstrip_slash-Stripped_example : Stripped "http://host/api//" (rstrip_slash "http://host/api//")
rstrip_slash-Stripped_example = rstrip_slash-Stripped "http://host/api//"

rstrips : rstrip_slash "http://host/api//" ≡ "http://host/api"
unfolding rstrip_slash
rstrips = refl
