-- ===== src/Execution/Quiet/Checks.antt =====
-- The steps of `process_signal` up to the risk percent, as quiet actions, with what each has
-- established when the run goes on.
use mt5_execution_bridge.Prelude.{
  ℕ, String, ◌≡◌, refl, Bool, not, ◌&&◌, Option, none, some, List, arith, get_or, if◌then◌else◌,
}
use mt5_execution_bridge.Float.{Float}
use mt5_execution_bridge.Models.{
  SignalAction, rejected_risk, rejected_symbol, rejected_symbol_unavailable, failed_mt5_unavailable,
  failed_broker_time_unknown, text,
}
use mt5_execution_bridge.Storage.{Timestamp}
use mt5_execution_bridge.Storage.Signals.{get_signal}
use mt5_execution_bridge.Storage.Baselines.{set_daily_loss_baseline}
use mt5_execution_bridge.Services.SymbolMapper.{SymbolMapper, resolve}
use mt5_execution_bridge.Services.Risk.{
  passed, is_buy, is_sell, number, check_freshness, check_stop_loss, check_spread,
  check_daily_trade_limit, check_position_limit, check_daily_loss, check_risk_percent,
}
use mt5_execution_bridge.Outside.{AccountInfo, Position, Sdk, Host}
use mt5_execution_bridge.Exec.{pure}
use mt5_execution_bridge.Execution.Common.{Attempt, account_key_for, reject}
use mt5_execution_bridge.Execution.Admission.{IsEnabled}
use mt5_execution_bridge.Execution.Checks.{
  Account, Market, no_identity, admit, map_symbol, identify_account, read_market, known_positions,
  check_positions, check_daily_trades, check_quote, baseline_or_set, baseline_equity, check_loss,
  check_risk,
}
use mt5_execution_bridge.Execution.Quiet.{
  Watch, Keeps, Quiet, Quiet-pure, Quiet-bind, Quiet-if, Quiet_mono, Quiet-utc_now, Quiet-query,
  Quiet-transaction,
}
use mt5_execution_bridge.Execution.Quiet.Steps.{
  Settles, Quiet-record_fields, Quiet-set_symbol_normalized, Quiet-reject, Quiet-require,
  Quiet-or_reject,
}
use mt5_execution_bridge.Execution.Idle.Calls.{
  Idle-last_error, Idle-ensure_connected, Idle-account_info, Idle-ensure_symbol,
  Idle-symbol_info_tick, Idle-server_time, Idle-positions_get,
}
use mt5_execution_bridge.Execution.Idle.{Quiet-idle}

check_freshness-Settles :
    (F : Type 0) (t : Timestamp) (m n : ℕ) → Settles {F = F} (check_freshness t m n)
unfolding check_freshness
check_freshness-Settles F t m n = ground arith

check_daily_trade_limit-Settles :
    (F : Type 0) (m n : ℕ) → Settles {F = F} (check_daily_trade_limit m n)
unfolding check_daily_trade_limit
check_daily_trade_limit-Settles F m n = ground arith

check_position_limit-Settles : (F : Type 0) (m n : ℕ) → Settles {F = F} (check_position_limit m n)
unfolding check_position_limit
check_position_limit-Settles F m n = ground arith

module _ {F : Type 0} ⦃float : Float F⦄ where
  check_stop_loss-Settles :
      (a : SignalAction) (stop : Option F) (p : F) (b : Bool) → Settles (check_stop_loss a stop p b)
  unfolding check_stop_loss
  check_stop_loss-Settles a stop p b = ground arith

  check_spread-Settles : (a b p : F) (n : ℕ) → Settles (check_spread a b p n)
  unfolding check_spread
  check_spread-Settles a b p n = ground arith

  check_daily_loss-Settles : (a b p : F) → Settles (check_daily_loss a b p)
  unfolding check_daily_loss
  check_daily_loss-Settles a b p = ground arith

  check_risk_percent-Settles : (a b : F) → Settles (check_risk_percent a b)
  unfolding check_risk_percent
  check_risk_percent-Settles a b = ground arith

abbrev pub IsQuoted : {F : Type 0} ⦃float : Float F⦄ → Attempt F → Market F → Type 0
IsQuoted job market =
    (check_stop_loss job.row.action job.row.stop_loss market.price job.settings.require_stop_loss
      ≡ passed)
    × (check_spread market.bid market.ask (get_or market.info.point (number 0))
          job.settings.max_spread_points
        ≡ passed)

module _ {F T : Type 0} ⦃host : Host T⦄ {w : Watch F} where
  pub Quiet-admit : Quiet {T = T} w (admit w.job) (λ _. IsEnabled w.job.settings w.job.row)
  unfolding admit
  Quiet-admit = Quiet-bind Quiet-utc_now λ now _.
      Quiet-bind
        (Quiet-require _ (
          check_freshness-Settles F w.job.row.signal_timestamp w.job.settings.max_signal_age_seconds
            now))
        λ _ _.
          Quiet-if (is_buy w.job.row.action && not w.job.settings.allow_market_buy)
            (reject w.job rejected_risk (text "Market BUY disabled by configuration")) _
            (λ _. Quiet-reject _ _ (refl, refl))
            λ buys.
              Quiet-if (is_sell w.job.row.action && not w.job.settings.allow_market_sell)
                (reject w.job rejected_risk (text "Market SELL disabled by configuration"))
                (pure tt) (λ _. Quiet-reject _ _ (refl, refl)) λ sells. Quiet-pure tt (buys, sells)

  pub Quiet-map_symbol :
      (mapper : SymbolMapper)
      → Quiet {T = T} w
          (map_symbol mapper w.job)
          (λ symbol. resolve w.job.row.symbol_raw mapper ≡ some symbol)
  unfolding map_symbol
  Quiet-map_symbol mapper =
      Quiet-bind
        (Quiet-or_reject rejected_symbol _ (resolve w.job.row.symbol_raw mapper) (refl, refl))
        λ symbol found.
          Quiet-bind (Quiet-record_fields _)
            λ _ _. Quiet-bind (Quiet-set_symbol_normalized symbol) λ _ _. Quiet-pure symbol found

  Quiet-check_daily_trades :
      (key : String) (now : ℕ) → Quiet {T = T} w (check_daily_trades w.job key now) (λ _. Unit {0})
  unfolding check_daily_trades
  Quiet-check_daily_trades key now =
      Quiet-bind (Quiet-query _)
        λ n _. Quiet_mono (λ _ _. tt) (Quiet-require _ (check_daily_trade_limit-Settles F n _))

module _ {F T : Type 0} ⦃sdk : Sdk F T⦄ ⦃host : Host T⦄ {w : Watch F} where
  -- The account's key is that of the account that the terminal reported.
  pub Quiet-identify_account : Quiet {T = T} w (identify_account w.job) (λ account.
      (info : AccountInfo F) × (account_key_for info ≡ some account.key)
      × (account.equity ≡ info.equity))
  unfolding identify_account
  Quiet-identify_account = Quiet-bind (Quiet-idle (Idle-ensure_connected w.job.settings)) λ up _.
      Quiet-bind
        (Quiet-if {R = λ _. Unit {0}} up (pure tt)
          (reject w.job failed_mt5_unavailable (text "Unable to connect to MT5 terminal"))
          (λ _. Quiet-pure tt tt) (λ _. Quiet-reject _ _ (refl, refl)))
        λ _ _. Quiet-bind (Quiet-idle Idle-account_info) λ found _.
          Quiet-bind (Quiet-or_reject failed_mt5_unavailable _ found (refl, refl)) λ info _.
            Quiet-bind
              (Quiet-or_reject failed_mt5_unavailable no_identity (account_key_for info)
                (refl, refl))
              λ key known.
                Quiet-bind (Quiet-record_fields _) λ _ _. Quiet-pure _ (info, known, refl)

  pub Quiet-read_market :
      (symbol : String)
      → Quiet {T = T} w
          (read_market w.job symbol)
          (λ market. market.price ≡ (if is_buy w.job.row.action then market.ask else market.bid))
  unfolding read_market
  Quiet-read_market symbol = Quiet-bind (Quiet-idle (Idle-ensure_symbol symbol)) λ found _.
      Quiet-bind (Quiet-or_reject rejected_symbol_unavailable _ found (refl, refl)) λ info _.
        Quiet-bind (Quiet-idle (Idle-symbol_info_tick symbol)) λ last _.
          Quiet-bind (Quiet-or_reject failed_mt5_unavailable _ last (refl, refl)) λ tick _.
            Quiet-bind (Quiet-record_fields _) λ _ _.
              Quiet-bind (Quiet-idle (Idle-server_time symbol)) λ time _.
                Quiet-bind (Quiet-or_reject failed_broker_time_unknown _ time (refl, refl))
                  λ now _. Quiet-pure _ refl

  Quiet-known_positions :
      (found : Option (List (Position F)))
      → Quiet {T = T} w (known_positions w.job found) (λ _. Unit {0})
  unfolding known_positions
  Quiet-known_positions none =
      Quiet-bind (Quiet-idle Idle-last_error) λ _ _. Quiet-reject _ _ (refl, refl)
  Quiet-known_positions (some positions) = Quiet-pure positions tt

  Quiet-check_positions : Quiet {T = T} w (check_positions w.job) (λ _. Unit {0})
  unfolding check_positions
  Quiet-check_positions = Quiet-bind (Quiet-idle Idle-positions_get) λ found _.
      Quiet-bind (Quiet-known_positions found)
        λ positions _. Quiet_mono (λ _ _. tt) (Quiet-require _ (check_position_limit-Settles F _ _))

module _ {F : Type 0} {w : Watch F} where
  set_daily_loss_baseline-IsKept :
      (key : String) (day : ℕ) (equity : F) (now : ℕ)
      → Keeps w (set_daily_loss_baseline key day equity now)
  unfolding set_daily_loss_baseline get_signal
  set_daily_loss_baseline-IsKept key day equity now db k = record {
    signal = ground (arith, k.signal);
    execution = ground (arith, k.execution);
    taken_le = ground (arith, k.taken_le);
    same_ids = ground (arith, k.same_ids);
    same_status = λ i. ground (arith, k.same_status i);
  }

module _ {F T : Type 0} ⦃float : Float F⦄ ⦃host : Host T⦄ {w : Watch F} where
  pub Quiet-check_quote :
      (market : Market F) → Quiet {T = T} w (check_quote w.job market) (λ _. IsQuoted w.job market)
  unfolding check_quote
  Quiet-check_quote market =
      Quiet-bind (Quiet-require _ (check_stop_loss-Settles _ _ market.price _)) λ _ stop.
        Quiet_mono (λ _ spread. (stop, spread))
          (Quiet-require _ (check_spread-Settles market.bid market.ask _ _))

  Quiet-baseline_or_set :
      (account : Account F) (day : ℕ) (found : Option F)
      → Quiet {T = T} w (baseline_or_set account day found) (λ _. Unit {0})
  unfolding baseline_or_set
  Quiet-baseline_or_set account day none =
      Quiet-bind
        (Quiet-transaction (set_daily_loss_baseline account.key day account.equity)
          (set_daily_loss_baseline-IsKept account.key day account.equity))
        λ _ _. Quiet-pure _ tt
  Quiet-baseline_or_set account day (some baseline) = Quiet-pure baseline tt

  Quiet-check_loss :
      (account : Account F) (now : ℕ)
      → Quiet {T = T} w
          (check_loss w.job account now)
          (λ _. check_risk_percent w.job.row.risk_percent w.job.settings.max_risk_percent ≡ passed)
  unfolding check_loss baseline_equity
  Quiet-check_loss account now =
      Quiet-bind (Quiet-bind (Quiet-query _) λ found _. Quiet-baseline_or_set account _ found)
        λ baseline _.
          Quiet-bind (Quiet-require _ (check_daily_loss-Settles account.equity baseline _))
            λ _ _. Quiet-require _ (check_risk_percent-Settles w.job.row.risk_percent _)

module _ {F T : Type 0} ⦃float : Float F⦄ ⦃sdk : Sdk F T⦄ ⦃host : Host T⦄ {w : Watch F} where
  -- After the risk checks the quote and the risk percent have passed.
  pub Quiet-check_risk :
      (account : Account F) (market : Market F)
      → Quiet {T = T} w (check_risk w.job account market) (λ _.
        IsQuoted w.job market
        × (check_risk_percent w.job.row.risk_percent w.job.settings.max_risk_percent ≡ passed))
  unfolding check_risk
  Quiet-check_risk account market = Quiet-bind (Quiet-check_quote market) λ _ quoted.
      Quiet-bind (Quiet-check_daily_trades account.key market.broker_now) λ _ _.
        Quiet-bind Quiet-check_positions
          λ _ _. Quiet_mono (λ _ risk. (quoted, risk)) (Quiet-check_loss account market.broker_now)
