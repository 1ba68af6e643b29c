-- ===== src/Execution/Checks.antt =====
-- `process_signal`, from the freshness of the signal to its risk percent.
use mt5_execution_bridge.Prelude.{
  ℕ, String, Bool, not, ◌&&◌, Option, none, some, List, [], ◌∷◌, ◌==◌, get_or, length, select,
  if◌then◌else◌,
}
use mt5_execution_bridge.Float.{Float}
use mt5_execution_bridge.Models.{
  rejected_risk, rejected_symbol, rejected_symbol_unavailable, failed_mt5_unavailable,
  failed_mt5_state_unknown, failed_broker_time_unknown, Message, text, no_symbol_mapping,
  symbol_unavailable,
}
use mt5_execution_bridge.Storage.Signals.{set_symbol_normalized}
use mt5_execution_bridge.Storage.Executions.{
  account_key, mt5_symbol, entry_price, count_executed_trades_since,
}
use mt5_execution_bridge.Storage.Baselines.{get_daily_loss_baseline, set_daily_loss_baseline}
use mt5_execution_bridge.Services.SymbolMapper.{SymbolMapper, resolve}
use mt5_execution_bridge.Services.Risk.{
  is_buy, is_sell, number, check_freshness, check_stop_loss, check_spread, check_daily_trade_limit,
  check_position_limit, check_daily_loss, check_risk_percent, trading_day_key, start_of_trading_day,
}
use mt5_execution_bridge.Outside.{SymbolInfo, Position, Sdk, Host}
use mt5_execution_bridge.Exec.{Exec, pure, utc_now, transaction, query, ◌>>=◌, ◌>>◌}
use mt5_execution_bridge.Gateway.{
  account_info, ensure_symbol, symbol_info_tick, server_time, positions_get, last_error,
}
use mt5_execution_bridge.Execution.Common.{
  Attempt, account_key_for, ensure_connected, record_fields, reject, require, or_reject,
}

-- The account as the later steps use it.
pub record Account (F : Type 0) : Type 0 where
  pub key : String
  pub equity : F

-- The market as the later steps use it.
pub record Market (F : Type 0) : Type 0 where
  pub info : SymbolInfo F
  pub bid : F
  pub ask : F
  pub price : F
  pub broker_now : ℕ

-- `getattr(p, "magic", None) == magic_number`
abbrev pub has_magic : {F : Type 0} → ℕ → Position F → Bool
has_magic n p = elim p.magic [ none ↦ Bool.false | some m ↦ m == n ]

abbrev pub no_identity : {F : Type 0} → Message F
no_identity =
    text
      "Unable to reliably determine MT5 account identity (server/login) for daily state namespacing"

module _ {F T : Type 0} ⦃host : Host T⦄ where
  -- 2. freshness, 6. action validation
  unfoldable pub admit : Attempt F → Exec F T (Unit {0})
  admit job = do
    now ← utc_now
    require job (check_freshness job.row.signal_timestamp job.settings.max_signal_age_seconds now)
    if is_buy job.row.action && not job.settings.allow_market_buy
        then reject job rejected_risk (text "Market BUY disabled by configuration")
        else if is_sell job.row.action && not job.settings.allow_market_sell
        then reject job rejected_risk (text "Market SELL disabled by configuration")
        else pure tt

  -- 3. symbol mapping
  unfoldable pub map_symbol : SymbolMapper → Attempt F → Exec F T String
  map_symbol mapper job = do
    symbol ←
        or_reject job rejected_symbol (no_symbol_mapping job.row.symbol_raw)
          (resolve job.row.symbol_raw mapper)
    record_fields job (mt5_symbol symbol ∷ [])
    transaction (set_symbol_normalized job.row.signal_id symbol)
    pure symbol

  -- 9. trade-count validation
  unfoldable pub check_daily_trades : Attempt F → String → ℕ → Exec F T (Unit {0})
  check_daily_trades job key broker_now = do
    trades_today ← query (count_executed_trades_since key (start_of_trading_day broker_now))
    require job (check_daily_trade_limit trades_today job.settings.max_trades_per_day)

module _ {F T : Type 0} ⦃sdk : Sdk F T⦄ ⦃host : Host T⦄ where
  -- 4. MT5 connection, 4b. account identity
  unfoldable pub identify_account : Attempt F → Exec F T (Account F)
  identify_account job = do
    up ← ensure_connected job.settings
    if up
        then pure tt
        else reject job failed_mt5_unavailable (text "Unable to connect to MT5 terminal")
    info ← account_info
    account ← or_reject job failed_mt5_unavailable (text "Unable to retrieve account info") info
    key ← or_reject job failed_mt5_unavailable no_identity (account_key_for account)
    record_fields job (account_key key ∷ [])
    pure (record { key = key; equity = account.equity })

  -- symbol availability, 5. market data, and the broker's clock
  unfoldable pub read_market : Attempt F → String → Exec F T (Market F)
  read_market job symbol = do
    found ← ensure_symbol symbol
    info ← or_reject job rejected_symbol_unavailable (symbol_unavailable symbol) found
    last ← symbol_info_tick symbol
    tick ← or_reject job failed_mt5_unavailable (text "Unable to retrieve market tick") last
    let price = if is_buy job.row.action then tick.ask else tick.bid
    record_fields job (entry_price price ∷ [])
    time ← server_time symbol
    broker_now ←
        or_reject job failed_broker_time_unknown
          (text "Unable to determine broker/server time from market tick") time
    pure (record {
      info = info;
      bid = tick.bid;
      ask = tick.ask;
      price = price;
      broker_now = broker_now;
    })

  -- `positions is None` is an unknown state, never zero positions.
  unfoldable pub known_positions :
      Attempt F → Option (List (Position F)) → Exec F T (List (Position F))
  known_positions job none = do
    last_error
    reject job failed_mt5_state_unknown
        (text "MT5 position query failed; cannot verify open-position count")
  known_positions job (some positions) = pure positions

  -- 10. position-count validation
  unfoldable pub check_positions : Attempt F → Exec F T (Unit {0})
  check_positions job = do
    found ← positions_get
    positions ← known_positions job found
    let open_positions = select (has_magic job.settings.magic_number) positions
    require job (check_position_limit (length open_positions) job.settings.max_open_positions)

module _ {F T : Type 0} ⦃float : Float F⦄ ⦃host : Host T⦄ where
  -- 7. SL validation, 8. spread validation
  unfoldable pub check_quote : Attempt F → Market F → Exec F T (Unit {0})
  check_quote job market = do
    require job (
        check_stop_loss job.row.action job.row.stop_loss market.price
          job.settings.require_stop_loss)
    require job (
        check_spread market.bid market.ask (get_or market.info.point (number 0))
          job.settings.max_spread_points)

  unfoldable pub baseline_or_set : Account F → ℕ → Option F → Exec F T F
  baseline_or_set account trading_day (some baseline) = pure baseline
  baseline_or_set account trading_day none = do
    transaction (set_daily_loss_baseline account.key trading_day account.equity)
    pure account.equity

  -- `baseline`, set to the current equity where the day has none
  unfoldable pub baseline_equity : Account F → ℕ → Exec F T F
  baseline_equity account trading_day = do
    found ← query (get_daily_loss_baseline account.key trading_day)
    baseline_or_set account trading_day found

  -- 11. daily-loss validation, 12. risk-percent validation
  unfoldable pub check_loss : Attempt F → Account F → ℕ → Exec F T (Unit {0})
  check_loss job account broker_now = do
    baseline ← baseline_equity account (trading_day_key broker_now)
    require job (check_daily_loss account.equity baseline job.settings.max_daily_loss_percent)
    require job (check_risk_percent job.row.risk_percent job.settings.max_risk_percent)

module _ {F T : Type 0} ⦃float : Float F⦄ ⦃sdk : Sdk F T⦄ ⦃host : Host T⦄ where
  -- 7 to 12
  unfoldable pub check_risk : Attempt F → Account F → Market F → Exec F T (Unit {0})
  check_risk job account market = do
    check_quote job market
    check_daily_trades job account.key market.broker_now
    check_positions job
    check_loss job account market.broker_now
