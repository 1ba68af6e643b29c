-- ===== src/Execution/Limits.antt =====
-- `process_signal`, from the stop loss to the risk percent: the limits under which it goes on.
use mt5_execution_bridge.Prelude.{
  ℕ, suc, ◌<◌, String, ◌≡◌, ap, sym, ◌∙◌, Option, none, some, List, arith, get_or, length, select,
}
use mt5_execution_bridge.Float.{Float}
use mt5_execution_bridge.Models.{failed_mt5_state_unknown, text}
use mt5_execution_bridge.Storage.Executions.{count_executed_trades_since}
use mt5_execution_bridge.Storage.Baselines.{get_daily_loss_baseline, set_daily_loss_baseline}
use mt5_execution_bridge.Storage.Days.{set_daily_loss_baseline-first}
use mt5_execution_bridge.Services.Risk.{
  passed, number, check_stop_loss, check_spread, check_daily_trade_limit, check_position_limit,
  check_daily_loss, check_risk_percent, trading_day_key, start_of_trading_day,
}
use mt5_execution_bridge.Outside.{answer, Position, Sdk, Host}
use mt5_execution_bridge.Exec.{Bridge, ok}
use mt5_execution_bridge.Gateway.{positions_get}
use mt5_execution_bridge.Execution.Common.{Attempt}
use mt5_execution_bridge.Execution.Results.{
  Gives, bind-Gives, pure-Gives, finish-Gives, require-Gives, query-Gives, transaction-Gives,
  call_sdk-Gives,
}
use mt5_execution_bridge.Execution.Checks.{
  Account, Market, has_magic, known_positions, check_positions, check_quote, check_daily_trades,
  baseline_or_set, baseline_equity, check_loss, check_risk,
}

module _ {F T : Type 0} ⦃host : Host T⦄ where
  known_positions-Gives :
      ⦃sdk : Sdk F T⦄ (job : Attempt F) (o : Option (List (Position F))) {s : Bridge F T}
      {ps : List (Position F)} {s' : Bridge F T}
      → Gives (known_positions job o) s ps s'
      → (o ≡ some ps) × (s ≡ s')
  unfolding known_positions
  known_positions-Gives job none h = absurd (
      finish-Gives job failed_mt5_state_unknown
        (some (text "MT5 position query failed; cannot verify open-position count"))
        (bind-Gives h).rest)
  known_positions-Gives job (some ps) h = let e = pure-Gives h in (ap some e.0, e.1)

-- The terminal reported the open positions, and of those with the magic number there are fewer than
-- the limit.
record FewPositions {F T : Type 0} (sdk : Sdk F T) (job : Attempt F) : Type 0 where
  outside : T
  positions : List (Position F)
  reported : (sdk.positions_get outside).0 ≡ answer (some positions)
  few :
      length (select (has_magic job.settings.magic_number) positions)
      < job.settings.max_open_positions

module _ {F T : Type 0} ⦃sdk : Sdk F T⦄ ⦃host : Host T⦄ where
  check_positions-Gives :
      (job : Attempt F) {s : Bridge F T} {u : Unit {0}} {s' : Bridge F T}
      → Gives (check_positions job) s u s'
      → FewPositions sdk job × (s'.db ≡ s.db)
  unfolding check_positions positions_get check_position_limit
  check_positions-Gives job {s} {u} {s'} h =
      let b = bind-Gives h in
      let b' = bind-Gives b.rest in
      let known = known_positions-Gives job b.value b'.first in
      let required = require-Gives job _ b'.rest in
      let asked =
        call_sdk-Gives sdk.positions_get {s = s} {x = b'.value} {s' = b.mid}
          (record { ends = b.first.ends ∙ ap (λ o. (ok o, b.mid)) known.0 }) in
      (
        record {
          outside = s.outside;
          positions = b'.value;
          reported = asked.0;
          few = ground (arith, required.0);
        },
        ap (λ (t : Bridge F T). t.db) (sym (known.1 ∙ required.1)) ∙ asked.1,
      )

-- What holds where the checks of the loss and of the risk percent let a run go on.
record LimitedLoss {F T : Type 0} ⦃float : Float F⦄ (job : Attempt F) (account : Account F)
    (day : ℕ) (s s' : Bridge F T) : Type 0 where
  baseline : F
  of_day : baseline ≡ get_or (get_daily_loss_baseline account.key day s.db) account.equity
  kept : get_daily_loss_baseline account.key day s'.db ≡ some baseline
  loss : check_daily_loss account.equity baseline job.settings.max_daily_loss_percent ≡ passed
  risk : check_risk_percent job.row.risk_percent job.settings.max_risk_percent ≡ passed

-- What holds where the checks from the stop loss to the risk percent let a run go on.
pub record Limited {F T : Type 0} ⦃float : Float F⦄ (sdk : Sdk F T) (job : Attempt F)
    (account : Account F) (market : Market F) (s s' : Bridge F T) : Type 0 where
  stop_loss :
      check_stop_loss job.row.action job.row.stop_loss market.price job.settings.require_stop_loss
      ≡ passed
  spread :
      check_spread market.bid market.ask
        (get_or market.info.point (number 0))
        job.settings.max_spread_points
      ≡ passed
  trades :
      count_executed_trades_since account.key (start_of_trading_day market.broker_now) s.db
      < job.settings.max_trades_per_day
  positions : FewPositions sdk job
  loss : LimitedLoss job account (trading_day_key market.broker_now) s s'

module _ {F T : Type 0} ⦃float : Float F⦄ ⦃host : Host T⦄ where
  baseline_or_set-Gives :
      (account : Account F) (day : ℕ) (o : Option F) {s : Bridge F T} {b : F} {s' : Bridge F T}
      → get_daily_loss_baseline account.key day s.db ≡ o
      → Gives (baseline_or_set account day o) s b s'
      → (get_daily_loss_baseline account.key day s'.db ≡ some b) × (b ≡ get_or o account.equity)
  unfolding baseline_or_set
  baseline_or_set-Gives account day none {s} {b} {s'} found h =
      let h' = bind-Gives h in
      let set =
        transaction-Gives (set_daily_loss_baseline account.key day account.equity) h'.first in
      let e = pure-Gives h'.rest in
      let first =
        (set_daily_loss_baseline-first account.key day account.equity set.0 s.db account.key
          (suc day) (ground arith)).0 in
      (
        ap (λ (t : Bridge F T). get_daily_loss_baseline account.key day t.db) (sym e.1)
            ∙ ap (get_daily_loss_baseline account.key day) (sym set.1)
            ∙ first
            ∙ ap (λ o. some (get_or o account.equity)) found
            ∙ ap some e.0,
        sym e.0,
      )
  baseline_or_set-Gives account day (some b') {s} {b} {s'} found h =
      let e = pure-Gives h in
      (
        ap (λ (t : Bridge F T). get_daily_loss_baseline account.key day t.db) (sym e.1)
            ∙ found
            ∙ ap some e.0,
        sym e.0,
      )

  baseline_equity-Gives :
      (account : Account F) (day : ℕ) {s : Bridge F T} {b : F} {s' : Bridge F T}
      → Gives (baseline_equity account day) s b s'
      → (get_daily_loss_baseline account.key day s'.db ≡ some b)
        × (b ≡ get_or (get_daily_loss_baseline account.key day s.db) account.equity)
  unfolding baseline_equity
  baseline_equity-Gives account day {s} {b} {s'} h =
      let h' = bind-Gives h in
      let row = query-Gives _ h'.first in
      let set =
        baseline_or_set-Gives account day h'.value
          (ap (get_daily_loss_baseline account.key day) row.1 ∙ row.0) h'.rest in
      (set.0, set.1 ∙ ap (λ o. get_or o account.equity) (sym row.0))

  check_loss-Gives :
      (job : Attempt F) (account : Account F) (now : ℕ) {s : Bridge F T} {u : Unit {0}}
      {s' : Bridge F T}
      → Gives (check_loss job account now) s u s'
      → LimitedLoss job account (trading_day_key now) s s'
  unfolding check_loss
  check_loss-Gives job account now {s} {u} {s'} h =
      let h' = bind-Gives h in
      let baseline = baseline_equity-Gives account _ h'.first in
      let losses = bind-Gives h'.rest in
      let loss = require-Gives job _ losses.first in
      let risk = require-Gives job _ losses.rest in
      record {
        baseline = h'.value;
        of_day = baseline.1;
        kept =
            ap (λ (t : Bridge F T). get_daily_loss_baseline account.key (trading_day_key now) t.db)
              (sym (loss.1 ∙ risk.1))
            ∙ baseline.0;
        loss = loss.0;
        risk = risk.0;
      }

  check_quote-Gives :
      (job : Attempt F) (market : Market F) {s : Bridge F T} {u : Unit {0}} {s' : Bridge F T}
      → Gives (check_quote job market) s u s'
      → (check_stop_loss job.row.action job.row.stop_loss market.price
            job.settings.require_stop_loss
          ≡ passed)
        × (check_spread market.bid market.ask
              (get_or market.info.point (number 0))
              job.settings.max_spread_points
            ≡ passed)
        × (s ≡ s')
  unfolding check_quote
  check_quote-Gives job market h =
      let h' = bind-Gives h in
      let stop = require-Gives job _ h'.first in
      let spread = require-Gives job _ h'.rest in (stop.0, spread.0, stop.1 ∙ spread.1)

  check_daily_trades-Gives :
      (job : Attempt F) (key : String) (now : ℕ) {s : Bridge F T} {u : Unit {0}} {s' : Bridge F T}
      → Gives (check_daily_trades job key now) s u s'
      → (count_executed_trades_since key (start_of_trading_day now) s.db
          < job.settings.max_trades_per_day)
        × (s'.db ≡ s.db)
  unfolding check_daily_trades check_daily_trade_limit
  check_daily_trades-Gives job key now h =
      let h' = bind-Gives h in
      let counted = query-Gives _ h'.first in
      let limit = require-Gives job _ h'.rest in
      (ground (arith, counted.0, limit.0), ap (λ (t : Bridge F T). t.db) (sym limit.1) ∙ counted.1)

  limited_from :
      (job : Attempt F) (account : Account F) (day : ℕ) {s mid s' : Bridge F T}
      → mid.db ≡ s.db
      → LimitedLoss job account day mid s'
      → LimitedLoss job account day s s'
  limited_from job account day same l = record {
    baseline = l.baseline;
    of_day = rw (← same) l.of_day;
    kept = l.kept;
    loss = l.loss;
    risk = l.risk;
  }

module _ {F T : Type 0} ⦃float : Float F⦄ ⦃sdk : Sdk F T⦄ ⦃host : Host T⦄ where
  -- Where the checks from the stop loss to the risk percent let a run go on, the stop loss, the
  -- spread and the risk percent have passed theirs; the account has fewer executed trades since the
  -- start of the broker's day than the limit; the terminal has reported the open positions, and
  -- fewer of them than the limit have the magic number; and the loss against the day's baseline has
  -- passed its check, where the baseline is the one of the table, or the equity where the day had
  -- none, and is in the table afterwards.
  pub check_risk-Limited :
      (job : Attempt F) (account : Account F) (market : Market F) (s s' : Bridge F T)
      → check_risk job account market s ≡ (ok tt, s')
      → Limited sdk job account market s s'
  unfolding check_risk
  check_risk-Limited job account market s s' e =
      let h : Gives (check_risk job account market) s tt s' = record { ends = e } in
      let h1 = bind-Gives h in
      let h2 = bind-Gives h1.rest in
      let h3 = bind-Gives h2.rest in
      let quote = check_quote-Gives job market h1.first in
      let trades = check_daily_trades-Gives job account.key market.broker_now h2.first in
      let positions = check_positions-Gives job h3.first in
      let start = ap (λ (t : Bridge F T). t.db) (sym quote.2) in
      record {
        stop_loss = quote.0;
        spread = quote.1;
        trades = rw (← start) trades.0;
        positions = positions.0;
        loss =
            limited_from job account (trading_day_key market.broker_now)
              (positions.1 ∙ trades.1 ∙ start)
              (check_loss-Gives job account market.broker_now h3.rest);
      }
