-- ===== src/Execution/Interleaved/Steps.antt =====
-- The steps of `process_signal`, as programs of transactions and of what lies between them.
use mt5_execution_bridge.Prelude.{
  ℕ, String, Bool, true, false, not, ◌&&◌, ◌||◌, Option, none, some, List, [], ◌∷◌, is_none,
  if◌then◌else◌,
}
use mt5_execution_bridge.Float.{Float}
use mt5_execution_bridge.Models.{
  ExecutionStatus, Message, is_rejection, rejected_symbol, rejected_symbol_unavailable,
  failed_mt5_unavailable, failed_broker_time_unknown,
}
use mt5_execution_bridge.Storage.Executions.{Field, status, finished_at, result_message}
use mt5_execution_bridge.Storage.Arrivals.{
  updates, sets_status, sets_symbol, sets_baseline, counts, finds_baseline,
}
use mt5_execution_bridge.Services.SymbolMapper.{SymbolMapper, resolve}
use mt5_execution_bridge.Services.Risk.{RiskCheckResult, passed, failed, is_buy, is_sell}
use mt5_execution_bridge.Services.Volume.{VolumeResult, sized, refused}
use mt5_execution_bridge.Config.{live_execution_allowed}
use mt5_execution_bridge.Outside.{Position, Request, CheckResult, SendResult, Sdk, Host}
use mt5_execution_bridge.Exec.{Exec, pure}
use mt5_execution_bridge.Execution.Common.{
  Attempt, account_key_for, record_fields, finish, reject, require, or_reject,
}
use mt5_execution_bridge.Execution.Checks.{
  Account, Market, no_identity, admit, map_symbol, identify_account, read_market, known_positions,
  check_positions, check_quote, check_daily_trades, baseline_or_set, baseline_equity, check_loss,
  check_risk,
}
use mt5_execution_bridge.Execution.Orders.{
  resolve_filling_mode, build_order_request, sized_or_reject, size_order, conclude_check,
  check_order, file_result, conclude_send, send_order, place_order, is_check_success, check_retcode,
}
use mt5_execution_bridge.Execution.Pipeline.{run_checks}
use mt5_execution_bridge.Execution.Interleaved.{Blind, Program, aside, writes, reads, binds}
use mt5_execution_bridge.Execution.Interleaved.Calls.{
  Blind-pure, Blind-return_early, Blind-utc_now, Blind-gets_gateway, Blind-bind, Blind-last_error,
  Blind-ensure_connected, Blind-account_info, Blind-ensure_symbol, Blind-symbol_info_tick,
  Blind-server_time, Blind-positions_get, Blind-order_check, Blind-order_send,
  Blind-calculate_risk_based_volume,
}

module _ {F T : Type 0} ⦃host : Host T⦄ {i : String} where
  Program-pure : {A : Type 0} (a : A) → Program {F = F} {T = T} i A (pure a)
  Program-pure a = aside (Blind-pure a)

  Program-if :
      {A : Type 0} (b : Bool) {m n : Exec F T A}
      → Program i A m
      → Program i A n
      → Program i A (if b then m else n)
  Program-if true p q = p
  Program-if false p q = q

module _ {F T : Type 0} ⦃host : Host T⦄ (job : Attempt F) where
  -- An action of the run.
  abbrev Part : (A : Type 0) → Exec F T A → Type 1
  Part = Program job.row.signal_id

  Part-record_fields : (fields : List (Field F)) → Part (Unit {0}) (record_fields job fields)
  unfolding record_fields
  Part-record_fields fields = writes (updates job.execution_id fields)

  Part-finish :
      {A : Type 0} (st : ExecutionStatus) (message : Option (Message F)) (extra : List (Field F))
      → Part A (finish job st message extra)
  unfolding finish
  Part-finish st message extra = binds (aside Blind-utc_now) λ now.
      binds (Part-record_fields (status st ∷ finished_at now ∷ result_message message ∷ extra)) λ _.
        binds (writes (sets_status st (if is_rejection st then message else none) none))
          λ _. aside (Blind-return_early st)

  Part-reject :
      {A : Type 0} (st : ExecutionStatus) (message : Message F) → Part A (reject job st message)
  Part-reject st message = Part-finish st (some message) []

  Part-require : (c : RiskCheckResult F) → Part (Unit {0}) (require job c)
  Part-require passed = Program-pure tt
  Part-require (failed st reason) = Part-reject st reason

  Part-or_reject :
      {A : Type 0} (st : ExecutionStatus) (message : Message F) (o : Option A)
      → Part A (or_reject job st message o)
  Part-or_reject st message none = Part-reject st message
  Part-or_reject st message (some a) = Program-pure a

  Part-admit : Part (Unit {0}) (admit job)
  unfolding admit
  Part-admit = binds (aside Blind-utc_now) λ now. binds (Part-require _) λ _.
      Program-if (is_buy job.row.action && not job.settings.allow_market_buy) (Part-reject _ _) (
        Program-if (is_sell job.row.action && not job.settings.allow_market_sell) (Part-reject _ _)
          (Program-pure tt))

  Part-map_symbol : (mapper : SymbolMapper) → Part String (map_symbol mapper job)
  unfolding map_symbol
  Part-map_symbol mapper =
      binds (Part-or_reject rejected_symbol _ (resolve job.row.symbol_raw mapper)) λ symbol.
        binds (Part-record_fields _)
          λ _. binds (writes (sets_symbol symbol)) λ _. Program-pure symbol

  Part-check_daily_trades :
      (key : String) (now : ℕ) → Part (Unit {0}) (check_daily_trades job key now)
  unfolding check_daily_trades
  Part-check_daily_trades key now = binds (reads (counts key _)) λ n. Part-require _

module _ {F T : Type 0} ⦃sdk : Sdk F T⦄ ⦃host : Host T⦄ (job : Attempt F) where
  Part-identify_account : Part {T = T} job (Account F) (identify_account job)
  unfolding identify_account
  Part-identify_account = binds (aside (Blind-ensure_connected job.settings)) λ up.
      binds (Program-if up (Program-pure tt) (Part-reject job _ _)) λ _.
        binds (aside Blind-account_info) λ found.
          binds (Part-or_reject job failed_mt5_unavailable _ found) λ info.
            binds (Part-or_reject job failed_mt5_unavailable no_identity (account_key_for info))
              λ key. binds (Part-record_fields job _) λ _. Program-pure _

  Part-read_market : (symbol : String) → Part {T = T} job (Market F) (read_market job symbol)
  unfolding read_market
  Part-read_market symbol = binds (aside (Blind-ensure_symbol symbol)) λ found.
      binds (Part-or_reject job rejected_symbol_unavailable _ found) λ info.
        binds (aside (Blind-symbol_info_tick symbol)) λ last.
          binds (Part-or_reject job failed_mt5_unavailable _ last) λ tick.
            binds (Part-record_fields job _) λ _. binds (aside (Blind-server_time symbol)) λ time.
              binds (Part-or_reject job failed_broker_time_unknown _ time) λ now. Program-pure _

  Part-known_positions :
      (found : Option (List (Position F)))
      → Part {T = T} job (List (Position F)) (known_positions job found)
  unfolding known_positions
  Part-known_positions none = binds (aside Blind-last_error) λ _. Part-reject job _ _
  Part-known_positions (some positions) = Program-pure positions

  Part-check_positions : Part {T = T} job (Unit {0}) (check_positions job)
  unfolding check_positions
  Part-check_positions =
      binds (aside Blind-positions_get)
        λ found. binds (Part-known_positions found) λ positions. Part-require job _

module _ {F T : Type 0} ⦃float : Float F⦄ ⦃host : Host T⦄ (job : Attempt F) where
  Part-check_quote : (market : Market F) → Part {T = T} job (Unit {0}) (check_quote job market)
  unfolding check_quote
  Part-check_quote market = binds (Part-require job _) λ _. Part-require job _

  Part-baseline_or_set :
      (account : Account F) (day : ℕ) (found : Option F)
      → Part {T = T} job F (baseline_or_set account day found)
  unfolding baseline_or_set
  Part-baseline_or_set account day none =
      binds (writes (sets_baseline account.key day account.equity)) λ _. Program-pure _
  Part-baseline_or_set account day (some baseline) = Program-pure baseline

  Part-check_loss :
      (account : Account F) (now : ℕ) → Part {T = T} job (Unit {0}) (check_loss job account now)
  unfolding check_loss baseline_equity
  Part-check_loss account now =
      binds
        (binds (reads (finds_baseline account.key _)) λ found. Part-baseline_or_set account _ found)
        λ baseline. binds (Part-require job _) λ _. Part-require job _

module _ {F T : Type 0} ⦃float : Float F⦄ ⦃sdk : Sdk F T⦄ ⦃host : Host T⦄ (job : Attempt F) where
  Part-check_risk :
      (account : Account F) (market : Market F)
      → Part {T = T} job (Unit {0}) (check_risk job account market)
  unfolding check_risk
  Part-check_risk account market = binds (Part-check_quote job market) λ _.
      binds (Part-check_daily_trades job account.key market.broker_now)
        λ _. binds (Part-check_positions job) λ _. Part-check_loss job account market.broker_now

  Part-sized_or_reject : (r : VolumeResult F) → Part {T = T} job F (sized_or_reject job r)
  unfolding sized_or_reject
  Part-sized_or_reject (sized volume) = Program-pure volume
  Part-sized_or_reject (refused reason) = Part-reject job _ _

  Part-size_order :
      (symbol : String) (account : Account F) (market : Market F)
      → Part {T = T} job F (size_order job symbol account market)
  unfolding size_order
  Part-size_order symbol account market =
      binds (aside (Blind-calculate_risk_based_volume symbol _ _ _ _ _ _ _ _)) λ result.
        binds (Part-sized_or_reject result)
          λ volume. binds (Part-record_fields job _) λ _. Program-pure volume

  Blind-build_order_request :
      (symbol : String) (market : Market F) (volume : F)
      → Blind {F = F} {T = T} (build_order_request job symbol market volume)
  unfolding build_order_request resolve_filling_mode
  Blind-build_order_request symbol market volume =
      Blind-bind (Blind-gets_gateway _)
        λ _. Blind-bind (Blind-bind (Blind-gets_gateway _) λ _. Blind-pure _) λ _. Blind-pure _

  Part-conclude_check :
      (request : Request F) (result : Option CheckResult)
      → Part {T = T} job (Request F) (conclude_check job request result)
  unfolding conclude_check
  Part-conclude_check request result = binds (Part-record_fields job _) λ _.
      Program-if (is_none result || not (is_check_success (check_retcode result)))
        (Part-reject job _ _) (Program-pure request)

  Part-check_order :
      (symbol : String) (market : Market F) (volume : F)
      → Part {T = T} job (Request F) (check_order job symbol market volume)
  unfolding check_order
  Part-check_order symbol market volume =
      binds (aside (Blind-build_order_request symbol market volume)) λ request.
        binds (aside (Blind-order_check request)) λ result. Part-conclude_check request result

  Part-file_result :
      (result : Option (SendResult F)) → Part {T = T} job ExecutionStatus (file_result job result)
  unfolding file_result
  Part-file_result none = Part-reject job _ _
  Part-file_result (some r) = Part-finish job _ _ _

  Part-place_order :
      (request : Request F) → Part {T = T} job ExecutionStatus (place_order job request)
  unfolding place_order send_order conclude_send
  Part-place_order request =
      Program-if (job.settings.dry_run || not (live_execution_allowed job.settings))
        (Part-reject job _ _)
        (binds (aside (Blind-order_send request))
          λ result. binds (Part-record_fields job _) λ _. Part-file_result result)

  pub Part-run_checks :
      (mapper : SymbolMapper) → Part {T = T} job ExecutionStatus (run_checks mapper job)
  unfolding run_checks
  Part-run_checks mapper = binds (Part-admit job) λ _. binds (Part-map_symbol job mapper) λ symbol.
      binds (Part-identify_account job) λ account. binds (Part-read_market job symbol) λ market.
        binds (Part-check_risk account market) λ _.
          binds (Part-size_order symbol account market) λ volume.
            binds (Part-check_order symbol market volume) λ request. Part-place_order request
