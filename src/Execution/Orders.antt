-- ===== src/Execution/Orders.antt =====
-- `process_signal`, from the volume to `order_send`.
use Prim.Native.Nat.{bit_and}
use mt5_execution_bridge.Prelude.{
  ℕ, String, Bool, not, ◌||◌, Option, none, some, List, [], ◌∷◌, ◌==◌, is_none, get_or,
  if◌then◌else◌,
}
use mt5_execution_bridge.Float.{Float}
use mt5_execution_bridge.Models.{
  ExecutionStatus, dry_run_approved, executed, executed_partial, rejected_volume,
  rejected_volume_below_minimum, rejected_order_check, failed_order_send, review_required, Message,
  text, retcode_and_comment, unexpected_placed,
}
use mt5_execution_bridge.Storage.Executions.{
  Field, calculated_volume, order_check_retcode, order_send_retcode, order_ticket, deal_ticket,
  executed_volume, executed_price,
}
use mt5_execution_bridge.Services.Volume.{
  VolumeReason, invalid_price, calc_profit_failed, non_positive_risk, invalid_step, below_minimum,
  VolumeResult, sized, refused, order_type, calculate_risk_based_volume,
}
use mt5_execution_bridge.Config.{live_execution_allowed}
use mt5_execution_bridge.Outside.{SymbolInfo, Request, CheckResult, SendResult, Sdk, Host}
use mt5_execution_bridge.Exec.{Exec, pure, gets, ◌>>=◌, ◌>>◌}
use mt5_execution_bridge.Gateway.{order_check, order_send}
use mt5_execution_bridge.Execution.Common.{Attempt, meb_comment, record_fields, finish, reject}
use mt5_execution_bridge.Execution.Checks.{Account, Market}

abbrev pub trade_retcode_placed : ℕ
trade_retcode_placed = 10008

abbrev pub trade_retcode_done : ℕ
trade_retcode_done = 10009

abbrev pub trade_retcode_done_partial : ℕ
trade_retcode_done_partial = 10010

-- `retcode == n`
abbrev pub has_retcode : ℕ → Option ℕ → Bool
has_retcode n none = Bool.false
has_retcode n (some c) = c == n

-- `retcode in (0, TRADE_RETCODE_DONE)`
abbrev pub is_check_success : Option ℕ → Bool
is_check_success c = has_retcode 0 c || has_retcode trade_retcode_done c

-- `getattr(result, "retcode", None)` and `getattr(result, "comment", ...)`, also of a `None`
abbrev pub check_retcode : Option CheckResult → Option ℕ
check_retcode none = none
check_retcode (some r) = r.retcode

abbrev pub check_comment : Option CheckResult → String
check_comment none = "order_check returned no result"
check_comment (some r) = get_or r.comment "order_check returned no result"

abbrev pub send_retcode : {F : Type 0} → Option (SendResult F) → Option ℕ
send_retcode none = none
send_retcode (some r) = r.retcode

-- `comment or default`
abbrev pub comment_or : String → String → String
comment_or String.[] d = d
comment_or (String.◌∷◌ c s) d = String.◌∷◌ c s

-- The status of a calculator's refusal, and its reason as a message.
abbrev pub refusal_status : VolumeReason → ExecutionStatus
refusal_status below_minimum = rejected_volume_below_minimum
refusal_status _ = rejected_volume

abbrev pub refusal_message : {F : Type 0} → VolumeReason → Message F
refusal_message invalid_price = text "Invalid entry or stop-loss price"
refusal_message calc_profit_failed = text "order_calc_profit failed"
refusal_message non_positive_risk = text "Non-positive per-lot risk"
refusal_message invalid_step = text "Invalid broker volume_step"
refusal_message below_minimum = text "REJECTED_VOLUME_BELOW_MINIMUM"

-- The bits of `filling_mode`; where the package or the attribute is missing, ORDER_FILLING_IOC.
abbrev pub filling_of : {F T : Type 0} → Sdk F T → Bool → Option ℕ → ℕ
filling_of sdk available none = 1
filling_of sdk available (some modes) =
    if not available
    then 1
    else if not (bit_and modes 1 == 0)
    then sdk.order_filling_fok
    else if not (bit_and modes 2 == 0)
    then sdk.order_filling_ioc
    else sdk.order_filling_return

abbrev pub tickets : {F : Type 0} → SendResult F → List (Field F)
tickets r = order_ticket r.order ∷ deal_ticket r.deal ∷ []

abbrev pub exposure_fields : {F : Type 0} → SendResult F → List (Field F)
exposure_fields r =
    order_ticket r.order
    ∷ deal_ticket r.deal
    ∷ executed_volume r.volume
    ∷ executed_price r.price
    ∷ []

module _ {F T : Type 0} ⦃sdk : Sdk F T⦄ where
  unfoldable pub resolve_filling_mode : SymbolInfo F → Exec F T ℕ
  resolve_filling_mode info = do
    available ← gets (λ s. s.gateway.available)
    pure (filling_of sdk available info.filling_mode)

module _ {F T : Type 0} ⦃float : Float F⦄ ⦃sdk : Sdk F T⦄ ⦃host : Host T⦄ where
  unfoldable pub build_order_request : Attempt F → String → Market F → F → Exec F T (Request F)
  build_order_request job symbol market volume = do
    available ← gets (λ s. s.gateway.available)
    filling ← resolve_filling_mode market.info
    pure (record {
      action = if available then sdk.trade_action_deal else 1;
      symbol = symbol;
      volume = volume;
      order_type = order_type job.row.action;
      price = market.price;
      deviation = 20;
      magic = job.settings.magic_number;
      comment = meb_comment host.sha256_hex job.row.signal_id;
      type_time = if available then sdk.order_time_gtc else 0;
      type_filling = filling;
      sl = job.row.stop_loss;
      tp = job.row.take_profit;
    })

  -- `if not volume_result.ok: return finish(...)`
  unfoldable pub sized_or_reject : Attempt F → VolumeResult F → Exec F T F
  sized_or_reject job (sized volume) = pure volume
  sized_or_reject job (refused reason) = reject job (refusal_status reason) (refusal_message reason)

  -- 13 & 14. risk-based volume and the broker's volume constraints
  unfoldable pub size_order : Attempt F → String → Account F → Market F → Exec F T F
  size_order job symbol account market = do
    result ←
        calculate_risk_based_volume symbol job.row.action market.price job.row.stop_loss
          account.equity job.row.risk_percent (get_or market.info.volume_min (float.decimal 1 2))
          (get_or market.info.volume_max (float.decimal 1000 1))
          (get_or market.info.volume_step (float.decimal 1 2))
    volume ← sized_or_reject job result
    record_fields job (calculated_volume volume ∷ [])
    pure volume

  -- The lines after `order_check(request)`.
  unfoldable pub conclude_check : Attempt F → Request F → Option CheckResult → Exec F T (Request F)
  conclude_check job request result = do
    record_fields job (order_check_retcode (check_retcode result) ∷ [])
    if is_none result || not (is_check_success (check_retcode result))
        then reject job rejected_order_check
            (retcode_and_comment (check_retcode result) (check_comment result))
        else pure request

  -- 15. order_check()
  unfoldable pub check_order : Attempt F → String → Market F → F → Exec F T (Request F)
  check_order job symbol market volume = do
    request ← build_order_request job symbol market volume
    result ← order_check request
    conclude_check job request result

-- The arguments of the call of `finish` that files an answer of `order_send`.
pub record Filing (F : Type 0) : Type 0 where
  pub result : ExecutionStatus
  pub message : Message F
  pub fields : List (Field F)

unfoldable pub filing : {F : Type 0} → SendResult F → Filing F
filing r =
    let comment = get_or r.comment "" in
    if has_retcode trade_retcode_done r.retcode
    then record {
      result = executed;
      message = text (comment_or comment "order_send success");
      fields = exposure_fields r;
    }
    else if has_retcode trade_retcode_done_partial r.retcode
    then record {
      result = executed_partial;
      message = text (comment_or comment "order_send partial fill");
      fields = exposure_fields r;
    }
    else if has_retcode trade_retcode_placed r.retcode
    then record {
      result = review_required;
      message = unexpected_placed comment;
      fields = tickets r;
    }
    else record {
      result = failed_order_send;
      message = retcode_and_comment r.retcode comment;
      fields = [];
    }

module _ {F T : Type 0} ⦃sdk : Sdk F T⦄ ⦃host : Host T⦄ where
  -- The lines after the retcode of `order_send` is recorded.
  unfoldable pub file_result : Attempt F → Option (SendResult F) → Exec F T ExecutionStatus
  file_result job none =
      reject job review_required
        (text "order_send returned no result; manual reconciliation required")
  file_result job (some r) = let f = filing r in finish job f.result (some f.message) f.fields

  -- The lines after `order_send(request)`.
  unfoldable pub conclude_send : Attempt F → Option (SendResult F) → Exec F T ExecutionStatus
  conclude_send job result = do
    record_fields job (order_send_retcode (send_retcode result) ∷ [])
    file_result job result

  -- 16. order_send()
  unfoldable pub send_order : Attempt F → Request F → Exec F T ExecutionStatus
  send_order job request = do result ← order_send request; conclude_send job result

  -- dry run stops here; else 16
  unfoldable pub place_order : Attempt F → Request F → Exec F T ExecutionStatus
  place_order job request =
      if job.settings.dry_run || not (live_execution_allowed job.settings)
      then reject job dry_run_approved (text "Dry run: order_check passed, order_send skipped")
      else send_order job request
