-- ===== src/Execution/Recovery.antt =====
-- `reconcile_stuck_signal` and `_find_deal_by_comment`.
use mt5_execution_bridge.Prelude.{
  ℕ, ◌-◌, ◌*◌, String, str_eq, Bool, not, Option, none, some, is_none, get_or, find, if◌then◌else◌,
}
use mt5_execution_bridge.Models.{
  ExecutionStatus, review_required, recovered_executed, Message, text,
}
use mt5_execution_bridge.Storage.{Signal}
use mt5_execution_bridge.Storage.Signals.{update_signal_status}
use mt5_execution_bridge.Services.Risk.{day}
use mt5_execution_bridge.Config.{Settings}
use mt5_execution_bridge.Outside.{Deal, Sdk, Host}
use mt5_execution_bridge.Exec.{Exec, pure, utc_now, transaction, ◌>>=◌, ◌>>◌}
use mt5_execution_bridge.Gateway.{history_deals_get}
use mt5_execution_bridge.Execution.Common.{meb_comment, ensure_connected}

abbrev pub reconciliation_lookback : ℕ
reconciliation_lookback = 3 * day

-- `getattr(deal, "comment", "") == comment`
abbrev pub has_comment : String → Deal → Bool
has_comment c d = str_eq (get_or d.comment "") c

module _ {F T : Type 0} ⦃host : Host T⦄ where
  -- `update_signal_status(signal_id, status, reason)` and `return status`
  unfoldable pub settle : Signal F → ExecutionStatus → Option (Message F) → Exec F T ExecutionStatus
  settle row st reason = do transaction (update_signal_status row.signal_id st reason none); pure st

module _ {F T : Type 0} ⦃sdk : Sdk F T⦄ ⦃host : Host T⦄ where
  unfoldable pub find_deal_by_comment : String → Exec F T (Option Deal)
  find_deal_by_comment comment = do
    now ← utc_now
    deals ← history_deals_get (now - reconciliation_lookback) now
    pure (find (has_comment comment) deals)

  unfoldable pub reconcile_stuck_signal : Settings F → Signal F → Exec F T ExecutionStatus
  reconcile_stuck_signal settings row = do
    up ← ensure_connected settings
    if not up
        then settle row review_required
            (some (text "MT5 unavailable during restart reconciliation"))
        else do
          found ← find_deal_by_comment (meb_comment host.sha256_hex row.signal_id)
          if not (is_none found)
              then settle row recovered_executed none
              else settle row review_required
                  (some (text "No matching MT5 history found for prior PROCESSING attempt"))
