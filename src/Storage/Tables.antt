-- ===== src/Storage/Tables.antt =====
-- app/storage/migrations.py: the tables. A nullable column is an `Option`. Instants are microseconds
-- since 0001-01-01T00:00Z: their ISO texts, all with the offset +00:00, are ordered as the instants.
-- A status column holds one of the values of `ExecutionStatus`, and an action column BUY or SELL.
use mt5_execution_bridge.Prelude.{ℕ, String, Bool, Option, List, []}
use mt5_execution_bridge.Models.{SignalAction, ExecutionStatus, Message}

-- `datetime.isoformat()` of a signal's timestamp: with an offset it denotes an instant; without one
-- it is a wall-clock reading.
pub data Timestamp : Type 0 where
  aware naive : ℕ → Timestamp

module _ (F : Type 0) where
  pub record Signal : Type 0 where
    pub id : ℕ
    pub signal_id : String
    pub received_at : ℕ
    pub signal_timestamp : Timestamp
    pub symbol_raw : String
    pub symbol_normalized : Option String
    pub action : SignalAction
    pub risk_percent : F
    pub stop_loss : Option F
    pub take_profit : Option F
    pub strategy : Option String
    pub comment : Option String
    pub status : ExecutionStatus
    pub rejection_reason : Option (Message F)
    pub attempt_count : ℕ
    pub last_attempt_at : Option ℕ
    pub created_at : ℕ
    pub updated_at : ℕ

  pub record Execution : Type 0 where
    pub id : ℕ
    pub signal_id : String
    pub account_key : Option String
    pub attempt : ℕ
    pub started_at : ℕ
    pub finished_at : Option ℕ
    pub dry_run : Bool
    pub mt5_symbol : Option String
    pub requested_action : SignalAction
    pub calculated_volume : Option F
    pub entry_price : Option F
    pub stop_loss : Option F
    pub take_profit : Option F
    pub order_check_retcode : Option ℕ
    pub order_send_retcode : Option ℕ
    pub order_ticket : Option ℕ
    pub deal_ticket : Option ℕ
    pub executed_volume : Option F
    pub executed_price : Option F
    pub result_message : Option (Message F)
    pub status : ExecutionStatus

  pub record DailyLossBaseline : Type 0 where
    pub account_key : String
    pub trading_day : ℕ
    pub baseline_equity : F
    pub recorded_at : ℕ

  -- The tables in order of insertion, and the two AUTOINCREMENT counters.
  pub record Database : Type 0 where
    pub signals : List Signal
    pub signals_seq : ℕ
    pub executions : List Execution
    pub executions_seq : ℕ
    pub daily_loss_baseline : List DailyLossBaseline

abbrev pub empty_database : (F : Type 0) → Database F
empty_database F = record {
  signals = [];
  signals_seq = 0;
  executions = [];
  executions_seq = 0;
  daily_loss_baseline = [];
}
