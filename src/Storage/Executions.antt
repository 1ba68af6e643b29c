-- ===== src/Storage/Executions.antt =====
-- The statements of app/storage/database.py on the table `executions`.
use mt5_execution_bridge.Prelude.{
  ℕ, ◌+◌, String, str_eq, Bool, false, ◌&&◌, Option, none, some, List, [], ◌∷◌, ◌++◌, leb, ◌==◌,
  is_none, count_if, select, update_where, if◌then◌else◌,
}
use mt5_execution_bridge.Models.{SignalAction, ExecutionStatus, processing, is_trade, Message}
use mt5_execution_bridge.Storage.Tables.{Execution, Database}
use mt5_execution_bridge.Storage.Signals.{get_signal}

module _ (F : Type 0) where
  -- One `column = :value` of the dictionary that `update_execution` takes.
  pub data Field : Type 0 where
    account_key mt5_symbol : String → Field
    finished_at : ℕ → Field
    entry_price calculated_volume : F → Field
    order_check_retcode order_send_retcode order_ticket deal_ticket : Option ℕ → Field
    executed_volume executed_price : Option F → Field
    result_message : Option (Message F) → Field
    status : ExecutionStatus → Field

  -- The entries of `execution_fields` that are not the constants of every first insert.
  pub record NewExecution : Type 0 where
    pub signal_id : String
    pub attempt : ℕ
    pub started_at : ℕ
    pub dry_run : Bool
    pub requested_action : SignalAction
    pub stop_loss : Option F
    pub take_profit : Option F

-- `account_key = ?` is not true of a row whose account is NULL.
abbrev pub has_account : String → Option String → Bool
has_account k none = false
has_account k (some a) = str_eq a k

module _ {F : Type 0} where
  abbrev pub open_row : ℕ → NewExecution F → Execution F
  open_row n e = record {
    id = n;
    signal_id = e.signal_id;
    account_key = none;
    attempt = e.attempt;
    started_at = e.started_at;
    finished_at = none;
    dry_run = e.dry_run;
    mt5_symbol = none;
    requested_action = e.requested_action;
    calculated_volume = none;
    entry_price = none;
    stop_loss = e.stop_loss;
    take_profit = e.take_profit;
    order_check_retcode = none;
    order_send_retcode = none;
    order_ticket = none;
    deal_ticket = none;
    executed_volume = none;
    executed_price = none;
    result_message = none;
    status = processing;
  }

  -- The new id; `none` is the IntegrityError of the foreign key: no signal has this `signal_id`.
  unfoldable pub insert_execution : NewExecution F → Database F → Option ℕ × Database F
  insert_execution e db = if is_none (get_signal e.signal_id db) then (none, db) else (
    some (db.executions_seq + 1),
    record db {
      executions = db.executions ++ open_row (db.executions_seq + 1) e ∷ [];
      executions_seq = db.executions_seq + 1;
    },
  )

  unfoldable pub assign : Field F → Execution F → Execution F
  assign (account_key k) e = record e { account_key = some k }
  assign (mt5_symbol m) e = record e { mt5_symbol = some m }
  assign (finished_at t) e = record e { finished_at = some t }
  assign (entry_price p) e = record e { entry_price = some p }
  assign (calculated_volume v) e = record e { calculated_volume = some v }
  assign (order_check_retcode c) e = record e { order_check_retcode = c }
  assign (order_send_retcode c) e = record e { order_send_retcode = c }
  assign (order_ticket n) e = record e { order_ticket = n }
  assign (deal_ticket n) e = record e { deal_ticket = n }
  assign (executed_volume v) e = record e { executed_volume = v }
  assign (executed_price p) e = record e { executed_price = p }
  assign (result_message m) e = record e { result_message = m }
  assign (status s) e = record e { status = s }

  abbrev pub assign_all : List (Field F) → Execution F → Execution F
  assign_all [] e = e
  assign_all (f ∷ fs) e = assign_all fs (assign f e)

  -- `WHERE id = :id`
  abbrev pub has_id : ℕ → Execution F → Bool
  has_id n e = e.id == n

  unfoldable pub update_execution : ℕ → List (Field F) → Database F → Unit {0} × Database F
  update_execution n [] db = (tt, db)
  update_execution n (f ∷ fs) db =
      (tt, record db { executions = update_where (has_id n) (assign_all (f ∷ fs)) db.executions })

  abbrev pub by_attempt : Execution F → List (Execution F) → List (Execution F)
  by_attempt e [] = e ∷ []
  by_attempt e (d ∷ ds) =
      let rest = by_attempt e ds in if leb e.attempt d.attempt then e ∷ d ∷ ds else d ∷ rest

  -- `ORDER BY attempt ASC`, rows of one attempt as they were inserted
  abbrev pub order_by_attempt : List (Execution F) → List (Execution F)
  order_by_attempt [] = []
  order_by_attempt (e ∷ es) = by_attempt e (order_by_attempt es)

  unfoldable pub get_executions_for_signal : String → Database F → List (Execution F)
  get_executions_for_signal i db =
      order_by_attempt (select (λ e. str_eq e.signal_id i) db.executions)

  abbrev pub counts_since : String → ℕ → Execution F → Bool
  counts_since k since e =
      is_trade e.status && has_account k e.account_key && leb since e.started_at

  unfoldable pub count_executed_trades_since : String → ℕ → Database F → ℕ
  count_executed_trades_since k since db = count_if (counts_since k since) db.executions
