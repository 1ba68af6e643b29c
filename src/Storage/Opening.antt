-- ===== src/Storage/Opening.antt =====
-- `Database.__init__` and `_init_schema` of app/storage/database.py, and SCHEMA_STATEMENTS of
-- app/storage/migrations.py. Each statement is a transaction of its own, so that a process that dies
-- while it opens the database leaves the first few of them behind.
pub mod Resuming
use mt5_execution_bridge.Prelude.{
  str_eq, String, ◌&&◌, ◌||◌, not, if◌then◌else◌, ℕ, Bool, true, false, ◌≡◌, refl, sym, ap, ◌∙◌,
  Option, none, some, List, [], ◌∷◌, ◌++◌, is_none, get_or, arith,
}
use mt5_execution_bridge.Storage.Tables.{
  Signal, Execution, DailyLossBaseline, Database, empty_database,
}

-- A table: its columns, its rows, and the last id where it has AUTOINCREMENT. A table that an older
-- schema made has fewer columns; what they would hold is absent in its rows.
pub record Table (A : Type 0) : Type 0 where
  pub columns : List String
  pub rows : List A
  pub last_id : ℕ

-- What is in the file: the tables and the indexes that were created.
pub record DatabaseFile (F : Type 0) : Type 0 where
  pub signals : Option (Table (Signal F))
  pub executions : Option (Table (Execution F))
  pub daily_loss_baseline : Option (Table (DailyLossBaseline F))
  pub idx_signals_status : Bool
  pub idx_executions_signal_id : Bool
  pub idx_executions_account_started : Bool

pub data SchemaStatement : Type 0 where
  create_signals create_executions create_daily_loss_baseline : SchemaStatement
  create_idx_signals_status create_idx_executions_signal_id : SchemaStatement
  create_idx_executions_account_started : SchemaStatement

abbrev pub schema_statements : List SchemaStatement
schema_statements =
    create_signals ∷ create_executions ∷ create_daily_loss_baseline ∷ create_idx_signals_status
    ∷ create_idx_executions_signal_id ∷ create_idx_executions_account_started ∷ []

abbrev pub signals_columns : List String
signals_columns =
    "id" ∷ "signal_id" ∷ "received_at" ∷ "signal_timestamp" ∷ "symbol_raw" ∷ "symbol_normalized"
    ∷ "action" ∷ "risk_percent" ∷ "stop_loss" ∷ "take_profit" ∷ "strategy" ∷ "comment" ∷ "status"
    ∷ "rejection_reason" ∷ "attempt_count" ∷ "last_attempt_at" ∷ "created_at" ∷ "updated_at" ∷ []

abbrev pub executions_columns : List String
executions_columns =
    "id" ∷ "signal_id" ∷ "account_key" ∷ "attempt" ∷ "started_at" ∷ "finished_at" ∷ "dry_run"
    ∷ "mt5_symbol" ∷ "requested_action" ∷ "calculated_volume" ∷ "entry_price" ∷ "stop_loss"
    ∷ "take_profit" ∷ "order_check_retcode" ∷ "order_send_retcode" ∷ "order_ticket" ∷ "deal_ticket"
    ∷ "executed_volume" ∷ "executed_price" ∷ "result_message" ∷ "status" ∷ []

abbrev pub baseline_columns : List String
baseline_columns = "account_key" ∷ "trading_day" ∷ "baseline_equity" ∷ "recorded_at" ∷ []

abbrev pub empty_table : {A : Type 0} → List String → Table A
empty_table columns = record { columns = columns; rows = []; last_id = 0 }

abbrev pub has_column : String → List String → Bool
has_column c [] = false
has_column c (d ∷ ds) = str_eq c d || has_column c ds

abbrev pub has_all : List String → List String → Bool
has_all [] ds = true
has_all (c ∷ cs) ds = has_column c ds && has_all cs ds

-- A new file.
abbrev pub new_file : (F : Type 0) → DatabaseFile F
new_file F = record {
  signals = none;
  executions = none;
  daily_loss_baseline = none;
  idx_signals_status = false;
  idx_executions_signal_id = false;
  idx_executions_account_started = false;
}

-- `CREATE TABLE IF NOT EXISTS`
abbrev pub if_not_exists : {A : Type 0} → A → Option A → Option A
if_not_exists new none = some new
if_not_exists new (some old) = some old

-- `CREATE INDEX IF NOT EXISTS`: `f` as it is where the index is there, and `f'` with the index. An
-- OperationalError, `none`, where the table is not there, or a column of a new index is not in it.
abbrev pub create_index : {A B : Type 0} → Bool → List String → Option (Table A) → B → B → Option B
create_index made columns none f f' = none
create_index true columns (some t) f f' = some f
create_index false columns (some t) f f' = if has_all columns t.columns then some f' else none

abbrev pub is_current : {A : Type 0} → List String → Option (Table A) → Bool
is_current columns none = true
is_current columns (some t) = has_all columns t.columns

module _ {F : Type 0} where
  unfoldable pub execute : SchemaStatement → DatabaseFile F → Option (DatabaseFile F)
  execute create_signals f =
      some (record f { signals = if_not_exists (empty_table signals_columns) f.signals })
  execute create_executions f =
      some (record f { executions = if_not_exists (empty_table executions_columns) f.executions })
  execute create_daily_loss_baseline f = some (record f {
    daily_loss_baseline = if_not_exists (empty_table baseline_columns) f.daily_loss_baseline;
  })
  execute create_idx_signals_status f =
      create_index f.idx_signals_status ("status" ∷ []) f.signals f
        (record f { idx_signals_status = true })
  execute create_idx_executions_signal_id f =
      create_index f.idx_executions_signal_id ("signal_id" ∷ []) f.executions f
        (record f { idx_executions_signal_id = true })
  execute create_idx_executions_account_started f =
      create_index f.idx_executions_account_started ("account_key" ∷ "started_at" ∷ []) f.executions
        f (record f { idx_executions_account_started = true })

  abbrev and_then :
      Option (DatabaseFile F) → (DatabaseFile F → Option (DatabaseFile F)) → Option (DatabaseFile F)
  and_then none go = none
  and_then (some f) go = go f

  -- `for statement in ...: self._conn.execute(statement)`
  unfoldable pub execute_all : List SchemaStatement → DatabaseFile F → Option (DatabaseFile F)
  unfolding execute
  execute_all [] f = some f
  execute_all (st ∷ sts) f = and_then (execute st f) (execute_all sts)

  -- `_init_schema`
  unfoldable pub init_schema : DatabaseFile F → Option (DatabaseFile F)
  unfolding execute_all
  init_schema = execute_all schema_statements

  -- The tables that are there have the columns of the schema.
  abbrev pub has_columns : DatabaseFile F → Bool
  has_columns f =
      is_current signals_columns f.signals
      && is_current executions_columns f.executions
      && is_current baseline_columns f.daily_loss_baseline

  -- The tables as the statements of `Database` see them. Where a table is missing, or a column that
  -- they name, they raise: `none`.
  abbrev pub tables_of : DatabaseFile F → Option (Database F)
  tables_of f = if not (has_columns f) then none else elim f.signals [
    | none ↦ none
    | some signals ↦ elim f.executions [
      | none ↦ none
      | some executions ↦ elim f.daily_loss_baseline [
        | none ↦ none
        | some baselines ↦ some (record {
          signals = signals.rows;
          signals_seq = signals.last_id;
          executions = executions.rows;
          executions_seq = executions.last_id;
          daily_loss_baseline = baselines.rows;
        })
      ]
    ]
  ]

  -- The file with all that the schema names.
  abbrev pub completed : DatabaseFile F → DatabaseFile F
  completed f = record {
    signals = if_not_exists (empty_table signals_columns) f.signals;
    executions = if_not_exists (empty_table executions_columns) f.executions;
    daily_loss_baseline = if_not_exists (empty_table baseline_columns) f.daily_loss_baseline;
    idx_signals_status = true;
    idx_executions_signal_id = true;
    idx_executions_account_started = true;
  }
