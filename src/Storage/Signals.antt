-- ===== src/Storage/Signals.antt =====
-- The statements of app/storage/database.py on the table `signals`. Each function is one locked
-- transaction; `now` is the clock that the transaction reads.
use mt5_execution_bridge.Prelude.{
  ℕ, suc, ◌+◌, String, str_eq, Bool, true, false, ◌&&◌, Option, none, some, List, [], ◌∷◌, ◌++◌,
  ltb, is_none, count_if, select, find, update_where, if◌then◌else◌,
}
use mt5_execution_bridge.Models.{
  SignalAction, ExecutionStatus, pending, processing, is_pending, is_processing, Message,
}
use mt5_execution_bridge.Storage.Tables.{Timestamp, Signal, Database}

-- The dictionary that `SignalService.submit` passes.
pub record NewSignal (F : Type 0) : Type 0 where
  pub signal_id : String
  pub timestamp : Timestamp
  pub symbol : String
  pub action : SignalAction
  pub risk_percent : F
  pub stop_loss : Option F
  pub take_profit : Option F
  pub strategy : Option String
  pub comment : Option String

-- `COALESCE(?, column)`
abbrev pub coalesce {ℓ} : {A : Type ℓ} → Option A → Option A → Option A
coalesce none b = b
coalesce (some a) _ = some a

module _ {F : Type 0} where
  -- `WHERE signal_id = ?`
  abbrev pub has_signal_id : String → Signal F → Bool
  has_signal_id i r = str_eq r.signal_id i

  -- `WHERE status = 'PENDING'`
  abbrev pub row_is_pending : Signal F → Bool
  row_is_pending r = is_pending r.status

  abbrev pub row_is_processing : Signal F → Bool
  row_is_processing r = is_processing r.status

  unfoldable pub get_signal : String → Database F → Option (Signal F)
  get_signal i db = find (has_signal_id i) db.signals

  -- The row that the INSERT writes: the given fields, `NULL`s, 'PENDING', and no attempt.
  abbrev pub pending_row : ℕ → ℕ → NewSignal F → Signal F
  pending_row n now s = record {
    id = n;
    signal_id = s.signal_id;
    received_at = now;
    signal_timestamp = s.timestamp;
    symbol_raw = s.symbol;
    symbol_normalized = none;
    action = s.action;
    risk_percent = s.risk_percent;
    stop_loss = s.stop_loss;
    take_profit = s.take_profit;
    strategy = s.strategy;
    comment = s.comment;
    status = pending;
    rejection_reason = none;
    attempt_count = 0;
    last_attempt_at = none;
    created_at = now;
    updated_at = now;
  }

  -- `INSERT OR IGNORE`, by the UNIQUE constraint on `signal_id`: whether a row was written.
  unfoldable pub insert_or_ignore : NewSignal F → ℕ → Database F → Bool × Database F
  unfolding get_signal
  insert_or_ignore s now db =
      if is_none (get_signal s.signal_id db)
      then (
        true,
        record db {
          signals = db.signals ++ pending_row (db.signals_seq + 1) now s ∷ [];
          signals_seq = db.signals_seq + 1;
        },
      )
      else (false, db)

  unfoldable pub insert_signal_if_new :
      NewSignal F → ℕ → Database F → (Option (Signal F) × Bool) × Database F
  unfolding insert_or_ignore get_signal
  insert_signal_if_new s now db =
      let (created, db') = insert_or_ignore s now db in ((get_signal s.signal_id db', created), db')

  abbrev pub older : Signal F → Option (Signal F) → Option (Signal F)
  older r none = some r
  older r (some q) = if ltb q.id r.id then some q else some r

  -- `ORDER BY id ASC LIMIT 1`
  abbrev pub oldest : List (Signal F) → Option (Signal F)
  oldest [] = none
  oldest (r ∷ rs) = older r (oldest rs)

  -- The row after the UPDATE of `claim_next_pending`.
  abbrev pub claimed : ℕ → Signal F → Signal F
  claimed now r = record r {
    status = processing;
    attempt_count = r.attempt_count + 1;
    last_attempt_at = some now;
    updated_at = now;
  }

  -- `WHERE signal_id = ? AND status = 'PENDING'`
  abbrev pub is_claimable : String → Signal F → Bool
  is_claimable i r = has_signal_id i r && row_is_pending r

  unfoldable pub claim : Signal F → ℕ → Database F → Option (Signal F) × Database F
  unfolding get_signal
  claim r now db =
      let db' : Database F = record db {
        signals = update_where (is_claimable r.signal_id) (claimed now) db.signals;
      } in
      elim (count_if (is_claimable r.signal_id) db.signals) [
        | ℕ.zero ↦ (none, db')
        | suc _ ↦ (get_signal r.signal_id db', db')
      ]

  unfoldable pub claim_next_pending : ℕ → Database F → Option (Signal F) × Database F
  unfolding claim
  claim_next_pending now db = elim (oldest (select row_is_pending db.signals)) [
    | none ↦ (none, db)
    | some r ↦ claim r now db
  ]

  -- The rows that the three UPDATEs below write.
  abbrev pub with_status :
      ExecutionStatus → Option (Message F) → Option String → ℕ → Signal F → Signal F
  with_status st reason symbol now r = record r {
    status = st;
    rejection_reason = reason;
    symbol_normalized = coalesce symbol r.symbol_normalized;
    updated_at = now;
  }

  abbrev pub requeued : ℕ → Signal F → Signal F
  requeued now r = record r { status = pending; updated_at = now }

  abbrev pub with_symbol : String → ℕ → Signal F → Signal F
  with_symbol symbol now r = record r { symbol_normalized = some symbol; updated_at = now }

  unfoldable pub update_signal_status :
      String
      → ExecutionStatus
      → Option (Message F)
      → Option String
      → ℕ
      → Database F
      → Unit {0} × Database F
  update_signal_status i st reason symbol now db = (
    tt,
    record db {
      signals = update_where (has_signal_id i) (with_status st reason symbol now) db.signals;
    },
  )

  unfoldable pub requeue_signal : String → ℕ → Database F → Unit {0} × Database F
  requeue_signal i now db =
      (tt, record db { signals = update_where (has_signal_id i) (requeued now) db.signals })

  unfoldable pub find_stuck_processing : Database F → List (Signal F)
  find_stuck_processing db = select row_is_processing db.signals

  unfoldable pub set_symbol_normalized : String → String → ℕ → Database F → Unit {0} × Database F
  set_symbol_normalized i symbol now db = (
    tt,
    record db { signals = update_where (has_signal_id i) (with_symbol symbol now) db.signals },
  )
