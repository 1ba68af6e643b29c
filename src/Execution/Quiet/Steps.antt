-- ===== src/Execution/Quiet/Steps.antt =====
-- The helpers of app/services/execution_service.py, as quiet actions, and `finish`, which files its
-- status.
use native.Mathlib.Nat.{le_trans}
use mt5_execution_bridge.Prelude.{
  ℕ, String, ◌≡◌, refl, ap, ◌∙◌, inl, inr, Option, none, some, List, [], ◌∷◌, arith, Option-cases,
}
use mt5_execution_bridge.Models.{ExecutionStatus, Message}
use mt5_execution_bridge.Storage.{Execution, Database}
use mt5_execution_bridge.Storage.Signals.{
  has_signal_id, get_signal, with_status, with_symbol, update_signal_status, set_symbol_normalized,
}
use mt5_execution_bridge.Storage.Executions.{
  Field, finished_at, result_message, status, assign, assign_all, update_execution,
}
use mt5_execution_bridge.Storage.Rows.{
  HasExecution, HasExecutionStatus, get_execution, find-update_where, count_if-update_where,
  map-update_where, executions-update_execution, signals-update_execution,
  update_signal_status-HasStatus, status_of-update_where, update_signal_status-other,
}
use mt5_execution_bridge.Services.Risk.{RiskCheckResult, passed, failed}
use mt5_execution_bridge.Outside.{Answer, answer, failure, Host}
use mt5_execution_bridge.Exec.{
  Event, Bridge, Exec, Outcome, ok, returned, raised, answered, continue, commit, return_early, ask,
  transaction, utc_now, ◌>>=◌,
}
use mt5_execution_bridge.Execution.Common.{record_fields, finish, reject, require, or_reject}
use mt5_execution_bridge.Execution.Quiet.{
  IsFinal, is_taken, Watch, IsKept, IsFiled, Keeps, After, Quiet, Quiet-pure, Quiet-bind,
  Quiet-utc_now, Quiet-transaction,
}

module _ {F : Type 0} (w : Watch F) where
  update_execution-IsKept : (fs : List (Field F)) → Keeps w (update_execution w.job.execution_id fs)
  unfolding get_signal
  update_execution-IsKept fs db k =
      let same = signals-update_execution w.job.execution_id fs db in
      record {
        signal = rw same k.signal;
        execution =
            rw (executions-update_execution w.job.execution_id fs db) (ground (arith, k.execution));
        taken_le = rw same k.taken_le;
        same_ids = rw same k.same_ids;
        same_status = λ i. rw same (k.same_status i);
      }

  set_symbol_normalized-IsKept :
      (symbol : String) (now : ℕ) → Keeps w (set_symbol_normalized w.job.row.signal_id symbol now)
  unfolding get_signal set_symbol_normalized
  set_symbol_normalized-IsKept symbol now db k = record {
    signal =
        rw
          (find-update_where (has_signal_id w.job.row.signal_id) (with_symbol symbol now) db.signals
            (λ r. refl))
          (ground (arith, k.signal));
    execution = k.execution;
    taken_le = le_trans k.taken_le (
        count_if-update_where (is_taken w.mark) (has_signal_id w.job.row.signal_id)
          (with_symbol symbol now) db.signals (λ r h. h));
    same_ids =
        map-update_where (λ r. r.signal_id) (has_signal_id w.job.row.signal_id)
          (with_symbol symbol now) db.signals (λ r. refl)
        ∙ k.same_ids;
    same_status = λ i.
        status_of-update_where i (has_signal_id w.job.row.signal_id) (with_symbol symbol now) db
          (λ r. refl) (λ r. refl)
        ∙ k.same_status i;
  }

  -- The first write of `finish`: the execution's status.
  update_execution-HasExecutionStatus :
      (st : ExecutionStatus) (message : Option (Message F)) (extra : List (Field F)) (now : ℕ)
      (db : Database F)
      → ((e : Execution F) → (assign_all extra e).status ≡ e.status)
      → HasExecution w.job.execution_id db
      → HasExecutionStatus w.job.execution_id st
          (update_execution w.job.execution_id
            (status st ∷ finished_at now ∷ result_message message ∷ extra)
            db).1
  unfolding assign
  update_execution-HasExecutionStatus st message extra now db leaves h =
      elim (Option-cases (get_execution w.job.execution_id db)) [
        | inl missing ↦ ground arith
        | inr (e, found) ↦
            rw (executions-update_execution w.job.execution_id _ db, found) (ap some (leaves _))
      ]

  -- The second: the signal's status, which is not PENDING.
  update_signal_status-IsFiled :
      (st : ExecutionStatus) (reason : Option (Message F)) (now : ℕ) (db : Database F)
      → IsFinal st
      → IsKept w db
      → HasExecutionStatus w.job.execution_id st db
      → IsFiled w st (update_signal_status w.job.row.signal_id st reason none now db).1
  unfolding update_signal_status
  update_signal_status-IsFiled st reason now db final k filed = record {
    settled = update_signal_status-HasStatus w.job.row.signal_id st reason none now db k.signal;
    filed = filed;
    final = final;
    others = λ i apart.
        update_signal_status-other w.job.row.signal_id i st reason none now db apart
        ∙ k.same_status i;
    taken_le = le_trans k.taken_le (
        count_if-update_where (is_taken w.mark) (has_signal_id w.job.row.signal_id)
          (with_status st reason none now) db.signals (λ r h. ground (arith, final.0)));
    same_ids =
        map-update_where (λ r. r.signal_id) (has_signal_id w.job.row.signal_id)
          (with_status st reason none now) db.signals (λ r. refl)
        ∙ k.same_ids;
  }

module _ {F T : Type 0} ⦃host : Host T⦄ {w : Watch F} where
  pub Quiet-record_fields :
      (fs : List (Field F)) → Quiet {T = T} w (record_fields w.job fs) (λ _. Unit {0})
  unfolding record_fields
  Quiet-record_fields fs =
      Quiet-transaction (λ _. update_execution w.job.execution_id fs)
        (λ _. update_execution-IsKept w fs)

  pub Quiet-set_symbol_normalized :
      (symbol : String)
      → Quiet {T = T} w
          (transaction (set_symbol_normalized w.job.row.signal_id symbol))
          (λ _. Unit {0})
  Quiet-set_symbol_normalized symbol =
      Quiet-transaction (set_symbol_normalized w.job.row.signal_id symbol)
        (set_symbol_normalized-IsKept w symbol)

-- A failed check carries a final status.
abbrev pub Settles : {F : Type 0} → RiskCheckResult F → Type 0
Settles passed = Unit
Settles (failed st _) = IsFinal st

-- After a transaction that completed, its effect `P` on the database holds.
module _ {F T A : Type 0} ⦃host : Host T⦄ (w : Watch F) (op : ℕ → Database F → A × Database F)
    (P : Database F → Type 0) where
  abbrev Done : List (Event F) → Outcome A × Bridge F T → Type 0
  Done j (ok a, s) = (s.journal ≡ j) × P s.db
  Done j (returned st, s) = ⊥
  Done j (raised e, s) = (s.journal ≡ j) × IsKept w s.db

  transaction-Done :
      (s : Bridge F T)
      → IsKept w s.db
      → ((now : ℕ) → P (op now s.db).1)
      → Done s.journal (transaction op s)
  unfolding transaction ask utc_now ◌>>=◌
  transaction-Done s k post = stored (host.storage s.outside)
    where
      timed :
          (t : T) (r : Answer ℕ × T)
          → Done s.journal
              (continue (answered r.0) (λ now. commit (op now)) (record s { outside = r.1 }))
      timed t (answer now, u) = (refl, post now)
      timed t (failure e, u) = (refl, k)

      stored :
          (r : Answer (Unit {0}) × T)
          → Done s.journal (
              continue
                (answered r.0)
                (λ _. utc_now >>= λ now. commit (op now))
                (record s { outside = r.1 }))
      stored (answer _, t) = timed t (host.utc_now t)
      stored (failure e, t) = (refl, k)

  -- What follows the transaction may rest on its effect.
  transaction_then-After :
      {B : Type 0} (R : B → Type 0) (f : A → Exec F T B) (s : Bridge F T)
      → IsKept w s.db
      → ((now : ℕ) → P (op now s.db).1)
      → ((a : A) (s' : Bridge F T) → P s'.db → After w s'.journal R (f a s'))
      → After w s.journal R ((transaction op >>= f) s)
  unfolding ◌>>=◌
  transaction_then-After {B} R f s k post rest =
      go s.journal (transaction op s) (transaction-Done s k post)
    where
      go :
          (j : List (Event F)) (r : Outcome A × Bridge F T)
          → Done j r
          → After w j R (continue r.0 f r.1)
      go j (ok a, s) (e, p) = rw (← e) (rest a s p)
      go j (returned st, s) h = absurd h
      go j (raised e, s) h = h

module _ {F T : Type 0} ⦃host : Host T⦄ {w : Watch F} {A : Type 0} {R : A → Type 0} where
  -- `finish` ends the run with its status filed.
  pub Quiet-finish :
      (st : ExecutionStatus) (message : Option (Message F)) (extra : List (Field F))
      → IsFinal st
      → ((e : Execution F) → (assign_all extra e).status ≡ e.status)
      → Quiet {T = T} w (finish {A = A} w.job st message extra) R
  unfolding finish record_fields return_early
  Quiet-finish st message extra final leaves = Quiet-bind Quiet-utc_now λ now _. record {
    at = λ s k.
        transaction_then-After w _ (λ db. IsKept w db × HasExecutionStatus w.job.execution_id st db)
          R _ s k
          (λ _. (
            update_execution-IsKept w _ s.db k,
            update_execution-HasExecutionStatus w st message extra now s.db leaves k.execution,
          ))
          (λ _ s' filed.
            transaction_then-After w _ (IsFiled w st) R _ s' filed.0
              (λ later. update_signal_status-IsFiled w st _ later s'.db final filed.0 filed.1)
              (λ _ _ h. (refl, h)));
  }

  pub Quiet-reject :
      (st : ExecutionStatus) (message : Message F)
      → IsFinal st
      → Quiet {T = T} w (reject {A = A} w.job st message) R
  Quiet-reject st message final = Quiet-finish st (some message) [] final (λ e. refl)

module _ {F T : Type 0} ⦃host : Host T⦄ {w : Watch F} where
  pub Quiet-require :
      (r : RiskCheckResult F) → Settles r → Quiet {T = T} w (require w.job r) (λ _. r ≡ passed)
  Quiet-require passed h = Quiet-pure tt refl
  Quiet-require (failed st reason) final = Quiet-reject st reason final

  pub Quiet-or_reject :
      {A : Type 0} (st : ExecutionStatus) (message : Message F) (o : Option A)
      → IsFinal st
      → Quiet {T = T} w (or_reject w.job st message o) (λ a. o ≡ some a)
  Quiet-or_reject st message none final = Quiet-reject st message final
  Quiet-or_reject st message (some a) final = Quiet-pure a refl
