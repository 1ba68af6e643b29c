-- ===== src/Storage/Schema/Statements.antt =====
-- Every statement keeps the constraints of the schema.
use mathlib.Core.Path.{subst}
use mt5_execution_bridge.Prelude.{
  All-mono, eq_iff, ℕ, suc, ◌+◌, ◌≤◌, String, str_eq, ◌≡◌, refl, sym, ap, ◌∙◌, Bool, true, Option,
  none, some, List, [], ◌∷◌, ◌++◌, arith, is_none, find, count_if, count_if-append, update_where,
  select, Bool-cases, inl, inr,
}
use mt5_execution_bridge.Models.{ExecutionStatus, Message}
use mt5_execution_bridge.Storage.Tables.{Signal, Execution, DailyLossBaseline, Database}
use mt5_execution_bridge.Storage.Signals.{
  NewSignal, has_signal_id, get_signal, pending_row, oldest, row_is_pending, claimed, is_claimable,
  claim, claim_next_pending, with_status, with_symbol, update_signal_status, set_symbol_normalized,
}
use mt5_execution_bridge.Storage.Executions.{
  NewExecution, Field, assign, assign_all, has_id, open_row, insert_execution, update_execution,
}
use mt5_execution_bridge.Storage.Baselines.{is_baseline_of, set_daily_loss_baseline}
use mt5_execution_bridge.Storage.Rows.{HasSignal, assign_all-id, find-none_count}
use mt5_execution_bridge.Storage.Arrivals.{
  Arrival, arrive_all, Write, inserts, updates, sets_status, sets_symbol, sets_baseline, arrive,
  arrive-new, arrive-old, with_row-HasSignal, is_none-find-update_where,
}
use mt5_execution_bridge.Storage.Schema.{
  Numbered-append, Numbered-update_where, count_if-update_where_same, All-update_where,
  All-append_last, new_row-count, WellFormed,
}

module _ {F : Type 0} where
  -- An UPDATE of signals that writes neither of the ids.
  signals-WellFormed :
      (q : Signal F → Bool) (f : Signal F → Signal F) (db : Database F)
      → ((r : Signal F) → (f r).id ≡ r.id)
      → ((r : Signal F) → (f r).signal_id ≡ r.signal_id)
      → WellFormed db
      → WellFormed (record db { signals = update_where q f db.signals })
  unfolding get_signal
  signals-WellFormed q f db same_id same w = record {
    signal_ids =
        Numbered-update_where (λ r. r.id) q f 0 db.signals_seq db.signals same_id w.signal_ids;
    unique_signals = λ i.
        rw
          (count_if-update_where_same (has_signal_id i) q f db.signals
            (λ r. ap (λ j. str_eq j i) (same r)))
          (w.unique_signals i);
    execution_ids = w.execution_ids;
    references =
        All-mono
          (λ e h.
            is_none-find-update_where (has_signal_id e.signal_id) q f db.signals
              (λ r. ap (λ j. str_eq j e.signal_id) (same r))
            ∙ h)
          db.executions w.references;
    unique_baselines = w.unique_baselines;
  }

  pub arrive-WellFormed :
      (signal : NewSignal F) (now : ℕ) (db : Database F)
      → WellFormed db
      → WellFormed (arrive (signal, now) db)
  arrive-WellFormed signal now db w = elim (Bool-cases (is_none (get_signal signal.signal_id db))) [
    | inl new ↦ subst WellFormed (sym (arrive-new signal now db new)) (record {
      signal_ids =
          Numbered-append (λ r. r.id) 0 db.signals_seq db.signals
            (pending_row (db.signals_seq + 1) now signal) refl w.signal_ids;
      unique_signals = λ i. new_row-count signal now db i new (w.unique_signals i);
      execution_ids = w.execution_ids;
      references =
          All-mono (λ e h. with_row-HasSignal signal now db e.signal_id h) db.executions
            w.references;
      unique_baselines = w.unique_baselines;
    })
    | inr old ↦ subst WellFormed (sym (arrive-old signal now db old)) w
  ]

  claim-WellFormed :
      (q : Signal F) (now : ℕ) (db : Database F) → WellFormed db → WellFormed (claim q now db).1
  unfolding claim
  claim-WellFormed q now db w =
      counted (count_if (is_claimable q.signal_id) db.signals)
        (signals-WellFormed (is_claimable q.signal_id) (claimed now) db (λ r. refl) (λ r. refl) w)
    where
      after : Database F
      after = record db {
        signals = update_where (is_claimable q.signal_id) (claimed now) db.signals;
      }

      result : ℕ → Option (Signal F) × Database F
      result n = elim n [ ℕ.zero ↦ (none, after) | suc _ ↦ (get_signal q.signal_id after, after) ]

      counted : (n : ℕ) → WellFormed after → WellFormed (result n).1
      counted ℕ.zero h = h
      counted (suc n) h = h

  pub claim_next_pending-WellFormed :
      (now : ℕ) (db : Database F) → WellFormed db → WellFormed (claim_next_pending now db).1
  unfolding claim_next_pending
  claim_next_pending-WellFormed now db w = chosen (oldest (select row_is_pending db.signals))
    where
      result : Option (Signal F) → Option (Signal F) × Database F
      result o = elim o [ none ↦ (none, db) | some r ↦ claim r now db ]

      chosen : (o : Option (Signal F)) → WellFormed (result o).1
      chosen none = w
      chosen (some r) = claim-WellFormed r now db w

  -- A row of `executions` for a signal that is there.
  insert_execution-WellFormed :
      (e : NewExecution F) (db : Database F)
      → HasSignal e.signal_id db
      → WellFormed db
      → WellFormed (insert_execution e db).1
  unfolding insert_execution get_signal
  insert_execution-WellFormed e db there w = rw there (record {
    signal_ids = w.signal_ids;
    unique_signals = w.unique_signals;
    execution_ids =
        Numbered-append (λ x. x.id) 0 db.executions_seq db.executions
          (open_row (db.executions_seq + 1) e) refl w.execution_ids;
    references =
        All-append_last _ db.executions (open_row (db.executions_seq + 1) e) w.references there;
    unique_baselines = w.unique_baselines;
  })

  assign-signal_id : (f : Field F) (e : Execution F) → (assign f e).signal_id ≡ e.signal_id
  unfolding assign
  assign-signal_id (Field.account_key k) e = refl
  assign-signal_id _ e = refl

  assign_all-signal_id :
      (fs : List (Field F)) (e : Execution F) → (assign_all fs e).signal_id ≡ e.signal_id
  assign_all-signal_id [] e = refl
  assign_all-signal_id (f ∷ fs) e = cc (assign_all-signal_id fs (assign f e), assign-signal_id f e)

  update_execution-WellFormed :
      (n : ℕ) (fs : List (Field F)) (db : Database F)
      → WellFormed db
      → WellFormed (update_execution n fs db).1
  unfolding update_execution get_signal
  update_execution-WellFormed n [] db w = w
  update_execution-WellFormed n (f ∷ fs) db w = record {
    signal_ids = w.signal_ids;
    unique_signals = w.unique_signals;
    execution_ids =
        Numbered-update_where (λ x. x.id) (has_id n) (assign_all (f ∷ fs)) 0 db.executions_seq
          db.executions (assign_all-id (f ∷ fs)) w.execution_ids;
    references =
        All-update_where (λ (x : Execution F). HasSignal x.signal_id db) (has_id n)
          (assign_all (f ∷ fs)) db.executions
          (λ e h. subst (λ i. HasSignal i db) (sym (assign_all-signal_id (f ∷ fs) e)) h)
          w.references;
    unique_baselines = w.unique_baselines;
  }

  abbrev new_baseline : String → ℕ → F → ℕ → DailyLossBaseline F
  new_baseline key day equity now = record {
    account_key = key;
    trading_day = day;
    baseline_equity = equity;
    recorded_at = now;
  }

  new_baseline-count :
      (key : String) (day : ℕ) (equity : F) (now : ℕ) (rows : List (DailyLossBaseline F))
      (key' : String) (day' : ℕ)
      → is_none (find (is_baseline_of key day) rows) ≡ true
      → count_if (is_baseline_of key' day') rows ≤ 1
      → count_if (is_baseline_of key' day') (rows ++ new_baseline key day equity now ∷ []) ≤ 1
  new_baseline-count key day equity now rows key' day' new le =
      let row = new_baseline key day equity now in
      let counts = count_if-append (is_baseline_of key' day') rows (row ∷ []) in
      elim (Bool-cases (is_baseline_of key' day' row)) [
        | inl hit ↦
            let same_key : key ≡ key' = (eq_iff key key').0 (ground (arith, hit)) in
            let same_day : day ≡ day' = ground (arith, hit) in
            let none_yet : is_none (find (is_baseline_of key' day') rows) ≡ true =
              subst (λ d. is_none (find (is_baseline_of key' d) rows) ≡ true) same_day
                (subst (λ k. is_none (find (is_baseline_of k day) rows) ≡ true) same_key new) in
            ground (arith, counts, hit, find-none_count (is_baseline_of key' day') rows none_yet)
        | inr miss ↦ ground (arith, counts, miss, le)
      ]

  set_daily_loss_baseline-WellFormed :
      (key : String) (day : ℕ) (equity : F) (now : ℕ) (db : Database F)
      → WellFormed db
      → WellFormed (set_daily_loss_baseline key day equity now db).1
  unfolding set_daily_loss_baseline get_signal
  set_daily_loss_baseline-WellFormed key day equity now db w =
      elim (Bool-cases (is_none (find (is_baseline_of key day) db.daily_loss_baseline))) [
        | inl new ↦ rw new (record {
          signal_ids = w.signal_ids;
          unique_signals = w.unique_signals;
          execution_ids = w.execution_ids;
          references = w.references;
          unique_baselines = λ key' day'.
              new_baseline-count key day equity now db.daily_loss_baseline key' day' new
                (w.unique_baselines key' day');
        })
        | inr old ↦ rw old w
      ]

  pub update_signal_status-WellFormed :
      (i : String) (st : ExecutionStatus) (reason : Option (Message F)) (symbol : Option String)
      (now : ℕ) (db : Database F)
      → WellFormed db
      → WellFormed (update_signal_status i st reason symbol now db).1
  unfolding update_signal_status
  update_signal_status-WellFormed i st reason symbol now db w =
      signals-WellFormed (has_signal_id i) (with_status st reason symbol now) db (λ r. refl)
        (λ r. refl) w

  -- Every write of a run, where the run's signal is in the table.
  pub Write-WellFormed :
      {i : String} {A : Type 0} {op : ℕ → Database F → A × Database F}
      → Write i A op
      → (now : ℕ) (db : Database F) → HasSignal i db
      → WellFormed db
      → WellFormed (op now db).1
  unfolding set_symbol_normalized
  Write-WellFormed (inserts e same) now db h w =
      insert_execution-WellFormed e db (subst (λ j. HasSignal j db) (sym same) h) w
  Write-WellFormed (updates n fs) now db h w = update_execution-WellFormed n fs db w
  Write-WellFormed {i} (sets_status st reason symbol) now db h w =
      update_signal_status-WellFormed i st reason symbol now db w
  Write-WellFormed {i} (sets_symbol symbol) now db h w =
      signals-WellFormed (has_signal_id i) (with_symbol symbol now) db (λ r. refl) (λ r. refl) w
  Write-WellFormed (sets_baseline key day equity) now db h w =
      set_daily_loss_baseline-WellFormed key day equity now db w

  pub arrive_all-WellFormed :
      (new : List (Arrival F)) (db : Database F) → WellFormed db → WellFormed (arrive_all new db)
  arrive_all-WellFormed [] db w = w
  arrive_all-WellFormed ((signal, now) ∷ new) db w =
      arrive_all-WellFormed new _ (arrive-WellFormed signal now db w)
