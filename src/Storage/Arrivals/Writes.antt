-- ===== src/Storage/Arrivals/Writes.antt =====
-- The statements of a run of `process_signal` commute with submissions that come in between.
use mathlib.Core.Path.{subst}
use mt5_execution_bridge.Prelude.{
  ℕ, String, ◌≡◌, refl, sym, ap, ◌∙◌, Option, List, [], ◌∷◌, is_none, find, Bool-cases, inl, inr,
}
use mt5_execution_bridge.Storage.Tables.{Database}
use mt5_execution_bridge.Storage.Signals.{
  NewSignal, get_signal, with_status, with_symbol, update_signal_status, set_symbol_normalized,
}
use mt5_execution_bridge.Storage.Executions.{
  NewExecution, insert_execution, update_execution, count_executed_trades_since,
}
use mt5_execution_bridge.Storage.Baselines.{
  is_baseline_of, get_daily_loss_baseline, set_daily_loss_baseline,
}
use mt5_execution_bridge.Storage.Rows.{HasSignal}
use mt5_execution_bridge.Storage.Arrivals.{
  Arrival, arrive, arrive_all, Write, inserts, updates, sets_status, sets_symbol, sets_baseline,
  Read, counts, finds_baseline, updated-HasSignal, arrive-new, arrive-old, arrive-HasSignal,
  updated-arrive,
}

module _ {F : Type 0} where
  -- An arrival leaves the other two tables alone, and is the same whatever they hold.
  abbrev with_tables : Database F → Database F → Database F
  with_tables tables db = record tables { signals = db.signals; signals_seq = db.signals_seq }

  arrive-with_tables :
      (signal : NewSignal F) (now : ℕ) (tables db : Database F)
      → arrive (signal, now) (with_tables tables db) ≡ with_tables tables (arrive (signal, now) db)
  unfolding get_signal
  arrive-with_tables signal now tables db =
      elim (Bool-cases (is_none (get_signal signal.signal_id db))) [
        | inl new ↦
            arrive-new signal now (with_tables tables db) new
            ∙ ap (with_tables tables) (sym (arrive-new signal now db new))
        | inr old ↦
            arrive-old signal now (with_tables tables db) old
            ∙ ap (with_tables tables) (sym (arrive-old signal now db old))
      ]

  arrive-others :
      (signal : NewSignal F) (now : ℕ) (db : Database F)
      → arrive (signal, now) db ≡ with_tables db (arrive (signal, now) db)
  arrive-others signal now db = arrive-with_tables signal now db db

  -- A query of the other tables does not see an arrival.
  Read-arrive :
      {A : Type 0} {q : Database F → A}
      → Read A q
      → (signal : NewSignal F) (now : ℕ) (db : Database F) → q (arrive (signal, now) db) ≡ q db
  unfolding count_executed_trades_since get_daily_loss_baseline
  Read-arrive (counts key since) signal now db =
      ap (count_executed_trades_since key since) (arrive-others signal now db)
  Read-arrive (finds_baseline key day) signal now db =
      ap (get_daily_loss_baseline key day) (arrive-others signal now db)

  -- A statement that works on the other tables, where the signal `i` is there.
  tables-arrive :
      {A : Type 0} (i : String) (op : Database F → A × Database F) (signal : NewSignal F) (now : ℕ)
      (db : Database F)
      → ((d : Database F)
          → HasSignal i d
          → op (with_tables db d) ≡ ((op db).0, with_tables (op db).1 d))
      → HasSignal i db
      → op (arrive (signal, now) db) ≡ ((op db).0, arrive (signal, now) (op db).1)
  tables-arrive {A} i op signal now db works h =
      ap op (arrive-others signal now db)
      ∙ works (arrive (signal, now) db) (arrive-HasSignal signal now db i h)
      ∙ ap (λ d. ((op db).0, d))
          (sym (
            ap (λ (r : A × Database F). arrive (signal, now) r.1) (works db h)
            ∙ arrive-with_tables signal now (op db).1 db))

  -- A row of `executions` for a signal that is there.
  insert_execution-there :
      (i : String) (e : NewExecution F) (tables d : Database F)
      → e.signal_id ≡ i
      → HasSignal i tables
      → HasSignal i d
      → insert_execution e (with_tables tables d)
        ≡ ((insert_execution e tables).0, with_tables (insert_execution e tables).1 d)
  unfolding insert_execution get_signal
  insert_execution-there i e tables d same h h' =
      let there = ap (λ j. is_none (get_signal j tables)) same ∙ h in
      let there' = ap (λ j. is_none (get_signal j d)) same ∙ h' in rw (there, there') refl

  set_daily_loss_baseline-there :
      (key : String) (day : ℕ) (equity : F) (later : ℕ) (tables d : Database F)
      → set_daily_loss_baseline key day equity later (with_tables tables d)
        ≡ (tt, with_tables (set_daily_loss_baseline key day equity later tables).1 d)
  unfolding set_daily_loss_baseline
  set_daily_loss_baseline-there key day equity later tables d =
      elim (Bool-cases (is_none (find (is_baseline_of key day) tables.daily_loss_baseline))) [
        | inl new ↦ rw new refl
        | inr old ↦ rw old refl
      ]

  -- A write and an arrival have the same effect in either order.
  pub Write-arrive :
      {i : String} {A : Type 0} {op : ℕ → Database F → A × Database F}
      → Write i A op
      → (later : ℕ) (signal : NewSignal F) (now : ℕ) (db : Database F) → HasSignal i db
      → op later (arrive (signal, now) db) ≡ ((op later db).0, arrive (signal, now) (op later db).1)
  unfolding update_execution update_signal_status set_symbol_normalized
  Write-arrive {i} (inserts e same) later signal now db h =
      tables-arrive i (insert_execution e) signal now db
        (λ d h'. insert_execution-there i e db d same h h') h
  Write-arrive (updates n []) later signal now db h = refl
  Write-arrive {i} (updates n (f ∷ fs)) later signal now db h =
      tables-arrive i (update_execution n (f ∷ fs)) signal now db (λ d h'. refl) h
  Write-arrive {i} (sets_status st reason symbol) later signal now db h =
      ap (λ d. (tt, d))
        (updated-arrive i (with_status st reason symbol later) signal now db (λ r. refl) h)
  Write-arrive {i} (sets_symbol symbol) later signal now db h =
      ap (λ d. (tt, d)) (updated-arrive i (with_symbol symbol later) signal now db (λ r. refl) h)
  Write-arrive {i} (sets_baseline key day equity) later signal now db h =
      tables-arrive i (set_daily_loss_baseline key day equity later) signal now db
        (λ d h'. set_daily_loss_baseline-there key day equity later db d) h

  with_tables-HasSignal :
      (i : String) (tables d : Database F) → HasSignal i d → HasSignal i (with_tables tables d)
  unfolding get_signal
  with_tables-HasSignal i tables d h = h

  -- The signal's row is there after a write.
  pub Write-HasSignal :
      {i : String} {A : Type 0} {op : ℕ → Database F → A × Database F}
      → Write i A op
      → (later : ℕ) (db : Database F) → HasSignal i db
      → HasSignal i (op later db).1
  unfolding update_execution update_signal_status set_symbol_normalized
  Write-HasSignal {i} (inserts e same) later db h =
      subst (λ (r : Option ℕ × Database F). HasSignal i r.1)
        (sym (insert_execution-there i e db db same h h))
        (with_tables-HasSignal i (insert_execution e db).1 db h)
  Write-HasSignal (updates n []) later db h = h
  Write-HasSignal {i} (updates n (f ∷ fs)) later db h =
      with_tables-HasSignal i (update_execution n (f ∷ fs) db).1 db h
  Write-HasSignal {i} (sets_status st reason symbol) later db h =
      updated-HasSignal i (with_status st reason symbol later) db (λ r. refl) h
  Write-HasSignal {i} (sets_symbol symbol) later db h =
      updated-HasSignal i (with_symbol symbol later) db (λ r. refl) h
  Write-HasSignal {i} (sets_baseline key day equity) later db h =
      subst (λ (r : Unit {0} × Database F). HasSignal i r.1)
        (sym (set_daily_loss_baseline-there key day equity later db db))
        (with_tables-HasSignal i (set_daily_loss_baseline key day equity later db).1 db h)

  -- The same for any number of arrivals.
  pub arrive_all-HasSignal :
      (i : String) (new : List (Arrival F)) (db : Database F)
      → HasSignal i db
      → HasSignal i (arrive_all new db)
  arrive_all-HasSignal i [] db h = h
  arrive_all-HasSignal i ((signal, now) ∷ new) db h =
      arrive_all-HasSignal i new (arrive (signal, now) db) (arrive-HasSignal signal now db i h)

  pub Write-arrive_all :
      {i : String} {A : Type 0} {op : ℕ → Database F → A × Database F}
      → Write i A op
      → (later : ℕ) (new : List (Arrival F)) (db : Database F) → HasSignal i db
      → op later (arrive_all new db) ≡ ((op later db).0, arrive_all new (op later db).1)
  Write-arrive_all w later [] db h = refl
  Write-arrive_all {i} {A} {op} w later ((signal, now) ∷ new) db h =
      let e = Write-arrive w later signal now db h in
      Write-arrive_all w later new (arrive (signal, now) db) (arrive-HasSignal signal now db i h)
      ∙ ap (λ (r : A × Database F). (r.0, arrive_all new r.1)) e

  pub Read-arrive_all :
      {A : Type 0} {q : Database F → A}
      → Read A q
      → (new : List (Arrival F)) (db : Database F) → q (arrive_all new db) ≡ q db
  Read-arrive_all r [] db = refl
  Read-arrive_all r ((signal, now) ∷ new) db =
      Read-arrive_all r new (arrive (signal, now) db) ∙ Read-arrive r signal now db
