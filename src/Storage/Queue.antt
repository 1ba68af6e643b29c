-- ===== src/Storage/Queue.antt =====
-- The queue's entrance: `insert_signal_if_new`.
use mt5_execution_bridge.Prelude.{
  ℕ, ◌+◌, String, eq_iff, ◌≡◌, refl, inl, inr, false, is_none, Bool-cases,
}
use mt5_execution_bridge.Storage.Tables.{Database}
use mt5_execution_bridge.Storage.Signals.{
  NewSignal, has_signal_id, get_signal, insert_or_ignore, insert_signal_if_new, pending_row,
}
use mt5_execution_bridge.Storage.Rows.{HasSignal, find-append_last}

module _ {F : Type 0} where
  insert_signal_if_new-old :
      (signal : NewSignal F) (now : ℕ) (db : Database F)
      → HasSignal signal.signal_id db
      → insert_signal_if_new signal now db ≡ ((get_signal signal.signal_id db, false), db)
  unfolding insert_signal_if_new insert_or_ignore
  insert_signal_if_new-old signal now db h = rw h refl

  insert_signal_if_new-known :
      (signal : NewSignal F) (now : ℕ) (db : Database F) (i : String)
      → signal.signal_id ≡ i
      → HasSignal i db
      → insert_signal_if_new signal now db ≡ ((get_signal i db, false), db)
  insert_signal_if_new-known signal now db i same h =
      rw (← same) (insert_signal_if_new-old signal now db (rw same h))

  insert_signal_if_new-HasSignal :
      (signal : NewSignal F) (now : ℕ) (db : Database F)
      → HasSignal signal.signal_id (insert_signal_if_new signal now db).1
  unfolding insert_signal_if_new insert_or_ignore get_signal
  insert_signal_if_new-HasSignal signal now db =
      elim (Bool-cases (is_none (get_signal signal.signal_id db))) [
        | inl new ↦ rw new (
            find-append_last (has_signal_id signal.signal_id) db.signals
              (pending_row (db.signals_seq + 1) now signal) ((eq_iff _ _).1 refl))
        | inr old ↦ rw old old
      ]

  -- After a submission the signal is in the table, and every later submission with the same id,
  -- whatever its other fields, returns the row that is there, reports that nothing was created, and
  -- leaves the database as it is.
  pub insert_signal_if_new-again :
      (signal again : NewSignal F) (now later : ℕ) (db : Database F)
      → again.signal_id ≡ signal.signal_id
      → HasSignal signal.signal_id (insert_signal_if_new signal now db).1
        × (insert_signal_if_new again later (insert_signal_if_new signal now db).1 ≡ (
          (get_signal signal.signal_id (insert_signal_if_new signal now db).1, false),
          (insert_signal_if_new signal now db).1,
        ))
  insert_signal_if_new-again signal again now later db same =
      let there = insert_signal_if_new-HasSignal signal now db in
      (there, insert_signal_if_new-known again later _ signal.signal_id same there)
