-- ===== src/Worker/Submitting.antt =====
-- `SignalService.submit`, the ids of the table and the journal.
use native.Mathlib.Nat.{le_trans}
use mt5_execution_bridge.Prelude.{
  ℕ, List, ◌+◌, ◌≤◌, String, str_eq, ◌≡◌, refl, inl, inr, Bool, true, [], ◌⊎◌, ◌∷◌, ◌++◌, arith,
  is_none, count_if, count_if-append, Bool-cases,
}
use mt5_execution_bridge.Storage.Rows.{count_if-map}
use mt5_execution_bridge.Storage.{Signal, Database}
use mt5_execution_bridge.Storage.Schema.{new_row-count}
use mt5_execution_bridge.Storage.Arrivals.{Arrival}
use mt5_execution_bridge.Execution.Interleaved.{arrived}
use mt5_execution_bridge.Storage.Signals.{NewSignal, get_signal, pending_row, insert_signal_if_new}
use mt5_execution_bridge.Outside.{Host}
use mt5_execution_bridge.Exec.{Bridge, pure, ◌>>=◌}
use mt5_execution_bridge.Execution.Quiet.{is_taken, taken, tagged, ids}
use mt5_execution_bridge.Execution.Transactions.{transaction_lem}
use mt5_execution_bridge.Worker.{submit}
use mt5_execution_bridge.Worker.Turns.{sends, Advances}

-- Each request sent under a comment is accounted for by a signal taken from the queue, and no two
-- signals have the same id.
pub record Safe {F T : Type 0} (hash : String → String) (s : Bridge F T) : Type 0 where
  pub accounted : (tag : String) → sends tag s.journal ≤ taken (tagged hash tag) s.db
  pub unique : (i : String) → count_if (λ (j : String). str_eq j i) (ids s.db) ≤ 1

module _ {F T : Type 0} {hash : String → String} where
  pub Advances-Safe :
      (s s' : Bridge F T) → ((tag : String) → Advances hash tag s s') → Safe hash s → Safe hash s'
  Advances-Safe s s' goes safe = record {
    accounted = λ tag. (goes tag).0 (safe.accounted tag);
    unique = λ i. rw (goes "").1 (safe.unique i);
  }

module _ {F : Type 0} (signal : NewSignal F) (now : ℕ) (db : Database F) where
  -- A submission writes a row with a new id, or nothing.
  pub insert_signal_if_new_cases :
      ((insert_signal_if_new signal now db).1 ≡ db)
      ⊎ ((is_none (get_signal signal.signal_id db) ≡ true)
          × ((insert_signal_if_new signal now db).1.signals
              ≡ db.signals ++ pending_row (db.signals_seq + 1) now signal ∷ []))
  unfolding insert_signal_if_new get_signal
  insert_signal_if_new_cases = elim (Bool-cases (is_none (get_signal signal.signal_id db))) [
    | inl new ↦ inr (new, rw new refl)
    | inr old ↦ inl (rw old refl)
  ]

  insert_signal_if_new_unique :
      (i : String)
      → count_if (λ (j : String). str_eq j i) (ids db) ≤ 1
      → count_if (λ (j : String). str_eq j i) (ids (insert_signal_if_new signal now db).1) ≤ 1
  insert_signal_if_new_unique i le = elim insert_signal_if_new_cases [
    | inl same ↦ rw same le
    | inr (new, grown) ↦
        rw
          (
            count_if-map (λ (j : String). str_eq j i) (λ (r : Signal F). r.signal_id)
                (insert_signal_if_new signal now db).1.signals,
            grown,
          )
          (new_row-count signal now db i new (
            rw
              (← count_if-map (λ (j : String). str_eq j i) (λ (r : Signal F). r.signal_id)
                db.signals)
              le))
  ]

  insert_signal_if_new-taken :
      (mark : String → Bool) → taken mark db ≤ taken mark (insert_signal_if_new signal now db).1
  insert_signal_if_new-taken mark = elim insert_signal_if_new_cases [
    | inl same ↦ rw same (omega arith)
    | inr (new, grown) ↦ rw grown (
        omega (
          arith,
          count_if-append (is_taken mark) db.signals
              (pending_row (db.signals_seq + 1) now signal ∷ []),
        ))
  ]

module _ {F T : Type 0} {hash : String → String} where
  arrive-Safe :
      (signal : NewSignal F) (now : ℕ) (s : Bridge F T)
      → Safe hash s
      → Safe hash (record s { db = (insert_signal_if_new signal now s.db).1 })
  arrive-Safe signal now s safe = record {
    accounted = λ tag.
        le_trans (safe.accounted tag)
          (insert_signal_if_new-taken signal now s.db (tagged hash tag));
    unique = λ i. insert_signal_if_new_unique signal now s.db i (safe.unique i);
  }

  pub arrived-Safe :
      (new : List (Arrival F)) (s : Bridge F T) → Safe hash s → Safe hash (arrived new s)
  arrived-Safe [] s safe = safe
  arrived-Safe ((signal, now) ∷ new) s safe =
      arrived-Safe new (record s { db = (insert_signal_if_new signal now s.db).1 })
        (arrive-Safe signal now s safe)

module _ {F T : Type 0} ⦃host : Host T⦄ where
  pub submit-Safe :
      (signal : NewSignal F) (s : Bridge F T)
      → Safe host.sha256_hex s
      → Safe host.sha256_hex (submit signal s).1
  unfolding submit pure ◌>>=◌
  submit-Safe signal s safe = elim (transaction_lem (insert_signal_if_new signal) s) [
    | inl (e, t, raises) ↦ rw raises (record { accounted = safe.accounted; unique = safe.unique })
    | inr (now, t, done) ↦ rw done (
        arrive-Safe signal now (record s { outside = t })
          (record { accounted = safe.accounted; unique = safe.unique }))
  ]
