-- ===== src/Api/Posting.antt =====
-- POST /api/signals (app/api/signals.py), branch by branch.
use mt5_execution_bridge.Prelude.{
  ℕ, ◌+◌, eq_iff, ◌≡◌, refl, ap, ◌⊎◌, inl, inr, Bool, true, false, not, Option, none, some, [], ◌∷◌,
  ◌++◌, is_none, find, Bool-cases, Option-cases, sym, ◌∙◌,
}
use mt5_execution_bridge.Float.{Float}
use mt5_execution_bridge.Models.{pending}
use mt5_execution_bridge.Storage.{Signal, Database}
use mt5_execution_bridge.Storage.Signals.{
  NewSignal, has_signal_id, get_signal, pending_row, insert_or_ignore, insert_signal_if_new,
}
use mt5_execution_bridge.Storage.Rows.{HasStatus, find-append_new}
use mt5_execution_bridge.Outside.{Failure, Host}
use mt5_execution_bridge.Exec.{Bridge, Outcome, ok, returned, raised, pure, ◌>>=◌}
use mt5_execution_bridge.Execution.Transactions.{transaction_lem}
use mt5_execution_bridge.Worker.{submit}
use mt5_execution_bridge.Api.Response.{Response, success, http_error}
use mt5_execution_bridge.Api.Signals.{
  SignalFields, SignalCreate, SignalAcceptedResponse, signal_create,
}

module _ {F : Type 0} (signal : NewSignal F) (now : ℕ) (db : Database F) where
  -- The row that a submission returns: a new one, or the one that is there.
  pub record Stored (row : Signal F) (created : Bool) (db' : Database F) : Type 0 where
    pub there : get_signal signal.signal_id db' ≡ some row
    pub new :
        created ≡ true
        → (get_signal signal.signal_id db ≡ none)
          × (row ≡ pending_row (db.signals_seq + 1) now signal)
    pub old : created ≡ false → db' ≡ db

  pub insert_signal_if_new-Stored :
      (row : Signal F) × (created : Bool) × (db' : Database F) × (insert_signal_if_new signal now db
        ≡ ((some row, created), db'))
      × Stored row created db'
  unfolding insert_signal_if_new insert_or_ignore get_signal
  insert_signal_if_new-Stored =
      elim (Option-cases (find (has_signal_id signal.signal_id) db.signals)) [
        | inl missing ↦
            let found =
              find-append_new (has_signal_id signal.signal_id) db.signals
                (pending_row (db.signals_seq + 1) now signal) (ap is_none missing)
                ((eq_iff _ _).1 refl) in
            (
              pending_row (db.signals_seq + 1) now signal,
              true,
              record db {
                signals = db.signals ++ pending_row (db.signals_seq + 1) now signal ∷ [];
                signals_seq = db.signals_seq + 1;
              },
              rw (missing, found) refl,
              record { there = found; new = λ _. (missing, refl); old = λ h. cc },
            )
        | inr (row, there) ↦ (
          row,
          false,
          db,
          rw (there, there) refl,
          record { there = there; new = λ h. cc; old = λ _. refl },
        )
      ]

  -- A submission with a new id stores a new row.
  pub insert_signal_if_new-new :
      get_signal signal.signal_id db ≡ none
      → (db' : Database F) × (insert_signal_if_new signal now db
          ≡ ((some (pending_row (db.signals_seq + 1) now signal), true), db'))
        × (get_signal signal.signal_id db' ≡ some (pending_row (db.signals_seq + 1) now signal))
  insert_signal_if_new-new missing =
      let (row, created, db', e, stored) = insert_signal_if_new-Stored in
      elim (Bool-cases created) [
        | inl is_new ↦
            let (_, same) = stored.new is_new in
            (db', rw (e, is_new, same) refl, stored.there ∙ ap some same)
        | inr is_old ↦
            let absent : none ≡ some row =
              sym missing
              ∙ ap (get_signal signal.signal_id) (sym (stored.old is_old))
              ∙ stored.there in
            cc
      ]

module _ {F T : Type 0} ⦃host : Host T⦄ (signal : NewSignal F) (s : Bridge F T) where
  -- A submission raises and leaves the database alone, or stores the signal.
  abbrev pub Submitted : Outcome (Option (Signal F) × Bool) × Bridge F T → Type 0
  Submitted r =
      ((e : Failure) × (t : T) × (r ≡ (raised e, record s { outside = t })))
      ⊎ ((now : ℕ) × (row : Signal F) × (created : Bool) × (db : Database F) × (t : T) × (r
            ≡ (ok (some row, not created), record s { outside = t; db = db }))
          × Stored signal now s.db row created db)

  pub submit-Submitted : Submitted (submit signal s)
  unfolding submit pure ◌>>=◌
  submit-Submitted = elim (transaction_lem (insert_signal_if_new signal) s) [
    | inl (x, t, raises) ↦ rw raises (inl (x, t, refl))
    | inr (now, t, done) ↦
        let (row, created, db, e, stored) = insert_signal_if_new-Stored signal now s.db in
        rw (done, e) (inr (now, row, created, db, t, refl, stored))
  ]

module _ {F T : Type 0} ⦃float : Float F⦄ (fields : SignalFields F) (s : Bridge F T) where
  -- The answer to an accepted body.
  pub record IsAccepted (r : SignalAcceptedResponse) (s' : Bridge F T) : Type 0 where
    pub accepted : r.accepted ≡ true
    pub signal_id : r.signal_id ≡ fields.signal_id
    pub stored : HasStatus fields.signal_id r.status s'.db
    pub created :
        r.duplicate ≡ false → (get_signal fields.signal_id s.db ≡ none) × (r.status ≡ pending)
    pub duplicate : r.duplicate ≡ true → s'.db ≡ s.db
    pub same_journal : s'.journal ≡ s.journal

  abbrev pub Posted : Outcome (Response SignalAcceptedResponse) × Bridge F T → Type 0
  Posted (ok (success r), s') =
      ((sc : SignalCreate F) × (signal_create fields ≡ some sc)) × IsAccepted r s'
  Posted (ok (http_error code), s') = (code ≡ 422) × (signal_create fields ≡ none) × (s' ≡ s)
  Posted (returned st, s') = ⊥
  Posted (raised e, s') = (s'.db ≡ s.db) × (s'.journal ≡ s.journal)
