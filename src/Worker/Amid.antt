-- ===== src/Worker/Amid.antt =====
-- A turn of the worker while the API submits signals.
use mathlib.Core.Path.{subst}
use mt5_execution_bridge.Prelude.{
  ℕ, suc, eq_iff, ◌≡◌, refl, ap, ◌∙◌, inl, inr, Option, none, some, List, [], ◌∷◌, ◌++◌, is_none,
  count_if, select, find, update_where,
}
use mt5_execution_bridge.Float.{Float}
use mt5_execution_bridge.Models.{ExecutionStatus}
use mt5_execution_bridge.Storage.{Signal, Database}
use mt5_execution_bridge.Storage.Signals.{
  has_signal_id, row_is_pending, get_signal, oldest, claimed, is_claimable, claim,
  claim_next_pending,
}
use mt5_execution_bridge.Storage.Arrivals.{Arrival}
use mt5_execution_bridge.Storage.Rows.{HasSignal, find-holds}
use mt5_execution_bridge.Services.SymbolMapper.{SymbolMapper}
use mt5_execution_bridge.Config.{Settings}
use mt5_execution_bridge.Outside.{Sdk, Host}
use mt5_execution_bridge.Exec.{
  Bridge, Outcome, ok, returned, raised, transaction, continue, Exec, pure, ◌>>=◌,
}
use mt5_execution_bridge.Execution.Pipeline.{process_signal}
use mt5_execution_bridge.Execution.Transactions.{transaction_lem}
use mt5_execution_bridge.Execution.Interleaved.{Plan, in_order}
use mt5_execution_bridge.Execution.Interleaved.Moving.{before_arrivals}
use mt5_execution_bridge.Execution.Interleaved.Runs.{process_signal_amid, process_signal-Linear}
use mt5_execution_bridge.Worker.{swallow_exception, process_claimed, claim_and_process, turn}

module _ {F : Type 0} where
  -- The table has the row that a claim returns.
  claim-HasSignal :
      (q : Signal F) (now : ℕ) (db db' : Database F) (row : Signal F)
      → claim q now db ≡ (some row, db')
      → HasSignal row.signal_id db'
  unfolding claim get_signal
  claim-HasSignal q now db db' row = counted (count_if (is_claimable q.signal_id) db.signals)
    where
      after : Database F
      after = record db {
        signals = update_where (is_claimable q.signal_id) (claimed now) db.signals;
      }

      found :
          find (has_signal_id q.signal_id) after.signals ≡ some row → HasSignal row.signal_id after
      found e =
          let same =
            (eq_iff row.signal_id q.signal_id).0
              (find-holds (has_signal_id q.signal_id) after.signals row e) in
          ap (λ i. is_none (find (has_signal_id i) after.signals)) same ∙ ap is_none e

      counted :
          (n : ℕ)
          → ◌≡◌ {A = Option (Signal F) × Database F}
              (elim n [ ℕ.zero ↦ (none, after) | suc _ ↦ (get_signal q.signal_id after, after) ])
              (some row, db')
          → HasSignal row.signal_id db'
      counted ℕ.zero e = cc
      counted (suc n) e =
          subst (HasSignal row.signal_id) (ap (λ (r : Option (Signal F) × Database F). r.1) e)
            (found (ap (λ (r : Option (Signal F) × Database F). r.0) e))

  pub claim_next_pending-HasSignal :
      (now : ℕ) (db db' : Database F) (row : Signal F)
      → claim_next_pending now db ≡ (some row, db')
      → HasSignal row.signal_id db'
  unfolding claim_next_pending
  claim_next_pending-HasSignal now db db' row = chosen (oldest (select row_is_pending db.signals))
    where
      chosen :
          (o : Option (Signal F))
          → ◌≡◌ {A = Option (Signal F) × Database F}
              (elim o [ none ↦ (none, db) | some q ↦ claim q now db ])
              (some row, db')
          → HasSignal row.signal_id db'
      chosen none e = cc
      chosen (some q) e = claim-HasSignal q now db db' row e

module _ {F T : Type 0} ⦃float : Float F⦄ ⦃sdk : Sdk F T⦄ ⦃host : Host T⦄ where
  -- What `_run_loop` does with the claimed row, while the signals of the plan arrive.
  abbrev process_claimed_amid :
      Settings F → SymbolMapper → Plan F → Option (Signal F) → Exec F T (Unit {0})
  process_claimed_amid settings mapper plan none s = (ok tt, s)
  process_claimed_amid settings mapper plan (some row) s =
      let (r, _) = process_signal_amid settings mapper row plan s in (swallow_exception r.0, r.1)

  abbrev claimed_amid :
      Settings F → SymbolMapper → Plan F → Outcome (Option (Signal F)) → Exec F T (Unit {0})
  claimed_amid settings mapper plan (ok found) s = process_claimed_amid settings mapper plan found s
  claimed_amid settings mapper plan (returned st) s = (ok tt, s)
  claimed_amid settings mapper plan (raised e) s = (swallow_exception {A = Unit {0}} (raised e), s)

  -- The body of the loop.
  unfoldable pub turn_amid : Settings F → SymbolMapper → Plan F → Exec F T (Unit {0})
  turn_amid settings mapper plan s =
      let (r, s') = transaction claim_next_pending s in claimed_amid settings mapper plan r s'

  -- A turn amid submissions ends as a turn does, and leaves the bridge as a turn and then the first
  -- of the submissions do.
  pub turn_amid-arrived :
      (settings : Settings F) (mapper : SymbolMapper) (plan : Plan F) (s : Bridge F T)
      → (new left : List (Arrival F)) × (in_order plan ≡ new ++ left)
        × (turn_amid settings mapper plan s ≡ before_arrivals new (turn settings mapper s))
  unfolding turn_amid turn claim_and_process pure ◌>>=◌
  turn_amid-arrived settings mapper plan s = elim (transaction_lem claim_next_pending s) [
    | inl (e, t, raises) ↦ ([], in_order plan, refl, rw raises refl)
    | inr (now, t, done) ↦ rw done (found now t (claim_next_pending now s.db) refl)
  ]
    where
      -- The value of the run is thrown away.
      ended :
          (r : Outcome ExecutionStatus × Bridge F T)
          → ◌≡◌ {A = Outcome (Unit {0}) × Bridge F T}
              (swallow_exception r.0, r.1)
              (let (o, s') = continue r.0 (λ st. pure (some st)) r.1 in (swallow_exception o, s'))
      ended (ok st, s') = refl
      ended (returned st, s') = refl
      ended (raised e, s') = refl

      found :
          (now : ℕ) (t : T) (r : Option (Signal F) × Database F)
          → claim_next_pending now s.db ≡ r
          → (new left : List (Arrival F)) × (in_order plan ≡ new ++ left)
            × (process_claimed_amid settings mapper plan r.0 (record s { outside = t; db = r.1 })
                ≡ before_arrivals new (
                    let (o, s'') =
                      process_claimed settings mapper r.0 (record s { outside = t; db = r.1 }) in
                    (swallow_exception o, s'')))
      found now t (none, db) e = ([], in_order plan, refl, refl)
      found now t (some row, db) e =
          let begun : Bridge F T = record s { outside = t; db = db } in
          let l =
            process_signal-Linear settings mapper row plan begun
              (claim_next_pending-HasSignal now s.db db row e) in
          (
            l.new,
            _,
            l.first,
            ap (λ (r : Outcome ExecutionStatus × Bridge F T). (swallow_exception r.0, r.1)) l.same
                ∙ ap (before_arrivals l.new) (ended (process_signal settings mapper row begun)),
          )

  -- A turn amid no submissions is a turn.
  pub turn_amid-nothing :
      (settings : Settings F) (mapper : SymbolMapper) (s : Bridge F T)
      → turn_amid settings mapper [] s ≡ turn settings mapper s
  turn_amid-nothing settings mapper s = go (turn_amid-arrived settings mapper [] s)
    where
      go :
          ((new left : List (Arrival F)) × ([] ≡ new ++ left)
            × (turn_amid settings mapper [] s ≡ before_arrivals new (turn settings mapper s)))
          → turn_amid settings mapper [] s ≡ turn settings mapper s
      go ([], left, first, e) = e
      go (a ∷ new, left, first, e) = cc
