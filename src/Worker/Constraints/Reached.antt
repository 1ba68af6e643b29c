-- ===== src/Worker/Constraints/Reached.antt =====
-- The steps of the bridge keep the constraints of the schema.
use mathlib.Core.Path.{subst}
use mt5_execution_bridge.Prelude.{
  ℕ, ◌≡◌, refl, sym, inl, inr, not, Option, none, some, List, [], ◌∷◌, arith, is_none,
}
use mt5_execution_bridge.Float.{Float}
use mt5_execution_bridge.Models.{ExecutionStatus, review_required, recovered_executed}
use mt5_execution_bridge.Storage.{Signal, Database}
use mt5_execution_bridge.Storage.Signals.{claim_next_pending, find_stuck_processing}
use mt5_execution_bridge.Storage.Rows.{HasSignal}
use mt5_execution_bridge.Storage.Schema.{WellFormed}
use mt5_execution_bridge.Storage.Schema.Statements.{
  arrive_all-WellFormed, claim_next_pending-WellFormed,
}
use mt5_execution_bridge.Services.SymbolMapper.{SymbolMapper}
use mt5_execution_bridge.Config.{Settings}
use mt5_execution_bridge.Outside.{Sdk, Host}
use mt5_execution_bridge.Exec.{Bridge, Outcome, ok, returned, raised, continue, pure, ◌>>=◌}
use mt5_execution_bridge.Execution.Idle.{Idle-pure, Idle-bind, Idle-utc_now, Idle-query}
use mt5_execution_bridge.Execution.Idle.Calls.{Idle-ensure_connected, Idle-history_deals_get}
use mt5_execution_bridge.Execution.Transactions.{transaction_lem}
use mt5_execution_bridge.Execution.Common.{Attempt}
use mt5_execution_bridge.Execution.Recovery.{find_deal_by_comment, reconcile_stuck_signal}
use mt5_execution_bridge.Execution.Pipeline.{
  begin_attempt, run_checks, process_steps, process_signal,
}
use mt5_execution_bridge.Execution.Interleaved.Moving.{Program-HasSignal}
use mt5_execution_bridge.Execution.Interleaved.Steps.{Part-run_checks}
use mt5_execution_bridge.Execution.Interleaved.Runs.{Program-begin_attempt, begin_attempt-row}
use mt5_execution_bridge.Worker.{
  process_claimed, claim_and_process, turn, reconcile_all, recover_on_startup,
}
use mt5_execution_bridge.Worker.Amid.{claim_next_pending-HasSignal, turn_amid-arrived}
use mt5_execution_bridge.Worker.System.{
  new_gateway, Step, submits, takes_turn, takes_turn_amid, starts, drifts, Reachable, fresh, after,
}
use mt5_execution_bridge.Worker.Constraints.{
  Sound, Sound-Idle, Sound-if, Sound-bind, Sound-submit, Sound-settle, Program-WellFormed,
}

module _ {F T : Type 0} ⦃sdk : Sdk F T⦄ ⦃host : Host T⦄ where
  Sound-reconcile_stuck_signal :
      (settings : Settings F) (row : Signal F) → Sound {T = T} (reconcile_stuck_signal settings row)
  unfolding reconcile_stuck_signal find_deal_by_comment
  Sound-reconcile_stuck_signal settings row =
      Sound-bind (Sound-Idle (Idle-ensure_connected settings)) λ up.
        Sound-if (not up) _ _ (Sound-settle row review_required _) (
          Sound-bind
            (Sound-Idle (
              Idle-bind Idle-utc_now
                λ now. Idle-bind (Idle-history_deals_get _ now) λ deals. Idle-pure _))
            λ found.
              Sound-if (not (is_none found)) _ _ (Sound-settle row recovered_executed none)
                (Sound-settle row review_required _))

  Sound-reconcile_all :
      (settings : Settings F) (rows : List (Signal F)) → Sound {T = T} (reconcile_all settings rows)
  unfolding reconcile_all
  Sound-reconcile_all settings [] = Sound-Idle (Idle-pure tt)
  Sound-reconcile_all settings (row ∷ rows) =
      Sound-bind (Sound-reconcile_stuck_signal settings row) λ _. Sound-reconcile_all settings rows

  Sound-recover_on_startup : (settings : Settings F) → Sound {T = T} (recover_on_startup settings)
  unfolding recover_on_startup
  Sound-recover_on_startup settings =
      Sound-bind (Sound-Idle (Idle-query find_stuck_processing))
        λ rows. Sound-reconcile_all settings rows

module _ {F T : Type 0} ⦃float : Float F⦄ ⦃sdk : Sdk F T⦄ ⦃host : Host T⦄ where
  process_signal-WellFormed :
      (settings : Settings F) (mapper : SymbolMapper) (row : Signal F) (s : Bridge F T)
      → HasSignal row.signal_id s.db
      → WellFormed s.db
      → WellFormed (process_signal settings mapper row s).1.db
  unfolding process_signal process_steps ◌>>=◌
  process_signal-WellFormed settings mapper row s h w =
      let begins = Program-begin_attempt {T = T} settings row in
      begun (begin_attempt settings row s) refl (Program-HasSignal begins s h)
        (Program-WellFormed begins s h w)
    where
      begun :
          (r : Outcome (Attempt F) × Bridge F T)
          → begin_attempt settings row s ≡ r
          → HasSignal row.signal_id r.1.db
          → WellFormed r.1.db
          → WellFormed (continue r.0 (run_checks mapper) r.1).1.db
      begun (ok job, s') e h w =
          Program-WellFormed (Part-run_checks job mapper) s'
            (subst (λ j. HasSignal j s'.db) (sym (begin_attempt-row settings row s job s' e)) h) w
      begun (returned st, s') e h w = w
      begun (raised x, s') e h w = w

  turn-WellFormed :
      (settings : Settings F) (mapper : SymbolMapper) (s : Bridge F T)
      → WellFormed s.db
      → WellFormed (turn settings mapper s).1.db
  unfolding turn claim_and_process pure ◌>>=◌
  turn-WellFormed settings mapper s w = elim (transaction_lem claim_next_pending s) [
    | inl (e, t, raises) ↦ rw raises w
    | inr (now, t, done) ↦
        rw done (
          found now t (claim_next_pending now s.db) refl (claim_next_pending-WellFormed now s.db w))
  ]
    where
      ended :
          (r : Outcome ExecutionStatus × Bridge F T)
          → WellFormed r.1.db
          → WellFormed (continue r.0 (λ st. pure (some st)) r.1).1.db
      ended (ok st, s') w = w
      ended (returned st, s') w = w
      ended (raised e, s') w = w

      found :
          (now : ℕ) (t : T) (r : Option (Signal F) × Database F)
          → claim_next_pending now s.db ≡ r
          → WellFormed r.1
          → WellFormed
              (process_claimed settings mapper r.0 (record s { outside = t; db = r.1 })).1.db
      found now t (none, db) e w = w
      found now t (some row, db) e w = ended _ (
          process_signal-WellFormed settings mapper row (record s { outside = t; db = db })
            (claim_next_pending-HasSignal now s.db db row e) w)

  Step-WellFormed : {s s' : Bridge F T} → Step s s' → WellFormed s.db → WellFormed s'.db
  Step-WellFormed (submits signal s) w = (Sound-submit signal).at s w
  Step-WellFormed (takes_turn settings mapper s) w = turn-WellFormed settings mapper s w
  Step-WellFormed (takes_turn_amid settings mapper plan s) w =
      let (new, _, _, e) = turn_amid-arrived settings mapper plan s in
      rw e (arrive_all-WellFormed new _ (turn-WellFormed settings mapper s w))
  Step-WellFormed (starts settings available s) w =
      (Sound-recover_on_startup settings).at (record s { gateway = new_gateway available }) w
  Step-WellFormed (drifts gateway outside s) w = w

  -- In every reachable state the constraints of the schema hold: the row ids of the signals and of
  -- the executions ascend from 1 or more up to the table's last one, no two signals have the same
  -- `signal_id`, every execution refers to a signal of the table, and no account has two baselines
  -- for one day.
  pub Reachable-WellFormed : {s : Bridge F T} → Reachable s → WellFormed s.db
  Reachable-WellFormed (fresh gateway outside) = record {
    signal_ids = omega arith;
    unique_signals = λ i. omega arith;
    execution_ids = omega arith;
    references = tt;
    unique_baselines = λ key day. omega arith;
  }
  Reachable-WellFormed (after r step) = Step-WellFormed step (Reachable-WellFormed r)
