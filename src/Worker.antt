-- ===== src/Worker.antt =====
-- app/worker/execution_worker.py and app/services/signal_service.py: the queue's two ends. The
-- worker's thread is one sequence of turns, which `Amid` takes while signals are submitted; logging and
-- sleeping are left out.
pub mod Amid
pub mod Constraints
pub mod System
pub mod Steady
pub mod Claiming
pub mod Turns
pub mod Submitting
pub mod Safety
pub mod Lifecycle
pub mod Draining
use mt5_execution_bridge.Prelude.{
  ℕ, zero, suc, String, Bool, not, Option, none, some, List, [], ◌∷◌,
}
use mt5_execution_bridge.Float.{Float}
use mt5_execution_bridge.Models.{ExecutionStatus}
use mt5_execution_bridge.Storage.{Signal}
use mt5_execution_bridge.Storage.Signals.{
  NewSignal, get_signal, insert_signal_if_new, claim_next_pending, find_stuck_processing,
}
use mt5_execution_bridge.Services.SymbolMapper.{SymbolMapper}
use mt5_execution_bridge.Config.{Settings}
use mt5_execution_bridge.Outside.{Failure, killed, Sdk, Host}
use mt5_execution_bridge.Exec.{
  Outcome, ok, returned, raised, Exec, pure, transaction, query, ◌>>=◌, ◌>>◌,
}
use mt5_execution_bridge.Execution.Pipeline.{process_signal}
use mt5_execution_bridge.Execution.Recovery.{reconcile_stuck_signal}

module _ {F T : Type 0} ⦃host : Host T⦄ where
  -- `SignalService.submit`: the row, and whether it was there before.
  unfoldable pub submit : NewSignal F → Exec F T (Option (Signal F) × Bool)
  submit signal = do
    (row, created) ← transaction (insert_signal_if_new signal)
    pure (row, not created)

  -- `SignalService.get`
  unfoldable pub get : String → Exec F T (Option (Signal F))
  get i = query (get_signal i)

-- `except Exception`: the loop goes on, unless the process is dead.
abbrev pub swallow_exception : {A : Type 0} → Outcome A → Outcome (Unit {0})
swallow_exception (ok _) = ok tt
swallow_exception (returned _) = ok tt
swallow_exception (raised killed) = raised killed
swallow_exception (raised _) = ok tt

module _ {F T : Type 0} ⦃float : Float F⦄ ⦃sdk : Sdk F T⦄ ⦃host : Host T⦄ where
  -- What `_run_loop` does with the answer of `claim_next_pending`.
  abbrev pub process_claimed :
      Settings F → SymbolMapper → Option (Signal F) → Exec F T (Option ExecutionStatus)
  process_claimed settings mapper none = pure none
  process_claimed settings mapper (some row) = do
    st ← process_signal settings mapper row
    pure (some st)

  unfoldable pub claim_and_process : Settings F → SymbolMapper → Exec F T (Option ExecutionStatus)
  claim_and_process settings mapper = do
    claimed ← transaction claim_next_pending
    process_claimed settings mapper claimed

  -- The body of the loop.
  unfoldable pub turn : Settings F → SymbolMapper → Exec F T (Unit {0})
  turn settings mapper s =
      let (r, s') = claim_and_process settings mapper s in (swallow_exception r, s')

  -- `_run_loop` for a number of turns.
  unfoldable pub run_loop : ℕ → Settings F → SymbolMapper → Exec F T (Unit {0})
  run_loop zero settings mapper = pure tt
  run_loop (suc n) settings mapper =
      let rest = run_loop n settings mapper in turn settings mapper >> rest

module _ {F T : Type 0} ⦃sdk : Sdk F T⦄ ⦃host : Host T⦄ where
  unfoldable pub reconcile_all : Settings F → List (Signal F) → Exec F T (Unit {0})
  reconcile_all settings [] = pure tt
  reconcile_all settings (row ∷ rows) =
      let rest = reconcile_all settings rows in reconcile_stuck_signal settings row >> rest

  unfoldable pub recover_on_startup : Settings F → Exec F T (Unit {0})
  recover_on_startup settings = do rows ← query find_stuck_processing; reconcile_all settings rows
