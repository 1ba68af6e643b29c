-- ===== src/Worker/System.antt =====
-- The bridge over its life: app/main.py starts the worker, which recovers first and then takes
-- turns, while the API submits signals; the process may die in any call and be started again on
-- the same database, with other settings.
use mt5_execution_bridge.Prelude.{Bool, false, []}
use mt5_execution_bridge.Float.{Float}
use mt5_execution_bridge.Storage.{empty_database}
use mt5_execution_bridge.Storage.Signals.{NewSignal}
use mt5_execution_bridge.Services.SymbolMapper.{SymbolMapper}
use mt5_execution_bridge.Config.{Settings}
use mt5_execution_bridge.Outside.{Sdk, Host}
use mt5_execution_bridge.Exec.{Gateway, Bridge}
use mt5_execution_bridge.Execution.Interleaved.{Plan}
use mt5_execution_bridge.Worker.Amid.{turn_amid}
use mt5_execution_bridge.Worker.{submit, turn, recover_on_startup}

-- `MT5Gateway()` of a new process.
abbrev pub new_gateway : Bool → Gateway
new_gateway available = record { available = available; is_connected = false }

module _ {F T : Type 0} ⦃float : Float F⦄ ⦃sdk : Sdk F T⦄ ⦃host : Host T⦄ where
  -- One action, whether it ends by a value or by a failure.
  pub data Step : Bridge F T → Bridge F T → Type 0 where
    -- POST /api/signals
    submits : (signal : NewSignal F) (s : Bridge F T) → Step s (submit signal s).1
    -- the body of the worker's loop
    takes_turn :
        (settings : Settings F) (mapper : SymbolMapper) (s : Bridge F T)
        → Step s (turn settings mapper s).1
    -- the same, while the API submits the signals of the plan
    takes_turn_amid :
        (settings : Settings F) (mapper : SymbolMapper) (plan : Plan F) (s : Bridge F T)
        → Step s (turn_amid settings mapper plan s).1
    -- a new process, `ExecutionWorker.start`
    starts :
        (settings : Settings F) (available : Bool) (s : Bridge F T)
        → Step s (recover_on_startup settings (record s { gateway = new_gateway available })).1
    -- time passes, the terminal acts, and the API's read-only calls change the connection's flag
    drifts :
        (gateway : Gateway) (outside : T) (s : Bridge F T)
        → Step s (record s { gateway = gateway; outside = outside })

  pub data Reachable : Bridge F T → Type 0 where
    fresh :
        (gateway : Gateway) (outside : T)
        → Reachable
            (record { db = empty_database F; gateway = gateway; outside = outside; journal = [] })
    after : {s s' : Bridge F T} → Reachable s → Step s s' → Reachable s'

  -- Any number of steps.
  pub data Later : Bridge F T → Bridge F T → Type 0 where
    now : {s : Bridge F T} → Later s s
    step_on : {s s' s'' : Bridge F T} → Later s s' → Step s' s'' → Later s s''
