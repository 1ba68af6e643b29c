-- ===== src/Worker/Lifecycle/Refined.antt =====
-- Runs of the bridge, and the lives of its signals.
use mt5_execution_bridge.Prelude.{String, str_eq}
use mt5_execution_bridge.Float.{Float}
use mt5_execution_bridge.Models.{ExecutionStatus}
use mt5_execution_bridge.Storage.{Signal}
use mt5_execution_bridge.Storage.Rows.{HasStatus, count_if-map}
use mt5_execution_bridge.Outside.{Sdk, Host}
use mt5_execution_bridge.Exec.{Bridge}
use mt5_execution_bridge.Execution.Quiet.{IsFinal}
use mt5_execution_bridge.Worker.Safety.{Reachable-Safe}
use mt5_execution_bridge.Worker.System.{
  new_gateway, Step, submits, takes_turn, takes_turn_amid, starts, drifts, Reachable, after, Later,
  now, step_on,
}
use mt5_execution_bridge.Worker.{turn}
use mt5_execution_bridge.Worker.Amid.{turn_amid-arrived}
use mt5_execution_bridge.Worker.Lifecycle.{stays, Moves-trans, Moves-final, AllMove}
use mt5_execution_bridge.Worker.Lifecycle.Queueing.{
  IsUnique, submit-AllMove, arrived-AllMove, turn-AllMove,
}
use mt5_execution_bridge.Worker.Lifecycle.Restarting.{recover_on_startup-AllMove}

module _ {F T : Type 0} ⦃float : Float F⦄ ⦃sdk : Sdk F T⦄ ⦃host : Host T⦄ where
  Reachable-IsUnique : {s : Bridge F T} → Reachable s → IsUnique s.db
  Reachable-IsUnique {s} reachable i =
      rw (← count_if-map (λ (j : String). str_eq j i) (λ (r : Signal F). r.signal_id) s.db.signals)
        ((Reachable-Safe reachable).unique i)

  Step-AllMove : {s s' : Bridge F T} → Step s s' → IsUnique s.db → AllMove s.db s'.db
  Step-AllMove (submits signal s) unique = submit-AllMove signal s
  Step-AllMove (takes_turn settings mapper s) unique = turn-AllMove settings mapper s unique
  Step-AllMove (takes_turn_amid settings mapper plan s) unique = λ i.
      let (new, _, _, e) = turn_amid-arrived settings mapper plan s in
      rw e (
        Moves-trans (turn-AllMove settings mapper s unique i)
          (arrived-AllMove new (turn settings mapper s).1.db i))
  Step-AllMove (starts settings available s) unique =
      recover_on_startup-AllMove settings (record s { gateway = new_gateway available }) unique
  Step-AllMove (drifts gateway outside s) unique = λ i. stays

  pub Later-Reachable : {s s' : Bridge F T} → Reachable s → Later s s' → Reachable s'
  Later-Reachable reachable now = reachable
  Later-Reachable reachable (step_on later step) = after (Later-Reachable reachable later) step

  -- From a reachable state on, whatever steps the bridge takes, failures and restarts included, every
  -- id's status as the table has it goes through the life of a signal: from unknown to PENDING, from
  -- PENDING to PROCESSING, and from PROCESSING to a final status, one after another and no other way.
  pub Later-AllMove : (s s' : Bridge F T) → Reachable s → Later s s' → AllMove s.db s'.db
  Later-AllMove s s' reachable now = λ i. stays
  Later-AllMove s s' reachable (step_on {s' = mid} later step) = λ i.
      Moves-trans (Later-AllMove s mid reachable later i)
        (Step-AllMove step (Reachable-IsUnique (Later-Reachable reachable later)) i)

  -- A signal that has a final status in a reachable state has this status in every later state.
  pub HasStatus-final :
      (s s' : Bridge F T) (i : String) (st : ExecutionStatus)
      → Reachable s
      → Later s s'
      → HasStatus i st s.db
      → IsFinal st
      → HasStatus i st s'.db
  HasStatus-final s s' i st reachable later here final =
      Moves-final st (Later-AllMove s s' reachable later i) here final
