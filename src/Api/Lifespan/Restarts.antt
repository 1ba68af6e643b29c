-- ===== src/Api/Lifespan/Restarts.antt =====
-- Any number of processes of the bridge, one after another on the same database.
use mt5_execution_bridge.Prelude.{String, some, List, [], ◌∷◌, ◌≤◌, All}
use mt5_execution_bridge.Float.{Float}
use mt5_execution_bridge.Storage.{empty_database}
use mt5_execution_bridge.Outside.{Sdk, Host}
use mt5_execution_bridge.Exec.{Gateway, Bridge}
use mt5_execution_bridge.Execution.Common.{meb_comment}
use mt5_execution_bridge.Execution.Quiet.{ids}
use mt5_execution_bridge.Worker.Turns.{sends}
use mt5_execution_bridge.Worker.System.{drifts, Later, now, step_on, Reachable, fresh}
use mt5_execution_bridge.Worker.Lifecycle.Refined.{Later-Reachable, Later-AllMove}
use mt5_execution_bridge.Worker.Lifecycle.{Moves, Moves-known}
use mt5_execution_bridge.Models.{ExecutionStatus}
use mt5_execution_bridge.Storage.Rows.{HasStatus}
use mt5_execution_bridge.Worker.Safety.{Alone, sends_at_most_once}
use mt5_execution_bridge.Api.Lifespan.{Process, run_processes}
use mt5_execution_bridge.Api.Lifespan.Serving.{Later-trans}
use mt5_execution_bridge.Api.Lifespan.Processes.{run_app-Later}

-- A bridge without signals, before its first process.
abbrev pub first : {F T : Type 0} → Gateway → T → Bridge F T
first {F} gateway outside = record {
  db = empty_database F;
  gateway = gateway;
  outside = outside;
  journal = [];
}

module _ {F T V : Type 0} ⦃float : Float F⦄ ⦃sdk : Sdk F T⦄ ⦃host : Host T⦄
    (str_of : V → String) where
  run_processes-Later :
      (ps : List (Process F T V)) (s : Bridge F T) → Later s (run_processes str_of ps s)
  unfolding run_processes
  run_processes-Later [] s = now
  run_processes-Later (p ∷ ps) s =
      let begun : Bridge F T = record s { outside = p.outside } in
      Later-trans
        (Later-trans (step_on now (drifts s.gateway p.outside s))
          (run_app-Later str_of p.settings p.symbol_map p.available p.served begun))
        (run_processes-Later ps _)

  -- Whatever processes run one after another on a database that is empty at first, with whatever
  -- settings, whatever each of them serves and however it ends, at most one order request was handed to
  -- `order_send` under the comment of a signal's id `i`, where no other id of the table has that comment.
  pub run_processes-once :
      (ps : List (Process F T V)) (gateway : Gateway) (outside : T) (i : String)
      → All (Alone host.sha256_hex i) (ids (run_processes str_of ps (first gateway outside)).db)
      → sends
          (meb_comment host.sha256_hex i)
          (run_processes str_of ps (first gateway outside)).journal
        ≤ 1
  run_processes-once ps gateway outside i no_other =
      sends_at_most_once _ i
        (Later-Reachable (fresh gateway outside) (run_processes-Later ps (first gateway outside)))
        no_other

  -- A signal that is in the table in a reachable state is in the table after whatever processes run
  -- from there on, and its status has only gone onward through the life of a signal, from PENDING to
  -- PROCESSING and from PROCESSING to a final status.
  pub run_processes-keep :
      (ps : List (Process F T V)) (s : Bridge F T) (i : String) (st : ExecutionStatus)
      → Reachable s
      → HasStatus i st s.db
      → (st' : ExecutionStatus) × HasStatus i st' (run_processes str_of ps s).db
        × Moves (some st) (some st')
  run_processes-keep ps s i st reachable here =
      Moves-known st (Later-AllMove s _ reachable (run_processes-Later ps s) i) here
