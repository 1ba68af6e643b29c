-- ===== src/Api/Lifespan.antt =====
-- `lifespan` and `create_app` of app/main.py: a process of the bridge from its start to its end. What it
-- serves is a list of requests and of the worker's turns, one after another; a turn has the submissions
-- that come while it is under way. GET requests come between turns, and the process ends between turns
-- or by its death. An end while a turn is under way, for which `stop` does not wait, is not modelled.
pub mod Serving
pub mod Processes
pub mod Restarts
use mt5_execution_bridge.Prelude.{String, Bool, Option, List, [], ◌∷◌, if◌then◌else◌}
use mt5_execution_bridge.Float.{Float}
use mt5_execution_bridge.Config.{Settings}
use mt5_execution_bridge.Outside.{Answer, answer, failure, Sdk, Host}
use mt5_execution_bridge.Exec.{Bridge, Outcome, raised, Exec, pure, ◌>>=◌, ◌>>◌}
use mt5_execution_bridge.Execution.Interleaved.{Plan}
use mt5_execution_bridge.Worker.{swallow_exception}
use mt5_execution_bridge.Worker.Amid.{turn_amid}
use mt5_execution_bridge.Api.Response.{success}
use mt5_execution_bridge.Api.Signals.{SignalFields, post_signal, show_signal}
use mt5_execution_bridge.Api.Snapshots.{health, account, positions, orders, status}
use mt5_execution_bridge.Api.Application.{
  AppState, MapFile, dispatch, build_state, start, end_lifespan,
}

-- A request, with its `content-length`, or a turn of the worker.
pub data Served (F : Type 0) : Type 0 where
  posts_signal : Option String → SignalFields F → Served F
  gets_signal : Option String → String → Served F
  gets_account gets_positions gets_orders gets_status gets_health : Option String → Served F
  takes_turn : Plan F → Served F

-- An exception of a handler is answered 500; only the death of the process goes on.
abbrev pub handled : {F T A : Type 0} → Exec F T A → Exec F T (Unit {0})
handled handler s = let (r, s') = handler s in (swallow_exception r, s')

module _ {F T : Type 0} ⦃float : Float F⦄ ⦃sdk : Sdk F T⦄ ⦃host : Host T⦄ where
  unfoldable pub serve : AppState F → Served F → Exec F T (Unit {0})
  serve app (posts_signal content_length fields) =
      handled (dispatch content_length (post_signal fields))
  serve app (gets_signal content_length i) = handled (dispatch content_length (show_signal i))
  serve app (gets_account content_length) = handled (dispatch content_length (account app.settings))
  serve app (gets_positions content_length) =
      handled (dispatch content_length (positions app.settings))
  serve app (gets_orders content_length) = handled (dispatch content_length (orders app.settings))
  serve app (gets_status content_length) = handled (
      dispatch content_length
        (do shown ← status app.settings app.worker_running; pure (success shown)))
  serve app (gets_health content_length) = handled (dispatch content_length (pure (success health)))
  serve app (takes_turn plan) =
      if app.worker_running then turn_amid app.settings app.symbol_mapper plan else pure tt

  unfoldable pub serve_all : AppState F → List (Served F) → Exec F T (Unit {0})
  serve_all app [] = pure tt
  serve_all app (x ∷ xs) = let rest = serve_all app xs in serve app x >> rest

  -- Where the start fails nothing is served, and the `finally` is not reached; where the process dies
  -- it is not reached either.
  unfoldable pub lifespan : AppState F → List (Served F) → Exec F T (AppState F)
  lifespan app served = do started ← start app; serve_all started served; end_lifespan started

  -- The process that serves the application, where it could be built.
  abbrev pub run_built :
      List (Served F) → Answer (AppState F) × Bridge F T → Outcome (AppState F) × Bridge F T
  run_built served (answer app, s) = lifespan app served s
  run_built served (failure e, s) = (raised e, s)

  -- `create_app`, and the process that serves the application.
  unfoldable pub run_app :
      {V : Type 0}
      → (V → String)
      → Settings F
      → MapFile V
      → Bool
      → List (Served F)
      → Exec F T (AppState F)
  run_app str_of settings file available served s =
      run_built served (build_state str_of settings file available s)

-- A process: its settings, the file of the symbol map, whether the package can be imported, what it
-- serves, and the outside as it is when the process starts.
pub record Process (F T V : Type 0) : Type 0 where
  pub settings : Settings F
  pub symbol_map : MapFile V
  pub available : Bool
  pub served : List (Served F)
  pub outside : T

module _ {F T V : Type 0} ⦃float : Float F⦄ ⦃sdk : Sdk F T⦄ ⦃host : Host T⦄
    (str_of : V → String) where
  -- One process after another on the same database, however each of them ends.
  unfoldable pub run_processes : List (Process F T V) → Bridge F T → Bridge F T
  run_processes [] s = s
  run_processes (p ∷ ps) s =
      run_processes ps
        (run_app str_of p.settings p.symbol_map p.available p.served
          (record s { outside = p.outside })).1
