-- ===== src/Api/Lifespan/Processes.antt =====
-- A process of the bridge as a whole: `create_app` and `lifespan` of app/main.py.
use mt5_execution_bridge.Prelude.{String, Bool, List}
use mt5_execution_bridge.Float.{Float}
use mt5_execution_bridge.Config.{Settings}
use mt5_execution_bridge.Services.SymbolMapper.{SymbolMapper}
use mt5_execution_bridge.Outside.{Answer, answer, failure, Sdk, Host}
use mt5_execution_bridge.Exec.{Bridge, Outcome, ok, returned, raised, continue, ◌>>=◌}
use mt5_execution_bridge.Worker.System.{new_gateway, Later, now}
use mt5_execution_bridge.Api.Application.{
  AppState, MapFile, new_state, from_file, start, end_lifespan,
}
use mt5_execution_bridge.Api.Lifespan.{Served, serve_all, lifespan, run_built, run_app}
use mt5_execution_bridge.Api.Lifespan.Serving.{
  Goes-bind, Goes-serve_all, Goes-Idle, Idle-end_lifespan, start-Later, Later-trans,
}

module _ {F T : Type 0} ⦃float : Float F⦄ ⦃sdk : Sdk F T⦄ ⦃host : Host T⦄ where
  lifespan-Later :
      (app : AppState F) (available : Bool) (served : List (Served F)) (s : Bridge F T)
      → Later s (lifespan app served (record s { gateway = new_gateway available })).1
  unfolding lifespan ◌>>=◌
  lifespan-Later app available served s =
      Later-trans (start-Later app available s)
        (go (start app (record s { gateway = new_gateway available })))
    where
      go :
          (r : Outcome (AppState F) × Bridge F T)
          → Later r.1
              (continue r.0
                (λ started. serve_all started served >>= λ _. end_lifespan started)
                r.1).1
      go (ok started, s') =
          (Goes-bind (Goes-serve_all started served) λ _. Goes-Idle (Idle-end_lifespan started)).at
            s'
      go (returned st, s') = now
      go (raised e, s') = now

module _ {F T : Type 0} ⦃float : Float F⦄ ⦃sdk : Sdk F T⦄ ⦃host : Host T⦄ where
  module _ {V : Type 0} (str_of : V → String) (settings : Settings F) (file : MapFile V)
      (available : Bool) (served : List (Served F)) (s : Bridge F T) where
    -- What a process does is a sequence of steps of the bridge.
    pub run_app-Later : Later s (run_app str_of settings file available served s).1
    unfolding run_app
    run_app-Later = go (from_file str_of file)
      where
        go :
            (a : Answer SymbolMapper)
            → Later s (run_built served (new_state settings available a s)).1
        go (answer mapper) = lifespan-Later _ available served s
        go (failure e) = now
