-- ===== src/Api/Lifespan/Serving.antt =====
-- What a process does between its start and its end, as steps of the bridge.
use mathlib.Core.Path.{subst}
use mt5_execution_bridge.Prelude.{
  String, Bool, true, false, Option, none, some, List, [], ◌∷◌, arith, if◌then◌else◌,
}
use mt5_execution_bridge.Float.{Float}
use mt5_execution_bridge.Int.{pos, ltb_ℤ}
use mt5_execution_bridge.Services.Text.{int}
use mt5_execution_bridge.Outside.{value_error, type_error, Sdk, Host}
use mt5_execution_bridge.Exec.{
  Bridge, Outcome, ok, returned, raised, continue, Exec, pure, ask, gets, modify_gateway, ◌>>=◌,
}
use mt5_execution_bridge.Gateway.{shutdown}
use mt5_execution_bridge.Execution.Idle.{Idle, Idle-same, Idle-pure, Idle-bind, Idle-or_raise}
use mt5_execution_bridge.Worker.{recover_on_startup}
use mt5_execution_bridge.Worker.System.{
  new_gateway, submits, takes_turn_amid, starts, drifts, Later, now, step_on,
}
use mt5_execution_bridge.Worker.Amid.{turn_amid}
use mt5_execution_bridge.Api.Response.{Response, http_error}
use mt5_execution_bridge.Api.Signals.{
  SignalFields, SignalCreate, signal_create, submit_signal, submit_created, post_signal,
}
use mt5_execution_bridge.Api.ReadOnly.{
  drifted, Idle-account, Idle-positions, Idle-orders, Idle-status, Idle-show_signal,
}
use mt5_execution_bridge.Api.Application.{
  AppState, max_request_body_bytes, dispatch, start, end_lifespan,
}
use mt5_execution_bridge.Api.Lifespan.{
  Served, posts_signal, gets_signal, gets_account, gets_positions, gets_orders, gets_status,
  gets_health, takes_turn, handled, serve, serve_all,
}

module _ {F T : Type 0} ⦃float : Float F⦄ ⦃sdk : Sdk F T⦄ ⦃host : Host T⦄ where
  pub Later-trans : {s s' s'' : Bridge F T} → Later s s' → Later s' s'' → Later s s''
  Later-trans before now = before
  Later-trans before (step_on after step) = step_on (Later-trans before after) step

  -- However it ends, the action is some steps of the bridge.
  pub record Goes {A : Type 0} (m : Exec F T A) : Type 0 where
    pub at : (s : Bridge F T) → Later s (m s).1

  pub Goes-Idle : {A : Type 0} {m : Exec F T A} → Idle m → Goes m
  Goes-Idle {A} {m} idle = record {
    at = λ s.
        let (same, same') = Idle-same m s idle in
        subst (Later s) (drifted s (m s).1 same same')
          (step_on now (drifts (m s).1.gateway (m s).1.outside s));
  }

  pub Goes-bind :
      {A B : Type 0} {m : Exec F T A} {f : A → Exec F T B}
      → Goes m
      → ((a : A) → Goes (f a))
      → Goes (m >>= f)
  unfolding ◌>>=◌
  Goes-bind {A} {B} {m} {f} hm hf = record { at = λ s. Later-trans (hm.at s) (go (m s)) }
    where
      go : (r : Outcome A × Bridge F T) → Later r.1 (continue r.0 f r.1).1
      go (ok a, s') = (hf a).at s'
      go (returned st, s') = now
      go (raised e, s') = now

  Goes-if : {A : Type 0} (b : Bool) (m n : Exec F T A) → Goes m → Goes n → Goes (if b then m else n)
  Goes-if true m n hm hn = hm
  Goes-if false m n hm hn = hn

  Goes-request :
      {A : Type 0} (content_length : Option String) (handler : Exec F T (Response A))
      → Goes handler
      → Goes (handled (dispatch content_length handler))
  unfolding dispatch
  Goes-request none handler h = record { at = h.at }
  Goes-request (some content_length) handler h = record {
    at =
        (Goes-bind (Goes-Idle (Idle-or_raise value_error (int content_length))) λ n.
          Goes-if (ltb_ℤ (pos max_request_body_bytes) n) (pure (http_error 413)) handler
            (Goes-Idle (Idle-pure (http_error 413))) h).at;
  }

  Goes-submit_created : (o : Option (SignalCreate F)) → Goes (submit_created o)
  unfolding submit_signal
  Goes-submit_created none = Goes-Idle (Idle-pure (http_error 422))
  Goes-submit_created (some signal) =
      Goes-bind (record { at = λ s. step_on now (submits signal s) })
        λ r. Goes-bind (Goes-Idle (Idle-or_raise type_error r.0)) λ row. Goes-Idle (Idle-pure _)

  Goes-post_signal : (fields : SignalFields F) → Goes (post_signal fields)
  unfolding post_signal
  Goes-post_signal fields = Goes-submit_created (signal_create fields)

  Goes-serve : (app : AppState F) (x : Served F) → Goes (serve app x)
  unfolding serve
  Goes-serve app (posts_signal l fields) = Goes-request l _ (Goes-post_signal fields)
  Goes-serve app (gets_signal l i) = Goes-request l _ (Goes-Idle (Idle-show_signal i))
  Goes-serve app (gets_account l) = Goes-request l _ (Goes-Idle (Idle-account app.settings))
  Goes-serve app (gets_positions l) = Goes-request l _ (Goes-Idle (Idle-positions app.settings))
  Goes-serve app (gets_orders l) = Goes-request l _ (Goes-Idle (Idle-orders app.settings))
  Goes-serve app (gets_status l) =
      Goes-request l _
        (Goes-Idle (Idle-bind (Idle-status app.settings app.worker_running) λ _. Idle-pure _))
  Goes-serve app (gets_health l) = Goes-request l _ (Goes-Idle (Idle-pure _))
  Goes-serve app (takes_turn plan) =
      Goes-if app.worker_running (turn_amid app.settings app.symbol_mapper plan) (pure tt)
        (record { at = λ s. step_on now (takes_turn_amid app.settings app.symbol_mapper plan s) })
        (Goes-Idle (Idle-pure tt))

  pub Goes-serve_all : (app : AppState F) (served : List (Served F)) → Goes (serve_all app served)
  unfolding serve_all
  Goes-serve_all app [] = Goes-Idle (Idle-pure tt)
  Goes-serve_all app (x ∷ xs) = Goes-bind (Goes-serve app x) λ _. Goes-serve_all app xs

  Idle-shutdown : Idle {F = F} {T = T} shutdown
  unfolding shutdown ask gets modify_gateway pure ◌>>=◌
  Idle-shutdown = record { at = λ s. ground arith }

  pub Idle-end_lifespan : (app : AppState F) → Idle {T = T} (end_lifespan app)
  unfolding end_lifespan
  Idle-end_lifespan app = Idle-bind Idle-shutdown λ _. Idle-pure _

  -- The start of a process is a step, whose gateway is new.
  pub start-Later :
      (app : AppState F) (available : Bool) (s : Bridge F T)
      → Later s (start app (record s { gateway = new_gateway available })).1
  unfolding start pure ◌>>=◌
  start-Later app available s =
      go (recover_on_startup app.settings (record s { gateway = new_gateway available }))
        (step_on now (starts app.settings available s))
    where
      go :
          (r : Outcome (Unit {0}) × Bridge F T)
          → Later s r.1
          → Later s (continue r.0 (λ _. pure (record app { worker_running = true })) r.1).1
      go (ok _, s') h = h
      go (returned st, s') h = h
      go (raised e, s') h = h
