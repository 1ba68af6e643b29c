-- ===== src/Tests/Process.antt =====
-- A process from its start to its end.
use mt5_execution_bridge.Prelude.{
  Bool, if◌then◌else◌, ap, ◌∙◌, String, List, ◌≤◌, All, true, false, ◌≡◌, refl, some, [], ◌∷◌,
}
use mt5_execution_bridge.Exec.{
  Bridge, Outcome, ok, returned, raised, continue, Exec, pure, gets, ask, or_raise, modify_gateway,
  utc_now, transaction, query, ◌>>=◌,
}
use mt5_execution_bridge.Worker.{submit, reconcile_all, recover_on_startup}
use mt5_execution_bridge.Worker.Steady.{Steady-recover_on_startup}
use mt5_execution_bridge.Worker.Amid.{turn_amid, turn_amid-nothing}
use mt5_execution_bridge.Execution.Common.{meb_comment}
use mt5_execution_bridge.Execution.Quiet.{ids}
use mt5_execution_bridge.Worker.Turns.{sends, turn-Advances}
use mt5_execution_bridge.Worker.Safety.{Alone}
use mt5_execution_bridge.Worker.System.{submits, fresh, after}
use mt5_execution_bridge.Worker.Lifecycle.{Moves}
use mt5_execution_bridge.Models.{ExecutionStatus, pending}
use mt5_execution_bridge.Storage.Rows.{HasStatus}
use mt5_execution_bridge.Api.Application.{
  start as start_app, end_lifespan, dispatch, from_file, AppState, missing, object,
}
use mt5_execution_bridge.Api.Lifespan.{
  posts_signal, takes_turn, Process, serve, serve_all, lifespan, run_app, run_processes,
}
use mt5_execution_bridge.Api.Lifespan.Restarts.{first, run_processes-once, run_processes-keep}
use mt5_execution_bridge.Api.Lifespan.Serving.{Idle-end_lifespan}
use mt5_execution_bridge.Execution.Idle.{Idle-same}
use mt5_execution_bridge.Storage.{Database}
use mt5_execution_bridge.Storage.Signals.{
  get_signal, insert_or_ignore, insert_signal_if_new, find_stuck_processing,
}
use mt5_execution_bridge.Services.Text.{int, read_int, read_digits, strip, lstrip, is_space}
use mt5_execution_bridge.Gateway.{shutdown}
use mt5_execution_bridge.Api.Signals.{
  is_safe, safe_rest, matches_safe_id, same_codes, validate_action, is_valid, signal_create,
  submit_signal, post_signal,
}
use mt5_execution_bridge.Tests.Fixed.{Fixed, fixed_float}
use mt5_execution_bridge.Tests.Fake.{Fake, fake_sdk, fake_host, fake, live, signal, start}
use mt5_execution_bridge.Tests.Http.{body}

-- The signal comes to one process, and another one takes it from the queue.
abbrev receiving : Process Fixed Fake String
receiving = record {
  settings = live;
  symbol_map = missing;
  available = true;
  served = posts_signal (some "300") body ∷ [];
  outside = fake;
}

abbrev taking : Process Fixed Fake String
taking = record {
  settings = live;
  symbol_map = object (("EURUSD", "EURUSD.x") ∷ []);
  available = true;
  served = takes_turn [] ∷ [];
  outside = fake;
}

abbrev Keeps : {A : Type 0} → Exec Fixed Fake A → Type 0
Keeps m = (s : Bridge Fixed Fake) → ids (m s).1.db ≡ ids s.db

Keeps-bind :
    {A B : Type 0} (m : Exec Fixed Fake A) (f : A → Exec Fixed Fake B)
    → Keeps m
    → ((a : A) → Keeps (f a))
    → Keeps (m >>= f)
unfolding ◌>>=◌
Keeps-bind {A} {B} m f hm hf s = go (m s) (hm s)
  where
    go :
        (r : Outcome A × Bridge Fixed Fake)
        → ids r.1.db ≡ ids s.db
        → ids (continue r.0 f r.1).1.db ≡ ids s.db
    go (ok a, s') e = hf a s' ∙ e
    go (returned st, s') e = e
    go (raised x, s') e = e

Keeps-start : (app : AppState Fixed) → Keeps (start_app app)
unfolding start_app pure
Keeps-start app =
    Keeps-bind (recover_on_startup app.settings) _
      (λ s. ((Steady-recover_on_startup {mark = λ _. true} app.settings).at s).1.1) λ _ s. refl

Keeps-turn : (app : AppState Fixed) → Keeps (serve_all app (takes_turn [] ∷ []))
unfolding serve_all serve pure
Keeps-turn app = Keeps-bind (serve app (takes_turn [])) _ (go app.worker_running) λ _ s. refl
  where
    go : (b : Bool) → Keeps (if b then turn_amid app.settings app.symbol_mapper [] else pure tt)
    go true s =
        ap (λ (r : Outcome (Unit {0}) × Bridge Fixed Fake). ids r.1.db)
          (turn_amid-nothing app.settings app.symbol_mapper s)
        ∙ (turn-Advances app.settings app.symbol_mapper "" s).1
    go false s = refl

Keeps-end : (app : AppState Fixed) → Keeps (end_lifespan app)
Keeps-end app s = ap ids-of (Idle-same (end_lifespan app) s (Idle-end_lifespan app)).0
  where
    ids-of : Database Fixed → List String
    ids-of db = ids db

Keeps-lifespan : (app : AppState Fixed) → Keeps (lifespan app (takes_turn [] ∷ []))
unfolding lifespan
Keeps-lifespan app = Keeps-bind (start_app app) _ (Keeps-start app) λ started.
    Keeps-bind (serve_all started (takes_turn [] ∷ [])) _ (Keeps-turn started)
      λ _. Keeps-end started

abbrev received : Bridge Fixed Fake
received = run_processes (λ text. text) (receiving ∷ []) (first start.gateway fake)

received-ids : ids received.db ≡ "s1" ∷ []
unfolding run_processes run_app from_file lifespan ◌>>=◌ start_app recover_on_startup query
    reconcile_all find_stuck_processing pure serve_all serve dispatch or_raise int read_int
    read_digits post_signal signal_create is_valid validate_action same_codes matches_safe_id
    safe_rest is_safe strip lstrip is_space submit_signal submit transaction ask utc_now gets
    insert_signal_if_new insert_or_ignore get_signal end_lifespan shutdown modify_gateway
received-ids = refl

abbrev both : List (Process Fixed Fake String)
both = receiving ∷ taking ∷ []

abbrev afterwards : Bridge Fixed Fake
afterwards = run_processes (λ text. text) both (first start.gateway fake)

afterwards-ids : ids afterwards.db ≡ "s1" ∷ []
unfolding run_processes run_app from_file
afterwards-ids = Keeps-lifespan _ _ ∙ received-ids

afterwards-Alone : All (Alone fake_host.sha256_hex "s1") (ids afterwards.db)
afterwards-Alone = rw afterwards-ids (λ e. refl, tt)

run_processes-once_example : sends (meb_comment fake_host.sha256_hex "s1") afterwards.journal ≤ 1
run_processes-once_example =
    run_processes-once (λ text. text) both start.gateway fake "s1" afterwards-Alone

abbrev queued : Bridge Fixed Fake
queued = (submit signal start).1

queued-HasStatus : HasStatus "s1" pending queued.db
unfolding submit insert_signal_if_new insert_or_ignore get_signal transaction ask utc_now pure ◌>>=◌
queued-HasStatus = refl

run_processes-keep_example :
    (st : ExecutionStatus) × HasStatus "s1" st (run_processes (λ text. text) both queued).db
    × Moves (some pending) (some st)
run_processes-keep_example =
    run_processes-keep (λ text. text) both queued "s1" pending
      (after (fresh start.gateway fake) (submits signal start)) queued-HasStatus
