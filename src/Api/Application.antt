-- ===== src/Api/Application.antt =====
-- app/main.py: the limit on a request's body, and the objects that a new process holds; and
-- app/services/symbol_mapper.py's `from_file`, which reads one of them.
use mt5_execution_bridge.Prelude.{
  ℕ, ◌*◌, String, Bool, true, false, Option, none, some, List, [], map, if◌then◌else◌,
}
use mt5_execution_bridge.Int.{pos, ltb_ℤ}
use mt5_execution_bridge.Services.Text.{int}
use mt5_execution_bridge.Services.SymbolMapper.{SymbolMapper}
use mt5_execution_bridge.Config.{Settings}
use mt5_execution_bridge.Outside.{
  Failure, Answer, answer, failure, type_error, value_error, Sdk, Host,
}
use mt5_execution_bridge.Exec.{Bridge, Exec, pure, or_raise, ◌>>=◌, ◌>>◌}
use mt5_execution_bridge.Gateway.{shutdown}
use mt5_execution_bridge.Worker.{recover_on_startup}
use mt5_execution_bridge.Worker.System.{new_gateway}
use mt5_execution_bridge.Api.Response.{Response, http_error}

abbrev pub max_request_body_bytes : ℕ
max_request_body_bytes = 16 * 1024

module _ {F T A : Type 0} where
  -- `BodySizeLimitMiddleware.dispatch`, of the header `content-length` and the handler behind it;
  -- a header that is no number raises.
  unfoldable pub dispatch : Option String → Exec F T (Response A) → Exec F T (Response A)
  dispatch none call_next = call_next
  dispatch (some content_length) call_next = do
    n ← or_raise value_error (int content_length)
    if ltb_ℤ (pos max_request_body_bytes) n then pure (http_error 413) else call_next

-- What is at `symbol_map_path`: nothing, a file that cannot be read as JSON, an object with its keys
-- and values, or another JSON value.
pub data MapFile (V : Type 0) : Type 0 where
  missing : MapFile V
  unreadable : Failure → MapFile V
  object : List (String × V) → MapFile V
  other : MapFile V

-- `SymbolMapper.from_file`; `str_of` is Python's `str` of a JSON value.
unfoldable pub from_file : {V : Type 0} → (V → String) → MapFile V → Answer SymbolMapper
from_file str_of missing = answer []
from_file str_of (unreadable e) = failure e
from_file str_of (object items) = answer (map (λ item. (item.0, str_of item.1)) items)
from_file str_of other = failure type_error

-- `app.state`: what the handlers and the worker share besides the bridge's state.
pub record AppState (F : Type 0) : Type 0 where
  pub settings : Settings F
  pub symbol_mapper : SymbolMapper
  pub worker_running : Bool
  pub database_open : Bool

-- The new objects, where the mapper could be read.
abbrev pub new_state :
    {F T : Type 0}
    → Settings F
    → Bool
    → Answer SymbolMapper
    → Bridge F T
    → Answer (AppState F) × Bridge F T
new_state settings available (answer mapper) s = (
  answer (record {
    settings = settings;
    symbol_mapper = mapper;
    worker_running = false;
    database_open = true;
  }),
  record s { gateway = new_gateway available },
)
new_state settings available (failure e) s = (failure e, s)

-- `_build_state`: the new objects, over the database that is there.
abbrev pub build_state :
    {F T V : Type 0}
    → (V → String)
    → Settings F
    → MapFile V
    → Bool
    → Bridge F T
    → Answer (AppState F) × Bridge F T
build_state str_of settings file available = new_state settings available (from_file str_of file)

module _ {F T : Type 0} ⦃sdk : Sdk F T⦄ ⦃host : Host T⦄ where
  -- `ExecutionWorker.start`: the recovery, and then the flag `_running`, which lets the loop run.
  unfoldable pub start : AppState F → Exec F T (AppState F)
  start app = do recover_on_startup app.settings; pure (record app { worker_running = true })

module _ {F T : Type 0} ⦃sdk : Sdk F T⦄ where
  -- The end of `lifespan`: the worker stops, the gateway is shut down, and the database is closed.
  unfoldable pub end_lifespan : AppState F → Exec F T (AppState F)
  end_lifespan app = do
    shutdown
    pure (record app { worker_running = false; database_open = false })
