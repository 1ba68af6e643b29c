-- ===== src/Lib.antt =====
-- MT5-Execution-Bridge: a service that takes trading signals over HTTP, keeps them in a durable
-- SQLite queue, and hands orders for them, after risk checks, to a MetaTrader 5 terminal.
--
-- The parts and their files:
-- - Models (app/models/enums.py): the statuses and actions, and the messages that go with a status.
-- - Storage (app/storage): the database as three tables. Storage/Signals, /Executions and
--   /Baselines have one function per method of `Database`; each is one locked transaction, given
--   the clock that it reads. Storage/Rows has the facts about them that the other parts use, Schema
--   is about the tables' constraints, Opening about the statements of the schema, and Arrivals
--   about submissions between other transactions.
-- - Services (app/services): Risk is risk_service.py, with Calendar for the dates of an instant,
--   Volume is volume_calculator.py with Sizing about it, SymbolMapper is symbol_mapper.py; Text has
--   the string methods that the services, the settings and the API use, and Text/Decimals is about
--   numbers written and read.
-- - Config (app/config.py): the settings; Config/Validation has the bounds and validators that
--   accept them, as a function from the fields' values to settings or the reason of a refusal.
-- - Outside: what is called and not implemented here, as parameters: the MetaTrader5 package
--   (`Sdk`), and the host's clock, storage and SHA-256 (`Host`). Every call may change the outside,
--   may answer anything and may fail, also by the death of the process (`killed`).
-- - Exec: the actions. The state holds the database, the gateway's fields, the outside, and a
--   journal of the requests handed to `order_check` and `order_send`. An action ends by a value, by
--   an early `return` of `process_signal`, or by a failure, and what it wrote before stays written.
-- - Gateway (app/services/mt5_gateway.py): `MT5Gateway`, method by method.
-- - Execution (app/services/execution_service.py): Checks and Orders are the steps of
--   `process_signal` in the order of the source, Pipeline puts them together, Common has `finish`,
--   the account key (with Accounts about it) and the connection (with Connecting about it),
--   Recovery the reconciliation after a restart. Idle, Quiet and Trail follow the steps: what
--   leaves the database alone, what sends nothing, and what is sent. Results, Limits, Admission and
--   Passing are about the steps that a run has behind it, Interleaved about signals that are
--   submitted between the transactions of a run, and Responsive about a host that answers every
--   call.
-- - Worker (app/worker/execution_worker.py, app/services/signal_service.py): the queue's two ends,
--   and in Worker/System the steps that a bridge takes over its life, among them the turn of
--   Worker/Amid, with submissions in between. Worker/Constraints is about the tables' constraints.
--   Worker/Lifecycle is the abstract life of a signal, and its child modules relate the steps of
--   the bridge to it; Worker/Draining is about the queue's length.
-- - Api (app/api, app/models/signal.py, app/main.py, client/bridge_client.py): Signals has the
--   validation of a posted signal and the handlers for signals, Snapshots those that show the
--   account, positions, orders and the status, with the queries of execution_service.py behind
--   them, Application the limit on a body's length and the objects of a new process, Lifespan a
--   process from its start over what it serves to its end, and Client the client's payload and
--   requests.
-- - Tests: a number type, a scripted terminal, and concrete runs.
--
-- Numbers: a Python float is an element of a type `F` with the operations of the interface `Float`,
-- of which no law is assumed but where a theorem names one; Tests/Fixed is an implementation with
-- eight decimals. An instant is a natural number of microseconds since 0001-01-01, and a trading
-- day the digits of its date. Texts are walked as code points. The texts of messages are constants
-- or templates with their values.
--
-- Bounds: the connection is tried three times as in the source, by structural recursion; the
-- worker's loop is one turn at a time, any number of which a reachable state may have behind it. No
-- definition runs on fuel but `decimal`, which has one unit more than the number, and a number has
-- fewer digits, and the walks of Services/Calendar over the 400 years of a cycle and the 12 months
-- of a year, for which Services/Calendar/Dates shows that they end within them.
--
-- Not modelled: routing, JSON and the conversion of texts to typed fields, which are FastAPI's and
-- pydantic's (Config/Validation and Api/Signals take the converted fields); httpx, an interface of
-- Api/Client; logging and sleeping; of the database's connection, the directory and the PRAGMAs;
-- and what the event loop does, while a turn is under way, other than submissions: a GET request's
-- use of the gateway between two steps of the turn, and an end of the process during a turn, for
-- whose thread it does not wait. `ExecutionRecord`, `MT5ConnectionError` and
-- `Settings.database_dir` are used by nothing and left out.
pub mod Prelude
pub mod Int
pub mod Float
pub mod Models
pub mod Storage
pub mod Services
pub mod Api
pub mod Config
pub mod Outside
pub mod Exec
pub mod Gateway
pub mod Execution
pub mod Worker
pub mod Tests
