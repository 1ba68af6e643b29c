-- ===== src/Api.antt =====
-- app/api, app/models/signal.py, app/main.py and client/bridge_client.py: what comes in over HTTP, and
-- what goes out. Routing, the parsing of JSON into typed fields, and the answer 500 to an exception
-- are FastAPI's: a handler here takes parsed fields, and an exception is a failure of its action.
pub mod Response
pub mod Signals
pub mod Identifiers
pub mod Accepted
pub mod Posting
pub mod Snapshots
pub mod ReadOnly
pub mod RoundTrip
pub mod Limit
pub mod Shown
pub mod Client
pub mod Application
pub mod Lifespan
