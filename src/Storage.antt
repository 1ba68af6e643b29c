-- ===== src/Storage.antt =====
-- app/storage: the SQLite database as three tables, and every statement that app/storage/database.py
-- runs as a function on them. The statements stand in the child modules `Signals`, `Executions` and
-- `Baselines`; the facts about them stand in the others.
mod Tables
pub mod Signals
pub mod Executions
pub mod Baselines
pub mod Rows
pub mod Arrivals
pub mod Schema
pub mod Opening
pub mod Queue
pub mod Days
pub mod Attempts
pub mod Claims
pub use Tables.*
