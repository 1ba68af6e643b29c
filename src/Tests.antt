-- ===== src/Tests.antt =====
-- The development on concrete inputs: `Fixed` is an implementation of `Float`, and `Fake` one of the
-- MetaTrader5 package and the host.
pub mod Fixed
pub mod Fake
mod Runs
mod Examples
mod Tables
mod Life
mod Http
mod Values
mod Sent
pub mod Process
