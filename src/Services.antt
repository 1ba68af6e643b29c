-- ===== src/Services.antt =====
-- app/services: `Risk` is risk_service.py (with `Limits` about it, and `Calendar` for its dates),
-- `Text` the Python text functions that the services call, `SymbolMapper` symbol_mapper.py, and
-- `Volume` volume_calculator.py (with `Sizing` about it).
pub mod Calendar
pub mod Risk
pub mod Limits
pub mod Text
pub mod SymbolMapper
pub mod Volume
pub mod Sizing
