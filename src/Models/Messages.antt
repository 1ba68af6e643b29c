-- ===== src/Models/Messages.antt =====
-- The messages that the checks and the pipeline give: a constant text, or the template of an
-- f-string with the values it formats. (How Python renders a number in a message is not modelled.)
use mt5_execution_bridge.Prelude.{ℕ, String, Option}

pub data Message (F : Type 0) : Type 0 where
  text : String → Message F
  -- app/services/risk_service.py; ages are in microseconds
  signal_age : ℕ → ℕ → Message F
  signal_in_future : ℕ → Message F
  risk_percent_outside : F → F → Message F
  spread_exceeds : F → ℕ → Message F
  trades_already_executed : ℕ → Message F
  positions_already_open : ℕ → Message F
  daily_loss_exceeds : F → F → Message F
  -- app/services/execution_service.py
  no_symbol_mapping : String → Message F
  symbol_unavailable : String → Message F
  retcode_and_comment : Option ℕ → String → Message F
  unexpected_placed : String → Message F
