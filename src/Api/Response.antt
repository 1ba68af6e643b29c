-- ===== src/Api/Response.antt =====
-- What a handler answers: 200 with a body, or an HTTP error with its status code.
use mt5_execution_bridge.Prelude.{ℕ}

pub data Response (A : Type 0) : Type 0 where
  success : A → Response A
  http_error : ℕ → Response A
