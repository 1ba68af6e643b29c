-- ===== src/Api/Limit.antt =====
-- `BodySizeLimitMiddleware` of app/main.py: the limit on the length of a request's body.
use mt5_execution_bridge.Prelude.{length, ℕ, ◌≤◌, ◌<◌, ◌≡◌, refl, true, false, none, some, arith}
use mt5_execution_bridge.Int.{pos, ltb_ℤ}
use mt5_execution_bridge.Services.Text.{codes, decimal}
use mt5_execution_bridge.Services.Text.Decimals.{int-decimal, int-too_long, length-decimal}
use mt5_execution_bridge.Outside.{value_error}
use mt5_execution_bridge.Exec.{Bridge, ok, raised, Exec, pure, or_raise, ◌>>=◌}
use mt5_execution_bridge.Api.Response.{Response, http_error}
use mt5_execution_bridge.Api.Application.{dispatch, max_request_body_bytes}

module _ {F T A : Type 0} (next : Exec F T (Response A)) (s : Bridge F T) where
  -- A request without a content length, or with the content length `n` written in decimal and at most
  -- 16384, goes on to its handler. With a greater one of at most 4300 digits it is answered 413, and with
  -- one of more digits, which `int` does not read, a ValueError is raised; either way no handler runs.
  pub dispatch-decimal :
      (n : ℕ)
      → (dispatch none next s ≡ next s)
        × (n ≤ max_request_body_bytes → dispatch (some (decimal n)) next s ≡ next s)
        × (max_request_body_bytes < n
            → length (codes (decimal n)) ≤ 4300
            → dispatch (some (decimal n)) next s ≡ (ok (http_error 413), s))
        × (4300 < length (codes (decimal n))
            → dispatch (some (decimal n)) next s ≡ (raised value_error, s))
  unfolding dispatch or_raise pure ◌>>=◌
  dispatch-decimal n = (refl, passed, refused, unread)
    where
      passed : n ≤ max_request_body_bytes → dispatch (some (decimal n)) next s ≡ next s
      passed le =
          let small : ltb_ℤ (pos max_request_body_bytes) (pos n) ≡ false = ground (arith, le) in
          let five = length-decimal 4 n (omega (arith, le)) in
          rw (int-decimal n (omega (arith, five)), small) refl

      refused :
          max_request_body_bytes < n
          → length (codes (decimal n)) ≤ 4300
          → dispatch (some (decimal n)) next s ≡ (ok (http_error 413), s)
      refused lt few =
          let large : ltb_ℤ (pos max_request_body_bytes) (pos n) ≡ true = ground (arith, lt) in
          rw (int-decimal n few, large) refl

      unread :
          4300 < length (codes (decimal n))
          → dispatch (some (decimal n)) next s ≡ (raised value_error, s)
      unread many = rw (int-too_long n many) refl
