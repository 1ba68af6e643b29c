-- ===== src/Execution/Connecting.antt =====
-- `_ensure_connected`: how often it calls `initialize` of the MetaTrader5 package.
use mt5_execution_bridge.Prelude.{
  ℕ, zero, suc, ◌+◌, ◌≤◌, String, Bool, true, false, Option, none, some, arith, if◌then◌else◌,
}
use mt5_execution_bridge.Services.Text.{or_none, int}
use mt5_execution_bridge.Config.{Settings}
use mt5_execution_bridge.Outside.{Call, Login, Sdk, value_error}
use mt5_execution_bridge.Exec.{
  Bridge, Outcome, ok, returned, raised, Exec, pure, gets, ask, or_raise, modify_gateway, continue,
  ◌>>=◌,
}
use mt5_execution_bridge.Gateway.{call_sdk, connected, last_error, initialize}
use mt5_execution_bridge.Execution.Common.{
  max_mt5_connect_attempts, login_number, connect, connect_attempts, ensure_connected,
}

-- A call that leaves the count alone, and one that adds to it.
abbrev same_count : {T A : Type 0} → Call T A → Call (ℕ × T) A
same_count c (n, t) = let (a, t') = c t in (a, (n, t'))

abbrev one_more : {T A : Type 0} → Call T A → Call (ℕ × T) A
one_more c (n, t) = let (a, t') = c t in (a, (suc n, t'))

-- The package, with a count of the calls of `initialize`.
abbrev pub counted : {F T : Type 0} → Sdk F T → Sdk F (ℕ × T)
counted sdk = record {
  initialize = λ login. one_more (sdk.initialize login);
  shutdown = same_count sdk.shutdown;
  last_error = same_count sdk.last_error;
  account_info = same_count sdk.account_info;
  symbol_info = λ symbol. same_count (sdk.symbol_info symbol);
  symbol_select = λ symbol on. same_count (sdk.symbol_select symbol on);
  symbol_info_tick = λ symbol. same_count (sdk.symbol_info_tick symbol);
  positions_get = same_count sdk.positions_get;
  orders_get = same_count sdk.orders_get;
  history_deals_get = λ since until. same_count (sdk.history_deals_get since until);
  order_calc_profit = λ a symbol v p q. same_count (sdk.order_calc_profit a symbol v p q);
  order_check = λ r. same_count (sdk.order_check r);
  order_send = λ r. same_count (sdk.order_send r);
  trade_action_deal = sdk.trade_action_deal;
  order_time_gtc = sdk.order_time_gtc;
  order_filling_fok = sdk.order_filling_fok;
  order_filling_ioc = sdk.order_filling_ioc;
  order_filling_return = sdk.order_filling_return;
}

module _ {F T : Type 0} where
  -- The count of a state.
  abbrev pub calls : Bridge F (ℕ × T) → ℕ
  calls s = s.outside.0

  -- At most `k` calls more.
  record Costs {A : Type 0} (k : ℕ) (m : Exec F (ℕ × T) A) : Type 0 where
    at : (s : Bridge F (ℕ × T)) → calls (m s).1 ≤ calls s + k

  Costs-pure : {A : Type 0} (a : A) → Costs 0 (pure a)
  unfolding pure
  Costs-pure a = record { at = λ s. omega arith }

  Costs-more : {A : Type 0} {m : Exec F (ℕ × T) A} (k : ℕ) → Costs 0 m → Costs k m
  Costs-more k h = record { at = λ s. omega (arith, h.at s) }

  Costs-or_raise : {A : Type 0} (o : Option A) → Costs 0 (or_raise value_error o)
  unfolding or_raise
  Costs-or_raise none = record { at = λ s. omega arith }
  Costs-or_raise (some a) = record { at = λ s. omega arith }

  Costs-if :
      {A : Type 0} (k : ℕ) (b : Bool) (m n : Exec F (ℕ × T) A)
      → Costs k m
      → Costs k n
      → Costs k (if b then m else n)
  Costs-if k true m n hm hn = hm
  Costs-if k false m n hm hn = hn

  Costs-bind :
      {A B : Type 0} (j k n : ℕ) (m : Exec F (ℕ × T) A) (f : A → Exec F (ℕ × T) B)
      → Costs j m
      → ((a : A) → Costs k (f a))
      → j + k ≤ n
      → Costs n (m >>= f)
  unfolding ◌>>=◌
  Costs-bind {A} {B} j k n m f hm hf total = record { at = λ s. go s (m s) (hm.at s) }
    where
      go :
          (s : Bridge F (ℕ × T)) (r : Outcome A × Bridge F (ℕ × T))
          → calls r.1 ≤ calls s + j
          → calls (continue r.0 f r.1).1 ≤ calls s + n
      go s (ok a, s') le = omega (arith, le, total, (hf a).at s')
      go s (returned st, s') le = omega (arith, le, total)
      go s (raised e, s') le = omega (arith, le, total)

module _ {F T : Type 0} (sdk : Sdk F T) where
  Costs-connected : Costs 0 (connected {F = F} ⦃sdk = counted sdk⦄)
  unfolding connected gets pure modify_gateway ask ◌>>=◌
  Costs-connected = record { at = λ s. ground arith }

  Costs-initialize : (l : Login) → Costs 1 (initialize {F = F} ⦃sdk = counted sdk⦄ l)
  unfolding initialize ask gets modify_gateway pure last_error call_sdk ◌>>=◌
  Costs-initialize l = record { at = λ s. ground arith }

  Costs-login_number : (o : Option String) → Costs 0 (login_number ⦃sdk = counted sdk⦄ o)
  Costs-login_number none = Costs-pure none
  Costs-login_number (some text) =
      Costs-bind 0 0 0 (or_raise value_error (int text)) (λ n. pure (some n))
        (Costs-or_raise (int text)) (λ n. Costs-pure (some n)) (omega arith)

  Costs-connect : (st : Settings F) → Costs 1 (connect ⦃sdk = counted sdk⦄ st)
  unfolding connect
  Costs-connect st =
      Costs-bind 0 1 1 (login_number ⦃sdk = counted sdk⦄ (or_none st.mt5_login)) _
        (Costs-login_number (or_none st.mt5_login)) (λ login. Costs-initialize _) (omega arith)

  Costs-connect_attempts :
      (n : ℕ) (st : Settings F) → Costs n (connect_attempts ⦃sdk = counted sdk⦄ n st)
  unfolding connect_attempts
  Costs-connect_attempts zero st = Costs-pure false
  Costs-connect_attempts (suc n) st =
      Costs-bind 1 n (suc n) (connect ⦃sdk = counted sdk⦄ st) _ (Costs-connect st)
        (λ up.
          Costs-if n up (pure true) (connect_attempts ⦃sdk = counted sdk⦄ n st)
            (Costs-more n (Costs-pure true)) (Costs-connect_attempts n st))
        (omega arith)

  -- However the terminal answers, one call of `_ensure_connected` calls `initialize` at most three
  -- times, and then ends.
  pub ensure_connected-calls :
      (st : Settings F) (s : Bridge F (ℕ × T))
      → calls (ensure_connected ⦃sdk = counted sdk⦄ st s).1 ≤ calls s + max_mt5_connect_attempts
  unfolding ensure_connected
  ensure_connected-calls st s =
      (Costs-bind 0 max_mt5_connect_attempts max_mt5_connect_attempts
          (connected ⦃sdk = counted sdk⦄) _ Costs-connected
          (λ up.
            Costs-if max_mt5_connect_attempts up (pure true)
              (connect_attempts ⦃sdk = counted sdk⦄ max_mt5_connect_attempts st)
              (Costs-more max_mt5_connect_attempts (Costs-pure true))
              (Costs-connect_attempts max_mt5_connect_attempts st))
          (omega arith)).at
        s
