-- ===== src/Execution/Common.antt =====
-- app/services/execution_service.py: the account key, the comment tag, the connection, and
-- `finish`, by which every step of `process_signal` ends it.
use Prim.Native.String
use Prim.Native.String.{slice}
use mt5_execution_bridge.Prelude.{
  ℕ, zero, suc, String, Bool, true, false, Option, none, some, List, [], ◌∷◌, ◌==◌, ◌||◌,
  if◌then◌else◌,
}
use mt5_execution_bridge.Float.{ℤ}
use mt5_execution_bridge.Models.{ExecutionStatus, is_rejection, Message}
use mt5_execution_bridge.Storage.{Signal}
use mt5_execution_bridge.Storage.Signals.{update_signal_status}
use mt5_execution_bridge.Storage.Executions.{
  Field, finished_at, result_message, status, update_execution,
}
use mt5_execution_bridge.Services.Text.{codes, strip, int, or_none, decimal}
use mt5_execution_bridge.Services.Risk.{RiskCheckResult, passed, failed}
use mt5_execution_bridge.Config.{Settings}
use mt5_execution_bridge.Outside.{AccountInfo, Sdk, Host, value_error}
use mt5_execution_bridge.Exec.{
  Exec, pure, return_early, or_raise, utc_now, transaction, ◌>>=◌, ◌>>◌,
}
use mt5_execution_bridge.Gateway.{connected, initialize}

abbrev pub max_mt5_connect_attempts : ℕ
max_mt5_connect_attempts = 3

-- "MEB:" and the first ten digits of the hash
unfoldable pub meb_comment : (String → String) → String → String
meb_comment sha256_hex signal_id = String.◌++◌ "MEB:" (slice (sha256_hex signal_id) 0 10)

abbrev pub is_blank : String → Bool
unfolding strip
is_blank s = elim (strip (codes s)) [ [] ↦ true | _ ∷ _ ↦ false ]

abbrev pub key_of : Option String → Option ℕ → Option String
unfolding decimal
key_of none login = none
key_of (some server) none = none
key_of (some server) (some login) =
    if is_blank server || login == 0
    then none
    else some (String.◌++◌ server (String.◌++◌ "|" (decimal login)))

-- `None` where the server is missing or blank, or the login missing or 0.
unfoldable pub account_key_for : {F : Type 0} → AccountInfo F → Option String
unfolding strip decimal
account_key_for account = key_of account.server account.login

-- What the steps of one run of `process_signal` share: the row, the settings, and the id of the
-- execution's row.
pub record Attempt (F : Type 0) : Type 0 where
  pub settings : Settings F
  pub row : Signal F
  pub execution_id : ℕ

module _ {F T : Type 0} ⦃sdk : Sdk F T⦄ where
  -- `int(login) if login else None`
  abbrev pub login_number : Option String → Exec F T (Option ℤ)
  login_number none = pure none
  login_number (some s) = do n ← or_raise value_error (int s); pure (some n)

  unfoldable pub connect : Settings F → Exec F T Bool
  connect st = do
    login ← login_number (or_none st.mt5_login)
    initialize (record {
      path = or_none st.mt5_terminal_path;
      login = login;
      password = or_none st.mt5_password;
      server = or_none st.mt5_server;
    })

  -- The loop over the attempts that are left.
  unfoldable pub connect_attempts : ℕ → Settings F → Exec F T Bool
  connect_attempts zero st = pure false
  connect_attempts (suc n) st =
      let retry = connect_attempts n st in do up ← connect st; if up then pure true else retry

  unfoldable pub ensure_connected : Settings F → Exec F T Bool
  ensure_connected st = do
    up ← connected
    if up then pure true else connect_attempts max_mt5_connect_attempts st

module _ {F T : Type 0} ⦃host : Host T⦄ where
  unfoldable pub record_fields : Attempt F → List (Field F) → Exec F T (Unit {0})
  record_fields job fields = transaction (λ _. update_execution job.execution_id fields)

  -- The closure `finish(status, message, **extra)` and the `return` in front of every call of it.
  unfoldable pub finish :
      {A : Type 0} → Attempt F → ExecutionStatus → Option (Message F) → List (Field F) → Exec F T A
  finish job st message extra = do
    now ← utc_now
    record_fields job (status st ∷ finished_at now ∷ result_message message ∷ extra)
    transaction
        (update_signal_status job.row.signal_id st (if is_rejection st then message else none) none)
    return_early st

  abbrev pub reject : {A : Type 0} → Attempt F → ExecutionStatus → Message F → Exec F T A
  reject job st message = finish job st (some message) []

  -- `if not result.ok: return finish(result.status, result.reason)`
  abbrev pub require : Attempt F → RiskCheckResult F → Exec F T (Unit {0})
  require job passed = pure tt
  require job (failed st reason) = reject job st reason

  -- `if value is None: return finish(...)`
  abbrev pub or_reject :
      {A : Type 0} → Attempt F → ExecutionStatus → Message F → Option A → Exec F T A
  or_reject job st message none = reject job st message
  or_reject job st message (some a) = pure a
