-- ===== src/Api/Signals.antt =====
-- app/models/signal.py and app/api/signals.py: a signal that is posted is validated and submitted,
-- and one that is asked for is shown.
use mt5_execution_bridge.Prelude.{
  ℕ, ◌-◌, String, Bool, true, false, not, ◌&&◌, ◌||◌, Option, none, some, List, [], ◌∷◌, ◌==◌, leb,
  length, map, is_none, if◌then◌else◌,
}
use mt5_execution_bridge.Float.{Float}
use mt5_execution_bridge.Models.{SignalAction, buy, sell, ExecutionStatus, Message}
use mt5_execution_bridge.Services.Text.{codes, strip, is_digit}
use mt5_execution_bridge.Storage.{Timestamp, Signal}
use mt5_execution_bridge.Storage.Signals.{NewSignal}
use mt5_execution_bridge.Outside.{Host, type_error}
use mt5_execution_bridge.Exec.{Exec, pure, or_raise, ◌>>=◌}
use mt5_execution_bridge.Worker.{submit, get}
use mt5_execution_bridge.Api.Response.{Response, success, http_error}

-- The fields of the request's body, read as the types that `SignalCreate` declares.
pub record SignalFields (F : Type 0) : Type 0 where
  pub signal_id : String
  pub timestamp : Timestamp
  pub symbol : String
  pub action : String
  pub risk_percent : F
  pub stop_loss : Option F
  pub take_profit : Option F
  pub strategy : Option String
  pub comment : Option String

-- A `SignalCreate` that was accepted has the fields of the dictionary that `submit` stores.
abbrev pub SignalCreate : Type 0 → Type 0
SignalCreate = NewSignal

-- `[A-Za-z0-9._:\-]`
unfoldable pub is_safe : ℕ → Bool
is_safe c =
    (leb b'A' c && leb c b'Z')
    || (leb b'a' c && leb c b'z')
    || is_digit c
    || c == b'.'
    || c == b'_'
    || c == b':'
    || c == b'-'

abbrev pub is_newline : ℕ → Bool
is_newline c = c == 10

-- `[...]+$` once a character has matched: `$` also matches before a newline that ends the text.
unfoldable pub safe_rest : List ℕ → Bool
safe_rest [] = true
safe_rest (c ∷ []) = is_safe c || is_newline c
safe_rest (c ∷ d ∷ cs) = is_safe c && safe_rest (d ∷ cs)

-- `_SAFE_SIGNAL_ID.match(value)`
unfoldable pub matches_safe_id : List ℕ → Bool
matches_safe_id [] = false
matches_safe_id (c ∷ cs) = is_safe c && safe_rest cs

-- `str.upper`, as far as the letters of BUY and SELL go: besides a-z, the long s has one of them as
-- its capital, and no other single character does.
abbrev pub upper_code : ℕ → ℕ
upper_code c = if leb b'a' c && leb c b'z' then c - 32 else if c == 383 then b'S' else c

unfoldable pub same_codes : List ℕ → List ℕ → Bool
same_codes [] [] = true
same_codes (c ∷ cs) (d ∷ ds) = c == d && same_codes cs ds
same_codes _ _ = false

-- `_validate_action`
unfoldable pub validate_action : String → Option SignalAction
unfolding same_codes strip
validate_action value =
    let normalized = map upper_code (strip (codes value)) in
    if same_codes normalized (codes "BUY")
    then some buy
    else if same_codes normalized (codes "SELL")
    then some sell
    else none

-- `min_length=lo, max_length=hi`
abbrev pub has_length : ℕ → ℕ → String → Bool
has_length lo hi s = leb lo (length (codes s)) && leb (length (codes s)) hi

module _ {F : Type 0} ⦃float : Float F⦄ where
  -- `gt=0, allow_inf_nan=False`
  abbrev pub is_positive : F → Bool
  is_positive x = float.lt (float.decimal 0 0) x && not (is_none (float.floor x))

  abbrev pub absent_or_positive : Option F → Bool
  absent_or_positive none = true
  absent_or_positive (some x) = is_positive x

  -- The bounds of the fields, and `_validate_signal_id`.
  unfoldable pub is_valid : SignalFields F → Bool
  unfolding matches_safe_id
  is_valid f =
      has_length 1 160 f.signal_id
      && matches_safe_id (codes f.signal_id)
      && has_length 1 50 f.symbol
      && is_positive f.risk_percent
      && float.le f.risk_percent (float.decimal 100 0)
      && absent_or_positive f.stop_loss
      && absent_or_positive f.take_profit

  abbrev pub created_with : SignalFields F → Option SignalAction → Option (SignalCreate F)
  created_with f none = none
  created_with f (some action) = some (record {
    signal_id = f.signal_id;
    timestamp = f.timestamp;
    symbol = f.symbol;
    action = action;
    risk_percent = f.risk_percent;
    stop_loss = f.stop_loss;
    take_profit = f.take_profit;
    strategy = f.strategy;
    comment = f.comment;
  })

  -- `SignalCreate(...)`; `none` is its ValidationError.
  unfoldable pub signal_create : SignalFields F → Option (SignalCreate F)
  unfolding is_valid validate_action
  signal_create f = if is_valid f then created_with f (validate_action f.action) else none

pub record SignalAcceptedResponse : Type 0 where
  pub accepted : Bool
  pub duplicate : Bool
  pub signal_id : String
  pub status : ExecutionStatus

pub record SignalStatusResponse (F : Type 0) : Type 0 where
  pub signal_id : String
  pub status : ExecutionStatus
  pub rejection_reason : Option (Message F)
  pub symbol_raw : String
  pub symbol_normalized : Option String
  pub action : SignalAction
  pub risk_percent : F
  pub stop_loss : Option F
  pub take_profit : Option F
  pub attempt_count : ℕ
  pub received_at : ℕ
  pub updated_at : ℕ

module _ {F : Type 0} where
  abbrev pub accepted_response : Signal F → Bool → SignalAcceptedResponse
  accepted_response row duplicate = record {
    accepted = true;
    duplicate = duplicate;
    signal_id = row.signal_id;
    status = row.status;
  }

  abbrev pub status_response : Signal F → SignalStatusResponse F
  status_response row = record {
    signal_id = row.signal_id;
    status = row.status;
    rejection_reason = row.rejection_reason;
    symbol_raw = row.symbol_raw;
    symbol_normalized = row.symbol_normalized;
    action = row.action;
    risk_percent = row.risk_percent;
    stop_loss = row.stop_loss;
    take_profit = row.take_profit;
    attempt_count = row.attempt_count;
    received_at = row.received_at;
    updated_at = row.updated_at;
  }

  -- `if row is None: raise HTTPException(404)`
  abbrev pub found_or_404 : Option (Signal F) → Response (SignalStatusResponse F)
  found_or_404 none = http_error 404
  found_or_404 (some row) = success (status_response row)

module _ {F T : Type 0} ⦃host : Host T⦄ where
  -- `submit_signal`; `row["signal_id"]` of a missing row is a TypeError.
  unfoldable pub submit_signal : SignalCreate F → Exec F T (Response SignalAcceptedResponse)
  submit_signal signal = do
    (found, duplicate) ← submit signal
    row ← or_raise type_error found
    pure (success (accepted_response row duplicate))

  -- `get_signal`
  unfoldable pub show_signal : String → Exec F T (Response (SignalStatusResponse F))
  show_signal signal_id = do found ← get signal_id; pure (found_or_404 found)

  abbrev pub submit_created : Option (SignalCreate F) → Exec F T (Response SignalAcceptedResponse)
  submit_created none = pure (http_error 422)
  submit_created (some signal) = submit_signal signal

  -- POST /api/signals: the body is validated before the handler runs.
  unfoldable pub post_signal :
      ⦃float : Float F⦄ → SignalFields F → Exec F T (Response SignalAcceptedResponse)
  post_signal fields = submit_created (signal_create fields)
