-- ===== src/Api/Client.antt =====
-- client/bridge_client.py. The requests go through httpx, which is an interface here; a URL and a
-- payload go out, and a status code and a JSON body come back.
pub mod BaseUrl
use Prim.Native.Char.{Char, code}
use Prim.Native.String
use mt5_execution_bridge.Prelude.{
  ℕ, String, Bool, Option, none, some, List, [], ◌∷◌, ◌++◌, ◌==◌, if◌then◌else◌,
}
use mt5_execution_bridge.Services.Text.{or_none}
use mt5_execution_bridge.Outside.{Answer, answer, failure, outside_error, Call}

-- A value of the payload.
pub data Value (F : Type 0) : Type 0 where
  string : String → Value F
  number : F → Value F

abbrev pub Payload : Type 0 → Type 0
Payload F = List (String × Value F)

pub record Reply (B : Type 0) : Type 0 where
  pub status_code : ℕ
  pub body : B

-- `datetime.now(UTC).isoformat()`
pub record Clock (T : Type 0) : Type 0 where
  pub now_isoformat : Call T String

-- httpx: a GET, whether `raise_for_status` lets a code pass, and a POST of a payload.
pub record Http (T B : Type 0) : Type 0 where
  pub get : String → Call T (Reply B)
  pub is_success : ℕ → Bool

pub record Poster (F T B : Type 0) : Type 0 where
  pub post : String → Payload F → Call T (Reply B)

-- `base_url.rstrip("/")`
abbrev pub unless_slash : Char → String → String
unless_slash c String.[] = if code c == b'/' then "" else String.◌∷◌ c ""
unless_slash c (String.◌∷◌ d s) = String.◌∷◌ c (String.◌∷◌ d s)

unfoldable pub rstrip_slash : String → String
rstrip_slash String.[] = ""
rstrip_slash (String.◌∷◌ c s) = unless_slash c (rstrip_slash s)

-- The arguments of `send_signal`.
pub record SignalArguments (F : Type 0) : Type 0 where
  pub signal_id : String
  pub symbol : String
  pub action : String
  pub risk_percent : F
  pub stop_loss : F
  pub take_profit : Option F
  pub strategy : Option String
  pub comment : Option String
  pub timestamp : Option String

module _ {F : Type 0} where
  -- `if value is not None: payload[key] = value`
  abbrev pub entry : {A : Type 0} → String → (A → Value F) → Option A → Payload F
  entry key as_value none = []
  entry key as_value (some a) = (key, as_value a) ∷ []

  unfoldable pub payload_of : SignalArguments F → String → Payload F
  payload_of a timestamp =
      (("signal_id", string a.signal_id)
        ∷ ("timestamp", string timestamp)
        ∷ ("symbol", string a.symbol)
        ∷ ("action", string a.action)
        ∷ ("risk_percent", number a.risk_percent)
        ∷ ("stop_loss", number a.stop_loss)
        ∷ [])
      ++ entry "take_profit" number a.take_profit
      ++ entry "strategy" string a.strategy
      ++ entry "comment" string a.comment

-- `timestamp or ...`: an empty text is replaced too.
abbrev pub given : Option String → Option String
given none = none
given (some s) = or_none s

module _ {T : Type 0} ⦃clock : Clock T⦄ where
  abbrev pub timestamp_or_now : Option String → Call T String
  timestamp_or_now none t = clock.now_isoformat t
  timestamp_or_now (some s) t = (answer s, t)

module _ {T B : Type 0} ⦃http : Http T B⦄ where
  -- `response.raise_for_status()` and `return response.json()`
  abbrev pub body_of : Answer (Reply B) × T → Answer B × T
  body_of (answer r, t) =
      if http.is_success r.status_code then (answer r.body, t) else (failure outside_error, t)
  body_of (failure e, t) = (failure e, t)

  unfoldable pub health : String → Call T B
  health base_url t = body_of (http.get (String.◌++◌ base_url "/health") t)

  unfoldable pub status : String → Call T B
  status base_url t = body_of (http.get (String.◌++◌ base_url "/api/status") t)

  unfoldable pub get_signal : String → String → Call T B
  get_signal base_url signal_id t =
      body_of (http.get (String.◌++◌ base_url (String.◌++◌ "/api/signals/" signal_id)) t)

module _ {F T B : Type 0} ⦃clock : Clock T⦄ ⦃http : Http T B⦄ ⦃poster : Poster F T B⦄ where
  abbrev pub send_at : String → SignalArguments F → Answer String × T → Answer B × T
  unfolding payload_of
  send_at base_url a (answer timestamp, t) =
      body_of (poster.post (String.◌++◌ base_url "/api/signals") (payload_of a timestamp) t)
  send_at base_url a (failure e, t) = (failure e, t)

  unfoldable pub send_signal : String → SignalArguments F → Call T B
  unfolding payload_of
  send_signal base_url a t = send_at base_url a (timestamp_or_now (given a.timestamp) t)
