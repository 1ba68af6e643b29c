-- ===== src/Api/RoundTrip.antt =====
-- From the client's payload to what the API shows (client/bridge_client.py, app/api/signals.py).
use mathlib.Core.Option
use mt5_execution_bridge.Prelude.{
  get_or, String, str_eq, ◌≡◌, refl, sym, ap, ◌∙◌, Option, none, some, [], ◌∷◌, ◌++◌, if◌then◌else◌,
}
use mt5_execution_bridge.Float.{Float}
use mt5_execution_bridge.Models.{pending}
use mt5_execution_bridge.Storage.{Timestamp}
use mt5_execution_bridge.Api.Signals.{SignalFields, SignalStatusResponse}
use mt5_execution_bridge.Api.Identifiers.{Spells}
use mt5_execution_bridge.Api.Client.{
  Value, string, number, Payload, SignalArguments, entry, payload_of,
}

module _ {F : Type 0} where
  -- What a payload has under a key.
  abbrev pub lookup : String → Payload F → Option (Value F)
  lookup k [] = none
  lookup k ((j, v) ∷ p) = let rest = lookup k p in if str_eq j k then some v else rest

  -- The fields that are read from a payload: each has the value under its key, and an optional one is
  -- `None` where the key is missing. `fromisoformat` reads the timestamp.
  pub record IsParsed (fromisoformat : String → Option Timestamp) (p : Payload F)
      (f : SignalFields F) : Type 0 where
    pub signal_id : lookup "signal_id" p ≡ some (string f.signal_id)
    pub timestamp :
        (text : String) × (lookup "timestamp" p ≡ some (string text))
        × (fromisoformat text ≡ some f.timestamp)
    pub symbol : lookup "symbol" p ≡ some (string f.symbol)
    pub action : lookup "action" p ≡ some (string f.action)
    pub risk_percent : lookup "risk_percent" p ≡ some (number f.risk_percent)
    pub stop_loss : lookup "stop_loss" p ≡ Option.map number f.stop_loss
    pub take_profit : lookup "take_profit" p ≡ Option.map number f.take_profit
    pub strategy : lookup "strategy" p ≡ Option.map string f.strategy
    pub comment : lookup "comment" p ≡ Option.map string f.comment

  text_of : Option (Value F) → Option String
  text_of (some (string s)) = some s
  text_of _ = none

  number_of : Option (Value F) → Option F
  number_of (some (number x)) = some x
  number_of _ = none

  number_of-map : (o : Option F) → number_of (Option.map number o) ≡ o
  unfolding number_of
  number_of-map none = refl
  number_of-map (some x) = refl

  -- The fields agree with the client's arguments.
  pub record IsSame (a : SignalArguments F) (f : SignalFields F) : Type 0 where
    pub signal_id : f.signal_id ≡ a.signal_id
    pub symbol : f.symbol ≡ a.symbol
    pub action : f.action ≡ a.action
    pub risk_percent : f.risk_percent ≡ a.risk_percent
    pub stop_loss : f.stop_loss ≡ some a.stop_loss
    pub take_profit : f.take_profit ≡ a.take_profit
    pub strategy : f.strategy ≡ a.strategy
    pub comment : f.comment ≡ a.comment

  payload_of-take_profit :
      (a : SignalArguments F) (text : String)
      → number_of (lookup "take_profit" (payload_of a text)) ≡ a.take_profit
  unfolding payload_of number_of
  payload_of-take_profit a text = go a.take_profit a.strategy a.comment
    where
      go :
          (x : Option F) (y z : Option String)
          → number_of (
              lookup "take_profit" (
                entry "take_profit" number x
                ++ entry "strategy" string y
                ++ entry "comment" string z))
            ≡ x
      go (some x) y z = refl
      go none none none = refl
      go none (some y) none = refl
      go none none (some z) = refl
      go none (some y) (some z) = refl

  payload_of-strategy :
      (a : SignalArguments F) (text : String)
      → text_of (lookup "strategy" (payload_of a text)) ≡ a.strategy
  unfolding payload_of text_of
  payload_of-strategy a text = go a.take_profit a.strategy a.comment
    where
      go :
          (x : Option F) (y z : Option String)
          → text_of (
              lookup "strategy" (
                entry "take_profit" number x
                ++ entry "strategy" string y
                ++ entry "comment" string z))
            ≡ y
      go none (some y) z = refl
      go (some x) (some y) z = refl
      go none none none = refl
      go none none (some z) = refl
      go (some x) none none = refl
      go (some x) none (some z) = refl

  payload_of-comment :
      (a : SignalArguments F) (text : String)
      → text_of (lookup "comment" (payload_of a text)) ≡ a.comment
  unfolding payload_of text_of
  payload_of-comment a text = go a.take_profit a.strategy a.comment
    where
      go :
          (x : Option F) (y z : Option String)
          → text_of (
              lookup "comment" (
                entry "take_profit" number x
                ++ entry "strategy" string y
                ++ entry "comment" string z))
            ≡ z
      go none none none = refl
      go none none (some z) = refl
      go none (some y) none = refl
      go none (some y) (some z) = refl
      go (some x) none none = refl
      go (some x) none (some z) = refl
      go (some x) (some y) none = refl
      go (some x) (some y) (some z) = refl

text_of-map : (F : Type 0) (o : Option String) → text_of {F = F} (Option.map string o) ≡ o
unfolding text_of
text_of-map F none = refl
text_of-map F (some x) = refl

string_injective :
    (F : Type 0) (s u : String)
    → ◌≡◌ {A = Option (Value F)} (some (string s)) (some (string u))
    → u ≡ s
unfolding text_of
string_injective F s u e = ap (λ o. get_or o s) (sym (ap text_of e))

module _ {F : Type 0} where
  number_injective :
      (x y : F) → ◌≡◌ {A = Option (Value F)} (some (number x)) (some (number y)) → y ≡ x
  unfolding number_of
  number_injective x y e = ap (λ o. get_or o x) (sym (ap number_of e))

  pub IsParsed-IsSame :
      (fromisoformat : String → Option Timestamp) (a : SignalArguments F) (text : String)
      (f : SignalFields F)
      → IsParsed fromisoformat (payload_of a text) f
      → IsSame a f
  unfolding payload_of number_of
  IsParsed-IsSame fromisoformat a text f p = record {
    signal_id = string_injective F a.signal_id f.signal_id p.signal_id;
    symbol = string_injective F a.symbol f.symbol p.symbol;
    action = string_injective F a.action f.action p.action;
    risk_percent = number_injective a.risk_percent f.risk_percent p.risk_percent;
    stop_loss = sym (number_of-map f.stop_loss) ∙ sym (ap number_of p.stop_loss);
    take_profit =
        sym (number_of-map f.take_profit)
        ∙ sym (ap number_of p.take_profit)
        ∙ payload_of-take_profit a text;
    strategy =
        sym (text_of-map F f.strategy) ∙ sym (ap text_of p.strategy) ∙ payload_of-strategy a text;
    comment =
        sym (text_of-map F f.comment) ∙ sym (ap text_of p.comment) ∙ payload_of-comment a text;
  }

  -- What the API shows of a signal that has just been sent.
  pub record IsShown (a : SignalArguments F) (r : SignalStatusResponse F) : Type 0 where
    pub signal_id : r.signal_id ≡ a.signal_id
    pub status : r.status ≡ pending
    pub rejection_reason : r.rejection_reason ≡ none
    pub symbol_raw : r.symbol_raw ≡ a.symbol
    pub symbol_normalized : r.symbol_normalized ≡ none
    pub action : Spells r.action a.action
    pub risk_percent : r.risk_percent ≡ a.risk_percent
    pub stop_loss : r.stop_loss ≡ some a.stop_loss
    pub take_profit : r.take_profit ≡ a.take_profit
    pub attempt_count : r.attempt_count ≡ 0
