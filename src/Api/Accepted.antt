-- ===== src/Api/Accepted.antt =====
-- What the validation of a posted signal lets through.
use mt5_execution_bridge.Prelude.{
  ℕ, ◌≤◌, ◌≡◌, ◌≢◌, refl, ◌⊎◌, inl, inr, true, false, Option, none, some, List, [], ◌∷◌, arith,
  length, is_none, All, Bool-cases,
}
use mt5_execution_bridge.Float.{Float}
use mt5_execution_bridge.Models.{SignalAction, buy, sell}
use mt5_execution_bridge.Services.Text.{codes}
use mt5_execution_bridge.Api.Signals.{
  SignalFields, SignalCreate, absent_or_positive, matches_safe_id, validate_action, is_valid,
  created_with, signal_create,
}
use mt5_execution_bridge.Api.Identifiers.{
  IsSafe, EndsAs, matches_safe_id-lem, Spells, Spelled, validate_action-Spelled,
  Spells-validate_action,
}

some_id : (cs : List ℕ) → matches_safe_id cs ≡ true → 1 ≤ length cs
unfolding matches_safe_id
some_id [] h = cc
some_id (c ∷ cs) h = omega arith

module _ {F : Type 0} ⦃float : Float F⦄ where
  -- A float that is greater than zero, and neither infinite nor NaN.
  abbrev pub IsPositive : F → Type 0
  IsPositive x = (float.lt (float.decimal 0 0) x ≡ true) × (is_none (float.floor x) ≡ false)

  abbrev pub IsPositiveOrAbsent : Option F → Type 0
  IsPositiveOrAbsent none = Unit
  IsPositiveOrAbsent (some x) = IsPositive x

  -- A signal that the queue may hold.
  pub record IsSound (sc : SignalCreate F) : Type 0 where
    pub short_id : length (codes sc.signal_id) ≤ 160
    pub safe_id :
        (c : ℕ) × (ids : List ℕ) × All IsSafe (c ∷ ids) × EndsAs (codes sc.signal_id) (c ∷ ids)
    pub symbol : (1 ≤ length (codes sc.symbol)) × (length (codes sc.symbol) ≤ 50)
    pub risk_percent :
        IsPositive sc.risk_percent × (float.le sc.risk_percent (float.decimal 100 0) ≡ true)
    pub stop_loss : IsPositiveOrAbsent sc.stop_loss
    pub take_profit : IsPositiveOrAbsent sc.take_profit

  -- The signal has the fields of the body.
  pub record IsCopied (f : SignalFields F) (sc : SignalCreate F) : Type 0 where
    pub signal_id : sc.signal_id ≡ f.signal_id
    pub timestamp : sc.timestamp ≡ f.timestamp
    pub symbol : sc.symbol ≡ f.symbol
    pub action : Spells sc.action f.action
    pub risk_percent : sc.risk_percent ≡ f.risk_percent
    pub stop_loss : sc.stop_loss ≡ f.stop_loss
    pub take_profit : sc.take_profit ≡ f.take_profit
    pub strategy : sc.strategy ≡ f.strategy
    pub comment : sc.comment ≡ f.comment

  positive_if_given : (o : Option F) → absent_or_positive o ≡ true → IsPositiveOrAbsent o
  positive_if_given none h = tt
  positive_if_given (some x) h = ground (arith, h)

  abbrev Bounded : SignalFields F → Type 0
  Bounded f =
      (length (codes f.signal_id) ≤ 160)
      × (matches_safe_id (codes f.signal_id) ≡ true)
      × (1 ≤ length (codes f.symbol))
      × (length (codes f.symbol) ≤ 50)
      × IsPositive f.risk_percent
      × (float.le f.risk_percent (float.decimal 100 0) ≡ true)
      × (absent_or_positive f.stop_loss ≡ true)
      × (absent_or_positive f.take_profit ≡ true)

  -- What the schema of a signal asks of a body.
  pub record IsAcceptable (f : SignalFields F) : Type 0 where
    pub short_id : length (codes f.signal_id) ≤ 160
    pub safe_id :
        (c : ℕ) × (ids : List ℕ) × All IsSafe (c ∷ ids) × EndsAs (codes f.signal_id) (c ∷ ids)
    pub symbol : (1 ≤ length (codes f.symbol)) × (length (codes f.symbol) ≤ 50)
    pub action : Spells buy f.action ⊎ Spells sell f.action
    pub risk_percent :
        IsPositive f.risk_percent × (float.le f.risk_percent (float.decimal 100 0) ≡ true)
    pub stop_loss : IsPositiveOrAbsent f.stop_loss
    pub take_profit : IsPositiveOrAbsent f.take_profit

  given_as_positive : (o : Option F) → IsPositiveOrAbsent o → absent_or_positive o ≡ true
  given_as_positive none h = refl
  given_as_positive (some x) h = ground (arith, h)

  IsAcceptable-is_valid : (f : SignalFields F) → IsAcceptable f → is_valid f ≡ true
  unfolding is_valid
  IsAcceptable-is_valid f h =
      let safe = (matches_safe_id-lem (codes f.signal_id)).1 h.safe_id in
      let stop = given_as_positive f.stop_loss h.stop_loss in
      let take = given_as_positive f.take_profit h.take_profit in
      ground (
        arith,
        safe,
        stop,
        take,
        some_id (codes f.signal_id) safe,
        h.short_id,
        h.symbol,
        h.risk_percent,
      )

  IsAcceptable-action : (f : SignalFields F) → IsAcceptable f → validate_action f.action ≢ none
  IsAcceptable-action f h = elim h.action [
    | inl buys ↦ Spells-validate_action buy f.action buys
    | inr sells ↦ Spells-validate_action sell f.action sells
  ]

  is_valid-Bounded : (f : SignalFields F) → is_valid f ≡ true → Bounded f
  unfolding is_valid
  is_valid-Bounded f h = ground (arith, h)

  module _ (f : SignalFields F) where
    -- The outcome of the validation.
    abbrev pub Verdict : Option (SignalCreate F) → Type 0
    Verdict none = ¬ IsAcceptable f
    Verdict (some sc) = IsCopied f sc × IsSound sc

    -- A body that is accepted becomes a signal with the same fields, whose action the body's text
    -- spells when stripped and in capitals. Its id has at most 160 characters, all safe but for at
    -- most one newline at the end, its symbol has 1 to 50, its risk percent is greater than 0 and at
    -- most 100, its stop loss and take profit are greater than 0 where they are given, and none of
    -- these is infinite or NaN. A body whose fields are within these bounds and whose action spells
    -- BUY or SELL is not refused.
    pub signal_create-Verdict : Verdict (signal_create f)
    unfolding signal_create
    signal_create-Verdict = elim (Bool-cases (is_valid f)) [
      | inr odd ↦ rw odd λ h. let good = IsAcceptable-is_valid f h in cc
      | inl good ↦
          rw good (acted good (validate_action f.action) refl (validate_action-Spelled f.action))
    ]
      where
        acted :
            is_valid f ≡ true
            → (o : Option SignalAction) → validate_action f.action ≡ o
            → Spelled f.action o
            → Verdict (created_with f o)
        acted good none e s = λ h. IsAcceptable-action f h e
        acted good (some action) e s =
            let (short, safe, some_symbol, symbol, risk, most, stop, take) =
              is_valid-Bounded f good in
            (
              record {
                signal_id = refl;
                timestamp = refl;
                symbol = refl;
                action = s;
                risk_percent = refl;
                stop_loss = refl;
                take_profit = refl;
                strategy = refl;
                comment = refl;
              },
              record {
                short_id = short;
                safe_id = (matches_safe_id-lem (codes f.signal_id)).0 safe;
                symbol = (some_symbol, symbol);
                risk_percent = (risk, most);
                stop_loss = positive_if_given f.stop_loss stop;
                take_profit = positive_if_given f.take_profit take;
              },
            )
