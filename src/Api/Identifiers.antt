-- ===== src/Api/Identifiers.antt =====
-- What the pattern of `_SAFE_SIGNAL_ID` and the validator of the action accept.
use mt5_execution_bridge.Prelude.{
  ℕ, String, ◌≡◌, ◌≢◌, refl, ap, ◌↔◌, ◌⊎◌, inl, inr, true, Option, none, some, List, [], ◌∷◌, ◌++◌,
  arith, map, All, Bool-cases,
}
use mt5_execution_bridge.Models.{SignalAction, buy, sell}
use mt5_execution_bridge.Services.Text.{codes, strip}
use mt5_execution_bridge.Api.Signals.{
  is_safe, safe_rest, matches_safe_id, upper_code, same_codes, validate_action,
}

abbrev pub IsSafe : ℕ → Type 0
IsSafe c = is_safe c ≡ true

-- `cs` is a run of safe characters `ids`, with at most a newline behind.
abbrev pub EndsAs : List ℕ → List ℕ → Type 0
EndsAs cs ids = (cs ≡ ids) ⊎ (cs ≡ ids ++ 10 ∷ [])

safe_rest-lem :
    (cs : List ℕ) → safe_rest cs ≡ true → (ids : List ℕ) × All IsSafe ids × EndsAs cs ids
unfolding safe_rest
safe_rest-lem [] h = ([], tt, inl refl)
safe_rest-lem (c ∷ []) h = elim (Bool-cases (is_safe c)) [
  | inl safe ↦ (c ∷ [], (safe, tt), inl refl)
  | inr odd ↦ ([], tt, inr (ap (λ (n : ℕ). n ∷ []) (ground (arith, odd, h))))
]
safe_rest-lem (c ∷ d ∷ cs) h =
    let (ids, safe, ends) = safe_rest-lem (d ∷ cs) (ground (arith, h)) in
    (
      c ∷ ids,
      (ground (arith, h), safe),
      elim ends [
        | inl same ↦ inl (ap (λ (xs : List ℕ). c ∷ xs) same)
        | inr same ↦ inr (ap (λ (xs : List ℕ). c ∷ xs) same)
      ],
    )

-- Runs of safe characters match, also with a newline behind.
safe_rest-holds : (ids : List ℕ) → All IsSafe ids → safe_rest ids ≡ true
unfolding safe_rest
safe_rest-holds [] h = refl
safe_rest-holds (c ∷ []) (safe, h) = rw safe refl
safe_rest-holds (c ∷ d ∷ cs) (safe, h) = rw safe (safe_rest-holds (d ∷ cs) h)

safe_rest-newline : (ids : List ℕ) → All IsSafe ids → safe_rest (ids ++ 10 ∷ []) ≡ true
unfolding safe_rest is_safe
safe_rest-newline [] h = refl
safe_rest-newline (c ∷ []) (safe, h) = rw safe refl
safe_rest-newline (c ∷ d ∷ cs) (safe, h) = rw safe (safe_rest-newline (d ∷ cs) h)

-- The pattern matches exactly the texts of one or more safe characters, with at most one newline
-- behind them.
pub matches_safe_id-lem :
    (cs : List ℕ)
    → (matches_safe_id cs ≡ true)
      ↔ ((c : ℕ) × (ids : List ℕ) × All IsSafe (c ∷ ids) × EndsAs cs (c ∷ ids))
unfolding matches_safe_id
matches_safe_id-lem cs = (forth cs, back cs)
  where
    forth :
        (cs : List ℕ)
        → matches_safe_id cs ≡ true
        → (c : ℕ) × (ids : List ℕ) × All IsSafe (c ∷ ids) × EndsAs cs (c ∷ ids)
    forth [] h = cc
    forth (c ∷ cs) h =
        let (ids, safe, ends) = safe_rest-lem cs (ground (arith, h)) in
        (
          c,
          ids,
          (ground (arith, h), safe),
          elim ends [
            | inl same ↦ inl (ap (λ (xs : List ℕ). c ∷ xs) same)
            | inr same ↦ inr (ap (λ (xs : List ℕ). c ∷ xs) same)
          ],
        )

    back :
        (cs : List ℕ)
        → ((c : ℕ) × (ids : List ℕ) × All IsSafe (c ∷ ids) × EndsAs cs (c ∷ ids))
        → matches_safe_id cs ≡ true
    back cs (c, ids, (safe, h), inl same) = rw (same, safe) (safe_rest-holds ids h)
    back cs (c, ids, (safe, h), inr same) = rw (same, safe) (safe_rest-newline ids h)

same_codes-lem : (cs ds : List ℕ) → same_codes cs ds ≡ true → cs ≡ ds
unfolding same_codes
same_codes-lem [] [] h = refl
same_codes-lem [] (d ∷ ds) h = cc
same_codes-lem (c ∷ cs) [] h = cc
same_codes-lem (c ∷ cs) (d ∷ ds) h =
    let same : c ≡ d = ground (arith, h) in
    rw same (ap (λ (xs : List ℕ). d ∷ xs) (same_codes-lem cs ds (ground (arith, h))))

-- The text of an action: `SignalAction.BUY.value` and `SignalAction.SELL.value`.
abbrev pub action_value : SignalAction → String
action_value buy = "BUY"
action_value sell = "SELL"

abbrev pub Spells : SignalAction → String → Type 0
Spells action value = map upper_code (strip (codes value)) ≡ codes (action_value action)

-- A text that spells an action is not refused.
pub Spells-validate_action :
    (action : SignalAction) (value : String) → Spells action value → validate_action value ≢ none
unfolding validate_action same_codes
Spells-validate_action buy value h = rw h (λ e. cc)
Spells-validate_action sell value h = rw h (λ e. cc)

-- What is accepted as an action spells it.
abbrev pub Spelled : String → Option SignalAction → Type 0
Spelled value none = Unit
Spelled value (some action) = Spells action value

pub validate_action-Spelled : (value : String) → Spelled value (validate_action value)
unfolding validate_action
validate_action-Spelled value =
    elim (Bool-cases (same_codes (map upper_code (strip (codes value))) (codes "BUY"))) [
      | inl buys ↦ rw buys (same_codes-lem _ _ buys)
      | inr other ↦
          rw other
            (elim (Bool-cases (same_codes (map upper_code (strip (codes value))) (codes "SELL"))) [
              | inl sells ↦ rw sells (same_codes-lem _ _ sells)
              | inr odd ↦ rw odd tt
            ])
    ]
