-- ===== src/Storage/Attempts.antt =====
-- `get_executions_for_signal`: the attempts of one signal in their order.
use mt5_execution_bridge.Prelude.{
  ℕ, ◌≤◌, String, str_eq, ◌≡◌, refl, ◌∙◌, inl, inr, Bool, ◌&&◌, List, [], ◌∷◌, arith, leb, count_if,
  select, All, Bool-cases,
}
use mt5_execution_bridge.Storage.Tables.{Execution, Database}
use mt5_execution_bridge.Storage.Executions.{
  by_attempt, order_by_attempt, get_executions_for_signal,
}

module _ {F : Type 0} where
  -- No later row has a smaller attempt.
  abbrev pub IsSorted : List (Execution F) → Type 0
  IsSorted [] = Unit
  IsSorted (e ∷ es) = All (λ (d : Execution F). e.attempt ≤ d.attempt) es × IsSorted es

  by_attempt-count :
      (p : Execution F → Bool) (e : Execution F) (es : List (Execution F))
      → count_if p (by_attempt e es) ≡ count_if p (e ∷ es)
  by_attempt-count p e [] = refl
  by_attempt-count p e (d ∷ ds) = elim (Bool-cases (leb e.attempt d.attempt)) [
    | inl le ↦ rw le refl
    | inr gt ↦ rw gt (omega (arith, by_attempt-count p e ds))
  ]

  by_attempt-All :
      (n : ℕ) (e : Execution F) (es : List (Execution F))
      → n ≤ e.attempt
      → All (λ (d : Execution F). n ≤ d.attempt) es
      → All (λ (d : Execution F). n ≤ d.attempt) (by_attempt e es)
  by_attempt-All n e [] le h = (le, tt)
  by_attempt-All n e (d ∷ ds) le (h, hs) = elim (Bool-cases (leb e.attempt d.attempt)) [
    | inl first ↦ rw first (le, (h, hs))
    | inr later ↦ rw later (h, by_attempt-All n e ds le hs)
  ]

  All-weaken :
      (m n : ℕ) (es : List (Execution F))
      → m ≤ n
      → All (λ (d : Execution F). n ≤ d.attempt) es
      → All (λ (d : Execution F). m ≤ d.attempt) es
  All-weaken m n [] le h = tt
  All-weaken m n (d ∷ ds) le (h, hs) = (omega (arith, le, h), All-weaken m n ds le hs)

  by_attempt-IsSorted :
      (e : Execution F) (es : List (Execution F)) → IsSorted es → IsSorted (by_attempt e es)
  by_attempt-IsSorted e [] h = (tt, tt)
  by_attempt-IsSorted e (d ∷ ds) (h, hs) = elim (Bool-cases (leb e.attempt d.attempt)) [
    | inl first ↦ rw first (
      (ground (arith, first), All-weaken e.attempt d.attempt ds (ground (arith, first)) h),
      (h, hs),
    )
    | inr later ↦
        rw later
          (by_attempt-All d.attempt e ds (ground (arith, later)) h, by_attempt-IsSorted e ds hs)
  ]

  order_by_attempt-IsSorted : (es : List (Execution F)) → IsSorted (order_by_attempt es)
  order_by_attempt-IsSorted [] = tt
  order_by_attempt-IsSorted (e ∷ es) =
      by_attempt-IsSorted e (order_by_attempt es) (order_by_attempt-IsSorted es)

  order_by_attempt-count :
      (p : Execution F → Bool) (es : List (Execution F))
      → count_if p (order_by_attempt es) ≡ count_if p es
  order_by_attempt-count p [] = refl
  order_by_attempt-count p (e ∷ es) =
      omega (arith, by_attempt-count p e (order_by_attempt es), order_by_attempt-count p es)

  select-count :
      (p q : Execution F → Bool) (es : List (Execution F))
      → count_if p (select q es) ≡ count_if (λ e. p e && q e) es
  select-count p q [] = refl
  select-count p q (e ∷ es) = ground (arith, select-count p q es)

  -- The rows that `get_executions_for_signal` returns are sorted by attempt, and they are the rows of
  -- the signal: each test holds of as many of them as it holds of rows of the signal in the table.
  pub get_executions_for_signal-IsSorted :
      (i : String) (db : Database F)
      → IsSorted (get_executions_for_signal i db)
        × ((p : Execution F → Bool)
            → count_if p (get_executions_for_signal i db)
              ≡ count_if (λ e. p e && str_eq e.signal_id i) db.executions)
  unfolding get_executions_for_signal
  get_executions_for_signal-IsSorted i db = (
    order_by_attempt-IsSorted (select (λ e. str_eq e.signal_id i) db.executions),
    λ p.
        order_by_attempt-count p (select (λ e. str_eq e.signal_id i) db.executions)
        ∙ select-count p (λ e. str_eq e.signal_id i) db.executions,
  )
