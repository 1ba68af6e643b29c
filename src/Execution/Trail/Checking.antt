-- ===== src/Execution/Trail/Checking.antt =====
-- `order_check`: the run goes on only with the request that was checked.
use mathlib.Core.Path.{subst}
use mt5_execution_bridge.Prelude.{
  String, ◌≡◌, refl, false, not, Option, none, some, List, [], ◌∷◌, ◌++◌, ◌⊎◌, inl, inr, is_none,
}
use mt5_execution_bridge.Float.{Float}
use mt5_execution_bridge.Models.{rejected_order_check, retcode_and_comment}
use mt5_execution_bridge.Outside.{Answer, answer, failure, Request, CheckResult, Sdk, Host}
use mt5_execution_bridge.Exec.{
  Event, checked, Bridge, Outcome, ok, returned, raised, pure, answered, continue, ◌>>=◌,
}
use mt5_execution_bridge.Gateway.{order_check}
use mt5_execution_bridge.Execution.Common.{reject}
use mt5_execution_bridge.Execution.Checks.{Market}
use mt5_execution_bridge.Execution.Orders.{
  is_check_success, check_comment, check_order, conclude_check,
}
use mt5_execution_bridge.Execution.Quiet.{
  Watch, IsKept, IsFiled, After, Quiet, Quiet-pure, Quiet-bind, Quiet-if,
}
use mt5_execution_bridge.Execution.Quiet.Steps.{Quiet-record_fields, Quiet-reject}
use mt5_execution_bridge.Execution.Trail.{IsBuilt}
use mt5_execution_bridge.Execution.Trail.Orders.{order_check_lem, Quiet-build_order_request}

abbrev pub HasChecked :
    {F : Type 0} → (Request F → Type 0) → List (Event F) → List (Event F) → Type 0
HasChecked {F} R j j' = (j' ≡ j) ⊎ ((r : Request F) × R r × (j' ≡ j ++ checked r ∷ []))

-- What holds after `order_check`, `j` being the journal before.
module _ {F T : Type 0} (w : Watch F) (R : Request F → Type 0) where
  abbrev pub Checked : List (Event F) → Outcome (Request F) × Bridge F T → Type 0
  Checked j (ok r, s) = R r × (s.journal ≡ j ++ checked r ∷ []) × IsKept w s.db
  Checked j (returned st, s) = HasChecked R j s.journal × IsFiled w st s.db
  Checked j (raised e, s) = HasChecked R j s.journal × IsKept w s.db

module _ {F T : Type 0} ⦃float : Float F⦄ ⦃sdk : Sdk F T⦄ ⦃host : Host T⦄ {w : Watch F} where
  -- The run goes on only with the given request and a result.
  Quiet-conclude_check :
      (request : Request F) (result : Option CheckResult)
      → Quiet {T = T} w
          (conclude_check w.job request result)
          (λ r. (r ≡ request) × (is_none result ≡ false))
  unfolding conclude_check
  Quiet-conclude_check request none =
      Quiet-bind (Quiet-record_fields _) λ _ _. Quiet-reject _ _ (refl, refl)
  Quiet-conclude_check request (some c) = Quiet-bind (Quiet-record_fields _) λ _ _.
      Quiet-if (not (is_check_success c.retcode))
        (reject w.job rejected_order_check (retcode_and_comment c.retcode (check_comment (some c))))
        (pure request) (λ _. Quiet-reject _ _ (refl, refl)) (λ _. Quiet-pure request (refl, refl))

module _ {F T : Type 0} (w : Watch F) (R : Request F → Type 0) (request : Request F) where
  -- Where no request was noted the check has no result, and the run ends.
  unchecked :
      (j : List (Event F)) (r : Outcome (Request F) × Bridge F T)
      → After w j (λ q. (q ≡ request) × (is_none {A = CheckResult} none ≡ false)) r
      → Checked w R j r
  unchecked j (ok q, s) (h, _, _) = cc (h.1)
  unchecked j (returned st, s) (e, filed) = (inl e, filed)
  unchecked j (raised x, s) (e, k) = (inl e, k)

  noted :
      {A : Type 0} (o : Option A) (j : List (Event F)) (r : Outcome (Request F) × Bridge F T)
      → R request
      → After w (j ++ checked request ∷ []) (λ q. (q ≡ request) × (is_none o ≡ false)) r
      → Checked w R j r
  noted o j (ok q, s) good (h, e, k) = (rw h.0 good, rw h.0 e, k)
  noted o j (returned st, s) good (e, filed) = (inr (request, good, e), filed)
  noted o j (raised x, s) good (e, k) = (inr (request, good, e), k)

module _ {F T : Type 0} ⦃float : Float F⦄ ⦃sdk : Sdk F T⦄ ⦃host : Host T⦄ (w : Watch F)
    (R : Request F → Type 0) where
  order_check-Checked :
      (request : Request F) (s : Bridge F T)
      → IsKept w s.db
      → R request
      → Checked w R s.journal ((order_check request >>= conclude_check w.job request) s)
  unfolding ◌>>=◌
  order_check-Checked request s k good = elim (order_check_lem request s) [
    | inl e ↦ rw e (unchecked w R request s.journal _ ((Quiet-conclude_check request none).at s k))
    | inr (a, t, e) ↦
        rw e (go a (record s { outside = t; journal = s.journal ++ checked request ∷ [] }) refl k)
  ]
    where
      go :
          (a : Answer (Option CheckResult)) (s' : Bridge F T)
          → s'.journal ≡ s.journal ++ checked request ∷ []
          → IsKept w s'.db
          → Checked w R s.journal (continue (answered a) (conclude_check w.job request) s')
      go (answer o) s' e k' = noted w R request o s.journal _ good (
          subst
            (λ j.
              After w j (λ q. (q ≡ request) × (is_none o ≡ false))
                (conclude_check w.job request o s'))
            e ((Quiet-conclude_check request o).at s' k'))
      go (failure x) s' e k' = (inr (request, good, e), k')

  pub check_order-Checked :
      (symbol : String) (market : Market F) (volume : F)
      → w.hash ≡ host.sha256_hex
      → ((r : Request F) → IsBuilt w symbol market r → R r)
      → (s : Bridge F T) → IsKept w s.db
      → Checked w R s.journal (check_order w.job symbol market volume s)
  unfolding check_order ◌>>=◌
  check_order-Checked symbol market volume hash good s k =
      go s.journal _ ((Quiet-build_order_request symbol market volume hash).at s k)
    where
      go :
          (j : List (Event F)) (r : Outcome (Request F) × Bridge F T)
          → After w j (IsBuilt w symbol market) r
          → Checked w R j
              (continue r.0 (λ request. order_check request >>= conclude_check w.job request) r.1)
      go j (ok request, s') (built, e, k') =
          rw (← e) (order_check-Checked request s' k' (good request built))
      go j (returned st, s') (e, filed) = (inl e, filed)
      go j (raised x, s') (e, k') = (inl e, k')
