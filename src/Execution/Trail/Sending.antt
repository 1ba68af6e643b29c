-- ===== src/Execution/Trail/Sending.antt =====
-- `order_send`, and the end of every run.
use mathlib.Core.List.{append_assoc}
use mt5_execution_bridge.Prelude.{
  String, ◌≡◌, refl, true, not, ◌||◌, Option, none, some, List, [], ◌∷◌, ◌++◌, ◌⊎◌, inl, inr, arith,
  ap, ◌∙◌, Bool-cases,
}
use mt5_execution_bridge.Float.{Float}
use mt5_execution_bridge.Models.{ExecutionStatus, dry_run_approved}
use mt5_execution_bridge.Storage.{Execution}
use mt5_execution_bridge.Storage.Executions.{assign, assign_all}
use mt5_execution_bridge.Config.{live_execution_allowed}
use mt5_execution_bridge.Outside.{Answer, answer, failure, Request, SendResult, Sdk, Host}
use mt5_execution_bridge.Exec.{
  Event, checked, sent, Bridge, Outcome, ok, returned, raised, answered, continue, ◌>>=◌,
}
use mt5_execution_bridge.Execution.Checks.{Market}
use mt5_execution_bridge.Execution.Orders.{
  check_order, filing, file_result, conclude_send, send_order, place_order,
}
use mt5_execution_bridge.Execution.Quiet.{IsFinal, Watch, IsKept, IsFiled, After, Quiet, Quiet-bind}
use mt5_execution_bridge.Execution.Quiet.Steps.{Quiet-record_fields, Quiet-finish, Quiet-reject}
use mt5_execution_bridge.Execution.Trail.{IsBuilt}
use mt5_execution_bridge.Execution.Trail.Orders.{order_send_lem}
use mt5_execution_bridge.Execution.Trail.Checking.{HasChecked, Checked, check_order-Checked}
use mt5_execution_bridge.Execution.Trail.{TrailOf, Ended, Traces}

filing-IsFinal : {F : Type 0} (r : SendResult F) → IsFinal (filing r).result
unfolding filing
filing-IsFinal r = ground arith

-- The extra fields of a filing leave the status that `finish` writes.
status-filing :
    {F : Type 0} (r : SendResult F) (e : Execution F)
    → (assign_all (filing r).fields e).status ≡ e.status
unfolding filing assign
status-filing r e = ground arith

module _ {F T : Type 0} ⦃sdk : Sdk F T⦄ ⦃host : Host T⦄ {w : Watch F} where
  -- Every answer of `order_send` ends the run.
  Quiet-file_result : (o : Option (SendResult F)) → Quiet {T = T} w (file_result w.job o) (λ _. ⊥)
  unfolding file_result
  Quiet-file_result none = Quiet-reject _ _ (refl, refl)
  Quiet-file_result (some r) =
      Quiet-finish (filing r).result _ (filing r).fields (filing-IsFinal r) (status-filing r)

  Quiet-conclude_send :
      (o : Option (SendResult F)) → Quiet {T = T} w (conclude_send w.job o) (λ _. ⊥)
  unfolding conclude_send
  Quiet-conclude_send o = Quiet-bind (Quiet-record_fields _) λ _ _. Quiet-file_result o

abbrev Sendable : {F : Type 0} → Watch F → Request F → List (Event F) → List (Event F) → Type 0
Sendable w request j j' =
    (j' ≡ j) ⊎ ((live_execution_allowed w.job.settings ≡ true) × (j' ≡ j ++ sent request ∷ []))

-- What holds when a run is over that began with the journal `j` and may send `request`.
module _ {F T : Type 0} (w : Watch F) (request : Request F) where
  abbrev Placed : List (Event F) → Outcome ExecutionStatus × Bridge F T → Type 0
  Placed j (ok st, s) = ⊥
  Placed j (returned st, s) = IsFiled w st s.db × Sendable w request j s.journal
  Placed j (raised e, s) = IsKept w s.db × Sendable w request j s.journal

  -- A quiet end, after which the journal is what one of the two cases says.
  After-Placed :
      (j j' : List (Event F)) (r : Outcome ExecutionStatus × Bridge F T)
      → Sendable w request j j'
      → After w j' (λ _. ⊥) r
      → Placed j r
  After-Placed j j' (ok st, s) h a = absurd a.0
  After-Placed j j' (returned st, s) h (e, filed) = (filed, rw e h)
  After-Placed j j' (raised x, s) h (e, k) = (k, rw e h)

module _ {F T : Type 0} ⦃sdk : Sdk F T⦄ ⦃host : Host T⦄ (w : Watch F) (request : Request F) where
  send_order-Placed :
      (s : Bridge F T)
      → IsKept w s.db
      → live_execution_allowed w.job.settings ≡ true
      → Placed w request s.journal (send_order w.job request s)
  unfolding send_order ◌>>=◌
  send_order-Placed s k live = elim (order_send_lem request s) [
    | inl e ↦ rw e (
        After-Placed w request s.journal s.journal _ (inl refl) ((Quiet-conclude_send none).at s k))
    | inr (a, t, e) ↦
        rw e (go a (record s { outside = t; journal = s.journal ++ sent request ∷ [] }) refl k)
  ]
    where
      go :
          (a : Answer (Option (SendResult F))) (s' : Bridge F T)
          → s'.journal ≡ s.journal ++ sent request ∷ []
          → IsKept w s'.db
          → Placed w request s.journal (continue (answered a) (conclude_send w.job) s')
      go (answer o) s' e k' =
          After-Placed w request s.journal s'.journal _ (inr (live, e))
            ((Quiet-conclude_send o).at s' k')
      go (failure x) s' e k' = (k', inr (live, e))

  -- A request is sent only where live execution is allowed.
  place_order-Placed :
      (s : Bridge F T) → IsKept w s.db → Placed w request s.journal (place_order w.job request s)
  unfolding place_order
  place_order-Placed s k =
      elim (Bool-cases (w.job.settings.dry_run || not (live_execution_allowed w.job.settings))) [
        | inl dry ↦ rw dry (
            After-Placed w request s.journal s.journal _ (inl refl)
              ((Quiet-reject dry_run_approved _ (refl, refl)).at s k))
        | inr live ↦ rw live (send_order-Placed s k (ground arith))
      ]

module _ {F : Type 0} (w : Watch F) (R : Request F → Type 0) where
  Checked-Trail : {j j' : List (Event F)} → HasChecked R j j' → TrailOf w R j j'
  Checked-Trail (inl e) = inl e
  Checked-Trail (inr (r, good, e)) = inr (r, good, inl e)

  Sendable-Trail :
      (r : Request F) (j j' j'' : List (Event F))
      → R r
      → j' ≡ j ++ checked r ∷ []
      → Sendable w r j' j''
      → TrailOf w R j j''
  Sendable-Trail r j j' j'' good e (inl same) = inr (r, good, inl (same ∙ e))
  Sendable-Trail r j j' j'' good e (inr (live, grown)) = inr (
    r,
    good,
    inr (
      live,
      grown
          ∙ (ap (λ (l : List (Event F)). l ++ sent r ∷ []) e
              ∙ append_assoc j (checked r ∷ []) (sent r ∷ [])),
    ),
  )

module _ {F T : Type 0} (w : Watch F) (R : Request F → Type 0) where
  Placed-Ended :
      (r : Request F) (j j' : List (Event F)) (e : Outcome ExecutionStatus × Bridge F T)
      → R r
      → j' ≡ j ++ checked r ∷ []
      → Placed w r j' e
      → Ended w R j e
  Placed-Ended r j j' (ok st, s) good e h = h
  Placed-Ended r j j' (returned st, s) good e (filed, h) =
      (filed, Sendable-Trail w R r j j' s.journal good e h)
  Placed-Ended r j j' (raised x, s) good e (k, h) =
      (k, Sendable-Trail w R r j j' s.journal good e h)

-- A run from `order_check` on: nothing, the checked request, or the checked request and its send.
module _ {F T : Type 0} ⦃float : Float F⦄ ⦃sdk : Sdk F T⦄ ⦃host : Host T⦄ (w : Watch F)
    (R : Request F → Type 0) where
  pub Traces-order :
      (symbol : String) (market : Market F) (volume : F)
      → w.hash ≡ host.sha256_hex
      → ((r : Request F) → IsBuilt w symbol market r → R r)
      → Traces {T = T} w R (check_order w.job symbol market volume >>= place_order w.job)
  unfolding ◌>>=◌
  Traces-order symbol market volume hash good = record {
    at = λ s k. go s.journal _ (check_order-Checked w R symbol market volume hash good s k);
  }
    where
      go :
          (j : List (Event F)) (r : Outcome (Request F) × Bridge F T)
          → Checked w R j r
          → Ended w R j (continue r.0 (place_order w.job) r.1)
      go j (ok request, s) (fit, e, k) =
          Placed-Ended w R request j s.journal _ fit e (place_order-Placed w request s k)
      go j (returned st, s) (h, filed) = (filed, Checked-Trail w R h)
      go j (raised x, s) (h, k) = (k, Checked-Trail w R h)
