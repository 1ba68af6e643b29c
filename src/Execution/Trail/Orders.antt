-- ===== src/Execution/Trail/Orders.antt =====
-- The steps of `process_signal` that hand a request to the package.
use mt5_execution_bridge.Prelude.{
  String, ◌≡◌, refl, Option, none, [], ◌∷◌, ◌++◌, ◌⊎◌, inl, inr, arith, Bool-cases,
}
use mt5_execution_bridge.Float.{Float}
use mt5_execution_bridge.Services.Volume.{VolumeResult, sized, refused, below_minimum}
use mt5_execution_bridge.Outside.{Answer, Request, CheckResult, SendResult, Sdk, Host}
use mt5_execution_bridge.Exec.{checked, sent, Bridge, ok, pure, gets, ask, note, answered, ◌>>=◌}
use mt5_execution_bridge.Gateway.{order_check, order_send}
use mt5_execution_bridge.Execution.Checks.{Account, Market}
use mt5_execution_bridge.Execution.Orders.{
  resolve_filling_mode, build_order_request, sized_or_reject, size_order,
}
use mt5_execution_bridge.Execution.Quiet.{Watch, Quiet, Quiet-pure, Quiet-gets, Quiet-bind}
use mt5_execution_bridge.Execution.Quiet.Steps.{Quiet-record_fields, Quiet-reject}
use mt5_execution_bridge.Execution.Idle.Calls.{Idle-calculate_risk_based_volume}
use mt5_execution_bridge.Execution.Idle.{Quiet-idle}
use mt5_execution_bridge.Execution.Trail.{IsBuilt}

module _ {F T : Type 0} ⦃sdk : Sdk F T⦄ (r : Request F) (s : Bridge F T) where
  -- The package is handed the request exactly where it is there.
  pub order_check_lem :
      (order_check r s ≡ (ok none, s))
      ⊎ ((a : Answer (Option CheckResult)) × (t : T) × (order_check r s
            ≡ (answered a, record s { outside = t; journal = s.journal ++ checked r ∷ [] })))
  unfolding order_check gets note ask pure ◌>>=◌
  order_check_lem = elim (Bool-cases s.gateway.available) [
    | inl up ↦ inr ((sdk.order_check r s.outside).0, (sdk.order_check r s.outside).1, ground arith)
    | inr down ↦ inl (ground arith)
  ]

  pub order_send_lem :
      (order_send r s ≡ (ok none, s))
      ⊎ ((a : Answer (Option (SendResult F))) × (t : T) × (order_send r s
            ≡ (answered a, record s { outside = t; journal = s.journal ++ sent r ∷ [] })))
  unfolding order_send gets note ask pure ◌>>=◌
  order_send_lem = elim (Bool-cases s.gateway.available) [
    | inl up ↦ inr ((sdk.order_send r s.outside).0, (sdk.order_send r s.outside).1, ground arith)
    | inr down ↦ inl (ground arith)
  ]

module _ {F T : Type 0} ⦃float : Float F⦄ ⦃sdk : Sdk F T⦄ ⦃host : Host T⦄ {w : Watch F} where
  Quiet-sized_or_reject :
      (r : VolumeResult F) → Quiet {T = T} w (sized_or_reject w.job r) (λ _. Unit {0})
  unfolding sized_or_reject
  Quiet-sized_or_reject (sized v) = Quiet-pure v tt
  Quiet-sized_or_reject (refused below_minimum) = Quiet-reject _ _ (refl, refl)
  Quiet-sized_or_reject (refused _) = Quiet-reject _ _ (refl, refl)

  pub Quiet-size_order :
      (symbol : String) (account : Account F) (market : Market F)
      → Quiet {T = T} w (size_order w.job symbol account market) (λ _. Unit {0})
  unfolding size_order
  Quiet-size_order symbol account market =
      Quiet-bind
        (Quiet-idle
          (Idle-calculate_risk_based_volume symbol _ market.price _ account.equity _ _ _ _))
        λ result _.
          Quiet-bind (Quiet-sized_or_reject result)
            λ v _. Quiet-bind (Quiet-record_fields _) λ _ _. Quiet-pure v tt

  Quiet-resolve_filling_mode :
      (market : Market F) → Quiet {T = T} w (resolve_filling_mode market.info) (λ _. Unit {0})
  unfolding resolve_filling_mode
  Quiet-resolve_filling_mode market = Quiet-bind (Quiet-gets _) λ _ _. Quiet-pure _ tt

  pub Quiet-build_order_request :
      (symbol : String) (market : Market F) (volume : F)
      → w.hash ≡ host.sha256_hex
      → Quiet {T = T} w (build_order_request w.job symbol market volume) (IsBuilt w symbol market)
  unfolding build_order_request
  Quiet-build_order_request symbol market volume hash = Quiet-bind (Quiet-gets _) λ _ _.
      Quiet-bind (Quiet-resolve_filling_mode market) λ _ _. Quiet-pure _ (record {
        named = refl;
        priced = refl;
        comment = rw hash;
        magic = refl;
        side = refl;
        stop_loss = refl;
        take_profit = refl;
      })
