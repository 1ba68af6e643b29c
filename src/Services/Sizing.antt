-- ===== src/Services/Sizing.antt =====
-- The volumes of app/services/volume_calculator.py and the broker's limits.
use mt5_execution_bridge.Prelude.{
  String, ◌≡◌, refl, ◌⊎◌, inl, inr, Bool, true, false, Option, none, some, Bool-cases,
  if◌then◌else◌,
}
use mt5_execution_bridge.Float.{Float, ℤ}
use mt5_execution_bridge.Models.{SignalAction}
use mt5_execution_bridge.Outside.{overflow_error, type_error, Sdk}
use mt5_execution_bridge.Exec.{
  Bridge, Exec, Outcome, ok, returned, raised, continue, pure, or_raise, ◌>>=◌,
}
use mt5_execution_bridge.Gateway.{order_calc_profit}
use mt5_execution_bridge.Services.Risk.{number}
use mt5_execution_bridge.Services.Volume.{
  VolumeResult, VolumeReason, invalid_price, sized, refused, volume_of, raw_volume, order_type,
  bound_volume, size_by_risk, size_by_loss, size_with_stop, calculate_risk_based_volume,
}

module _ {F : Type 0} ⦃float : Float F⦄ (volume_min volume_max volume_step : F) where
  open float use {lt, le}

  -- A volume that is neither under the minimum nor over the maximum, from whole steps of a positive
  -- step, or the maximum itself.
  pub record IsWithin (v : F) : Type 0 where
    pub least : lt v volume_min ≡ false
    pub most : lt volume_max v ≡ false
    pub stepped : (v ≡ volume_max) ⊎ ((steps : ℤ) × (v ≡ volume_of steps volume_step))
    pub step : le volume_step (number 0) ≡ false

  abbrev pub Sized : VolumeResult F → Type 0
  Sized (sized v) = IsWithin v
  Sized (refused _) = Unit

  abbrev pub SizedOutcome : {T : Type 0} → Outcome (VolumeResult F) × Bridge F T → Type 0
  SizedOutcome (ok r, s) = Sized r
  SizedOutcome _ = Unit

  module _ (irreflexive : (x : F) → lt x x ≡ false)
      (ordered : lt volume_max volume_min ≡ false) where
    bound_volume-Sized :
        (steps : ℤ)
        → le volume_step (number 0) ≡ false
        → Sized (bound_volume volume_min volume_max (volume_of steps volume_step))
    unfolding bound_volume
    bound_volume-Sized steps positive =
        elim (Bool-cases (lt (volume_of steps volume_step) volume_min)) [
          | inl under ↦ rw under tt
          | inr enough ↦ elim (Bool-cases (lt volume_max (volume_of steps volume_step))) [
            | inl over ↦
                rw (enough, over)
                  (record {
                    least = ordered;
                    most = irreflexive volume_max;
                    stepped = inl refl;
                    step = positive;
                  })
            | inr fits ↦
                rw (enough, fits)
                  (record {
                    least = enough;
                    most = fits;
                    stepped = inr (steps, refl);
                    step = positive;
                  })
          ]
        ]

    module _ {T : Type 0} ⦃sdk : Sdk F T⦄ where
      size_by_risk-Sized :
          (equity risk_percent risk_per_lot : F) (s : Bridge F T)
          → SizedOutcome
              (size_by_risk equity risk_percent risk_per_lot volume_min volume_max volume_step s)
      unfolding size_by_risk or_raise pure ◌>>=◌
      size_by_risk-Sized equity risk_percent risk_per_lot s =
          elim (Bool-cases (le risk_per_lot (number 0))) [
            | inl no_risk ↦ rw no_risk tt
            | inr risky ↦ elim (Bool-cases (le volume_step (number 0))) [
              | inl no_step ↦ rw (risky, no_step) tt
              | inr positive ↦
                  rw (risky, positive)
                    (floored positive (
                      float.floor
                        (float.div (raw_volume equity risk_percent risk_per_lot) volume_step)))
            ]
          ]
        where
          floored :
              le volume_step (number 0) ≡ false
              → (o : Option ℤ)
              → SizedOutcome (
                  let (r, s') = or_raise overflow_error o s in
                  continue r
                    (λ steps.
                      pure (bound_volume volume_min volume_max (volume_of steps volume_step)))
                    s')
          floored positive none = tt
          floored positive (some steps) = bound_volume-Sized steps positive

      size_by_loss-Sized :
          (equity risk_percent : F) (loss : Option F) (s : Bridge F T)
          → SizedOutcome (size_by_loss equity risk_percent volume_min volume_max volume_step loss s)
      unfolding pure
      size_by_loss-Sized equity risk_percent none s = tt
      size_by_loss-Sized equity risk_percent (some loss) s =
          size_by_risk-Sized equity risk_percent (float.abs loss) s

      SizedOutcome-bind :
          {A : Type 0} (m : Exec F T A) (f : A → Exec F T (VolumeResult F)) (s : Bridge F T)
          → ((a : A) (s' : Bridge F T) → SizedOutcome (f a s'))
          → SizedOutcome ((m >>= f) s)
      unfolding ◌>>=◌
      SizedOutcome-bind {A} m f s sizes = go (m s)
        where
          go : (r : Outcome A × Bridge F T) → SizedOutcome (continue r.0 f r.1)
          go (ok a, s') = sizes a s'
          go (returned st, s') = tt
          go (raised e, s') = tt

      SizedOutcome-if :
          (b : Bool) (why : VolumeReason) (m : Exec F T (VolumeResult F)) (s : Bridge F T)
          → SizedOutcome (m s)
          → SizedOutcome ((if b then pure (refused why) else m) s)
      unfolding pure
      SizedOutcome-if true why m s h = tt
      SizedOutcome-if false why m s h = h

      size_with_stop-Sized :
          (symbol : String) (action : SignalAction) (entry stop equity risk_percent : F)
          (s : Bridge F T)
          → SizedOutcome (
              size_with_stop symbol action entry stop equity risk_percent volume_min volume_max
                volume_step s)
      unfolding size_with_stop
      size_with_stop-Sized symbol action entry stop equity risk_percent s =
          SizedOutcome-if (le stop (number 0)) invalid_price _ s (
            SizedOutcome-bind (order_calc_profit (order_type action) symbol (number 1) entry stop)
              (size_by_loss equity risk_percent volume_min volume_max volume_step) s
              (λ loss s'. size_by_loss-Sized equity risk_percent loss s'))

      -- Where the comparison of floats is irreflexive and the broker's maximal volume is not under its
      -- minimal one: a volume that the calculator gives is neither under the minimum nor over the
      -- maximum, it is the maximum or a whole number of steps, and the step is positive, whatever the
      -- terminal answers to the question for the loss of one lot.
      pub calculate_risk_based_volume-Sized :
          (symbol : String) (action : SignalAction) (entry : F) (stop : Option F)
          (equity risk_percent : F) (s : Bridge F T)
          → SizedOutcome (
              calculate_risk_based_volume symbol action entry stop equity risk_percent volume_min
                volume_max volume_step s)
      unfolding calculate_risk_based_volume
      calculate_risk_based_volume-Sized symbol action entry stop equity risk_percent s =
          SizedOutcome-if (le entry (number 0)) invalid_price _ s (
            SizedOutcome-bind (or_raise type_error stop) _ s
              (λ stop s'. size_with_stop-Sized symbol action entry stop equity risk_percent s'))
