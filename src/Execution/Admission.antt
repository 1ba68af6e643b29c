-- ===== src/Execution/Admission.antt =====
-- The first check of `process_signal`: the clock that it reads, and what it lets through.
use mt5_execution_bridge.Prelude.{ℕ, ◌≡◌, refl, Bool, true, false, not, ◌&&◌, if◌then◌else◌}
use mt5_execution_bridge.Models.{rejected_risk, Message}
use mt5_execution_bridge.Storage.{Signal}
use mt5_execution_bridge.Services.Risk.{passed, check_freshness, is_buy, is_sell}
use mt5_execution_bridge.Config.{Settings}
use mt5_execution_bridge.Outside.{answer, Host}
use mt5_execution_bridge.Exec.{Bridge, Exec, ok, utc_now, pure}
use mt5_execution_bridge.Execution.Common.{Attempt, reject}
use mt5_execution_bridge.Execution.Checks.{admit}
use mt5_execution_bridge.Execution.Results.{
  Gives, bind-Gives, ask-Gives, require-Gives, finish-Gives,
}

-- The configuration accepts the signal's action.
abbrev pub IsEnabled : {F : Type 0} → Settings F → Signal F → Type 0
IsEnabled settings row =
    (is_buy row.action && not settings.allow_market_buy ≡ false)
    × (is_sell row.action && not settings.allow_market_sell ≡ false)

module _ {F T : Type 0} ⦃host : Host T⦄ where
  -- The signal is neither too old nor too far in the future at the time that the clock gives in this
  -- state.
  abbrev pub IsFresh : Settings F → Signal F → Bridge F T → Type 0
  IsFresh settings row s =
      (now : ℕ) × ((host.utc_now s.outside).0 ≡ answer now)
      × (check_freshness {F = F} row.signal_timestamp settings.max_signal_age_seconds now ≡ passed)

  unless-Gives :
      (job : Attempt F) (message : Message F) (b : Bool) (m : Exec F T (Unit {0}))
      {s s' : Bridge F T}
      → Gives (if b then reject job rejected_risk message else m) s tt s'
      → (b ≡ false) × Gives m s tt s'
  unless-Gives job message true m h = absurd (finish-Gives job rejected_risk _ h)
  unless-Gives job message false m h = (refl, h)

  pub admit-IsFresh :
      (job : Attempt F) (s s' : Bridge F T)
      → admit job s ≡ (ok tt, s')
      → IsFresh job.settings job.row s × IsEnabled job.settings job.row
  unfolding admit utc_now
  admit-IsFresh job s s' e =
      let reads = bind-Gives {s = s} (record { ends = e }) in
      let checks = bind-Gives reads.rest in
      let buys = unless-Gives job _ _ _ checks.rest in
      let sells = unless-Gives job _ _ (pure tt) buys.1 in
      (
        (reads.value, (ask-Gives host.utc_now reads.first).0, (require-Gives job _ checks.first).0),
        (buys.0, sells.0),
      )
