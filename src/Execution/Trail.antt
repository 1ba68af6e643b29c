-- ===== src/Execution/Trail.antt =====
-- What a run of `process_signal` hands to the MetaTrader5 package.
pub mod Orders
pub mod Checking
pub mod Sending
pub mod Runs
use mt5_execution_bridge.Prelude.{
  ℕ, String, ◌≡◌, refl, Bool, true, Option, some, List, [], ◌∷◌, ◌++◌, ◌⊎◌, inl, inr,
}
use mt5_execution_bridge.Float.{Float}
use mt5_execution_bridge.Models.{ExecutionStatus}
use mt5_execution_bridge.Services.SymbolMapper.{SymbolMapper, resolve}
use mt5_execution_bridge.Services.Risk.{passed, check_stop_loss, check_risk_percent}
use mt5_execution_bridge.Services.Volume.{order_type}
use mt5_execution_bridge.Storage.{Signal}
use mt5_execution_bridge.Config.{Settings, live_execution_allowed}
use mt5_execution_bridge.Outside.{Request}
use mt5_execution_bridge.Exec.{
  Event, checked, sent, Bridge, Outcome, ok, returned, raised, Exec, continue, ◌>>=◌,
}
use mt5_execution_bridge.Execution.Common.{Attempt, meb_comment}
use mt5_execution_bridge.Execution.Checks.{Market}
use mt5_execution_bridge.Execution.Quiet.{Watch, IsKept, IsFiled, After, Quiet}
use mt5_execution_bridge.Execution.Admission.{IsEnabled}

-- A request as `_build_order_request` makes it for one symbol and market.
pub record IsBuilt {F : Type 0} (w : Watch F) (symbol : String) (market : Market F) (r : Request F)
    : Type 0 where
  pub named : r.symbol ≡ symbol
  pub priced : r.price ≡ market.price
  pub comment : r.comment ≡ meb_comment w.hash w.job.row.signal_id
  pub magic : r.magic ≡ w.job.settings.magic_number
  pub side : r.order_type ≡ order_type w.job.row.action
  pub stop_loss : r.sl ≡ w.job.row.stop_loss
  pub take_profit : r.tp ≡ w.job.row.take_profit

-- A request that the risk checks have let through for its signal.
pub record IsVetted {F : Type 0} ⦃float : Float F⦄ (mapper : SymbolMapper) (hash : String → String)
    (settings : Settings F) (row : Signal F) (r : Request F) : Type 0 where
  pub mapped : resolve row.symbol_raw mapper ≡ some r.symbol
  pub comment : r.comment ≡ meb_comment hash row.signal_id
  pub magic : r.magic ≡ settings.magic_number
  pub side : r.order_type ≡ order_type row.action
  pub stop_loss : r.sl ≡ row.stop_loss
  pub take_profit : r.tp ≡ row.take_profit
  pub enabled : IsEnabled settings row
  pub stop_checked : check_stop_loss row.action r.sl r.price settings.require_stop_loss ≡ passed
  pub risk_checked : check_risk_percent row.risk_percent settings.max_risk_percent ≡ passed

module _ {F : Type 0} (R : Request F → Type 0) (live : Bool) where
  -- The journal grows by nothing, by one checked request, or, live, by one request that is checked
  -- and then sent.
  abbrev pub Trail : List (Event F) → List (Event F) → Type 0
  Trail j j' =
      (j' ≡ j)
      ⊎ ((r : Request F) × R r
          × ((j' ≡ j ++ checked r ∷ []) ⊎ ((live ≡ true) × (j' ≡ j ++ checked r ∷ sent r ∷ []))))

abbrev pub TrailOf :
    {F : Type 0} → Watch F → (Request F → Type 0) → List (Event F) → List (Event F) → Type 0
TrailOf w R = Trail R (live_execution_allowed w.job.settings)

module _ {F T : Type 0} (w : Watch F) (R : Request F → Type 0) where
  -- What holds when a run that began with the journal `j` is over. It ends by an early return.
  abbrev pub Ended : List (Event F) → Outcome ExecutionStatus × Bridge F T → Type 0
  Ended j (ok st, s) = ⊥
  Ended j (returned st, s) = IsFiled w st s.db × TrailOf w R j s.journal
  Ended j (raised e, s) = IsKept w s.db × TrailOf w R j s.journal

  pub record Traces (m : Exec F T ExecutionStatus) : Type 0 where
    pub at : (s : Bridge F T) → IsKept w s.db → Ended s.journal (m s)

module _ {F T : Type 0} {w : Watch F} {R : Request F → Type 0} where
  pub Traces-bind :
      {A : Type 0} {Q : A → Type 0} {m : Exec F T A} {f : A → Exec F T ExecutionStatus}
      → Quiet w m Q
      → ((a : A) → Q a → Traces w R (f a))
      → Traces w R (m >>= f)
  unfolding ◌>>=◌
  Traces-bind {A} {Q} {m} {f} q rest = record { at = λ s k. go s.journal (m s) (q.at s k) }
    where
      go :
          (j : List (Event F)) (r : Outcome A × Bridge F T)
          → After w j Q r
          → Ended w R j (continue r.0 f r.1)
      go j (ok a, s) (h, e, k) = rw (← e) ((rest a h).at s k)
      go j (returned st, s) (e, filed) = (filed, inl e)
      go j (raised x, s) (e, k) = (k, inl e)
