-- ===== src/Worker/Steady.antt =====
-- The recovery, the journal and the count of the signals that are taken.
use native.Mathlib.Nat.{le_trans}
use mt5_execution_bridge.Prelude.{
  ℕ, ◌≤◌, String, ◌≡◌, refl, ◌∙◌, Bool, true, false, not, Option, none, List, [], ◌∷◌, arith,
  is_none, if◌then◌else◌,
}
use mt5_execution_bridge.Models.{
  ExecutionStatus, Message, review_required, recovered_executed, is_pending,
}
use mt5_execution_bridge.Storage.{Signal, Database}
use mt5_execution_bridge.Storage.Signals.{
  has_signal_id, with_status, update_signal_status, find_stuck_processing,
}
use mt5_execution_bridge.Storage.Rows.{count_if-update_where, map-update_where}
use mt5_execution_bridge.Config.{Settings}
use mt5_execution_bridge.Outside.{Sdk, Host}
use mt5_execution_bridge.Exec.{
  Bridge, Outcome, ok, returned, raised, Exec, transaction, continue, ◌>>=◌,
}
use mt5_execution_bridge.Execution.Recovery.{find_deal_by_comment, settle, reconcile_stuck_signal}
use mt5_execution_bridge.Execution.Quiet.{is_taken, taken, ids}
use mt5_execution_bridge.Execution.Idle.{
  Idle, Idle-same, Idle-pure, Idle-ask, Idle-bind, Idle-utc_now, Idle-query,
}
use mt5_execution_bridge.Execution.Idle.Calls.{Idle-ensure_connected, Idle-history_deals_get}
use mt5_execution_bridge.Worker.{reconcile_all, recover_on_startup}

module _ {F : Type 0} (mark : String → Bool) where
  -- No taken signal is pending again, and no signal comes or goes.
  abbrev pub Holds : Database F → Database F → Type 0
  Holds db db' = (taken mark db ≤ taken mark db') × (ids db' ≡ ids db)

module _ {F T : Type 0} (mark : String → Bool) where
  pub record Steady {A : Type 0} (m : Exec F T A) : Type 0 where
    pub at : (s : Bridge F T) → ((m s).1.journal ≡ s.journal) × Holds mark s.db (m s).1.db

module _ {F T : Type 0} {mark : String → Bool} where
  module _ {A : Type 0} where
    Steady-Idle : {m : Exec F T A} → Idle m → Steady mark m
    Steady-Idle {m} idle = record {
      at = λ s.
          let (same, same') = Idle-same m s idle in (same', (rw same (omega arith), rw same refl));
    }

    Steady-if :
        (b : Bool) (m n : Exec F T A)
        → Steady mark m
        → Steady mark n
        → Steady mark (if b then m else n)
    Steady-if true m n hm hn = hm
    Steady-if false m n hm hn = hn

  Steady-bind :
      {A B : Type 0} {m : Exec F T A} {f : A → Exec F T B}
      → Steady mark m
      → ((a : A) → Steady mark (f a))
      → Steady mark (m >>= f)
  unfolding ◌>>=◌
  Steady-bind {A} {B} {m} {f} hm hf = record { at = λ s. go s (m s) (hm.at s) }
    where
      go :
          (s : Bridge F T) (r : Outcome A × Bridge F T)
          → (r.1.journal ≡ s.journal) × Holds mark s.db r.1.db
          → ((continue r.0 f r.1).1.journal ≡ s.journal) × Holds mark s.db (continue r.0 f r.1).1.db
      go s (ok a, s') (e, kept) =
          let h = (hf a).at s' in (h.0 ∙ e, (le_trans kept.0 h.1.0, h.1.1 ∙ kept.1))
      go s (returned st, s') h = h
      go s (raised x, s') h = h

module _ {F T : Type 0} ⦃host : Host T⦄ {mark : String → Bool} where
  pub Steady-transaction :
      {A : Type 0} (op : ℕ → Database F → A × Database F)
      → ((now : ℕ) (db : Database F) → Holds mark db (op now db).1)
      → Steady {T = T} mark (transaction op)
  unfolding transaction
  Steady-transaction op holds =
      Steady-bind (Steady-Idle (Idle-ask host.storage)) λ _.
        Steady-bind (Steady-Idle Idle-utc_now) λ now. record { at = λ s. (refl, holds now s.db) }

  -- A status that is not PENDING.
  Steady-settle :
      (row : Signal F) (st : ExecutionStatus) (reason : Option (Message F))
      → is_pending st ≡ false
      → Steady {T = T} mark (settle row st reason)
  unfolding settle update_signal_status
  Steady-settle row st reason final =
      Steady-bind
        (Steady-transaction (update_signal_status row.signal_id st reason none) λ now db. (
          count_if-update_where (is_taken mark) (has_signal_id row.signal_id)
              (with_status st reason none now) db.signals (λ r h. ground (arith, final)),
          map-update_where (λ r. r.signal_id) (has_signal_id row.signal_id)
              (with_status st reason none now) db.signals (λ r. refl),
        ))
        λ _. Steady-Idle (Idle-pure st)

module _ {F T : Type 0} ⦃sdk : Sdk F T⦄ ⦃host : Host T⦄ {mark : String → Bool} where
  Steady-reconcile_stuck_signal :
      (settings : Settings F) (row : Signal F)
      → Steady {T = T} mark (reconcile_stuck_signal settings row)
  unfolding reconcile_stuck_signal find_deal_by_comment
  Steady-reconcile_stuck_signal settings row =
      Steady-bind (Steady-Idle (Idle-ensure_connected settings)) λ up.
        Steady-if (not up) _ _ (Steady-settle row review_required _ refl) (
          Steady-bind
            (Steady-Idle (
              Idle-bind Idle-utc_now
                λ now. Idle-bind (Idle-history_deals_get _ now) λ deals. Idle-pure _))
            λ found.
              Steady-if (not (is_none found)) _ _ (Steady-settle row recovered_executed none refl)
                (Steady-settle row review_required _ refl))

  Steady-reconcile_all :
      (settings : Settings F) (rows : List (Signal F))
      → Steady {T = T} mark (reconcile_all settings rows)
  unfolding reconcile_all
  Steady-reconcile_all settings [] = Steady-Idle (Idle-pure tt)
  Steady-reconcile_all settings (row ∷ rows) =
      Steady-bind (Steady-reconcile_stuck_signal settings row)
        λ _. Steady-reconcile_all settings rows

  pub Steady-recover_on_startup :
      (settings : Settings F) → Steady {T = T} mark (recover_on_startup settings)
  unfolding recover_on_startup
  Steady-recover_on_startup settings =
      Steady-bind (Steady-Idle (Idle-query find_stuck_processing))
        λ rows. Steady-reconcile_all settings rows
