-- ===== src/Worker/Lifecycle/Recovering.antt =====
-- `reconcile_stuck_signal`, as a move of its signal.
use mathlib.Core.Option
use mt5_execution_bridge.Prelude.{
  ℕ, String, str_eq, eq_iff, ◌≡◌, refl, ap, ◌⊎◌, inl, inr, Bool, true, false, not, Option, none,
  some, is_none, Bool-cases, if◌then◌else◌,
}
use mt5_execution_bridge.Models.{
  ExecutionStatus, processing, review_required, recovered_executed, Message,
}
use mt5_execution_bridge.Storage.{Signal, Database}
use mt5_execution_bridge.Storage.Signals.{get_signal, update_signal_status}
use mt5_execution_bridge.Storage.Rows.{
  status_of, HasStatus, update_signal_status-HasStatus, update_signal_status-other,
}
use mt5_execution_bridge.Config.{Settings}
use mt5_execution_bridge.Outside.{Sdk, Host}
use mt5_execution_bridge.Exec.{Bridge, Outcome, ok, returned, raised, Exec, continue, pure, ◌>>=◌}
use mt5_execution_bridge.Execution.Quiet.{IsFinal}
use mt5_execution_bridge.Execution.Recovery.{find_deal_by_comment, settle, reconcile_stuck_signal}
use mt5_execution_bridge.Execution.Idle.{Idle, Idle-same, Idle-pure, Idle-bind, Idle-utc_now}
use mt5_execution_bridge.Execution.Idle.Calls.{Idle-ensure_connected, Idle-history_deals_get}
use mt5_execution_bridge.Execution.Transactions.{transaction_lem}
use mt5_execution_bridge.Worker.Lifecycle.{stays, onward, settled, Moves-same, AllMove}

-- The database is as before, or the signal `i` has been given a final status.
abbrev pub Resolved : {F : Type 0} → String → Database F → Database F → Type 0
Resolved {F} i db db' =
    (db' ≡ db)
    ⊎ ((st : ExecutionStatus) × (reason : Option (Message F)) × (now : ℕ) × IsFinal st
        × (db' ≡ (update_signal_status i st reason none now db).1))

module _ {F T : Type 0} (i : String) where
  pub record Resolves {A : Type 0} (m : Exec F T A) : Type 0 where
    pub at : (s : Bridge F T) → Resolved i s.db (m s).1.db

module _ {F T A : Type 0} {i : String} where
  Resolves-if :
      (b : Bool) (m n : Exec F T A) → Resolves i m → Resolves i n → Resolves i (if b then m else n)
  Resolves-if true m n hm hn = hm
  Resolves-if false m n hm hn = hn

  Resolves-bind :
      {B : Type 0} {m : Exec F T B} {f : B → Exec F T A}
      → Idle m
      → ((b : B) → Resolves i (f b))
      → Resolves i (m >>= f)
  unfolding ◌>>=◌
  Resolves-bind {B} {m} {f} idle hf = record { at = λ s. go s (m s) (Idle-same m s idle).0 }
    where
      go :
          (s : Bridge F T) (r : Outcome B × Bridge F T)
          → r.1.db ≡ s.db
          → Resolved i s.db (continue r.0 f r.1).1.db
      go s (ok b, s') e = rw (← e) ((hf b).at s')
      go s (returned st, s') e = inl e
      go s (raised x, s') e = inl e

module _ {F T : Type 0} ⦃host : Host T⦄ where
  Resolves-settle :
      (row : Signal F) (st : ExecutionStatus) (reason : Option (Message F))
      → IsFinal st
      → Resolves {T = T} row.signal_id (settle row st reason)
  unfolding settle pure ◌>>=◌
  Resolves-settle row st reason final = record {
    at = λ s. elim (transaction_lem (update_signal_status row.signal_id st reason none) s) [
      | inl (e, t, raises) ↦ rw raises (inl refl)
      | inr (now, t, done) ↦ rw done (inr (st, reason, now, final, refl))
    ];
  }

module _ {F T : Type 0} ⦃sdk : Sdk F T⦄ ⦃host : Host T⦄ where
  pub Resolves-reconcile_stuck_signal :
      (settings : Settings F) (row : Signal F)
      → Resolves {T = T} row.signal_id (reconcile_stuck_signal settings row)
  unfolding reconcile_stuck_signal find_deal_by_comment
  Resolves-reconcile_stuck_signal settings row =
      Resolves-bind (Idle-ensure_connected settings) λ up.
        Resolves-if (not up) _ _ (Resolves-settle row review_required _ (refl, refl)) (
          Resolves-bind
            (Idle-bind Idle-utc_now
              λ now. Idle-bind (Idle-history_deals_get _ now) λ deals. Idle-pure _)
            λ found.
              Resolves-if (not (is_none found)) _ _
                (Resolves-settle row recovered_executed none (refl, refl))
                (Resolves-settle row review_required _ (refl, refl)))

pub map-some :
    {A B : Type 0} {b : B} (f : A → B) (o : Option A) → Option.map f o ≡ some b → is_none o ≡ false
map-some f none h = cc
map-some f (some a) h = refl

module _ {F : Type 0} where
  -- The row that was resolved moves to a final status, and the others stay.
  pub Resolved-AllMove :
      (j : String) (db db' : Database F)
      → HasStatus j processing db
      → Resolved j db db'
      → AllMove db db' × ((i : String) → str_eq j i ≡ false → status_of i db' ≡ status_of i db)
  unfolding get_signal
  Resolved-AllMove j db db' before (inl same) =
      (λ i. Moves-same (ap (status_of i) same), λ i _. ap (status_of i) same)
  Resolved-AllMove j db db' before (inr (st, reason, now, final, e)) =
      let others : (i : String) → str_eq j i ≡ false → status_of i db' ≡ status_of i db =
        λ i apart. rw e (update_signal_status-other j i st reason none now db apart) in
      (
        λ i. elim (Bool-cases (str_eq j i)) [
          | inl own ↦
              let here : HasStatus j st db' = rw e (
                update_signal_status-HasStatus j st reason none now db
                  (map-some _ (get_signal j db) before)) in
              rw (← (eq_iff j i).0 own) (rw (before, here) (onward stays (settled st final)))
          | inr other ↦ Moves-same (others i other)
        ],
        others,
      )
