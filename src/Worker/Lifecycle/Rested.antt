-- ===== src/Worker/Lifecycle/Rested.antt =====
-- Where `recover_on_startup` completes.
use mt5_execution_bridge.Prelude.{
  String, str_eq, eq_iff, ◌≡◌, refl, sym, ap, ◌∙◌, inl, inr, Bool, true, false, Option, none, some,
  List, [], ◌∷◌, is_none, arith, find, Bool-cases,
}
use mt5_execution_bridge.Models.{ExecutionStatus, processing, is_processing}
use mt5_execution_bridge.Storage.{Signal, Database}
use mt5_execution_bridge.Storage.Signals.{
  has_signal_id, row_is_processing, get_signal, find_stuck_processing,
}
use mt5_execution_bridge.Storage.Rows.{status_of}
use mt5_execution_bridge.Config.{Settings}
use mt5_execution_bridge.Outside.{Sdk, Host}
use mt5_execution_bridge.Exec.{Bridge, Outcome, ok, returned, raised, continue, pure, ◌>>=◌}
use mt5_execution_bridge.Execution.Outcomes.{find_stuck_processing-finds}
use mt5_execution_bridge.Execution.Recovery.{reconcile_stuck_signal}
use mt5_execution_bridge.Execution.Reconciled.{Reconciled, reconcile_stuck_signal-Reconciled}
use mt5_execution_bridge.Execution.Transactions.{query_lem}
use mt5_execution_bridge.Worker.{reconcile_all, recover_on_startup}
use mt5_execution_bridge.Worker.Lifecycle.Queueing.{IsUnique}
use mt5_execution_bridge.Worker.Lifecycle.Recovering.{
  map-some, Resolved-AllMove, Resolves-reconcile_stuck_signal,
}
use mt5_execution_bridge.Worker.Lifecycle.Restarting.{
  Apart, AllProcessing, All-both, select-Apart, find_stuck_processing-AllProcessing,
}

-- Whether a status is PROCESSING.
abbrev is_stuck : Option ExecutionStatus → Bool
is_stuck none = false
is_stuck (some st) = is_processing st

is_stuck-processing : (o : Option ExecutionStatus) → is_stuck o ≡ true → o ≡ some processing
is_stuck-processing none h = cc
is_stuck-processing (some processing) h = refl
is_stuck-processing (some _) h = cc

module _ {F : Type 0} (i : String) where
  -- Where the signal `i` is PROCESSING, it is among the rows.
  Covered : Database F → List (Signal F) → Type 0
  Covered db rows = is_stuck (status_of i db) ≡ true → is_none (find (has_signal_id i) rows) ≡ false

  -- Where the action has ended by a value, the signal `i` is not PROCESSING.
  abbrev pub Rested : {T A : Type 0} → Outcome A × Bridge F T → Type 0
  Rested (ok _, s) = is_stuck (status_of i s.db) ≡ false
  Rested _ = Unit

module _ {F T : Type 0} ⦃sdk : Sdk F T⦄ ⦃host : Host T⦄ (i : String) where
  -- One row less to go.
  Reconciled-Covered :
      (row : Signal F) (rows : List (Signal F)) (s s' : Bridge F T) (st : ExecutionStatus)
      → Covered i s.db (row ∷ rows)
      → Reconciled row s (ok st, s')
      → (str_eq row.signal_id i ≡ false → status_of i s'.db ≡ status_of i s.db)
      → Covered i s'.db rows
  unfolding Covered
  Reconciled-Covered row rows s s' st covered (why, here, _, _) others stuck =
      elim (Bool-cases (str_eq row.signal_id i)) [
        | inl own ↦
            let id : row.signal_id ≡ i = (eq_iff row.signal_id i).0 own in
            let settled : is_stuck (status_of i s'.db) ≡ is_processing st =
              rw (← id) (ap is_stuck here) in
            elim why [
              | inl e ↦ let no : is_processing st ≡ false = ap is_processing e in cc
              | inr (e, _) ↦ let no : is_processing st ≡ false = ap is_processing e in cc
            ]
        | inr other ↦ ground (arith, other, covered (sym (ap is_stuck (others other)) ∙ stuck))
      ]

  reconcile_all-Rested :
      (settings : Settings F) (rows : List (Signal F)) (s : Bridge F T)
      → Apart rows
      → AllProcessing s.db rows
      → Covered i s.db rows
      → Rested i (reconcile_all settings rows s)
  unfolding reconcile_all pure Apart AllProcessing Covered get_signal ◌>>=◌
  reconcile_all-Rested settings [] s apart all covered =
      elim (Bool-cases (is_stuck (status_of i s.db))) [
        | inl stuck ↦ let found = covered stuck in cc
        | inr rests ↦ rests
      ]
  reconcile_all-Rested settings (row ∷ rows) s (off, apart) (before, all) covered =
      go (reconcile_stuck_signal settings row s)
        (Resolved-AllMove row.signal_id s.db _ before
          ((Resolves-reconcile_stuck_signal settings row).at s)).1
        (reconcile_stuck_signal-Reconciled settings row s
          (map-some _ (get_signal row.signal_id s.db) before))
        (λ s' still covers. reconcile_all-Rested settings rows s' apart still covers)
    where
      go :
          (r : Outcome ExecutionStatus × Bridge F T)
          → ((j : String) → str_eq row.signal_id j ≡ false → status_of j r.1.db ≡ status_of j s.db)
          → Reconciled row s r
          → ((s' : Bridge F T)
              → AllProcessing s'.db rows
              → Covered i s'.db rows
              → Rested i (reconcile_all settings rows s'))
          → Rested i (continue r.0 (λ _. reconcile_all settings rows) r.1)
      go (ok st, s') others reconciled rest =
          rest s' (All-both rows (λ q here status. others q.signal_id here ∙ status) off all)
            (Reconciled-Covered row rows s s' st covered reconciled (others i))
      go (returned st, s') others reconciled rest = tt
      go (raised e, s') others reconciled rest = tt

  -- Where no two signals have the same id, a recovery at the start of a process that ends without a
  -- failure leaves no signal PROCESSING.
  pub recover_on_startup-Rested :
      (settings : Settings F) (s : Bridge F T)
      → IsUnique s.db
      → Rested i (recover_on_startup settings s)
  unfolding recover_on_startup find_stuck_processing Covered ◌>>=◌
  recover_on_startup-Rested settings s unique = elim (query_lem find_stuck_processing s) [
    | inl (e, t, raises) ↦ rw raises tt
    | inr (t, found) ↦ rw found (
        reconcile_all-Rested settings (find_stuck_processing s.db) (record s { outside = t })
          (select-Apart row_is_processing s.db.signals unique)
          (find_stuck_processing-AllProcessing s.db unique)
          (λ stuck.
            find_stuck_processing-finds i s.db (is_stuck-processing (status_of i s.db) stuck)))
  ]
