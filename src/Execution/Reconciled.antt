-- ===== src/Execution/Reconciled.antt =====
-- What the reconciliation after a restart leaves behind.
use mt5_execution_bridge.Prelude.{
  ℕ, ◌-◌, String, ◌≡◌, refl, ◌∙◌, ◌⊎◌, inl, inr, Bool, true, false, not, Option, none, some, List,
  is_none, find, if◌then◌else◌, Bool-cases,
}
use mt5_execution_bridge.Models.{
  ExecutionStatus, review_required, recovered_executed, Message, text,
}
use mt5_execution_bridge.Storage.{Signal}
use mt5_execution_bridge.Storage.Signals.{update_signal_status}
use mt5_execution_bridge.Storage.Rows.{HasSignal, HasStatus, update_signal_status-HasStatus}
use mt5_execution_bridge.Config.{Settings}
use mt5_execution_bridge.Outside.{Answer, answer, failure, Deal, Sdk, Host}
use mt5_execution_bridge.Exec.{
  Bridge, Outcome, ok, returned, raised, answered, utc_now, continue, pure, ask, ◌>>=◌,
}
use mt5_execution_bridge.Gateway.{call_sdk, list_of, history_deals_get}
use mt5_execution_bridge.Execution.Common.{meb_comment}
use mt5_execution_bridge.Execution.Recovery.{
  reconciliation_lookback, has_comment, find_deal_by_comment, settle, reconcile_stuck_signal,
}
use mt5_execution_bridge.Execution.Idle.{Stays, Idle, Idle-pure, Idle-bind, Idle-utc_now}
use mt5_execution_bridge.Execution.Idle.Calls.{Idle-ensure_connected, Idle-history_deals_get}
use mt5_execution_bridge.Execution.Transactions.{transaction_lem}

module _ {F T : Type 0} (sdk : Sdk F T) where
  -- The terminal has reported a deal with the comment `c`.
  abbrev pub Reported : String → Type 0
  Reported c =
      (since : ℕ) × (until : ℕ) × (t : T) × (deals : List Deal) × ((sdk.history_deals_get since
          until t).0
        ≡ answer (some deals))
      × (is_none (find (has_comment c) deals) ≡ false)

  -- A deal that the search returns was reported.
  abbrev Finds : String → Outcome (Option Deal) × Bridge F T → Type 0
  Finds c (ok o, s) = (is_none o ≡ true) ⊎ Reported c
  Finds c (returned st, s) = Unit
  Finds c (raised e, s) = Unit

module _ {F T : Type 0} ⦃sdk : Sdk F T⦄ ⦃host : Host T⦄ where
  Idle-find_deal_by_comment : (c : String) → Idle {F = F} {T = T} (find_deal_by_comment c)
  unfolding find_deal_by_comment
  Idle-find_deal_by_comment c = Idle-bind Idle-utc_now λ now.
      Idle-bind (Idle-history_deals_get (now - reconciliation_lookback) now) λ deals. Idle-pure _

  find_deal_by_comment-Finds :
      (c : String) (s : Bridge F T) → Finds sdk c (find_deal_by_comment c s)
  unfolding find_deal_by_comment history_deals_get call_sdk utc_now ask pure ◌>>=◌
  find_deal_by_comment-Finds c s = timed (host.utc_now s.outside)
    where
      dealt :
          (since now : ℕ) (t : T) (s : Bridge F T) (r : Answer (Option (List Deal)) × T)
          → (sdk.history_deals_get since now t).0 ≡ r.0
          → Finds sdk c (
              let (o, s') =
                continue
                  (answered r.0)
                  (λ found. pure (list_of found))
                  (record s { outside = r.1 }) in
              continue o (λ deals. pure (find (has_comment c) deals)) s')
      dealt since now t s (answer none, u) e = inl refl
      dealt since now t s (answer (some deals), u) e =
          elim (Bool-cases (is_none (find (has_comment c) deals))) [
            | inl missing ↦ inl missing
            | inr found ↦ inr (since, now, t, deals, e, found)
          ]
      dealt since now t s (failure x, u) e = tt

      timed :
          (r : Answer ℕ × T)
          → Finds sdk c (
              continue
                (answered r.0)
                (λ now. history_deals_get (now - reconciliation_lookback) now >>= λ deals.
                  pure (find (has_comment c) deals))
                (record s { outside = r.1 }))
      timed (answer now, t) = elim (Bool-cases s.gateway.available) [
        | inl up ↦ rw up (
            dealt (now - reconciliation_lookback) now t
              (record s {
                gateway = record { available = true; is_connected = s.gateway.is_connected };
              })
              (sdk.history_deals_get (now - reconciliation_lookback) now t) refl)
        | inr down ↦ rw down (inl refl)
      ]
      timed (failure x, t) = tt

module _ {F T : Type 0} ⦃sdk : Sdk F T⦄ ⦃host : Host T⦄ (row : Signal F) (s : Bridge F T) where
  -- What holds when the reconciliation of `row` is over that began in the state `s`.
  abbrev pub Reconciled : Outcome ExecutionStatus × Bridge F T → Type 0
  Reconciled (ok st, s') =
      ((st ≡ review_required)
        ⊎ ((st ≡ recovered_executed) × Reported sdk (meb_comment host.sha256_hex row.signal_id)))
      × HasStatus row.signal_id st s'.db
      × (s'.db.executions ≡ s.db.executions)
      × (s'.journal ≡ s.journal)
  Reconciled (returned st, s') = ⊥
  Reconciled (raised e, s') = (s'.db ≡ s.db) × (s'.journal ≡ s.journal)

  settle-Reconciled :
      (st : ExecutionStatus) (reason : Option (Message F)) (s' : Bridge F T)
      → HasSignal row.signal_id s.db
      → ((st ≡ review_required)
          ⊎ ((st ≡ recovered_executed) × Reported sdk (meb_comment host.sha256_hex row.signal_id)))
      → s'.db ≡ s.db
      → s'.journal ≡ s.journal
      → Reconciled (settle row st reason s')
  unfolding settle update_signal_status pure ◌>>=◌
  settle-Reconciled st reason s' here why same same' =
      elim (transaction_lem (update_signal_status row.signal_id st reason none) s') [
        | inl (e, t, raises) ↦ rw raises (same, same')
        | inr (now, t, done) ↦ rw done (
          why,
          update_signal_status-HasStatus row.signal_id st reason none now s'.db (rw same here),
          rw (← same) refl,
          same',
        )
      ]

module _ {F T : Type 0} ⦃sdk : Sdk F T⦄ ⦃host : Host T⦄ where
  -- For a signal that is in the table the reconciliation hands no order to the terminal and changes
  -- no row of executions. Where it returns, the signal's row has the returned status, which is
  -- REVIEW_REQUIRED, or else RECOVERED_EXECUTED, and then the terminal has reported a deal whose
  -- comment is the signal's. Where a call fails the database is as before.
  pub reconcile_stuck_signal-Reconciled :
      (settings : Settings F) (row : Signal F) (s : Bridge F T)
      → HasSignal row.signal_id s.db
      → Reconciled row s (reconcile_stuck_signal settings row s)
  unfolding reconcile_stuck_signal ◌>>=◌
  reconcile_stuck_signal-Reconciled settings row s here =
      connected_then _ ((Idle-ensure_connected settings).at s)
    where
      tag : String
      tag = meb_comment host.sha256_hex row.signal_id

      searched :
          (s' : Bridge F T) (r : Outcome (Option Deal) × Bridge F T)
          → s'.db ≡ s.db
          → s'.journal ≡ s.journal
          → Stays s' r
          → Finds sdk tag r
          → Reconciled row s (
              continue r.0
                (λ found.
                  if not (is_none found)
                  then settle row recovered_executed none
                  else settle row review_required
                      (some (text "No matching MT5 history found for prior PROCESSING attempt")))
                r.1)
      searched s' (ok none, t) e e' (same, same') finds =
          settle-Reconciled row s review_required _ t here (inl refl) (same ∙ e) (same' ∙ e')
      searched s' (ok (some d), t) e e' (same, same') (inl missing) = cc
      searched s' (ok (some d), t) e e' (same, same') (inr reported) =
          settle-Reconciled row s recovered_executed none t here (inr (refl, reported)) (same ∙ e)
            (same' ∙ e')
      searched s' (returned st, t) e e' h finds = absurd h
      searched s' (raised x, t) e e' (same, same') finds = (same ∙ e, same' ∙ e')

      connected_then :
          (r : Outcome Bool × Bridge F T)
          → Stays s r
          → Reconciled row s (
              continue r.0
                (λ up.
                  if not up
                  then settle row review_required
                      (some (text "MT5 unavailable during restart reconciliation"))
                  else find_deal_by_comment tag >>= λ found.
                      if not (is_none found)
                      then settle row recovered_executed none
                      else settle row review_required (
                          some (text "No matching MT5 history found for prior PROCESSING attempt")))
                r.1)
      connected_then (ok true, s') (e, e') =
          searched s' _ e e' ((Idle-find_deal_by_comment tag).at s')
            (find_deal_by_comment-Finds tag s')
      connected_then (ok false, s') (e, e') =
          settle-Reconciled row s review_required _ s' here (inl refl) e e'
      connected_then (returned st, s') h = absurd h
      connected_then (raised x, s') h = h
