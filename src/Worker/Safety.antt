-- ===== src/Worker/Safety.antt =====
-- The requests that were sent, over the life of the bridge.
use native.Mathlib.Nat.{le_trans}
use mt5_execution_bridge.Prelude.{
  ◌≤◌, String, str_eq, ◌≡◌, inl, inr, Bool, List, [], eq_iff, ◌∷◌, arith, count_if, map, All,
  Bool-cases,
}
use mt5_execution_bridge.Float.{Float}
use mt5_execution_bridge.Storage.Rows.{count_if-map}
use mt5_execution_bridge.Storage.{Signal}
use mt5_execution_bridge.Storage.Signals.{has_signal_id}
use mt5_execution_bridge.Config.{Settings}
use mt5_execution_bridge.Outside.{Sdk, Host}
use mt5_execution_bridge.Exec.{Bridge}
use mt5_execution_bridge.Execution.Common.{meb_comment}
use mt5_execution_bridge.Execution.Quiet.{is_taken, tagged, ids}
use mt5_execution_bridge.Worker.{recover_on_startup, turn}
use mt5_execution_bridge.Worker.Amid.{turn_amid-arrived}
use mt5_execution_bridge.Worker.Steady.{Steady-recover_on_startup}
use mt5_execution_bridge.Worker.Turns.{sends, Advances, turn-Advances}
use mt5_execution_bridge.Worker.Submitting.{Safe, Advances-Safe, arrived-Safe, submit-Safe}
use mt5_execution_bridge.Worker.System.{
  new_gateway, Step, submits, takes_turn, takes_turn_amid, starts, drifts, Reachable, fresh, after,
}

-- No other id has the comment of `i`.
abbrev pub Alone : (String → String) → String → String → Type 0
Alone hash i j = meb_comment hash j ≡ meb_comment hash i → j ≡ i

module _ {F : Type 0} (hash : String → String) (i : String) where
  -- Where the comment determines the id, the signals taken under it have that id.
  taken-Alone :
      (rs : List (Signal F))
      → All (Alone hash i) (map (λ (r : Signal F). r.signal_id) rs)
      → count_if (is_taken (tagged hash (meb_comment hash i))) rs ≤ count_if (has_signal_id i) rs
  taken-Alone [] h = omega arith
  taken-Alone (r ∷ rs) (h, hs) =
      elim (Bool-cases (str_eq (meb_comment hash r.signal_id) (meb_comment hash i))) [
        | inl same ↦
            let id = (eq_iff r.signal_id i).1 (h ((eq_iff _ _).0 same)) in
            ground (arith, same, id, taken-Alone rs hs)
        | inr other ↦ ground (arith, other, taken-Alone rs hs)
      ]

module _ {F T : Type 0} ⦃float : Float F⦄ ⦃sdk : Sdk F T⦄ ⦃host : Host T⦄ where
  recover-Advances :
      (settings : Settings F) (available : Bool) (tag : String) (s : Bridge F T)
      → Advances host.sha256_hex tag s
          (recover_on_startup settings (record s { gateway = new_gateway available })).1
  recover-Advances settings available tag s =
      let (same, held) =
        (Steady-recover_on_startup {mark = tagged host.sha256_hex tag} settings).at
          (record s { gateway = new_gateway available }) in
      (λ safe. rw same (le_trans safe held.0), held.1)

  -- Every step of the bridge, also one that fails, keeps it safe.
  pub Step-Safe : {s s' : Bridge F T} → Step s s' → Safe host.sha256_hex s → Safe host.sha256_hex s'
  Step-Safe (submits signal s) safe = submit-Safe signal s safe
  Step-Safe (takes_turn settings mapper s) safe =
      Advances-Safe s _ (λ tag. turn-Advances settings mapper tag s) safe
  Step-Safe (takes_turn_amid settings mapper plan s) safe =
      let (new, _, _, e) = turn_amid-arrived settings mapper plan s in
      rw e (
        arrived-Safe new (turn settings mapper s).1
          (Advances-Safe s _ (λ tag. turn-Advances settings mapper tag s) safe))
  Step-Safe (starts settings available s) safe =
      Advances-Safe s _ (λ tag. recover-Advances settings available tag s) safe
  Step-Safe (drifts gateway outside s) safe = record {
    accounted = safe.accounted;
    unique = safe.unique;
  }

  -- In every reachable state the requests sent under each comment are no more than the signals with
  -- that comment that were taken from the queue, and no two signals have the same id.
  pub Reachable-Safe : {s : Bridge F T} → Reachable s → Safe host.sha256_hex s
  Reachable-Safe (fresh gateway outside) = record {
    accounted = λ tag. omega arith;
    unique = λ i. omega arith;
  }
  Reachable-Safe (after r step) = Step-Safe step (Reachable-Safe r)

  -- In every reachable state at most one order request was handed to `order_send` under a signal's
  -- comment, where no other id of the table has that comment.
  pub sends_at_most_once :
      (s : Bridge F T) (i : String)
      → Reachable s
      → All (Alone host.sha256_hex i) (ids s.db)
      → sends (meb_comment host.sha256_hex i) s.journal ≤ 1
  sends_at_most_once s i reachable no_other =
      let safe = Reachable-Safe reachable in
      let one = safe.unique i in
      let counts =
        count_if-map (λ (j : String). str_eq j i) (λ (r : Signal F). r.signal_id) s.db.signals in
      le_trans (safe.accounted (meb_comment host.sha256_hex i))
        (le_trans (taken-Alone host.sha256_hex i s.db.signals no_other) (rw (← counts) one))
