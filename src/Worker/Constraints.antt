-- ===== src/Worker/Constraints.antt =====
-- The constraints of the schema over the life of the bridge.
pub mod Reached
use mathlib.Core.Path.{subst}
use mt5_execution_bridge.Prelude.{
  ℕ, String, ◌≡◌, refl, sym, ap, inl, inr, Bool, true, false, not, Option, none, some, List, [],
  ◌∷◌, arith, is_none, if◌then◌else◌,
}
use mt5_execution_bridge.Float.{Float}
use mt5_execution_bridge.Models.{ExecutionStatus, Message, review_required, recovered_executed}
use mt5_execution_bridge.Storage.{Signal, Database}
use mt5_execution_bridge.Storage.Signals.{
  NewSignal, claim_next_pending, update_signal_status, find_stuck_processing, insert_signal_if_new,
}
use mt5_execution_bridge.Storage.Rows.{HasSignal}
use mt5_execution_bridge.Storage.Arrivals.{Arrival, Write, arrive_all}
use mt5_execution_bridge.Storage.Schema.{WellFormed}
use mt5_execution_bridge.Storage.Schema.Statements.{
  Write-WellFormed, arrive-WellFormed, claim_next_pending-WellFormed,
  update_signal_status-WellFormed,
}
use mt5_execution_bridge.Services.SymbolMapper.{SymbolMapper}
use mt5_execution_bridge.Config.{Settings}
use mt5_execution_bridge.Outside.{Sdk, Host}
use mt5_execution_bridge.Exec.{
  Bridge, Outcome, ok, returned, raised, Exec, transaction, continue, pure, catch_return, ◌>>=◌,
}
use mt5_execution_bridge.Execution.Idle.{
  Idle, Idle-same, Idle-pure, Idle-bind, Idle-utc_now, Idle-query,
}
use mt5_execution_bridge.Execution.Idle.Calls.{Idle-ensure_connected, Idle-history_deals_get}
use mt5_execution_bridge.Execution.Transactions.{transaction_lem}
use mt5_execution_bridge.Execution.Common.{Attempt}
use mt5_execution_bridge.Execution.Recovery.{settle, find_deal_by_comment, reconcile_stuck_signal}
use mt5_execution_bridge.Execution.Pipeline.{
  begin_attempt, run_checks, process_steps, process_signal,
}
use mt5_execution_bridge.Execution.Interleaved.{arrived, Program, aside, writes, reads, binds}
use mt5_execution_bridge.Execution.Interleaved.Moving.{Blind-db, query-db, Program-HasSignal}
use mt5_execution_bridge.Execution.Interleaved.Steps.{Part-run_checks}
use mt5_execution_bridge.Execution.Interleaved.Runs.{Program-begin_attempt, begin_attempt-row}
use mt5_execution_bridge.Worker.{
  submit, process_claimed, claim_and_process, turn, reconcile_all, recover_on_startup,
}
use mt5_execution_bridge.Worker.Amid.{claim_next_pending-HasSignal, turn_amid-arrived}
use mt5_execution_bridge.Worker.System.{
  new_gateway, Step, submits, takes_turn, takes_turn_amid, starts, drifts, Reachable, fresh, after,
}

module _ {F T : Type 0} where
  -- An action that keeps the constraints, however it ends.
  pub record Sound {A : Type 0} (m : Exec F T A) : Type 0 where
    pub at : (s : Bridge F T) → WellFormed s.db → WellFormed (m s).1.db

  module _ {A : Type 0} where
    pub Sound-Idle : {m : Exec F T A} → Idle m → Sound m
    Sound-Idle {m} idle = record { at = λ s w. subst WellFormed (sym (Idle-same m s idle).0) w }

    pub Sound-if : (b : Bool) (m n : Exec F T A) → Sound m → Sound n → Sound (if b then m else n)
    Sound-if true m n hm hn = hm
    Sound-if false m n hm hn = hn

  pub Sound-bind :
      {A B : Type 0} {m : Exec F T A} {f : A → Exec F T B}
      → Sound m
      → ((a : A) → Sound (f a))
      → Sound (m >>= f)
  unfolding ◌>>=◌
  Sound-bind {A} {B} {m} {f} hm hf = record { at = λ s w. go (m s) (hm.at s w) }
    where
      go : (r : Outcome A × Bridge F T) → WellFormed r.1.db → WellFormed (continue r.0 f r.1).1.db
      go (ok a, s) w = (hf a).at s w
      go (returned st, s) w = w
      go (raised e, s) w = w

module _ {F T : Type 0} ⦃host : Host T⦄ where
  pub transaction-WellFormed :
      {A : Type 0} (op : ℕ → Database F → A × Database F) (s : Bridge F T)
      → ((now : ℕ) → WellFormed (op now s.db).1)
      → WellFormed s.db
      → WellFormed (transaction op s).1.db
  transaction-WellFormed op s keeps w = elim (transaction_lem op s) [
    | inl (e, t, raises) ↦ rw raises w
    | inr (now, t, done) ↦ rw done (keeps now)
  ]

  Sound-transaction :
      {A : Type 0} (op : ℕ → Database F → A × Database F)
      → ((now : ℕ) (db : Database F) → WellFormed db → WellFormed (op now db).1)
      → Sound {T = T} (transaction op)
  Sound-transaction op keeps = record {
    at = λ s w. transaction-WellFormed op s (λ now. keeps now s.db w) w;
  }

  pub Sound-submit : (signal : NewSignal F) → Sound {T = T} (submit signal)
  unfolding submit
  Sound-submit signal =
      Sound-bind (Sound-transaction (insert_signal_if_new signal) (arrive-WellFormed signal))
        λ r. Sound-Idle (Idle-pure _)

  pub Sound-settle :
      (row : Signal F) (st : ExecutionStatus) (reason : Option (Message F))
      → Sound {T = T} (settle row st reason)
  unfolding settle
  Sound-settle row st reason =
      Sound-bind
        (Sound-transaction (update_signal_status row.signal_id st reason none)
          (update_signal_status-WellFormed row.signal_id st reason none))
        λ _. Sound-Idle (Idle-pure st)

  -- The statements of a run, where its signal is in the table.
  pub Program-WellFormed :
      {i : String} {A : Type 0} {m : Exec F T A}
      → Program i A m
      → (s : Bridge F T) → HasSignal i s.db
      → WellFormed s.db
      → WellFormed (m s).1.db
  unfolding ◌>>=◌
  Program-WellFormed (aside b) s h w = subst WellFormed (sym (Blind-db b s)) w
  Program-WellFormed (writes {op = op} write) s h w =
      transaction-WellFormed op s (λ now. Write-WellFormed write now s.db h w) w
  Program-WellFormed (reads {q = q} r) s h w = subst WellFormed (sym (query-db q s)) w
  Program-WellFormed {i} (binds {A} {B} {m} {f} p q) s h w =
      go (m s) (Program-HasSignal p s h) (Program-WellFormed p s h w)
        (λ a. Program-WellFormed (q a))
    where
      go :
          (r : Outcome A × Bridge F T)
          → HasSignal i r.1.db
          → WellFormed r.1.db
          → ((a : A) (s' : Bridge F T)
              → HasSignal i s'.db
              → WellFormed s'.db
              → WellFormed (f a s').1.db)
          → WellFormed (continue r.0 f r.1).1.db
      go (ok a, s') h w keeps = keeps a s' h w
      go (returned st, s') h w keeps = w
      go (raised e, s') h w keeps = w
