-- ===== src/Execution/Interleaved/Runs.antt =====
-- `process_signal` in the worker's thread, with signals that the API submits in between.
use mathlib.Core.Path.{subst}
use mt5_execution_bridge.Prelude.{◌≡◌, refl, sym, ap}
use mt5_execution_bridge.Float.{Float}
use mt5_execution_bridge.Models.{ExecutionStatus}
use mt5_execution_bridge.Storage.{Signal}
use mt5_execution_bridge.Storage.Rows.{HasSignal}
use mt5_execution_bridge.Storage.Arrivals.{inserts}
use mt5_execution_bridge.Services.SymbolMapper.{SymbolMapper}
use mt5_execution_bridge.Config.{Settings}
use mt5_execution_bridge.Outside.{Sdk, Host, integrity_error}
use mt5_execution_bridge.Exec.{Bridge, Outcome, ok, catch_return, ◌>>=◌}
use mt5_execution_bridge.Execution.Common.{Attempt}
use mt5_execution_bridge.Execution.Pipeline.{
  execution_fields, begin_attempt, run_checks, process_steps, process_signal,
}
use mt5_execution_bridge.Execution.Trail.Runs.{Begun, begin_attempt-Begun}
use mt5_execution_bridge.Execution.Interleaved.{
  arrived, Plan, Program, aside, writes, binds, Woven, resume, weave,
}
use mt5_execution_bridge.Execution.Interleaved.Moving.{Program-HasSignal, Program-moves}
use mt5_execution_bridge.Execution.Interleaved.Weaving.{Linear, weave-Linear, resume-Linear}
use mt5_execution_bridge.Execution.Interleaved.Calls.{Blind-pure, Blind-or_raise, Blind-utc_now}
use mt5_execution_bridge.Execution.Interleaved.Steps.{Part-run_checks}

module _ {F T : Type 0} ⦃host : Host T⦄ where
  pub Program-begin_attempt :
      (settings : Settings F) (row : Signal F)
      → Program {T = T} row.signal_id (Attempt F) (begin_attempt settings row)
  unfolding begin_attempt
  Program-begin_attempt settings row = binds (aside Blind-utc_now) λ t.
      binds (writes (inserts (execution_fields settings row t) refl))
        λ o. binds (aside (Blind-or_raise integrity_error o)) λ n. aside (Blind-pure _)

module _ {F T : Type 0} ⦃float : Float F⦄ ⦃sdk : Sdk F T⦄ ⦃host : Host T⦄ where
  abbrev returned_from : Woven F T ExecutionStatus → Woven F T ExecutionStatus
  returned_from ((o, s), plan) = ((catch_return o, s), plan)

  -- The run, with the next signals of the plan arriving before each of its transactions.
  unfoldable pub process_signal_amid :
      Settings F → SymbolMapper → Signal F → Plan F → Bridge F T → Woven F T ExecutionStatus
  process_signal_amid settings mapper row plan s = returned_from (
      resume (weave (Program-begin_attempt settings row) plan s)
        (λ job. weave (Part-run_checks job mapper)))

  -- The run's row is that of its job.
  pub begin_attempt-row :
      (settings : Settings F) (row : Signal F) (s : Bridge F T) (job : Attempt F) (s' : Bridge F T)
      → begin_attempt settings row s ≡ (ok job, s')
      → job.row.signal_id ≡ row.signal_id
  begin_attempt-row settings row s job s' e =
      ap (λ (j : Attempt F). j.row.signal_id)
        (subst (Begun settings row s) e (begin_attempt-Begun settings row s)).0

  process_steps-Linear :
      (settings : Settings F) (mapper : SymbolMapper) (row : Signal F) (plan : Plan F)
      (s : Bridge F T)
      → HasSignal row.signal_id s.db
      → Linear (process_steps settings mapper row s) plan (
          resume
            (weave (Program-begin_attempt settings row) plan s)
            (λ job. weave (Part-run_checks job mapper)))
  unfolding process_steps ◌>>=◌
  process_steps-Linear settings mapper row plan s h =
      let begins = Program-begin_attempt {T = T} settings row in
      resume-Linear (run_checks mapper) (λ job. weave (Part-run_checks job mapper)) row.signal_id
        (begin_attempt settings row s) plan _ (weave-Linear begins plan s h)
        (Program-HasSignal begins s h)
        (λ job s' new plan' e.
          let own = sym (begin_attempt-row settings row s job s' e) in
          let there =
            subst (λ (r : Outcome (Attempt F) × Bridge F T). HasSignal row.signal_id r.1.db) e
              (Program-HasSignal begins s h) in
          (
            Program-moves (Part-run_checks job mapper) new s'
                (subst (λ j. HasSignal j s'.db) own there),
            λ h'.
                weave-Linear (Part-run_checks job mapper) plan' (arrived new s')
                  (subst (λ j. HasSignal j (arrived new s').db) own h'),
          ))

  -- A run of `process_signal` for a signal of the table, with other signals submitted before any of
  -- its transactions, gives what the run alone gives: the same status or failure, the same requests
  -- to the terminal, and the same database but for the submissions. It is as if those that came
  -- during the run, which are the first of the plan in their order, had come behind it.
  pub process_signal-Linear :
      (settings : Settings F) (mapper : SymbolMapper) (row : Signal F) (plan : Plan F)
      (s : Bridge F T)
      → HasSignal row.signal_id s.db
      → Linear
          (process_signal settings mapper row s)
          plan
          (process_signal_amid settings mapper row plan s)
  unfolding process_signal process_signal_amid
  process_signal-Linear settings mapper row plan s h =
      let l = process_steps-Linear settings mapper row plan s h in
      record {
        new = l.new;
        first = l.first;
        same = ap (λ (r : Outcome ExecutionStatus × Bridge F T). (catch_return r.0, r.1)) l.same;
      }
