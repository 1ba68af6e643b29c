-- ===== src/Execution/Outcomes.antt =====
-- The results of `process_signal`.
use mathlib.Core.Path.{subst}
use mt5_execution_bridge.Prelude.{
  get_or, String, str_eq, ap, sym, ◌∙◌, some, is_none, find, select, Bool-cases, Option-cases, suc,
  ◌≡◌, ◌≢◌, ◌++◌, refl, Bool, true, false, List, [], ◌∷◌, inl, inr, arith, count_if,
  count_if-append,
}
use mt5_execution_bridge.Float.{Float}
use mathlib.Core.Option
use mt5_execution_bridge.Models.{ExecutionStatus, processing, is_processing}
use mt5_execution_bridge.Storage.Signals.{
  has_signal_id, row_is_processing, get_signal, find_stuck_processing,
}
use mt5_execution_bridge.Storage.{Signal, Database}
use mt5_execution_bridge.Storage.Rows.{status_of, HasStatus, HasExecutionStatus}
use mt5_execution_bridge.Services.SymbolMapper.{SymbolMapper}
use mt5_execution_bridge.Config.{Settings, live_execution_allowed}
use mt5_execution_bridge.Outside.{Failure, Sdk, Host}
use mt5_execution_bridge.Exec.{Event, checked, sent, Bridge, Outcome, ok, returned, raised}
use mt5_execution_bridge.Execution.Pipeline.{begin_attempt, process_signal}
use mt5_execution_bridge.Execution.Quiet.{IsFinal}
use mt5_execution_bridge.Execution.Admission.{IsFresh}
use mt5_execution_bridge.Execution.Passing.{process_signal-Passed}
use mt5_execution_bridge.Execution.Trail.{IsVetted, Trail}
use mt5_execution_bridge.Execution.Trail.Runs.{job_of, IsTraced, Finished, process_signal-Finished}

find-select :
    {A : Type 0} (p q : A → Bool) (xs : List A) (x : A)
    → find p xs ≡ some x
    → q x ≡ true
    → is_none (find p (select q xs)) ≡ false
find-select p q [] x h hit = cc
find-select p q (y ∷ ys) x h hit = elim (Bool-cases (p y)) [
  | inl here ↦
      let e : some y ≡ some x = ground (arith, here, h) in
      ground (arith, here, ap q (ap (λ o. get_or o y) e), hit)
  | inr miss ↦ ground (arith, miss, h, find-select p q ys x (ground (arith, miss, h)) hit)
]

pub find_stuck_processing-finds :
    {F : Type 0} (i : String) (db : Database F)
    → HasStatus i processing db
    → is_none (find (has_signal_id i) (find_stuck_processing db)) ≡ false
unfolding find_stuck_processing get_signal
find_stuck_processing-finds {F} i db h = elim (Option-cases (find (has_signal_id i) db.signals)) [
  | inl missing ↦ ground (arith, missing, h)
  | inr (r, found) ↦ find-select (has_signal_id i) row_is_processing db.signals r found (
      ap (λ o. is_processing (get_or o processing))
        (sym (ap (Option.map (λ (q : Signal F). q.status)) found) ∙ h))
]

longer : {A : Type 0} (xs : List A) (x : A) (ys : List A) → xs ≢ xs ++ x ∷ ys
longer [] x ys e = cc
longer (y ∷ xs) x ys e = longer xs x ys cc

abbrev pub is_sent : {F : Type 0} → Event F → Bool
is_sent (checked r) = false
is_sent (sent r) = true

module _ {F T : Type 0} ⦃float : Float F⦄ ⦃sdk : Sdk F T⦄ ⦃host : Host T⦄ where
  process_signal-IsTraced :
      (settings : Settings F) (mapper : SymbolMapper) (row : Signal F) (s : Bridge F T)
      → IsTraced host.sha256_hex settings mapper row s.journal
          (process_signal settings mapper row s).1.journal
  process_signal-IsTraced settings mapper row s =
      ended (process_signal settings mapper row s)
        (process_signal-Finished (λ _. true) settings mapper row s)
    where
      ended :
          (r : Outcome ExecutionStatus × Bridge F T)
          → Finished host.sha256_hex settings mapper row (λ _. true) s r
          → IsTraced host.sha256_hex settings mapper row s.journal r.1.journal
      ended (ok st, s') (_, _, _, trail, _, _, _) = trail
      ended (returned st, s') h = absurd h
      ended (raised e, s') (trail, _, _, _) = trail

  -- When the run had inserted its row the signal was fresh, by the clock that the run then read.
  abbrev pub WasFresh : Settings F → Signal F → Bridge F T → Type 0
  WasFresh settings row s =
      (begun : Bridge F T) × (begin_attempt settings row s ≡ (ok (job_of settings row s), begun))
      × IsFresh settings row begun

  -- Whatever the terminal, the clock and the database answer, and also where a call fails, a run of
  -- `process_signal` hands at most one request to `order_check` and, only after that and only where
  -- live execution is allowed, the same request once to `order_send`. That request is for the mapped
  -- symbol, carries the signal's comment tag, the magic number and the signal's side, stop loss and
  -- take profit. The configuration enables the signal's action, the stop-loss and risk-percent checks
  -- have passed, and at the time that the clock gave once the run's row was inserted the signal was
  -- neither too old nor too far in the future.
  pub process_signal-Trail :
      (settings : Settings F) (mapper : SymbolMapper) (row : Signal F) (s : Bridge F T)
      → Trail
          (λ r. IsVetted mapper host.sha256_hex settings row r × WasFresh settings row s)
          (live_execution_allowed settings)
          s.journal
          (process_signal settings mapper row s).1.journal
  process_signal-Trail settings mapper row s =
      elim (process_signal-IsTraced settings mapper row s) [
        | inl same ↦ inl same
        | inr (r, vetted, inl grows) ↦
            inr (r, (vetted, fresh (λ same. longer _ _ [] (sym same ∙ grows))), inl grows)
        | inr (r, vetted, inr (live, grows)) ↦
            inr (r, (vetted, fresh (λ same. longer _ _ _ (sym same ∙ grows))), inr (live, grows))
      ]
    where
      fresh :
          ¬ ((process_signal settings mapper row s).1.journal ≡ s.journal) → WasFresh settings row s
      fresh hands =
          let (begun, e, passed) = process_signal-Passed settings mapper row s hands in
          (begun, e, passed.is_fresh)

  -- Where `process_signal` returns a status, that status is final (neither PENDING nor PROCESSING),
  -- the signal's row has it, the row of `executions` that the run inserted has it as well, and every
  -- other signal has the status that it had before.
  pub process_signal-files :
      (settings : Settings F) (mapper : SymbolMapper) (row : Signal F) (s s' : Bridge F T)
      (st : ExecutionStatus)
      → process_signal settings mapper row s ≡ (ok st, s')
      → HasStatus row.signal_id st s'.db
        × HasExecutionStatus (suc s.db.executions_seq) st s'.db
        × IsFinal st
        × ((i : String) → str_eq row.signal_id i ≡ false → status_of i s'.db ≡ status_of i s.db)
  process_signal-files settings mapper row s s' st e =
      let (h, h', final, _, _, _, others) =
        subst (λ r. Finished host.sha256_hex settings mapper row (λ _. true) s r) e
          (process_signal-Finished (λ _. true) settings mapper row s) in
      (h, h', final, others)

  -- Where live execution is not allowed (a dry run, or the second flag off), no run hands anything
  -- to `order_send`.
  pub process_signal-dry_run :
      (settings : Settings F) (mapper : SymbolMapper) (row : Signal F) (s : Bridge F T)
      → live_execution_allowed settings ≡ false
      → count_if is_sent (process_signal settings mapper row s).1.journal
        ≡ count_if is_sent s.journal
  process_signal-dry_run settings mapper row s dry =
      unsent _ _ (process_signal-IsTraced settings mapper row s)
    where
      unsent :
          (j j' : List (Event F))
          → Trail
              (IsVetted mapper host.sha256_hex settings row)
              (live_execution_allowed settings)
              j
              j'
          → count_if is_sent j' ≡ count_if is_sent j
      unsent j j' (inl e) = rw e refl
      unsent j j' (inr (r, good, inl e)) =
          rw e (omega (arith, count_if-append is_sent j (checked r ∷ [])))
      unsent j j' (inr (r, good, inr (on, e))) = cc

  -- Where a run of `process_signal` on a PROCESSING signal fails, by an exception or by the death of
  -- the process, the signal's row is still PROCESSING, so that it is among the rows that
  -- `find_stuck_processing` gives to the recovery at the next start.
  pub process_signal-raises :
      (settings : Settings F) (mapper : SymbolMapper) (row : Signal F) (s s' : Bridge F T)
      (e : Failure)
      → HasStatus row.signal_id processing s.db
      → process_signal settings mapper row s ≡ (raised e, s')
      → HasStatus row.signal_id processing s'.db
        × (is_none (find (has_signal_id row.signal_id) (find_stuck_processing s'.db)) ≡ false)
  process_signal-raises settings mapper row s s' e before fails =
      let (_, _, _, same) =
        subst (λ r. Finished host.sha256_hex settings mapper row (λ _. true) s r) fails
          (process_signal-Finished (λ _. true) settings mapper row s) in
      let still = same row.signal_id ∙ before in
      (still, find_stuck_processing-finds row.signal_id s'.db still)
